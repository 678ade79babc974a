-- ===== src/PreemptiveResource/Eviction.antt =====
-- src/preemptive_resource.c: whom a request with preemption evicts, and what is left to the victim.
use simpyc.PreemptiveResource.Release.{drop_holder-gone}
use simpyc.PreemptiveResource.Units.{IsSound}
use mathlib.Core.List.{Perm}
use simpyc.Prelude.{
  ℕ, ◌+◌, ◌≡◌, refl, ◌⊎◌, inl, inr, true, false, Option, none, some, List, [], ◌∷◌, arith,
  Bool-cases, ℤ, pos, ltb_ℤ, Double, length, All,
}
use simpyc.State.{Env}
use simpyc.Event.{Call, recycle_request}
use simpyc.SortedQueue.{Node}
use simpyc.SortedQueue.Order.{length-insert}
use simpyc.PreemptiveResource.{
  PreemptiveResource, Holder, Waiter, sim_preemptive_resource_request,
  sim_preemptive_resource_release, insert_waiter, add_holder, enqueue, evict, pull_waiter,
  unlink_at, unlink_request,
}
use simpyc.PreemptiveResource.Weakest.{unlink_at-perm, IsWeaker, find_weakest_lem}

none_weaker :
    (priority : ℤ) (h : Holder) (hs : List Holder)
    → ltb_ℤ priority h.priority ≡ false
    → All (IsWeaker h) hs
    → All (λ x. ltb_ℤ priority x.priority ≡ false) hs
none_weaker priority h [] e a = tt
none_weaker priority h (x ∷ hs) e a = (ground (arith, a.0), none_weaker priority h hs e a.1)

module _ {D : Type 0} ⦃F : Double D⦄ where
  no_room :
      (r : PreemptiveResource) (ws : List (Node Waiter)) (env : Env D)
      → r.waiters ≡ ws
      → IsSound r
      → pull_waiter r ws env ≡ (r, env)
  unfolding pull_waiter
  no_room r [] env e s = refl
  no_room r (w ∷ rest) env e s = ground (arith, s.busy)

  -- The release of a request that holds no unit, such as one that was evicted, leaves the resource
  -- as it is.
  pub release-evicted :
      (r : PreemptiveResource) (env : Env D) (req : ℕ)
      → IsSound r
      → unlink_request req r.holders ≡ none
      → sim_preemptive_resource_release r env (some req) ≡ (r, recycle_request env (some req))
  unfolding sim_preemptive_resource_release
  release-evicted r env req s gone =
      simp (drop_holder-gone r req gone, no_room r r.waiters env refl s)

  -- A request with preemption on a resource without a free unit evicts exactly if some holder is
  -- strictly less urgent. The victim is then a holder that no other is less urgent than, it alone
  -- leaves, and the new holder has the request; otherwise the holders stay as they are.
  pub request_evicts_weakest :
      (call : Call D) (r : PreemptiveResource) (env : Env D) (requester : Option ℕ) (priority : ℤ)
      → ltb_ℤ (pos r.in_use) r.capacity ≡ false
      → let (ev, r', env') = sim_preemptive_resource_request call r env requester priority true in
        ((victim : Holder) × (rest : List Holder) × (ltb_ℤ priority victim.priority ≡ true)
          × All (IsWeaker victim) r.holders
          × Perm (victim ∷ rest) r.holders
          × (r'.holders
              ≡ record { req = ev; owner = requester; priority = priority; preempted = false }
                ∷ rest)
          × (r'.waiters ≡ r.waiters))
        ⊎ (All (λ h. ltb_ℤ priority h.priority ≡ false) r.holders
            × (r'.holders ≡ r.holders)
            × (length r'.waiters ≡ length r.waiters + 1))
  unfolding sim_preemptive_resource_request evict add_holder enqueue insert_waiter
  request_evicts_weakest call r env requester priority full =
      rw full (elim (find_weakest_lem r.holders) [
        | inl (none_held, e) ↦ rw e (inr ((rw none_held tt), refl, length-insert _ r.waiters))
        | inr (h, k, e, there, weakest) ↦ rw e (elim (Bool-cases (ltb_ℤ priority h.priority)) [
          | inl wins ↦ rw wins (
              inl (
                h,
                unlink_at r.holders k,
                wins,
                weakest,
                unlink_at-perm r.holders k h there,
                refl,
                refl,
              ))
          | inr loses ↦ rw loses (
              inr (none_weaker priority h r.holders loses weakest, refl, length-insert _ r.waiters))
        ])
      ])
