-- ===== src/PreemptiveResource/Keeping.antt =====
-- src/preemptive_resource.c: requests, evictions included, keep the invariant of the whole
-- environment.
use simpyc.Prelude.{
  ℕ, none, some, refl, ◌≡◌, List, [], ◌∷◌, ◌+◌, ◌^◌, ◌<◌, inl, inr, Bool, false, Option, arith,
  Bool-cases, Option-cases, ℤ, pos, ltb_ℤ, Double,
}
use simpyc.State.{Env}
use simpyc.Event.Validity.{HasRoom}
use simpyc.Dispatch.Events.{succeed-Kept}
use simpyc.Dispatch.Runs.{Runs, ReleaseFits, recycle_request-Runs, succeed-processes}
use simpyc.Event.{recycle_request, Call, event_alloc}
use simpyc.SortedQueue.{Node}
use simpyc.PreemptiveResource.{
  Holder, take_out, drop_holder, unlink_request, pull_waiter, sim_preemptive_resource_release,
  PreemptiveResource, Waiter, find_weakest, enqueue, insert_waiter, add_holder, evict,
  sim_preemptive_resource_request,
}
use simpyc.Dispatch.Kept.{IsKept, Kept, Kept-refl}
use simpyc.Dispatch.Held.{
  IsHeldPreemptiveResource, Allocated, Allocated-insert, Allocated-grow, node_request,
}
use simpyc.Dispatch.Serving.{
  Allocated-later, Spends, Spends-more, Spends-trans, succeed-Spends, and_interrupt, alloc-Opened,
}

module _ {D : Type 0} ⦃F : Double D⦄ (call : Call D) where
  abbrev Fits : ℕ → Env D → ℕ × PreemptiveResource × Env D → Type 0
  Fits n env (ev, r', env') = Spends n env env' × IsHeldPreemptiveResource r' env'.n_events

  enqueue-Fits :
      (r : PreemptiveResource) (env env' : Env D) (ev : ℕ) (requester : Option ℕ) (priority : ℤ)
      (preempt : Bool)
      → Spends 0 env env'
      → IsHeldPreemptiveResource r env'.n_events
      → ev < env'.n_events
      → Fits 2 env (ev, enqueue r ev requester priority preempt, env')
  unfolding enqueue insert_waiter
  enqueue-Fits r env env' ev requester priority preempt t h lt = (
    Spends-more 2 (omega arith) t,
    Allocated-insert node_request env'.n_events
        (record {
          priority = priority;
          seq = r.next_seq;
          payload = record { req = ev; owner = requester; preempt = preempt };
        })
        r.waiters lt h,
  )

  pub request-Fits :
      (r : PreemptiveResource) (env : Env D) (requester : Option ℕ) (priority : ℤ) (preempt : Bool)
      → IsKept env
      → IsHeldPreemptiveResource r env.n_events
      → env.next_seq + 2 < 2 ^ 58
      → let (ev, r', env') =
          sim_preemptive_resource_request call r env requester priority preempt in
        Spends 2 env env' × IsHeldPreemptiveResource r' env'.n_events
  unfolding sim_preemptive_resource_request add_holder evict
  request-Fits r env requester priority preempt k h room =
      let (ev, env') = event_alloc env in
      let o = alloc-Opened env k in
      let h' = Allocated-later node_request r.waiters o.spends h in
      let waits =
        λ (p : Bool). enqueue-Fits r env env' ev requester priority p o.spends h' o.allocated in
      let t =
        succeed-Spends env' ev r.self o.spends.kept.kept (omega (arith, o.spends.seq))
          o.allocated in
      let granted = Spends-trans 0 1 env env' _ o.spends t in
      let held = Allocated-later node_request r.waiters t h' in
      elim (Bool-cases (ltb_ℤ (pos r.in_use) r.capacity)) [
        | inl free ↦ rw free (Spends-more 2 (omega arith) granted, held)
        | inr full ↦ rw full (elim (Bool-cases preempt) [
          | inr polite ↦ rw polite (waits false)
          | inl urgent ↦ rw urgent (elim (Option-cases (find_weakest r.holders)) [
            | inl e ↦ rw e (waits preempt)
            | inr (v, e) ↦ rw e (elim (Bool-cases (ltb_ℤ priority (v.0).priority)) [
              | inr weaker ↦ rw weaker (waits preempt)
              | inl stronger ↦
                  let all = and_interrupt call (v.0).owner ev (omega arith) granted in
                  let last =
                    and_interrupt call (v.0).owner ev (omega (arith, o.spends.seq, t.seq)) t in
                  rw stronger (all, Allocated-later node_request r.waiters last h')
            ])
          ])
        ])
      ]

take_out-waiters :
    (r : PreemptiveResource) (o : Option (List Holder)) → (take_out r o).waiters ≡ r.waiters
unfolding take_out
take_out-waiters r none = refl
take_out-waiters r (some rest) = refl

drop_holder-waiters :
    (r : PreemptiveResource) (req : Option ℕ) → (drop_holder r req).waiters ≡ r.waiters
unfolding drop_holder
drop_holder-waiters r none = refl
drop_holder-waiters r (some req) = take_out-waiters r (unlink_request req r.holders)

module _ {D : Type 0} ⦃F : Double D⦄ where
  pull_waiter-Kept :
      (r : PreemptiveResource) (q : List (Node Waiter)) (env : Env D)
      → IsKept env
      → HasRoom env
      → Allocated node_request env.n_events r.waiters
      → r.waiters ≡ q
      → let (r', env') = pull_waiter r q env in
        Kept env env'
        × (env'.processes ≡ env.processes)
        × Allocated node_request env.n_events r'.waiters
  unfolding pull_waiter add_holder
  pull_waiter-Kept r [] env k room h e = (Kept-refl env k, refl, h)
  pull_waiter-Kept r (w ∷ rest) env k room h e =
      let queue : Allocated node_request env.n_events (w ∷ rest) = rw e at h in
      elim (Bool-cases (ltb_ℤ (pos r.in_use) r.capacity)) [
        | inr full ↦ rw full (Kept-refl env k, refl, h)
        | inl free ↦ rw free (
          succeed-Kept env (w.payload).req r.self k room queue.0,
          succeed-processes env (w.payload).req r.self,
          queue.1,
        )
      ]

  pub release-Runs :
      (here : Option ℕ) (r : PreemptiveResource) (env : Env D) (req : Option ℕ)
      → IsKept env
      → IsHeldPreemptiveResource r env.n_events
      → HasRoom env
      → ReleaseFits here req env
      → let (r', env') = sim_preemptive_resource_release r env req in
        Runs here env env' × IsHeldPreemptiveResource r' env'.n_events
  unfolding sim_preemptive_resource_release
  release-Runs here r env req k h room f =
      let dropped = drop_holder r req in
      let (r', env') = pull_waiter dropped dropped.waiters env in
      let (t, same, held) =
        pull_waiter-Kept dropped dropped.waiters env k room (rw (drop_holder-waiters r req) h)
          refl in
      let runs = recycle_request-Runs here req env env' t same f in
      (
        runs,
        Allocated-grow node_request env.n_events (recycle_request env' req).n_events r'.waiters
            runs.grows held,
      )
