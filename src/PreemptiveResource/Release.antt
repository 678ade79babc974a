-- ===== src/PreemptiveResource/Release.antt =====
-- src/preemptive_resource.c: a release keeps the resource sound.
use simpyc.PreemptiveResource.Units.{IsSound, Keeps}
use simpyc.Prelude.{
  suc, ◌∙◌, ◌≤◌, ◌<◌, ◌^◌, dec32-small, ℕ, ◌+◌, ◌-◌, ◌≡◌, refl, ap, ◌⊎◌, inl, inr, false, Option,
  none, some, List, [], ◌∷◌, arith, Bool-cases, pos, ltb_ℤ, Double, length,
}
use simpyc.State.{Env}
use simpyc.SortedQueue.{Node}
use simpyc.SortedQueue.Order.{IsSorted, IsNumbered}
use simpyc.PreemptiveResource.{
  take_out, PreemptiveResource, Holder, Waiter, sim_preemptive_resource_release, add_holder,
  drop_holder, pull_waiter, unlink_request,
}
use simpyc.PreemptiveResource.Weakest.{length-unlink_request}

-- After the release of a unit there may be room: all but that a free unit makes nobody wait.
record IsOpen (r : PreemptiveResource) : Type 0 where
  held : r.in_use ≡ length r.holders
  bounded : (r.in_use ≡ 0) ⊎ (ltb_ℤ r.capacity (pos r.in_use) ≡ false)
  counted : r.queue_len ≡ length r.waiters
  small : r.queue_len < 2 ^ 31
  nearly : (r.waiters ≡ []) ⊎ (ltb_ℤ (pos (r.in_use + 1)) r.capacity ≡ false)
  sorted : IsSorted r.waiters
  numbered : IsNumbered r.next_seq r.waiters

closed-IsOpen : (r : PreemptiveResource) → IsSound r → IsOpen r
closed-IsOpen r s = record {
  held = s.held;
  bounded = s.bounded;
  counted = s.counted;
  small = s.small;
  nearly = ground (arith, s.busy);
  sorted = s.sorted;
  numbered = s.numbered;
}

take_out-IsOpen :
    (r : PreemptiveResource) (req : ℕ) (o : Option (List Holder))
    → unlink_request req r.holders ≡ o
    → IsSound r
    → IsOpen (take_out r o)
unfolding take_out
take_out-IsOpen r req none e s = closed-IsOpen r s
take_out-IsOpen r req (some rest) e s =
    let size = length-unlink_request req r.holders rest e in
    let same : r.in_use - 1 + 1 ≡ r.in_use = omega (arith, s.held) in
    record {
      held = omega (arith, s.held);
      bounded = ground (arith, s.bounded);
      counted = s.counted;
      small = s.small;
      nearly = rw same s.busy;
      sorted = s.sorted;
      numbered = s.numbered;
    }

drop_holder-IsOpen :
    (r : PreemptiveResource) (req : Option ℕ) → IsSound r → IsOpen (drop_holder r req)
unfolding drop_holder
drop_holder-IsOpen r none s = closed-IsOpen r s
drop_holder-IsOpen r (some req) s = take_out-IsOpen r req (unlink_request req r.holders) refl s

pub drop_holder-gone :
    (r : PreemptiveResource) (req : ℕ)
    → unlink_request req r.holders ≡ none
    → drop_holder r (some req) ≡ r
unfolding drop_holder
drop_holder-gone r req gone = ap (take_out r) gone

drop_holder-next_seq :
    (r : PreemptiveResource) (req : Option ℕ) → (drop_holder r req).next_seq ≡ r.next_seq
unfolding drop_holder
drop_holder-next_seq r none = refl
drop_holder-next_seq r (some req) = ground arith

drop_holder-queue_len :
    (r : PreemptiveResource) (req : Option ℕ) → (drop_holder r req).queue_len ≡ r.queue_len
unfolding drop_holder
drop_holder-queue_len r none = refl
drop_holder-queue_len r (some req) = ground arith

module _ {D : Type 0} ⦃F : Double D⦄ where
  pull_waiter-IsSound :
      (r : PreemptiveResource) (ws : List (Node Waiter)) (env : Env D)
      → r.waiters ≡ ws
      → IsOpen r
      → let r' = (pull_waiter r ws env).0 in
        IsSound r' × (r'.next_seq ≡ r.next_seq) × (r'.queue_len ≤ r.queue_len)
  unfolding pull_waiter add_holder
  pull_waiter-IsSound r [] env e o = (
    record {
      held = o.held;
      bounded = o.bounded;
      counted = o.counted;
      small = o.small;
      busy = inl e;
      sorted = o.sorted;
      numbered = o.numbered;
    },
    refl,
    omega arith,
  )
  pull_waiter-IsSound r (w ∷ rest) env e o =
      let size : r.queue_len ≡ suc (length rest) = o.counted ∙ ap length e in
      let less = dec32-small r.queue_len (omega (arith, size)) o.small in
      elim (Bool-cases (ltb_ℤ (pos r.in_use) r.capacity)) [
        | inl free ↦ rw free (
          record {
            held = omega (arith, o.held);
            bounded = ground arith;
            counted = omega (arith, size, less);
            small = omega (arith, o.small, less);
            busy = ground (arith, o.nearly);
            sorted = (rw e at o.sorted).1;
            numbered = (rw e at o.numbered).1;
          },
          refl,
          omega (arith, less),
        )
        | inr full ↦ rw full (
          record {
            held = o.held;
            bounded = o.bounded;
            counted = o.counted;
            small = o.small;
            busy = inr full;
            sorted = o.sorted;
            numbered = o.numbered;
          },
          refl,
          omega arith,
        )
      ]

  pub release-IsSound :
      (r : PreemptiveResource) (env : Env D) (req : Option ℕ)
      → IsSound r
      → let r' = (sim_preemptive_resource_release r env req).0 in Keeps r r'
  unfolding sim_preemptive_resource_release
  release-IsSound r env req s =
      let (sound, same, fewer) =
        pull_waiter-IsSound (drop_holder r req) (drop_holder r req).waiters env refl
          (drop_holder-IsOpen r req s) in
      (
        sound,
        omega (arith, same, drop_holder-next_seq r req),
        omega (arith, fewer, drop_holder-queue_len r req),
      )
