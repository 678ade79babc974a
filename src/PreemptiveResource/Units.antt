-- ===== src/PreemptiveResource/Units.antt =====
-- src/preemptive_resource.c: the units, the holders and the sorted queue.
use simpyc.Prelude.{
  ◌^◌, ℕ, ◌+◌, ◌-◌, ◌≤◌, ◌<◌, ◌≡◌, ◌⊎◌, inl, inr, Bool, true, false, Option, some, [], arith,
  Bool-cases, u64_mod, inc64, ℤ, pos, ltb_ℤ, Double, length, get_elem?,
}
use simpyc.State.{Env}
use simpyc.Event.{Call, event_alloc}
use simpyc.SortedQueue.{Node}
use simpyc.SortedQueue.Order.{
  IsSorted, IsNumbered, All-insert, insert-IsSorted, length-insert, IsNumbered-mono,
}
use simpyc.PreemptiveResource.{
  PreemptiveResource, Holder, Waiter, sim_preemptive_resource_request, insert_waiter, add_holder,
  enqueue, evict,
}
use simpyc.PreemptiveResource.Weakest.{find_weakest_lem, length-unlink_at}

-- The counter of the units in use counts the holders, which are no more than the units; the counter
-- of the queue is right; nobody waits while a unit is free; and the queue is sorted.
pub record IsSound (r : PreemptiveResource) : Type 0 where
  pub held : r.in_use ≡ length r.holders
  pub bounded : (r.in_use ≡ 0) ⊎ (ltb_ℤ r.capacity (pos r.in_use) ≡ false)
  pub counted : r.queue_len ≡ length r.waiters
  pub small : r.queue_len < 2 ^ 31
  pub busy : (r.waiters ≡ []) ⊎ (ltb_ℤ (pos r.in_use) r.capacity ≡ false)
  pub sorted : IsSorted r.waiters
  pub numbered : IsNumbered r.next_seq r.waiters

-- A call leaves the resource sound, takes one sequence number at most and adds one waiter at most.
abbrev pub Keeps : PreemptiveResource → PreemptiveResource → Type 0
Keeps r r' = IsSound r' × (r'.next_seq ≤ r.next_seq + 1) × (r'.queue_len ≤ r.queue_len + 1)

pub enqueue-Keeps :
    (r : PreemptiveResource) (ev : ℕ) (requester : Option ℕ) (priority : ℤ) (preempt : Bool)
    → IsSound r
    → r.next_seq + 1 < u64_mod
    → r.queue_len + 1 < 2 ^ 31
    → ltb_ℤ (pos r.in_use) r.capacity ≡ false
    → Keeps r (enqueue r ev requester priority preempt)
unfolding enqueue insert_waiter
enqueue-Keeps r ev requester priority preempt s room space full =
    let n : Node Waiter = record {
      priority = priority;
      seq = r.next_seq;
      payload = record { req = ev; owner = requester; preempt = preempt };
    } in
    (
      record {
        held = s.held;
        bounded = s.bounded;
        counted = omega (arith, s.counted, length-insert n r.waiters);
        small = omega (arith, space);
        busy = inr full;
        sorted = insert-IsSorted n r.waiters s.sorted;
        numbered =
            All-insert (λ x. x.seq < inc64 r.next_seq) n r.waiters (omega arith)
              (IsNumbered-mono r.next_seq (inc64 r.next_seq) r.waiters (omega arith) s.numbered);
      },
      omega arith,
      omega (arith, space),
    )

grant-Keeps :
    (r : PreemptiveResource) (ev : ℕ) (requester : Option ℕ) (priority : ℤ)
    → IsSound r
    → ltb_ℤ (pos r.in_use) r.capacity ≡ true
    → Keeps r (add_holder r ev requester priority)
unfolding add_holder
grant-Keeps r ev requester priority s free = (
  record {
    held = omega (arith, s.held);
    bounded = ground arith;
    counted = s.counted;
    small = s.small;
    busy = ground (arith, s.busy);
    sorted = s.sorted;
    numbered = s.numbered;
  },
  omega arith,
  omega arith,
)

module _ {D : Type 0} ⦃F : Double D⦄ where
  evict-Keeps :
      (call : Call D) (r : PreemptiveResource) (env : Env D) (ev : ℕ) (requester : Option ℕ)
      (priority : ℤ) (h : Holder) (k : ℕ)
      → IsSound r
      → get_elem? r.holders k ≡ some h
      → Keeps r (evict call r env ev requester priority (h, k)).0
  unfolding evict add_holder
  evict-Keeps call r env ev requester priority h k s there =
      let size = length-unlink_at r.holders k h there in
      let same : r.in_use - 1 + 1 ≡ r.in_use = omega (arith, s.held) in
      (
        record {
          held = omega (arith, s.held);
          bounded = rw same s.bounded;
          counted = s.counted;
          small = s.small;
          busy = rw same s.busy;
          sorted = s.sorted;
          numbered = s.numbered;
        },
        omega arith,
        omega arith,
      )

  pub request-Keeps :
      (call : Call D) (r : PreemptiveResource) (env : Env D) (requester : Option ℕ) (priority : ℤ)
      (preempt : Bool)
      → IsSound r
      → r.next_seq + 1 < u64_mod
      → r.queue_len + 1 < 2 ^ 31
      → Keeps r (sim_preemptive_resource_request call r env requester priority preempt).1
  unfolding sim_preemptive_resource_request
  request-Keeps call r env requester priority false s room space =
      let ev = (event_alloc env).0 in
      elim (Bool-cases (ltb_ℤ (pos r.in_use) r.capacity)) [
        | inl free ↦ rw free (grant-Keeps r ev requester priority s free)
        | inr full ↦ rw full (enqueue-Keeps r ev requester priority false s room space full)
      ]
  request-Keeps call r env requester priority true s room space =
      let ev = (event_alloc env).0 in
      elim (Bool-cases (ltb_ℤ (pos r.in_use) r.capacity)) [
        | inl free ↦ rw free (grant-Keeps r ev requester priority s free)
        | inr full ↦ rw full (elim (find_weakest_lem r.holders) [
          | inl (_, e) ↦ rw e (enqueue-Keeps r ev requester priority true s room space full)
          | inr (h, k, e, there, _) ↦ rw e (elim (Bool-cases (ltb_ℤ priority h.priority)) [
            | inl wins ↦
                rw wins (evict-Keeps call r (event_alloc env).1 ev requester priority h k s there)
            | inr loses ↦ rw loses (enqueue-Keeps r ev requester priority true s room space full)
          ])
        ])
      ]
