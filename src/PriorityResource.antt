-- ===== src/PriorityResource.antt =====
-- src/priority_resource.c: as src/resource.c, with the queue in the order of priority and arrival.
pub mod Keeping
pub mod Units
use simpyc.Prelude.{
  inc32, dec32, int_of, ℕ, ◌+◌, ◌-◌, Option, List, [], ◌∷◌, ◌==◌, if◌then◌else◌, inc64, ℤ, pos,
  ltb_ℤ, Double, Ptr,
}
pub use simpyc.Objects.Resources.{PriorityResource}
use simpyc.State.{Env}
use simpyc.Event.{event_alloc, sim_event_succeed, recycle_request}
use simpyc.SortedQueue.{Node, insert}

unfoldable pub sim_priority_resource_create : Ptr → ℤ → PriorityResource
sim_priority_resource_create self capacity = record {
  self = self;
  capacity = capacity;
  in_use = 0;
  queue_len = 0;
  queue = [];
  next_seq = 0;
}

unfoldable pub insert_sorted : PriorityResource → Node ℕ → PriorityResource
unfolding insert
insert_sorted r n = record r { queue = insert n r.queue; queue_len = inc32 r.queue_len }

module _ {D : Type 0} ⦃F : Double D⦄ where
  unfoldable pub sim_priority_resource_request :
      PriorityResource → Env D → ℤ → ℕ × PriorityResource × Env D
  sim_priority_resource_request r env priority =
      let (ev, env') = event_alloc env in
      if ltb_ℤ (pos r.in_use) r.capacity
      then (ev, record r { in_use = r.in_use + 1 }, sim_event_succeed env' ev r.self)
      else (
        ev,
        insert_sorted (record r { next_seq = inc64 r.next_seq })
            (record { priority = priority; seq = r.next_seq; payload = ev }),
        env',
      )

  -- The unit goes to the first waiter, or back.
  unfoldable pub hand_off : PriorityResource → List (Node ℕ) → Env D → PriorityResource × Env D
  hand_off r [] env = (record r { in_use = r.in_use - 1 }, env)
  hand_off r (n ∷ rest) env = (
    record r { queue = rest; queue_len = dec32 r.queue_len },
    sim_event_succeed env n.payload r.self,
  )

  unfoldable pub sim_priority_resource_release :
      PriorityResource → Env D → Option ℕ → PriorityResource × Env D
  unfolding hand_off
  sim_priority_resource_release r env req =
      if r.in_use == 0
      then (r, env)
      else (let (r', env') = hand_off r r.queue env in (r', recycle_request env' req))

abbrev pub sim_priority_resource_count : PriorityResource → ℕ
sim_priority_resource_count r = r.in_use

abbrev pub sim_priority_resource_capacity : PriorityResource → ℤ
sim_priority_resource_capacity r = r.capacity

abbrev pub sim_priority_resource_queue_len : PriorityResource → ℤ
sim_priority_resource_queue_len r = int_of r.queue_len
