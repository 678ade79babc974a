-- ===== src/PreemptiveResource.antt =====
-- src/preemptive_resource.c: a resource whose units a more urgent request may take away. The list
-- of holders has the latest in front. Events, processes and `self` are as in State.
pub mod Release
pub mod History
pub mod Eviction
pub mod Keeping
pub mod Units
pub mod Weakest
use simpyc.Prelude.{
  inc32, dec32, int_of, ℕ, zero, suc, ◌+◌, ◌-◌, Bool, false, Option, none, some, List, [], ◌∷◌,
  ◌==◌, if◌then◌else◌, inc64, ℤ, pos, ltb_ℤ, Double, Ptr,
}
pub use simpyc.Objects.Resources.{Holder, Waiter, PreemptiveResource}
use simpyc.State.{Env}
use simpyc.Event.{Call, event_alloc, sim_event_succeed, recycle_request}
use simpyc.Process.{sim_process_interrupt}
use simpyc.SortedQueue.{Node, insert}

unfoldable pub sim_preemptive_resource_create : Ptr → ℤ → PreemptiveResource
sim_preemptive_resource_create self capacity = record {
  self = self;
  capacity = capacity;
  in_use = 0;
  queue_len = 0;
  holders = [];
  waiters = [];
  next_seq = 0;
}

unfoldable pub insert_waiter : PreemptiveResource → Node Waiter → PreemptiveResource
unfolding insert
insert_waiter r n = record r { waiters = insert n r.waiters; queue_len = inc32 r.queue_len }

-- The walk of find_weakest behind the first holder: the best so far and its place, and the place
-- of the holder that is looked at.
unfoldable pub weakest_from : Holder → ℕ → ℕ → List Holder → Holder × ℕ
weakest_from best at i [] = (best, at)
weakest_from best at i (h ∷ hs) =
    weakest_from (if ltb_ℤ best.priority h.priority then h else best)
      (if ltb_ℤ best.priority h.priority then i else at) (i + 1) hs

-- The weakest holder and its place in the list.
unfoldable pub find_weakest : List Holder → Option (Holder × ℕ)
unfolding weakest_from
find_weakest [] = none
find_weakest (h ∷ hs) = some (weakest_from h 0 1 hs)

-- `*prev = victim->next`.
unfoldable pub unlink_at : List Holder → ℕ → List Holder
unlink_at [] i = []
unlink_at (h ∷ hs) zero = hs
unlink_at (h ∷ hs) (suc i) = h ∷ unlink_at hs i

-- The holders without the first that has the request, if one has.
unfoldable pub unlink_request : ℕ → List Holder → Option (List Holder)
unlink_request req [] = none
unlink_request req (h ∷ hs) =
    if h.req == req
    then some hs
    else elim (unlink_request req hs) [ none ↦ none | some rest ↦ some (h ∷ rest) ]

unfoldable pub add_holder : PreemptiveResource → ℕ → Option ℕ → ℤ → PreemptiveResource
add_holder r req owner priority = record r {
  holders = record { req = req; owner = owner; priority = priority; preempted = false } ∷ r.holders;
  in_use = r.in_use + 1;
}

-- The resource when the walk along the holders has ended.
unfoldable pub take_out : PreemptiveResource → Option (List Holder) → PreemptiveResource
take_out r none = r
take_out r (some rest) = record r { holders = rest; in_use = r.in_use - 1 }

-- The first part of sim_preemptive_resource_release.
unfoldable pub drop_holder : PreemptiveResource → Option ℕ → PreemptiveResource
unfolding unlink_request take_out
drop_holder r none = r
drop_holder r (some req) = take_out r (unlink_request req r.holders)

unfoldable pub enqueue : PreemptiveResource → ℕ → Option ℕ → ℤ → Bool → PreemptiveResource
enqueue r ev requester priority preempt =
    insert_waiter (record r { next_seq = inc64 r.next_seq })
      (record {
        priority = priority;
        seq = r.next_seq;
        payload = record { req = ev; owner = requester; preempt = preempt };
      })

module _ {D : Type 0} ⦃F : Double D⦄ where
  -- The eviction of the holder at a place, for the request `ev`.
  unfoldable pub evict :
      Call D
      → PreemptiveResource
      → Env D
      → ℕ
      → Option ℕ
      → ℤ
      → Holder × ℕ
      → PreemptiveResource × Env D
  evict call r env ev requester priority (victim, place) =
      let freed = record r { holders = unlink_at r.holders place; in_use = r.in_use - 1 } in
      (
        add_holder freed ev requester priority,
        sim_process_interrupt call (sim_event_succeed env ev r.self) victim.owner ev,
      )

  unfoldable pub sim_preemptive_resource_request :
      Call D → PreemptiveResource → Env D → Option ℕ → ℤ → Bool → ℕ × PreemptiveResource × Env D
  unfolding enqueue evict
  sim_preemptive_resource_request call r env requester priority preempt =
      let (ev, env') = event_alloc env in
      if ltb_ℤ (pos r.in_use) r.capacity
      then (ev, add_holder r ev requester priority, sim_event_succeed env' ev r.self)
      else if preempt
      then elim (find_weakest r.holders) [
        | none ↦ (ev, enqueue r ev requester priority preempt, env')
        | some v ↦
            if ltb_ℤ priority (v.0).priority
            then (let (r', env'') = evict call r env' ev requester priority v in (ev, r', env''))
            else (ev, enqueue r ev requester priority preempt, env')
      ]
      else (ev, enqueue r ev requester priority preempt, env')

  -- The first waiter takes a free unit.
  unfoldable pub pull_waiter :
      PreemptiveResource → List (Node Waiter) → Env D → PreemptiveResource × Env D
  pull_waiter r [] env = (r, env)
  pull_waiter r (w ∷ rest) env =
      if ltb_ℤ (pos r.in_use) r.capacity
      then (
        add_holder (record r { waiters = rest; queue_len = dec32 r.queue_len }) (w.payload).req
            (w.payload).owner w.priority,
        sim_event_succeed env (w.payload).req r.self,
      )
      else (r, env)

  unfoldable pub sim_preemptive_resource_release :
      PreemptiveResource → Env D → Option ℕ → PreemptiveResource × Env D
  unfolding drop_holder pull_waiter
  sim_preemptive_resource_release r env req =
      let dropped = drop_holder r req in
      let (r', env') = pull_waiter dropped dropped.waiters env in (r', recycle_request env' req)

abbrev pub sim_preemptive_resource_count : PreemptiveResource → ℕ
sim_preemptive_resource_count r = r.in_use

abbrev pub sim_preemptive_resource_capacity : PreemptiveResource → ℤ
sim_preemptive_resource_capacity r = r.capacity

abbrev pub sim_preemptive_resource_queue_len : PreemptiveResource → ℤ
sim_preemptive_resource_queue_len r = int_of r.queue_len
