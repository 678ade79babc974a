-- ===== src/Resource.antt =====
-- src/resource.c: a number of units and a first-in first-out queue of requests. The linked list
-- from `head` to `tail` is the list of the waiting events. `self` is the address of the object.
pub mod Keeping
pub mod Units
pub mod Turns
use simpyc.Prelude.{
  inc32, dec32, int_of, ℕ, ◌+◌, ◌-◌, Option, List, [], ◌∷◌, ◌++◌, ◌==◌, if◌then◌else◌, ℤ, pos,
  ltb_ℤ, Double, Ptr,
}
pub use simpyc.Objects.Resources.{Resource}
use simpyc.State.{Env}
use simpyc.Event.{event_alloc, sim_event_succeed, recycle_request}

unfoldable pub sim_resource_create : Ptr → ℤ → Resource
sim_resource_create self capacity = record {
  self = self;
  capacity = capacity;
  in_use = 0;
  queue_len = 0;
  queue = [];
}

module _ {D : Type 0} ⦃F : Double D⦄ where
  -- The event of the request, the resource and the environment.
  unfoldable pub sim_resource_request : Resource → Env D → ℕ × Resource × Env D
  sim_resource_request r env =
      let (ev, env') = event_alloc env in
      if ltb_ℤ (pos r.in_use) r.capacity
      then (ev, record r { in_use = r.in_use + 1 }, sim_event_succeed env' ev r.self)
      else (ev, record r { queue = r.queue ++ ev ∷ []; queue_len = inc32 r.queue_len }, env')

  -- The unit goes to the first waiter, or back.
  unfoldable pub hand_off : Resource → List ℕ → Env D → Resource × Env D
  hand_off r [] env = (record r { in_use = r.in_use - 1 }, env)
  hand_off r (ev ∷ rest) env =
      (record r { queue = rest; queue_len = dec32 r.queue_len }, sim_event_succeed env ev r.self)

  unfoldable pub sim_resource_release : Resource → Env D → Option ℕ → Resource × Env D
  unfolding hand_off
  sim_resource_release r env req =
      if r.in_use == 0
      then (r, env)
      else (let (r', env') = hand_off r r.queue env in (r', recycle_request env' req))

abbrev pub sim_resource_count : Resource → ℕ
sim_resource_count r = r.in_use

abbrev pub sim_resource_capacity : Resource → ℤ
sim_resource_capacity r = r.capacity

abbrev pub sim_resource_queue_len : Resource → ℤ
sim_resource_queue_len r = int_of r.queue_len
