-- ===== src/Container.antt =====
-- src/container.c: a quantity that puts raise and gets lower, with two first-in first-out queues of
-- those that wait. The linked lists from head to tail are lists.
pub mod History
pub mod Keeping
pub mod Level
use simpyc.Prelude.{ℕ, Bool, true, false, ◌&&◌, List, [], ◌∷◌, ◌++◌, if◌then◌else◌, Double, Ptr}
pub use simpyc.Objects.Buffers.{CqNode, Container}
use simpyc.State.{Env}
use simpyc.Event.{event_alloc, sim_event_succeed, mark_recyclable}

unfoldable pub sim_container_create : {D : Type 0} → Ptr → D → D → Container D
sim_container_create self capacity init = record {
  self = self;
  capacity = capacity;
  level = init;
  puts = [];
  gets = [];
}

module _ {D : Type 0} where
  unfoldable pub cq_push : List (CqNode D) → ℕ → D → List (CqNode D)
  cq_push q ev amount = q ++ record { event = ev; amount = amount } ∷ []

module _ {D : Type 0} ⦃F : Double D⦄ where
  -- The loop of try_wake_gets over the queue `q`.
  unfoldable pub wake_gets : Container D → List (CqNode D) → Env D → Container D × Env D
  wake_gets c [] env = (record c { gets = [] }, env)
  wake_gets c (n ∷ q) env =
      let rest =
        wake_gets (record c { level = F.sub c.level n.amount }) q
          (sim_event_succeed env n.event c.self) in
      if F.le n.amount c.level then rest else (record c { gets = n ∷ q }, env)

  unfoldable pub try_wake_gets : Container D → Env D → Container D × Env D
  unfolding wake_gets
  try_wake_gets c env = wake_gets c c.gets env

  -- The loop of try_wake_puts over the queue `q`.
  unfoldable pub wake_puts : Container D → List (CqNode D) → Env D → Container D × Env D
  wake_puts c [] env = (record c { puts = [] }, env)
  wake_puts c (n ∷ q) env =
      let rest =
        wake_puts (record c { level = F.add c.level n.amount }) q
          (sim_event_succeed env n.event c.self) in
      if F.le (F.add c.level n.amount) c.capacity then rest else (record c { puts = n ∷ q }, env)

  unfoldable pub try_wake_puts : Container D → Env D → Container D × Env D
  unfolding wake_puts
  try_wake_puts c env = wake_puts c c.puts env

  abbrev pub is_empty : List (CqNode D) → Bool
  is_empty [] = true
  is_empty (n ∷ q) = false

  unfoldable pub sim_container_put : Container D → Env D → D → ℕ × Container D × Env D
  unfolding try_wake_gets cq_push
  sim_container_put c env amount =
      let (ev, env') = event_alloc env in
      let env'' = mark_recyclable env' ev in
      if is_empty c.puts && F.le (F.add c.level amount) c.capacity
      then (let (c', woken) =
            try_wake_gets (record c { level = F.add c.level amount })
              (sim_event_succeed env'' ev c.self) in
          (ev, c', woken))
      else (ev, record c { puts = cq_push c.puts ev amount }, env'')

  unfoldable pub sim_container_get : Container D → Env D → D → ℕ × Container D × Env D
  unfolding try_wake_puts cq_push
  sim_container_get c env amount =
      let (ev, env') = event_alloc env in
      let env'' = mark_recyclable env' ev in
      if is_empty c.gets && F.le amount c.level
      then (let (c', woken) =
            try_wake_puts (record c { level = F.sub c.level amount })
              (sim_event_succeed env'' ev c.self) in
          (ev, c', woken))
      else (ev, record c { gets = cq_push c.gets ev amount }, env'')

abbrev pub sim_container_level : {D : Type 0} → Container D → D
sim_container_level c = c.level

abbrev pub sim_container_capacity : {D : Type 0} → Container D → D
sim_container_capacity c = c.capacity
