-- ===== src/FifoStore.antt =====
-- src/store.c: a buffer of items, first in first out, with queues of those that wait to get and to
-- put. The linked lists from head to tail are lists. A capacity that is not positive is no bound.
pub mod Served
pub mod Ledger
pub mod History
pub mod Keeping
pub mod Order
use simpyc.Prelude.{
  int_of, dec32, inc32, ℕ, ◌+◌, ◌-◌, Bool, not, ◌||◌, List, [], ◌∷◌, ◌++◌, ltb, if◌then◌else◌, ℤ,
  pos, ltb_ℤ, Double, Ptr, null,
}
pub use simpyc.Objects.Buffers.{WaiterNode, Store}
use simpyc.State.{Env}
use simpyc.Event.{event_alloc, sim_event_succeed, mark_recyclable}

unfoldable pub sim_store_create : Ptr → ℤ → Store
sim_store_create self capacity = record {
  self = self;
  capacity = capacity;
  count = 0;
  items = [];
  gets = [];
  puts = [];
}

unfoldable pub item_push : Store → Ptr → Store
item_push s item = record s { items = s.items ++ item ∷ []; count = inc32 s.count }

unfoldable pub waiter_push : List WaiterNode → ℕ → Ptr → List WaiterNode
waiter_push q ev item = q ++ record { event = ev; item = item } ∷ []

-- `capacity <= 0 || count < capacity`.
abbrev pub has_room : Store → Bool
has_room s = not (ltb_ℤ (pos 0) s.capacity) || ltb_ℤ (int_of s.count) s.capacity

module _ {D : Type 0} ⦃F : Double D⦄ where
  unfoldable pub put_item : Store → List WaiterNode → Env D → ℕ → Ptr → Store × Env D
  unfolding item_push waiter_push
  put_item s (w ∷ q) env ev item =
      (record s { gets = q }, sim_event_succeed (sim_event_succeed env w.event item) ev s.self)
  put_item s [] env ev item =
      if has_room s
      then (item_push s item, sim_event_succeed env ev s.self)
      else (record s { puts = waiter_push s.puts ev item }, env)

  unfoldable pub sim_store_put : Store → Env D → Ptr → ℕ × Store × Env D
  unfolding put_item
  sim_store_put s env item =
      let (ev, env') = event_alloc env in
      let (s', env'') = put_item s s.gets (mark_recyclable env' ev) ev item in (ev, s', env'')

  -- The waiting putter that takes the freed place.
  unfoldable pub refill : Store → List WaiterNode → Env D → Store × Env D
  unfolding item_push
  refill s [] env = (s, env)
  refill s (w ∷ q) env =
      (item_push (record s { puts = q }) w.item, sim_event_succeed env w.event s.self)

  -- sim_store_get by the buffer. The C code tests `count > 0` and reads the head of the list.
  unfoldable pub get_item : Store → List Ptr → Env D → ℕ → Store × Env D
  unfolding refill waiter_push
  get_item s [] env ev = (record s { gets = waiter_push s.gets ev null }, env)
  get_item s (item ∷ rest) env ev =
      if ltb_ℤ (pos 0) (int_of s.count)
      then refill (record s { items = rest; count = dec32 s.count }) s.puts
          (sim_event_succeed env ev item)
      else (record s { gets = waiter_push s.gets ev null }, env)

  unfoldable pub sim_store_get : Store → Env D → ℕ × Store × Env D
  unfolding get_item
  sim_store_get s env =
      let (ev, env') = event_alloc env in
      let (s', env'') = get_item s s.items (mark_recyclable env' ev) ev in (ev, s', env'')

abbrev pub sim_store_count : Store → ℤ
sim_store_count s = int_of s.count
