-- ===== src/PriorityStore.antt =====
-- src/priority_store.c: a store that hands out the item of the lowest priority value, the earliest
-- first. The linked lists are lists. A capacity that is not positive is no bound.
pub mod History
pub mod Keeping
pub mod Order
use simpyc.Prelude.{
  int_of, dec32, inc32, ℕ, ◌+◌, ◌-◌, Bool, not, ◌&&◌, List, [], ◌∷◌, ◌++◌, if◌then◌else◌, inc64, ℤ,
  pos, ltb_ℤ, Double, Ptr,
}
pub use simpyc.Objects.Buffers.{PutWaiter, PriorityStore}
use simpyc.State.{Env}
use simpyc.Event.{event_alloc, sim_event_succeed, mark_recyclable}
use simpyc.SortedQueue.{Node, insert}

unfoldable pub sim_priority_store_create : Ptr → ℤ → PriorityStore
sim_priority_store_create self capacity = record {
  self = self;
  capacity = capacity;
  count = 0;
  next_seq = 0;
  items = [];
  gets = [];
  puts = [];
}

-- The new node, its number and its insertion in the list.
unfoldable pub item_insert_sorted : PriorityStore → ℤ → Ptr → PriorityStore
unfolding insert
item_insert_sorted s priority item = record s {
  items = insert (record { priority = priority; seq = s.next_seq; payload = item }) s.items;
  next_seq = inc64 s.next_seq;
  count = inc32 s.count;
}

-- `capacity > 0 && count >= capacity`.
abbrev pub is_full : PriorityStore → Bool
is_full s = ltb_ℤ (pos 0) s.capacity && not (ltb_ℤ (int_of s.count) s.capacity)

module _ {D : Type 0} ⦃F : Double D⦄ where
  -- The first waiter gets the first item.
  unfoldable pub serve : PriorityStore → List ℕ → List (Node Ptr) → Env D → PriorityStore × Env D
  serve s [] items env = (s, env)
  serve s (g ∷ q) [] env = (s, env)
  serve s (g ∷ q) (top ∷ rest) env = (
    record s { items = rest; count = dec32 s.count; gets = q },
    sim_event_succeed env g top.payload,
  )

  unfoldable pub sim_priority_store_put :
      PriorityStore → Env D → ℤ → Ptr → ℕ × PriorityStore × Env D
  unfolding item_insert_sorted serve
  sim_priority_store_put s env priority item =
      let (ev, env') = event_alloc env in
      let env'' = mark_recyclable env' ev in
      if is_full s
      then (
        ev,
        record s { puts = s.puts ++ record { event = ev; item = item; priority = priority } ∷ [] },
        env'',
      )
      else (let s' = item_insert_sorted s priority item in
          let (s'', served) = serve s' s'.gets s'.items (sim_event_succeed env'' ev s.self) in
          (ev, s'', served))

  -- The waiting putter that takes the freed place.
  unfoldable pub drain : PriorityStore → List PutWaiter → Env D → PriorityStore × Env D
  unfolding item_insert_sorted
  drain s [] env = (s, env)
  drain s (w ∷ q) env = (
    item_insert_sorted (record s { puts = q }) w.priority w.item,
    sim_event_succeed env w.event s.self,
  )

  unfoldable pub get_top : PriorityStore → List (Node Ptr) → Env D → ℕ → PriorityStore × Env D
  unfolding drain
  get_top s [] env ev = (record s { gets = s.gets ++ ev ∷ [] }, env)
  get_top s (top ∷ rest) env ev =
      drain (record s { items = rest; count = dec32 s.count }) s.puts
        (sim_event_succeed env ev top.payload)

  unfoldable pub sim_priority_store_get : PriorityStore → Env D → ℕ × PriorityStore × Env D
  unfolding get_top
  sim_priority_store_get s env =
      let (ev, env') = event_alloc env in
      let (s', env'') = get_top s s.items (mark_recyclable env' ev) ev in (ev, s', env'')

abbrev pub sim_priority_store_count : PriorityStore → ℤ
sim_priority_store_count s = int_of s.count
