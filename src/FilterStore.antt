-- ===== src/FilterStore.antt =====
-- src/filter_store.c: a store whose gets take a predicate. The linked lists are lists. A filter is
-- a function of the user, here the parameter `test` at its number; it answers by the item and the
-- cookie alone. A capacity that is not positive is no bound.
pub mod Keeping
pub mod Matching
pub mod History
pub mod Missed
use simpyc.Prelude.{
  int_of, dec32, inc32, ℕ, ◌+◌, ◌-◌, Bool, true, not, ◌&&◌, Option, none, some, List, [], ◌∷◌, ◌++◌,
  if◌then◌else◌, ℤ, pos, ltb_ℤ, Double, Ptr,
}
pub use simpyc.Objects.Filtered.{GetWaiter, PutWaiter, FilterStore}
use simpyc.State.{Env}
use simpyc.Event.{event_alloc, sim_event_succeed, mark_recyclable}

unfoldable pub sim_filter_store_create : Ptr → ℤ → FilterStore
sim_filter_store_create self capacity = record {
  self = self;
  capacity = capacity;
  count = 0;
  items = [];
  gets = [];
  puts = [];
}

unfoldable pub buffer_item : FilterStore → Ptr → FilterStore
buffer_item s item = record s { items = s.items ++ item ∷ []; count = inc32 s.count }

-- `capacity > 0 && count >= capacity`.
abbrev pub is_full : FilterStore → Bool
is_full s = ltb_ℤ (pos 0) s.capacity && not (ltb_ℤ (int_of s.count) s.capacity)

-- The filters of the user: the function, the item and the cookie.
abbrev pub Filters : Type 0
Filters = ℕ → Ptr → Ptr → Bool

module _ (test : Filters) where
  unfoldable pub accepts : Option ℕ → Ptr → Ptr → Bool
  accepts none user item = true
  accepts (some f) user item = test f item user

  -- The walk along the items for the first that the filter accepts: that item, and the others.
  unfoldable pub take_item : Option ℕ → Ptr → List Ptr → Option (Ptr × List Ptr)
  take_item f user [] = none
  take_item f user (x ∷ xs) =
      if accepts f user x
      then some (x, xs)
      else elim (take_item f user xs) [ none ↦ none | some (y, ys) ↦ some (y, x ∷ ys) ]

  -- The walk along the waiters for the first that accepts the item: that waiter, and the others.
  unfoldable pub take_waiter : Ptr → List GetWaiter → Option (GetWaiter × List GetWaiter)
  take_waiter item [] = none
  take_waiter item (g ∷ gs) =
      if accepts g.filter g.user item
      then some (g, gs)
      else elim (take_waiter item gs) [ none ↦ none | some (h, hs) ↦ some (h, g ∷ hs) ]

  -- The two loops of try_dispatch_to_waiters: the first waiter that accepts an item of the buffer,
  -- with that item, the other waiters and the other items.
  unfoldable pub find_match :
      List GetWaiter → List Ptr → Option (GetWaiter × Ptr × List GetWaiter × List Ptr)
  unfolding take_item
  find_match [] items = none
  find_match (g ∷ gs) items = elim (take_item g.filter g.user items) [
    | some (x, xs) ↦ some (g, x, gs, xs)
    | none ↦ elim (find_match gs items) [
      | none ↦ none
      | some (h, x, hs, xs) ↦ some (h, x, g ∷ hs, xs)
    ]
  ]

  module _ {D : Type 0} ⦃F : Double D⦄ where
    -- What try_dispatch_to_waiters does with the match that it finds.
    unfoldable pub serve_match :
        FilterStore
        → Env D
        → Option (GetWaiter × Ptr × List GetWaiter × List Ptr)
        → FilterStore × Env D
    serve_match s env none = (s, env)
    serve_match s env (some (g, x, gs, xs)) =
        (record s { items = xs; count = dec32 s.count; gets = gs }, sim_event_succeed env g.event x)

    unfoldable pub try_dispatch_to_waiters : FilterStore → Env D → FilterStore × Env D
    unfolding find_match serve_match
    try_dispatch_to_waiters s env = serve_match s env (find_match s.gets s.items)

    unfoldable pub sim_filter_store_put : FilterStore → Env D → Ptr → ℕ × FilterStore × Env D
    unfolding take_waiter buffer_item
    sim_filter_store_put s env item =
        let (ev, env') = event_alloc env in
        let env'' = mark_recyclable env' ev in
        if is_full s
        then (ev, record s { puts = s.puts ++ record { event = ev; item = item } ∷ [] }, env'')
        else elim (take_waiter item s.gets) [
          | some (g, gs) ↦ (
            ev,
            record s { gets = gs },
            sim_event_succeed (sim_event_succeed env'' g.event item) ev s.self,
          )
          | none ↦ (ev, buffer_item s item, sim_event_succeed env'' ev s.self)
        ]

    -- The waiting putter that takes the freed place, and the waiter that its item may serve.
    unfoldable pub drain : FilterStore → List PutWaiter → Env D → FilterStore × Env D
    unfolding try_dispatch_to_waiters buffer_item
    drain s [] env = (s, env)
    drain s (w ∷ q) env =
        try_dispatch_to_waiters (buffer_item (record s { puts = q }) w.item)
          (sim_event_succeed env w.event s.self)

    -- sim_filter_store_get by what the scan of the buffer finds.
    unfoldable pub get_found :
        FilterStore → Env D → ℕ → Option ℕ → Ptr → Option (Ptr × List Ptr) → FilterStore × Env D
    unfolding drain
    get_found s env ev filter user (some (x, xs)) =
        drain (record s { items = xs; count = dec32 s.count }) s.puts (sim_event_succeed env ev x)
    get_found s env ev filter user none = (
      record s { gets = s.gets ++ record { event = ev; filter = filter; user = user } ∷ [] },
      env,
    )

    unfoldable pub sim_filter_store_get :
        FilterStore → Env D → Option ℕ → Ptr → ℕ × FilterStore × Env D
    unfolding take_item get_found
    sim_filter_store_get s env filter user =
        let (ev, env') = event_alloc env in
        let (s', env'') =
          get_found s (mark_recyclable env' ev) ev filter user (take_item filter user s.items) in
        (ev, s', env'')

abbrev pub sim_filter_store_count : FilterStore → ℤ
sim_filter_store_count s = int_of s.count
