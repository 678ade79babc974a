-- ===== src/FilterStore/Missed.antt =====
-- src/filter_store.c: a put that goes on waiting although there is room.
use simpyc.Prelude.{ℕ, ◌≡◌, refl, true, false, Option, some, List, [], ◌∷◌, arith, pos, Double, Ptr}
use simpyc.State.{Env}
use simpyc.FilterStore.{
  serve_match, get_found, FilterStore, GetWaiter, PutWaiter, Filters, accepts, take_item,
  find_match, try_dispatch_to_waiters, drain, buffer_item, sim_filter_store_get, is_full,
}

module _ (test : Filters) where
  take_only :
      (filter : Option ℕ) (user x : Ptr)
      → accepts test filter user x ≡ true
      → take_item test filter user (x ∷ []) ≡ some (x, [])
  unfolding take_item
  take_only filter user x h = rw h refl

  match_only :
      (g : GetWaiter) (x : Ptr)
      → accepts test g.filter g.user x ≡ true
      → find_match test (g ∷ []) (x ∷ []) ≡ some (g, x, [], [])
  unfolding find_match
  match_only g x h = ground (arith, take_only g.filter g.user x h)

module _ (test : Filters) {D : Type 0} ⦃F : Double D⦄ where
  -- A full store for one item, with a get waiting that accepts the item of the first waiting put. A
  -- get that takes the item in the store lets that put in, the waiting get takes its item in turn,
  -- and then the store is empty and has room, but the other puts still wait, and no get does.
  pub sim_filter_store_get-misses :
      (s : FilterStore) (env : Env D) (filter : Option ℕ) (user x : Ptr) (g : GetWaiter)
      (w w' : PutWaiter) (q : List PutWaiter)
      → s.capacity ≡ pos 1
      → s.count ≡ 1
      → s.items ≡ x ∷ []
      → s.gets ≡ g ∷ []
      → s.puts ≡ w ∷ w' ∷ q
      → accepts test filter user x ≡ true
      → accepts test g.filter g.user w.item ≡ true
      → let (ev, s', env') = sim_filter_store_get test s env filter user in
        (s'.items ≡ []) × (is_full s' ≡ false) × (s'.gets ≡ []) × (s'.puts ≡ w' ∷ q)
  unfolding sim_filter_store_get get_found drain try_dispatch_to_waiters serve_match buffer_item
  sim_filter_store_get-misses s env filter user x g w w' q room full one waits puts takes fits =
      rw
        (
          one,
          puts,
          take_only test filter user x takes,
          waits,
          match_only test g w.item fits,
          room,
          full,
        )
        (refl, refl, refl, refl)
