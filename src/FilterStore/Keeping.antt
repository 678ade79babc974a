-- ===== src/FilterStore/Keeping.antt =====
-- src/filter_store.c: puts and gets keep the invariant of the whole environment.
use simpyc.Prelude.{
  dec32, ℕ, ◌+◌, ◌^◌, ◌<◌, ◌≡◌, refl, ◌⊎◌, inl, inr, Option, none, some, List, [], ◌∷◌, ◌++◌, arith,
  Bool-cases, Option-cases, Double, Ptr,
}
use simpyc.State.{Env}
use simpyc.Event.{event_alloc, sim_event_succeed}
use simpyc.Event.Delivery.{opened}
use simpyc.FilterStore.{
  FilterStore, GetWaiter, PutWaiter, Filters, accepts, is_full, buffer_item, take_item, take_waiter,
  find_match, serve_match, try_dispatch_to_waiters, drain, get_found, sim_filter_store_put,
  sim_filter_store_get,
}
use simpyc.Dispatch.Kept.{IsKept}
use simpyc.Dispatch.Held.{IsHeldFilterStore, Allocated, Allocated-wait, filter_event, put_event}
use simpyc.Dispatch.Serving.{
  Allocated-later, Spends, Spends-trans, Spends-more, succeed-Spends, and_succeed, opened-Opened,
}

-- A walk along the waiters finds nothing, or one of them, and leaves the others.
module _ {D : Type 0} (test : Filters) (env : Env D) where
  take_waiter-Allocated :
      (item : Ptr) (gs : List GetWaiter)
      → Allocated filter_event env.n_events gs
      → (take_waiter test item gs ≡ none)
        ⊎ ((g : GetWaiter) × (hs : List GetWaiter) × (take_waiter test item gs ≡ some (g, hs))
            × (g.event < env.n_events)
            × Allocated filter_event env.n_events hs)
  unfolding take_waiter
  take_waiter-Allocated item [] a = inl refl
  take_waiter-Allocated item (x ∷ xs) a = elim (Bool-cases (accepts test x.filter x.user item)) [
    | inl takes ↦ rw takes (inr (x, xs, refl, a.0, a.1))
    | inr refuses ↦ rw refuses (elim (take_waiter-Allocated item xs a.1) [
      | inl e ↦ rw e (inl refl)
      | inr (h, hs, e, lt, b) ↦ rw e (inr (h, x ∷ hs, refl, lt, (a.0, b)))
    ])
  ]

  find_match-Allocated :
      (gs : List GetWaiter) (items : List Ptr)
      → Allocated filter_event env.n_events gs
      → (find_match test gs items ≡ none)
        ⊎ ((g : GetWaiter) × (x : Ptr) × (hs : List GetWaiter) × (xs : List Ptr) × (find_match test
                gs items
              ≡ some (g, x, hs, xs))
            × (g.event < env.n_events)
            × Allocated filter_event env.n_events hs)
  unfolding find_match
  find_match-Allocated [] items a = inl refl
  find_match-Allocated (y ∷ ys) items a =
      elim (Option-cases (take_item test y.filter y.user items)) [
        | inr ((x, xs), e) ↦ rw (e, find_match) (inr (y, x, ys, xs, refl, a.0, a.1))
        | inl e ↦
            rw (e, find_match)
              (elim (find_match-Allocated ys items a.1) [
                | inl f ↦ rw f (inl refl)
                | inr (h, x, hs, xs, f, lt, b) ↦ rw f (inr (h, x, y ∷ hs, xs, refl, lt, (a.0, b)))
              ])
      ]

module _ {D : Type 0} ⦃F : Double D⦄ (test : Filters) where
  IsHeld-later :
      {n : ℕ} {s : FilterStore} {env env' : Env D}
      → Spends n env env'
      → IsHeldFilterStore s env.n_events
      → IsHeldFilterStore s env'.n_events
  IsHeld-later {s = s} t h = record {
    gets = Allocated-later filter_event s.gets t h.gets;
    puts = Allocated-later put_event s.puts t h.puts;
  }

  -- What a call does to the environment, with the store that it leaves.
  abbrev Fits : ℕ → Env D → FilterStore × Env D → Type 0
  Fits n env (s', env') = Spends n env env' × IsHeldFilterStore s' env'.n_events

  drain-Fits :
      (s : FilterStore) (puts : List PutWaiter) (env env' : Env D)
      → s.puts ≡ puts
      → Spends 1 env env'
      → IsHeldFilterStore s env.n_events
      → env.next_seq + 3 < 2 ^ 58
      → Fits 3 env (drain test s puts env')
  unfolding drain try_dispatch_to_waiters serve_match buffer_item
  drain-Fits s [] env env' e t h room = (Spends-more 3 (omega arith) t, IsHeld-later t h)
  drain-Fits s (w ∷ q) env env' e t h room =
      let queue : Allocated put_event env.n_events (w ∷ q) =
        rw e at (let waiters : Allocated put_event env.n_events s.puts = h.puts in waiters) in
      let t' = and_succeed w.event s.self (omega arith) t queue.0 in
      elim (find_match-Allocated test env s.gets (s.items ++ w.item ∷ []) h.gets) [
        | inl f ↦ rw f (
          Spends-more 3 (omega arith) t',
          record {
            gets = Allocated-later filter_event s.gets t' h.gets;
            puts = Allocated-later put_event q t' queue.1;
          },
        )
        | inr (g, x, hs, xs, f, lt, b) ↦
            let t'' = and_succeed g.event x (omega arith) t' lt in
            rw f (
              t'',
              record {
                gets = Allocated-later filter_event hs t'' b;
                puts = Allocated-later put_event q t'' queue.1;
              },
            )
      ]

  pub put-Fits :
      (s : FilterStore) (env : Env D) (item : Ptr)
      → IsKept env
      → IsHeldFilterStore s env.n_events
      → env.next_seq + 2 < 2 ^ 58
      → let (ev, s', env') = sim_filter_store_put test s env item in
        Spends 2 env env' × IsHeldFilterStore s' env'.n_events
  unfolding sim_filter_store_put buffer_item
  put-Fits s env item k h room =
      let ev = (event_alloc env).0 in
      let env' = opened env in
      let o = opened-Opened env k in
      let h' = IsHeld-later o.spends h in
      elim (Bool-cases (is_full s)) [
        | inl full ↦ rw full (
          Spends-more 2 (omega arith) o.spends,
          record {
            gets = h'.gets;
            puts =
                Allocated-wait put_event env'.n_events s.puts (record { event = ev; item = item })
                  h'.puts o.allocated;
          },
        )
        | inr free ↦ rw free (elim (take_waiter-Allocated test env' item s.gets h'.gets) [
          | inl f ↦
              let t =
                succeed-Spends env' ev s.self o.spends.kept.kept (omega (arith, o.spends.seq))
                  o.allocated in
              let h'' = IsHeld-later t h' in
              rw f (
                Spends-more 2 (omega arith) (Spends-trans 0 1 env env' _ o.spends t),
                record { gets = h''.gets; puts = h''.puts },
              )
          | inr (g, hs, f, lt, b) ↦
              let t =
                and_succeed ev s.self (omega (arith, o.spends.seq))
                  (succeed-Spends env' g.event item o.spends.kept.kept (omega (arith, o.spends.seq))
                    lt)
                  o.allocated in
              rw f (
                Spends-trans 0 2 env env' _ o.spends t,
                record {
                  gets = Allocated-later filter_event hs t b;
                  puts = Allocated-later put_event s.puts t h'.puts;
                },
              )
        ])
      ]

  pub get-Fits :
      (s : FilterStore) (env : Env D) (filter : Option ℕ) (user : Ptr)
      → IsKept env
      → IsHeldFilterStore s env.n_events
      → env.next_seq + 3 < 2 ^ 58
      → let (ev, s', env') = sim_filter_store_get test s env filter user in
        Spends 3 env env' × IsHeldFilterStore s' env'.n_events
  unfolding sim_filter_store_get get_found
  get-Fits s env filter user k h room =
      let ev = (event_alloc env).0 in
      let env' = opened env in
      let o = opened-Opened env k in
      let h' = IsHeld-later o.spends h in
      elim (Option-cases (take_item test filter user s.items)) [
        | inl f ↦ rw f (
          Spends-more 3 (omega arith) o.spends,
          record {
            gets =
                Allocated-wait filter_event env'.n_events s.gets
                  (record { event = ev; filter = filter; user = user }) h'.gets o.allocated;
            puts = h'.puts;
          },
        )
        | inr ((x, xs), f) ↦
            let (t, held) =
              drain-Fits (record s { items = xs; count = dec32 s.count }) s.puts env'
                (sim_event_succeed env' ev x) refl
                (succeed-Spends env' ev x o.spends.kept.kept (omega (arith, o.spends.seq))
                  o.allocated)
                (record { gets = h'.gets; puts = h'.puts }) (omega (arith, o.spends.seq)) in
            rw f (Spends-trans 0 3 env env' _ o.spends t, held)
      ]
