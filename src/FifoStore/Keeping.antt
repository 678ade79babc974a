-- ===== src/FifoStore/Keeping.antt =====
-- src/store.c: puts and gets keep the invariant of the whole environment.
use simpyc.Prelude.{
  pos, ltb_ℤ, int_of, dec32, ℕ, ◌+◌, ◌^◌, ◌<◌, ◌≡◌, refl, inl, inr, List, [], ◌∷◌, arith,
  Bool-cases, Double, Ptr, null,
}
use simpyc.State.{Env}
use simpyc.Event.{event_alloc, sim_event_succeed}
use simpyc.Event.Delivery.{opened}
use simpyc.FifoStore.{
  Store, WaiterNode, has_room, item_push, waiter_push, put_item, get_item, refill, sim_store_put,
  sim_store_get,
}
use simpyc.Dispatch.Kept.{IsKept}
use simpyc.Dispatch.Held.{IsHeldStore, Allocated, Allocated-wait, item_event}
use simpyc.Dispatch.Serving.{
  Spends, Spends-refl, Spends-trans, Spends-more, Allocated-later, succeed-Spends, and_succeed,
  opened-Opened,
}

module _ {D : Type 0} ⦃F : Double D⦄ where
  -- What a call does to the environment, with the store that it leaves.
  abbrev Fits : ℕ → Env D → Store × Env D → Type 0
  Fits n env (s', env') = Spends n env env' × IsHeldStore s' env'.n_events

  IsHeld-later :
      {n : ℕ} {s : Store} {env env' : Env D}
      → Spends n env env'
      → IsHeldStore s env.n_events
      → IsHeldStore s env'.n_events
  IsHeld-later {s = s} t h = record {
    gets = Allocated-later item_event s.gets t h.gets;
    puts = Allocated-later item_event s.puts t h.puts;
  }

  put_item-Fits :
      (s : Store) (gets : List WaiterNode) (env : Env D) (ev : ℕ) (item : Ptr)
      → s.gets ≡ gets
      → IsKept env
      → IsHeldStore s env.n_events
      → ev < env.n_events
      → env.next_seq + 2 < 2 ^ 58
      → Fits 2 env (put_item s gets env ev item)
  unfolding put_item item_push waiter_push
  put_item-Fits s [] env ev item e k h lt room = elim (Bool-cases (has_room s)) [
    | inl free ↦
        let t = succeed-Spends env ev s.self k (omega arith) lt in
        let h' = IsHeld-later t h in
        rw free (Spends-more 2 (omega arith) t, record { gets = h'.gets; puts = h'.puts })
    | inr full ↦ rw full (
      Spends-more 2 (omega arith) (Spends-refl env k),
      record {
        gets = h.gets;
        puts =
            Allocated-wait item_event env.n_events s.puts (record { event = ev; item = item })
              h.puts lt;
      },
    )
  ]
  put_item-Fits s (w ∷ q) env ev item e k h lt room =
      let queue : Allocated item_event env.n_events (w ∷ q) =
        rw e at (let waiters : Allocated item_event env.n_events s.gets = h.gets in waiters) in
      let t =
        and_succeed ev s.self (omega arith)
          (succeed-Spends env w.event item k (omega arith) queue.0) lt in
      (
        t,
        record {
          gets = Allocated-later item_event q t queue.1;
          puts = Allocated-later item_event s.puts t h.puts;
        },
      )

  refill-Fits :
      (s : Store) (puts : List WaiterNode) (env env' : Env D)
      → s.puts ≡ puts
      → Spends 1 env env'
      → IsHeldStore s env.n_events
      → env.next_seq + 2 < 2 ^ 58
      → Fits 2 env (refill s puts env')
  unfolding refill item_push
  refill-Fits s [] env env' e t h room = (Spends-more 2 (omega arith) t, IsHeld-later t h)
  refill-Fits s (w ∷ q) env env' e t h room =
      let queue : Allocated item_event env.n_events (w ∷ q) =
        rw e at (let waiters : Allocated item_event env.n_events s.puts = h.puts in waiters) in
      let t' = and_succeed w.event s.self (omega arith) t queue.0 in
      (
        t',
        record {
          gets = Allocated-later item_event s.gets t' h.gets;
          puts = Allocated-later item_event q t' queue.1;
        },
      )

  get_item-Fits :
      (s : Store) (items : List Ptr) (env : Env D) (ev : ℕ)
      → IsKept env
      → IsHeldStore s env.n_events
      → ev < env.n_events
      → env.next_seq + 2 < 2 ^ 58
      → Fits 2 env (get_item s items env ev)
  unfolding get_item waiter_push
  get_item-Fits s [] env ev k h lt room = (
    Spends-more 2 (omega arith) (Spends-refl env k),
    record {
      gets =
          Allocated-wait item_event env.n_events s.gets (record { event = ev; item = null }) h.gets
            lt;
      puts = h.puts;
    },
  )
  get_item-Fits s (item ∷ rest) env ev k h lt room =
      elim (Bool-cases (ltb_ℤ (pos 0) (int_of s.count))) [
        | inl counted ↦ rw counted (
            refill-Fits (record s { items = rest; count = dec32 s.count }) s.puts env
              (sim_event_succeed env ev item) refl (succeed-Spends env ev item k (omega arith) lt)
              (record { gets = h.gets; puts = h.puts }) room)
        | inr none_there ↦ rw none_there (
          Spends-more 2 (omega arith) (Spends-refl env k),
          record {
            gets =
                Allocated-wait item_event env.n_events s.gets (record { event = ev; item = null })
                  h.gets lt;
            puts = h.puts;
          },
        )
      ]

  pub put-Fits :
      (s : Store) (env : Env D) (item : Ptr)
      → IsKept env
      → IsHeldStore s env.n_events
      → env.next_seq + 2 < 2 ^ 58
      → let (ev, s', env') = sim_store_put s env item in
        Spends 2 env env' × IsHeldStore s' env'.n_events
  unfolding sim_store_put
  put-Fits s env item k h room =
      let o = opened-Opened env k in
      let (t, h') =
        put_item-Fits s s.gets (opened env) (event_alloc env).0 item refl o.spends.kept.kept
          (IsHeld-later o.spends h) o.allocated (omega (arith, o.spends.seq)) in
      (Spends-trans 0 2 env (opened env) _ o.spends t, h')

  pub get-Fits :
      (s : Store) (env : Env D)
      → IsKept env
      → IsHeldStore s env.n_events
      → env.next_seq + 2 < 2 ^ 58
      → let (ev, s', env') = sim_store_get s env in Spends 2 env env' × IsHeldStore s' env'.n_events
  unfolding sim_store_get
  get-Fits s env k h room =
      let o = opened-Opened env k in
      let (t, h') =
        get_item-Fits s s.items (opened env) (event_alloc env).0 o.spends.kept.kept
          (IsHeld-later o.spends h) o.allocated (omega (arith, o.spends.seq)) in
      (Spends-trans 0 2 env (opened env) _ o.spends t, h')

  pub get-allocated :
      (s : Store) (env : Env D)
      → IsKept env
      → IsHeldStore s env.n_events
      → env.next_seq + 2 < 2 ^ 58
      → let (ev, s', env') = sim_store_get s env in ev < env'.n_events
  unfolding sim_store_get
  get-allocated s env k h room =
      let o = opened-Opened env k in
      let (t, h') =
        get_item-Fits s s.items (opened env) (event_alloc env).0 o.spends.kept.kept
          (IsHeld-later o.spends h) o.allocated (omega (arith, o.spends.seq)) in
      omega (arith, o.allocated, t.kept.grows)
