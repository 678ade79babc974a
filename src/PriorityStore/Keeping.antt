-- ===== src/PriorityStore/Keeping.antt =====
-- src/priority_store.c: puts and gets keep the invariant of the whole environment.
use simpyc.Prelude.{
  dec32, ℕ, ◌+◌, ◌^◌, ◌<◌, ◌≡◌, refl, inl, inr, List, [], ◌∷◌, arith, Bool-cases, ℤ, Double, Ptr,
}
use simpyc.State.{Env}
use simpyc.Event.{event_alloc, sim_event_succeed}
use simpyc.Event.Delivery.{opened}
use simpyc.SortedQueue.{Node}
use simpyc.PriorityStore.{
  PriorityStore, PutWaiter, is_full, item_insert_sorted, serve, drain, get_top,
  sim_priority_store_put, sim_priority_store_get,
}
use simpyc.Dispatch.Kept.{IsKept}
use simpyc.Dispatch.Held.{IsHeldPriorityStore, Allocated, Allocated-wait, itself, ranked_event}
use simpyc.Dispatch.Serving.{
  Allocated-later, Spends, Spends-refl, Spends-trans, Spends-more, succeed-Spends, and_succeed,
  opened-Opened,
}

module _ {D : Type 0} ⦃F : Double D⦄ where
  IsHeld-later :
      {n : ℕ} {s : PriorityStore} {env env' : Env D}
      → Spends n env env'
      → IsHeldPriorityStore s env.n_events
      → IsHeldPriorityStore s env'.n_events
  IsHeld-later {s = s} t h = record {
    gets = Allocated-later itself s.gets t h.gets;
    puts = Allocated-later ranked_event s.puts t h.puts;
  }

  -- What a call does to the environment, with the store that it leaves.
  abbrev Fits : ℕ → Env D → PriorityStore × Env D → Type 0
  Fits n env (s', env') = Spends n env env' × IsHeldPriorityStore s' env'.n_events

  serve-Fits :
      (s : PriorityStore) (gets : List ℕ) (items : List (Node Ptr)) (env env' : Env D)
      → s.gets ≡ gets
      → Spends 1 env env'
      → IsHeldPriorityStore s env.n_events
      → env.next_seq + 2 < 2 ^ 58
      → Fits 2 env (serve s gets items env')
  unfolding serve
  serve-Fits s [] items env env' e t h room = (Spends-more 2 (omega arith) t, IsHeld-later t h)
  serve-Fits s (g ∷ q) [] env env' e t h room = (Spends-more 2 (omega arith) t, IsHeld-later t h)
  serve-Fits s (g ∷ q) (top ∷ rest) env env' e t h room =
      let queue : Allocated itself env.n_events (g ∷ q) =
        rw e at (let waiters : Allocated itself env.n_events s.gets = h.gets in waiters) in
      let t' = and_succeed g top.payload (omega arith) t queue.0 in
      (
        t',
        record {
          gets = Allocated-later itself q t' queue.1;
          puts = Allocated-later ranked_event s.puts t' h.puts;
        },
      )

  drain-Fits :
      (s : PriorityStore) (puts : List PutWaiter) (env env' : Env D)
      → s.puts ≡ puts
      → Spends 1 env env'
      → IsHeldPriorityStore s env.n_events
      → env.next_seq + 2 < 2 ^ 58
      → Fits 2 env (drain s puts env')
  unfolding drain item_insert_sorted
  drain-Fits s [] env env' e t h room = (Spends-more 2 (omega arith) t, IsHeld-later t h)
  drain-Fits s (w ∷ q) env env' e t h room =
      let queue : Allocated ranked_event env.n_events (w ∷ q) =
        rw e at (let waiters : Allocated ranked_event env.n_events s.puts = h.puts in waiters) in
      let t' = and_succeed w.event s.self (omega arith) t queue.0 in
      (
        t',
        record {
          gets = Allocated-later itself s.gets t' h.gets;
          puts = Allocated-later ranked_event q t' queue.1;
        },
      )

  pub put-Fits :
      (s : PriorityStore) (env : Env D) (priority : ℤ) (item : Ptr)
      → IsKept env
      → IsHeldPriorityStore s env.n_events
      → env.next_seq + 2 < 2 ^ 58
      → let (ev, s', env') = sim_priority_store_put s env priority item in
        Spends 2 env env' × IsHeldPriorityStore s' env'.n_events
  unfolding sim_priority_store_put
  put-Fits s env priority item k h room =
      let ev = (event_alloc env).0 in
      let env' = opened env in
      let o = opened-Opened env k in
      let h' = IsHeld-later o.spends h in
      elim (Bool-cases (is_full s)) [
        | inl full ↦ rw full (
          Spends-more 2 (omega arith) o.spends,
          record {
            gets = h'.gets;
            puts =
                Allocated-wait ranked_event env'.n_events s.puts
                  (record { event = ev; item = item; priority = priority }) h'.puts o.allocated;
          },
        )
        | inr free ↦
            let s' = item_insert_sorted s priority item in
            let (t, held) =
              serve-Fits s' s'.gets s'.items env' (sim_event_succeed env' ev s.self) refl
                (succeed-Spends env' ev s.self o.spends.kept.kept (omega (arith, o.spends.seq))
                  o.allocated)
                (record { gets = h'.gets; puts = h'.puts }) (omega (arith, o.spends.seq)) in
            rw free (Spends-trans 0 2 env env' _ o.spends t, held)
      ]

  get_top-Fits :
      (s : PriorityStore) (items : List (Node Ptr)) (env : Env D) (ev : ℕ)
      → IsKept env
      → IsHeldPriorityStore s env.n_events
      → ev < env.n_events
      → env.next_seq + 2 < 2 ^ 58
      → Fits 2 env (get_top s items env ev)
  unfolding get_top
  get_top-Fits s [] env ev k h lt room = (
    Spends-more 2 (omega arith) (Spends-refl env k),
    record { gets = Allocated-wait itself env.n_events s.gets ev h.gets lt; puts = h.puts },
  )
  get_top-Fits s (top ∷ rest) env ev k h lt room =
      drain-Fits (record s { items = rest; count = dec32 s.count }) s.puts env
        (sim_event_succeed env ev top.payload) refl
        (succeed-Spends env ev top.payload k (omega arith) lt)
        (record { gets = h.gets; puts = h.puts }) room

  pub get-Fits :
      (s : PriorityStore) (env : Env D)
      → IsKept env
      → IsHeldPriorityStore s env.n_events
      → env.next_seq + 2 < 2 ^ 58
      → let (ev, s', env') = sim_priority_store_get s env in
        Spends 2 env env' × IsHeldPriorityStore s' env'.n_events
  unfolding sim_priority_store_get
  get-Fits s env k h room =
      let o = opened-Opened env k in
      let (t, h') =
        get_top-Fits s s.items (opened env) (event_alloc env).0 o.spends.kept.kept
          (IsHeld-later o.spends h) o.allocated (omega (arith, o.spends.seq)) in
      (Spends-trans 0 2 env (opened env) _ o.spends t, h')
