-- ===== src/Container/Keeping.antt =====
-- src/container.c: puts and gets keep the invariant of the whole environment.
use simpyc.Prelude.{
  ℕ, suc, ◌+◌, ◌^◌, ◌<◌, inl, inr, ◌&&◌, List, [], ◌∷◌, arith, Bool-cases, Double, length,
}
use simpyc.State.{Env}
use simpyc.Event.{event_alloc, sim_event_succeed}
use simpyc.Event.Delivery.{opened}
use simpyc.Container.{
  Container, CqNode, cq_push, wake_gets, wake_puts, try_wake_gets, try_wake_puts, is_empty,
  sim_container_put, sim_container_get,
}
use simpyc.Dispatch.Kept.{IsKept}
use simpyc.Dispatch.Held.{IsHeldContainer, Allocated, Allocated-wait, amount_event}
use simpyc.Dispatch.Serving.{
  Allocated-later, Spends, Spends-trans, Spends-more, succeed-Spends, and_succeed, opened-Opened,
}

module _ {D : Type 0} ⦃F : Double D⦄ where
  IsHeld-later :
      {n : ℕ} {c : Container D} {env env' : Env D}
      → Spends n env env'
      → IsHeldContainer c env.n_events
      → IsHeldContainer c env'.n_events
  IsHeld-later {c = c} t h = record {
    gets = Allocated-later amount_event c.gets t h.gets;
    puts = Allocated-later amount_event c.puts t h.puts;
  }

  -- What a call does to the environment, with the container that it leaves.
  abbrev Fits : ℕ → Env D → Container D × Env D → Type 0
  Fits n env (c', env') = Spends n env env' × IsHeldContainer c' env'.n_events

  wake_gets-Fits :
      (c : Container D) (q : List (CqNode D)) (n : ℕ) (env env' : Env D)
      → Allocated amount_event env.n_events q
      → Allocated amount_event env.n_events c.puts
      → Spends n env env'
      → env.next_seq + n + length q < 2 ^ 58
      → Fits (n + length q) env (wake_gets c q env')
  unfolding wake_gets
  wake_gets-Fits c [] n env env' a b t room = (
    Spends-more (n + 0) (omega arith) t,
    record { gets = tt; puts = Allocated-later amount_event c.puts t b },
  )
  wake_gets-Fits c (w ∷ q) n env env' a b t room = elim (Bool-cases (F.le w.amount c.level)) [
    | inl fits ↦
        let t' = and_succeed w.event c.self (omega (arith, room)) t a.0 in
        let (more, held) =
          wake_gets-Fits (record c { level = F.sub c.level w.amount }) q (n + 1) env
            (sim_event_succeed env' w.event c.self) a.1 b t' (omega (arith, room)) in
        rw (fits, wake_gets) (Spends-more (n + suc (length q)) (omega arith) more, held)
    | inr short ↦
        rw (short, wake_gets)
          (
            Spends-more (n + suc (length q)) (omega arith) t,
            record {
              gets = Allocated-later amount_event (w ∷ q) t a;
              puts = Allocated-later amount_event c.puts t b;
            },
          )
  ]

  wake_puts-Fits :
      (c : Container D) (q : List (CqNode D)) (n : ℕ) (env env' : Env D)
      → Allocated amount_event env.n_events q
      → Allocated amount_event env.n_events c.gets
      → Spends n env env'
      → env.next_seq + n + length q < 2 ^ 58
      → Fits (n + length q) env (wake_puts c q env')
  unfolding wake_puts
  wake_puts-Fits c [] n env env' a b t room = (
    Spends-more (n + 0) (omega arith) t,
    record { gets = Allocated-later amount_event c.gets t b; puts = tt },
  )
  wake_puts-Fits c (w ∷ q) n env env' a b t room =
      elim (Bool-cases (F.le (F.add c.level w.amount) c.capacity)) [
        | inl fits ↦
            let t' = and_succeed w.event c.self (omega (arith, room)) t a.0 in
            let (more, held) =
              wake_puts-Fits (record c { level = F.add c.level w.amount }) q (n + 1) env
                (sim_event_succeed env' w.event c.self) a.1 b t' (omega (arith, room)) in
            rw (fits, wake_puts) (Spends-more (n + suc (length q)) (omega arith) more, held)
        | inr full ↦
            rw (full, wake_puts)
              (
                Spends-more (n + suc (length q)) (omega arith) t,
                record {
                  gets = Allocated-later amount_event c.gets t b;
                  puts = Allocated-later amount_event (w ∷ q) t a;
                },
              )
      ]

  -- A put takes a sequence number for itself and at most one for each get that waits.
  pub put-Fits :
      (c : Container D) (env : Env D) (amount : D)
      → IsKept env
      → IsHeldContainer c env.n_events
      → env.next_seq + 1 + length c.gets < 2 ^ 58
      → let (ev, c', env') = sim_container_put c env amount in
        Spends (1 + length c.gets) env env' × IsHeldContainer c' env'.n_events
  unfolding sim_container_put try_wake_gets cq_push
  put-Fits c env amount k h room =
      let ev = (event_alloc env).0 in
      let env' = opened env in
      let o = opened-Opened env k in
      let h' = IsHeld-later o.spends h in
      elim (Bool-cases (is_empty c.puts && F.le (F.add c.level amount) c.capacity)) [
        | inl fits ↦
            let (t, held) =
              wake_gets-Fits (record c { level = F.add c.level amount }) c.gets 1 env'
                (sim_event_succeed env' ev c.self) h'.gets h'.puts
                (succeed-Spends env' ev c.self o.spends.kept.kept (omega (arith, o.spends.seq))
                  o.allocated)
                (omega (arith, o.spends.seq)) in
            rw fits (
              Spends-more (1 + length c.gets) (omega arith)
                  (Spends-trans 0 (1 + length c.gets) env env' _ o.spends t),
              held,
            )
        | inr waits ↦ rw waits (
          Spends-more (1 + length c.gets) (omega arith) o.spends,
          record {
            gets = h'.gets;
            puts =
                Allocated-wait amount_event env'.n_events c.puts
                  (record { event = ev; amount = amount }) h'.puts o.allocated;
          },
        )
      ]

  pub get-Fits :
      (c : Container D) (env : Env D) (amount : D)
      → IsKept env
      → IsHeldContainer c env.n_events
      → env.next_seq + 1 + length c.puts < 2 ^ 58
      → let (ev, c', env') = sim_container_get c env amount in
        Spends (1 + length c.puts) env env' × IsHeldContainer c' env'.n_events
  unfolding sim_container_get try_wake_puts cq_push
  get-Fits c env amount k h room =
      let ev = (event_alloc env).0 in
      let env' = opened env in
      let o = opened-Opened env k in
      let h' = IsHeld-later o.spends h in
      elim (Bool-cases (is_empty c.gets && F.le amount c.level)) [
        | inl fits ↦
            let (t, held) =
              wake_puts-Fits (record c { level = F.sub c.level amount }) c.puts 1 env'
                (sim_event_succeed env' ev c.self) h'.puts h'.gets
                (succeed-Spends env' ev c.self o.spends.kept.kept (omega (arith, o.spends.seq))
                  o.allocated)
                (omega (arith, o.spends.seq)) in
            rw fits (
              Spends-more (1 + length c.puts) (omega arith)
                  (Spends-trans 0 (1 + length c.puts) env env' _ o.spends t),
              held,
            )
        | inr waits ↦ rw waits (
          Spends-more (1 + length c.puts) (omega arith) o.spends,
          record {
            gets =
                Allocated-wait amount_event env'.n_events c.gets
                  (record { event = ev; amount = amount }) h'.gets o.allocated;
            puts = h'.puts;
          },
        )
      ]
