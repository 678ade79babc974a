-- ===== src/Event/Delivery.antt =====
-- src/event.c: how a value reaches the event of a client, for the stores.
use simpyc.Prelude.{ℕ, ◌≡◌, true, Option, none, some, arith, Double, Ptr}
use simpyc.State.{Env, triggered}
use simpyc.Event.{
  alloc_from, event_alloc, mark_recyclable, sim_event_succeed, event_schedule, is_pending,
}

module _ {D : Type 0} where
  -- The event is triggered and carries the value.
  pub record Delivered (env : Env D) (e : ℕ) (v : Ptr) : Type 0 where
    pub state : (env.events e).state ≡ triggered
    pub value : (env.events e).value ≡ v

  -- The environment in which a store works on a new request.
  abbrev pub opened : Env D → Env D
  opened env = mark_recyclable (event_alloc env).1 (event_alloc env).0

  alloc_from-waits :
      (env : Env D) (p : Option ℕ) (x : ℕ)
      → let (e, env') = alloc_from env p in
        (is_pending (env'.events e).state ≡ true)
        × (is_pending (env.events x).state ≡ true → is_pending (env'.events x).state ≡ true)
  unfolding alloc_from
  alloc_from-waits env none x = (ground arith, λ h. ground arith)
  alloc_from-waits env (some e) x = (ground arith, λ h. ground arith)

  -- The new event is pending, and an event that was pending still is.
  pub opened-waits :
      (env : Env D) → is_pending ((opened env).events (event_alloc env).0).state ≡ true
  unfolding mark_recyclable event_alloc
  opened-waits env = ground (arith, (alloc_from-waits env env.event_pool 0).0)

  pub opened-keeps :
      (env : Env D) (x : ℕ)
      → is_pending (env.events x).state ≡ true
      → is_pending ((opened env).events x).state ≡ true
  unfolding mark_recyclable event_alloc
  opened-keeps env x h = ground (arith, (alloc_from-waits env env.event_pool x).1 h)

module _ {D : Type 0} ⦃F : Double D⦄ where
  pub succeed-Delivered :
      (env : Env D) (e : ℕ) (v : Ptr)
      → is_pending (env.events e).state ≡ true
      → Delivered (sim_event_succeed env e v) e v
  unfolding sim_event_succeed event_schedule
  succeed-Delivered env e v h = rw h (record { state = ground arith; value = ground arith })

  -- What has been delivered stays, whatever is triggered behind it.
  pub Delivered-succeed :
      (env : Env D) (e x : ℕ) (v w : Ptr)
      → Delivered env e v
      → Delivered (sim_event_succeed env x w) e v
  unfolding sim_event_succeed event_schedule
  Delivered-succeed env e x v w d =
      let s = d.state in
      record { state = ground (arith, s, d.value); value = ground (arith, s, d.value) }
