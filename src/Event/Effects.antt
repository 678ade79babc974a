-- ===== src/Event/Effects.antt =====
-- src/event.c: what triggering and recycling do to the events, for the modules that call them.
use simpyc.Prelude.{ℕ, ◌≡◌, refl, ◌∙◌, ◌≢◌, true, Option, none, some, arith, Double, Ptr}
use simpyc.State.{Env, SimEvent, triggered}
use simpyc.Event.{sim_event_succeed, event_schedule, recycle_request, recycle, is_pending}

-- The parts of an event that its holders see.
pub record SameOutcome (e e' : SimEvent) : Type 0 where
  pub state : e'.state ≡ e.state
  pub value : e'.value ≡ e.value
  pub ok : e'.ok ≡ e.ok

module _ {D : Type 0} where
  pub recycle_request-SameOutcome :
      (env : Env D) (req : Option ℕ) (x : ℕ)
      → SameOutcome (env.events x) ((recycle_request env req).events x)
  unfolding recycle_request recycle
  recycle_request-SameOutcome env none x = record { state = refl; value = refl; ok = refl }
  recycle_request-SameOutcome env (some e) x = record {
    state = ground arith;
    value = ground arith;
    ok = ground arith;
  }

module _ {D : Type 0} ⦃F : Double D⦄ where
  -- The event is triggered with the value, and no other event changes.
  pub record Fired (env : Env D) (e : ℕ) (v : Ptr) (env' : Env D) : Type 0 where
    pub state : (env'.events e).state ≡ triggered
    pub value : (env'.events e).value ≡ v
    pub others : (x : ℕ) → x ≢ e → SameOutcome (env.events x) (env'.events x)

  pub succeed-Fired :
      (env : Env D) (e : ℕ) (value : Ptr)
      → is_pending (env.events e).state ≡ true
      → Fired env e value (sim_event_succeed env e value)
  unfolding sim_event_succeed event_schedule
  succeed-Fired env e value waits = rw waits (record {
    state = ground arith;
    value = ground arith;
    others = λ x ne. record { state = ground arith; value = ground arith; ok = ground arith };
  })

  -- The return of a request to the pool behind that shows no holder of an event any change.
  pub Fired-recycle :
      (env env' : Env D) (e : ℕ) (value : Ptr) (req : Option ℕ)
      → Fired env e value env'
      → Fired env e value (recycle_request env' req)
  Fired-recycle env env' e value req f = record {
    state = (recycle_request-SameOutcome env' req e).state ∙ f.state;
    value = (recycle_request-SameOutcome env' req e).value ∙ f.value;
    others = λ x ne.
        let s = recycle_request-SameOutcome env' req x in
        let o = f.others x ne in
        record { state = s.state ∙ o.state; value = s.value ∙ o.value; ok = s.ok ∙ o.ok };
  }
