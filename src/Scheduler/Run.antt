-- ===== src/Scheduler/Run.antt =====
-- src/env.c: sim_run, for callbacks that keep to the interface.
use simpyc.Scheduler.Tame.{IsTame, StepFits}
use simpyc.Prelude.{
  ℕ, zero, suc, ◌≡◌, refl, sym, ◌∙◌, ◌⊎◌, inl, inr, Bool, true, false, some, arith, Bool-cases,
  inc64, Double,
}
use simpyc.State.{CbPair, Env}
use simpyc.Event.{Call}
use simpyc.Scheduler.{sim_step, sim_run}
use simpyc.Scheduler.Advance.{Stepped, idle, late, fires, sim_step-Stepped, sim_step-advances}

module _ {D : Type 0} ⦃F : Double D⦄ where
  -- Times that do not run backwards, one after another.
  pub not_before_trans :
      (a b c : D) → F.is_nan b ≡ false → F.lt b a ≡ false → F.lt c b ≡ false → F.lt c a ≡ false
  not_before_trans a b c n h k = ground (arith, F.lt_weak c b a)

  -- A run ends with an empty queue or because a strict run fell behind.
  abbrev pub IsOver : Env D → Type 0
  IsOver env = (env.heap.len ≡ 0) ⊎ (env.rt_lagged ≡ true)

  -- How a run from one environment to another went.
  pub record Ran (Inv : Env D → Type 0) (env env' : Env D) : Type 0 where
    pub kept : Inv env'
    pub forward : F.lt env'.now env.now ≡ false

  module _ (call : Call D) where
    pub Stepped-IsOver :
        (wall : D) (env : Env D) (r : Bool × Env D)
        → Stepped call wall env r
        → r.0 ≡ false
        → IsOver r.1
    Stepped-IsOver wall env _ (idle e) h = inl e
    Stepped-IsOver wall env _ (late x q behind popped p) h = inr refl
    Stepped-IsOver wall env _ (fires x h due popped p) e = absurd (cc)

    -- The run behind a step.
    sim_run_step :
        (clock : ℕ → D) (fuel n m : ℕ) (env env' : Env D)
        → sim_run call clock (suc fuel) n env ≡ some (m, env')
        → let s = sim_step call (clock n) env in
          ((s.0 ≡ true) × (sim_run call clock fuel (inc64 n) s.1 ≡ some (m, env')))
          ⊎ ((s.0 ≡ false) × (s.1 ≡ env') × (n ≡ m))
    unfolding sim_run
    sim_run_step clock fuel n m env env' e = elim (Bool-cases (sim_step call (clock n) env).0) [
      | inl more ↦ inl (more, (rw more at e))
      | inr done ↦ inr (done, ground arith, ground arith)
    ]

    -- All the callbacks of a run fit where they are called.
    abbrev pub RunFits : (CbPair → ℕ → Env D → Type 0) → (ℕ → D) → ℕ → ℕ → Env D → Type 0
    RunFits Fits clock zero n env = Unit
    RunFits Fits clock (suc fuel) n env =
        let s = sim_step call (clock n) env in
        StepFits call Fits (clock n) env × ((s.0 ≡ false) ⊎ RunFits Fits clock fuel (inc64 n) s.1)

  module _ (call : Call D) (Inv : Env D → Type 0) (Fits : CbPair → ℕ → Env D → Type 0)
      (tame : IsTame call Inv Fits) where
    -- sim_run, whenever it returns, has kept the invariant of its callbacks and not set the clock
    -- back, and the queue is empty or a strict run has fallen behind; this as long as the callbacks
    -- do not run out of sequence numbers.
    pub sim_run-Ran :
        (clock : ℕ → D) (fuel n m : ℕ) (env env' : Env D)
        → Inv env
        → RunFits call Fits clock fuel n env
        → sim_run call clock fuel n env ≡ some (m, env')
        → Ran Inv env env' × IsOver env'
    sim_run-Ran clock zero n m env env' i f e = absurd (unfold sim_run in (cc))
    sim_run-Ran clock (suc fuel) n m env env' i f e =
        let s = sim_step call (clock n) env in
        let (v, fwd) = sim_step-advances call Inv Fits tame (clock n) env i f.0 in
        elim (sim_run_step call clock fuel n m env env' e) [
          | inl (more, rest) ↦ elim f.1 [
            | inl done ↦ absurd (let clash = sym more ∙ done in (cc))
            | inr fits ↦
                let (ran, over) = sim_run-Ran clock fuel (inc64 n) m s.1 env' v fits rest in
                let number = (tame.valid s.1 v).clock.0 in
                (
                  record {
                    kept = ran.kept;
                    forward = not_before_trans env.now (s.1).now env'.now number fwd ran.forward;
                  },
                  over,
                )
          ]
          | inr (done, last, _) ↦ (
            record { kept = rw last at v; forward = rw last at fwd },
            rw last at (
                Stepped-IsOver call (clock n) env s
                  (sim_step-Stepped call (clock n) env (tame.valid env i)) done),
          )
        ]
