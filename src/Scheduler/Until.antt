-- ===== src/Scheduler/Until.antt =====
-- src/env.c: sim_run_until, for callbacks that keep to the interface.
use simpyc.Scheduler.Advance.{
  Stepped, idle, late, fires, pop-peek, fires-FireFits, sim_step-Stepped, sim_step-advances,
}
use simpyc.Scheduler.Step.{fire-Inv}
use simpyc.Scheduler.Run.{not_before_trans, Stepped-IsOver, IsOver}
use simpyc.Prelude.{
  Bool, ℕ, zero, suc, ◌≡◌, refl, sym, ◌∙◌, ◌⊎◌, inl, inr, true, false, Option, none, some, arith,
  Bool-cases, Option-cases, inc64, Double,
}
use simpyc.Heap.{HeapEntry, heap_peek}
use simpyc.State.{CbPair, Env}
use simpyc.Event.{Call}
use simpyc.Scheduler.{round_at, sim_step, until_loop, is_before}
use simpyc.Scheduler.Tame.{IsTame, StepFits}

module _ {D : Type 0} ⦃F : Double D⦄ where
  -- No entry of the queue comes before the sentinel.
  abbrev pub IsReached : Env D → D → ℕ → Type 0
  IsReached env until stop =
      (x : HeapEntry D) → heap_peek env.heap ≡ some x → is_before x until stop ≡ false

  -- The first entry of the queue comes before the sentinel.
  abbrev IsAhead : Env D → D → ℕ → Type 0
  IsAhead env until stop =
      (x : HeapEntry D) × (heap_peek env.heap ≡ some x) × (is_before x until stop ≡ true)

  -- An entry that comes before the sentinel is not due after its time.
  is_before-in_time :
      (x : HeapEntry D) (until : D) (stop : ℕ)
      → is_before x until stop ≡ true
      → F.lt until x.time ≡ false
  unfolding is_before
  is_before-in_time x until stop h =
      ground (arith, h, F.lt_trans until x.time until, F.lt_irrefl until)

  module _ (call : Call D) (clock : ℕ → D) (until : D) (stop : ℕ) where
    -- How a round of the loop can go.
    data Round (fuel n : ℕ) (env : Env D) : Option (ℕ × Env D) → Type 0 where
      stops : IsReached env until stop → Round fuel n env (some (n, env))
      fails :
          IsAhead env until stop
          → (sim_step call (clock n) env).0 ≡ false
          → Round fuel n env (some (n, (sim_step call (clock n) env).1))
      goes :
          IsAhead env until stop
          → (sim_step call (clock n) env).0 ≡ true
          → Round fuel n env
              (until_loop call clock until stop fuel (inc64 n) (sim_step call (clock n) env).1)

    round_at-Round :
        (fuel n : ℕ) (env : Env D) (o : Option (HeapEntry D))
        → heap_peek env.heap ≡ o
        → let step = sim_step call (clock n) env in
          Round fuel n env (
            round_at until stop n env o step
              (until_loop call clock until stop fuel (inc64 n) step.1))
    unfolding round_at
    round_at-Round fuel n env none e = stops (λ x f. absurd (let g = sym e ∙ f in (cc)))
    round_at-Round fuel n env (some x) e = elim (Bool-cases (is_before x until stop)) [
      | inr over ↦ rw over (stops (λ y f. let g = sym e ∙ f in ground arith))
      | inl before ↦ rw before (elim (Bool-cases (sim_step call (clock n) env).0) [
        | inl more ↦ rw more (goes (x, e, before) more)
        | inr done ↦ rw done (fails (x, e, before) done)
      ])
    ]

    until_loop-Round :
        (fuel n : ℕ) (env : Env D)
        → Round fuel n env (until_loop call clock until stop (suc fuel) n env)
    unfolding until_loop
    until_loop-Round fuel n env = round_at-Round fuel n env (heap_peek env.heap) refl

    Round-result :
        (fuel n m : ℕ) (env env' : Env D) (o : Option (ℕ × Env D))
        → Round fuel n env o
        → o ≡ some (m, env')
        → let s = sim_step call (clock n) env in
          ((env ≡ env') × IsReached env until stop)
          ⊎ (IsAhead env until stop × (s.0 ≡ false) × (s.1 ≡ env'))
          ⊎ (IsAhead env until stop
              × (s.0 ≡ true)
              × (until_loop call clock until stop fuel (inc64 n) s.1 ≡ some (m, env')))
    Round-result fuel n m env env' _ (stops h) e = inl (ground arith, h)
    Round-result fuel n m env env' _ (fails a h) e = inr (inl (a, h, ground arith))
    Round-result fuel n m env env' _ (goes a h) e = inr (inr (a, h, e))

    pub until_loop-reached :
        (fuel n : ℕ) (env : Env D)
        → IsReached env until stop
        → until_loop call clock until stop (suc fuel) n env ≡ some (n, env)
    unfolding until_loop round_at
    until_loop-reached fuel n env reached = elim (Option-cases (heap_peek env.heap)) [
      | inl e ↦ rw e refl
      | inr (x, e) ↦ ground (arith, reached x e)
    ]

    -- All the callbacks of the loop fit where they are called.
    abbrev pub UntilFits : (CbPair → ℕ → Env D → Type 0) → ℕ → ℕ → Env D → Type 0
    UntilFits Fits zero n env = Unit
    UntilFits Fits (suc fuel) n env =
        let s = sim_step call (clock n) env in
        IsReached env until stop
        ⊎ (StepFits call Fits (clock n) env × ((s.0 ≡ false) ⊎ UntilFits Fits fuel (inc64 n) s.1))

  module _ (call : Call D) (Inv : Env D → Type 0) (Fits : CbPair → ℕ → Env D → Type 0)
      (tame : IsTame call Inv Fits) (clock : ℕ → D) (until : D) (stop : ℕ) where
    -- The outcome of the loop.
    pub record Looped (env env' : Env D) : Type 0 where
      pub kept : Inv env'
      pub forward : F.lt env'.now env.now ≡ false
      pub ended : IsReached env' until stop ⊎ IsOver env'
      pub within : F.lt until env.now ≡ false → F.lt until env'.now ≡ false

    Stepped-within :
        (wall : D) (env : Env D) (r : Bool × Env D) (x : HeapEntry D)
        → Stepped call wall env r
        → Inv env
        → StepFits call Fits wall env
        → heap_peek env.heap ≡ some x
        → F.lt until x.time ≡ false
        → F.lt until env.now ≡ false
        → F.lt until (r.1).now ≡ false
    Stepped-within wall env _ x (idle e) i f peek ahead now = now
    Stepped-within wall env _ x (late y h behind popped p) i f peek ahead now = now
    Stepped-within wall env _ x (fires y h due popped p) i f peek ahead now =
        let (v, time) =
          fire-Inv call Inv Fits tame env y h i p
            (fires-FireFits call Inv Fits tame wall env y h due popped f) in
        rw time (rw (pop-peek call env.heap x y h peek popped) ahead)

    -- A step with an entry that comes before the sentinel does not set the clock behind its time.
    sim_step-within :
        (wall : D) (env : Env D)
        → Inv env
        → StepFits call Fits wall env
        → IsAhead env until stop
        → F.lt until env.now ≡ false
        → F.lt until ((sim_step call wall env).1).now ≡ false
    sim_step-within wall env i f (x, peek, before) =
        Stepped-within wall env (sim_step call wall env) x
          (sim_step-Stepped call wall env (tame.valid env i)) i f peek
          (is_before-in_time x until stop before)

    until_loop-Looped_step :
        (fuel n m : ℕ) (env env' : Env D)
        → Inv env
        → StepFits call Fits (clock n) env
        → (let s = sim_step call (clock n) env in
            ((env ≡ env') × IsReached env until stop)
            ⊎ (IsAhead env until stop × (s.0 ≡ false) × (s.1 ≡ env'))
            ⊎ (IsAhead env until stop × (s.0 ≡ true) × (Inv s.1 → Looped s.1 env')))
        → Looped env env'
    until_loop-Looped_step fuel n m env env' i f (inl (same, over)) =
        rw (← same)
          (record { kept = i; forward = F.lt_irrefl env.now; ended = inl over; within = λ w. w })
    until_loop-Looped_step fuel n m env env' i f (inr (inl (a, done, last))) =
        let s = sim_step call (clock n) env in
        let (v, fwd) = sim_step-advances call Inv Fits tame (clock n) env i f in
        record {
          kept = rw last at v;
          forward = rw last at fwd;
          ended = inr (
              rw last at (
                Stepped-IsOver call (clock n) env s
                  (sim_step-Stepped call (clock n) env (tame.valid env i)) done));
          within = λ w. rw last at (sim_step-within (clock n) env i f a w);
        }
    until_loop-Looped_step fuel n m env env' i f (inr (inr (a, more, rest))) =
        let s = sim_step call (clock n) env in
        let (v, fwd) = sim_step-advances call Inv Fits tame (clock n) env i f in
        let l = rest v in
        record {
          kept = l.kept;
          forward =
              not_before_trans env.now (s.1).now env'.now (tame.valid s.1 v).clock.0 fwd l.forward;
          ended = l.ended;
          within = λ w. l.within (sim_step-within (clock n) env i f a w);
        }

    pub until_loop-Looped :
        (fuel n m : ℕ) (env env' : Env D)
        → Inv env
        → UntilFits call clock until stop Fits fuel n env
        → until_loop call clock until stop fuel n env ≡ some (m, env')
        → Looped env env'
    until_loop-Looped zero n m env env' i f e = absurd (unfold until_loop in (cc))
    until_loop-Looped (suc fuel) n m env env' i (inl reached) e =
        let stopped = until_loop-reached call clock until stop fuel n env reached in
        let same : env ≡ env' = cc (stopped, e) in
        rw (← same)
          (record { kept = i; forward = F.lt_irrefl env.now; ended = inl reached; within = λ w. w })
    until_loop-Looped (suc fuel) n m env env' i (inr (f, fits)) e =
        let s = sim_step call (clock n) env in
        until_loop-Looped_step fuel n m env env' i f
          (elim (Round-result call clock until stop fuel n m env env' _
            (until_loop-Round call clock until stop fuel n env) e) [
              | inl same ↦ inl same
              | inr (inl last) ↦ inr (inl last)
              | inr (inr (a, more, rest)) ↦ inr (
                  inr (
                    a,
                    more,
                    λ v. elim fits [
                      | inl done ↦ absurd (let clash = sym more ∙ done in (cc))
                      | inr later ↦ until_loop-Looped fuel (inc64 n) m s.1 env' v later rest
                    ],
                  ))
            ])
