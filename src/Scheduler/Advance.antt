-- ===== src/Scheduler/Advance.antt =====
-- src/env.c: what sim_step and the loops around it guarantee.
use simpyc.Scheduler.Tame.{FireFits, StepFits, IsTame}
use simpyc.Scheduler.Step.{fire-Inv, fire}
use simpyc.Scheduler.Start.{Popped-IsNext}
use simpyc.Prelude.{
  ℕ, ◌<◌, ◌≡◌, sym, ap, ◌∙◌, inl, inr, Bool, true, false, none, some, arith, if◌then◌else◌,
  Bool-cases, Option-cases, Double,
}
use simpyc.Heap.{HeapEntry, EventHeap, heap_pop, heap_peek}
use simpyc.Heap.Queue.{Popped, heap_pop_correct}
use simpyc.State.{CbPair, Env}
use simpyc.Event.{Call}
use simpyc.Event.Validity.{IsValid}
use simpyc.Scheduler.{step_at, sim_step, is_behind, pop_into}

module _ {D : Type 0} ⦃F : Double D⦄ (call : Call D) where
  -- How a step can go: the queue is empty, the run is strict and behind the clock with the first
  -- entry, or the callbacks of the first entry run.
  pub data Stepped (wall : D) (env : Env D) : Bool × Env D → Type 0 where
    idle : env.heap.len ≡ 0 → Stepped wall env (false, env)
    late :
        (x : HeapEntry D) (h : EventHeap D)
        → is_behind env x wall ≡ true
        → heap_pop env.heap ≡ some (x, h)
        → Popped env.heap x h
        → Stepped wall env (false, record env { rt_lagged = true })
    fires :
        (x : HeapEntry D) (h : EventHeap D)
        → is_behind env x wall ≡ false
        → heap_pop env.heap ≡ some (x, h)
        → Popped env.heap x h
        → Stepped wall env (true, fire call env x h)

  sim_step_peek :
      (wall : D) (env : Env D) (x : HeapEntry D) (h : EventHeap D)
      → heap_peek env.heap ≡ some x
      → heap_pop env.heap ≡ some (x, h)
      → sim_step call wall env ≡ (
          if is_behind env x wall
          then (false, record env { rt_lagged = true })
          else (true, fire call env x h))
  unfolding sim_step step_at pop_into fire
  sim_step_peek wall env x h e f = ground arith

  sim_step_empty :
      (wall : D) (env : Env D) → heap_peek env.heap ≡ none → sim_step call wall env ≡ (false, env)
  unfolding sim_step step_at
  sim_step_empty wall env e = ground arith

  peek-empty : (h : EventHeap D) → heap_peek h ≡ none → h.len ≡ 0
  unfolding heap_peek
  peek-empty h e = ground arith

  pub peek-full : (h : EventHeap D) (x : HeapEntry D) → heap_peek h ≡ some x → 0 < h.len
  unfolding heap_peek
  peek-full h x e = ground arith

  pub pop-peek :
      (h : EventHeap D) (x y : HeapEntry D) (h' : EventHeap D)
      → heap_peek h ≡ some x
      → heap_pop h ≡ some (y, h')
      → y ≡ x
  unfolding heap_peek heap_pop
  pop-peek h x y h' e f = ground arith

  pub sim_step-Stepped :
      (wall : D) (env : Env D) → IsValid env → Stepped wall env (sim_step call wall env)
  sim_step-Stepped wall env i = elim (Option-cases (heap_peek env.heap)) [
    | inl e ↦ rw (sim_step_empty wall env e) (idle (peek-empty env.heap e))
    | inr (x, e) ↦
        let (y, h, popped, p) = heap_pop_correct env.heap i.heap (peek-full env.heap x e) in
        let same = pop-peek env.heap x y h e popped in
        rw (sim_step_peek wall env y h (e ∙ ap some (sym same)) popped)
          (elim (Bool-cases (is_behind env y wall)) [
            | inl behind ↦ rw behind (late y h behind popped p)
            | inr due ↦ rw due (fires y h due popped p)
          ])
  ]

  module _ (Inv : Env D → Type 0) (Fits : CbPair → ℕ → Env D → Type 0)
      (tame : IsTame call Inv Fits) where
    pub fires-FireFits :
        (wall : D) (env : Env D) (x : HeapEntry D) (h : EventHeap D)
        → is_behind env x wall ≡ false
        → heap_pop env.heap ≡ some (x, h)
        → StepFits call Fits wall env
        → FireFits call Fits env x h
    fires-FireFits wall env x h due popped fits = elim (rw popped at fits) [
      | inl behind ↦ absurd (ground arith)
      | inr f ↦ f
    ]

    Stepped-advances :
        (wall : D) (env : Env D) (r : Bool × Env D)
        → Stepped wall env r
        → Inv env
        → StepFits call Fits wall env
        → Inv r.1 × (F.lt (r.1).now env.now ≡ false)
    Stepped-advances wall env _ (idle e) i fits = (i, F.lt_irrefl env.now)
    Stepped-advances wall env _ (late x h behind popped p) i fits =
        (tame.lags env i, F.lt_irrefl env.now)
    Stepped-advances wall env _ (fires x h due popped p) i fits =
        let (v, now) =
          fire-Inv call Inv Fits tame env x h i p (fires-FireFits wall env x h due popped fits) in
        (v, rw now (Popped-IsNext env x h (tame.valid env i) p).forward)

    -- With callbacks that keep an invariant, a step keeps it too and does not set the clock back, as
    -- long as the callbacks that it runs do not run out of sequence numbers.
    pub sim_step-advances :
        (wall : D) (env : Env D)
        → Inv env
        → StepFits call Fits wall env
        → Inv (sim_step call wall env).1 × (F.lt ((sim_step call wall env).1).now env.now ≡ false)
    sim_step-advances wall env i fits =
        Stepped-advances wall env (sim_step call wall env)
          (sim_step-Stepped wall env (tame.valid env i)) i fits
