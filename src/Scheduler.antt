-- ===== src/Scheduler.antt =====
-- src/env.c: the environment, one step of the simulation, and the loops that run it. The readings
-- of the monotonic clock are arguments: `wall` for a step, `clock n` for the step after `n` others.
-- wall_sleep_until only waits. The loops take fuel, for a simulation need not end, and `none` means
-- that the fuel ran out.
pub mod Tame
pub mod Start
pub mod Step
pub mod Create
pub mod Lag
pub mod Sentinel
pub mod Until
pub mod Run
pub mod Advance
use simpyc.Prelude.{
  ℕ, zero, suc, Bool, true, false, not, ◌&&◌, Option, none, some, ltb, if◌then◌else◌, inc64, ltb_ℤ,
  Double,
}
use simpyc.Heap.{HeapEntry, EventHeap, Cells, heap_init, heap_peek, heap_pop}
use simpyc.Objects.{no_objects}
use simpyc.State.{Env, zero_event, zero_process, zero_cond}
use simpyc.Event.{Call, run_callbacks, prio_urgent}

module _ {D : Type 0} where
  unfoldable pub sim_now : Env D → D
  sim_now env = env.now

  unfoldable pub sim_peek : Env D → Option D
  sim_peek env = elim (heap_peek env.heap) [ none ↦ none | some e ↦ some e.time ]

  unfoldable pub sim_env_realtime_lagged : Env D → Bool
  sim_env_realtime_lagged env = env.rt_lagged

module _ {D : Type 0} ⦃F : Double D⦄ where
  -- `junk` is what the heap's memory will hold before it is written.
  unfoldable pub sim_env_create : Cells D → Env D
  unfolding heap_init
  sim_env_create junk = record {
    now = F.zero;
    next_seq = 0;
    heap = heap_init junk;
    active = none;
    event_pool = none;
    process_pool = none;
    all_processes = none;
    all_events = none;
    rt_factor = F.zero;
    rt_strict = false;
    rt_lagged = false;
    rt_start_wall = F.zero;
    rt_start_sim = F.zero;
    events = λ e. zero_event;
    n_events = 0;
    processes = λ p. zero_process;
    n_processes = 0;
    conds = λ c. zero_cond;
    n_conds = 0;
    objects = no_objects F.zero;
  }

  unfoldable pub sim_env_set_realtime : Env D → D → Bool → D → Env D
  sim_env_set_realtime env factor strict wall =
      let env' = record env { rt_factor = factor; rt_strict = strict; rt_lagged = false } in
      if F.lt F.zero factor
      then record env' { rt_start_wall = wall; rt_start_sim = env.now }
      else env'

  -- The wall time at which the entry is due.
  unfoldable pub rt_target : Env D → HeapEntry D → D
  rt_target env he = F.add env.rt_start_wall (F.mul (F.sub he.time env.rt_start_sim) env.rt_factor)

  -- The test by which a strict run gives up.
  unfoldable pub is_behind : Env D → HeapEntry D → D → Bool
  unfolding rt_target
  is_behind env he wall =
      F.lt F.zero env.rt_factor
      && not (F.lt wall (rt_target env he))
      && env.rt_strict
      && F.lt F.zero (F.sub wall (rt_target env he))

  -- The call of heap_pop, which leaves `he` alone when it fails.
  unfoldable pub pop_into : EventHeap D → HeapEntry D → HeapEntry D × EventHeap D
  pop_into h he = elim (heap_pop h) [ none ↦ (he, h) | some (e, h') ↦ (e, h') ]

  -- sim_step, by what heap_peek shows. `true` is the return value 0, `false` is -1.
  unfoldable pub step_at : Call D → D → Env D → Option (HeapEntry D) → Bool × Env D
  step_at call wall env none = (false, env)
  step_at call wall env (some he) =
      if is_behind env he wall
      then (false, record env { rt_lagged = true })
      else (let p = pop_into env.heap he in
          (true, run_callbacks call (record env { heap = p.1; now = (p.0).time }) (p.0).event))

  unfoldable pub sim_step : Call D → D → Env D → Bool × Env D
  unfolding step_at
  sim_step call wall env = step_at call wall env (heap_peek env.heap)

  unfoldable pub sim_run : Call D → (ℕ → D) → ℕ → ℕ → Env D → Option (ℕ × Env D)
  sim_run call clock zero n env = none
  sim_run call clock (suc fuel) n env =
      let (done, env') = sim_step call (clock n) env in
      let rest = sim_run call clock fuel (inc64 n) env' in if done then rest else some (n, env')

  -- The entry comes before the sentinel (until, URGENT, stop_seq).
  unfoldable pub is_before : HeapEntry D → D → ℕ → Bool
  is_before he until stop_seq =
      if F.lt he.time until
      then true
      else if F.lt until he.time
      then false
      else if ltb_ℤ he.priority prio_urgent
      then true
      else if ltb_ℤ prio_urgent he.priority
      then false
      else ltb he.seq stop_seq

  -- One round, by what heap_peek shows: `step` is what sim_step does, `rest` the rounds behind it.
  unfoldable pub round_at :
      D
      → ℕ
      → ℕ
      → Env D
      → Option (HeapEntry D)
      → Bool × Env D
      → Option (ℕ × Env D)
      → Option (ℕ × Env D)
  round_at until stop_seq n env none step rest = some (n, env)
  round_at until stop_seq n env (some he) step rest =
      if is_before he until stop_seq
      then (if step.0 then rest else some (n, step.1))
      else some (n, env)

  unfoldable pub until_loop : Call D → (ℕ → D) → D → ℕ → ℕ → ℕ → Env D → Option (ℕ × Env D)
  unfolding round_at
  until_loop call clock until stop_seq zero n env = none
  until_loop call clock until stop_seq (suc fuel) n env =
      let step = sim_step call (clock n) env in
      let rest = until_loop call clock until stop_seq fuel (inc64 n) step.1 in
      round_at until stop_seq n env (heap_peek env.heap) step rest

  -- `if (env->now < until) env->now = until`.
  unfoldable pub settle : D → Env D → Env D
  settle until env = if F.lt env.now until then record env { now = until } else env

  unfoldable pub sim_run_until : Call D → (ℕ → D) → ℕ → Env D → D → Option (ℕ × Env D)
  unfolding settle
  sim_run_until call clock fuel env until =
      elim (until_loop call clock until env.next_seq fuel 0
        (record env { next_seq = inc64 env.next_seq })) [
          | none ↦ none
          | some (n, env') ↦ some (n, settle until env')
        ]
