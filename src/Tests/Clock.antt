-- ===== src/Tests/Clock.antt =====
-- The scheduler.
use simpyc.Scheduler.Until.{IsReached}
use simpyc.Prelude.{ℕ, ◌+◌, ◌≡◌, refl, ◌⊎◌, inl, inr, true, false, Option, none, some, arith, ltb}
use simpyc.Heap.Queue.{entries}
use simpyc.Heap.{
  swap, heap_init, heap_push, heap_pop, entry_lt, sift_up, sift_down, best_of, heap_peek,
}
use simpyc.State.{Env}
use simpyc.Event.{event_alloc, sim_timeout_v, run_callbacks, event_schedule}
use simpyc.Event.Validity.{SameQueue-IsValid, IsValid}
use simpyc.Scheduler.{
  sim_env_create, sim_step, sim_run, sim_run_until, until_loop, is_behind, is_before, settle,
  pop_into,
}
use simpyc.Scheduler.Run.{Ran, IsOver, sim_run-Ran}
use simpyc.Scheduler.Sentinel.{sim_run_until-reaches}
use simpyc.Scheduler.Lag.{sim_run_until-overshoots}
use simpyc.Tests.Samples.{
  NoDemand, nat_double, early, ignore, ignore-IsTame, stopped, waiting, waiting-IsValid,
}

-- The number of steps that a run took, and the time at its end.
abbrev pub summary : Option (ℕ × Env ℕ) → Option (ℕ × ℕ)
summary none = none
summary (some (n, env)) = some (n, env.now)

run_waiting : summary (sim_run ignore stopped 4 0 waiting) ≡ some (2, 5)
unfolding sim_run sim_step pop_into heap_pop heap_peek heap_push heap_init swap sift_up sift_down
    best_of entry_lt run_callbacks sim_timeout_v event_alloc event_schedule sim_env_create is_behind
run_waiting = refl

-- The timeout at 5 is not fired by a run until 5.
until_waiting : summary (sim_run_until ignore stopped 4 waiting 5) ≡ some (1, 5)
unfolding sim_run_until until_loop settle is_before sim_step pop_into heap_pop heap_peek heap_push
    heap_init swap sift_up sift_down best_of entry_lt run_callbacks sim_timeout_v event_alloc
    event_schedule sim_env_create is_behind
until_waiting = refl

-- What a run leaves, if it has fuel enough.
abbrev pub left_by : Option (ℕ × Env ℕ) → Env ℕ
left_by none = waiting
left_by (some (n, env)) = env

abbrev drained : Env ℕ
drained = left_by (sim_run ignore stopped 4 0 waiting)

sim_run-Ran_example : Ran IsValid waiting drained × IsOver drained
unfolding sim_run sim_step pop_into heap_pop heap_peek heap_push heap_init swap sift_up sift_down
    best_of entry_lt run_callbacks sim_timeout_v event_alloc event_schedule sim_env_create is_behind
sim_run-Ran_example =
    sim_run-Ran ignore IsValid NoDemand ignore-IsTame stopped 4 0 2 waiting drained waiting-IsValid
      (inr tt, inr (inr tt, inr (tt, inl refl))) refl

abbrev at_five : Env ℕ
at_five = left_by (sim_run_until ignore stopped 4 waiting 5)

sim_run_until-reaches_example :
    (ltb at_five.now 5 ≡ false)
    × (ltb at_five.now waiting.now ≡ false)
    × ((ltb 5 waiting.now ≡ true) ⊎ (ltb 5 at_five.now ≡ false))
    × ((at_five.rt_lagged ≡ true)
        ⊎ (IsValid at_five
            × IsReached at_five 5 waiting.next_seq
            × (entries (λ x. ltb x.time 5) at_five.heap ≡ 0)))
unfolding sim_run_until until_loop settle is_before sim_step pop_into heap_pop heap_peek heap_push
    heap_init swap sift_up sift_down best_of entry_lt run_callbacks sim_timeout_v event_alloc
    event_schedule sim_env_create is_behind
sim_run_until-reaches_example =
    sim_run_until-reaches ignore IsValid NoDemand ignore-IsTame stopped 4 1 waiting at_five 5
      waiting-IsValid (omega arith) refl (inr (inr tt, inr (inl (λ x e. ground arith)))) refl

-- A strict run at one second for a unit of time, which looks at the clock ten seconds late.
abbrev strict : Env ℕ
strict = record waiting { rt_factor = 1; rt_strict = true }

strict-IsValid : IsValid strict
strict-IsValid =
    SameQueue-IsValid waiting strict
      (record {
        now = refl;
        next_seq = refl;
        heap = refl;
        events = refl;
        n_events = refl;
        event_pool = refl;
      })
      waiting-IsValid

sim_run_until-overshoots_example :
    (env' : Env ℕ) × (sim_run_until ignore (λ n. n + 10) 3 strict 4 ≡ some (0, env'))
    × (env'.now ≡ 4)
    × (heap_peek env'.heap ≡ some early)
    × (¬ IsValid env')
unfolding heap_peek heap_push heap_init swap sift_up entry_lt sim_timeout_v event_alloc
    event_schedule sim_env_create is_behind
sim_run_until-overshoots_example =
    sim_run_until-overshoots ignore (λ n. n + 10) 2 strict 4 early strict-IsValid refl refl refl
