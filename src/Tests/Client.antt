-- ===== src/Tests/Client.antt =====
-- A whole simulation: examples/bench.c with one process that yields one timeout.
use simpyc.Prelude.{ℕ, ◌≡◌, refl, some, inl, inr, arith}
use simpyc.Heap.{
  swap, sift_up, sift_down, best_of, entry_lt, heap_peek, heap_pop, heap_push, heap_init,
}
use simpyc.State.{Env}
use simpyc.Event.{
  Call, run_callbacks, sim_timeout_v, event_alloc, event_schedule, sim_event_on, cb_store,
}
use simpyc.Process.{sim_process, schedule_resume, resume, waiter, process_alloc, arm_resume}
use simpyc.Scheduler.{sim_run, sim_step, pop_into, sim_env_create, is_behind}
use simpyc.Scheduler.Run.{Ran, IsOver}
use simpyc.Dispatch.{dispatch, run_program, Client}
use simpyc.Dispatch.Kept.{IsKept}
use simpyc.Dispatch.Simulation.{nested, simulation-Ran}
use simpyc.Bench.{bench, spawn}
use simpyc.Tests.Clock.{summary, left_by}
use simpyc.Tests.Samples.{nat_double, junk, stopped}

abbrev one_yield : Client ℕ
one_yield = bench 1 1

abbrev calls : Call ℕ
calls = dispatch (nested one_yield 1) one_yield

abbrev begun : Env ℕ
begun = (run_program one_yield.filters (nested one_yield 1) (spawn 1) (sim_env_create junk)).1

begun_runs : summary (sim_run calls stopped 5 0 begun) ≡ some (3, 1)
unfolding sim_run sim_step pop_into heap_pop heap_peek heap_push heap_init swap sift_up sift_down
    best_of entry_lt run_callbacks sim_timeout_v event_alloc event_schedule sim_env_create is_behind
    dispatch run_program nested spawn bench sim_process schedule_resume resume waiter sim_event_on
    cb_store
begun_runs = refl

abbrev ended : Env ℕ
ended = left_by (sim_run calls stopped 5 0 begun)

simulation-Ran_example : Ran IsKept begun ended × IsOver ended
unfolding sim_run sim_step pop_into heap_pop heap_peek heap_push heap_init swap sift_up sift_down
    best_of entry_lt run_callbacks sim_timeout_v event_alloc event_schedule sim_env_create is_behind
    dispatch run_program nested spawn bench sim_process schedule_resume resume waiter process_alloc
    arm_resume sim_event_on cb_store
simulation-Ran_example =
    simulation-Ran one_yield 1 (spawn 1) junk stopped 5 3 ended (omega arith, tt)
      (
        inr (inr ((((refl, refl), omega arith), tt), omega arith), tt),
        inr ((inr (omega arith, tt)), inr ((inr (inr (tt, omega arith), tt)), inr (tt, inl refl))),
      )
      refl
