-- ===== src/Tests/Benches.antt =====
-- The benchmarks of benchmarking/c/micro.c with two rounds, over times that are natural numbers.
use simpyc.Prelude.{ℕ, ◌≡◌, refl, Option, some}
use simpyc.Heap.{
  swap, sift_up, sift_down, best_of, entry_lt, heap_peek, heap_pop, heap_push, heap_init,
}
use simpyc.Event.{
  run_callbacks, sim_timeout_v, event_alloc, event_schedule, sim_event_on, cb_store,
  sim_event_succeed, mark_recyclable, recycle_request, recycle,
}
use simpyc.Process.{
  sim_process, schedule_resume, resume, waiter, sim_process_event, sim_process_interrupt,
}
use simpyc.Cond.{has_all, sim_all_of, sim_any_of, cond_fires}
use simpyc.Scheduler.{sim_run, sim_step, pop_into, sim_env_create, is_behind}
use simpyc.Dispatch.{dispatch, run_program, Program}
use simpyc.Dispatch.Simulation.{nested}
use simpyc.Resource.{sim_resource_create, sim_resource_request, sim_resource_release}
use simpyc.PriorityResource.{
  sim_priority_resource_create, sim_priority_resource_request, sim_priority_resource_release,
}
use simpyc.PreemptiveResource.{
  sim_preemptive_resource_create, sim_preemptive_resource_request, sim_preemptive_resource_release,
  add_holder,
}
use simpyc.Container.{sim_container_create, sim_container_put, sim_container_get}
use simpyc.PriorityStore.{sim_priority_store_create, sim_priority_store_put, sim_priority_store_get}
use simpyc.FilterStore.{
  sim_filter_store_create, sim_filter_store_put, sim_filter_store_get, buffer_item, accepts,
}
use simpyc.FifoStore.{sim_store_create, sim_store_put, sim_store_get}
use simpyc.Micro.Benches.{
  Functions, client, start_one, start_two, p_noop, p_timeout, p_churn, p_resource, b_resource,
  p_pres, b_priority_resource, p_pre, b_preemptive_resource, p_container, b_container, p_store,
  b_store, p_filter_store, b_filter_store, p_priority_store, b_priority_store, p_allof, p_anyof,
  p_interrupt, p_victim, p_driver, b_process_spawn, b_event_succeed, b_callback, churn_spawner,
  cond_each, yield_each, hold_each,
}
use simpyc.Tests.Clock.{summary}
use simpyc.Tests.Samples.{nat_double, junk, stopped}

-- The steps of the run and the time at its end.
abbrev ran : Functions ℕ → Program ℕ (Unit {0}) → Option (ℕ × ℕ)
ran fns main = summary (
    sim_run (dispatch (nested (client fns) 1) (client fns)) stopped 40 0
      (run_program (client fns).filters (nested (client fns) 1) main (sim_env_create junk)).1)

timeout_runs : ran (p_timeout 2 1) start_one ≡ some (5, 2)
unfolding sim_run sim_step pop_into heap_pop heap_peek heap_push heap_init swap sift_up sift_down
    best_of entry_lt run_callbacks sim_timeout_v event_alloc event_schedule sim_env_create is_behind
    dispatch run_program nested sim_process schedule_resume resume waiter sim_event_on cb_store
    sim_event_succeed yield_each
timeout_runs = refl

churn_runs : ran (p_churn 2) start_one ≡ some (7, 0)
unfolding sim_run sim_step pop_into heap_pop heap_peek heap_push heap_init swap sift_up sift_down
    best_of entry_lt run_callbacks sim_timeout_v event_alloc event_schedule sim_env_create is_behind
    dispatch run_program nested sim_process schedule_resume resume waiter sim_event_on cb_store
    sim_event_succeed churn_spawner p_noop sim_process_event
churn_runs = refl

resource_runs : ran (p_resource 2 8) (b_resource 8) ≡ some (5, 0)
unfolding sim_run sim_step pop_into heap_pop heap_peek heap_push heap_init swap sift_up sift_down
    best_of entry_lt run_callbacks sim_timeout_v event_alloc event_schedule sim_env_create is_behind
    dispatch run_program nested sim_process schedule_resume resume waiter sim_event_on cb_store
    sim_event_succeed sim_resource_create sim_resource_request sim_resource_release recycle_request
    recycle hold_each
resource_runs = refl

priority_resource_runs : ran (p_pres 2 8) (b_priority_resource 8) ≡ some (5, 0)
unfolding sim_run sim_step pop_into heap_pop heap_peek heap_push heap_init swap sift_up sift_down
    best_of entry_lt run_callbacks sim_timeout_v event_alloc event_schedule sim_env_create is_behind
    dispatch run_program nested sim_process schedule_resume resume waiter sim_event_on cb_store
    sim_event_succeed sim_priority_resource_create sim_priority_resource_request
    sim_priority_resource_release recycle_request recycle hold_each
priority_resource_runs = refl

preemptive_resource_runs : ran (p_pre 2 8) (b_preemptive_resource 8) ≡ some (5, 0)
unfolding sim_run sim_step pop_into heap_pop heap_peek heap_push heap_init swap sift_up sift_down
    best_of entry_lt run_callbacks sim_timeout_v event_alloc event_schedule sim_env_create is_behind
    dispatch run_program nested sim_process schedule_resume resume waiter sim_event_on cb_store
    sim_event_succeed sim_preemptive_resource_create sim_preemptive_resource_request
    sim_preemptive_resource_release add_holder recycle_request recycle hold_each
preemptive_resource_runs = refl

container_runs : ran (p_container 2 1 8) (b_container 4 0 8) ≡ some (10, 0)
unfolding sim_run sim_step pop_into heap_pop heap_peek heap_push heap_init swap sift_up sift_down
    best_of entry_lt run_callbacks sim_timeout_v event_alloc event_schedule sim_env_create is_behind
    dispatch run_program nested sim_process schedule_resume resume waiter sim_event_on cb_store
    sim_event_succeed sim_container_create sim_container_put sim_container_get mark_recyclable
    yield_each
container_runs = refl

store_runs : ran (p_store 2 8) (b_store 8) ≡ some (10, 0)
unfolding sim_run sim_step pop_into heap_pop heap_peek heap_push heap_init swap sift_up sift_down
    best_of entry_lt run_callbacks sim_timeout_v event_alloc event_schedule sim_env_create is_behind
    dispatch run_program nested sim_process schedule_resume resume waiter sim_event_on cb_store
    sim_event_succeed sim_store_create sim_store_put sim_store_get mark_recyclable yield_each
store_runs = refl

filter_store_runs : ran (p_filter_store 2 8) (b_filter_store 8) ≡ some (10, 0)
unfolding sim_run sim_step pop_into heap_pop heap_peek heap_push heap_init swap sift_up sift_down
    best_of entry_lt run_callbacks sim_timeout_v event_alloc event_schedule sim_env_create is_behind
    dispatch run_program nested sim_process schedule_resume resume waiter sim_event_on cb_store
    sim_event_succeed sim_filter_store_create sim_filter_store_put sim_filter_store_get buffer_item
    accepts mark_recyclable yield_each
filter_store_runs = refl

priority_store_runs : ran (p_priority_store 2 8) (b_priority_store 8) ≡ some (10, 0)
unfolding sim_run sim_step pop_into heap_pop heap_peek heap_push heap_init swap sift_up sift_down
    best_of entry_lt run_callbacks sim_timeout_v event_alloc event_schedule sim_env_create is_behind
    dispatch run_program nested sim_process schedule_resume resume waiter sim_event_on cb_store
    sim_event_succeed sim_priority_store_create sim_priority_store_put sim_priority_store_get
    mark_recyclable yield_each
priority_store_runs = refl

allof_runs : ran (p_allof 2 0) start_one ≡ some (13, 0)
unfolding sim_run sim_step pop_into heap_pop heap_peek heap_push heap_init swap sift_up sift_down
    best_of entry_lt run_callbacks sim_timeout_v event_alloc event_schedule sim_env_create is_behind
    dispatch run_program nested sim_process schedule_resume resume waiter sim_event_on cb_store
    sim_event_succeed cond_each sim_all_of cond_fires has_all
allof_runs = refl

anyof_runs : ran (p_anyof 2 0) start_one ≡ some (13, 0)
unfolding sim_run sim_step pop_into heap_pop heap_peek heap_push heap_init swap sift_up sift_down
    best_of entry_lt run_callbacks sim_timeout_v event_alloc event_schedule sim_env_create is_behind
    dispatch run_program nested sim_process schedule_resume resume waiter sim_event_on cb_store
    sim_event_succeed cond_each sim_any_of cond_fires has_all
anyof_runs = refl

interrupt_runs : ran (p_interrupt 2 0 9) start_two ≡ some (10, 9)
unfolding sim_run sim_step pop_into heap_pop heap_peek heap_push heap_init swap sift_up sift_down
    best_of entry_lt run_callbacks sim_timeout_v event_alloc event_schedule sim_env_create is_behind
    dispatch run_program nested sim_process schedule_resume resume waiter sim_event_on cb_store
    sim_event_succeed p_victim p_driver sim_process_interrupt
interrupt_runs = refl

spawn_runs : ran (p_churn 0) (b_process_spawn 2) ≡ some (2, 0)
unfolding sim_run sim_step pop_into heap_pop heap_peek heap_push heap_init swap sift_up sift_down
    best_of entry_lt run_callbacks sim_timeout_v event_alloc event_schedule sim_env_create is_behind
    dispatch run_program nested sim_process schedule_resume resume waiter sim_event_on cb_store
    sim_event_succeed b_process_spawn churn_spawner
spawn_runs = refl

event_succeed_runs : ran (p_churn 0) (b_event_succeed 2) ≡ some (2, 0)
unfolding sim_run sim_step pop_into heap_pop heap_peek heap_push heap_init swap sift_up sift_down
    best_of entry_lt run_callbacks sim_timeout_v event_alloc event_schedule sim_env_create is_behind
    dispatch run_program nested sim_process schedule_resume resume waiter sim_event_on cb_store
    sim_event_succeed b_event_succeed
event_succeed_runs = refl

callback_runs : ran (p_churn 0) (b_callback 2) ≡ some (1, 0)
unfolding sim_run sim_step pop_into heap_pop heap_peek heap_push heap_init swap sift_up sift_down
    best_of entry_lt run_callbacks sim_timeout_v event_alloc event_schedule sim_env_create is_behind
    dispatch run_program nested sim_process schedule_resume resume waiter sim_event_on cb_store
    sim_event_succeed b_callback
callback_runs = refl
