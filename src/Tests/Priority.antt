-- ===== src/Tests/Priority.antt =====
-- The resource with priorities.
use simpyc.Event.Effects.{Fired}
use simpyc.SortedQueue.Order.{Le}
use simpyc.Scheduler.{sim_env_create}
use simpyc.Scheduler.{sim_env_create}
use simpyc.Event.{event_schedule, sim_event_succeed, alloc_from, event_alloc}
use simpyc.State.{Env}
use simpyc.SortedQueue.{goes_before, insert, Node}
use simpyc.Prelude.{ℕ, ◌≡◌, refl, some, List, [], ◌∷◌, arith, pos, All}
use simpyc.PriorityResource.{
  insert_sorted, PriorityResource, sim_priority_resource_create, sim_priority_resource_request,
  sim_priority_resource_release,
}
use simpyc.PriorityResource.Units.{
  IsSound, Operation, request, perform_all, perform, priority_history-IsSound,
  release_serves_most_urgent,
}
use simpyc.Tests.Samples.{start, nat_double}

-- One unit, requested with priority 5, then 9, then 2: it is the last that is served next.
abbrev calls : List Operation
calls = request (pos 5) ∷ request (pos 9) ∷ request (pos 2) ∷ []

abbrev contended : PriorityResource × Env ℕ
contended = perform_all calls (sim_priority_resource_create 7 (pos 1), start)

contended-IsSound : IsSound contended.0
contended-IsSound = priority_history-IsSound 7 (pos 1) calls start (omega arith)

priority_history-IsSound_example :
    IsSound (perform_all calls (sim_priority_resource_create 7 (pos 1), start)).0
priority_history-IsSound_example = priority_history-IsSound 7 (pos 1) calls start (omega arith)

abbrev urgent : Node ℕ
urgent = record { priority = pos 2; seq = 1; payload = 2 }

abbrev lazy : Node ℕ
lazy = record { priority = pos 9; seq = 0; payload = 1 }

release_serves_most_urgent_example :
    let (r', env') = sim_priority_resource_release contended.0 contended.1 (some 0) in
    (r'.queue ≡ lazy ∷ [])
    × All (Le urgent) (lazy ∷ [])
    × (r'.in_use ≡ 1)
    × Fired contended.1 2 7 env'
unfolding sim_priority_resource_create sim_priority_resource_request perform_all perform
    insert_sorted insert goes_before event_alloc alloc_from sim_event_succeed event_schedule
    sim_env_create
release_serves_most_urgent_example =
    release_serves_most_urgent contended.0 contended.1 (some 0) urgent (lazy ∷ []) contended-IsSound
      (omega arith) refl refl
