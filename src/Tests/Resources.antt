-- ===== src/Tests/Resources.antt =====
-- The plain resource.
use simpyc.Event.Effects.{SameOutcome, Fired}
use simpyc.Scheduler.{sim_env_create}
use simpyc.State.{Env}
use simpyc.Prelude.{List, ◌++◌, ℕ, ◌≡◌, refl, some, [], ◌∷◌, arith, pos}
use simpyc.Resource.{Resource, sim_resource_create, sim_resource_request, sim_resource_release}
use simpyc.Resource.Units.{
  IsSound, Operation, request, release, perform_all, resource_history-IsSound, release_frees,
}
use simpyc.Resource.Turns.{run, release_serves_first}
use simpyc.Tests.Samples.{start, nat_double}
use simpyc.Event.{event_alloc, sim_event_succeed, event_schedule, alloc_from}

-- One unit.
abbrev single : Resource
single = sim_resource_create 7 (pos 1)

abbrev held : ℕ × Resource × Env ℕ
held = sim_resource_request single start

resource_history-IsSound_example :
    IsSound (perform_all (request ∷ request ∷ release (some 0) ∷ []) (single, start)).0
unfolding sim_resource_create
resource_history-IsSound_example =
    resource_history-IsSound 7 (pos 1) (request ∷ request ∷ release (some 0) ∷ []) start
      (omega arith)

-- The unit is out with the event 0, and the events 1 and 2 wait for it.
abbrev three_requests : List Operation
three_requests = request ∷ request ∷ request ∷ []

abbrev contended : List ℕ × Resource × Env ℕ
contended = run three_requests (single, start)

release_serves_first_example :
    let (r', env') = sim_resource_release contended.1 contended.2 (some 0) in
    ((served : List ℕ) × (contended.0 ≡ served ++ 1 ∷ 2 ∷ []))
    × (r'.queue ≡ 2 ∷ [])
    × (r'.in_use ≡ 1)
    × Fired contended.2 1 7 env'
unfolding sim_resource_create sim_resource_request event_alloc alloc_from sim_event_succeed
    event_schedule sim_env_create
release_serves_first_example =
    release_serves_first 7 (pos 1) three_requests start (some 0) 1 (2 ∷ []) (omega arith)
      (omega arith) refl refl

release_frees_example :
    let (r', env') = sim_resource_release held.1 held.2 (some 0) in
    (r'.in_use ≡ 0) × (r'.queue ≡ []) × ((x : ℕ) → SameOutcome (held.2.events x) (env'.events x))
unfolding sim_resource_create sim_resource_request event_alloc alloc_from sim_event_succeed
    event_schedule sim_env_create
release_frees_example = release_frees held.1 held.2 (some 0) refl
