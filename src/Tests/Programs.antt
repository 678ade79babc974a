-- ===== src/Tests/Programs.antt =====
-- A program that uses a resource and a store.
use simpyc.Prelude.{ℕ, pos, ◌≡◌, refl, some, none, [], ◌∷◌, arith}
use simpyc.State.{Env}
use simpyc.Event.{
  Call, event_alloc, sim_event_succeed, event_schedule, mark_recyclable, recycle_request,
}
use simpyc.Scheduler.{sim_env_create}
use simpyc.Scheduler.Tame.{IsOutside}
use simpyc.Resource.{hand_off, sim_resource_create, sim_resource_request, sim_resource_release}
use simpyc.FifoStore.{sim_store_create, sim_store_put, sim_store_get, put_item, get_item, item_push}
use simpyc.Dispatch.{
  Program, command, finish, request, release, make_resource, make_store, store_put, store_get,
  perform, run_program, Client,
}
use simpyc.Dispatch.Runs.{Runs, ReleaseFits}
use simpyc.Dispatch.Programs.{run_program-Runs}
use simpyc.Dispatch.Simulation.{nested, sim_env_create-IsKept, NestedFits, nested-CallKeeps}
use simpyc.Bench.{bench}
use simpyc.Tests.Samples.{nat_double, junk}

abbrev nobody : Client ℕ
nobody = bench 1 0

abbrev call : Call ℕ
call = nested nobody 0

-- A unit is requested and released; an item is put and gotten.
abbrev main : Program ℕ (Unit {0})
main = command (make_resource 8 (pos 1)) (λ a. command (request a) (λ req.
    command (release a (some req)) (λ x.
      command (make_store 16 (pos 0))
        (λ s. command (store_put s 42) (λ put. command (store_get s) (λ got. finish tt))))))

abbrev created : Env ℕ
created = sim_env_create junk

abbrev ended : Env ℕ
ended = (run_program nobody.filters call main created).1

nothing-IsOutside : (env : Env ℕ) (e : ℕ) → env.event_pool ≡ none → IsOutside env e
nothing-IsOutside env e empty [] c = refl
nothing-IsOutside env e empty (x ∷ xs) c = absurd (rw empty at c)

abbrev requested : Env ℕ
requested =
    (perform nobody.filters call (request 8)
      (perform nobody.filters call (make_resource 8 (pos 1)) created).1).1

released : ReleaseFits none (some 0) requested
unfolding perform sim_env_create sim_resource_create sim_resource_request event_alloc
    sim_event_succeed event_schedule
released = (
  record {
    done = λ back. absurd (ground (arith, back));
    allocated = omega arith;
    outside = nothing-IsOutside requested 0 refl;
  },
  λ p e. absurd (cc),
  λ e. absurd (cc),
)

run_program-Runs_example : Runs none created ended
unfolding run_program perform sim_env_create sim_resource_create sim_resource_request
    sim_resource_release hand_off recycle_request event_alloc sim_event_succeed event_schedule
    sim_store_put sim_store_create mark_recyclable
run_program-Runs_example =
    run_program-Runs nobody.filters call (NestedFits nobody 0 none) none
      (nested-CallKeeps nobody 0 none) main created (sim_env_create-IsKept junk)
      (tt, (omega arith, ((omega arith, released), (tt, (omega arith, (omega arith, tt))))))

-- The third event is the one of the get.
ended_carries : (ended.events 2).value ≡ 42
unfolding run_program perform sim_env_create sim_resource_create sim_resource_request
    sim_resource_release hand_off recycle_request event_alloc sim_event_succeed event_schedule
    sim_store_put sim_store_get sim_store_create put_item get_item item_push mark_recyclable
ended_carries = refl
