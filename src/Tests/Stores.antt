-- ===== src/Tests/Stores.antt =====
-- The container and the store.
use simpyc.State.{Env}
use simpyc.Prelude.{arith, ℕ, refl, inl, List, [], ◌∷◌, pos}
use simpyc.Container.{sim_container_create}
use simpyc.Container.History.{Operation, put, get, perform_all, container_history-IsSound}
use simpyc.FifoStore.{Store, sim_store_create, sim_store_put, sim_store_get}
use simpyc.FifoStore.Order.{PutDone, GetDone, sim_store_put-PutDone, sim_store_get-GetDone}
use simpyc.FifoStore.History
use simpyc.FifoStore.History.{run, store_history-IsServed}
use simpyc.FifoStore.Ledger.{IsServed}
use simpyc.Scheduler.{sim_env_create}
use simpyc.Dispatch.Simulation.{sim_env_create-IsKept}
use simpyc.Tests.Samples.{start, nat_double, junk}

-- Ten units at most, four at first: the get of six waits for the put of five.
abbrev calls : List (Operation ℕ)
calls = get 6 ∷ put 5 ∷ get 2 ∷ []

container_history-IsSound_example :
    simpyc.Container.Level.IsSound (perform_all calls (sim_container_create 7 10 4, start)).0
container_history-IsSound_example =
    container_history-IsSound 7 10 4 calls start
      (record { number = refl; capacity_number = refl; nonneg = refl; within = refl })
      ((refl, refl), ((refl, refl), ((refl, refl), tt)))

-- A store for one item.
abbrev store : Store
store = sim_store_create 7 (pos 1)

store-IsSound : simpyc.FifoStore.Order.IsSound store
unfolding sim_store_create
store-IsSound = record {
  counted = refl;
  small = omega arith;
  gets_wait = inl refl;
  puts_wait = inl refl;
}

abbrev filled : ℕ × Store × Env ℕ
filled = sim_store_put store start 41

sim_store_put-PutDone_example : PutDone store start 41 (sim_store_put store start 41)
unfolding sim_store_create
sim_store_put-PutDone_example = sim_store_put-PutDone store start 41 (omega arith) store-IsSound

sim_store_get-GetDone_example : GetDone filled.1 (sim_store_get filled.1 filled.2)
unfolding sim_store_create
sim_store_get-GetDone_example =
    sim_store_get-GetDone filled.1 filled.2
      (sim_store_put-PutDone store start 41 (omega arith) store-IsSound).sound

-- The second get waits for the second put.
abbrev mixed : List History.Operation
mixed = History.put 41 ∷ History.get ∷ History.get ∷ History.put 42 ∷ []

abbrev after : List ℕ × Store × Env ℕ
after = run mixed (sim_store_create 7 (pos 1), sim_env_create junk)

store_history-IsServed_example : IsServed after.0 (41 ∷ 42 ∷ []) after.1 after.2
unfolding sim_env_create
store_history-IsServed_example =
    store_history-IsServed 7 (pos 1) mixed (sim_env_create junk) (sim_env_create-IsKept junk)
      (omega arith) (omega arith)
