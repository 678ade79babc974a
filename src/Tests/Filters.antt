-- ===== src/Tests/Filters.antt =====
-- The store with filters.
use simpyc.Prelude.{arith, ℕ, ◌≡◌, refl, false, none, some, List, [], ◌∷◌, ◌==◌, pos}
use simpyc.State.{Env}
use simpyc.Scheduler.{sim_env_create}
use simpyc.Event.{event_alloc, alloc_from, sim_event_succeed, event_schedule, mark_recyclable}
use simpyc.FilterStore.{
  FilterStore, Filters, accepts, take_item, take_waiter, get_found, buffer_item,
  sim_filter_store_create, sim_filter_store_put, sim_filter_store_get, is_full,
}
use simpyc.FilterStore.History.{
  Operation, put, get, IsSound, perform_all, filter_store_history-IsSound,
}
use simpyc.FilterStore.Missed.{sim_filter_store_get-misses}
use simpyc.Tests.Samples.{start, nat_double}

-- A filter that asks for the item that is its cookie.
abbrev asks_for : Filters
asks_for f item user = item == user

-- The item 5 fills the store, a get asks for 6, and puts of 6 and of 7 wait.
abbrev with_item : ℕ × FilterStore × Env ℕ
with_item = sim_filter_store_put asks_for (sim_filter_store_create 7 (pos 1)) start 5

abbrev with_get : ℕ × FilterStore × Env ℕ
with_get = sim_filter_store_get asks_for with_item.1 with_item.2 (some 0) 6

abbrev with_put : ℕ × FilterStore × Env ℕ
with_put = sim_filter_store_put asks_for with_get.1 with_get.2 6

abbrev crowded : ℕ × FilterStore × Env ℕ
crowded = sim_filter_store_put asks_for with_put.1 with_put.2 7

sim_filter_store_get-misses_example :
    let (ev, s', env') = sim_filter_store_get asks_for crowded.1 crowded.2 none 0 in
    (s'.items ≡ [])
    × (is_full s' ≡ false)
    × (s'.gets ≡ [])
    × (s'.puts ≡ record { event = 3; item = 7 } ∷ [])
unfolding sim_filter_store_create sim_filter_store_put sim_filter_store_get get_found take_item
    take_waiter accepts buffer_item event_alloc alloc_from sim_event_succeed event_schedule
    mark_recyclable sim_env_create
sim_filter_store_get-misses_example =
    sim_filter_store_get-misses asks_for crowded.1 crowded.2 none 0 5
      (record { event = 1; filter = some 0; user = 6 }) (record { event = 2; item = 6 })
      (record { event = 3; item = 7 }) [] refl refl refl refl refl refl refl

-- The same calls, and a put and a get that find each other.
abbrev calls : List Operation
calls = put 5 ∷ get (some 0) 6 ∷ put 6 ∷ put 7 ∷ get none 0 ∷ put 9 ∷ get (some 0) 9 ∷ []

filter_store_history-IsSound_example :
    IsSound asks_for (perform_all asks_for calls (sim_filter_store_create 7 (pos 1), start)).0
filter_store_history-IsSound_example =
    filter_store_history-IsSound asks_for 7 (pos 1) calls start (omega arith)
