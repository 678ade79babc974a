-- ===== src/Tests/Ranked.antt =====
-- The store with priorities.
use simpyc.Prelude.{ℕ, refl, [], ◌∷◌, arith, pos, Ptr, All}
use simpyc.State.{Env}
use simpyc.Scheduler.{sim_env_create}
use simpyc.Event.{event_alloc, alloc_from, sim_event_succeed, event_schedule, mark_recyclable}
use simpyc.Event.Delivery.{Delivered}
use simpyc.SortedQueue.{Node, insert, goes_before}
use simpyc.SortedQueue.Order.{Le}
use simpyc.PriorityStore.{
  PriorityStore, sim_priority_store_create, sim_priority_store_put, sim_priority_store_get,
  item_insert_sorted, serve,
}
use simpyc.PriorityStore.Order.{IsSound, sim_priority_store_get-most_urgent}
use simpyc.PriorityStore.History.{put, perform_all, priority_store_history-IsSound}
use simpyc.Tests.Samples.{start, nat_double}

-- The items 41 and 42 with the priorities 9 and 2, in a store for two.
abbrev ranked_twice : PriorityStore × Env ℕ
ranked_twice =
    perform_all (put (pos 9) 41 ∷ put (pos 2) 42 ∷ []) (sim_priority_store_create 7 (pos 2), start)

ranked_twice-IsSound : IsSound ranked_twice.0
ranked_twice-IsSound =
    priority_store_history-IsSound 7 (pos 2) (put (pos 9) 41 ∷ put (pos 2) 42 ∷ []) start
      (omega arith)

priority_store_history-IsSound_example :
    IsSound
      (perform_all
        (put (pos 9) 41 ∷ put (pos 2) 42 ∷ [])
        (sim_priority_store_create 7 (pos 2), start)).0
priority_store_history-IsSound_example =
    priority_store_history-IsSound 7 (pos 2) (put (pos 9) 41 ∷ put (pos 2) 42 ∷ []) start
      (omega arith)

abbrev upper : Node Ptr
upper = record { priority = pos 2; seq = 1; payload = 42 }

abbrev lower : Node Ptr
lower = record { priority = pos 9; seq = 0; payload = 41 }

sim_priority_store_get-most_urgent_example :
    let (ev, s', env') = sim_priority_store_get ranked_twice.0 ranked_twice.1 in
    All (Le upper) (lower ∷ []) × Delivered env' ev 42
unfolding sim_priority_store_create sim_priority_store_put perform_all item_insert_sorted insert
    goes_before serve event_alloc alloc_from sim_event_succeed event_schedule mark_recyclable
    sim_env_create
sim_priority_store_get-most_urgent_example =
    sim_priority_store_get-most_urgent ranked_twice.0 ranked_twice.1 upper (lower ∷ [])
      ranked_twice-IsSound refl
