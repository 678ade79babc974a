-- ===== src/Tests/Conditions.antt =====
-- Conditions.
use simpyc.Cond.Subscribe.{IsAwaited}
use simpyc.Prelude.{◌⊎◌, All, ℕ, ◌≡◌, ◌≢◌, inr, true, false, [], ◌∷◌, arith, List}
use simpyc.Heap.{
  swap, heap_init, heap_push, heap_pop, entry_lt, sift_up, sift_down, best_of, heap_peek,
}
use simpyc.State.{Env}
use simpyc.Event.{
  event_alloc, sim_timeout_v, run_callbacks, event_schedule, sim_event_succeed, sim_event_triggered,
}
use simpyc.Event.Validity.{IsValid}
use simpyc.Event.Alloc.{event_alloc-IsValid}
use simpyc.Event.Trigger.{sim_event_succeed-IsValid}
use simpyc.Scheduler.{sim_env_create, sim_step, is_behind, pop_into}
use simpyc.Scheduler.Create.{sim_env_create-IsValid}
use simpyc.Scheduler.Advance.{sim_step-advances}
use simpyc.Cond.{count_processed, make_cond, cond_fires, sim_any_of}
use simpyc.Cond.Resolve.{begin, fires}
use simpyc.Cond.Create.{make_cond-resolves}
use simpyc.Cond.Leak.{sim_any_of-leaks}
use simpyc.Tests.Samples.{
  NoDemand, nat_double, ignore, ignore-IsTame, junk, start, waiting, waiting-IsValid,
}

-- Both of the two timeouts.
abbrev both : List ℕ
both = 0 ∷ 1 ∷ []

abbrev waits_for_both : ℕ × Env ℕ
waits_for_both = make_cond ignore waiting both false

-- Both fire, one behind the other.
abbrev both_fired : Env ℕ
both_fired = cond_fires 0 (cond_fires 0 waits_for_both.1)

make_cond-resolves_example :
    ((sim_event_triggered waits_for_both.1 waits_for_both.0 ≡ true)
      ⊎ All (IsAwaited waits_for_both.1 0) both)
    × ((both_fired.conds 0).live ≡ false)
    × (sim_event_triggered both_fired waits_for_both.0 ≡ true)
unfolding sim_timeout_v event_alloc event_schedule sim_env_create count_processed
make_cond-resolves_example =
    make_cond-resolves ignore waiting both false 2 both_fired waiting-IsValid (omega arith)
      (omega arith) (λ e. ground arith) (omega arith) (fires 1 _ _ (fires 0 _ _ (begin _)))

-- Event 0 has been processed, and event 1 is pending.
abbrev one_of_two : Env ℕ
one_of_two = (event_alloc (sim_event_succeed (event_alloc start).1 0 3)).1

one_of_two-IsValid : IsValid one_of_two
unfolding event_alloc sim_env_create
one_of_two-IsValid = event_alloc-IsValid _ (
    sim_event_succeed-IsValid (event_alloc start).1 0 3
      (event_alloc-IsValid start (sim_env_create-IsValid junk)) (omega arith) (omega arith))

abbrev half_done : Env ℕ
half_done = (sim_step ignore 0 one_of_two).1

half_done-IsValid : IsValid half_done
unfolding sim_step pop_into heap_pop heap_peek heap_push heap_init swap sift_up sift_down best_of
    entry_lt run_callbacks event_alloc event_schedule sim_env_create is_behind sim_event_succeed
half_done-IsValid =
    (sim_step-advances ignore IsValid NoDemand ignore-IsTame 0 one_of_two one_of_two-IsValid
      (inr tt)).0

sim_any_of-leaks_example :
    let (out, env') = sim_any_of ignore half_done both in
    ((env'.conds 0).live ≡ true)
    × (sim_event_triggered env' out ≡ true)
    × ((env'.events out).cb_len ≡ 0)
    × ((x : ℕ) → x ≢ out → env'.events x ≡ half_done.events x)
unfolding sim_step pop_into heap_pop heap_peek heap_push heap_init swap sift_up sift_down best_of
    entry_lt run_callbacks event_alloc event_schedule sim_env_create is_behind sim_event_succeed
    count_processed
sim_any_of-leaks_example =
    sim_any_of-leaks ignore half_done both half_done-IsValid (omega arith) (omega arith)
      (omega arith)
