-- ===== src/Tests/Preemptive.antt =====
-- The resource with preemption.
use mathlib.Core.List.{Perm}
use simpyc.Scheduler.{sim_env_create}
use simpyc.Event.{recycle_request, event_schedule, sim_event_succeed, alloc_from, event_alloc}
use simpyc.State.{Env}
use simpyc.Prelude.{
  ℕ, ◌+◌, ◌≡◌, refl, ◌⊎◌, true, false, none, some, List, [], ◌∷◌, arith, pos, ltb_ℤ, length, All,
}
use simpyc.PreemptiveResource.{
  unlink_request, add_holder, PreemptiveResource, Holder, sim_preemptive_resource_create,
  sim_preemptive_resource_request, sim_preemptive_resource_release,
}
use simpyc.PreemptiveResource.Units.{IsSound}
use simpyc.PreemptiveResource.History.{
  Operation, request, perform_all, perform, preemptive_history-IsSound,
}
use simpyc.PreemptiveResource.Eviction.{release-evicted, request_evicts_weakest}
use simpyc.PreemptiveResource.Weakest.{IsWeaker}
use simpyc.Tests.Samples.{start, nat_double, ignore}

abbrev holder : ℕ → ℕ → Holder
holder e p = record { req = e; owner = none; priority = pos p; preempted = false }

-- Two units, taken with the priorities 5 and 9.
abbrev calls : List Operation
calls = request none (pos 5) true ∷ request none (pos 9) true ∷ []

abbrev taken : PreemptiveResource × Env ℕ
taken = perform_all ignore calls (sim_preemptive_resource_create 7 (pos 2), start)

taken-IsSound : IsSound taken.0
taken-IsSound = preemptive_history-IsSound ignore 7 (pos 2) calls start (omega arith)

preemptive_history-IsSound_example :
    IsSound (perform_all ignore calls (sim_preemptive_resource_create 7 (pos 2), start)).0
preemptive_history-IsSound_example =
    preemptive_history-IsSound ignore 7 (pos 2) calls start (omega arith)

release-evicted_example :
    sim_preemptive_resource_release taken.0 taken.1 (some 4)
    ≡ (taken.0, recycle_request taken.1 (some 4))
unfolding sim_preemptive_resource_create sim_preemptive_resource_request perform_all perform
    add_holder unlink_request event_alloc alloc_from sim_event_succeed event_schedule sim_env_create
release-evicted_example = release-evicted taken.0 taken.1 4 taken-IsSound refl

-- The holder with priority 9 has to go for a request with priority 2.
request_evicts_weakest_example :
    let (ev, r', env') = sim_preemptive_resource_request ignore taken.0 taken.1 none (pos 2) true in
    ((victim : Holder) × (rest : List Holder) × (ltb_ℤ (pos 2) victim.priority ≡ true)
      × All (IsWeaker victim) (taken.0).holders
      × Perm (victim ∷ rest) (taken.0).holders
      × (r'.holders ≡ record { req = ev; owner = none; priority = pos 2; preempted = false } ∷ rest)
      × (r'.waiters ≡ (taken.0).waiters))
    ⊎ (All (λ h. ltb_ℤ (pos 2) h.priority ≡ false) (taken.0).holders
        × (r'.holders ≡ (taken.0).holders)
        × (length r'.waiters ≡ length (taken.0).waiters + 1))
unfolding sim_preemptive_resource_create sim_preemptive_resource_request perform_all perform
    add_holder event_alloc alloc_from sim_event_succeed event_schedule sim_env_create
request_evicts_weakest_example = request_evicts_weakest ignore taken.0 taken.1 none (pos 2) refl
