-- ===== src/Tests/Callbacks.antt =====
-- The scheduler with callbacks that trigger events.
use simpyc.Heap.{
  entry_lt, best_of, sift_down, sift_up, swap, heap_init, heap_push, heap_peek, heap_pop,
}
use simpyc.Prelude.{
  ℕ, ◌<◌, ◌≡◌, refl, inl, inr, false, Option, none, some, List, [], ◌∷◌, arith, ltb, Bool-cases,
  update,
}
use simpyc.State.{triggered, user_fn, Env, CbPair, SimEvent}
use simpyc.Event.{
  dispatch_loop, run_callbacks, sim_timeout_v, cb_grow, event_schedule, Call, event_alloc,
  sim_event_on, sim_event_succeed, is_pending, cb_store,
}
use simpyc.Event.Pool.{Chain}
use simpyc.Event.Validity.{IsValid, HasRoom, touch-IsValid}
use simpyc.Event.Alloc.{event_alloc-IsValid}
use simpyc.Event.Trigger.{sim_event_succeed-IsValid}
use simpyc.Scheduler.{is_behind, pop_into, step_at, sim_step, sim_env_create}
use simpyc.Scheduler.Tame.{IsTame, IsSettled, IsPlain-IsTame}
use simpyc.Scheduler.Advance.{sim_step-advances}
use simpyc.Tests.Samples.{waiting, waiting-IsValid, nat_double}

-- A callback that triggers the event of its cookie.
abbrev trigger_other : Call ℕ
trigger_other cb e env = sim_event_succeed env cb.user 9

-- It asks for an event that has been allocated, and for a sequence number.
abbrev CanTrigger : CbPair → ℕ → Env ℕ → Type 0
CanTrigger cb e env = (cb.user < env.n_events) × HasRoom env

Chain-untouch :
    (ev : ℕ → SimEvent) (e : ℕ) (v : SimEvent) (p : Option ℕ) (xs : List ℕ)
    → v.free_next ≡ (ev e).free_next
    → Chain (update ev e v) p xs
    → Chain ev p xs
Chain-untouch ev e v none [] k c = tt
Chain-untouch ev e v none (x ∷ xs) k c = c
Chain-untouch ev e v (some p) [] k c = c
Chain-untouch ev e v (some p) (x ∷ xs) k (px, c) =
    let same : (update ev e v x).free_next ≡ (ev x).free_next = ground arith in
    (px, Chain-untouch ev e v (ev x).free_next xs k (rw same at c))

succeed-IsSettled :
    (env : Env ℕ) (e x v : ℕ) → IsSettled env e → IsSettled (sim_event_succeed env x v) e
unfolding sim_event_succeed event_schedule
succeed-IsSettled env e x v s = elim (Bool-cases (is_pending (env.events x).state)) [
  | inr spent ↦ rw spent s
  | inl waits ↦ rw waits (record {
    done = λ back. ground (arith, s.done);
    allocated = s.allocated;
    outside = λ xs c. s.outside xs (Chain-untouch env.events x _ env.event_pool xs refl c);
  })
]

succeed-now : (env : Env ℕ) (x v : ℕ) → (sim_event_succeed env x v).now ≡ env.now
unfolding sim_event_succeed event_schedule
succeed-now env x v = ground arith

trigger_other-IsTame : IsTame trigger_other IsValid CanTrigger
trigger_other-IsTame = IsPlain-IsTame trigger_other CanTrigger (record {
  keeps = λ cb e env i s f.
      (sim_event_succeed-IsValid env cb.user 9 i f.1 f.0, succeed-IsSettled env e cb.user 9 s);
  clock = λ cb e env. succeed-now env cb.user 9;
})

-- The timeout at 2, which is event 1, will trigger event 2.
abbrev linked : Env ℕ
linked = sim_event_on trigger_other (event_alloc waiting).1 1 (record { fn = user_fn 0; user = 2 })

linked-IsValid : IsValid linked
unfolding sim_event_on cb_store cb_grow event_alloc sim_timeout_v event_schedule sim_env_create
linked-IsValid =
    touch-IsValid (event_alloc waiting).1 1 _ refl refl
      (event_alloc-IsValid waiting waiting-IsValid)

sim_step-advances_example :
    IsValid (sim_step trigger_other 0 linked).1
    × (ltb ((sim_step trigger_other 0 linked).1).now linked.now ≡ false)
unfolding sim_step step_at pop_into heap_pop heap_peek heap_push heap_init swap sift_up sift_down
    best_of entry_lt run_callbacks dispatch_loop sim_timeout_v event_alloc event_schedule
    sim_env_create is_behind sim_event_on cb_store cb_grow sim_event_succeed
sim_step-advances_example =
    sim_step-advances trigger_other IsValid CanTrigger trigger_other-IsTame 0 linked linked-IsValid
      (inr ((omega arith, omega arith), tt))

-- It is at time 2 that event 2 is triggered.
linked_step : ((sim_step trigger_other 0 linked).1).now ≡ 2
unfolding sim_step step_at pop_into heap_pop heap_peek heap_push heap_init swap sift_up sift_down
    best_of entry_lt run_callbacks dispatch_loop sim_timeout_v event_alloc event_schedule
    sim_env_create is_behind sim_event_on cb_store cb_grow sim_event_succeed
linked_step = refl

linked_triggers : (((sim_step trigger_other 0 linked).1).events 2).state ≡ triggered
unfolding sim_step step_at pop_into heap_pop heap_peek heap_push heap_init swap sift_up sift_down
    best_of entry_lt run_callbacks dispatch_loop sim_timeout_v event_alloc event_schedule
    sim_env_create is_behind sim_event_on cb_store cb_grow sim_event_succeed
linked_triggers = refl
