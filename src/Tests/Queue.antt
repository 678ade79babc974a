-- ===== src/Tests/Queue.antt =====
-- The event queue and the events.
use simpyc.Heap.Contents.{bit}
use simpyc.Prelude.{ℕ, ◌+◌, ◌≡◌, refl, ◌≢◌, Bool, true, some, List, [], ◌∷◌, arith}
use simpyc.Heap.{
  swap, HeapEntry, EventHeap, heap_init, heap_push, heap_pop, entry_lt, sift_up, heap_peek,
  sift_down, best_of,
}
use simpyc.Heap.Queue.{IsValidHeap, entries, Popped, heap_push-IsValidHeap, heap_pop_correct}
use simpyc.Heap.Drain.{among, push_all, drain, IsOrdered, drain-push_all}
use simpyc.State.{triggered, Env}
use simpyc.Event.{
  prio_normal, event_alloc, sim_timeout_v, sim_event_succeed, sim_event_fail, event_schedule,
}
use simpyc.Event.Validity.{IsValid}
use simpyc.Event.Trigger.{sim_event_succeed_lem, new_entry, trigger_once}
use simpyc.Event.Alloc.{IsFresh, event_alloc-IsValid, event_alloc-IsFresh}
use simpyc.Tests.Samples.{
  nat_double, junk, late, early, one, one-IsValidHeap, two, two-IsValidHeap, waiting,
  waiting-IsValid,
}
use simpyc.Scheduler.{sim_env_create}

-- The earlier of two entries comes out first.
two_peek : heap_peek two ≡ some early
unfolding heap_peek heap_push heap_init swap sift_up entry_lt
two_peek = refl

heap_push-IsValidHeap_example : IsValidHeap (heap_push one early)
unfolding heap_push heap_init
heap_push-IsValidHeap_example = heap_push-IsValidHeap one early one-IsValidHeap refl (omega arith)

heap_pop_correct_example :
    (e : HeapEntry ℕ) × (h' : EventHeap ℕ) × (heap_pop two ≡ some (e, h')) × Popped two e h'
unfolding heap_push heap_init
heap_pop_correct_example = heap_pop_correct two two-IsValidHeap (omega arith)

-- An event that waits beside the two timeouts.
abbrev with_event : ℕ × Env ℕ
with_event = event_alloc waiting

with_event-IsValid : IsValid with_event.1
with_event-IsValid = event_alloc-IsValid waiting waiting-IsValid

event_alloc-IsFresh_example : IsFresh waiting (event_alloc waiting).0 (event_alloc waiting).1
event_alloc-IsFresh_example = event_alloc-IsFresh waiting waiting-IsValid

trigger_once_example :
    sim_event_fail (sim_event_succeed with_event.1 2 9) 2 4 ≡ sim_event_succeed with_event.1 2 9
trigger_once_example = (trigger_once with_event.1 2 9 8 7 4).1

sim_event_succeed_lem_example :
    let env' = sim_event_succeed with_event.1 2 9 in
    ((env'.events 2).state ≡ triggered)
    × ((env'.events 2).value ≡ 9)
    × ((env'.events 2).ok ≡ true)
    × ((x : ℕ) → x ≢ 2 → env'.events x ≡ (with_event.1).events x)
    × ((p : HeapEntry ℕ → Bool)
        → entries p env'.heap
          ≡ bit (p (new_entry with_event.1 2 0 prio_normal)) + entries p (with_event.1).heap)
unfolding event_alloc sim_timeout_v event_schedule sim_env_create
sim_event_succeed_lem_example =
    sim_event_succeed_lem with_event.1 2 9 with_event-IsValid (omega arith) refl

-- Two entries that are due at the same time, and an earlier one between them.
abbrev unsorted : List (HeapEntry ℕ)
unsorted = record late { seq = 4 } ∷ early ∷ late ∷ []

drain-push_all_example :
    let out = drain 3 (push_all (heap_init junk) unsorted) in
    IsOrdered out × ((p : HeapEntry ℕ → Bool) → among p out ≡ among p unsorted)
drain-push_all_example = drain-push_all junk unsorted (refl, (refl, (refl, tt))) (omega arith)

drained : drain 3 (push_all (heap_init junk) unsorted) ≡ early ∷ late ∷ record late { seq = 4 } ∷ []
unfolding drain push_all heap_push heap_init heap_pop swap sift_up sift_down best_of entry_lt
drained = refl
