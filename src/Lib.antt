-- ===== src/Lib.antt =====
-- Discrete-event simulation in C: the event queue, the events, the scheduler, the processes and the
-- shared resources of src/ and include/simpyc.h.
--
-- The parts. An environment (src/env.c) holds a clock, a binary heap of scheduled events
-- (src/heap.c), pools of events and processes that can be used again, and the real-time settings. An
-- event (src/event.c) is pending, then triggered, which puts it into the heap, then processed, when
-- sim_step takes it out, sets the clock to its time and calls its callbacks. Processes
-- (src/process.c) are coroutines that yield events: a callback on the event switches back to them.
-- Conditions (src/cond.c) are events that fire when all or any of some others have. A resource, a
-- container or a store makes an event for each request and triggers it when the request is served.
--
-- Where to find what:
--   Prelude             shared names; Prelude.Int the machine integers, Prelude.Float the type of
--                       times, Prelude.Store memory, Prelude.Lists lists over the native numbers
--   State               the structs of src/internal.h, of coro.h and of the conditions
--   Heap                src/heap.c: entry_lt, sift_up, sift_down, heap_push, heap_pop, heap_peek
--   Event               src/event.c: _sim_event_alloc, _sim_event_schedule, sim_timeout,
--                       sim_event_succeed, sim_event_fail, sim_event_on, _sim_event_run_callbacks
--   Scheduler           src/env.c: sim_step, sim_run, sim_run_until, sim_env_set_realtime
--   Process             src/process.c: schedule_resume, sim_yield, sim_process_interrupt and the rest
--   Cond                src/cond.c: cond_cb, make_cond, sim_all_of, sim_any_of
--   SortedQueue         the insertion into a sorted list, the same code in three files
--   Resource            src/resource.c
--   PriorityResource    src/priority_resource.c
--   PreemptiveResource  src/preemptive_resource.c
--   Container           src/container.c
--   FifoStore           src/store.c
--   PriorityStore       src/priority_store.c
--   FilterStore         src/filter_store.c
--   Objects             the structs of the resources, the container and the stores
--   Coro                src/coro.c and the assembly: Coro.Amd64 coro_amd64.S, Coro.Arm64 coro_arm64.S
--   Dispatch            what the calls through function pointers lead to: the library's callbacks and
--                       the programs of a client, which are sequences of calls of the library
--   Bench               examples/bench.c as such a client
--   Micro               benchmarking/c/micro.c: Micro.Benches its benchmarks as such clients, and
--                       name_in_set
--   Tests               runs at concrete inputs
-- The definitions of a part stand in its own file, and the theorems in the files below it: Keeping
-- is about the invariant of the whole environment, History about any sequence of calls. That
-- invariant is IsKept in Dispatch.Kept, and Dispatch.Runs says what programs and callbacks keep.
--
-- Correspondences:
--   * A definition has the name of the C function. A function that changes its object returns the
--     new object; with a result it returns both; a return value -1 is `none` or `false`.
--   * Events, processes and conditions are numbers, and the environment holds the memory behind
--     them as functions. The free lists of events and processes are linked through `free_next`, as
--     in the code. A pointer of the user is a number, and 0 is the null pointer.
--   * The array of the heap is a function on indices with its length and its allocation, so what is
--     beyond the length is whatever was there. realloc and malloc are taken to succeed.
--   * The linked lists that are private to one object are lists from head to tail. The operations of
--     an object take and return it; a program of a client finds it in the environment, at the
--     address that malloc gave it.
--   * The type of times is a parameter with the operations of a C double and the laws of comparison
--     and of rounding that the proofs use (Prelude.Float): an order on the values that are numbers,
--     a sum with what is not negative does not get smaller. NaN is left in.
--   * A uint64_t or uint32_t counter wraps where the code adds to it, and so does the size in bytes
--     that heap_grow computes. The capacity, an int, is an integer. An int that counts waiters, items
--     or the events of a condition is its 32 bits, which wrap, and is read as signed where it is
--     compared. The units in use and the holders never get more than the capacity, an int, and are
--     natural numbers.
--   * A call of a callback is the parameter `call`, and the user's code of a process is the
--     parameter `code`: both take the environment and return it. Dispatch gives them for a client
--     whose processes and callbacks are programs of calls. A callback that a subscription to a
--     processed event calls at once may subscribe again, so Dispatch.Simulation bounds how deep such
--     calls nest.
--
-- Bounds and fuel. sift_up runs on the index, which each round makes smaller, and sift_down on the
-- length of the heap, for its index grows each round. sim_run and sim_run_until take fuel, since a
-- simulation may go on for ever; `none` means that the fuel ran out.
-- Theorems on the environment ask for sequence numbers below 2^58, where heap_grow cannot wrap.
--
-- What callbacks may do. The theorems on the scheduler hold for callbacks that keep to the interface
-- Scheduler.Tame.IsTame: they keep the environment valid, do not set the clock, do not release the
-- event that fires, and do not let the counter of sequence numbers wrap. Dispatch.Interface shows
-- that the library's callbacks and those of a client do.
--
-- Not modelled: the functions that only free memory, wall_now and wall_sleep_until (readings of the
-- clock are arguments), the mapping of a coroutine's stack, what the examples and benchmarks print and
-- measure, the examples other than bench.c and benchmarking/c/factory.c, clients whose processes keep
-- several values from one yield to the next, and the tests.
pub mod Bench
pub mod Cond
pub mod Coro
pub mod Container
pub mod Dispatch
pub mod Event
pub mod FifoStore
pub mod FilterStore
pub mod Heap
pub mod Micro
pub mod Objects
pub mod PreemptiveResource
pub mod Prelude
pub mod PriorityResource
pub mod PriorityStore
pub mod Process
pub mod Resource
pub mod Scheduler
pub mod SortedQueue
pub mod State
pub mod Tests
