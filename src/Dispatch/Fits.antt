-- ===== src/Dispatch/Fits.antt =====
-- Where a program of calls of the library fits: each call is made with an allocated event, a delay
-- that is a time, and the sequence numbers that it takes left; a request is released where its event
-- may go to the pool.
use simpyc.Prelude.{ℕ, ◌+◌, ◌^◌, ◌<◌, ◌≡◌, true, Option, length, Double}
use simpyc.State.{Env, CbPair, user_fn}
use simpyc.Event.{Call, is_processed}
use simpyc.Event.Validity.{HasRoom, IsTime}
use simpyc.FilterStore.{Filters}
use simpyc.Dispatch.{
  Command, make_event, make_timeout, succeed, fail, subscribe, start_process, process_event,
  interrupt, all_of, any_of, make_resource, make_priority_resource, make_preemptive_resource,
  make_container, make_store, make_priority_store, make_filter_store, request, priority_request,
  preemptive_request, release, priority_release, preemptive_release, container_put, container_get,
  store_put, store_get, priority_store_put, priority_store_get, filter_store_put, filter_store_get,
  Program, finish, look, command, perform,
}
use simpyc.Dispatch.Kept.{IsKept}
use simpyc.Dispatch.Runs.{Runs, ReleaseFits}

-- `here` is the event whose callbacks run, if any does.
module _ {D : Type 0} ⦃F : Double D⦄ (call : Call D) (CallFits : CbPair → ℕ → Env D → Type 0)
    (here : Option ℕ) where
  -- A call at once, from a subscription to a processed event, keeps the invariant where it fits.
  abbrev pub CallKeeps : Type 0
  CallKeeps =
      (cb : CbPair) (e : ℕ) (env : Env D)
      → IsKept env
      → CallFits cb e env
      → Runs here env (call cb e env)

  abbrev pub CommandFits : Command D → Env D → Type 0
  CommandFits make_event env = Unit
  CommandFits (make_timeout delay value) env = IsTime delay × HasRoom env
  CommandFits (succeed e value) env = (e < env.n_events) × HasRoom env
  CommandFits (fail e reason) env = (e < env.n_events) × HasRoom env
  CommandFits (subscribe e fn user) env =
      is_processed (env.events e).state ≡ true
      → CallFits (record { fn = user_fn fn; user = user }) e env
  CommandFits (start_process fn arg) env = HasRoom env
  CommandFits (process_event p) env = HasRoom env
  CommandFits (interrupt p cause) env = HasRoom env
  CommandFits (all_of es) env = HasRoom env
  CommandFits (any_of es) env = HasRoom env
  CommandFits (make_resource a capacity) env = Unit
  CommandFits (make_priority_resource a capacity) env = Unit
  CommandFits (make_preemptive_resource a capacity) env = Unit
  CommandFits (make_container a capacity init) env = Unit
  CommandFits (make_store a capacity) env = Unit
  CommandFits (make_priority_store a capacity) env = Unit
  CommandFits (make_filter_store a capacity) env = Unit
  CommandFits (request a) env = HasRoom env
  CommandFits (priority_request a priority) env = HasRoom env
  CommandFits (preemptive_request a requester priority preempt) env = env.next_seq + 2 < 2 ^ 58
  CommandFits (release a req) env = HasRoom env × ReleaseFits here req env
  CommandFits (priority_release a req) env = HasRoom env × ReleaseFits here req env
  CommandFits (preemptive_release a req) env = HasRoom env × ReleaseFits here req env
  CommandFits (container_put a amount) env =
      env.next_seq + 1 + length (env.objects.containers a).gets < 2 ^ 58
  CommandFits (container_get a amount) env =
      env.next_seq + 1 + length (env.objects.containers a).puts < 2 ^ 58
  CommandFits (store_put a item) env = env.next_seq + 2 < 2 ^ 58
  CommandFits (store_get a) env = env.next_seq + 2 < 2 ^ 58
  CommandFits (priority_store_put a priority item) env = env.next_seq + 2 < 2 ^ 58
  CommandFits (priority_store_get a) env = env.next_seq + 2 < 2 ^ 58
  CommandFits (filter_store_put a item) env = env.next_seq + 2 < 2 ^ 58
  CommandFits (filter_store_get a filter user) env = env.next_seq + 3 < 2 ^ 58

module _ {D : Type 0} ⦃F : Double D⦄ (test : Filters) (call : Call D)
    (CallFits : CbPair → ℕ → Env D → Type 0) (here : Option ℕ) where
  abbrev pub ProgramFits : {R : Type 0} → Program D R → Env D → Type 0
  ProgramFits (finish r) env = Unit
  ProgramFits (look k) env = ProgramFits (k env) env
  ProgramFits (command c k) env =
      CommandFits call CallFits here c env
      × ProgramFits (k (perform test call c env).0) (perform test call c env).1
