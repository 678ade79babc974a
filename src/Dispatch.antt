-- ===== src/Dispatch.antt =====
-- The calls through function pointers: what `cbs[i].fn(e, cbs[i].user)` in src/event.c may lead to.
-- A client is code that works by the functions of include/simpyc.h on events, processes, conditions
-- and shared objects: the bodies of its processes and its callbacks are programs of such calls.
-- Between two calls a program may look at the environment. A callback that is called at once, since it
-- subscribes to an event that has been processed, is called through the parameter `call`.
pub mod Simulation
pub mod Interface
pub mod Callbacks
pub mod Programs
pub mod Conds
pub mod Serving
pub mod Wake
pub mod Processes
pub mod Events
pub mod Alloc
pub mod Kept
pub mod Runs
pub mod Fits
pub mod Commands
pub mod Storing
pub mod Held
use simpyc.Prelude.{ℕ, Bool, Option, List, ℤ, Double, Ptr}
use simpyc.State.{
  resume_cb, waiter_cb, cond_cb, user_fn, unset, set_resource, set_priority_resource,
  set_preemptive_resource, set_container, set_store, set_priority_store, set_filter_store, Env,
  CbPair, CallbackFn, Context,
}
use simpyc.Event.{sim_event_on, sim_event_fail, sim_event_succeed, sim_timeout_v, event_alloc, Call}
use simpyc.Process.{
  sim_process_interrupt, sim_process_event, sim_process, waiter, resume, Outcome, Code,
}
use simpyc.Resource.{sim_resource_create, sim_resource_request, sim_resource_release}
use simpyc.PriorityResource.{
  sim_priority_resource_create, sim_priority_resource_request, sim_priority_resource_release,
}
use simpyc.PreemptiveResource.{
  sim_preemptive_resource_create, sim_preemptive_resource_request, sim_preemptive_resource_release,
}
use simpyc.Container.{sim_container_create, sim_container_put, sim_container_get}
use simpyc.FifoStore.{sim_store_create, sim_store_put, sim_store_get}
use simpyc.PriorityStore.{sim_priority_store_create, sim_priority_store_put, sim_priority_store_get}
use simpyc.FilterStore.{
  Filters, sim_filter_store_create, sim_filter_store_put, sim_filter_store_get,
}
use simpyc.Cond.{sim_any_of, sim_all_of, cond_fires}

pub data Command (D : Type 0) : Type 0 where
  make_event : Command D
  make_timeout : D → Ptr → Command D
  succeed : ℕ → Ptr → Command D
  fail : ℕ → Ptr → Command D
  -- The event, the function and its cookie.
  subscribe : ℕ → ℕ → Ptr → Command D
  start_process : ℕ → Ptr → Command D
  process_event : ℕ → Command D
  interrupt : Option ℕ → Ptr → Command D
  all_of : List ℕ → Command D
  any_of : List ℕ → Command D
  -- The shared objects, with the address of the object in front.
  make_resource make_priority_resource make_preemptive_resource : Ptr → ℤ → Command D
  make_container : Ptr → D → D → Command D
  make_store make_priority_store make_filter_store : Ptr → ℤ → Command D
  request : Ptr → Command D
  priority_request : Ptr → ℤ → Command D
  preemptive_request : Ptr → Option ℕ → ℤ → Bool → Command D
  release priority_release preemptive_release : Ptr → Option ℕ → Command D
  container_put container_get : Ptr → D → Command D
  store_put : Ptr → Ptr → Command D
  store_get : Ptr → Command D
  priority_store_put : Ptr → ℤ → Ptr → Command D
  priority_store_get : Ptr → Command D
  filter_store_put : Ptr → Ptr → Command D
  filter_store_get : Ptr → Option ℕ → Ptr → Command D

-- The rest of a program depends on the event or the process that a call returns.
pub data Program (D R : Type 0) : Type 0 where
  finish : R → Program D R
  look : (Env D → Program D R) → Program D R
  command : Command D → (ℕ → Program D R) → Program D R

pub record Client (D : Type 0) : Type 0 where
  -- The process, where it goes on, and what sim_yield returned to it.
  pub body : ℕ → Context → Ptr → Program D Outcome
  -- The function, the event that it is called for and its cookie.
  pub handler : ℕ → ℕ → Ptr → Program D (Unit {0})
  -- The predicates of the gets from a filter store.
  pub filters : Filters

module _ {D : Type 0} ⦃F : Double D⦄ (test : Filters) (call : Call D) where
  -- The result is the event or the process that the call returns, and 0 where it returns nothing.
  unfoldable pub perform : Command D → Env D → ℕ × Env D
  perform make_event env = event_alloc env
  perform (make_timeout delay value) env = sim_timeout_v env delay value
  perform (succeed e value) env = (0, sim_event_succeed env e value)
  perform (fail e reason) env = (0, sim_event_fail env e reason)
  perform (subscribe e fn user) env =
      (0, sim_event_on call env e (record { fn = user_fn fn; user = user }))
  perform (start_process fn arg) env = sim_process call env fn arg
  perform (process_event p) env = sim_process_event call env p
  perform (interrupt p cause) env = (0, sim_process_interrupt call env p cause)
  perform (all_of es) env = sim_all_of call env es
  perform (any_of es) env = sim_any_of call env es
  perform (make_resource a capacity) env = (a, set_resource env a (sim_resource_create a capacity))
  perform (make_priority_resource a capacity) env =
      (a, set_priority_resource env a (sim_priority_resource_create a capacity))
  perform (make_preemptive_resource a capacity) env =
      (a, set_preemptive_resource env a (sim_preemptive_resource_create a capacity))
  perform (make_container a capacity init) env =
      (a, set_container env a (sim_container_create a capacity init))
  perform (make_store a capacity) env = (a, set_store env a (sim_store_create a capacity))
  perform (make_priority_store a capacity) env =
      (a, set_priority_store env a (sim_priority_store_create a capacity))
  perform (make_filter_store a capacity) env =
      (a, set_filter_store env a (sim_filter_store_create a capacity))
  perform (request a) env =
      let (ev, r, env') = sim_resource_request (env.objects.resources a) env in
      (ev, set_resource env' a r)
  perform (priority_request a priority) env =
      let (ev, r, env') =
        sim_priority_resource_request (env.objects.priority_resources a) env priority in
      (ev, set_priority_resource env' a r)
  perform (preemptive_request a requester priority preempt) env =
      let (ev, r, env') =
        sim_preemptive_resource_request call (env.objects.preemptive_resources a) env requester
          priority preempt in
      (ev, set_preemptive_resource env' a r)
  perform (release a req) env =
      let (r, env') = sim_resource_release (env.objects.resources a) env req in
      (0, set_resource env' a r)
  perform (priority_release a req) env =
      let (r, env') = sim_priority_resource_release (env.objects.priority_resources a) env req in
      (0, set_priority_resource env' a r)
  perform (preemptive_release a req) env =
      let (r, env') =
        sim_preemptive_resource_release (env.objects.preemptive_resources a) env req in
      (0, set_preemptive_resource env' a r)
  perform (container_put a amount) env =
      let (ev, c, env') = sim_container_put (env.objects.containers a) env amount in
      (ev, set_container env' a c)
  perform (container_get a amount) env =
      let (ev, c, env') = sim_container_get (env.objects.containers a) env amount in
      (ev, set_container env' a c)
  perform (store_put a item) env =
      let (ev, s, env') = sim_store_put (env.objects.stores a) env item in (ev, set_store env' a s)
  perform (store_get a) env =
      let (ev, s, env') = sim_store_get (env.objects.stores a) env in (ev, set_store env' a s)
  perform (priority_store_put a priority item) env =
      let (ev, s, env') =
        sim_priority_store_put (env.objects.priority_stores a) env priority item in
      (ev, set_priority_store env' a s)
  perform (priority_store_get a) env =
      let (ev, s, env') = sim_priority_store_get (env.objects.priority_stores a) env in
      (ev, set_priority_store env' a s)
  perform (filter_store_put a item) env =
      let (ev, s, env') = sim_filter_store_put test (env.objects.filter_stores a) env item in
      (ev, set_filter_store env' a s)
  perform (filter_store_get a filter user) env =
      let (ev, s, env') = sim_filter_store_get test (env.objects.filter_stores a) env filter user in
      (ev, set_filter_store env' a s)

  unfoldable pub run_program : {R : Type 0} → Program D R → Env D → R × Env D
  unfolding perform
  run_program (finish r) env = (r, env)
  run_program (look k) env = run_program (k env) env
  run_program (command c k) env = let (x, env') = perform c env in run_program (k x) env'

module _ {D : Type 0} ⦃F : Double D⦄ (call : Call D) where
  -- A call of each function that the library or a client subscribes. A cell of the array that was
  -- never written is not called.
  unfoldable pub dispatch_fn : Client D → CallbackFn → Ptr → ℕ → Env D → Env D
  unfolding run_program
  dispatch_fn client unset user e env = env
  dispatch_fn client resume_cb user e env =
      resume call
        (λ p ctx value env'. run_program client.filters call (client.body p ctx value) env') user
        env
  dispatch_fn client waiter_cb user e env = waiter call e user env
  dispatch_fn client cond_cb user e env = cond_fires user env
  dispatch_fn client (user_fn fn) user e env =
      (run_program client.filters call (client.handler fn e user) env).1

  unfoldable pub dispatch : Client D → Call D
  unfolding dispatch_fn
  dispatch client cb e env = dispatch_fn client cb.fn cb.user e env
