-- ===== src/Dispatch/Commands.antt =====
-- Each call of the library by a client keeps the invariant of the whole environment.
use simpyc.Prelude.{inl, inr, Bool-cases, ◌≢◌, ℕ, ◌≡◌, true, false, Option, arith, Double}
use simpyc.State.{Env, CbPair, user_fn, cond_cb}
use simpyc.Event.{Call, sim_event_on, is_processed}
use simpyc.Resource.{sim_resource_create}
use simpyc.PriorityResource.{sim_priority_resource_create}
use simpyc.PreemptiveResource.{sim_preemptive_resource_create}
use simpyc.Container.{sim_container_create}
use simpyc.FifoStore.{sim_store_create}
use simpyc.PriorityStore.{sim_priority_store_create}
use simpyc.FilterStore.{Filters, sim_filter_store_create}
use simpyc.Resource
use simpyc.PriorityResource
use simpyc.PreemptiveResource
use simpyc.Container
use simpyc.FifoStore
use simpyc.PriorityStore
use simpyc.FilterStore
use simpyc.Dispatch.{
  Command, make_event, make_timeout, succeed, fail, subscribe, start_process, process_event,
  interrupt, all_of, any_of, make_resource, make_priority_resource, make_preemptive_resource,
  make_container, make_store, make_priority_store, make_filter_store, request, priority_request,
  preemptive_request, release, priority_release, preemptive_release, container_put, container_get,
  store_put, store_get, priority_store_put, priority_store_get, filter_store_put, filter_store_get,
  perform,
}
use simpyc.Cond.{sim_all_of, sim_any_of}
use simpyc.Dispatch.Kept.{IsKept}
use simpyc.Dispatch.Fits.{CallKeeps, CommandFits}
use simpyc.Dispatch.Runs.{Runs, Kept-Runs, Runs-refl}
use simpyc.Dispatch.Storing.{
  resource-Runs, priority_resource-Runs, preemptive_resource-Runs, container-Runs, store-Runs,
  priority_store-Runs, filter_store-Runs,
}
use simpyc.Dispatch.Alloc.{event_alloc-IsNew}
use simpyc.Dispatch.Events.{succeed-Kept, fail-Kept, timeout-Kept, on-Kept}
use simpyc.Dispatch.Processes.{sim_process-Kept, process_event-Kept, interrupt-Kept}
use simpyc.Dispatch.Conds.{make_cond-Kept}

module _ {D : Type 0} ⦃F : Double D⦄ (test : Filters) (call : Call D)
    (CallFits : CbPair → ℕ → Env D → Type 0) (here : Option ℕ)
    (keeps : CallKeeps call CallFits here) where
  subscribe-Runs :
      (env : Env D) (e : ℕ) (cb : CbPair)
      → IsKept env
      → cb.fn ≢ cond_cb
      → (is_processed (env.events e).state ≡ true → CallFits cb e env)
      → Runs here env (sim_event_on call env e cb)
  unfolding sim_event_on
  subscribe-Runs env e cb k mine f =
      let waits : is_processed (env.events e).state ≡ false
          → Runs here env (sim_event_on call env e cb) =
        λ more. Kept-Runs here env _ (
          on-Kept call env e cb k (λ q. absurd (mine q))
            (λ done. absurd (ground (arith, done, more)))) in
      elim (Bool-cases (is_processed (env.events e).state)) [
        | inl done ↦ rw done (keeps cb e env k (f done))
        | inr more ↦ waits more
      ]

  pub perform-Runs :
      (c : Command D) (env : Env D)
      → IsKept env
      → CommandFits call CallFits here c env
      → Runs here env (perform test call c env).1
  unfolding perform sim_all_of sim_any_of sim_resource_create sim_priority_resource_create
      sim_preemptive_resource_create sim_container_create sim_store_create sim_priority_store_create
      sim_filter_store_create
  perform-Runs make_event env k f = Kept-Runs here env _ (event_alloc-IsNew env k).kept
  perform-Runs (make_timeout delay value) env k f =
      Kept-Runs here env _ (timeout-Kept env delay value k f.1 f.0)
  perform-Runs (succeed e value) env k f = Kept-Runs here env _ (succeed-Kept env e value k f.1 f.0)
  perform-Runs (fail e reason) env k f = Kept-Runs here env _ (fail-Kept env e reason k f.1 f.0)
  perform-Runs (subscribe e fn user) env k f =
      subscribe-Runs env e (record { fn = user_fn fn; user = user }) k
        (λ q. absurd (ground (arith, q))) f
  perform-Runs (start_process fn arg) env k f =
      Kept-Runs here env _ (sim_process-Kept call env fn arg k f)
  perform-Runs (process_event p) env k f = Kept-Runs here env _ (process_event-Kept call env p k f)
  perform-Runs (interrupt p cause) env k f =
      Kept-Runs here env _ (interrupt-Kept call env p cause k f)
  perform-Runs (all_of es) env k f = Kept-Runs here env _ (make_cond-Kept call env es false k f)
  perform-Runs (any_of es) env k f = Kept-Runs here env _ (make_cond-Kept call env es true k f)
  perform-Runs (make_resource a capacity) env k f =
      resource-Runs here env env a _ (Runs-refl here env k) tt
  perform-Runs (make_priority_resource a capacity) env k f =
      priority_resource-Runs here env env a _ (Runs-refl here env k) tt
  perform-Runs (make_preemptive_resource a capacity) env k f =
      preemptive_resource-Runs here env env a _ (Runs-refl here env k) tt
  perform-Runs (make_container a capacity init) env k f =
      container-Runs here env env a _ (Runs-refl here env k) (record { gets = tt; puts = tt })
  perform-Runs (make_store a capacity) env k f =
      store-Runs here env env a _ (Runs-refl here env k) (record { gets = tt; puts = tt })
  perform-Runs (make_priority_store a capacity) env k f =
      priority_store-Runs here env env a _ (Runs-refl here env k) (record { gets = tt; puts = tt })
  perform-Runs (make_filter_store a capacity) env k f =
      filter_store-Runs here env env a _ (Runs-refl here env k) (record { gets = tt; puts = tt })
  perform-Runs (request a) env k f =
      let (t, held) =
        Resource.Keeping.request-Fits (env.objects.resources a) env k (k.held.resources a) f in
      resource-Runs here env _ a _ (Kept-Runs here env _ t.kept) held
  perform-Runs (priority_request a priority) env k f =
      let (t, held) =
        PriorityResource.Keeping.request-Fits (env.objects.priority_resources a) env priority k
          (k.held.priority_resources a) f in
      priority_resource-Runs here env _ a _ (Kept-Runs here env _ t.kept) held
  perform-Runs (preemptive_request a requester priority preempt) env k f =
      let (t, held) =
        PreemptiveResource.Keeping.request-Fits call (env.objects.preemptive_resources a) env
          requester priority preempt k (k.held.preemptive_resources a) f in
      preemptive_resource-Runs here env _ a _ (Kept-Runs here env _ t.kept) held
  perform-Runs (release a req) env k f =
      let (t, held) =
        Resource.Keeping.release-Runs here (env.objects.resources a) env req k (k.held.resources a)
          f.0 f.1 in
      resource-Runs here env _ a _ t held
  perform-Runs (priority_release a req) env k f =
      let (t, held) =
        PriorityResource.Keeping.release-Runs here (env.objects.priority_resources a) env req k
          (k.held.priority_resources a) f.0 f.1 in
      priority_resource-Runs here env _ a _ t held
  perform-Runs (preemptive_release a req) env k f =
      let (t, held) =
        PreemptiveResource.Keeping.release-Runs here (env.objects.preemptive_resources a) env req k
          (k.held.preemptive_resources a) f.0 f.1 in
      preemptive_resource-Runs here env _ a _ t held
  perform-Runs (container_put a amount) env k f =
      let (t, held) =
        Container.Keeping.put-Fits (env.objects.containers a) env amount k (k.held.containers a)
          f in
      container-Runs here env _ a _ (Kept-Runs here env _ t.kept) held
  perform-Runs (container_get a amount) env k f =
      let (t, held) =
        Container.Keeping.get-Fits (env.objects.containers a) env amount k (k.held.containers a)
          f in
      container-Runs here env _ a _ (Kept-Runs here env _ t.kept) held
  perform-Runs (store_put a item) env k f =
      let (t, held) =
        FifoStore.Keeping.put-Fits (env.objects.stores a) env item k (k.held.stores a) f in
      store-Runs here env _ a _ (Kept-Runs here env _ t.kept) held
  perform-Runs (store_get a) env k f =
      let (t, held) = FifoStore.Keeping.get-Fits (env.objects.stores a) env k (k.held.stores a) f in
      store-Runs here env _ a _ (Kept-Runs here env _ t.kept) held
  perform-Runs (priority_store_put a priority item) env k f =
      let (t, held) =
        PriorityStore.Keeping.put-Fits (env.objects.priority_stores a) env priority item k
          (k.held.priority_stores a) f in
      priority_store-Runs here env _ a _ (Kept-Runs here env _ t.kept) held
  perform-Runs (priority_store_get a) env k f =
      let (t, held) =
        PriorityStore.Keeping.get-Fits (env.objects.priority_stores a) env k
          (k.held.priority_stores a) f in
      priority_store-Runs here env _ a _ (Kept-Runs here env _ t.kept) held
  perform-Runs (filter_store_put a item) env k f =
      let (t, held) =
        FilterStore.Keeping.put-Fits test (env.objects.filter_stores a) env item k
          (k.held.filter_stores a) f in
      filter_store-Runs here env _ a _ (Kept-Runs here env _ t.kept) held
  perform-Runs (filter_store_get a filter user) env k f =
      let (t, held) =
        FilterStore.Keeping.get-Fits test (env.objects.filter_stores a) env filter user k
          (k.held.filter_stores a) f in
      filter_store-Runs here env _ a _ (Kept-Runs here env _ t.kept) held
