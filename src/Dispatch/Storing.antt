-- ===== src/Dispatch/Storing.antt =====
-- A shared object is written back behind an operation on it: the invariant of the whole environment
-- is kept if the waiters of the object wait on allocated events.
use simpyc.Prelude.{ℕ, refl, inl, inr, Bool-cases, ◌==◌, Option, Double, update, Ptr}
use simpyc.State.{
  Env, set_resource, set_priority_resource, set_preemptive_resource, set_container, set_store,
  set_priority_store, set_filter_store,
}
use simpyc.Objects.{Objects}
use simpyc.Objects.Resources.{Resource, PriorityResource, PreemptiveResource}
use simpyc.Objects.Buffers.{Container, Store, PriorityStore}
use simpyc.Objects.Filtered.{FilterStore}
use simpyc.Event.Validity.{SameQueue-IsValid}
use simpyc.Dispatch.Held.{
  AreHeld, IsHeldResource, IsHeldPriorityResource, IsHeldPreemptiveResource, IsHeldContainer,
  IsHeldStore, IsHeldPriorityStore, IsHeldFilterStore,
}
use simpyc.Dispatch.Kept.{IsKept}
use simpyc.Dispatch.Runs.{Runs}

update-all :
    {A : Type 0} (P : A → Type 0) (f : ℕ → A) (a : ℕ) (v : A)
    → ((x : ℕ) → P (f x))
    → P v
    → (x : ℕ) → P (update f a v x)
update-all P f a v all new x = elim (Bool-cases (x == a)) [
  | inl same ↦ rw same new
  | inr other ↦ rw other (all x)
]

module _ {D : Type 0} ⦃F : Double D⦄ where
  objects-IsKept :
      (env : Env D) (o : Objects D)
      → IsKept env
      → AreHeld o env.n_events
      → IsKept (record env { objects = o })
  objects-IsKept env o k h =
      let env' : Env D = record env { objects = o } in
      record {
        valid =
            SameQueue-IsValid env env'
              (record {
                now = refl;
                next_seq = refl;
                heap = refl;
                events = refl;
                n_events = refl;
                event_pool = refl;
              })
              k.valid;
        resumes = λ p r q.
            let s = k.resumes p r q in
            record { allocated = s.allocated; kept = s.kept; outside = s.outside };
        dones = k.dones;
        outs = k.outs;
        typed = k.typed;
        held = h;
      }

  objects-Runs :
      (here : Option ℕ) (env env' : Env D) (o : Objects D)
      → Runs here env env'
      → AreHeld o env'.n_events
      → Runs here env (record env' { objects = o })
  objects-Runs here env env' o t h = record {
    kept = objects-IsKept env' o t.kept h;
    settled = λ x e s.
        let s' = t.settled x e s in
        record { done = s'.done; allocated = s'.allocated; outside = s'.outside };
    grows = t.grows;
    conds_grow = t.conds_grow;
    now = t.now;
  }

  pub resource-Runs :
      (here : Option ℕ) (env env' : Env D) (a : Ptr) (v : Resource)
      → Runs here env env'
      → IsHeldResource v env'.n_events
      → Runs here env (set_resource env' a v)
  resource-Runs here env env' a v t h =
      objects-Runs here env env' ((set_resource env' a v).objects) t (record {
        resources =
            update-all (λ r. IsHeldResource r env'.n_events) env'.objects.resources a v
              t.kept.held.resources h;
        priority_resources = t.kept.held.priority_resources;
        preemptive_resources = t.kept.held.preemptive_resources;
        containers = t.kept.held.containers;
        stores = t.kept.held.stores;
        priority_stores = t.kept.held.priority_stores;
        filter_stores = t.kept.held.filter_stores;
      })

  pub priority_resource-Runs :
      (here : Option ℕ) (env env' : Env D) (a : Ptr) (v : PriorityResource)
      → Runs here env env'
      → IsHeldPriorityResource v env'.n_events
      → Runs here env (set_priority_resource env' a v)
  priority_resource-Runs here env env' a v t h =
      objects-Runs here env env' ((set_priority_resource env' a v).objects) t (record {
        resources = t.kept.held.resources;
        priority_resources =
            update-all (λ r. IsHeldPriorityResource r env'.n_events) env'.objects.priority_resources
              a v t.kept.held.priority_resources h;
        preemptive_resources = t.kept.held.preemptive_resources;
        containers = t.kept.held.containers;
        stores = t.kept.held.stores;
        priority_stores = t.kept.held.priority_stores;
        filter_stores = t.kept.held.filter_stores;
      })

  pub preemptive_resource-Runs :
      (here : Option ℕ) (env env' : Env D) (a : Ptr) (v : PreemptiveResource)
      → Runs here env env'
      → IsHeldPreemptiveResource v env'.n_events
      → Runs here env (set_preemptive_resource env' a v)
  preemptive_resource-Runs here env env' a v t h =
      objects-Runs here env env' ((set_preemptive_resource env' a v).objects) t (record {
        resources = t.kept.held.resources;
        priority_resources = t.kept.held.priority_resources;
        preemptive_resources =
            update-all (λ r. IsHeldPreemptiveResource r env'.n_events)
              env'.objects.preemptive_resources a v t.kept.held.preemptive_resources h;
        containers = t.kept.held.containers;
        stores = t.kept.held.stores;
        priority_stores = t.kept.held.priority_stores;
        filter_stores = t.kept.held.filter_stores;
      })

  pub container-Runs :
      (here : Option ℕ) (env env' : Env D) (a : Ptr) (v : Container D)
      → Runs here env env'
      → IsHeldContainer v env'.n_events
      → Runs here env (set_container env' a v)
  container-Runs here env env' a v t h =
      objects-Runs here env env' ((set_container env' a v).objects) t (record {
        resources = t.kept.held.resources;
        priority_resources = t.kept.held.priority_resources;
        preemptive_resources = t.kept.held.preemptive_resources;
        containers =
            update-all (λ r. IsHeldContainer r env'.n_events) env'.objects.containers a v
              t.kept.held.containers h;
        stores = t.kept.held.stores;
        priority_stores = t.kept.held.priority_stores;
        filter_stores = t.kept.held.filter_stores;
      })

  pub store-Runs :
      (here : Option ℕ) (env env' : Env D) (a : Ptr) (v : Store)
      → Runs here env env'
      → IsHeldStore v env'.n_events
      → Runs here env (set_store env' a v)
  store-Runs here env env' a v t h =
      objects-Runs here env env' ((set_store env' a v).objects) t (record {
        resources = t.kept.held.resources;
        priority_resources = t.kept.held.priority_resources;
        preemptive_resources = t.kept.held.preemptive_resources;
        containers = t.kept.held.containers;
        stores =
            update-all (λ r. IsHeldStore r env'.n_events) env'.objects.stores a v t.kept.held.stores
              h;
        priority_stores = t.kept.held.priority_stores;
        filter_stores = t.kept.held.filter_stores;
      })

  pub priority_store-Runs :
      (here : Option ℕ) (env env' : Env D) (a : Ptr) (v : PriorityStore)
      → Runs here env env'
      → IsHeldPriorityStore v env'.n_events
      → Runs here env (set_priority_store env' a v)
  priority_store-Runs here env env' a v t h =
      objects-Runs here env env' ((set_priority_store env' a v).objects) t (record {
        resources = t.kept.held.resources;
        priority_resources = t.kept.held.priority_resources;
        preemptive_resources = t.kept.held.preemptive_resources;
        containers = t.kept.held.containers;
        stores = t.kept.held.stores;
        priority_stores =
            update-all (λ r. IsHeldPriorityStore r env'.n_events) env'.objects.priority_stores a v
              t.kept.held.priority_stores h;
        filter_stores = t.kept.held.filter_stores;
      })

  pub filter_store-Runs :
      (here : Option ℕ) (env env' : Env D) (a : Ptr) (v : FilterStore)
      → Runs here env env'
      → IsHeldFilterStore v env'.n_events
      → Runs here env (set_filter_store env' a v)
  filter_store-Runs here env env' a v t h =
      objects-Runs here env env' ((set_filter_store env' a v).objects) t (record {
        resources = t.kept.held.resources;
        priority_resources = t.kept.held.priority_resources;
        preemptive_resources = t.kept.held.preemptive_resources;
        containers = t.kept.held.containers;
        stores = t.kept.held.stores;
        priority_stores = t.kept.held.priority_stores;
        filter_stores =
            update-all (λ r. IsHeldFilterStore r env'.n_events) env'.objects.filter_stores a v
              t.kept.held.filter_stores h;
      })
