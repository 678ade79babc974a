-- ===== src/Resource/Keeping.antt =====
-- src/resource.c: requests keep the invariant of the whole environment.
use simpyc.Prelude.{
  ℕ, refl, ◌≡◌, ◌==◌, Option, List, [], ◌∷◌, ◌+◌, ◌^◌, ◌<◌, inl, inr, arith, Bool-cases, pos, ltb_ℤ,
  Double,
}
use simpyc.State.{Env}
use simpyc.Event.{event_alloc, recycle_request}
use simpyc.Event.Validity.{HasRoom}
use simpyc.Dispatch.Events.{succeed-Kept}
use simpyc.Dispatch.Runs.{Runs, Kept-Runs, ReleaseFits, recycle_request-Runs, succeed-processes}
use simpyc.Resource.{Resource, hand_off, sim_resource_request, sim_resource_release}
use simpyc.Dispatch.Kept.{IsKept, Kept, Kept-refl}
use simpyc.Dispatch.Held.{IsHeldResource, Allocated, Allocated-wait, Allocated-grow, itself}
use simpyc.Dispatch.Serving.{
  Allocated-later, Spends, Spends-more, Spends-trans, succeed-Spends, alloc-Opened,
}

module _ {D : Type 0} ⦃F : Double D⦄ where
  pub request-Fits :
      (r : Resource) (env : Env D)
      → IsKept env
      → IsHeldResource r env.n_events
      → env.next_seq + 1 < 2 ^ 58
      → let (ev, r', env') = sim_resource_request r env in
        Spends 1 env env' × IsHeldResource r' env'.n_events
  unfolding sim_resource_request
  request-Fits r env k h room =
      let (ev, env') = event_alloc env in
      let o = alloc-Opened env k in
      let h' = Allocated-later itself r.queue o.spends h in
      elim (Bool-cases (ltb_ℤ (pos r.in_use) r.capacity)) [
        | inl free ↦
            let t =
              succeed-Spends env' ev r.self o.spends.kept.kept (omega (arith, o.spends.seq))
                o.allocated in
            rw free (Spends-trans 0 1 env env' _ o.spends t, Allocated-later itself r.queue t h')
        | inr full ↦ rw full (
          Spends-more 1 (omega arith) o.spends,
          Allocated-wait itself env'.n_events r.queue ev h' o.allocated,
        )
      ]

  hand_off-Kept :
      (r : Resource) (q : List ℕ) (env : Env D)
      → IsKept env
      → HasRoom env
      → Allocated itself env.n_events r.queue
      → r.queue ≡ q
      → let (r', env') = hand_off r q env in
        Kept env env' × (env'.processes ≡ env.processes) × Allocated itself env.n_events r'.queue
  unfolding hand_off
  hand_off-Kept r [] env k room h e = (Kept-refl env k, refl, h)
  hand_off-Kept r (ev ∷ rest) env k room h e =
      let queue : Allocated itself env.n_events (ev ∷ rest) = rw e at h in
      (succeed-Kept env ev r.self k room queue.0, succeed-processes env ev r.self, queue.1)

  pub release-Runs :
      (here : Option ℕ) (r : Resource) (env : Env D) (req : Option ℕ)
      → IsKept env
      → IsHeldResource r env.n_events
      → HasRoom env
      → ReleaseFits here req env
      → let (r', env') = sim_resource_release r env req in
        Runs here env env' × IsHeldResource r' env'.n_events
  unfolding sim_resource_release
  release-Runs here r env req k h room f = elim (Bool-cases (r.in_use == 0)) [
    | inl idle ↦ rw idle (Kept-Runs here env env (Kept-refl env k), h)
    | inr used ↦
        let (r', env') = hand_off r r.queue env in
        let (t, same, held) = hand_off-Kept r r.queue env k room h refl in
        let runs = recycle_request-Runs here req env env' t same f in
        rw used (
          runs,
          Allocated-grow itself env.n_events (recycle_request env' req).n_events r'.queue runs.grows
              held,
        )
  ]
