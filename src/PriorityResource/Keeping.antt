-- ===== src/PriorityResource/Keeping.antt =====
-- src/priority_resource.c: requests keep the invariant of the whole environment.
use simpyc.Prelude.{
  ℕ, refl, ◌≡◌, ◌==◌, Option, List, [], ◌∷◌, ◌+◌, ◌^◌, ◌<◌, inl, inr, arith, Bool-cases, ℤ, pos,
  ltb_ℤ, Double,
}
use simpyc.State.{Env}
use simpyc.Event.Validity.{HasRoom}
use simpyc.Dispatch.Events.{succeed-Kept}
use simpyc.Dispatch.Runs.{Runs, Kept-Runs, ReleaseFits, recycle_request-Runs, succeed-processes}
use simpyc.Event.{recycle_request, event_alloc}
use simpyc.SortedQueue.{Node}
use simpyc.PriorityResource.{
  PriorityResource, hand_off, sim_priority_resource_release, insert_sorted,
  sim_priority_resource_request,
}
use simpyc.Dispatch.Kept.{IsKept, Kept, Kept-refl}
use simpyc.Dispatch.Held.{
  IsHeldPriorityResource, Allocated, Allocated-insert, Allocated-grow, node_event,
}
use simpyc.Dispatch.Serving.{
  Allocated-later, Spends, Spends-more, Spends-trans, succeed-Spends, alloc-Opened,
}

module _ {D : Type 0} ⦃F : Double D⦄ where
  pub request-Fits :
      (r : PriorityResource) (env : Env D) (priority : ℤ)
      → IsKept env
      → IsHeldPriorityResource r env.n_events
      → env.next_seq + 1 < 2 ^ 58
      → let (ev, r', env') = sim_priority_resource_request r env priority in
        Spends 1 env env' × IsHeldPriorityResource r' env'.n_events
  unfolding sim_priority_resource_request insert_sorted
  request-Fits r env priority k h room =
      let (ev, env') = event_alloc env in
      let o = alloc-Opened env k in
      let h' = Allocated-later node_event r.queue o.spends h in
      elim (Bool-cases (ltb_ℤ (pos r.in_use) r.capacity)) [
        | inl free ↦
            let t =
              succeed-Spends env' ev r.self o.spends.kept.kept (omega (arith, o.spends.seq))
                o.allocated in
            rw free
              (Spends-trans 0 1 env env' _ o.spends t, Allocated-later node_event r.queue t h')
        | inr full ↦ rw full (
          Spends-more 1 (omega arith) o.spends,
          Allocated-insert node_event env'.n_events
              (record { priority = priority; seq = r.next_seq; payload = ev }) r.queue o.allocated
              h',
        )
      ]

  hand_off-Kept :
      (r : PriorityResource) (q : List (Node ℕ)) (env : Env D)
      → IsKept env
      → HasRoom env
      → Allocated node_event env.n_events r.queue
      → r.queue ≡ q
      → let (r', env') = hand_off r q env in
        Kept env env'
        × (env'.processes ≡ env.processes)
        × Allocated node_event env.n_events r'.queue
  unfolding hand_off
  hand_off-Kept r [] env k room h e = (Kept-refl env k, refl, h)
  hand_off-Kept r (n ∷ rest) env k room h e =
      let queue : Allocated node_event env.n_events (n ∷ rest) = rw e at h in
      (
        succeed-Kept env n.payload r.self k room queue.0,
        succeed-processes env n.payload r.self,
        queue.1,
      )

  pub release-Runs :
      (here : Option ℕ) (r : PriorityResource) (env : Env D) (req : Option ℕ)
      → IsKept env
      → IsHeldPriorityResource r env.n_events
      → HasRoom env
      → ReleaseFits here req env
      → let (r', env') = sim_priority_resource_release r env req in
        Runs here env env' × IsHeldPriorityResource r' env'.n_events
  unfolding sim_priority_resource_release
  release-Runs here r env req k h room f = elim (Bool-cases (r.in_use == 0)) [
    | inl idle ↦ rw idle (Kept-Runs here env env (Kept-refl env k), h)
    | inr used ↦
        let (r', env') = hand_off r r.queue env in
        let (t, same, held) = hand_off-Kept r r.queue env k room h refl in
        let runs = recycle_request-Runs here req env env' t same f in
        rw used (
          runs,
          Allocated-grow node_event env.n_events (recycle_request env' req).n_events r'.queue
              runs.grows held,
        )
  ]
