-- ===== src/Resource/Turns.antt =====
-- src/resource.c: the requests are served in the order of the calls.
use mathlib.Core.List.{append-nil, append_assoc}
use simpyc.Prelude.{
  ℕ, ◌+◌, ◌^◌, ◌<◌, ◌≡◌, refl, sym, ap, ◌∙◌, inl, inr, true, Option, List, [], ◌∷◌, ◌++◌, arith,
  ◌==◌, Bool-cases, ℤ, pos, ltb_ℤ, Double, Ptr, length,
}
use simpyc.State.{Env}
use simpyc.Event.{event_alloc, is_pending}
use simpyc.Event.Effects.{Fired}
use simpyc.Resource.{
  Resource, sim_resource_create, sim_resource_request, sim_resource_release, hand_off,
}
use simpyc.Resource.Units.{
  IsSound, Operation, request, release, request-IsSound, release-IsSound, release_hands_off,
}

-- The queue is the end of what was asked for: those who wait came behind all who were served.
record InTurn (asked : List ℕ) (r : Resource) : Type 0 where
  served : List ℕ
  turns : asked ≡ served ++ r.queue

module _ {D : Type 0} ⦃F : Double D⦄ where
  -- The events of the requests, in the order of the calls, and what is left in the end.
  abbrev pub run : List Operation → Resource × Env D → List ℕ × Resource × Env D
  run [] (r, env) = ([], r, env)
  run (request ∷ os) (r, env) =
      let (ev, r', env') = sim_resource_request r env in
      let (evs, r'', env'') = run os (r', env') in (ev ∷ evs, r'', env'')
  run (release req ∷ os) (r, env) = run os (sim_resource_release r env req)

  request-InTurn :
      (asked : List ℕ) (r : Resource) (env : Env D)
      → IsSound r
      → InTurn asked r
      → let (ev, r', env') = sim_resource_request r env in InTurn (asked ++ ev ∷ []) r'
  unfolding sim_resource_request
  request-InTurn asked r env s t =
      let ev = (event_alloc env).0 in
      elim (Bool-cases (ltb_ℤ (pos r.in_use) r.capacity)) [
        | inl free ↦
            let none_wait : r.queue ≡ [] = ground (arith, s.busy) in
            rw free (record {
              served = asked ++ ev ∷ [];
              turns = sym (ap (λ q. (asked ++ ev ∷ []) ++ q) none_wait ∙ append-nil _);
            })
        | inr full ↦ rw full (record {
          served = t.served;
          turns = ap (λ l. l ++ ev ∷ []) t.turns ∙ append_assoc t.served r.queue (ev ∷ []);
        })
      ]

  hand_off-InTurn :
      (asked : List ℕ) (r : Resource) (q : List ℕ) (env : Env D)
      → r.queue ≡ q
      → InTurn asked r
      → InTurn asked (hand_off r q env).0
  unfolding hand_off
  hand_off-InTurn asked r [] env e t = record { served = t.served; turns = t.turns }
  hand_off-InTurn asked r (ev ∷ rest) env e t = record {
    served = t.served ++ ev ∷ [];
    turns = t.turns ∙ ap (λ l. t.served ++ l) e ∙ sym (append_assoc t.served (ev ∷ []) rest);
  }

  release-InTurn :
      (asked : List ℕ) (r : Resource) (env : Env D) (req : Option ℕ)
      → InTurn asked r
      → InTurn asked (sim_resource_release r env req).0
  unfolding sim_resource_release
  release-InTurn asked r env req t = elim (Bool-cases (r.in_use == 0)) [
    | inl none_out ↦ rw none_out t
    | inr out ↦ rw out (hand_off-InTurn asked r r.queue env refl t)
  ]

  run-InTurn :
      (os : List Operation) (asked : List ℕ) (r : Resource) (env : Env D)
      → r.queue_len + length os < 2 ^ 31
      → IsSound r
      → InTurn asked r
      → let (evs, r', env') = run os (r, env) in InTurn (asked ++ evs) r'
  run-InTurn [] asked r env few s t = rw (append-nil asked) t
  run-InTurn (request ∷ os) asked r env few s t =
      let (ev, r', env') = sim_resource_request r env in
      let (j, le) = request-IsSound r env (omega (arith, few)) s in
      rw (sym (append_assoc asked (ev ∷ []) (run os (r', env')).0)) (
        run-InTurn os (asked ++ ev ∷ []) r' env' (omega (arith, few, le)) j
          (request-InTurn asked r env s t))
  run-InTurn (release req ∷ os) asked r env few s t =
      let (r', env') = sim_resource_release r env req in
      let (j, le) = release-IsSound r env req s in
      run-InTurn os asked r' env' (omega (arith, few, le)) j (release-InTurn asked r env req t)

  -- After fewer than 2^31 calls on a new resource, a release with a unit in use and requests
  -- waiting, the first of them on a pending event, hands the unit to the one that came first: those
  -- who wait are the last requests, in the order of the calls, and the release takes the earliest
  -- of them alone out of the queue, keeps as many units in use, triggers its event with the resource
  -- as its value, and changes no other event's state or value.
  pub release_serves_first :
      (self : Ptr) (capacity : ℤ) (os : List Operation) (env : Env D) (req : Option ℕ) (ev : ℕ)
      (rest : List ℕ)
      → length os < 2 ^ 31
      → let (asked, r, env') = run os (sim_resource_create self capacity, env) in
        0 < r.in_use
        → r.queue ≡ ev ∷ rest
        → is_pending (env'.events ev).state ≡ true
        → let (r', env'') = sim_resource_release r env' req in
          ((served : List ℕ) × (asked ≡ served ++ ev ∷ rest))
          × (r'.queue ≡ rest)
          × (r'.in_use ≡ r.in_use)
          × Fired env' ev r.self env''
  unfolding sim_resource_create
  release_serves_first self capacity os env req ev rest few held q waits =
      let new = sim_resource_create self capacity in
      let (asked, r, env') = run os (new, env) in
      let t =
        run-InTurn os [] new env (omega (arith, few))
          (record { bounded = inl refl; counted = refl; small = omega arith; busy = inl refl })
          (record { served = []; turns = refl }) in
      let (left, units, fired) = release_hands_off r env' req ev rest held q waits in
      ((t.served, t.turns ∙ ap (λ l. t.served ++ l) q), left, units, fired)
