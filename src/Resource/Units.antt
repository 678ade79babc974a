-- ===== src/Resource/Units.antt =====
-- src/resource.c: the units and the queue of a resource.
use simpyc.Event.Effects.{
  succeed-Fired, Fired-recycle, recycle_request-SameOutcome, Fired, SameOutcome,
}
use simpyc.Prelude.{
  suc, ◌+◌, ◌^◌, ◌≤◌, ◌∙◌, dec32-small, ℕ, ◌-◌, ◌<◌, ◌≡◌, refl, ap, ◌⊎◌, inl, inr, true, false,
  Option, List, [], ◌∷◌, arith, ◌==◌, Bool-cases, ℤ, pos, ltb_ℤ, Double, Ptr, length, length-append,
}
use simpyc.State.{Env}
use simpyc.Event.{event_alloc, is_pending}
use simpyc.Resource.{
  Resource, sim_resource_create, sim_resource_request, sim_resource_release, hand_off,
}

-- No more units are in use than there are, the length of the queue is what the counter says, and
-- nobody waits while a unit is free. The counter, an int, has not overflowed.
pub record IsSound (r : Resource) : Type 0 where
  pub bounded : (r.in_use ≡ 0) ⊎ (ltb_ℤ r.capacity (pos r.in_use) ≡ false)
  pub counted : r.queue_len ≡ length r.queue
  pub small : r.queue_len < 2 ^ 31
  pub busy : (r.queue ≡ []) ⊎ (ltb_ℤ (pos r.in_use) r.capacity ≡ false)

-- A call of a client.
pub data Operation : Type 0 where
  request : Operation
  release : Option ℕ → Operation

module _ {D : Type 0} ⦃F : Double D⦄ where
  pub request-IsSound :
      (r : Resource) (env : Env D)
      → r.queue_len + 1 < 2 ^ 31
      → IsSound r
      → let r' = (sim_resource_request r env).1 in IsSound r' × (r'.queue_len ≤ r.queue_len + 1)
  unfolding sim_resource_request
  request-IsSound r env room s = elim (Bool-cases (ltb_ℤ (pos r.in_use) r.capacity)) [
    | inl free ↦ rw free (
      record {
        bounded = ground arith;
        counted = s.counted;
        small = s.small;
        busy = ground (arith, s.busy);
      },
      omega arith,
    )
    | inr full ↦ rw full (
      record {
        bounded = s.bounded;
        counted = omega (arith, s.counted, length-append r.queue ((event_alloc env).0 ∷ []));
        small = omega (arith, room);
        busy = inr full;
      },
      omega (arith, room),
    )
  ]

  hand_off-IsSound :
      (r : Resource) (q : List ℕ) (env : Env D)
      → r.queue ≡ q
      → IsSound r
      → 0 < r.in_use
      → let r' = (hand_off r q env).0 in IsSound r' × (r'.queue_len ≤ r.queue_len)
  unfolding hand_off
  hand_off-IsSound r [] env e s h = (
    record { bounded = ground arith; counted = s.counted; small = s.small; busy = inl e },
    omega arith,
  )
  hand_off-IsSound r (ev ∷ rest) env e s h =
      let size : r.queue_len ≡ suc (length rest) = s.counted ∙ ap length e in
      let less = dec32-small r.queue_len (omega (arith, size)) s.small in
      (
        record {
          bounded = s.bounded;
          counted = omega (arith, size, less);
          small = omega (arith, s.small, less);
          busy = ground (arith, s.busy);
        },
        omega (arith, less),
      )

  pub release-IsSound :
      (r : Resource) (env : Env D) (req : Option ℕ)
      → IsSound r
      → let r' = (sim_resource_release r env req).0 in IsSound r' × (r'.queue_len ≤ r.queue_len)
  unfolding sim_resource_release
  release-IsSound r env req s = elim (Bool-cases (r.in_use == 0)) [
    | inl none_out ↦ rw none_out (s, omega arith)
    | inr out ↦ rw out (hand_off-IsSound r r.queue env refl s (ground arith))
  ]

  -- The resource and the environment after a call.
  unfoldable pub perform : Operation → Resource × Env D → Resource × Env D
  perform request (r, env) = let (ev, r', env') = sim_resource_request r env in (r', env')
  perform (release req) (r, env) = sim_resource_release r env req

  unfoldable pub perform_all : List Operation → Resource × Env D → Resource × Env D
  unfolding perform
  perform_all [] s = s
  perform_all (o ∷ os) s = perform_all os (perform o s)

  perform-IsSound :
      (o : Operation) (s : Resource × Env D)
      → (s.0).queue_len + 1 < 2 ^ 31
      → IsSound s.0
      → IsSound (perform o s).0 × (((perform o s).0).queue_len ≤ (s.0).queue_len + 1)
  unfolding perform
  perform-IsSound request s room i = request-IsSound s.0 s.1 room i
  perform-IsSound (release req) s room i =
      let (j, le) = release-IsSound s.0 s.1 req i in (j, omega (arith, le))

  perform_all-IsSound :
      (os : List Operation) (s : Resource × Env D)
      → (s.0).queue_len + length os < 2 ^ 31
      → IsSound s.0
      → IsSound (perform_all os s).0
  unfolding perform_all
  perform_all-IsSound [] s room i = i
  perform_all-IsSound (o ∷ os) s room i =
      let (j, le) = perform-IsSound o s (omega (arith, room)) i in
      perform_all-IsSound os (perform o s) (omega (arith, room, le)) j

  -- After fewer than 2^31 calls on a new resource, whatever its capacity, no more units are in use than there
  -- are, the counter of the queue is right, and nobody waits while a unit is free.
  pub resource_history-IsSound :
      (self : Ptr) (capacity : ℤ) (os : List Operation) (env : Env D)
      → length os < 2 ^ 31
      → IsSound (perform_all os (sim_resource_create self capacity, env)).0
  unfolding sim_resource_create
  resource_history-IsSound self capacity os env room =
      perform_all-IsSound os (sim_resource_create self capacity, env) (omega (arith, room))
        (record { bounded = inl refl; counted = refl; small = omega arith; busy = inl refl })

  -- A release with requests waiting hands the unit to the head of the queue: it alone leaves it, as many units stay in use, its event is triggered with the resource as its value, and no
  -- other event changes its state or its value.
  pub release_hands_off :
      (r : Resource) (env : Env D) (req : Option ℕ) (ev : ℕ) (rest : List ℕ)
      → 0 < r.in_use
      → r.queue ≡ ev ∷ rest
      → is_pending (env.events ev).state ≡ true
      → let (r', env') = sim_resource_release r env req in
        (r'.queue ≡ rest) × (r'.in_use ≡ r.in_use) × Fired env ev r.self env'
  unfolding sim_resource_release hand_off
  release_hands_off r env req ev rest h q waits =
      let out : (r.in_use == 0) ≡ false = ground arith in
      simp (out, q)
        (refl, refl, Fired-recycle env _ ev r.self req (succeed-Fired env ev r.self waits))

  -- A release with nobody waiting frees one unit and triggers nothing; without a unit in use it
  -- does nothing at all.
  pub release_frees :
      (r : Resource) (env : Env D) (req : Option ℕ)
      → r.queue ≡ []
      → let (r', env') = sim_resource_release r env req in
        (r'.in_use ≡ r.in_use - 1)
        × (r'.queue ≡ [])
        × ((x : ℕ) → SameOutcome (env.events x) (env'.events x))
  unfolding sim_resource_release hand_off
  release_frees r env req q = elim (Bool-cases (r.in_use == 0)) [
    | inl none_out ↦
        simp (none_out, q)
          (ground arith, refl, λ x. record { state = refl; value = refl; ok = refl })
    | inr out ↦ simp (out, q) (refl, refl, λ x. recycle_request-SameOutcome _ req x)
  ]
