-- ===== src/PriorityResource/Units.antt =====
-- src/priority_resource.c: the units and the sorted queue.
use simpyc.Prelude.{
  suc, ◌^◌, ◌∙◌, dec32-small, ℕ, ◌+◌, ◌≤◌, ◌<◌, ◌≡◌, refl, ap, ◌⊎◌, inl, inr, true, false, Option,
  List, [], ◌∷◌, arith, ◌==◌, Bool-cases, u64_mod, inc64, ℤ, pos, ltb_ℤ, Double, Ptr, length, All,
}
use simpyc.State.{Env}
use simpyc.Event.{event_alloc, is_pending}
use simpyc.Event.Effects.{Fired, succeed-Fired, Fired-recycle}
use simpyc.SortedQueue.{Node}
use simpyc.SortedQueue.Order.{
  Le, IsSorted, IsNumbered, All-insert, insert-IsSorted, length-insert, IsNumbered-mono,
}
use simpyc.PriorityResource.{
  PriorityResource, sim_priority_resource_create, sim_priority_resource_request,
  sim_priority_resource_release, hand_off, insert_sorted,
}

-- As for a plain resource, and the queue is sorted and its numbers have been given out.
pub record IsSound (r : PriorityResource) : Type 0 where
  pub bounded : (r.in_use ≡ 0) ⊎ (ltb_ℤ r.capacity (pos r.in_use) ≡ false)
  pub counted : r.queue_len ≡ length r.queue
  pub small : r.queue_len < 2 ^ 31
  pub busy : (r.queue ≡ []) ⊎ (ltb_ℤ (pos r.in_use) r.capacity ≡ false)
  pub sorted : IsSorted r.queue
  pub numbered : IsNumbered r.next_seq r.queue

pub data Operation : Type 0 where
  request : ℤ → Operation
  release : Option ℕ → Operation

module _ {D : Type 0} ⦃F : Double D⦄ where
  -- A request leaves the resource sound, takes one sequence number at most and adds one waiter at
  -- most.
  request-IsSound :
      (r : PriorityResource) (env : Env D) (priority : ℤ)
      → r.next_seq + 1 < u64_mod
      → r.queue_len + 1 < 2 ^ 31
      → IsSound r
      → let r' = (sim_priority_resource_request r env priority).1 in
        IsSound r' × (r'.next_seq ≤ r.next_seq + 1) × (r'.queue_len ≤ r.queue_len + 1)
  unfolding sim_priority_resource_request insert_sorted
  request-IsSound r env priority room space s =
      elim (Bool-cases (ltb_ℤ (pos r.in_use) r.capacity)) [
        | inl free ↦ rw free (
          record {
            bounded = ground arith;
            counted = s.counted;
            small = s.small;
            busy = ground (arith, s.busy);
            sorted = s.sorted;
            numbered = s.numbered;
          },
          omega arith,
          omega arith,
        )
        | inr full ↦
            let n : Node ℕ = record {
              priority = priority;
              seq = r.next_seq;
              payload = (event_alloc env).0;
            } in
            rw full (
              record {
                bounded = s.bounded;
                counted = omega (arith, s.counted, length-insert n r.queue);
                small = omega (arith, space);
                busy = inr full;
                sorted = insert-IsSorted n r.queue s.sorted;
                numbered =
                    All-insert (λ x. x.seq < inc64 r.next_seq) n r.queue (omega arith)
                      (IsNumbered-mono r.next_seq (inc64 r.next_seq) r.queue (omega arith)
                        s.numbered);
              },
              omega arith,
              omega (arith, space),
            )
      ]

  hand_off-IsSound :
      (r : PriorityResource) (q : List (Node ℕ)) (env : Env D)
      → r.queue ≡ q
      → IsSound r
      → 0 < r.in_use
      → let r' = (hand_off r q env).0 in
        IsSound r' × (r'.next_seq ≡ r.next_seq) × (r'.queue_len ≤ r.queue_len)
  unfolding hand_off
  hand_off-IsSound r [] env e s h = (
    record {
      bounded = ground arith;
      counted = s.counted;
      small = s.small;
      busy = inl e;
      sorted = s.sorted;
      numbered = s.numbered;
    },
    refl,
    omega arith,
  )
  hand_off-IsSound r (n ∷ rest) env e s h =
      let size : r.queue_len ≡ suc (length rest) = s.counted ∙ ap length e in
      let less = dec32-small r.queue_len (omega (arith, size)) s.small in
      (
        record {
          bounded = s.bounded;
          counted = omega (arith, size, less);
          small = omega (arith, s.small, less);
          busy = ground (arith, s.busy);
          sorted = (rw e at s.sorted).1;
          numbered = (rw e at s.numbered).1;
        },
        refl,
        omega (arith, less),
      )

  release-IsSound :
      (r : PriorityResource) (env : Env D) (req : Option ℕ)
      → IsSound r
      → let r' = (sim_priority_resource_release r env req).0 in
        IsSound r' × (r'.next_seq ≡ r.next_seq) × (r'.queue_len ≤ r.queue_len)
  unfolding sim_priority_resource_release
  release-IsSound r env req s = elim (Bool-cases (r.in_use == 0)) [
    | inl none_out ↦ rw none_out (s, refl, omega arith)
    | inr out ↦ rw out (hand_off-IsSound r r.queue env refl s (ground arith))
  ]

  unfoldable pub perform : Operation → PriorityResource × Env D → PriorityResource × Env D
  perform (request priority) (r, env) =
      let (ev, r', env') = sim_priority_resource_request r env priority in (r', env')
  perform (release req) (r, env) = sim_priority_resource_release r env req

  unfoldable pub perform_all : List Operation → PriorityResource × Env D → PriorityResource × Env D
  unfolding perform
  perform_all [] s = s
  perform_all (o ∷ os) s = perform_all os (perform o s)

  perform-IsSound :
      (o : Operation) (s : PriorityResource × Env D)
      → (s.0).next_seq + 1 < u64_mod
      → (s.0).queue_len + 1 < 2 ^ 31
      → IsSound s.0
      → IsSound (perform o s).0
        × (((perform o s).0).next_seq ≤ (s.0).next_seq + 1)
        × (((perform o s).0).queue_len ≤ (s.0).queue_len + 1)
  unfolding perform
  perform-IsSound (request priority) s room space i = request-IsSound s.0 s.1 priority room space i
  perform-IsSound (release req) s room space i =
      let (j, e, le) = release-IsSound s.0 s.1 req i in (j, omega (arith, e), omega (arith, le))

  perform_all-IsSound :
      (os : List Operation) (s : PriorityResource × Env D)
      → (s.0).next_seq + length os < u64_mod
      → (s.0).queue_len + length os < 2 ^ 31
      → IsSound s.0
      → IsSound (perform_all os s).0
  unfolding perform_all
  perform_all-IsSound [] s room space i = i
  perform_all-IsSound (o ∷ os) s room space i =
      let (j, le, more) = perform-IsSound o s (omega arith) (omega (arith, space)) i in
      perform_all-IsSound os (perform o s) (omega arith) (omega (arith, space, more)) j

  -- After fewer than 2^31 calls on a new resource, whatever its capacity, the units in use are
  -- within the capacity, the counter of the queue is right, nobody waits while a unit is free, and
  -- the queue is in the order of priority and arrival.
  pub priority_history-IsSound :
      (self : Ptr) (capacity : ℤ) (os : List Operation) (env : Env D)
      → length os < 2 ^ 31
      → IsSound (perform_all os (sim_priority_resource_create self capacity, env)).0
  unfolding sim_priority_resource_create
  priority_history-IsSound self capacity os env room =
      perform_all-IsSound os (sim_priority_resource_create self capacity, env) (omega (arith, room))
        (omega (arith, room))
        (record {
          bounded = inl refl;
          counted = refl;
          small = omega arith;
          busy = inl refl;
          sorted = tt;
          numbered = tt;
        })

  -- A release with requests waiting hands the unit to the first of the queue, which no other waiter
  -- precedes in priority or, at equal priority, in arrival; it alone leaves the queue, its event is
  -- triggered, and no other event changes its state or its value.
  pub release_serves_most_urgent :
      (r : PriorityResource) (env : Env D) (req : Option ℕ) (n : Node ℕ) (rest : List (Node ℕ))
      → IsSound r
      → 0 < r.in_use
      → r.queue ≡ n ∷ rest
      → is_pending (env.events n.payload).state ≡ true
      → let (r', env') = sim_priority_resource_release r env req in
        (r'.queue ≡ rest)
        × All (Le n) rest
        × (r'.in_use ≡ r.in_use)
        × Fired env n.payload r.self env'
  unfolding sim_priority_resource_release hand_off
  release_serves_most_urgent r env req n rest s h q waits =
      let out : (r.in_use == 0) ≡ false = ground arith in
      let first : All (Le n) rest = (rw q at s.sorted).0 in
      simp (out, q)
        (
          refl,
          first,
          refl,
          Fired-recycle env _ n.payload r.self req (succeed-Fired env n.payload r.self waits),
        )
