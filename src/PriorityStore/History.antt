-- ===== src/PriorityStore/History.antt =====
-- src/priority_store.c: any sequence of calls.
use simpyc.PriorityStore.Order.{IsSound, Keeps, put-Keeps, get-Keeps, full-no_gets}
use simpyc.Prelude.{
  ◌^◌, ◌+◌, ◌<◌, refl, inl, inr, List, [], ◌∷◌, arith, Bool-cases, u64_mod, ℤ, Double, Ptr, length,
}
use simpyc.State.{Env}
use simpyc.Event.{event_alloc}
use simpyc.Event.Delivery.{opened}
use simpyc.PriorityStore.{
  PriorityStore, sim_priority_store_create, is_full, sim_priority_store_put, sim_priority_store_get,
}

-- A call of a client.
pub data Operation : Type 0 where
  put : ℤ → Ptr → Operation
  get : Operation

module _ {D : Type 0} ⦃F : Double D⦄ where
  abbrev pub perform : Operation → PriorityStore × Env D → PriorityStore × Env D
  perform (put priority item) (s, env) =
      let (ev, s', env') = sim_priority_store_put s env priority item in (s', env')
  perform get (s, env) = let (ev, s', env') = sim_priority_store_get s env in (s', env')

  unfoldable pub perform_all : List Operation → PriorityStore × Env D → PriorityStore × Env D
  perform_all [] s = s
  perform_all (o ∷ os) s = perform_all os (perform o s)

  perform-Keeps :
      (o : Operation) (s : PriorityStore × Env D)
      → (s.0).next_seq + 1 < u64_mod
      → (s.0).count + 1 < 2 ^ 31
      → IsSound s.0
      → Keeps s.0 (perform o s).0
  unfolding sim_priority_store_put sim_priority_store_get
  perform-Keeps (put priority item) (s, env) room space i = elim (Bool-cases (is_full s)) [
    | inl full ↦ rw full (
      record {
        counted = i.counted;
        small = i.small;
        sorted = i.sorted;
        numbered = i.numbered;
        gets_wait = inl (full-no_gets s i full);
        puts_wait = inr full;
      },
      omega arith,
      omega arith,
    )
    | inr free ↦ rw free (put-Keeps s _ priority item s.gets refl i room space free)
  ]
  perform-Keeps get (s, env) room space i =
      get-Keeps s s.items (opened env) (event_alloc env).0 refl i room

  perform_all-IsSound :
      (os : List Operation) (s : PriorityStore × Env D)
      → (s.0).next_seq + length os < u64_mod
      → (s.0).count + length os < 2 ^ 31
      → IsSound s.0
      → IsSound (perform_all os s).0
  unfolding perform_all
  perform_all-IsSound [] s room space i = i
  perform_all-IsSound (o ∷ os) s room space i =
      let (j, le, more) = perform-Keeps o s (omega arith) (omega (arith, space)) i in
      perform_all-IsSound os (perform o s) (omega arith) (omega (arith, space, more)) j

  -- After fewer than 2^31 puts and gets on a new store, whatever its capacity, the counter counts
  -- the items, which are in the order of priority and arrival; nobody waits to get while there is an
  -- item or a put, and nobody waits to put while there is room.
  pub priority_store_history-IsSound :
      (self : Ptr) (capacity : ℤ) (os : List Operation) (env : Env D)
      → length os < 2 ^ 31
      → IsSound (perform_all os (sim_priority_store_create self capacity, env)).0
  unfolding sim_priority_store_create
  priority_store_history-IsSound self capacity os env room =
      perform_all-IsSound os (sim_priority_store_create self capacity, env) (omega (arith, room))
        (omega (arith, room))
        (record {
          counted = refl;
          small = omega arith;
          sorted = tt;
          numbered = tt;
          gets_wait = inl refl;
          puts_wait = inl refl;
        })
