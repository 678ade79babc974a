-- ===== src/PreemptiveResource/History.antt =====
-- src/preemptive_resource.c: any sequence of calls.
use simpyc.PreemptiveResource.Release.{release-IsSound}
use simpyc.PreemptiveResource.Units.{request-Keeps, IsSound, Keeps}
use simpyc.Prelude.{
  ◌^◌, ℕ, ◌+◌, ◌<◌, refl, inl, Bool, Option, List, [], ◌∷◌, arith, u64_mod, ℤ, Double, Ptr, length,
}
use simpyc.State.{Env}
use simpyc.Event.{Call}
use simpyc.PreemptiveResource.{
  PreemptiveResource, sim_preemptive_resource_create, sim_preemptive_resource_request,
  sim_preemptive_resource_release,
}

pub data Operation : Type 0 where
  request : Option ℕ → ℤ → Bool → Operation
  release : Option ℕ → Operation

module _ {D : Type 0} ⦃F : Double D⦄ where
  module _ (call : Call D) where
    unfoldable pub perform : Operation → PreemptiveResource × Env D → PreemptiveResource × Env D
    perform (request requester priority preempt) (r, env) =
        let (ev, r', env') =
          sim_preemptive_resource_request call r env requester priority preempt in
        (r', env')
    perform (release req) (r, env) = sim_preemptive_resource_release r env req

    unfoldable pub perform_all :
        List Operation → PreemptiveResource × Env D → PreemptiveResource × Env D
    unfolding perform
    perform_all [] s = s
    perform_all (o ∷ os) s = perform_all os (perform o s)

    perform-Keeps :
        (o : Operation) (s : PreemptiveResource × Env D)
        → (s.0).next_seq + 1 < u64_mod
        → (s.0).queue_len + 1 < 2 ^ 31
        → IsSound s.0
        → Keeps s.0 (perform o s).0
    unfolding perform
    perform-Keeps (request requester priority preempt) s room space i =
        request-Keeps call s.0 s.1 requester priority preempt i room space
    perform-Keeps (release req) s room space i = release-IsSound s.0 s.1 req i

    perform_all-IsSound :
        (os : List Operation) (s : PreemptiveResource × Env D)
        → (s.0).next_seq + length os < u64_mod
        → (s.0).queue_len + length os < 2 ^ 31
        → IsSound s.0
        → IsSound (perform_all os s).0
    unfolding perform_all
    perform_all-IsSound [] s room space i = i
    perform_all-IsSound (o ∷ os) s room space i =
        let (j, le, more) = perform-Keeps o s (omega arith) (omega (arith, space)) i in
        perform_all-IsSound os (perform o s) (omega arith) (omega (arith, space, more)) j

    -- After fewer than 2^31 calls on a new resource, evictions included, the units in use are the
    -- holders and within the capacity, the counter of the queue is right, nobody waits while a unit
    -- is free, and the queue is in the order of priority and arrival.
    pub preemptive_history-IsSound :
        (self : Ptr) (capacity : ℤ) (os : List Operation) (env : Env D)
        → length os < 2 ^ 31
        → IsSound (perform_all os (sim_preemptive_resource_create self capacity, env)).0
    unfolding sim_preemptive_resource_create
    preemptive_history-IsSound self capacity os env room =
        perform_all-IsSound os (sim_preemptive_resource_create self capacity, env)
          (omega (arith, room)) (omega (arith, room))
          (record {
            held = refl;
            bounded = inl refl;
            counted = refl;
            small = omega arith;
            busy = inl refl;
            sorted = tt;
            numbered = tt;
          })
