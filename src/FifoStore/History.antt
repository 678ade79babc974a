-- ===== src/FifoStore/History.antt =====
-- src/store.c: any sequence of puts and gets, from a new store on.
use mathlib.Core.List.{append-nil, append_assoc}
use simpyc.Prelude.{
  ℕ, ◌+◌, ◌*◌, ◌^◌, ◌<◌, inl, refl, sym, List, [], ◌∷◌, ◌++◌, arith, ℤ, Double, Ptr, length,
  length-append,
}
use simpyc.State.{Env}
use simpyc.FifoStore.{Store, sim_store_create, sim_store_put, sim_store_get}
use simpyc.FifoStore.Keeping.{put-Fits, get-Fits}
use simpyc.FifoStore.Ledger.{IsServed, Ledger, Ledger-count, put-Ledger, get-Ledger}
use simpyc.Dispatch.Kept.{IsKept}

-- A call of a client.
pub data Operation : Type 0 where
  put : Ptr → Operation
  get : Operation

-- The items that are put, in the order of the calls.
abbrev pub offered : List Operation → List Ptr
offered [] = []
offered (put item ∷ os) = item ∷ offered os
offered (get ∷ os) = offered os

module _ {D : Type 0} ⦃F : Double D⦄ where
  -- The events of the gets, in the order of the calls, and what is left in the end.
  abbrev pub run : List Operation → Store × Env D → List ℕ × Store × Env D
  run [] (s, env) = ([], s, env)
  run (put item ∷ os) (s, env) = let (ev, s', env') = sim_store_put s env item in run os (s', env')
  run (get ∷ os) (s, env) =
      let (ev, s', env') = sim_store_get s env in
      let (evs, s'', env'') = run os (s', env') in (ev ∷ evs, s'', env'')

  run-Ledger :
      (os : List Operation) (asked : List ℕ) (items : List Ptr) (s : Store) (env : Env D)
      → env.next_seq + 2 * length os < 2 ^ 58
      → length items + length os < 2 ^ 31
      → Ledger asked items s env
      → let (evs, s', env') = run os (s, env) in Ledger (asked ++ evs) (items ++ offered os) s' env'
  run-Ledger [] asked items s env room few l = rw (append-nil asked, append-nil items) l
  run-Ledger (put item ∷ os) asked items s env room few l =
      let (ev, s', env') = sim_store_put s env item in
      let (t, held) = put-Fits s env item l.kept l.held (omega (arith, room)) in
      rw (sym (append_assoc items (item ∷ []) (offered os))) (
        run-Ledger os asked (items ++ item ∷ []) s' env' (omega (arith, room, t.seq))
          (omega (arith, few, length-append items (item ∷ [])))
          (put-Ledger asked items s env item (omega (arith, room))
            (omega (arith, few, Ledger-count asked items s env l)) l))
  run-Ledger (get ∷ os) asked items s env room few l =
      let (ev, s', env') = sim_store_get s env in
      let (evs, s'', env'') = run os (s', env') in
      let (t, held) = get-Fits s env l.kept l.held (omega (arith, room)) in
      rw (sym (append_assoc asked (ev ∷ []) evs)) (
        run-Ledger os (asked ++ ev ∷ []) items s' env' (omega (arith, room, t.seq))
          (omega (arith, few)) (get-Ledger asked items s env (omega (arith, room)) l))

  -- Whatever sequence of fewer than 2^31 puts and gets follows on the creation of a store, in a kept environment and
  -- as long as sequence numbers last: the k-th get carries the k-th item that was put, if there is
  -- one. The items beyond the gets lie in the store and its waiting puts in the order of the puts,
  -- and the gets beyond the items wait in the order of their calls; one of the two is empty.
  pub store_history-IsServed :
      (self : Ptr) (capacity : ℤ) (os : List Operation) (env : Env D)
      → IsKept env
      → env.next_seq + 2 * length os < 2 ^ 58
      → length os < 2 ^ 31
      → let (evs, s, env') = run os (sim_store_create self capacity, env) in
        IsServed evs (offered os) s env'
  unfolding sim_store_create
  store_history-IsServed self capacity os env k room few =
      (run-Ledger os [] [] (sim_store_create self capacity) env room (omega (arith, few)) (record {
        kept = k;
        held = record { gets = tt; puts = tt };
        done = record {
          sound = record {
            counted = refl;
            small = omega arith;
            gets_wait = inl refl;
            puts_wait = inl refl;
          };
          served = [];
          delivered = tt;
          gets = refl;
          puts = refl;
        };
        waiting = tt;
        distinct = tt;
      })).done
