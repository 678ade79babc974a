-- ===== src/Dispatch/Events.antt =====
-- src/event.c: each operation on events keeps the invariant of the whole environment.
use simpyc.Event.Alloc.{sim_timeout_v-IsValid}
use simpyc.Heap.{EventHeap}
use simpyc.Prelude.{
  ℕ, ◌<◌, ◌≡◌, refl, sym, ◌∙◌, inl, inr, true, false, arith, ◌==◌, Bool-cases, Double, update, Ptr,
}
use simpyc.State.{triggered, Env, SimEvent, cond_cb, CbPair}
use simpyc.Event.{
  Call, event_alloc, event_schedule, sim_event_succeed, sim_event_fail, sim_timeout_v, sim_event_on,
  cb_store, cb_grow, is_pending, is_processed, prio_normal,
}
use simpyc.Event.Validity.{IsValid, HasRoom, IsTime, touch-IsValid}
use simpyc.Event.Trigger.{trigger-IsValid}
use simpyc.Dispatch.Kept.{
  IsReserved, IsKept, Kept, Kept-refl, IsFair, written, written-IsSettled, written-IsReserved,
  written-IsOutside,
}
use simpyc.Dispatch.Alloc.{event_alloc-IsNew}

pub cb_store_lem :
    (v : SimEvent) (cb : CbPair)
    → let v' = cb_store v cb in
      (v'.free_next ≡ v.free_next)
      × (v'.recyclable ≡ v.recyclable)
      × (v'.state ≡ v.state)
      × (v'.cbs ≡ update v.cbs v.cb_len cb)
unfolding cb_store cb_grow
cb_store_lem v cb = elim (Bool-cases (v.cb_len == v.cb_cap)) [
  | inl full ↦ rw full (refl, refl, refl, refl)
  | inr room ↦ rw room (refl, refl, refl, refl)
]

module _ {D : Type 0} ⦃F : Double D⦄ where
  pub written-Kept :
      (env : Env D) (e : ℕ) (v : SimEvent) (h : EventHeap D) (n : ℕ)
      → IsKept env
      → IsFair env e v
      → IsValid (written env e v h n)
      → Kept env (written env e v h n)
  written-Kept env e v h n k f valid = record {
    kept = record {
      valid = valid;
      resumes = λ p r q. written-IsReserved env e v h n r k.valid f (k.resumes p r q);
      dones = k.dones;
      outs = k.outs;
      typed = λ x i q. ground (arith, k.typed x i, f.typed i, q);
      held = k.held;
    };
    settled = λ x s. written-IsSettled env e v h n x k.valid f s;
    reserved = λ r s. written-IsReserved env e v h n r k.valid f s;
    grows = omega arith;
    conds_grow = omega arith;
    now = refl;
  }

  -- A write that keeps the link, the mark and the subscriptions, and that leaves a processed event
  -- processed.
  pub same-IsFair :
      (env : Env D) (e : ℕ) (v : SimEvent)
      → IsKept env
      → v.free_next ≡ (env.events e).free_next
      → v.recyclable ≡ (env.events e).recyclable
      → v.cbs ≡ (env.events e).cbs
      → (is_processed (env.events e).state ≡ true → is_processed v.state ≡ true)
      → IsFair env e v
  same-IsFair env e v k link mark cbs still = record {
    link = link;
    settles = λ s back. still (s.done (sym mark ∙ back));
    reserves = λ s. mark ∙ s.kept;
    typed = λ i q. rw cbs (k.typed e i (rw cbs at q));
  }

  pub succeed-Kept :
      (env : Env D) (e : ℕ) (value : Ptr)
      → IsKept env
      → HasRoom env
      → e < env.n_events
      → Kept env (sim_event_succeed env e value)
  unfolding sim_event_succeed event_schedule
  succeed-Kept env e value k r he = elim (Bool-cases (is_pending (env.events e).state)) [
    | inr spent ↦ rw spent (Kept-refl env k)
    | inl waits ↦
        let v = record (env.events e) { value = value; ok = true; state = triggered } in
        rw waits (
          written-Kept env e v _ _ k
            (same-IsFair env e v k refl refl refl (λ done. absurd (ground arith)))
            (trigger-IsValid env e v F.zero prio_normal k.valid r he waits refl refl
              (F.zero_number, F.lt_irrefl F.zero)))
  ]

  pub fail-Kept :
      (env : Env D) (e : ℕ) (reason : Ptr)
      → IsKept env
      → HasRoom env
      → e < env.n_events
      → Kept env (sim_event_fail env e reason)
  unfolding sim_event_fail event_schedule
  fail-Kept env e reason k r he = elim (Bool-cases (is_pending (env.events e).state)) [
    | inr spent ↦ rw spent (Kept-refl env k)
    | inl waits ↦
        let v = record (env.events e) { fail_reason = reason; ok = false; state = triggered } in
        rw waits (
          written-Kept env e v _ _ k
            (same-IsFair env e v k refl refl refl (λ done. absurd (ground arith)))
            (trigger-IsValid env e v F.zero prio_normal k.valid r he waits refl refl
              (F.zero_number, F.lt_irrefl F.zero)))
  ]

  -- A subscription. The callback of a processed event is called at once, and has to keep the
  -- invariant itself.
  pub on-Kept :
      (call : Call D) (env : Env D) (e : ℕ) (cb : CbPair)
      → IsKept env
      → (cb.fn ≡ cond_cb → cb.user < env.n_conds)
      → (is_processed (env.events e).state ≡ true → Kept env (call cb e env))
      → Kept env (sim_event_on call env e cb)
  unfolding sim_event_on
  on-Kept call env e cb k fine late = elim (Bool-cases (is_processed (env.events e).state)) [
    | inl done ↦ rw done (late done)
    | inr more ↦
        let v = cb_store (env.events e) cb in
        let (link, mark, state, cbs) = cb_store_lem (env.events e) cb in
        rw more (
          written-Kept env e v env.heap env.next_seq k
            (record {
              link = link;
              settles = λ s back. absurd (let done = s.done (sym mark ∙ back) in ground arith);
              reserves = λ s. mark ∙ s.kept;
              typed = λ i. rw cbs (λ q. ground (arith, q, k.typed e i, fine));
            })
            (touch-IsValid env e v state link k.valid))
  ]

  -- A write to an event that has just been allocated may mark it to go back to the pool, which no
  -- event in use is.
  pub new_written-Kept :
      (env : Env D) (v : SimEvent) (h : EventHeap D) (n : ℕ)
      → IsKept env
      → let (e, env') = event_alloc env in
        v.free_next ≡ (env'.events e).free_next
        → v.cbs ≡ (env'.events e).cbs
        → IsValid (written env' e v h n)
        → Kept env (written env' e v h n)
  new_written-Kept env v h n k link cbs valid =
      let (e, env') = event_alloc env in
      let a = event_alloc-IsNew env k in
      let k' = a.kept.kept in
      let after = written env' e v h n in
      let reserved : (q : ℕ) → IsReserved env q → IsReserved after q = λ q s.
        let s' = a.kept.reserved q s in
        let ne = a.unreserved q s in
        record {
          allocated = s'.allocated;
          kept = ground (arith, ne, s'.kept);
          outside = written-IsOutside env' e v h n q k'.valid link s'.outside;
        } in
      record {
        kept = record {
          valid = valid;
          resumes = λ p q t. reserved q (k.resumes p q (rw a.processes at t));
          dones = k'.dones;
          outs = k'.outs;
          typed = λ x i. rw cbs (λ q. ground (arith, k'.typed x i, k'.typed e i, q));
          held = k'.held;
        };
        settled = λ x s.
            let s' = a.kept.settled x s in
            let ne = a.unsettled x s in
            record {
              done = λ back. ground (arith, ne, s'.done);
              allocated = s'.allocated;
              outside = written-IsOutside env' e v h n x k'.valid link s'.outside;
            };
        reserved = reserved;
        grows = a.kept.grows;
        conds_grow = a.kept.conds_grow;
        now = a.kept.now;
      }

  pub timeout-Kept :
      (env : Env D) (delay : D) (value : Ptr)
      → IsKept env
      → HasRoom env
      → IsTime delay
      → Kept env (sim_timeout_v env delay value).1
  unfolding sim_timeout_v event_schedule
  timeout-Kept env delay value k r d =
      let (e, env') = event_alloc env in
      let after = (sim_timeout_v env delay value).1 in
      new_written-Kept env
        (record (env'.events e) { value = value; state = triggered; recyclable = true }) after.heap
        after.next_seq k refl refl (sim_timeout_v-IsValid env delay value k.valid r d)
