-- ===== src/Dispatch/Serving.antt =====
-- src/event.c, as the resources, the container and the stores use it: a new event for a request, and
-- events triggered as requests are served. Each step keeps the invariant of the whole environment
-- and takes a sequence number at most.
use simpyc.Prelude.{
  ℕ, ◌+◌, ◌^◌, ◌≤◌, ◌<◌, refl, true, List, arith, Double, Ptr, inl, inr, Bool-cases, Option-cases,
  Option, none, some, null, ◌||◌,
}
use simpyc.State.{Env, set_event, set_process, pending}
use simpyc.Process.{arm_resume, wake, schedule_resume, sim_process_interrupt, is_dead}
use simpyc.Dispatch.Wake.{process_same-Kept}
use simpyc.Dispatch.Processes.{interrupt-Kept}
use simpyc.Event.{
  Call, is_triggered, sim_event_on, event_alloc, mark_recyclable, sim_event_succeed, event_schedule,
}
use simpyc.Event.Validity.{HasRoom, touch-IsValid}
use simpyc.Event.Alloc.{event_alloc-IsFresh}
use simpyc.Event.Delivery.{opened}
use simpyc.Dispatch.Held.{Allocated, Allocated-grow}
use simpyc.Dispatch.Kept.{IsKept, Kept, Kept-refl, Kept-trans}
use simpyc.Dispatch.Alloc.{event_alloc-IsNew}
use simpyc.Dispatch.Events.{new_written-Kept, succeed-Kept}

module _ {D : Type 0} ⦃F : Double D⦄ where
  -- The invariant is kept, with at most so many sequence numbers taken.
  pub record Spends (n : ℕ) (env env' : Env D) : Type 0 where
    pub kept : Kept env env'
    pub seq : env'.next_seq ≤ env.next_seq + n

  pub Spends-refl : (env : Env D) → IsKept env → Spends 0 env env
  Spends-refl env k = record { kept = Kept-refl env k; seq = omega arith }

  pub Spends-trans : (m n : ℕ) (a b c : Env D) → Spends m a b → Spends n b c → Spends (m + n) a c
  Spends-trans m n a b c s t = record {
    kept = Kept-trans a b c s.kept t.kept;
    seq = omega (arith, s.seq, t.seq);
  }

  pub Spends-more : {m : ℕ} (n : ℕ) {a b : Env D} → m ≤ n → Spends m a b → Spends n a b
  Spends-more n le s = record { kept = s.kept; seq = omega (arith, s.seq) }

  pub Allocated-later :
      {W : Type 0} (event : W → ℕ) {n : ℕ} {env env' : Env D} (q : List W)
      → Spends n env env'
      → Allocated event env.n_events q
      → Allocated event env'.n_events q
  Allocated-later event {env = env} {env' = env'} q s a =
      Allocated-grow event env.n_events env'.n_events q s.kept.grows a

  succeed-seq :
      (env : Env D) (e : ℕ) (value : Ptr)
      → (sim_event_succeed env e value).next_seq ≤ env.next_seq + 1
  unfolding sim_event_succeed event_schedule
  succeed-seq env e value = ground arith

  pub succeed-Spends :
      (env : Env D) (e : ℕ) (value : Ptr)
      → IsKept env
      → HasRoom env
      → e < env.n_events
      → Spends 1 env (sim_event_succeed env e value)
  succeed-Spends env e value k room lt = record {
    kept = succeed-Kept env e value k room lt;
    seq = succeed-seq env e value;
  }

  -- One more event is triggered behind what was done before.
  pub and_succeed :
      {n : ℕ} {env env' : Env D} (e : ℕ) (value : Ptr)
      → env.next_seq + n + 1 < 2 ^ 58
      → Spends n env env'
      → e < env.n_events
      → Spends (n + 1) env (sim_event_succeed env' e value)
  and_succeed {n} {env} {env'} e value room s lt =
      Spends-trans n 1 env env' (sim_event_succeed env' e value) s (
        succeed-Spends env' e value s.kept.kept (omega (arith, s.seq))
          (omega (arith, s.kept.grows)))

  alloc-Spends : (env : Env D) → IsKept env → Spends 0 env (event_alloc env).1
  alloc-Spends env k =
      let f = event_alloc-IsFresh env k.valid in
      record { kept = (event_alloc-IsNew env k).kept; seq = omega (arith, f.same_seq) }

  -- A request's event, before and behind its mark.
  pub record Opened (env : Env D) (e : ℕ) (env' : Env D) : Type 0 where
    pub spends : Spends 0 env env'
    pub allocated : e < env'.n_events

  pub alloc-Opened :
      (env : Env D) → IsKept env → let (e, env') = event_alloc env in Opened env e env'
  alloc-Opened env k = record {
    spends = alloc-Spends env k;
    allocated = (event_alloc-IsFresh env k.valid).allocated;
  }

  pub opened-Opened : (env : Env D) → IsKept env → Opened env (event_alloc env).0 (opened env)
  unfolding mark_recyclable
  opened-Opened env k =
      let (e, env') = event_alloc env in
      let f = event_alloc-IsFresh env k.valid in
      let v = record (env'.events e) { recyclable = true } in
      let a = event_alloc-IsNew env k in
      record {
        spends = record {
          kept =
              new_written-Kept env v env'.heap env'.next_seq k refl refl
                (touch-IsValid env' e v refl refl a.kept.kept.valid);
          seq = omega (arith, f.same_seq);
        };
        allocated = f.allocated;
      }

  module _ (call : Call D) where
    arm_resume-seq : (env : Env D) (p r : ℕ) → (arm_resume call env p r).next_seq ≤ env.next_seq + 1
    unfolding arm_resume sim_event_on event_schedule
    arm_resume-seq env p r = ground arith

    wake-seq : (env : Env D) (p : ℕ) → IsKept env → (wake call env p).next_seq ≤ env.next_seq + 1
    unfolding wake
    wake-seq env p k = elim (Option-cases (env.processes p).resume_ev) [
      | inl e ↦
          let (r, env') = event_alloc env in
          let f = event_alloc-IsFresh env k.valid in
          let v = record (env'.processes p) { resume_ev = some r } in
          rw (e, wake) (omega (arith, f.same_seq, arm_resume-seq (set_process env' p v) p r))
      | inr (r, e) ↦
          let cleared = set_event env r (record (env.events r) {
            state = pending;
            ok = true;
            value = null;
            fail_reason = null;
          }) in
          rw (e, wake)
            (elim (Bool-cases (is_triggered (env.events r).state)) [
              | inl waits ↦ rw waits (omega arith)
              | inr idle ↦ rw idle (arm_resume-seq cleared p r)
            ])
    ]

    interrupt-seq :
        (env : Env D) (p : Option ℕ) (cause : Ptr)
        → IsKept env
        → (sim_process_interrupt call env p cause).next_seq ≤ env.next_seq + 1
    unfolding sim_process_interrupt schedule_resume
    interrupt-seq env none cause k = omega arith
    interrupt-seq env (some p) cause k =
        let v = record (env.processes p) {
          interrupt_pending = true;
          interrupt_cause = cause;
          yielded = none;
        } in
        let w = record v { resume_value = cause } in
        let marked = set_process env p v in
        let a = process_same-Kept env p v k refl refl in
        elim (Bool-cases (is_dead (env.processes p).state || (env.processes p).interrupt_pending)) [
          | inl ignored ↦ rw ignored (omega arith)
          | inr taken ↦
              let u = record (marked.processes p) { resume_value = cause } in
              rw taken (
                wake-seq (set_process marked p u) p
                  (process_same-Kept marked p u a.kept refl refl).kept)
        ]

    -- An interrupt behind what was done before.
    pub and_interrupt :
        {n : ℕ} {env env' : Env D} (p : Option ℕ) (cause : Ptr)
        → env.next_seq + n + 1 < 2 ^ 58
        → Spends n env env'
        → Spends (n + 1) env (sim_process_interrupt call env' p cause)
    and_interrupt {n} {env} {env'} p cause room s =
        Spends-trans n 1 env env' (sim_process_interrupt call env' p cause) s (record {
          kept = interrupt-Kept call env' p cause s.kept.kept (omega (arith, s.seq));
          seq = interrupt-seq env' p cause s.kept.kept;
        })
