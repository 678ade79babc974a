-- ===== src/Dispatch/Processes.antt =====
-- src/process.c: each operation on processes keeps the invariant of the whole environment.
use simpyc.Prelude.{
  ℕ, ◌+◌, ◌<◌, ◌≡◌, refl, inl, inr, true, ◌||◌, Option, none, some, arith, if◌then◌else◌,
  Bool-cases, Option-cases, Double, Ptr, null,
}
use simpyc.State.{zero_process, Env, set_process, waiter_cb, dead}
use simpyc.Event.{
  Call, event_alloc, sim_event_succeed, is_processed, sim_event_value, sim_event_triggered,
}
use simpyc.Event.Validity.{HasRoom}
use simpyc.Event.Alloc.{event_alloc-IsFresh}
use simpyc.Process.{
  waiter, yield_to, process_exit, process_alloc, sim_process, sim_process_event,
  sim_process_interrupt, is_dead, is_event,
}
use simpyc.Dispatch.Kept.{IsKept, Kept, Kept-refl, Kept-trans}
use simpyc.Dispatch.Alloc.{event_alloc-IsNew}
use simpyc.Dispatch.Events.{succeed-Kept, on-Kept}
use simpyc.Dispatch.Wake.{process-Kept, process_same-Kept, schedule_resume-Kept}

module _ {D : Type 0} ⦃F : Double D⦄ (call : Call D) where
  pub waiter-Kept :
      (env : Env D) (ev p : ℕ) → IsKept env → HasRoom env → Kept env (waiter call ev p env)
  unfolding waiter
  waiter-Kept env ev p k room = elim (Bool-cases (is_dead (env.processes p).state)) [
    | inl gone ↦ rw gone (Kept-refl env k)
    | inr alive ↦ rw alive (elim (Bool-cases (is_event (env.processes p).yielded ev)) [
      | inl waits ↦ rw waits (schedule_resume-Kept call env p (sim_event_value env ev) k room)
      | inr moved ↦ rw moved (Kept-refl env k)
    ])
  ]

  pub yield_to-Kept :
      (env : Env D) (p evt : ℕ) → IsKept env → HasRoom env → Kept env (yield_to call env p evt)
  unfolding yield_to
  yield_to-Kept env p evt k room =
      let v = record (env.processes p) { yielded = some evt } in
      let env' = set_process env p v in
      let a = process_same-Kept env p v k refl refl in
      elim (Bool-cases (is_processed (env.events evt).state)) [
        | inl done ↦ rw done (
            Kept-trans env env' _ a
              (schedule_resume-Kept call env' p (sim_event_value env' evt) a.kept room))
        | inr more ↦ rw more (
            Kept-trans env env' _ a (
              on-Kept call env' evt (record { fn = waiter_cb; user = p }) a.kept
                (λ e. absurd (ground (arith, e))) (λ done. absurd (ground arith))))
      ]

  finish_done-Kept :
      (env : Env D) (o : Option ℕ)
      → IsKept env
      → HasRoom env
      → ((d : ℕ) → o ≡ some d → d < env.n_events)
      → Kept env (elim o [
        | none ↦ env
        | some d ↦ if sim_event_triggered env d then env else sim_event_succeed env d null
      ])
  finish_done-Kept env none k room h = Kept-refl env k
  finish_done-Kept env (some d) k room h = elim (Bool-cases (sim_event_triggered env d)) [
    | inl spent ↦ rw spent (Kept-refl env k)
    | inr waits ↦ rw waits (succeed-Kept env d null k room (h d refl))
  ]

  pub process_exit-Kept :
      (env : Env D) (p : ℕ) → IsKept env → HasRoom env → Kept env (process_exit call env p)
  unfolding process_exit
  process_exit-Kept env p k room =
      let a = finish_done-Kept env (env.processes p).done k room (k.dones p) in
      let fired : Env D = elim (env.processes p).done [
        | none ↦ env
        | some d ↦ if sim_event_triggered env d then env else sim_event_succeed env d null
      ] in
      let v = record (fired.processes p) { state = dead; free_next = fired.process_pool } in
      Kept-trans env fired _ a (
        process-Kept fired p v fired.active (some p) fired.all_processes fired.n_processes a.kept
          (a.kept.resumes p) (a.kept.dones p))

  pub interrupt-Kept :
      (env : Env D) (p : Option ℕ) (cause : Ptr)
      → IsKept env
      → HasRoom env
      → Kept env (sim_process_interrupt call env p cause)
  unfolding sim_process_interrupt
  interrupt-Kept env none cause k room = Kept-refl env k
  interrupt-Kept env (some p) cause k room =
      let v = record (env.processes p) {
        interrupt_pending = true;
        interrupt_cause = cause;
        yielded = none;
      } in
      elim (Bool-cases (is_dead (env.processes p).state || (env.processes p).interrupt_pending)) [
        | inl ignored ↦ rw ignored (Kept-refl env k)
        | inr taken ↦
            let a = process_same-Kept env p v k refl refl in
            rw taken (
              Kept-trans env (set_process env p v) _ a
                (schedule_resume-Kept call (set_process env p v) p cause a.kept room))
      ]

  pub process_alloc-Kept :
      (env : Env D) (fn : ℕ) (arg : Ptr)
      → IsKept env
      → let env' = (process_alloc call env fn arg).1 in
        Kept env env' × (env'.next_seq ≡ env.next_seq)
  unfolding process_alloc
  process_alloc-Kept env fn arg k = elim (Option-cases env.process_pool) [
    | inl e ↦
        let p = env.n_processes in
        let v = record zero_process { all_next = env.all_processes; fn = fn; arg = arg } in
        simp (e, process_alloc)
          (
            process-Kept env p v env.active none (some p) (p + 1) k (λ r h. absurd (cc))
                (λ d h. absurd (cc)),
            refl,
          )
    | inr (p, e) ↦
        let old = env.processes p in
        let v = record zero_process {
          resume_ev = old.resume_ev;
          all_next = old.all_next;
          fn = fn;
          arg = arg;
        } in
        simp (e, process_alloc)
          (
            process-Kept env p v env.active old.free_next env.all_processes env.n_processes k
                (k.resumes p) (λ d h. absurd (cc)),
            refl,
          )
  ]

  pub sim_process-Kept :
      (env : Env D) (fn : ℕ) (arg : Ptr)
      → IsKept env
      → HasRoom env
      → Kept env (sim_process call env fn arg).1
  unfolding sim_process
  sim_process-Kept env fn arg k room =
      let (p, env') = process_alloc call env fn arg in
      let (a, same) = process_alloc-Kept env fn arg k in
      Kept-trans env env' _ a (schedule_resume-Kept call env' p null a.kept (rw same room))

  pub process_event-Kept :
      (env : Env D) (p : ℕ) → IsKept env → HasRoom env → Kept env (sim_process_event call env p).1
  unfolding sim_process_event
  process_event-Kept env p k room = elim (Option-cases (env.processes p).done) [
    | inr (d, e) ↦ rw (e, sim_process_event) (Kept-refl env k)
    | inl e ↦
        let (d, env') = event_alloc env in
        let f = event_alloc-IsFresh env k.valid in
        let a = event_alloc-IsNew env k in
        let v = record (env'.processes p) { done = some d } in
        let env'' = set_process env' p v in
        let b =
          process-Kept env' p v env'.active env'.process_pool env'.all_processes env'.n_processes
            a.kept.kept (a.kept.kept.resumes p)
            (λ x h. let same : d ≡ x = ground arith in rw (← same) a.reserved.allocated) in
        let ab = Kept-trans env env' env'' a.kept b in
        rw (e, sim_process_event)
          (elim (Bool-cases (is_dead (env''.processes p).state)) [
            | inr alive ↦ rw alive ab
            | inl gone ↦ rw gone (
                Kept-trans env env'' _ ab
                  (succeed-Kept env'' d null b.kept (rw f.same_seq room) a.reserved.allocated))
          ])
  ]
