-- ===== src/Process/Interrupt.antt =====
-- src/process.c: a process is resumed once, however often it is woken, and an interrupt is delivered
-- once.
use simpyc.Prelude.{
  sym, ℕ, ◌≡◌, refl, ap, ◌∙◌, inl, inr, true, false, ◌||◌, none, some, arith, Bool-cases, Double,
  update-same, Ptr, null,
}
use simpyc.State.{Env, SimProcess, set_process}
use simpyc.Event.{Call}
use simpyc.Event.Validity.{HasRoom, queued, IsValid}
use simpyc.Process.{schedule_resume, sim_process_interrupt, waiter, yield_back, is_dead, is_event}
use simpyc.Dispatch.Kept.{IsKept}
use simpyc.Dispatch.Processes.{interrupt-Kept}
use simpyc.Dispatch.Wake.{schedule_resume-Kept}
use simpyc.Process.Woken.{Subscribed, IsArmed, schedule_resume-Woken, wake-idle}

module _ {D : Type 0} ⦃F : Double D⦄ (call : Call D) where
  -- schedule_resume leaves the process's own event in the queue exactly once, with the switch into
  -- the process among its callbacks and the value that it will be resumed with. Until it is resumed,
  -- a second call changes nothing but that value. This holds in a kept environment, as long as
  -- sequence numbers last, if the event, where there is one that is triggered, had that callback
  -- already and the array of its callbacks does not overflow.
  pub schedule_resume-coalesces :
      (env : Env D) (p : ℕ) (value other : Ptr)
      → IsKept env
      → HasRoom env
      → IsArmed env p
      → let env' = schedule_resume call env p value in
        (r : ℕ) × ((env'.processes p).resume_ev ≡ some r)
        × (queued env' r ≡ 1)
        × Subscribed env' r p
        × ((env'.processes p).resume_value ≡ value)
        × (schedule_resume call env' p other
            ≡ set_process env' p (record (env'.processes p) { resume_value = other }))
  schedule_resume-coalesces env p value other k room a =
      let env' = schedule_resume call env p value in
      let (r, w) = schedule_resume-Woken call env p (env.processes p) value a refl in
      let i = (schedule_resume-Kept call env p value k room).kept.valid in
      let e : (env'.processes p).resume_ev ≡ some r = ap (λ q. q.resume_ev) w.process in
      let v = record (env'.processes p) { resume_value = other } in
      (
        r,
        e,
        ground (arith, i.exact r, w.ready),
        w.resumes,
        ap (λ q. q.resume_value) w.process,
        unfold schedule_resume in
            wake-idle call (set_process env' p v) p r
              (ap (λ q. q.resume_ev) (update-same env'.processes p v) ∙ e) w.ready,
      )

  -- The process as an interrupt marks it.
  abbrev marked : Env D → ℕ → Ptr → SimProcess
  marked env p cause = record (env.processes p) {
    interrupt_pending = true;
    interrupt_cause = cause;
    yielded = none;
  }

  marked-IsArmed :
      (env : Env D) (p : ℕ) (cause : Ptr)
      → IsArmed env p
      → IsArmed (set_process env p (marked env p cause)) p
  marked-IsArmed env p cause a =
      let now =
        λ (r : ℕ) (e : ((set_process env p (marked env p cause)).processes p).resume_ev ≡ some r).
          ap (λ q. q.resume_ev) (sym (update-same env.processes p (marked env p cause))) ∙ e in
      record { fits = λ r e. a.fits r (now r e); armed = λ r e t. a.armed r (now r e) t }

  interrupt-taken :
      (env : Env D) (p : ℕ) (cause : Ptr)
      → is_dead (env.processes p).state ≡ false
      → (env.processes p).interrupt_pending ≡ false
      → sim_process_interrupt call env (some p) cause
        ≡ schedule_resume call (set_process env p (marked env p cause)) p cause
  unfolding sim_process_interrupt
  interrupt-taken env p cause alive idle =
      let taken : (is_dead (env.processes p).state || (env.processes p).interrupt_pending) ≡ false =
        ground (arith, alive, idle) in
      rw taken refl

  interrupt-ignored :
      (env : Env D) (p : ℕ) (cause : Ptr)
      → (env.processes p).interrupt_pending ≡ true
      → sim_process_interrupt call env (some p) cause ≡ env
  unfolding sim_process_interrupt
  interrupt-ignored env p cause waits =
      let ignored : (is_dead (env.processes p).state || (env.processes p).interrupt_pending)
          ≡ true =
        ground (arith, waits) in
      rw ignored refl

  waiter-moved :
      (env : Env D) (ev p : ℕ) → (env.processes p).yielded ≡ none → waiter call ev p env ≡ env
  unfolding waiter
  waiter-moved env ev p e =
      let moved : is_event (env.processes p).yielded ev ≡ false = rw e refl in
      elim (Bool-cases (is_dead (env.processes p).state)) [
        | inl gone ↦ rw gone refl
        | inr alive ↦ rw (alive, moved) refl
      ]

  -- In a kept environment, as long as sequence numbers last, an interrupt of a process that lives
  -- and has no other interrupt to come, and whose own event, where there is one that is triggered,
  -- has the switch into it among its callbacks, with an array that does not overflow: the process's
  -- event stands in the queue exactly once, with the switch into the process among its callbacks; a
  -- second interrupt changes nothing, and nor does the event that the process waited for when it
  -- fires; the sim_yield that the process comes back from returns the cause, marks the process as
  -- interrupted and takes the interrupt back. The cause is NULL by then, so
  -- sim_process_interrupt_cause does not tell it to the process.
  pub sim_process_interrupt-once :
      (env : Env D) (p : ℕ) (cause : Ptr)
      → IsKept env
      → HasRoom env
      → IsArmed env p
      → is_dead (env.processes p).state ≡ false
      → (env.processes p).interrupt_pending ≡ false
      → let env' = sim_process_interrupt call env (some p) cause in
        let (value, q) = yield_back call (env'.processes p) in
        ((r : ℕ) × ((env'.processes p).resume_ev ≡ some r)
          × (queued env' r ≡ 1)
          × Subscribed env' r p)
        × ((c : Ptr) → sim_process_interrupt call env' (some p) c ≡ env')
        × ((ev : ℕ) → waiter call ev p env' ≡ env')
        × (value ≡ cause)
        × (q.was_interrupted ≡ true)
        × (q.interrupt_pending ≡ false)
        × (q.interrupt_cause ≡ null)
  unfolding yield_back
  sim_process_interrupt-once env p cause k room a alive idle =
      let v = marked env p cause in
      let env' = schedule_resume call (set_process env p v) p cause in
      let (r, w) =
        schedule_resume-Woken call (set_process env p v) p v cause (marked-IsArmed env p cause a)
          (update-same env.processes p v) in
      let i = (interrupt-Kept call env (some p) cause k room).kept.valid in
      let i' : IsValid env' = rw (interrupt-taken env p cause alive idle) at i in
      let waits : (env'.processes p).interrupt_pending ≡ true =
        ap (λ q. q.interrupt_pending) w.process in
      rw (interrupt-taken env p cause alive idle) (
        (r, ap (λ q. q.resume_ev) w.process, ground (arith, i'.exact r, w.ready), w.resumes),
        λ c. interrupt-ignored env' p c waits,
        λ ev. waiter-moved env' ev p (ap (λ q. q.yielded) w.process),
        rw w.process refl,
        rw w.process refl,
        rw w.process refl,
        rw w.process refl,
      )
