-- ===== src/Process.antt =====
-- src/process.c: processes, the events that wake them, and interrupts. A switch to a process runs
-- code of the user until its next sim_yield or its return; that code is the parameter `code`, and
-- what it needs to go on is the `Context` that the process keeps.
pub mod Interrupt
pub mod Woken
use simpyc.Prelude.{
  ℕ, ◌+◌, Bool, true, false, ◌||◌, Option, none, some, ◌==◌, if◌then◌else◌, Double, Ptr, null,
}
use simpyc.State.{
  Env, SimProcess, ProcessState, fresh, running, dead, pending, triggered, resume_cb, waiter_cb,
  Context, entry, after_yield, zero_process, set_event, set_process,
}
use simpyc.Event.{
  Call, is_triggered, event_alloc, event_schedule, prio_normal, sim_event_on, sim_event_succeed,
  sim_event_triggered, sim_event_processed, sim_event_value,
}

-- How a stretch of a process's code ends: it yields an event, to go on at the point with the given
-- number, or it returns.
pub data Outcome : Type 0 where
  yields : ℕ → ℕ → Outcome
  returns : Outcome

-- The user's code: the process, where it goes on, and what sim_yield returned to it.
abbrev pub Code : Type 0 → Type 0
Code D = ℕ → Context → Ptr → Env D → Outcome × Env D

abbrev pub is_dead : ProcessState → Bool
is_dead fresh = false
is_dead running = false
is_dead dead = true

abbrev pub is_event : Option ℕ → ℕ → Bool
is_event none e = false
is_event (some x) e = x == e

module _ {D : Type 0} ⦃F : Double D⦄ (call : Call D) where
  -- The event `r` is made pending and then triggered, and is put into the queue with resume_cb.
  unfoldable pub arm_resume : Env D → ℕ → ℕ → Env D
  arm_resume env p r =
      let env' = set_event env r (record (env.events r) { state = triggered }) in
      event_schedule (sim_event_on call env' r (record { fn = resume_cb; user = p })) r F.zero
        prio_normal

  -- The event that the process keeps for its resumption, allocated at its first use.
  unfoldable pub wake : Env D → ℕ → Env D
  unfolding arm_resume
  wake env p = elim (env.processes p).resume_ev [
    | none ↦
        let (r, env') = event_alloc env in
        arm_resume (set_process env' p (record (env'.processes p) { resume_ev = some r })) p r
    | some r ↦
        if is_triggered (env.events r).state
        then env
        else arm_resume
            (set_event env r (record (env.events r) {
              state = pending;
              ok = true;
              value = null;
              fail_reason = null;
            }))
            p r
  ]

  unfoldable pub schedule_resume : Env D → ℕ → Ptr → Env D
  unfolding wake
  schedule_resume env p value =
      wake (set_process env p (record (env.processes p) { resume_value = value })) p

  unfoldable pub waiter : ℕ → ℕ → Env D → Env D
  unfolding schedule_resume
  waiter ev p env =
      if is_dead (env.processes p).state
      then env
      else if is_event (env.processes p).yielded ev
      then schedule_resume env p (sim_event_value env ev)
      else env

  -- The part of sim_yield before the switch.
  unfoldable pub yield_to : Env D → ℕ → ℕ → Env D
  unfolding schedule_resume
  yield_to env p evt =
      let env' = set_process env p (record (env.processes p) { yielded = some evt }) in
      if sim_event_processed env' evt
      then schedule_resume env' p (sim_event_value env' evt)
      else sim_event_on call env' evt (record { fn = waiter_cb; user = p })

  -- The part of sim_yield behind the switch: what it returns, and the process as it is then.
  unfoldable pub yield_back : SimProcess → Ptr × SimProcess
  yield_back p =
      if p.interrupt_pending
      then (
        p.interrupt_cause,
        record p {
          yielded = none;
          interrupt_pending = false;
          was_interrupted = true;
          interrupt_cause = null;
        },
      )
      else (p.resume_value, record p { yielded = none; was_interrupted = false })

  -- The end of process_entry, behind the return of the user's function.
  unfoldable pub process_exit : Env D → ℕ → Env D
  process_exit env p =
      let fired : Env D = elim (env.processes p).done [
        | none ↦ env
        | some d ↦ if sim_event_triggered env d then env else sim_event_succeed env d null
      ] in
      record (set_process fired p
        (record (fired.processes p) { state = dead; free_next = fired.process_pool })) {
          process_pool = some p;
        }

  -- What the user's code leaves when it switches back to the host.
  unfoldable pub suspend : ℕ → Outcome × Env D → Env D
  unfolding process_exit yield_to
  suspend p (yields evt k, env) =
      yield_to (set_process env p (record (env.processes p) { ctx = after_yield k })) p evt
  suspend p (returns, env) = process_exit env p

  -- The switch into the process, up to the switch back.
  unfoldable pub switch_to : Code D → ℕ → Context → Env D → Env D
  unfolding suspend yield_back
  switch_to code p entry env =
      let env' = set_process env p (record (env.processes p) { state = running }) in
      suspend p (code p entry null env')
  switch_to code p (after_yield k) env =
      let (value, q) = yield_back (env.processes p) in
      suspend p (code p (after_yield k) value (set_process env p q))

  unfoldable pub resume : Code D → ℕ → Env D → Env D
  unfolding switch_to
  resume code p env =
      if is_dead (env.processes p).state
      then env
      else (let env' = switch_to code p (env.processes p).ctx (record env { active = some p }) in
          record env' { active = none })

  -- The object that sim_process reuses or allocates, with `fn` and `arg` set.
  unfoldable pub process_alloc : Env D → ℕ → Ptr → ℕ × Env D
  process_alloc env fn arg = elim env.process_pool [
    | some p ↦
        let old = env.processes p in
        (
          p,
          set_process (record env { process_pool = old.free_next }) p
              (record zero_process {
                resume_ev = old.resume_ev;
                all_next = old.all_next;
                fn = fn;
                arg = arg;
              }),
        )
    | none ↦
        let p = env.n_processes in
        (
          p,
          set_process (record env { n_processes = p + 1; all_processes = some p }) p
              (record zero_process { all_next = env.all_processes; fn = fn; arg = arg }),
        )
  ]

  unfoldable pub sim_process : Env D → ℕ → Ptr → ℕ × Env D
  unfolding process_alloc schedule_resume
  sim_process env fn arg =
      let (p, env') = process_alloc env fn arg in (p, schedule_resume env' p null)

  unfoldable pub sim_process_event : Env D → ℕ → ℕ × Env D
  sim_process_event env p = elim (env.processes p).done [
    | some d ↦ (d, env)
    | none ↦
        let (d, env') = event_alloc env in
        let env'' = set_process env' p (record (env'.processes p) { done = some d }) in
        (d, if is_dead (env''.processes p).state then sim_event_succeed env'' d null else env'')
  ]

  unfoldable pub sim_process_interrupt : Env D → Option ℕ → Ptr → Env D
  unfolding schedule_resume
  sim_process_interrupt env none cause = env
  sim_process_interrupt env (some p) cause =
      if is_dead (env.processes p).state || (env.processes p).interrupt_pending
      then env
      else schedule_resume
          (set_process env p (record (env.processes p) {
            interrupt_pending = true;
            interrupt_cause = cause;
            yielded = none;
          }))
          p cause

module _ {D : Type 0} where
  unfoldable pub sim_process_was_interrupted : Env D → Option ℕ → Bool
  sim_process_was_interrupted env none = false
  sim_process_was_interrupted env (some p) = (env.processes p).was_interrupted

  unfoldable pub sim_process_interrupt_cause : Env D → Option ℕ → Ptr
  sim_process_interrupt_cause env none = null
  sim_process_interrupt_cause env (some p) = (env.processes p).interrupt_cause
