-- ===== src/Process/Woken.antt =====
-- src/process.c: the event that wakes a process.
use simpyc.Prelude.{
  ◌<◌, ◌+◌, u32_mod, sym, ℕ, ◌≡◌, refl, ap, ◌∙◌, inl, inr, true, Option, none, some, arith,
  Bool-cases, Option-cases, Double, update-same, Ptr, null,
}
use simpyc.State.{resume_cb, Env, SimProcess, set_event, set_process, pending}
use simpyc.Event.{
  Call, alloc_from, event_alloc, event_schedule, sim_event_on, cb_store, cb_grow, is_triggered,
}
use simpyc.Process.{arm_resume, wake, schedule_resume}

module _ {D : Type 0} where
  alloc-processes : (env : Env D) (p : Option ℕ) → (alloc_from env p).1.processes ≡ env.processes
  unfolding alloc_from
  alloc-processes env none = refl
  alloc-processes env (some e) = refl

  event_alloc-processes : (env : Env D) → (event_alloc env).1.processes ≡ env.processes
  unfolding event_alloc
  event_alloc-processes env = alloc-processes env env.event_pool

  -- A new event has room for a subscription.
  alloc-room :
      (env : Env D) (o : Option ℕ)
      → let (e, env') = alloc_from env o in (env'.events e).cb_len + 1 < u32_mod
  unfolding alloc_from
  alloc-room env none = ground arith
  alloc-room env (some e) = ground arith

  event_alloc-room :
      (env : Env D) → let (e, env') = event_alloc env in (env'.events e).cb_len + 1 < u32_mod
  unfolding event_alloc
  event_alloc-room env = alloc-room env env.event_pool

  -- The switch into the process is among the callbacks of the event.
  abbrev pub Subscribed : Env D → ℕ → ℕ → Type 0
  Subscribed env r p =
      (i : ℕ) × (i < (env.events r).cb_len)
      × ((env.events r).cbs i ≡ record { fn = resume_cb; user = p })

  -- If the process has an event that is triggered, that switches into the process, and the array of
  -- its callbacks does not overflow with one more.
  pub record IsArmed (env : Env D) (p : ℕ) : Type 0 where
    pub fits : (r : ℕ) → (env.processes p).resume_ev ≡ some r → (env.events r).cb_len + 1 < u32_mod
    pub armed :
        (r : ℕ)
        → (env.processes p).resume_ev ≡ some r
        → is_triggered (env.events r).state ≡ true
        → Subscribed env r p

module _ {D : Type 0} ⦃F : Double D⦄ (call : Call D) where
  -- The process has an event of its own, which is triggered and switches into it, and is otherwise
  -- as before.
  pub record Woken (q : SimProcess) (env : Env D) (p r : ℕ) : Type 0 where
    pub process : env.processes p ≡ record q { resume_ev = some r }
    pub ready : is_triggered (env.events r).state ≡ true
    pub resumes : Subscribed env r p

  arm_resume-processes :
      (env : Env D) (p r : ℕ) → (arm_resume call env p r).processes ≡ env.processes
  unfolding arm_resume sim_event_on event_schedule
  arm_resume-processes env p r = ground arith

  arm_resume-ready :
      (env : Env D) (p r : ℕ) → is_triggered ((arm_resume call env p r).events r).state ≡ true
  unfolding arm_resume sim_event_on event_schedule cb_store cb_grow
  arm_resume-ready env p r = ground arith

  arm_resume-Subscribed :
      (env : Env D) (p r : ℕ)
      → (env.events r).cb_len + 1 < u32_mod
      → Subscribed (arm_resume call env p r) r p
  unfolding arm_resume sim_event_on event_schedule cb_store cb_grow
  arm_resume-Subscribed env p r room =
      ((env.events r).cb_len, ground (arith, room), ground (arith, room))

  wake-Woken :
      (env : Env D) (p : ℕ) (q : SimProcess)
      → IsArmed env p
      → env.processes p ≡ q
      → (r : ℕ) × Woken q (wake call env p) p r
  unfolding wake
  wake-Woken env p q a same = elim (Option-cases (env.processes p).resume_ev) [
    | inl e ↦
        let (r, env') = event_alloc env in
        let v = record (env'.processes p) { resume_ev = some r } in
        let env'' = set_process env' p v in
        rw (e, wake)
          (
            r,
            record {
              process =
                  ap (λ f. f p) (arm_resume-processes env'' p r)
                  ∙ update-same env'.processes p v
                  ∙ ap {B = SimProcess} (λ f. record (f p) { resume_ev = some r })
                      (event_alloc-processes env)
                  ∙ ap {A = SimProcess} {B = SimProcess} (λ t. record t { resume_ev = some r })
                      same;
              ready = arm_resume-ready env'' p r;
              resumes = arm_resume-Subscribed env'' p r (event_alloc-room env);
            },
          )
    | inr (r, e) ↦
        let kept : env.processes p ≡ record q { resume_ev = some r } =
          ap {A = Option ℕ} {B = SimProcess} (λ o. record (env.processes p) { resume_ev = o }) e
          ∙ ap {A = SimProcess} {B = SimProcess} (λ t. record t { resume_ev = some r }) same in
        let cleared = set_event env r (record (env.events r) {
          state = pending;
          ok = true;
          value = null;
          fail_reason = null;
        }) in
        rw (e, wake)
          (elim (Bool-cases (is_triggered (env.events r).state)) [
            | inl waits ↦
                rw waits (r, record { process = kept; ready = waits; resumes = a.armed r e waits })
            | inr idle ↦ rw idle (
              r,
              record {
                process = ap (λ f. f p) (arm_resume-processes cleared p r) ∙ kept;
                ready = arm_resume-ready cleared p r;
                resumes =
                    arm_resume-Subscribed cleared p r
                      (rw (update-same env.events r _) (a.fits r e));
              },
            )
          ])
  ]

  pub schedule_resume-Woken :
      (env : Env D) (p : ℕ) (q : SimProcess) (value : Ptr)
      → IsArmed env p
      → env.processes p ≡ q
      → (r : ℕ) × Woken (record q { resume_value = value }) (schedule_resume call env p value) p r
  unfolding schedule_resume
  schedule_resume-Woken env p q value a same =
      let v = record (env.processes p) { resume_value = value } in
      let now = λ (r : ℕ) (e : ((set_process env p v).processes p).resume_ev ≡ some r).
        ap (λ q. q.resume_ev) (sym (update-same env.processes p v)) ∙ e in
      wake-Woken (set_process env p v) p (record q { resume_value = value })
        (record { fits = λ r e. a.fits r (now r e); armed = λ r e t. a.armed r (now r e) t })
        (update-same env.processes p v
          ∙ ap {A = SimProcess} {B = SimProcess} (λ t. record t { resume_value = value }) same)

  -- A process whose event is triggered is not put into the queue again.
  pub wake-idle :
      (env : Env D) (p r : ℕ)
      → (env.processes p).resume_ev ≡ some r
      → is_triggered (env.events r).state ≡ true
      → wake call env p ≡ env
  unfolding wake
  wake-idle env p r e waits = rw (e, wake) (rw waits refl)
