-- ===== src/Dispatch/Wake.antt =====
-- src/process.c: schedule_resume keeps the invariant of the whole environment.
use simpyc.Event.Alloc.{event_alloc-IsFresh}
use mathlib.Core.Path.{fun_ext}
use simpyc.Prelude.{
  ℕ, ◌<◌, ◌≡◌, refl, sym, ◌∙◌, inl, inr, true, false, Option, some, arith, ◌==◌, Bool-cases,
  Option-cases, Double, update, Ptr, null,
}
use simpyc.State.{Env, SimEvent, SimProcess, resume_cb, set_event, set_process, pending, triggered}
use simpyc.Event.{
  Call, event_alloc, event_schedule, sim_event_on, cb_store, is_triggered, prio_normal,
}
use simpyc.Event.Validity.{HasRoom, SameQueue-IsValid}
use simpyc.Event.Trigger.{trigger_outside-IsValid}
use simpyc.Process.{arm_resume, wake, schedule_resume}
use simpyc.Dispatch.Kept.{IsReserved, IsKept, Kept, Kept-refl, Kept-trans}
use simpyc.Dispatch.Alloc.{event_alloc-IsNew}
use simpyc.Dispatch.Events.{written-Kept, cb_store_lem}

update_self : {A : Type 0} (f : ℕ → A) (i : ℕ) (v : A) → update f i v i ≡ v
update_self f i v = ground arith

update_twice : {A : Type 0} (f : ℕ → A) (i : ℕ) (v w : A) → update (update f i v) i w ≡ update f i w
update_twice f i v w = fun_ext (λ x. ground arith)

module _ {D : Type 0} ⦃F : Double D⦄ where
  -- A write to a process that gives it no event but those it may have. The pool and the list of the
  -- processes, their number and the active process may change with it.
  pub process-Kept :
      (env : Env D) (p : ℕ) (v : SimProcess) (active pool all : Option ℕ) (n : ℕ)
      → IsKept env
      → ((r : ℕ) → v.resume_ev ≡ some r → IsReserved env r)
      → ((d : ℕ) → v.done ≡ some d → d < env.n_events)
      → Kept env (record env {
        processes = update env.processes p v;
        active = active;
        process_pool = pool;
        all_processes = all;
        n_processes = n;
      })
  process-Kept env p v active pool all n k resume done =
      let env' : Env D = record env {
        processes = update env.processes p v;
        active = active;
        process_pool = pool;
        all_processes = all;
        n_processes = n;
      } in
      let reserved : (r : ℕ) → IsReserved env r → IsReserved env' r =
        λ r s. record { allocated = s.allocated; kept = s.kept; outside = s.outside } in
      record {
        kept = record {
          valid =
              SameQueue-IsValid env env'
                (record {
                  now = refl;
                  next_seq = refl;
                  heap = refl;
                  events = refl;
                  n_events = refl;
                  event_pool = refl;
                })
                k.valid;
          resumes = λ q r h. elim (Bool-cases (q == p)) [
            | inl same ↦ reserved r (resume r (ground (arith, same, h)))
            | inr other ↦ reserved r (k.resumes q r (ground (arith, other, h)))
          ];
          dones = λ q d h. ground (arith, k.dones q d, done d, h);
          outs = k.outs;
          typed = k.typed;
          held = k.held;
        };
        settled = λ x s. record { done = s.done; allocated = s.allocated; outside = s.outside };
        reserved = reserved;
        grows = omega arith;
        conds_grow = omega arith;
        now = refl;
      }

  -- A write that gives the process nothing new.
  pub process_same-Kept :
      (env : Env D) (p : ℕ) (v : SimProcess)
      → IsKept env
      → v.resume_ev ≡ (env.processes p).resume_ev
      → v.done ≡ (env.processes p).done
      → Kept env (set_process env p v)
  process_same-Kept env p v k resume done =
      process-Kept env p v env.active env.process_pool env.all_processes env.n_processes k
        (λ r h. k.resumes p r (sym resume ∙ h)) (λ d h. k.dones p d (sym done ∙ h))

  module _ (call : Call D) where
    -- The event of the resumption when it has been armed.
    abbrev armed : SimEvent → ℕ → SimEvent
    armed u p = cb_store (record u { state = triggered }) (record { fn = resume_cb; user = p })

    arm_resume_lem :
        (env : Env D) (p r : ℕ)
        → arm_resume call env p r
          ≡ event_schedule (set_event env r (armed (env.events r) p)) r F.zero prio_normal
    unfolding arm_resume sim_event_on
    arm_resume_lem env p r =
        let v = record (env.events r) { state = triggered } in
        rw (update_self env.events r v, update_twice env.events r v) refl

    armed-Kept :
        (env : Env D) (p r : ℕ) (u : SimEvent)
        → IsKept env
        → HasRoom env
        → IsReserved env r
        → is_triggered (env.events r).state ≡ false
        → u.free_next ≡ (env.events r).free_next
        → u.recyclable ≡ (env.events r).recyclable
        → u.cbs ≡ (env.events r).cbs
        → Kept env (event_schedule (set_event env r (armed u p)) r F.zero prio_normal)
    unfolding event_schedule
    armed-Kept env p r u k room s idle l m c =
        let v = armed u p in
        let (link, mark, state, cbs) =
          cb_store_lem (record u { state = triggered }) (record { fn = resume_cb; user = p }) in
        let now_is : is_triggered v.state ≡ true = rw state refl in
        written-Kept env r v _ _ k
          (record {
            link = link ∙ l;
            settles = λ t back. absurd (let never = sym back ∙ mark ∙ m ∙ s.kept in (cc));
            reserves = λ t. mark ∙ m ∙ t.kept;
            typed = λ i. rw (cbs, c) (λ q. ground (arith, q, k.typed r i));
          })
          (trigger_outside-IsValid env r v F.zero prio_normal k.valid room s.allocated idle
            (s.outside k.valid.pool k.valid.chain) now_is (link ∙ l)
            (F.zero_number, F.lt_irrefl F.zero))

    arm_resume-Kept :
        (env : Env D) (p r : ℕ)
        → IsKept env
        → HasRoom env
        → IsReserved env r
        → is_triggered (env.events r).state ≡ false
        → Kept env (arm_resume call env p r)
    arm_resume-Kept env p r k room s idle =
        rw arm_resume_lem (armed-Kept env p r (env.events r) k room s idle refl refl refl)

    -- The event that is used again.
    abbrev cleared : SimEvent → SimEvent
    cleared v = record v { state = pending; ok = true; value = null; fail_reason = null }

    rearm-Kept :
        (env : Env D) (p r : ℕ)
        → IsKept env
        → HasRoom env
        → IsReserved env r
        → is_triggered (env.events r).state ≡ false
        → Kept env (arm_resume call (set_event env r (cleared (env.events r))) p r)
    unfolding event_schedule
    rearm-Kept env p r k room s idle =
        let v = cleared (env.events r) in
        rw (arm_resume_lem, update_self env.events r v, update_twice env.events r v)
          (armed-Kept env p r v k room s idle refl refl refl)

    wake_first-Kept :
        (env : Env D) (p : ℕ)
        → IsKept env
        → HasRoom env
        → let (r, env') = event_alloc env in
          Kept env (
            arm_resume call
              (set_process env' p (record (env'.processes p) { resume_ev = some r }))
              p
              r)
    wake_first-Kept env p k room =
        let (r, env') = event_alloc env in
        let f = event_alloc-IsFresh env k.valid in
        let a = event_alloc-IsNew env k in
        let v = record (env'.processes p) { resume_ev = some r } in
        let env'' = set_process env' p v in
        let b =
          process-Kept env' p v env'.active env'.process_pool env'.all_processes env'.n_processes
            a.kept.kept (λ q h. rw (let same : r ≡ q = ground arith in same) at a.reserved)
            (λ d h. a.kept.kept.dones p d h) in
        let c =
          arm_resume-Kept env'' p r b.kept (rw f.same_seq room) (b.reserved r a.reserved)
            (ground (arith, f.waits)) in
        Kept-trans env env' _ a.kept (Kept-trans env' env'' _ b c)

    wake-Kept : (env : Env D) (p : ℕ) → IsKept env → HasRoom env → Kept env (wake call env p)
    unfolding wake
    wake-Kept env p k room = elim (Option-cases (env.processes p).resume_ev) [
      | inl e ↦ rw (e, wake) (wake_first-Kept env p k room)
      | inr (r, e) ↦
          rw (e, wake)
            (elim (Bool-cases (is_triggered (env.events r).state)) [
              | inl waits ↦ rw waits (Kept-refl env k)
              | inr idle ↦ rw idle (rearm-Kept env p r k room (k.resumes p r e) idle)
            ])
    ]

    pub schedule_resume-Kept :
        (env : Env D) (p : ℕ) (value : Ptr)
        → IsKept env
        → HasRoom env
        → Kept env (schedule_resume call env p value)
    unfolding schedule_resume
    schedule_resume-Kept env p value k room =
        let env' = set_process env p (record (env.processes p) { resume_value = value }) in
        let a =
          process_same-Kept env p (record (env.processes p) { resume_value = value }) k refl refl in
        Kept-trans env env' (wake call env' p) a (wake-Kept env' p a.kept room)
