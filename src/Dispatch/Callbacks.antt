-- ===== src/Dispatch/Callbacks.antt =====
-- src/process.c, src/cond.c and the callbacks of a client, as the scheduler calls them: they keep to
-- what the scheduler relies on.
use simpyc.Prelude.{
  ℕ, ◌<◌, ◌≡◌, refl, ◌⊎◌, inl, inr, true, Option, none, some, arith, Bool-cases, Double, Ptr, null,
}
use simpyc.State.{
  Env, CbPair, SimProcess, Context, CallbackFn, entry, after_yield, unset, resume_cb, waiter_cb,
  cond_cb, user_fn, set_process, running,
}
use simpyc.Event.{Call}
use simpyc.Event.Validity.{HasRoom, SameQueue-IsValid}
use simpyc.Process.{Outcome, yields, returns, Code, suspend, switch_to, resume, yield_back, is_dead}
use simpyc.Dispatch.{Client, run_program, dispatch_fn, dispatch}
use simpyc.Dispatch.Kept.{IsKept, IsReserved, Kept, Kept-trans}
use simpyc.Dispatch.Wake.{process_same-Kept}
use simpyc.Dispatch.Processes.{waiter-Kept, yield_to-Kept, process_exit-Kept}
use simpyc.Dispatch.Conds.{cond_fires-Kept}
use simpyc.Dispatch.Fits.{CallKeeps, ProgramFits}
use simpyc.Dispatch.Programs.{run_program-Runs}
use simpyc.Dispatch.Runs.{Runs, Kept-Runs, Runs-refl, Runs-trans}

module _ {D : Type 0} ⦃F : Double D⦄ where
  active-Kept : (env : Env D) (a : Option ℕ) → IsKept env → Kept env (record env { active = a })
  active-Kept env a k =
      let env' : Env D = record env { active = a } in
      let reserved : (r : ℕ) → IsReserved env r → IsReserved env' r =
        λ r s. record { allocated = s.allocated; kept = s.kept; outside = s.outside } in
      record {
        kept = record {
          valid =
              SameQueue-IsValid env env'
                (record {
                  now = refl;
                  next_seq = refl;
                  heap = refl;
                  events = refl;
                  n_events = refl;
                  event_pool = refl;
                })
                k.valid;
          resumes = λ p r h. reserved r (k.resumes p r h);
          dones = k.dones;
          outs = k.outs;
          typed = k.typed;
          held = k.held;
        };
        settled = λ x s. record { done = s.done; allocated = s.allocated; outside = s.outside };
        reserved = reserved;
        grows = omega arith;
        conds_grow = omega arith;
        now = refl;
      }

module _ {D : Type 0} ⦃F : Double D⦄ (call : Call D) (CallFits : CbPair → ℕ → Env D → Type 0)
    (client : Client D) (here : Option ℕ) where
  -- The body of a process, from where it goes on to its next yield, and the sequence number that
  -- the yield or the end takes.
  abbrev pub BodyFits : ℕ → Context → Ptr → Env D → Type 0
  BodyFits p ctx value env =
      let m = client.body p ctx value in
      ProgramFits client.filters call CallFits here m env
      × HasRoom (run_program client.filters call m env).1

  abbrev pub SwitchFits : ℕ → Context → Env D → Type 0
  SwitchFits p entry env =
      BodyFits p entry null (set_process env p (record (env.processes p) { state = running }))
  SwitchFits p (after_yield k) env =
      let (value, q) = yield_back call (env.processes p) in
      BodyFits p (after_yield k) value (set_process env p q)

  -- Where a callback fits, by its function.
  abbrev pub FnFits : CallbackFn → Ptr → ℕ → Env D → Type 0
  FnFits unset user e env = Unit
  FnFits resume_cb user e env =
      (is_dead (env.processes user).state ≡ true)
      ⊎ SwitchFits user (env.processes user).ctx (record env { active = some user })
  FnFits waiter_cb user e env = HasRoom env
  FnFits cond_cb user e env = HasRoom env
  FnFits (user_fn fn) user e env =
      ProgramFits client.filters call CallFits here (client.handler fn e user) env

  abbrev pub CallbackFits : CbPair → ℕ → Env D → Type 0
  CallbackFits cb e env = FnFits cb.fn cb.user e env

  module _ (keeps : CallKeeps call CallFits here) where
    abbrev code : Code D
    code p ctx value env = run_program client.filters call (client.body p ctx value) env

    yield_back-events :
        (p : SimProcess)
        → let (value, q) = yield_back call p in (q.resume_ev ≡ p.resume_ev) × (q.done ≡ p.done)
    unfolding yield_back
    yield_back-events p = ground arith

    suspend-Kept :
        (p : ℕ) (o : Outcome × Env D) → IsKept o.1 → HasRoom o.1 → Kept o.1 (suspend call p o)
    unfolding suspend
    suspend-Kept p (yields evt k, env) i room =
        let v = record (env.processes p) { ctx = after_yield k } in
        let a = process_same-Kept env p v i refl refl in
        Kept-trans env (set_process env p v) _ a
          (yield_to-Kept call (set_process env p v) p evt a.kept room)
    suspend-Kept p (returns, env) i room = process_exit-Kept call env p i room

    body-Runs :
        (p : ℕ) (ctx : Context) (value : Ptr) (env : Env D)
        → IsKept env
        → BodyFits p ctx value env
        → Runs here env (suspend call p (code p ctx value env))
    body-Runs p ctx value env i f =
        let o = code p ctx value env in
        let a =
          run_program-Runs client.filters call CallFits here keeps (client.body p ctx value) env i
            f.0 in
        Runs-trans here env o.1 _ a (Kept-Runs here o.1 _ (suspend-Kept p o a.kept f.1))

    switch_to-Runs :
        (p : ℕ) (ctx : Context) (env : Env D)
        → IsKept env
        → SwitchFits p ctx env
        → Runs here env (switch_to call code p ctx env)
    unfolding switch_to
    switch_to-Runs p entry env i f =
        let v = record (env.processes p) { state = running } in
        let a = process_same-Kept env p v i refl refl in
        Runs-trans here env (set_process env p v) _ (Kept-Runs here env _ a)
          (body-Runs p entry null (set_process env p v) a.kept f)
    switch_to-Runs p (after_yield k) env i f =
        let (value, q) = yield_back call (env.processes p) in
        let a =
          process_same-Kept env p q i (yield_back-events (env.processes p)).0
            (yield_back-events (env.processes p)).1 in
        Runs-trans here env (set_process env p q) _ (Kept-Runs here env _ a)
          (body-Runs p (after_yield k) value (set_process env p q) a.kept f)

    dispatch_fn-Runs :
        (fn : CallbackFn) (user : Ptr) (e : ℕ) (env : Env D)
        → IsKept env
        → (fn ≡ cond_cb → user < env.n_conds)
        → FnFits fn user e env
        → Runs here env (dispatch_fn call client fn user e env)
    unfolding dispatch_fn resume
    dispatch_fn-Runs unset user e env i h f = Runs-refl here env i
    dispatch_fn-Runs waiter_cb user e env i h f =
        Kept-Runs here env _ (waiter-Kept call env e user i f)
    dispatch_fn-Runs cond_cb user e env i h f =
        Kept-Runs here env _ (cond_fires-Kept env user i f (h refl))
    dispatch_fn-Runs (user_fn fn) user e env i h f =
        run_program-Runs client.filters call CallFits here keeps (client.handler fn e user) env i f
    dispatch_fn-Runs resume_cb user e env i h (inl gone) = rw gone (Runs-refl here env i)
    dispatch_fn-Runs resume_cb user e env i h (inr f) =
        let started = record env { active = some user } in
        let a = active-Kept env (some user) i in
        let b = switch_to-Runs user (env.processes user).ctx started a.kept f in
        let after = switch_to call code user (env.processes user).ctx started in
        let all = Runs-trans here env started _ (Kept-Runs here env started a) (
          Runs-trans here started after _ b
            (Kept-Runs here after _ (active-Kept after none b.kept))) in
        elim (Bool-cases (is_dead (env.processes user).state)) [
          | inl gone ↦ rw gone (Runs-refl here env i)
          | inr alive ↦ rw alive all
        ]

    -- Each function that an event can call keeps the invariant, where it fits.
    pub dispatch-Runs :
        (cb : CbPair) (e : ℕ) (env : Env D)
        → IsKept env
        → (cb.fn ≡ cond_cb → cb.user < env.n_conds)
        → CallbackFits cb e env
        → Runs here env (dispatch call client cb e env)
    unfolding dispatch
    dispatch-Runs cb e env i h f = dispatch_fn-Runs cb.fn cb.user e env i h f
