-- ===== src/Dispatch/Conds.antt =====
-- src/cond.c: conditions keep the invariant of the whole environment.
use simpyc.Prelude.{
  inc32, u32_mod, ◌%◌, ℕ, ◌+◌, ◌≤◌, ◌<◌, refl, ◌≢◌, inl, inr, Bool, true, false, List, [], ◌∷◌,
  arith, ◌==◌, Bool-cases, Double, update, null, length,
}
use simpyc.State.{CbPair, Env, CondState, cond_cb, set_cond, zero_cond}
use simpyc.Event.{
  Call, event_alloc, sim_event_succeed, sim_event_on, is_processed, sim_event_triggered,
}
use simpyc.Event.Validity.{HasRoom, SameQueue-IsValid}
use simpyc.Event.Alloc.{event_alloc-IsFresh}
use simpyc.Cond.{
  has_all, is_done, free_when_spent, cond_fires, count_processed, subscribe_all, make_cond,
}
use simpyc.Dispatch.Kept.{IsReserved, IsKept, Kept, Kept-refl, Kept-trans}
use simpyc.Dispatch.Alloc.{event_alloc-IsNew}
use simpyc.Dispatch.Events.{succeed-Kept, on-Kept}

module _ {D : Type 0} ⦃F : Double D⦄ where
  -- A write to a condition, and perhaps the allocation of the next, whose output is allocated.
  pub cond-Kept :
      (env : Env D) (c : ℕ) (s : CondState) (n : ℕ)
      → IsKept env
      → s.out < env.n_events
      → env.n_conds ≤ n
      → ((x : ℕ) → x < n → x ≢ c → x < env.n_conds)
      → Kept env (record env { conds = update env.conds c s; n_conds = n })
  cond-Kept env c s n k out more only =
      let env' : Env D = record env { conds = update env.conds c s; n_conds = n } in
      let reserved : (r : ℕ) → IsReserved env r → IsReserved env' r =
        λ r s. record { allocated = s.allocated; kept = s.kept; outside = s.outside } in
      record {
        kept = record {
          valid =
              SameQueue-IsValid env env'
                (record {
                  now = refl;
                  next_seq = refl;
                  heap = refl;
                  events = refl;
                  n_events = refl;
                  event_pool = refl;
                })
                k.valid;
          resumes = λ p r h. reserved r (k.resumes p r h);
          dones = k.dones;
          outs = λ x h. elim (Bool-cases (x == c)) [
            | inl same ↦ rw same out
            | inr other ↦ rw other (k.outs x (only x h (λ e. absurd (ground arith))))
          ];
          typed = λ e i h. omega (arith, k.typed e i h);
          held = k.held;
        };
        settled = λ x s. record { done = s.done; allocated = s.allocated; outside = s.outside };
        reserved = reserved;
        grows = omega arith;
        conds_grow = more;
        now = refl;
      }

  free-Kept :
      (env : Env D) (c : ℕ) → IsKept env → c < env.n_conds → Kept env (free_when_spent env c)
  unfolding free_when_spent
  free-Kept env c k h = elim (Bool-cases (has_all (env.conds c))) [
    | inr more ↦ rw more (Kept-refl env k)
    | inl spent ↦ rw spent (
        cond-Kept env c (record (env.conds c) { live = false }) env.n_conds k (k.outs c h)
          (omega arith) (λ x lt ne. lt))
  ]

  pub cond_fires-Kept :
      (env : Env D) (c : ℕ)
      → IsKept env
      → HasRoom env
      → c < env.n_conds
      → Kept env (cond_fires c env)
  unfolding cond_fires
  cond_fires-Kept env c k room h =
      let s = record (env.conds c) { n_fired = inc32 (env.conds c).n_fired } in
      let counted = set_cond env c s in
      let a = cond-Kept env c s env.n_conds k (k.outs c h) (omega arith) (λ x lt ne. lt) in
      let fired = sim_event_succeed counted s.out null in
      let b = succeed-Kept counted s.out null a.kept room (k.outs c h) in
      elim (Bool-cases (sim_event_triggered counted s.out)) [
        | inl spent ↦ rw spent (Kept-trans env counted _ a (free-Kept counted c a.kept h))
        | inr waits ↦ rw waits (elim (Bool-cases (is_done s)) [
          | inr more ↦ rw more (Kept-trans env counted _ a (free-Kept counted c a.kept h))
          | inl done ↦ rw done (
              Kept-trans env counted _ a (
                Kept-trans counted fired _ b
                  (free-Kept fired c b.kept (omega (arith, b.conds_grow)))))
        ])
      ]

  module _ (call : Call D) where
    subscribe_all-Kept :
        (c : ℕ) (es : List ℕ) (env : Env D)
        → IsKept env
        → c < env.n_conds
        → Kept env (subscribe_all call c es env)
    unfolding subscribe_all
    subscribe_all-Kept c [] env k h = Kept-refl env k
    subscribe_all-Kept c (e ∷ es) env k h = elim (Bool-cases (is_processed (env.events e).state)) [
      | inl done ↦ rw done (subscribe_all-Kept c es env k h)
      | inr more ↦
          let cb : CbPair = record { fn = cond_cb; user = c } in
          let a = on-Kept call env e cb k (λ q. h) (λ done. absurd (ground arith)) in
          let env' = sim_event_on call env e cb in
          rw more (
            Kept-trans env env' _ a
              (subscribe_all-Kept c es env' a.kept (omega (arith, a.conds_grow))))
    ]

    pub make_cond-Kept :
        (env : Env D) (evs : List ℕ) (any : Bool)
        → IsKept env
        → HasRoom env
        → Kept env (make_cond call env evs any).1
    unfolding make_cond
    make_cond-Kept env evs any k room =
        let (out, env') = event_alloc env in
        let f = event_alloc-IsFresh env k.valid in
        let a = event_alloc-IsNew env k in
        let c = env'.n_conds in
        let s = record zero_cond {
          out = out;
          n_total = length evs % u32_mod;
          n_fired = count_processed env' evs 0;
          any = any;
          live = true;
        } in
        let env'' = set_cond (record env' { n_conds = c + 1 }) c s in
        let b =
          cond-Kept env' c s (c + 1) a.kept.kept f.allocated (omega arith)
            (λ x lt ne. ground (arith, ne)) in
        let ab = Kept-trans env env' env'' a.kept b in
        elim (Bool-cases (is_done s)) [
          | inl done ↦
              let fired = succeed-Kept env'' out null b.kept (rw f.same_seq room) f.allocated in
              rw done (
                Kept-trans env env'' _ ab (
                  Kept-trans env'' (sim_event_succeed env'' out null) _ fired (
                    free-Kept (sim_event_succeed env'' out null) c fired.kept
                      (omega (arith, fired.conds_grow)))))
          | inr more ↦
              rw more
                (Kept-trans env env'' _ ab (subscribe_all-Kept c evs env'' b.kept (omega arith)))
        ]
