-- ===== src/Cond/Create.antt =====
-- src/cond.c: the condition that make_cond leaves.
use simpyc.Event.Alloc.{event_alloc-IsFresh}
use simpyc.Event.Validity.{IsValid}
use simpyc.Cond.{
  has_all, set_cond, free_when_spent, is_done, count_processed, make_cond, CondState, cond_cb,
  subscribe_all,
}
use simpyc.Event.{
  event_alloc, is_pending, sim_event_triggered, sim_event_succeed, cb_grow, cb_store, is_processed,
  sim_event_on, Call,
}
use simpyc.Cond.Subscribe.{count_processed-le, subscribe_all-IsAwaited, IsAwaited, HasSlots}
use simpyc.Prelude.{
  ◌^◌, ◌%◌, u32_mod, ◌⊎◌, All, ℕ, ◌+◌, ◌≤◌, ◌<◌, ◌≡◌, refl, sym, ap, subst, ◌∙◌, inl, inr, Bool,
  true, false, not, List, [], ◌∷◌, arith, ltb, leb, if◌then◌else◌, Bool-cases, Double, null, length,
}
use simpyc.State.{CbPair, Env}
use simpyc.Cond.Resolve.{
  IsSmall, is_done-small, IsExact, Firings, Firings-resolve, succeed-conds, free-conds_as,
  free-events, succeed-triggered,
}

-- What make_cond writes to the new state, when so many of the events have been processed.
abbrev pub made : ℕ → List ℕ → Bool → ℕ → CondState
made out evs any n = record { out = out; n_total = length evs; n_fired = n; any = any; live = true }

-- The counters have not overflowed, and no more have fired than there are.
abbrev IsFew : CondState → Type 0
IsFew s = (s.n_fired ≤ s.n_total) × (s.n_total < 2 ^ 31)

few-IsSmall : (s : CondState) → IsFew s → IsSmall s
few-IsSmall s (few, small) = (omega (arith, few, small), small)

module _ {D : Type 0} ⦃F : Double D⦄ (call : Call D) where
  subscribe-conds :
      (e : ℕ) (cb : CbPair) (env : Env D)
      → is_processed (env.events e).state ≡ false
      → (sim_event_on call env e cb).conds ≡ env.conds
  unfolding sim_event_on
  subscribe-conds e cb env more = rw more refl

  subscribe_all-conds :
      (c : ℕ) (es : List ℕ) (env : Env D) → (subscribe_all call c es env).conds ≡ env.conds
  unfolding subscribe_all
  subscribe_all-conds c [] env = refl
  subscribe_all-conds c (e ∷ es) env =
      let cb : CbPair = record { fn = cond_cb; user = c } in
      elim (Bool-cases (is_processed (env.events e).state)) [
        | inl done ↦ rw (done, subscribe_all) (subscribe_all-conds c es env)
        | inr more ↦
            rw (more, subscribe_all)
              (subscribe_all-conds c es (sim_event_on call env e cb)
                ∙ subscribe-conds e cb env more)
      ]

  subscribe-state :
      (e x : ℕ) (cb : CbPair) (env : Env D)
      → is_processed (env.events e).state ≡ false
      → ((sim_event_on call env e cb).events x).state ≡ (env.events x).state
  unfolding sim_event_on cb_store cb_grow
  subscribe-state e x cb env more = ground arith

  subscribe_all-state :
      (c : ℕ) (es : List ℕ) (env : Env D) (x : ℕ)
      → ((subscribe_all call c es env).events x).state ≡ (env.events x).state
  unfolding subscribe_all
  subscribe_all-state c [] env x = refl
  subscribe_all-state c (e ∷ es) env x = elim (Bool-cases (is_processed (env.events e).state)) [
    | inl done ↦ rw (done, subscribe_all) (subscribe_all-state c es env x)
    | inr more ↦
        rw (more, subscribe_all)
          (subscribe_all-state c es (sim_event_on call env e (record { fn = cond_cb; user = c })) x
            ∙ subscribe-state e x (record { fn = cond_cb; user = c }) env more)
  ]

  IsExact-of :
      (env : Env D) (c : ℕ) (s : CondState)
      → env.conds c ≡ record s { live = ltb s.n_fired s.n_total }
      → IsFew s
      → sim_event_triggered env s.out ≡ is_done s
      → IsExact env c
  unfolding is_done has_all
  IsExact-of env c s e (few, small) t = record {
    resolved = rw e t;
    live = rw e refl;
    few = rw e few;
    small = rw e small;
  }

  -- The condition is as written, but for the mark that it is freed once all its events have fired.
  record IsMade (env : Env D) (c : ℕ) (s : CondState) : Type 0 where
    state : env.conds c ≡ record s { live = ltb s.n_fired s.n_total }
    exact : IsExact env c

  done-IsMade :
      (env : Env D) (c : ℕ) (s : CondState)
      → env.conds c ≡ s
      → IsFew s
      → s.live ≡ true
      → is_done s ≡ true
      → IsMade (free_when_spent (sim_event_succeed env s.out null) c) c s
  done-IsMade env c s here few live done =
      let fired = sim_event_succeed env s.out null in
      let there : fired.conds c ≡ s = ap (λ f. f c) (succeed-conds env s.out) ∙ here in
      let state = free-conds_as fired c s there (few-IsSmall s few) live in
      let seen : sim_event_triggered (free_when_spent fired c) s.out ≡ true =
        ap (λ f. not (is_pending (f s.out).state)) (free-events fired c)
        ∙ succeed-triggered env s.out in
      record { state = state; exact = IsExact-of _ c s state few (seen ∙ sym done) }

  waits-IsMade :
      (env : Env D) (c : ℕ) (s : CondState) (evs : List ℕ)
      → env.conds c ≡ s
      → IsFew s
      → s.live ≡ true
      → 0 < s.n_total
      → is_done s ≡ false
      → is_pending (env.events s.out).state ≡ true
      → IsMade (subscribe_all call c evs env) c s
  unfolding is_done
  waits-IsMade env c s evs here few live some_event more waits =
      let stays : ltb s.n_fired s.n_total ≡ true =
        let natural = is_done-small s (few-IsSmall s few) in ground (arith, natural, more) in
      let subscribed = subscribe_all call c evs env in
      let state : subscribed.conds c ≡ record s { live = ltb s.n_fired s.n_total } =
        ap (λ f. f c) (subscribe_all-conds c evs env)
        ∙ here
        ∙ ap (λ b. record s { live = b }) (live ∙ sym stays) in
      let seen : sim_event_triggered subscribed s.out ≡ false =
        ap (λ t. not (is_pending t)) (subscribe_all-state c evs env s.out)
        ∙ ap (λ b. not b) waits in
      record { state = state; exact = IsExact-of subscribed c s state few (seen ∙ sym more) }

  -- The condition as make_cond leaves it.
  made-IsMade :
      (env : Env D) (evs : List ℕ) (any : Bool)
      → IsValid env
      → 0 < length evs
      → length evs < 2 ^ 31
      → let c = (event_alloc env).1.n_conds in
        let r = make_cond call env evs any in
        IsMade r.1 c (made r.0 evs any (count_processed (event_alloc env).1 evs 0))
  unfolding make_cond
  made-IsMade env evs any i some_event few_events =
      let (out, env') = event_alloc env in
      let c = env'.n_conds in
      let s = made out evs any (count_processed env' evs 0) in
      let written = set_cond (record env' { n_conds = c + 1 }) c s in
      let here : written.conds c ≡ s = ground arith in
      let total : length evs % u32_mod ≡ length evs = omega (arith, few_events) in
      let few : IsFew s = (omega (arith, count_processed-le env' evs 0), few_events) in
      rw total (elim (Bool-cases (is_done s)) [
        | inl done ↦ rw done (done-IsMade written c s here few refl done)
        | inr more ↦ rw more (
            waits-IsMade written c s evs here few refl some_event more
              (event_alloc-IsFresh env i).waits)
      ])

  -- The output has fired, or all the events that have not been processed will call the condition.
  make_cond-IsAwaited :
      (env : Env D) (evs : List ℕ) (any : Bool)
      → HasSlots (event_alloc env).1 (length evs)
      → let c = (event_alloc env).1.n_conds in
        let (out, env') = make_cond call env evs any in
        (sim_event_triggered env' out ≡ true) ⊎ All (IsAwaited env' c) evs
  unfolding make_cond
  make_cond-IsAwaited env evs any slots =
      let (out, env') = event_alloc env in
      let c = env'.n_conds in
      let s = record (made out evs any (count_processed env' evs 0)) {
        n_total = length evs % u32_mod;
      } in
      let written = set_cond (record env' { n_conds = c + 1 }) c s in
      let fired = sim_event_succeed written out null in
      elim (Bool-cases (is_done s)) [
        | inl done ↦ rw done (
            inl (
              ap (λ f. not (is_pending (f out).state)) (free-events fired c)
              ∙ succeed-triggered written out))
        | inr more ↦ rw more (inr (subscribe_all-IsAwaited call c evs written slots))
      ]

  -- Of make_cond on at least one and fewer than 2^31 events, with arrays of callbacks that do not
  -- overflow, in a valid environment: the output fires at once, or every listed event that has not
  -- been processed has cond_cb with the new state among its callbacks. From then on, however the
  -- calls of cond_cb mix with the rest of the program: with n events processed before and k calls
  -- since, as long as these are no more than the listed events, the output has fired exactly if the
  -- condition holds, for AnyOf with one event and for AllOf with all, and the state is allocated
  -- exactly as long as n + k is less than the number of events.
  pub make_cond-resolves :
      (env : Env D) (evs : List ℕ) (any : Bool) (k : ℕ) (env'' : Env D)
      → IsValid env
      → 0 < length evs
      → length evs < 2 ^ 31
      → HasSlots (event_alloc env).1 (length evs)
      → let c = (event_alloc env).1.n_conds in
        let n = count_processed (event_alloc env).1 evs 0 in
        let (out, env') = make_cond call env evs any in
        n + k ≤ length evs
        → Firings c k env' env''
        → ((sim_event_triggered env' out ≡ true) ⊎ All (IsAwaited env' c) evs)
          × ((env''.conds c).live ≡ ltb (n + k) (length evs))
          × (sim_event_triggered env'' out
              ≡ (if any then leb 1 (n + k) else leb (length evs) (n + k)))
  make_cond-resolves env evs any k env'' i some_event few_events slots room f =
      let c = (event_alloc env).1.n_conds in
      let env' = (make_cond call env evs any).1 in
      let m = made-IsMade env evs any i some_event few_events in
      let (live, fired) =
        subst
          (λ t.
            t.n_fired + k ≤ t.n_total
            → Firings c k env' env''
            → ((env''.conds c).live ≡ ltb (t.n_fired + k) t.n_total)
              × (sim_event_triggered env'' t.out
                  ≡ (if t.any then leb 1 (t.n_fired + k) else leb t.n_total (t.n_fired + k))))
          m.state (λ r g. Firings-resolve c k env' env'' m.exact r g) room f in
      (make_cond-IsAwaited env evs any slots, live, fired)
