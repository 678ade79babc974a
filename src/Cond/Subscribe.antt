-- ===== src/Cond/Subscribe.antt =====
-- src/cond.c: the loops of make_cond over the events.
use simpyc.Prelude.{
  subst, sym, ℕ, ◌+◌, ◌%◌, ◌≤◌, ◌<◌, ◌≡◌, refl, inl, inr, true, false, ◌⊎◌, List, [], ◌∷◌, arith,
  u32_mod, Bool-cases, Double, length, All,
}
use simpyc.State.{CbPair, Env}
use simpyc.Event.{Call, cb_grow, cb_store, is_processed, sim_event_on}
use simpyc.Cond.{cond_cb, count_processed, subscribe_all}

module _ {D : Type 0} where
  pub count_processed-le :
      (env : Env D) (es : List ℕ) (n : ℕ) → count_processed env es n ≤ n + length es
  unfolding count_processed
  count_processed-le env [] n = omega arith
  count_processed-le env (e ∷ es) n = elim (Bool-cases (is_processed (env.events e).state)) [
    | inl done ↦ rw done (omega (arith, count_processed-le env es ((n + 1) % u32_mod)))
    | inr more ↦ rw more (omega (arith, count_processed-le env es n))
  ]

  -- The condition is among the callbacks of the event.
  abbrev pub Subscribed : Env D → ℕ → ℕ → Type 0
  Subscribed env e c =
      (i : ℕ) × (i < (env.events e).cb_len)
      × ((env.events e).cbs i ≡ record { fn = cond_cb; user = c })

  -- The event has fired already, or will call the condition when it does.
  abbrev pub IsAwaited : Env D → ℕ → ℕ → Type 0
  IsAwaited env c e = (is_processed (env.events e).state ≡ true) ⊎ Subscribed env e c

  -- No array of callbacks overflows with so many more.
  abbrev pub HasSlots : Env D → ℕ → Type 0
  HasSlots env n = (e : ℕ) → (env.events e).cb_len + n < u32_mod

module _ {D : Type 0} ⦃F : Double D⦄ (call : Call D) where
  on-state :
      (e x : ℕ) (cb : CbPair) (env : Env D)
      → is_processed (env.events e).state ≡ false
      → ((sim_event_on call env e cb).events x).state ≡ (env.events x).state
  unfolding sim_event_on cb_store cb_grow
  on-state e x cb env more = ground arith

  on-Subscribed :
      (e c : ℕ) (env : Env D) (n : ℕ)
      → is_processed (env.events e).state ≡ false
      → HasSlots env (n + 1)
      → Subscribed (sim_event_on call env e (record { fn = cond_cb; user = c })) e c
  unfolding sim_event_on cb_store cb_grow
  on-Subscribed e c env n more slots =
      ((env.events e).cb_len, ground (arith, more, slots e), ground (arith, more, slots e))

  on-keeps :
      (e x c : ℕ) (cb : CbPair) (env : Env D) (n : ℕ)
      → is_processed (env.events e).state ≡ false
      → HasSlots env (n + 1)
      → Subscribed env x c
      → Subscribed (sim_event_on call env e cb) x c
  unfolding sim_event_on cb_store cb_grow
  on-keeps e x c cb env n more slots (i, below, same) =
      (i, ground (arith, more, slots e, below), ground (arith, more, below, same))

  on-HasSlots :
      (e : ℕ) (cb : CbPair) (env : Env D) (n : ℕ)
      → is_processed (env.events e).state ≡ false
      → HasSlots env (n + 1)
      → HasSlots (sim_event_on call env e cb) n
  unfolding sim_event_on cb_store cb_grow
  on-HasSlots e cb env n more slots x = ground (arith, more, slots e, slots x)

  subscribe_all-keeps :
      (c : ℕ) (es : List ℕ) (env : Env D) (x : ℕ)
      → HasSlots env (length es)
      → IsAwaited env c x
      → IsAwaited (subscribe_all call c es env) c x
  unfolding subscribe_all
  subscribe_all-keeps c [] env x slots a = a
  subscribe_all-keeps c (e ∷ es) env x slots a =
      let cb : CbPair = record { fn = cond_cb; user = c } in
      elim (Bool-cases (is_processed (env.events e).state)) [
        | inl done ↦
            rw (done, subscribe_all)
              (subscribe_all-keeps c es env x (λ y. omega (arith, slots y)) a)
        | inr more ↦
            let room : HasSlots env (length es + 1) = λ y. omega (arith, slots y) in
            rw (more, subscribe_all)
              (subscribe_all-keeps c es (sim_event_on call env e cb) x
                (on-HasSlots e cb env (length es) more room)
                (elim a [
                  | inl fired ↦ inl (rw (on-state e x cb env more) fired)
                  | inr s ↦ inr (on-keeps e x c cb env (length es) more room s)
                ]))
      ]

  subscribe_all-done :
      (c e : ℕ) (es : List ℕ) (env : Env D)
      → is_processed (env.events e).state ≡ true
      → subscribe_all call c (e ∷ es) env ≡ subscribe_all call c es env
  unfolding subscribe_all
  subscribe_all-done c e es env done = rw done refl

  subscribe_all-more :
      (c e : ℕ) (es : List ℕ) (env : Env D)
      → is_processed (env.events e).state ≡ false
      → subscribe_all call c (e ∷ es) env
        ≡ subscribe_all call c es (sim_event_on call env e (record { fn = cond_cb; user = c }))
  unfolding subscribe_all
  subscribe_all-more c e es env more = rw more refl

  -- The loop leaves none of the events out.
  pub subscribe_all-IsAwaited :
      (c : ℕ) (es : List ℕ) (env : Env D)
      → HasSlots env (length es)
      → All (IsAwaited (subscribe_all call c es env) c) es
  unfolding subscribe_all
  subscribe_all-IsAwaited c [] env slots = tt
  subscribe_all-IsAwaited c (e ∷ es) env slots =
      let cb : CbPair = record { fn = cond_cb; user = c } in
      elim (Bool-cases (is_processed (env.events e).state)) [
        | inl done ↦
            let room : HasSlots env (length es) = λ y. omega (arith, slots y) in
            subst (λ env'. All (IsAwaited env' c) (e ∷ es))
              (sym (subscribe_all-done c e es env done))
              (
                subscribe_all-keeps c es env e room (inl done),
                subscribe_all-IsAwaited c es env room,
              )
        | inr more ↦
            let room : HasSlots env (length es + 1) = λ y. omega (arith, slots y) in
            let later = on-HasSlots e cb env (length es) more room in
            subst (λ env'. All (IsAwaited env' c) (e ∷ es))
              (sym (subscribe_all-more c e es env more))
              (
                subscribe_all-keeps c es (sim_event_on call env e cb) e later
                    (inr (on-Subscribed e c env (length es) more room)),
                subscribe_all-IsAwaited c es (sim_event_on call env e cb) later,
              )
      ]
