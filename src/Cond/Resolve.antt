-- ===== src/Cond/Resolve.antt =====
-- src/cond.c: when the output of a condition fires, and when its state is freed.
use simpyc.Event.{is_pending, event_schedule, sim_event_triggered, sim_event_succeed}
use simpyc.Cond.{has_all, set_cond, cond_fires, CondState, is_done, free_when_spent}
use simpyc.Prelude.{
  ◌^◌, inc32, inc32-small, ℕ, zero, suc, ◌+◌, ◌≤◌, ◌<◌, ◌≡◌, refl, ap, ◌∙◌, inl, inr, Bool, true,
  false, not, ◌||◌, arith, ltb, leb, if◌then◌else◌, Bool-cases, Double, null,
}
use simpyc.State.{Env}

-- The counters have not overflowed.
abbrev pub IsSmall : CondState → Type 0
IsSmall s = (s.n_fired < 2 ^ 31) × (s.n_total < 2 ^ 31)

pub has_all-small : (s : CondState) → IsSmall s → has_all s ≡ leb s.n_total s.n_fired
unfolding has_all
has_all-small s (h, k) = ground (arith, h, k)

pub is_done-small :
    (s : CondState)
    → IsSmall s
    → is_done s ≡ (if s.any then leb 1 s.n_fired else leb s.n_total s.n_fired)
unfolding is_done
is_done-small s (h, k) = ground (arith, h, has_all-small s (h, k))

-- What k firings leave of the state.
abbrev after : ℕ → CondState → CondState
after k s = record s { n_fired = s.n_fired + k; live = ltb (s.n_fired + k) s.n_total }

after-zero : (s : CondState) → s.live ≡ ltb s.n_fired s.n_total → s ≡ after 0 s
after-zero s live =
    let same : s.n_fired + 0 ≡ s.n_fired = omega arith in
    rw same (ap {A = Bool} {B = CondState} (λ b. record s { live = b }) live)

after-suc :
    (k : ℕ) (s t : CondState)
    → t ≡ after k s
    → record t { n_fired = t.n_fired + 1; live = ltb (t.n_fired + 1) t.n_total } ≡ after (suc k) s
after-suc k s t e =
    let next : s.n_fired + suc k ≡ s.n_fired + k + 1 = omega arith in rw (e, next) refl

module _ {D : Type 0} where
  -- The counters have not overflowed, the output has fired exactly if enough events have, and the
  -- state is there exactly as long as events are yet to fire.
  pub record IsExact (env : Env D) (c : ℕ) : Type 0 where
    pub resolved : sim_event_triggered env (env.conds c).out ≡ is_done (env.conds c)
    pub live : (env.conds c).live ≡ ltb (env.conds c).n_fired (env.conds c).n_total
    pub few : (env.conds c).n_fired ≤ (env.conds c).n_total
    pub small : (env.conds c).n_total < 2 ^ 31

module _ {D : Type 0} ⦃F : Double D⦄ where
  pub succeed-triggered :
      (env : Env D) (e : ℕ) → sim_event_triggered (sim_event_succeed env e null) e ≡ true
  unfolding sim_event_succeed event_schedule
  succeed-triggered env e = ground arith

  pub succeed-conds : (env : Env D) (e : ℕ) → (sim_event_succeed env e null).conds ≡ env.conds
  unfolding sim_event_succeed event_schedule
  succeed-conds env e = ground arith

  pub free-events : (env : Env D) (c : ℕ) → (free_when_spent env c).events ≡ env.events
  unfolding free_when_spent
  free-events env c = ground arith

  free-conds :
      (env : Env D) (c : ℕ)
      → IsSmall (env.conds c)
      → (env.conds c).live ≡ true
      → (free_when_spent env c).conds c
        ≡ record (env.conds c) { live = ltb (env.conds c).n_fired (env.conds c).n_total }
  unfolding free_when_spent
  free-conds env c small live =
      rw (has_all-small (env.conds c) small)
        (elim (Bool-cases (leb (env.conds c).n_total (env.conds c).n_fired)) [
          | inl spent ↦
              let gone : ltb (env.conds c).n_fired (env.conds c).n_total ≡ false =
                ground (arith, spent) in
              rw (spent, gone) (ground arith)
          | inr more ↦
              let stays : ltb (env.conds c).n_fired (env.conds c).n_total ≡ true =
                ground (arith, more) in
              rw (more, stays) (ap (λ b. record (env.conds c) { live = b }) live)
        ])

  pub free-conds_as :
      (env : Env D) (c : ℕ) (s : CondState)
      → env.conds c ≡ s
      → IsSmall s
      → s.live ≡ true
      → (free_when_spent env c).conds c ≡ record s { live = ltb s.n_fired s.n_total }
  free-conds_as env c s e small live =
      free-conds env c (rw e small) (ap (λ t. t.live) e ∙ live)
      ∙ ap {A = CondState} {B = CondState} (λ t. record t { live = ltb t.n_fired t.n_total }) e

  -- The state behind the firing of an event.
  pub cond_fires-conds :
      (env : Env D) (c : ℕ)
      → IsExact env c
      → (env.conds c).n_fired < (env.conds c).n_total
      → (cond_fires c env).conds c ≡ record (env.conds c) {
        n_fired = (env.conds c).n_fired + 1;
        live = ltb ((env.conds c).n_fired + 1) (env.conds c).n_total;
      }
  unfolding cond_fires
  cond_fires-conds env c x more =
      let live : (env.conds c).live ≡ true = x.live ∙ ground (arith, more) in
      let small : IsSmall (record (env.conds c) { n_fired = (env.conds c).n_fired + 1 }) =
        (omega (arith, more, x.small), x.small) in
      let next = inc32-small (env.conds c).n_fired (omega (arith, more, x.small)) in
      let s = record (env.conds c) { n_fired = (env.conds c).n_fired + 1 } in
      let counted = set_cond env c s in
      let here : counted.conds c ≡ s = ground arith in
      let fired = sim_event_succeed counted s.out null in
      let there : fired.conds c ≡ s = ap (λ f. f c) (succeed-conds counted s.out) ∙ here in
      rw next (elim (Bool-cases (sim_event_triggered counted s.out)) [
        | inl spent ↦ rw spent (free-conds_as counted c s here small live)
        | inr waits ↦ rw waits (elim (Bool-cases (is_done s)) [
          | inl done ↦ rw done (free-conds_as fired c s there small live)
          | inr more ↦ rw more (free-conds_as counted c s here small live)
        ])
      ])

  -- Whether the output has fired behind the firing of an event.
  cond_fires-triggered :
      (env : Env D) (c : ℕ)
      → inc32 (env.conds c).n_fired ≡ (env.conds c).n_fired + 1
      → let s = record (env.conds c) { n_fired = (env.conds c).n_fired + 1 } in
        sim_event_triggered (cond_fires c env) s.out ≡ sim_event_triggered env s.out || is_done s
  unfolding cond_fires
  cond_fires-triggered env c next =
      let s = record (env.conds c) { n_fired = (env.conds c).n_fired + 1 } in
      let counted = set_cond env c s in
      let fired = sim_event_succeed counted s.out null in
      let seen : (env' : Env D)
          → sim_event_triggered (free_when_spent env' c) s.out ≡ sim_event_triggered env' s.out =
        λ env'. ap (λ f. not (is_pending (f s.out).state)) (free-events env' c) in
      rw next (elim (Bool-cases (sim_event_triggered env s.out)) [
        | inl spent ↦ rw spent (seen counted ∙ spent)
        | inr waits ↦ rw waits (elim (Bool-cases (is_done s)) [
          | inl done ↦ rw done (seen fired ∙ succeed-triggered counted s.out)
          | inr more ↦ rw more (seen counted ∙ waits)
        ])
      ])

  -- The firing of one event, which there was still to come.
  cond_fires-IsExact :
      (env : Env D) (c : ℕ)
      → IsExact env c
      → (env.conds c).n_fired < (env.conds c).n_total
      → IsExact (cond_fires c env) c
  unfolding is_done has_all
  cond_fires-IsExact env c x more =
      let e = cond_fires-conds env c x more in
      let next = inc32-small (env.conds c).n_fired (omega (arith, more, x.small)) in
      let before = is_done-small (env.conds c) (omega (arith, more, x.small), x.small) in
      let behind =
        is_done-small (record (env.conds c) { n_fired = (env.conds c).n_fired + 1 })
          (omega (arith, more, x.small), x.small) in
      let resolved : (sim_event_triggered env (env.conds c).out
            || is_done (record (env.conds c) { n_fired = (env.conds c).n_fired + 1 }))
          ≡ is_done (record (env.conds c) { n_fired = (env.conds c).n_fired + 1 }) =
        rw behind (let seen = x.resolved ∙ before in ground (arith, seen, more)) in
      record {
        resolved = rw e (cond_fires-triggered env c next ∙ resolved);
        live = rw e refl;
        few = rw e (omega (arith, more));
        small = rw e x.small;
      }

  -- Some events of the condition fire, and anything else happens in between that neither writes to
  -- its state nor fires its output.
  pub data Firings (c : ℕ) : ℕ → Env D → Env D → Type 0 where
    begin : (env : Env D) → Firings c 0 env env
    fires :
        (k : ℕ) (env env' : Env D)
        → Firings c k env env'
        → Firings c (suc k) env (cond_fires c env')
    other :
        (k : ℕ) (env env' env'' : Env D)
        → Firings c k env env'
        → env''.conds c ≡ env'.conds c
        → sim_event_triggered env'' (env'.conds c).out ≡ sim_event_triggered env' (env'.conds c).out
        → Firings c k env env''

  other-IsExact :
      (env env' : Env D) (c : ℕ)
      → IsExact env c
      → env'.conds c ≡ env.conds c
      → sim_event_triggered env' (env.conds c).out ≡ sim_event_triggered env (env.conds c).out
      → IsExact env' c
  other-IsExact env env' c x e t = record {
    resolved = rw e (t ∙ x.resolved);
    live = rw e x.live;
    few = rw e x.few;
    small = rw e x.small;
  }

  Firings-after :
      (c k : ℕ) (env env' : Env D)
      → IsExact env c
      → (env.conds c).n_fired + k ≤ (env.conds c).n_total
      → Firings c k env env'
      → (env'.conds c ≡ after k (env.conds c)) × IsExact env' c
  Firings-after c zero env _ x room (begin _) = (after-zero (env.conds c) x.live, x)
  Firings-after c (suc k) env _ x room (fires _ _ env' f) =
      let (e, x') = Firings-after c k env env' x (omega (arith, room)) f in
      let more : (env'.conds c).n_fired < (env'.conds c).n_total = rw e (omega (arith, room)) in
      (
        cond_fires-conds env' c x' more ∙ after-suc k (env.conds c) (env'.conds c) e,
        cond_fires-IsExact env' c x' more,
      )
  Firings-after c k env _ x room (other _ _ env' env'' f same fired) =
      let (e, x') = Firings-after c k env env' x room f in
      (same ∙ e, other-IsExact env' env'' c x' same fired)

  -- However the firings of a condition's events mix with the rest of the program, each finds the
  -- state allocated as long as no more come than were missing; the output has fired as soon as the
  -- condition holds, for AnyOf with the first event and for AllOf with the last and no earlier; and
  -- the state is freed by the last firing.
  pub Firings-resolve :
      (c k : ℕ) (env env' : Env D)
      → IsExact env c
      → let s = env.conds c in
        s.n_fired + k ≤ s.n_total
        → Firings c k env env'
        → ((env'.conds c).live ≡ ltb (s.n_fired + k) s.n_total)
          × (sim_event_triggered env' s.out
              ≡ (if s.any then leb 1 (s.n_fired + k) else leb s.n_total (s.n_fired + k)))
  unfolding is_done
  Firings-resolve c k env env' x room f =
      let (e, x') = Firings-after c k env env' x room f in
      let exact =
        x'.resolved ∙ is_done-small (env'.conds c) (omega (arith, x'.few, x'.small), x'.small) in
      (ap (λ s. s.live) e, rw e at exact)
