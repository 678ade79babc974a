-- ===== src/Cond/Leak.antt =====
-- src/cond.c: a condition that resolves at once.
use simpyc.Event.Alloc.{event_alloc-IsFresh}
use simpyc.Event.Validity.{IsValid}
use simpyc.Cond.{
  has_all, set_cond, free_when_spent, is_done, count_processed, make_cond, sim_any_of,
}
use simpyc.Event.{event_alloc, event_schedule, sim_event_triggered, sim_event_succeed, Call}
use simpyc.Prelude.{
  ◌^◌, ◌%◌, u32_mod, ℕ, ◌+◌, ◌<◌, ◌≡◌, refl, ap, ◌∙◌, ◌≢◌, true, false, List, arith, Double, null,
  length,
}
use simpyc.State.{Env}
use simpyc.Cond.Create.{made}
use simpyc.Cond.Resolve.{IsSmall, is_done-small, has_all-small, succeed-conds, succeed-triggered}

module _ {D : Type 0} ⦃F : Double D⦄ where
  free-live : (env : Env D) (c : ℕ) → has_all (env.conds c) ≡ false → free_when_spent env c ≡ env
  unfolding free_when_spent
  free-live env c more = rw more refl

  succeed-others :
      (env : Env D) (e x : ℕ) → x ≢ e → (sim_event_succeed env e null).events x ≡ env.events x
  unfolding sim_event_succeed event_schedule
  succeed-others env e x ne = ground arith

  succeed-silent :
      (env : Env D) (e : ℕ)
      → ((sim_event_succeed env e null).events e).cb_len ≡ (env.events e).cb_len
  unfolding sim_event_succeed event_schedule
  succeed-silent env e = ground arith

  -- AnyOf over fewer than 2^31 events of which some have been processed and some not resolves at once and keeps its
  -- state allocated, and yet subscribes to none of them: no event that was there before changes, and
  -- the output has no subscription, so no callback is left that could free the state.
  pub sim_any_of-leaks :
      (call : Call D) (env : Env D) (evs : List ℕ)
      → IsValid env
      → length evs < 2 ^ 31
      → let c = (event_alloc env).1.n_conds in
        let n = count_processed (event_alloc env).1 evs 0 in
        let (out, env') = sim_any_of call env evs in
        0 < n
        → n < length evs
        → ((env'.conds c).live ≡ true)
          × (sim_event_triggered env' out ≡ true)
          × ((env'.events out).cb_len ≡ 0)
          × ((x : ℕ) → x ≢ out → env'.events x ≡ env.events x)
  unfolding sim_any_of make_cond
  sim_any_of-leaks call env evs i few_events some_done some_open =
      let (out, env') = event_alloc env in
      let f = event_alloc-IsFresh env i in
      let c = env'.n_conds in
      let s = made out evs true (count_processed env' evs 0) in
      let total : length evs % u32_mod ≡ length evs = omega (arith, few_events) in
      let small : IsSmall s = (omega (arith, some_open, few_events), few_events) in
      let written = set_cond (record env' { n_conds = c + 1 }) c s in
      let fired = sim_event_succeed written out null in
      let there : fired.conds c ≡ s = ap (λ g. g c) (succeed-conds written out) ∙ ground arith in
      let done : is_done s ≡ true = is_done-small s small ∙ ground arith in
      let stays : free_when_spent fired c ≡ fired =
        free-live fired c (rw there (has_all-small s small ∙ ground arith)) in
      rw (total, done, stays)
        (
          rw there refl,
          succeed-triggered written out,
          succeed-silent written out ∙ f.silent,
          λ x ne. succeed-others written out x ne ∙ f.others x ne,
        )
