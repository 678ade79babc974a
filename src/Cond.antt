-- ===== src/Cond.antt =====
-- src/cond.c: AllOf and AnyOf. The two counters are `int`s, by their 32 bits.
pub mod Create
pub mod Leak
pub mod Resolve
pub mod Subscribe
use simpyc.Prelude.{
  ℕ, ◌+◌, Bool, true, false, not, List, [], ◌∷◌, ltb_ℤ, int_of, pos, inc32, u32_mod, ◌%◌,
  if◌then◌else◌, Double, null, length,
}
use simpyc.State.{Env, CondState, cond_cb, zero_cond, set_cond}
use simpyc.Event.{
  Call, event_alloc, sim_event_succeed, sim_event_on, sim_event_triggered, sim_event_processed,
}

-- `s->n_fired >= s->n_total`.
unfoldable pub has_all : CondState → Bool
has_all s = not (ltb_ℤ (int_of s.n_fired) (int_of s.n_total))

-- Whether enough events have fired.
unfoldable pub is_done : CondState → Bool
is_done s = if s.any then not (ltb_ℤ (int_of s.n_fired) (pos 1)) else has_all s

module _ {D : Type 0} where
  -- free, once all the events have fired.
  unfoldable pub free_when_spent : Env D → ℕ → Env D
  free_when_spent env c =
      if has_all (env.conds c) then set_cond env c (record (env.conds c) { live = false }) else env

  -- The first loop of make_cond.
  unfoldable pub count_processed : Env D → List ℕ → ℕ → ℕ
  count_processed env [] n = n
  count_processed env (e ∷ es) n =
      count_processed env es (if sim_event_processed env e then inc32 n else n)

module _ {D : Type 0} ⦃F : Double D⦄ where
  unfoldable pub cond_fires : ℕ → Env D → Env D
  unfolding free_when_spent is_done
  cond_fires c env =
      let s = record (env.conds c) { n_fired = inc32 (env.conds c).n_fired } in
      let counted = set_cond env c s in
      let resolved =
        if sim_event_triggered counted s.out
        then counted
        else if is_done s
        then sim_event_succeed counted s.out null
        else counted in
      free_when_spent resolved c

module _ {D : Type 0} ⦃F : Double D⦄ (call : Call D) where
  -- The second loop of make_cond.
  unfoldable pub subscribe_all : ℕ → List ℕ → Env D → Env D
  subscribe_all c [] env = env
  subscribe_all c (e ∷ es) env = subscribe_all c es (
      if sim_event_processed env e
      then env
      else sim_event_on call env e (record { fn = cond_cb; user = c }))

  unfoldable pub make_cond : Env D → List ℕ → Bool → ℕ × Env D
  unfolding count_processed is_done free_when_spent subscribe_all
  make_cond env evs any =
      let (out, env') = event_alloc env in
      let c = env'.n_conds in
      let s = record zero_cond {
        out = out;
        n_total = length evs % u32_mod;
        n_fired = count_processed env' evs 0;
        any = any;
        live = true;
      } in
      let env'' = set_cond (record env' { n_conds = c + 1 }) c s in
      if is_done s
      then (out, free_when_spent (sim_event_succeed env'' out null) c)
      else (out, subscribe_all c evs env'')

  unfoldable pub sim_all_of : Env D → List ℕ → ℕ × Env D
  unfolding make_cond
  sim_all_of env events = make_cond env events false

  unfoldable pub sim_any_of : Env D → List ℕ → ℕ × Env D
  unfolding make_cond
  sim_any_of env events = make_cond env events true
