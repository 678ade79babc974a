-- ===== src/Dispatch/Alloc.antt =====
-- src/event.c: what allocation does to the events that are in use.
use simpyc.Prelude.{
  ℕ, ◌<◌, ◌≡◌, refl, sym, ◌∙◌, ◌≢◌, ◌⊎◌, inl, inr, false, Option, none, some, List, [], ◌∷◌, arith,
  Double,
}
use simpyc.State.{unset, Env}
use simpyc.Event.{alloc_from, event_alloc}
use simpyc.Event.Pool.{Chain, mem, Distinct, Chain-outside, Chain-mem, not_mem_above}
use simpyc.Event.Validity.{IsValid}
use simpyc.Event.Alloc.{event_alloc-IsValid, event_alloc-IsFresh}
use simpyc.Scheduler.Tame.{IsOutside, IsSettled}
use simpyc.Dispatch.Held.{AreHeld-grow}
use simpyc.Dispatch.Kept.{IsReserved, IsKept, Kept}

module _ {D : Type 0} ⦃F : Double D⦄ where
  -- An allocated event outside the pool is not handed out, and stays outside.
  alloc_from-IsOutside :
      (env : Env D) (p : Option ℕ) (xs : List ℕ) (r : ℕ)
      → env.event_pool ≡ p
      → Chain env.events p xs
      → Distinct xs
      → IsValid env
      → r < env.n_events
      → IsOutside env r
      → let (e, env') = alloc_from env p in (r ≢ e) × IsOutside env' r
  unfolding alloc_from
  alloc_from-IsOutside env none xs r q c d i lt o =
      let e = env.n_events in
      let apart = not_mem_above env.events e e i.pool (omega arith) i.retired in
      let ev' = ((alloc_from env none).1).events in
      let chain : Chain ev' env.event_pool i.pool =
        Chain-outside env.events e _ env.event_pool i.pool apart i.chain in
      (
        λ same. absurd (omega (arith, same)),
        λ ys k. Chain-mem ev' r env.event_pool ys i.pool k chain ∙ o i.pool i.chain,
      )
  alloc_from-IsOutside env (some e) [] r q c d i lt o = absurd c
  alloc_from-IsOutside env (some e) (x ∷ xs) r q (ex, c) (fresh, d) i lt o =
      let apart : mem r (x ∷ xs) ≡ false = o (x ∷ xs) (rw q (ex, c)) in
      let ev' = ((alloc_from env (some e)).1).events in
      let chain : Chain ev' (env.events e).free_next xs =
        rw ex (Chain-outside env.events x _ (env.events x).free_next xs fresh c) in
      let out : mem r xs ≡ false = ground arith in
      (
        λ same. absurd (ground (arith, same, ex)),
        λ ys k. Chain-mem ev' r (env.events e).free_next ys xs k chain ∙ out,
      )

  -- The event that is handed out lies outside the pool.
  alloc_from-new :
      (env : Env D) (p : Option ℕ) (xs : List ℕ)
      → env.event_pool ≡ p
      → Chain env.events p xs
      → Distinct xs
      → IsValid env
      → let (e, env') = alloc_from env p in IsOutside env' e
  unfolding alloc_from
  alloc_from-new env none xs q c d i ys k =
      let e = env.n_events in
      let apart = not_mem_above env.events e e i.pool (omega arith) i.retired in
      let ev' = ((alloc_from env none).1).events in
      let chain : Chain ev' env.event_pool i.pool =
        Chain-outside env.events e _ env.event_pool i.pool apart i.chain in
      Chain-mem ev' e env.event_pool ys i.pool k chain ∙ apart
  alloc_from-new env (some e) [] q c d i ys k = absurd c
  alloc_from-new env (some e) (x ∷ xs) q (ex, c) (fresh, d) i ys k =
      let ev' = ((alloc_from env (some e)).1).events in
      let chain : Chain ev' (env.events e).free_next xs =
        rw ex (Chain-outside env.events x _ (env.events x).free_next xs fresh c) in
      Chain-mem ev' e (env.events e).free_next ys xs k chain ∙ rw ex fresh

  alloc_from-rest :
      (env : Env D) (p : Option ℕ)
      → let (e, env') = alloc_from env p in
        (env'.processes ≡ env.processes)
        × (env'.objects ≡ env.objects)
        × (env'.conds ≡ env.conds)
        × (env'.n_conds ≡ env.n_conds)
        × ((env'.events e).recyclable ≡ false)
        × ((x i : ℕ)
            → ((env'.events x).cbs i ≡ (env.events x).cbs i) ⊎ (((env'.events x).cbs i).fn ≡ unset))
  unfolding alloc_from
  alloc_from-rest env none = (refl, refl, refl, refl, ground arith, λ x i. ground arith)
  alloc_from-rest env (some e) = (refl, refl, refl, refl, ground arith, λ x i. ground arith)

  -- What allocation leaves alone, and what its event is like.
  pub record IsNew (env : Env D) (e : ℕ) (env' : Env D) : Type 0 where
    pub kept : Kept env env'
    pub processes : env'.processes ≡ env.processes
    pub conds : env'.conds ≡ env.conds
    pub n_conds : env'.n_conds ≡ env.n_conds
    pub reserved : IsReserved env' e
    pub unsettled : (x : ℕ) → IsSettled env x → x ≢ e
    pub unreserved : (x : ℕ) → IsReserved env x → x ≢ e

  pub event_alloc-IsNew :
      (env : Env D) → IsKept env → let (e, env') = event_alloc env in IsNew env e env'
  unfolding event_alloc
  event_alloc-IsNew env k =
      let i = k.valid in
      let p = env.event_pool in
      let (e, env') = alloc_from env p in
      let f = event_alloc-IsFresh env i in
      let (processes, objects, conds, n_conds, kept, cbs) = alloc_from-rest env p in
      let apart = λ (x : ℕ). alloc_from-IsOutside env p i.pool x refl i.chain i.distinct i in
      let reserved : (r : ℕ) → IsReserved env r → IsReserved env' r = λ r s. record {
        allocated = omega (arith, s.allocated, f.grows);
        kept = rw (f.others r (apart r s.allocated s.outside).0) s.kept;
        outside = (apart r s.allocated s.outside).1;
      } in
      record {
        kept = record {
          kept = record {
            valid = event_alloc-IsValid env i;
            resumes = λ q r h. reserved r (k.resumes q r (rw processes at h));
            dones = λ q d h. omega (arith, k.dones q d (rw processes at h), f.grows);
            outs = λ c h. rw conds (omega (arith, k.outs c (rw n_conds at h), f.grows));
            typed = λ x j h. elim (cbs x j) [
              | inl same ↦ rw (n_conds, same) (k.typed x j (rw same at h))
              | inr none_there ↦ absurd (let clash = sym none_there ∙ h in (cc))
            ];
            held = AreHeld-grow env'.objects env.n_events env'.n_events f.grows (rw objects k.held);
          };
          settled = λ x s. record {
            done = λ back.
                let same = f.others x (apart x s.allocated s.outside).0 in
                rw same (s.done (rw same at back));
            allocated = omega (arith, s.allocated, f.grows);
            outside = (apart x s.allocated s.outside).1;
          };
          reserved = reserved;
          grows = f.grows;
          conds_grow = omega (arith, n_conds);
          now = f.same_now;
        };
        processes = processes;
        conds = conds;
        n_conds = n_conds;
        reserved = record {
          allocated = f.allocated;
          kept = f.kept;
          outside = alloc_from-new env p i.pool refl i.chain i.distinct i;
        };
        unsettled = λ x s. (apart x s.allocated s.outside).0;
        unreserved = λ x s. (apart x s.allocated s.outside).0;
      }
