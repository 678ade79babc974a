-- ===== src/Dispatch/Runs.antt =====
-- What programs and callbacks do to the environment. They may release a request, whose event then
-- goes to the pool, so what is promised of settled events is promised of one only: the event whose
-- callbacks run.
use simpyc.Prelude.{
  ℕ, ◌≤◌, ◌≡◌, refl, ◌∙◌, ◌≢◌, inl, inr, true, false, Option, none, some, ◌∷◌, arith, ◌==◌,
  Bool-cases, Double, Ptr,
}
use simpyc.State.{Env}
use simpyc.Event.{sim_event_succeed, event_schedule, recycle, recycle_request, is_processed}
use simpyc.Event.Pool.{Chain, mem, Chain-mem, Chain-outside}
use simpyc.Event.Alloc.{recycle-IsValid}
use simpyc.Scheduler.Tame.{IsOutside, IsSettled}
use simpyc.Dispatch.Kept.{IsKept, Kept, Kept-refl}

module _ {D : Type 0} ⦃F : Double D⦄ where
  -- `here` is the event whose callbacks run, if any does.
  pub record Runs (here : Option ℕ) (env env' : Env D) : Type 0 where
    pub kept : IsKept env'
    pub settled : (x : ℕ) → here ≡ some x → IsSettled env x → IsSettled env' x
    pub grows : env.n_events ≤ env'.n_events
    pub conds_grow : env.n_conds ≤ env'.n_conds
    pub now : env'.now ≡ env.now

  pub Kept-Runs : (here : Option ℕ) (a b : Env D) → Kept a b → Runs here a b
  Kept-Runs here a b k = record {
    kept = k.kept;
    settled = λ x e. k.settled x;
    grows = k.grows;
    conds_grow = k.conds_grow;
    now = k.now;
  }

  pub Runs-refl : (here : Option ℕ) (env : Env D) → IsKept env → Runs here env env
  Runs-refl here env k = Kept-Runs here env env (Kept-refl env k)

  pub Runs-trans : (here : Option ℕ) (a b c : Env D) → Runs here a b → Runs here b c → Runs here a c
  Runs-trans here a b c k l = record {
    kept = l.kept;
    settled = λ x e s. l.settled x e (k.settled x e s);
    grows = omega (arith, k.grows, l.grows);
    conds_grow = omega (arith, k.conds_grow, l.conds_grow);
    now = l.now ∙ k.now;
  }

  -- The event is no process's own.
  abbrev pub IsApart : Env D → ℕ → Type 0
  IsApart env e = (p : ℕ) → (env.processes p).resume_ev ≢ some e

  module _ (env : Env D) (e : ℕ) (k : IsKept env) (s : IsSettled env e)
      (done : is_processed (env.events e).state ≡ true) where
    -- Another event stays outside the pool.
    recycle-IsOutside : (x : ℕ) → x ≢ e → IsOutside env x → IsOutside (recycle env e) x
    unfolding recycle
    recycle-IsOutside x other o ys c =
        let i = k.valid in
        let ev' = (recycle env e).events in
        let link : (ev' e).free_next ≡ env.event_pool = ground arith in
        let rest : Chain ev' env.event_pool i.pool =
          Chain-outside env.events e _ env.event_pool i.pool (s.outside i.pool i.chain) i.chain in
        let chain : Chain ev' (some e) (e ∷ i.pool) = (refl, rw link rest) in
        let apart : (x == e) ≡ false = ground (arith, other) in
        let free : mem x i.pool ≡ false = o i.pool i.chain in
        Chain-mem ev' x (some e) ys (e ∷ i.pool) c chain ∙ ground (arith, apart, free)

    -- A processed event that is no process's own goes to the pool.
    pub recycle-IsKept : IsApart env e → IsKept (recycle env e)
    unfolding recycle
    recycle-IsKept apart =
        let i = k.valid in
        let out = s.outside i.pool i.chain in
        record {
          valid = recycle-IsValid env e i done s.allocated out;
          resumes = λ p r q.
              let t = k.resumes p r q in
              let other : r ≢ e = λ same. apart p (rw same at q) in
              record {
                allocated = t.allocated;
                kept = ground (arith, t.kept);
                outside = recycle-IsOutside r other t.outside;
              };
          dones = k.dones;
          outs = k.outs;
          typed = λ x j q. ground (arith, k.typed x j, k.typed e j, q);
          held = k.held;
        }

    pub recycle-Runs :
        (here : Option ℕ) → IsApart env e → here ≢ some e → Runs here env (recycle env e)
    unfolding recycle
    recycle-Runs here apart elsewhere = record {
      kept = recycle-IsKept apart;
      settled = λ x at_x t.
          let other : x ≢ e = λ same. elsewhere (rw same at at_x) in
          record {
            done = ground (arith, other, t.done);
            allocated = t.allocated;
            outside = recycle-IsOutside x other t.outside;
          };
      grows = omega arith;
      conds_grow = omega arith;
      now = refl;
    }

  -- Where the request of a release may go to the pool: it is settled, no process's own, and not the
  -- event whose callbacks run.
  abbrev pub ReleaseFits : Option ℕ → Option ℕ → Env D → Type 0
  ReleaseFits here none env = Unit
  ReleaseFits here (some e) env = IsSettled env e × IsApart env e × (here ≢ some e)

  -- The end of a release, behind what kept the invariant and the processes.
  pub recycle_request-Runs :
      (here : Option ℕ) (req : Option ℕ) (env env' : Env D)
      → Kept env env'
      → env'.processes ≡ env.processes
      → ReleaseFits here req env
      → Runs here env (recycle_request env' req)
  unfolding recycle_request
  recycle_request-Runs here none env env' k same f = Kept-Runs here env env' k
  recycle_request-Runs here (some e) env env' k same (s, apart, elsewhere) =
      elim (Bool-cases (is_processed (env'.events e).state)) [
        | inr waits ↦ rw waits (Kept-Runs here env env' k)
        | inl done ↦ rw done (
            Runs-trans here env env' (recycle env' e) (Kept-Runs here env env' k)
              (recycle-Runs env' e k.kept (k.settled e s) done here (rw same apart) elsewhere))
      ]

  pub succeed-processes :
      (env : Env D) (e : ℕ) (value : Ptr)
      → (sim_event_succeed env e value).processes ≡ env.processes
  unfolding sim_event_succeed event_schedule
  succeed-processes env e value = ground arith
