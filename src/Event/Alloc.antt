-- ===== src/Event/Alloc.antt =====
-- src/event.c: allocation, timeouts and the return to the pool.
use simpyc.Prelude.{
  ℕ, ◌+◌, ◌≤◌, ◌<◌, ◌≡◌, refl, ◌≢◌, ◌⊎◌, inl, inr, true, false, Option, none, some, List, [], ◌∷◌,
  arith, Double, Ptr,
}
use simpyc.State.{Env}
use simpyc.Event.{
  is_pending, is_processed, alloc_from, event_alloc, sim_timeout_v, recycle, prio_normal,
}
use simpyc.Event.Pool.{
  Chain, mem, Distinct, Retired, Chain-outside, Retired-outside, Retired-mono, not_mem_above,
}
use simpyc.Event.Validity.{IsValid, HasRoom, IsTime, queued}
use simpyc.Event.Trigger.{trigger-IsValid}

module _ {D : Type 0} ⦃F : Double D⦄ where
  alloc_from-IsValid :
      (env : Env D) (p : Option ℕ) (xs : List ℕ)
      → Chain env.events p xs
      → Distinct xs
      → Retired env.events env.n_events xs
      → IsValid env
      → IsValid (alloc_from env p).1
  unfolding alloc_from
  alloc_from-IsValid env none xs c d r i =
      let e = env.n_events in
      let outside = not_mem_above env.events e e i.pool (omega arith) i.retired in
      record {
        heap = i.heap;
        counted = i.counted;
        clock = i.clock;
        on_time = i.on_time;
        seq_unused = i.seq_unused;
        seq_once = i.seq_once;
        exact = λ x. ground (arith, i.exact x, i.untouched x);
        untouched = λ x h. ground (arith, i.untouched x);
        pool = i.pool;
        chain = Chain-outside env.events e _ env.event_pool i.pool outside i.chain;
        distinct = i.distinct;
        retired =
            Retired-outside env.events e _ (e + 1) i.pool outside
              (Retired-mono env.events e (e + 1) i.pool (omega arith) i.retired);
      }
  alloc_from-IsValid env (some e) [] c d r i = absurd c
  alloc_from-IsValid env (some e) (x ∷ xs) (ex, c) (fresh, d) (done, lt, r) i = record {
    heap = i.heap;
    counted = i.counted;
    clock = i.clock;
    on_time = i.on_time;
    seq_unused = i.seq_unused;
    seq_once = i.seq_once;
    exact = λ a. ground (arith, i.exact a);
    untouched = λ a h. ground (arith, i.untouched a h);
    pool = xs;
    chain = rw ex (Chain-outside env.events x _ (env.events x).free_next xs fresh c);
    distinct = d;
    retired = rw ex (Retired-outside env.events x _ env.n_events xs fresh r);
  }

  -- Allocation keeps a valid environment valid, whether the event comes from the pool or from
  -- fresh memory.
  pub event_alloc-IsValid : (env : Env D) → IsValid env → IsValid (event_alloc env).1
  unfolding event_alloc
  event_alloc-IsValid env i =
      alloc_from-IsValid env env.event_pool i.pool i.chain i.distinct i.retired i

  -- What event_alloc promises: the event is pending, with no subscription and in no queue; it was
  -- not in use; and no other event changes.
  pub record IsFresh (env : Env D) (e : ℕ) (env' : Env D) : Type 0 where
    pub allocated : e < env'.n_events
    pub waits : is_pending (env'.events e).state ≡ true
    pub ok : (env'.events e).ok ≡ true
    pub silent : (env'.events e).cb_len ≡ 0
    pub kept : (env'.events e).recyclable ≡ false
    pub idle : queued env' e ≡ 0
    pub unused : (env.n_events ≤ e) ⊎ (is_processed (env.events e).state ≡ true)
    pub others : (x : ℕ) → x ≢ e → env'.events x ≡ env.events x
    pub grows : env.n_events ≤ env'.n_events
    pub same_heap : env'.heap ≡ env.heap
    pub same_seq : env'.next_seq ≡ env.next_seq
    pub same_now : env'.now ≡ env.now

  alloc_from-IsFresh :
      (env : Env D) (p : Option ℕ) (xs : List ℕ)
      → Chain env.events p xs
      → Retired env.events env.n_events xs
      → IsValid env
      → let (e, env') = alloc_from env p in IsFresh env e env'
  unfolding alloc_from
  alloc_from-IsFresh env none xs c r i = record {
    allocated = omega arith;
    waits = ground arith;
    ok = ground arith;
    silent = ground arith;
    kept = ground arith;
    idle = ground (arith, i.exact env.n_events, i.untouched env.n_events);
    unused = inl (omega arith);
    others = λ x ne. ground arith;
    grows = omega arith;
    same_heap = refl;
    same_seq = refl;
    same_now = refl;
  }
  alloc_from-IsFresh env (some e) [] c r i = absurd c
  alloc_from-IsFresh env (some e) (x ∷ xs) (ex, c) (done, lt, r) i = record {
    allocated = omega arith;
    waits = ground arith;
    ok = ground arith;
    silent = ground arith;
    kept = ground arith;
    idle = ground (arith, i.exact e);
    unused = inr (rw ex done);
    others = λ x ne. ground arith;
    grows = omega arith;
    same_heap = refl;
    same_seq = refl;
    same_now = refl;
  }

  -- In a valid environment event_alloc hands out a pending event that was new or processed, that
  -- is not in the queue and has no subscription, and changes no other event, nor the queue or the
  -- clock.
  pub event_alloc-IsFresh :
      (env : Env D) → IsValid env → let (e, env') = event_alloc env in IsFresh env e env'
  unfolding event_alloc
  event_alloc-IsFresh env i = alloc_from-IsFresh env env.event_pool i.pool i.chain i.retired i

  -- While sequence numbers last, a timeout whose delay is a number that is not negative keeps a
  -- valid environment valid; nothing in the queue is overdue behind it.
  pub sim_timeout_v-IsValid :
      (env : Env D) (delay : D) (value : Ptr)
      → IsValid env
      → HasRoom env
      → IsTime delay
      → IsValid (sim_timeout_v env delay value).1
  unfolding sim_timeout_v
  sim_timeout_v-IsValid env delay value i r d =
      let f = event_alloc-IsFresh env i in
      let (e, env') = event_alloc env in
      trigger-IsValid env' e _ delay prio_normal (event_alloc-IsValid env i) (rw f.same_seq r)
        f.allocated f.waits refl refl d

  -- The return of a processed event to the pool keeps the environment valid, unless it is there
  -- already.
  pub recycle-IsValid :
      (env : Env D) (e : ℕ) (i : IsValid env)
      → is_processed (env.events e).state ≡ true
      → e < env.n_events
      → mem e i.pool ≡ false
      → IsValid (recycle env e)
  unfolding recycle
  recycle-IsValid env e i done lt outside = record {
    heap = i.heap;
    counted = i.counted;
    clock = i.clock;
    on_time = i.on_time;
    seq_unused = i.seq_unused;
    seq_once = i.seq_once;
    exact = λ a. ground (arith, i.exact a);
    untouched = λ a h. ground (arith, i.untouched a h);
    pool = e ∷ i.pool;
    chain =
        (let link : ((recycle env e).events e).free_next ≡ env.event_pool = ground arith in
          (refl, rw link (Chain-outside env.events e _ env.event_pool i.pool outside i.chain)));
    distinct = (outside, i.distinct);
    retired =
        (ground arith, lt, Retired-outside env.events e _ env.n_events i.pool outside i.retired);
  }
