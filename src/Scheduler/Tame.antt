-- ===== src/Scheduler/Tame.antt =====
-- src/env.c: what the scheduler relies on in the callbacks that it runs.
use simpyc.Scheduler.{is_behind}
use simpyc.Event.Alloc.{recycle-IsValid}
use simpyc.Heap.Queue.{Popped}
use simpyc.Scheduler.Start.{started-IsValid, started}
use simpyc.Heap.{heap_pop, EventHeap, HeapEntry}
use simpyc.Prelude.{
  ℕ, zero, suc, ◌-◌, ◌<◌, ◌≡◌, refl, ◌⊎◌, true, false, Option, none, some, List, arith, inc64,
  Double,
}
use simpyc.State.{Env, CbPair}
use simpyc.Event.{recycle, Call, is_processed}
use simpyc.Event.Pool.{Chain, mem}
use simpyc.Event.Validity.{SameQueue-IsValid, IsValid, HasRoom}

module _ {D : Type 0} ⦃F : Double D⦄ where
  -- The event does not lie in the pool.
  abbrev pub IsOutside : Env D → ℕ → Type 0
  IsOutside env e = (xs : List ℕ) → Chain env.events env.event_pool xs → mem e xs ≡ false

  -- An event whose callbacks run: nobody has put it into the pool, and if it will be put there
  -- behind them then it is still processed.
  pub record IsSettled (env : Env D) (e : ℕ) : Type 0 where
    pub done : (env.events e).recyclable ≡ true → is_processed (env.events e).state ≡ true
    pub allocated : e < env.n_events
    pub outside : IsOutside env e

  -- What the scheduler relies on in the callbacks. They have an invariant, at least that the
  -- environment is valid, which the scheduler's own steps keep. A callback keeps it too where it
  -- fits, which is to say that it does not run out of sequence numbers; it never sets the clock, and
  -- it does not release the event that it is called for.
  pub record IsTame (call : Call D) (Inv : Env D → Type 0) (Fits : CbPair → ℕ → Env D → Type 0)
      : Type 0 where
    pub valid : (env : Env D) → Inv env → IsValid env
    pub keeps :
        (i e : ℕ) (env : Env D)
        → Inv env
        → IsSettled env e
        → let cb = (env.events e).cbs i in
          Fits cb e env
          → Inv (call cb e env) × IsSettled (call cb e env) e × ((call cb e env).now ≡ env.now)
    pub starts :
        (env : Env D) (x : HeapEntry D) (h : EventHeap D)
        → Inv env
        → Popped env.heap x h
        → Inv (started env x h)
    pub recycles :
        (env : Env D) (e : ℕ)
        → Inv env
        → IsSettled env e
        → (env.events e).recyclable ≡ true
        → Inv (recycle env e)
    pub lags : (env : Env D) → Inv env → Inv (record env { rt_lagged = true })
    pub reserves :
        (env : Env D) → Inv env → HasRoom env → Inv (record env { next_seq = inc64 env.next_seq })

  module _ (call : Call D) (Fits : CbPair → ℕ → Env D → Type 0) where
    -- Each callback of the event fits where it is called.
    abbrev pub DispatchFits : ℕ → ℕ → ℕ → Env D → Type 0
    DispatchFits e len zero env = Unit
    DispatchFits e len (suc left) env =
        let cb = (env.events e).cbs (len - suc left) in
        Fits cb e env × DispatchFits e len left (call cb e env)

    abbrev pub FireFits : Env D → HeapEntry D → EventHeap D → Type 0
    FireFits env x h =
        let len = (env.events x.event).cb_len in DispatchFits x.event len len (started env x h)

    -- The callbacks that a step runs fit, by what heap_pop returns.
    abbrev pub PoppedFits : D → Env D → Option (HeapEntry D × EventHeap D) → Type 0
    PoppedFits wall env none = Unit
    PoppedFits wall env (some (x, h)) = (is_behind env x wall ≡ true) ⊎ FireFits env x h

    abbrev pub StepFits : D → Env D → Type 0
    StepFits wall env = PoppedFits wall env (heap_pop env.heap)

  -- Validity does not hang on the mark of the lag.
  pub lag-IsValid : (env : Env D) → IsValid env → IsValid (record env { rt_lagged = true })
  lag-IsValid env i =
      SameQueue-IsValid env (record env { rt_lagged = true })
        (record {
          now = refl;
          next_seq = refl;
          heap = refl;
          events = refl;
          n_events = refl;
          event_pool = refl;
        })
        i

  -- Taking the sentinel's number keeps the environment valid.
  pub reserve-IsValid :
      (env : Env D)
      → IsValid env
      → HasRoom env
      → IsValid (record env { next_seq = inc64 env.next_seq })
  reserve-IsValid env i r = record {
    heap = i.heap;
    counted = omega (arith, i.counted);
    clock = i.clock;
    on_time = i.on_time;
    seq_unused = λ s h. i.seq_unused s (omega arith);
    seq_once = i.seq_once;
    exact = i.exact;
    untouched = i.untouched;
    pool = i.pool;
    chain = i.chain;
    distinct = i.distinct;
    retired = i.retired;
  }

  -- Callbacks that only need a valid environment, such as those of a user who calls the library.
  pub record IsPlain (call : Call D) (Fits : CbPair → ℕ → Env D → Type 0) : Type 0 where
    pub keeps :
        (cb : CbPair) (e : ℕ) (env : Env D)
        → IsValid env
        → IsSettled env e
        → Fits cb e env
        → IsValid (call cb e env) × IsSettled (call cb e env) e
    pub clock : (cb : CbPair) (e : ℕ) (env : Env D) → (call cb e env).now ≡ env.now

  pub IsPlain-IsTame :
      (call : Call D) (Fits : CbPair → ℕ → Env D → Type 0)
      → IsPlain call Fits
      → IsTame call IsValid Fits
  IsPlain-IsTame call Fits p = record {
    valid = λ env i. i;
    keeps = λ k e env i s f.
        let cb = (env.events e).cbs k in
        let (i', s') = p.keeps cb e env i s f in (i', s', p.clock cb e env);
    starts = started-IsValid;
    recycles = λ env e i s back.
        recycle-IsValid env e i (s.done back) s.allocated (s.outside i.pool i.chain);
    lags = λ env i. lag-IsValid env i;
    reserves = reserve-IsValid;
  }
