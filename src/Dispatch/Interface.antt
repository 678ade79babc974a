-- ===== src/Dispatch/Interface.antt =====
-- The scheduler of src/env.c with the callbacks that the library and its clients subscribe.
use simpyc.Prelude.{Option, ℕ, ◌≡◌, refl, Bool, true, some, arith, inc64, Double}
use simpyc.Heap.{HeapEntry, EventHeap}
use simpyc.Heap.Queue.{Popped}
use simpyc.State.{Env, CbPair, processed}
use simpyc.Event.{Call}
use simpyc.Event.Validity.{IsValid}
use simpyc.Scheduler.Start.{started, started-IsValid}
use simpyc.Scheduler.Tame.{IsTame, lag-IsValid, reserve-IsValid}
use simpyc.Dispatch.{Client, dispatch}
use simpyc.Dispatch.Kept.{IsKept, IsFair, written-IsReserved}
use simpyc.Dispatch.Fits.{CallKeeps}
use simpyc.Dispatch.Runs.{IsApart, recycle-IsKept}
use simpyc.Dispatch.Callbacks.{CallbackFits, dispatch-Runs}

module _ {D : Type 0} ⦃F : Double D⦄ where
  -- A change that leaves the events, the processes and the conditions alone.
  same-IsKept :
      (env : Env D) (h : EventHeap D) (n : ℕ) (lag : Bool)
      → IsKept env
      → let env' = record env { heap = h; next_seq = n; rt_lagged = lag } in
        IsValid env' → IsKept env'
  same-IsKept env h n lag k valid = record {
    valid = valid;
    resumes = λ p r q.
        let s = k.resumes p r q in
        record { allocated = s.allocated; kept = s.kept; outside = s.outside };
    dones = k.dones;
    outs = k.outs;
    typed = k.typed;
    held = k.held;
  }

  started-IsKept :
      (env : Env D) (x : HeapEntry D) (h : EventHeap D)
      → IsKept env
      → Popped env.heap x h
      → IsKept (started env x h)
  started-IsKept env x h k p =
      let e = x.event in
      let v = record (env.events e) { state = processed; cb_len = 0 } in
      let fair : IsFair env e v = record {
        link = refl;
        settles = λ s back. refl;
        reserves = λ s. s.kept;
        typed = λ i q. k.typed e i q;
      } in
      record {
        valid = started-IsValid env x h k.valid p;
        resumes = λ q r s.
            let t = written-IsReserved env e v h env.next_seq r k.valid fair (k.resumes q r s) in
            record { allocated = t.allocated; kept = t.kept; outside = t.outside };
        dones = k.dones;
        outs = k.outs;
        typed = λ y i q. ground (arith, k.typed y i, k.typed e i, q);
        held = k.held;
      }

  resumes-IsApart :
      (env : Env D) (e : ℕ) → IsKept env → (env.events e).recyclable ≡ true → IsApart env e
  resumes-IsApart env e k back p q =
      absurd (let s = k.resumes p e q in ground (arith, s.kept, back))

  module _ (call : Call D) (CallFits : Option ℕ → CbPair → ℕ → Env D → Type 0)
      (client : Client D) where
    -- Where a callback fits that an event of its own calls.
    abbrev pub EventFits : CbPair → ℕ → Env D → Type 0
    EventFits cb e env = CallbackFits call (CallFits (some e)) client (some e) cb e env

  module _ (call : Call D) (CallFits : Option ℕ → CbPair → ℕ → Env D → Type 0) (client : Client D)
      (keeps : (here : Option ℕ) → CallKeeps call (CallFits here) here) where
    -- Whatever a client's processes and callbacks do by calls of the library that fit, together with
    -- resume_cb, waiter_cb and cond_cb they keep to what the scheduler relies on; a callback that a
    -- subscription to a processed event calls at once is assumed to keep the invariant too.
    pub dispatch-IsTame : IsTame (dispatch call client) IsKept (EventFits call CallFits client)
    dispatch-IsTame = record {
      valid = λ env k. k.valid;
      keeps = λ i e env k s f.
          let a =
            dispatch-Runs call (CallFits (some e)) client (some e) (keeps (some e))
              ((env.events e).cbs i) e env k (k.typed e i) f in
          (a.kept, a.settled e refl s, a.now);
      starts = started-IsKept;
      recycles =
          λ env e k s back. recycle-IsKept env e k s (s.done back) (resumes-IsApart env e k back);
      lags = λ env k. same-IsKept env env.heap env.next_seq true k (lag-IsValid env k.valid);
      reserves = λ env k room.
          same-IsKept env env.heap (inc64 env.next_seq) env.rt_lagged k
            (reserve-IsValid env k.valid room);
    }
