-- ===== src/Scheduler/Step.antt =====
-- src/env.c: sim_step, for callbacks that keep to the interface.
use simpyc.Scheduler.Tame.{IsTame, IsSettled, DispatchFits, FireFits}
use simpyc.Heap.Queue.{Popped}
use simpyc.Scheduler.Start.{Popped-IsNext, started-IsValid, started}
use simpyc.Heap.{EventHeap, HeapEntry}
use simpyc.Prelude.{
  ℕ, zero, suc, ◌-◌, ◌≡◌, refl, ◌∙◌, inl, inr, false, List, arith, if◌then◌else◌, Bool-cases,
  Double,
}
use simpyc.State.{Env, CbPair}
use simpyc.Event.{recycle, run_callbacks, Call, dispatch_loop}
use simpyc.Event.Pool.{Chain-mem, Chain-touch, not_mem_live, Chain, mem}
use simpyc.Event.Validity.{IsValid}

module _ {D : Type 0} ⦃F : Double D⦄ where
  -- A triggered event was not in the pool, and so it is not when it starts to fire.
  started-outside :
      (env : Env D) (x : HeapEntry D) (h : EventHeap D) (xs : List ℕ)
      → (i : IsValid env) → Popped env.heap x h
      → Chain (started env x h).events env.event_pool xs
      → mem x.event xs ≡ false
  started-outside env x h xs i p c =
      let n = Popped-IsNext env x h i p in
      let s = started-IsValid env x h i p in
      let outside =
        not_mem_live env.events x.event env.n_events i.pool (ground (arith, n.event)) i.retired in
      Chain-mem (started env x h).events x.event env.event_pool xs i.pool c
        (Chain-touch env.events x.event _ env.event_pool i.pool refl i.chain)
      ∙ outside

  -- What sim_step does with the entry that it takes off the queue.
  unfoldable pub fire : Call D → Env D → HeapEntry D → EventHeap D → Env D
  fire call env x h = run_callbacks call (record env { heap = h; now = x.time }) x.event

  module _ (call : Call D) (Inv : Env D → Type 0) (Fits : CbPair → ℕ → Env D → Type 0)
      (tame : IsTame call Inv Fits) where
    dispatch-Inv :
        (e len left : ℕ) (env : Env D)
        → Inv env
        → IsSettled env e
        → DispatchFits call Fits e len left env
        → let env' = dispatch_loop call e len left env in
          Inv env' × IsSettled env' e × (env'.now ≡ env.now)
    unfolding dispatch_loop
    dispatch-Inv e len zero env i s f = (i, s, refl)
    dispatch-Inv e len (suc left) env i s f =
        let (i', s', now') = tame.keeps (len - suc left) e env i s f.0 in
        let (i'', s'', now'') = dispatch-Inv e len left (call _ e env) i' s' f.1 in
        (i'', s'', now'' ∙ now')

    -- The environment when the callbacks have run.
    abbrev fired : Env D → HeapEntry D → EventHeap D → Env D
    fired env x h =
        let len = (env.events x.event).cb_len in
        dispatch_loop call x.event len len (started env x h)

    started-IsSettled :
        (env : Env D) (x : HeapEntry D) (h : EventHeap D)
        → IsValid env
        → Popped env.heap x h
        → IsSettled (started env x h) x.event
    started-IsSettled env x h i p =
        let n = Popped-IsNext env x h i p in
        record {
          done = λ back. ground arith;
          allocated = n.allocated;
          outside = λ xs c. started-outside env x h xs i p c;
        }

    fire_lem :
        (env : Env D) (x : HeapEntry D) (h : EventHeap D)
        → fire call env x h ≡ (
            if ((fired env x h).events x.event).recyclable
            then recycle (fired env x h) x.event
            else fired env x h)
    unfolding fire run_callbacks
    fire_lem env x h = refl

    -- The callbacks of the entry's event keep the invariant and set the clock to the entry's time.
    pub fire-Inv :
        (env : Env D) (x : HeapEntry D) (h : EventHeap D)
        → Inv env
        → Popped env.heap x h
        → FireFits call Fits env x h
        → Inv (fire call env x h) × ((fire call env x h).now ≡ x.time)
    fire-Inv env x h i p f =
        let e = x.event in
        let len = (env.events e).cb_len in
        let (v, s, now) =
          dispatch-Inv e len len (started env x h) (tame.starts env x h i p)
            (started-IsSettled env x h (tame.valid env i) p) f in
        rw fire_lem (elim (Bool-cases ((fired env x h).events e).recyclable) [
          | inl back ↦ rw back (tame.recycles (fired env x h) e v s back, unfold recycle in now)
          | inr stays ↦ rw stays (v, now)
        ])
