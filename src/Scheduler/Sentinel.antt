-- ===== src/Scheduler/Sentinel.antt =====
-- src/env.c: the end of sim_run_until, where the clock is set to the time asked for.
use simpyc.Scheduler.Tame.{IsTame}
use simpyc.Prelude.{
  ℕ, ◌<◌, ◌≡◌, ◌⊎◌, inl, inr, true, false, some, arith, Bool-cases, Option-cases, inc64, Double,
}
use simpyc.Heap.{HeapEntry, EventHeap, heap_peek}
use simpyc.Heap.Queue.{entries, root_least}
use simpyc.State.{CbPair, Env}
use simpyc.Event.Validity.{HasRoom, IsValid}
use simpyc.Scheduler.{until_loop, sim_run_until, Call, is_before, settle}
use simpyc.Scheduler.Run.{not_before_trans}
use simpyc.Heap.Contents.{count-none}
use simpyc.Scheduler.Start.{not_later}
use simpyc.Scheduler.Until.{UntilFits, until_loop-Looped, IsReached}

module _ {D : Type 0} ⦃F : Double D⦄ where
  peek-root : (h : EventHeap D) → 0 < h.len → heap_peek h ≡ some (h.cells 0)
  unfolding heap_peek
  peek-root h full = ground arith

  -- An entry that does not come before the sentinel is not due before its time.
  not_due :
      (x : HeapEntry D) (until : D) (stop : ℕ)
      → is_before x until stop ≡ false
      → F.lt x.time until ≡ false
  unfolding is_before
  not_due x until stop h = ground arith

  -- If the loop ended at the sentinel, no entry is due before its time.
  reached-on_time :
      (env : Env D) (until : D) (stop : ℕ)
      → IsValid env
      → IsReached env until stop
      → entries (λ x. F.lt x.time until) env.heap ≡ 0
  reached-on_time env until stop i over =
      count-none (λ x. F.lt x.time until) env.heap.cells env.heap.len
        λ j k.
          let full : 0 < env.heap.len = omega arith in
          let root = env.heap.cells 0 in
          not_before_trans until root.time (env.heap.cells j).time (i.heap.timed 0 full)
            (not_due root until stop (over root (peek-root env.heap full)))
            (not_later root (env.heap.cells j) (root_least env.heap i.heap j k))

  settle-IsValid :
      (env : Env D) (until : D) (stop : ℕ)
      → IsValid env
      → F.is_nan until ≡ false
      → IsReached env until stop
      → IsValid (settle until env)
  unfolding settle
  settle-IsValid env until stop i number over = elim (Bool-cases (F.lt env.now until)) [
    | inr past ↦ rw past i
    | inl ahead ↦ rw ahead (record {
      heap = i.heap;
      counted = i.counted;
      clock = (number, ground (arith, i.clock, F.lt_trans env.now until F.zero));
      on_time = reached-on_time env until stop i over;
      seq_unused = i.seq_unused;
      seq_once = i.seq_once;
      exact = i.exact;
      untouched = i.untouched;
      pool = i.pool;
      chain = i.chain;
      distinct = i.distinct;
      retired = i.retired;
    })
  ]

  settle_lem :
      (env : Env D) (until : D)
      → ((settle until env).heap ≡ env.heap)
        × ((settle until env).next_seq ≡ env.next_seq)
        × ((settle until env).rt_lagged ≡ env.rt_lagged)
        × (F.lt (settle until env).now until ≡ false)
        × (F.lt (settle until env).now env.now ≡ false)
        × (F.lt until env.now ≡ false → F.lt until (settle until env).now ≡ false)
  unfolding settle
  settle_lem env until = ground (
    arith,
    F.lt_irrefl until,
    F.lt_irrefl env.now,
    F.lt_trans until env.now until,
    F.lt_trans env.now until env.now,
  )

  empty-IsReached :
      (env : Env D) (until : D) (stop : ℕ) → env.heap.len ≡ 0 → IsReached env until stop
  unfolding heap_peek
  empty-IsReached env until stop e x f = ground arith

  settle-IsReached :
      (env : Env D) (until : D) (stop : ℕ)
      → IsValid env
      → F.is_nan until ≡ false
      → IsReached env until stop
      → IsValid (settle until env)
        × IsReached (settle until env) until stop
        × (entries (λ x. F.lt x.time until) (settle until env).heap ≡ 0)
  settle-IsReached env until stop i number over =
      let (same_heap, _, _, _, _, _) = settle_lem env until in
      (
        settle-IsValid env until stop i number over,
        λ x p. over x (rw same_heap at p),
        rw same_heap (reached-on_time env until stop i over),
      )

  module _ (call : Call D) (clock : ℕ → D) where
    sim_run_until-result :
        (fuel n : ℕ) (env env' : Env D) (until : D)
        → sim_run_until call clock fuel env until ≡ some (n, env')
        → (env₁ : Env D) × (until_loop call clock until env.next_seq fuel 0
              (record env { next_seq = inc64 env.next_seq })
            ≡ some (n, env₁))
          × (settle until env₁ ≡ env')
    unfolding sim_run_until
    sim_run_until-result fuel n env env' until e =
        let o =
          until_loop call clock until env.next_seq fuel 0
            (record env { next_seq = inc64 env.next_seq }) in
        elim (Option-cases o) [
          | inl f ↦ absurd (ground arith)
          | inr (r, f) ↦ (r.1, ground arith, ground arith)
        ]

  module _ (call : Call D) (Inv : Env D → Type 0) (Fits : CbPair → ℕ → Env D → Type 0)
      (tame : IsTame call Inv Fits) (clock : ℕ → D) where
    -- sim_run_until, whenever it returns, has not set the clock back and has brought it to the time
    -- asked for, and not beyond it unless it was beyond it at the start; and unless a strict run has
    -- fallen behind, the environment is valid, no entry of the queue comes before the sentinel, and
    -- none is due before the time asked for. This holds if that time is a number, sequence numbers
    -- last, and the callbacks keep to their interface.
    pub sim_run_until-reaches :
        (fuel n : ℕ) (env env' : Env D) (until : D)
        → Inv env
        → HasRoom env
        → F.is_nan until ≡ false
        → UntilFits call clock until env.next_seq Fits fuel 0
            (record env { next_seq = inc64 env.next_seq })
        → sim_run_until call clock fuel env until ≡ some (n, env')
        → (F.lt env'.now until ≡ false)
          × (F.lt env'.now env.now ≡ false)
          × ((F.lt until env.now ≡ true) ⊎ (F.lt until env'.now ≡ false))
          × ((env'.rt_lagged ≡ true)
              ⊎ (IsValid env'
                  × IsReached env' until env.next_seq
                  × (entries (λ x. F.lt x.time until) env'.heap ≡ 0)))
    sim_run_until-reaches fuel n env env' until i r number f e =
        let (env₁, looped, settled) = sim_run_until-result call clock fuel n env env' until e in
        let start = record env { next_seq = inc64 env.next_seq } in
        let (_, same_seq, same_lag, there, forward, stays) = settle_lem env₁ until in
        let l =
          until_loop-Looped call Inv Fits tame clock until env.next_seq fuel 0 n start env₁
            (tame.reserves env i r) f looped in
        let v = tame.valid env₁ l.kept in
        rw (← settled) (
          there,
          not_before_trans env.now env₁.now (settle until env₁).now v.clock.0 l.forward forward,
          elim (Bool-cases (F.lt until env.now)) [
            | inl past ↦ inl past
            | inr ahead ↦ inr (stays (l.within ahead))
          ],
          elim l.ended [
            | inl over ↦ inr (settle-IsReached env₁ until env.next_seq v number over)
            | inr (inl none_left) ↦ inr (
                settle-IsReached env₁ until env.next_seq v number
                  (empty-IsReached env₁ until env.next_seq none_left))
            | inr (inr lagged) ↦ inl (rw same_lag lagged)
          ],
        )
