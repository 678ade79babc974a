-- ===== src/Scheduler/Lag.antt =====
-- src/env.c: sim_run_until when a strict run falls behind the wall clock.
use simpyc.Prelude.{ℕ, suc, ◌≡◌, refl, true, false, some, arith, inc64, Double}
use simpyc.Heap.{HeapEntry, heap_peek}
use simpyc.Heap.Queue.{heap_pop_correct}
use simpyc.State.{Env}
use simpyc.Event.{Call}
use simpyc.Event.Validity.{IsValid}
use simpyc.Scheduler.{
  until_loop, is_before, settle, sim_run_until, sim_step, is_behind, round_at, step_at,
}
use simpyc.Scheduler.Start.{Popped-IsNext}
use simpyc.Scheduler.Advance.{peek-full, pop-peek}

module _ {D : Type 0} ⦃F : Double D⦄ (call : Call D) (clock : ℕ → D) where
  late_step :
      (wall : D) (env : Env D) (x : HeapEntry D)
      → heap_peek env.heap ≡ some x
      → is_behind env x wall ≡ true
      → sim_step call wall env ≡ (false, record env { rt_lagged = true })
  unfolding sim_step step_at
  late_step wall env x e behind = ground arith

  late_loop :
      (until : D) (stop fuel n : ℕ) (env : Env D) (x : HeapEntry D)
      → heap_peek env.heap ≡ some x
      → is_before x until stop ≡ true
      → is_behind env x (clock n) ≡ true
      → until_loop call clock until stop (suc fuel) n env
        ≡ some (n, record env { rt_lagged = true })
  unfolding until_loop round_at
  late_loop until stop fuel n env x e before behind =
      ground (arith, late_step (clock n) env x e behind)

  early-is_before :
      (x : HeapEntry D) (until : D) (stop : ℕ)
      → F.lt x.time until ≡ true
      → is_before x until stop ≡ true
  unfolding is_before
  early-is_before x until stop h = rw h

  is_behind-reserved :
      (env : Env D) (x : HeapEntry D) (wall : D) (stop : ℕ)
      → is_behind env x wall ≡ true
      → is_behind (record env { next_seq = stop }) x wall ≡ true
  unfolding is_behind
  is_behind-reserved env x wall stop h = h

  -- The environment that a strict run leaves when it falls behind at once.
  abbrev left_behind : Env D → D → Env D
  left_behind env until = record env {
    next_seq = inc64 env.next_seq;
    rt_lagged = true;
    now = until;
  }

  -- When a strict run is behind at the first entry, which is due before the time asked for,
  -- sim_run_until gives up and yet sets the clock to that time, past the entry, which stays in the
  -- queue: the environment that it leaves is not valid.
  pub sim_run_until-overshoots :
      (fuel : ℕ) (env : Env D) (until : D) (x : HeapEntry D)
      → IsValid env
      → heap_peek env.heap ≡ some x
      → F.lt x.time until ≡ true
      → is_behind env x (clock 0) ≡ true
      → (env' : Env D) × (sim_run_until call clock (suc fuel) env until ≡ some (0, env'))
        × (env'.now ≡ until)
        × (heap_peek env'.heap ≡ some x)
        × (¬ IsValid env')
  unfolding sim_run_until settle
  sim_run_until-overshoots fuel env until x i e early behind =
      let start = record env { next_seq = inc64 env.next_seq } in
      let looped =
        late_loop until env.next_seq fuel 0 start x e (early-is_before x until env.next_seq early)
          (is_behind-reserved env x (clock 0) (inc64 env.next_seq) behind) in
      let (y, h, popped, p) = heap_pop_correct env.heap i.heap (peek-full call env.heap x e) in
      let same = pop-peek call env.heap x y h e popped in
      let forward : F.lt x.time env.now ≡ false = rw same at (Popped-IsNext env y h i p).forward in
      let ahead : F.lt env.now until ≡ true =
        ground (arith, F.lt_weak x.time env.now until, i.clock) in
      (
        left_behind env until,
        ground (arith, looped),
        refl,
        e,
        λ v. absurd (ground (arith, same, p.taken (λ z. F.lt z.time until), v.on_time)),
      )
