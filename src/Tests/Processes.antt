-- ===== src/Tests/Processes.antt =====
-- A process that is woken, and one that is interrupted.
use simpyc.Prelude.{ℕ, ◌≡◌, refl, true, false, some, arith, Ptr, null}
use simpyc.State.{Env, set_process}
use simpyc.Event.Validity.{queued}
use simpyc.Process.{process_alloc, schedule_resume, sim_process_interrupt, waiter, yield_back}
use simpyc.Process.Interrupt.{schedule_resume-coalesces, sim_process_interrupt-once}
use simpyc.Process.Woken.{IsArmed, Subscribed}
use simpyc.Scheduler.{sim_env_create}
use simpyc.Dispatch.Kept.{IsKept}
use simpyc.Dispatch.Processes.{process_alloc-Kept}
use simpyc.Dispatch.Simulation.{sim_env_create-IsKept}
use simpyc.Tests.Samples.{nat_double, ignore, junk, start}

-- Process 0 has been allocated and not been resumed yet.
abbrev allocated : Env ℕ
allocated = (process_alloc ignore start 3 null).1

allocated-IsKept : IsKept allocated
allocated-IsKept = ((process_alloc-Kept ignore start 3 null (sim_env_create-IsKept junk)).0).kept

-- It has no event of its own yet.
allocated-IsArmed : IsArmed allocated 0
unfolding process_alloc sim_env_create
allocated-IsArmed = record {
  fits = λ r e. absurd (ground arith);
  armed = λ r e t. absurd (ground arith);
}

schedule_resume-coalesces_example :
    let env' = schedule_resume ignore allocated 0 8 in
    (r : ℕ) × ((env'.processes 0).resume_ev ≡ some r)
    × (queued env' r ≡ 1)
    × Subscribed env' r 0
    × ((env'.processes 0).resume_value ≡ 8)
    × (schedule_resume ignore env' 0 9
        ≡ set_process env' 0 (record (env'.processes 0) { resume_value = 9 }))
unfolding process_alloc sim_env_create
schedule_resume-coalesces_example =
    schedule_resume-coalesces ignore allocated 0 8 9 allocated-IsKept (omega arith)
      allocated-IsArmed

sim_process_interrupt-once_example :
    let env' = sim_process_interrupt ignore allocated (some 0) 6 in
    let (value, q) = yield_back ignore (env'.processes 0) in
    ((r : ℕ) × ((env'.processes 0).resume_ev ≡ some r) × (queued env' r ≡ 1) × Subscribed env' r 0)
    × ((c : Ptr) → sim_process_interrupt ignore env' (some 0) c ≡ env')
    × ((ev : ℕ) → waiter ignore ev 0 env' ≡ env')
    × (value ≡ 6)
    × (q.was_interrupted ≡ true)
    × (q.interrupt_pending ≡ false)
    × (q.interrupt_cause ≡ null)
unfolding process_alloc sim_env_create
sim_process_interrupt-once_example =
    sim_process_interrupt-once ignore allocated 0 6 allocated-IsKept (omega arith) allocated-IsArmed
      refl refl
