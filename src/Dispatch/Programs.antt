-- ===== src/Dispatch/Programs.antt =====
-- Programs of calls of the library keep the invariant of the whole environment.
use simpyc.Prelude.{ℕ, Option, Double}
use simpyc.State.{Env, CbPair}
use simpyc.Event.{Call}
use simpyc.FilterStore.{Filters}
use simpyc.Dispatch.{Program, finish, look, command, perform, run_program}
use simpyc.Dispatch.Kept.{IsKept}
use simpyc.Dispatch.Runs.{Runs, Runs-refl, Runs-trans}
use simpyc.Dispatch.Fits.{CallKeeps, ProgramFits}
use simpyc.Dispatch.Commands.{perform-Runs}

module _ {D : Type 0} ⦃F : Double D⦄ (test : Filters) (call : Call D)
    (CallFits : CbPair → ℕ → Env D → Type 0) (here : Option ℕ)
    (keeps : CallKeeps call CallFits here) where
  -- A program of any calls of the library on events, processes, conditions, resources, containers
  -- and stores keeps the invariant of the whole environment: the queue, the pool and the events
  -- agree, each process keeps an event of its own, and each condition and each waiter of an object
  -- has an allocated event. It keeps the clock, and the event whose callbacks run does not go to the
  -- pool. This is so where each call fits: sequence numbers last, events that are named are
  -- allocated, no delay is negative, a request that is released is in use, is no process's own event
  -- and is not the event whose callbacks run, and a call at once fits too.
  pub run_program-Runs :
      {R : Type 0} (m : Program D R) (env : Env D)
      → IsKept env
      → ProgramFits test call CallFits here m env
      → Runs here env (run_program test call m env).1
  unfolding run_program
  run_program-Runs (finish r) env k f = Runs-refl here env k
  run_program-Runs (look n) env k f = run_program-Runs (n env) env k f
  run_program-Runs (command c n) env k f =
      let (x, env') = perform test call c env in
      let a = perform-Runs test call CallFits here keeps c env k f.0 in
      Runs-trans here env env' _ a (run_program-Runs (n x) env' a.kept f.1)
