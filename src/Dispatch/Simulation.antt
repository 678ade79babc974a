-- ===== src/Dispatch/Simulation.antt =====
-- A whole simulation: src/env.c with src/event.c, src/process.c and src/cond.c, and a client.
use simpyc.Prelude.{ℕ, zero, suc, ◌<◌, ◌≡◌, Option, none, some, arith, Double}
use simpyc.Heap.{Cells}
use simpyc.State.{Env, CbPair, cond_cb}
use simpyc.Event.{Call}
use simpyc.Scheduler.{sim_env_create, sim_run}
use simpyc.Scheduler.Create.{sim_env_create-IsValid}
use simpyc.Scheduler.Run.{Ran, IsOver, RunFits, sim_run-Ran}
use simpyc.Scheduler.Tame.{IsTame}
use simpyc.Dispatch.{Client, Program, run_program, dispatch}
use simpyc.Dispatch.Kept.{IsKept}
use simpyc.Dispatch.Fits.{CallKeeps, ProgramFits}
use simpyc.Dispatch.Programs.{run_program-Runs}
use simpyc.Dispatch.Callbacks.{CallbackFits, dispatch-Runs}
use simpyc.Dispatch.Interface.{EventFits, dispatch-IsTame}

module _ {D : Type 0} ⦃F : Double D⦄ where
  pub sim_env_create-IsKept : (junk : Cells D) → IsKept (sim_env_create junk)
  unfolding sim_env_create
  sim_env_create-IsKept junk = record {
    valid = sim_env_create-IsValid junk;
    resumes = λ p r h. absurd (cc);
    dones = λ p d h. absurd (cc);
    outs = λ c h. absurd (omega arith);
    typed = λ e i h. absurd (cc);
    held = record {
      resources = λ a. tt;
      priority_resources = λ a. tt;
      preemptive_resources = λ a. tt;
      containers = λ a. record { gets = tt; puts = tt };
      stores = λ a. record { gets = tt; puts = tt };
      priority_stores = λ a. record { gets = tt; puts = tt };
      filter_stores = λ a. record { gets = tt; puts = tt };
    };
  }

  module _ (client : Client D) where
    -- The callbacks, where calls at once from subscriptions to processed events nest at most so
    -- deep.
    unfoldable pub nested : ℕ → Call D
    unfolding dispatch
    nested zero cb e env = env
    nested (suc depth) cb e env = dispatch (nested depth) client cb e env

    -- No call fits at depth 0, so what is said of a run holds if the calls nest less deep.
    abbrev pub NestedFits : ℕ → Option ℕ → CbPair → ℕ → Env D → Type 0
    NestedFits zero here cb e env = ⊥
    NestedFits (suc depth) here cb e env =
        (cb.fn ≡ cond_cb → cb.user < env.n_conds)
        × CallbackFits (nested depth) (NestedFits depth here) client here cb e env

    pub nested-CallKeeps :
        (depth : ℕ) (here : Option ℕ) → CallKeeps (nested depth) (NestedFits depth here) here
    unfolding nested
    nested-CallKeeps zero here cb e env k f = absurd f
    nested-CallKeeps (suc depth) here cb e env k f =
        dispatch-Runs (nested depth) (NestedFits depth here) client here
          (nested-CallKeeps depth here) cb e env k f.0 f.1

    abbrev pub CallbacksFit : ℕ → CbPair → ℕ → Env D → Type 0
    CallbacksFit depth = EventFits (nested depth) (NestedFits depth) client

    pub nested-IsTame :
        (depth : ℕ) → IsTame (dispatch (nested depth) client) IsKept (CallbacksFit depth)
    nested-IsTame depth =
        dispatch-IsTame (nested depth) (NestedFits depth) client (nested-CallKeeps depth)

    -- A simulation that a program of the client sets up and sim_run runs, with the processes and
    -- callbacks of the client, which work by calls of the library on events, processes, conditions,
    -- resources, containers and stores: whenever it returns, the clock has not gone back, the queue
    -- is empty or a strict run has fallen behind, and the invariant of events, processes, conditions
    -- and waiters holds. This is so as long as sequence numbers last, the client names allocated
    -- events, asks for no negative delay, and releases with a request whose event is in use, is no
    -- process's own and is not the one whose callbacks run.
    pub simulation-Ran :
        (depth : ℕ) (main : Program D (Unit {0})) (junk : Cells D) (clock : ℕ → D) (fuel m : ℕ)
        (env' : Env D)
        → let call = dispatch (nested depth) client in
          let start = (run_program client.filters (nested depth) main (sim_env_create junk)).1 in
          ProgramFits client.filters
            (nested depth)
            (NestedFits depth none)
            none
            main
            (sim_env_create junk)
          → RunFits call (CallbacksFit depth) clock fuel 0 start
          → sim_run call clock fuel 0 start ≡ some (m, env')
          → Ran IsKept start env' × IsOver env'
    simulation-Ran depth main junk clock fuel m env' fits runs e =
        let start =
          run_program-Runs client.filters (nested depth) (NestedFits depth none) none
            (nested-CallKeeps depth none) main (sim_env_create junk) (sim_env_create-IsKept junk)
            fits in
        sim_run-Ran (dispatch (nested depth) client) IsKept (CallbacksFit depth)
          (nested-IsTame depth) clock fuel 0 m _ env' start.kept runs e
