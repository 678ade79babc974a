-- ===== src/Bench.antt =====
-- examples/bench.c: many processes that yield many timeouts. The counters and the measuring of the
-- time are left out; they only print. `one` is the delay of 1.0.
use simpyc.Prelude.{ℕ, zero, suc, ◌+◌, true, ltb, if◌then◌else◌, null}
use simpyc.State.{Context, entry, after_yield}
use simpyc.Process.{Outcome, yields, returns}
use simpyc.Dispatch.{Program, finish, command, make_timeout, start_process, Client}

module _ {D : Type 0} (one : D) (n_yields : ℕ) where
  -- The test of the loop at `i`, and its body up to the yield.
  unfoldable pub loop_from : ℕ → Program D Outcome
  loop_from i =
      if ltb i n_yields
      then command (make_timeout one null) (λ t. finish (yields t i))
      else finish returns

  unfoldable pub runner : Context → Program D Outcome
  unfolding loop_from
  runner entry = loop_from 0
  runner (after_yield i) = loop_from (i + 1)

  unfoldable pub bench : Client D
  unfolding runner
  bench = record {
    filters = λ n item user. true;
    body = λ p ctx value. runner ctx;
    handler = λ fn e user. finish tt;
  }

module _ {D : Type 0} where
  -- The loop of `main` that starts the processes.
  unfoldable pub spawn : ℕ → Program D (Unit {0})
  spawn zero = finish tt
  spawn (suc n) = command (start_process 0 null) (λ p. spawn n)
