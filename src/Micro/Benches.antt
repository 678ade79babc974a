-- ===== src/Micro/Benches.antt =====
-- benchmarking/c/micro.c: the benchmarks as clients. Each has a program that sets it up, which
-- sim_run then runs; the functions of its processes are numbered from 0, and the parameters `n`,
-- the shared object's address and the times 0, 1 and 1e9 are arguments. The number behind a yield
-- is the counter of the loop, and with a request in hand the counter plus `n` times the request.
use simpyc.Prelude.{
  ℕ, zero, suc, ◌+◌, ◌*◌, ◌/◌, ◌%◌, true, false, Option, some, List, [], ◌∷◌, ltb, if◌then◌else◌,
  pos, Ptr, null,
}
use simpyc.State.{Context, entry, after_yield}
use simpyc.Process.{Outcome, yields, returns}
use simpyc.Dispatch.{
  Command, make_event, make_timeout, succeed, subscribe, start_process, process_event, interrupt,
  all_of, any_of, make_resource, make_priority_resource, make_preemptive_resource, make_container,
  make_store, make_priority_store, make_filter_store, request, priority_request, preemptive_request,
  release, priority_release, preemptive_release, container_put, container_get, store_put, store_get,
  priority_store_put, priority_store_get, filter_store_put, filter_store_get, Program, finish, look,
  command, Client,
}

-- Every function of a client's processes, by its number, for a process and where it goes on.
abbrev pub Functions : Type 0 → Type 0
Functions D = ℕ → ℕ → Context → Program D Outcome

-- accept_all is the only predicate.
abbrev pub client : {D : Type 0} → Functions D → Client D
client fns = record {
  body = λ p ctx value. look (λ env. fns (env.processes p).fn p ctx);
  handler = λ fn e user. finish tt;
  filters = λ f item user. true;
}

module _ {D : Type 0} where
  unfoldable pub p_noop : Context → Program D Outcome
  p_noop ctx = finish returns

  -- A process of each of the functions, in their order.
  abbrev pub start_one : Program D (Unit {0})
  start_one = command (start_process 0 null) (λ p. finish tt)

  abbrev pub start_two : Program D (Unit {0})
  start_two = command (start_process 0 null) (λ p. command (start_process 1 null) (λ q. finish tt))

  abbrev pub b_resource : Ptr → Program D (Unit {0})
  b_resource a = command (make_resource a (pos 1)) (λ r. start_one)

  abbrev pub b_priority_resource : Ptr → Program D (Unit {0})
  b_priority_resource a = command (make_priority_resource a (pos 1)) (λ r. start_one)

  abbrev pub b_preemptive_resource : Ptr → Program D (Unit {0})
  b_preemptive_resource a = command (make_preemptive_resource a (pos 1)) (λ r. start_one)

  -- `capacity` is twice `n`, as a double.
  abbrev pub b_container : D → D → Ptr → Program D (Unit {0})
  b_container capacity empty a = command (make_container a capacity empty) (λ c. start_two)

  abbrev pub b_store : Ptr → Program D (Unit {0})
  b_store a = command (make_store a (pos 0)) (λ s. start_two)

  abbrev pub b_filter_store : Ptr → Program D (Unit {0})
  b_filter_store a = command (make_filter_store a (pos 0)) (λ s. start_two)

  abbrev pub b_priority_store : Ptr → Program D (Unit {0})
  b_priority_store a = command (make_priority_store a (pos 0)) (λ s. start_two)

  -- The loops of `main` programs that start processes and trigger events.
  unfoldable pub b_process_spawn : ℕ → Program D (Unit {0})
  b_process_spawn zero = finish tt
  b_process_spawn (suc n) = command (start_process 0 null) (λ p. b_process_spawn n)

  unfoldable pub b_event_succeed : ℕ → Program D (Unit {0})
  b_event_succeed zero = finish tt
  b_event_succeed (suc n) =
      command make_event (λ e. command (succeed e null) (λ x. b_event_succeed n))

  unfoldable pub subscribe_noop : ℕ → ℕ → Program D (Unit {0})
  subscribe_noop ev zero = command (succeed ev null) (λ x. finish tt)
  subscribe_noop ev (suc n) = command (subscribe ev 0 null) (λ x. subscribe_noop ev n)

  unfoldable pub b_callback : ℕ → Program D (Unit {0})
  unfolding subscribe_noop
  b_callback n = command make_event (λ ev. subscribe_noop ev n)

  module _ (n : ℕ) where
    -- for (i = 0; i < n; i++) sim_yield(self, ...).
    unfoldable pub yield_from : (ℕ → Command D) → ℕ → Program D Outcome
    yield_from c i = if ltb i n then command (c i) (λ e. finish (yields e i)) else finish returns

    unfoldable pub yield_each : (ℕ → Command D) → Context → Program D Outcome
    unfolding yield_from
    yield_each c entry = yield_from c 0
    yield_each c (after_yield i) = yield_from c (i + 1)

    -- A request, a yield and a release in each round.
    unfoldable pub hold_from : Command D → ℕ → Program D Outcome
    hold_from c i =
        if ltb i n then command c (λ req. finish (yields req (i + n * req))) else finish returns

    unfoldable pub hold_each : Command D → (Option ℕ → Command D) → Context → Program D Outcome
    unfolding hold_from
    hold_each c free entry = hold_from c 0
    hold_each c free (after_yield k) = command (free (some (k / n))) (λ x. hold_from c (k % n + 1))

    unfoldable pub churn_from : ℕ → Program D Outcome
    churn_from i =
        if ltb i n
        then command (start_process 1 null)
            (λ p. command (process_event p) (λ e. finish (yields e i)))
        else finish returns

    unfoldable pub churn_spawner : Context → Program D Outcome
    unfolding churn_from
    churn_spawner entry = churn_from 0
    churn_spawner (after_yield i) = churn_from (i + 1)

    -- Four timeouts of 0 and a condition on them in each round.
    unfoldable pub cond_from : D → (List ℕ → Command D) → ℕ → Program D Outcome
    cond_from now c i =
        if ltb i n
        then command (make_timeout now null) (λ a. command (make_timeout now null) (λ b.
          command (make_timeout now null) (λ d.
            command (make_timeout now null)
              (λ e. command (c (a ∷ b ∷ d ∷ e ∷ [])) (λ out. finish (yields out i))))))
        else finish returns

    unfoldable pub cond_each : D → (List ℕ → Command D) → Context → Program D Outcome
    unfolding cond_from
    cond_each now c entry = cond_from now c 0
    cond_each now c (after_yield i) = cond_from now c (i + 1)

    unfoldable pub victim_from : D → ℕ → Program D Outcome
    victim_from long cnt =
        if ltb cnt n
        then command (make_timeout long null) (λ t. finish (yields t cnt))
        else finish returns

    unfoldable pub p_victim : D → ℕ → Context → Program D Outcome
    unfolding victim_from
    p_victim long self entry = victim_from long 0
    p_victim long self (after_yield cnt) =
        look
          (λ env. victim_from long (if (env.processes self).was_interrupted then cnt + 1 else cnt))

    unfoldable pub p_driver : D → ℕ → Context → Program D Outcome
    unfolding yield_from
    p_driver now victim entry = yield_from (λ i. make_timeout now null) 0
    p_driver now victim (after_yield i) =
        command (interrupt (some victim) 1) (λ x. yield_from (λ j. make_timeout now null) (i + 1))

  -- The functions of each benchmark, and its set-up on an object at the address `a`.
  module _ (n : ℕ) where
    abbrev pub p_timeout : D → Functions D
    p_timeout one fn self ctx = yield_each n (λ i. make_timeout one null) ctx

    abbrev pub p_churn : Functions D
    p_churn zero self ctx = churn_spawner n ctx
    p_churn (suc fn) self ctx = p_noop ctx

    abbrev pub p_resource : Ptr → Functions D
    p_resource a fn self ctx = hold_each n (request a) (release a) ctx

    abbrev pub p_pres : Ptr → Functions D
    p_pres a fn self ctx = hold_each n (priority_request a (pos 0)) (priority_release a) ctx

    abbrev pub p_pre : Ptr → Functions D
    p_pre a fn self ctx =
        hold_each n (preemptive_request a (some self) (pos 0) false) (preemptive_release a) ctx

    -- The producer is the function 0 and the consumer the function 1.
    abbrev pub p_container : D → Ptr → Functions D
    p_container one a zero self ctx = yield_each n (λ i. container_put a one) ctx
    p_container one a (suc fn) self ctx = yield_each n (λ i. container_get a one) ctx

    abbrev pub p_store : Ptr → Functions D
    p_store a zero self ctx = yield_each n (λ i. store_put a i) ctx
    p_store a (suc fn) self ctx = yield_each n (λ i. store_get a) ctx

    abbrev pub p_filter_store : Ptr → Functions D
    p_filter_store a zero self ctx = yield_each n (λ i. filter_store_put a i) ctx
    p_filter_store a (suc fn) self ctx = yield_each n (λ i. filter_store_get a (some 0) null) ctx

    abbrev pub p_priority_store : Ptr → Functions D
    p_priority_store a zero self ctx = yield_each n (λ i. priority_store_put a (pos i) i) ctx
    p_priority_store a (suc fn) self ctx = yield_each n (λ i. priority_store_get a) ctx

    abbrev pub p_allof : D → Functions D
    p_allof now fn self ctx = cond_each n now (λ es. all_of es) ctx

    abbrev pub p_anyof : D → Functions D
    p_anyof now fn self ctx = cond_each n now (λ es. any_of es) ctx

    -- The victim is the function 0. It is the first process of the environment.
    abbrev pub p_interrupt : D → D → Functions D
    p_interrupt now long zero self ctx = p_victim n long self ctx
    p_interrupt now long (suc fn) self ctx = p_driver n now 0 ctx
