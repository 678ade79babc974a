-- ===== src/Event/Trigger.antt =====
-- src/event.c: triggering an event keeps the environment valid and fires the event once.
use simpyc.Prelude.{
  ℕ, ◌+◌, ◌^◌, ◌<◌, ◌≡◌, refl, ◌≢◌, inl, inr, Bool, true, false, arith, ◌==◌, Bool-cases, ℤ, Double,
  Ptr,
}
use simpyc.Heap.{HeapEntry}
use simpyc.Heap.Contents.{bit}
use simpyc.Heap.Queue.{heap_push-len, entries, heap_push-IsValidHeap, entries-heap_push}
use simpyc.State.{Env, SimEvent, triggered, set_event}
use simpyc.Event.{
  is_pending, is_triggered, event_schedule, sim_event_succeed, sim_event_fail, prio_normal,
}
use simpyc.Event.Pool.{mem, Chain-touch, Retired-outside, not_mem_live}
use simpyc.Event.Validity.{IsValid, HasRoom, IsTime}

module _ {D : Type 0} ⦃F : Double D⦄ where
  -- The entry that event_schedule makes.
  abbrev pub new_entry : Env D → ℕ → D → ℤ → HeapEntry D
  new_entry env e delay priority = record {
    time = F.add env.now delay;
    priority = priority;
    seq = env.next_seq;
    event = e;
  }

  -- Triggering an event that is not in the queue or in the pool, the way each function of the
  -- program does it, keeps the environment valid.
  pub trigger_outside-IsValid :
      (env : Env D) (e : ℕ) (v : SimEvent) (delay : D) (priority : ℤ) (i : IsValid env)
      → HasRoom env
      → e < env.n_events
      → is_triggered (env.events e).state ≡ false
      → mem e i.pool ≡ false
      → is_triggered v.state ≡ true
      → v.free_next ≡ (env.events e).free_next
      → IsTime delay
      → IsValid (event_schedule (set_event env e v) e delay priority)
  unfolding event_schedule
  trigger_outside-IsValid env e v delay priority i r he was outside now_is link d =
      let x = new_entry env e delay priority in
      let due = F.add_number env.now delay i.clock.0 i.clock.1 d.0 d.1 in
      let room : env.heap.len < 2 ^ 58 = omega (arith, i.counted) in
      let more = λ (p : HeapEntry D → Bool). entries-heap_push env.heap x p i.heap room in
      record {
        heap = heap_push-IsValidHeap env.heap x i.heap due room;
        counted = ground (arith, heap_push-len env.heap x, i.counted);
        clock = i.clock;
        on_time =
            ground (arith, more (λ y. F.lt y.time env.now), i.on_time, F.add_grows env.now delay);
        seq_unused = λ s h. ground (arith, more (λ y. y.seq == s), i.seq_unused s, r);
        seq_once = λ s. ground (arith, more (λ y. y.seq == s), i.seq_unused s, i.seq_once s);
        exact = λ a. ground (arith, more (λ y. y.event == a), i.exact a);
        untouched = λ a h. ground (arith, i.untouched a h);
        pool = i.pool;
        chain = Chain-touch env.events e v env.event_pool i.pool link i.chain;
        distinct = i.distinct;
        retired = Retired-outside env.events e v env.n_events i.pool outside i.retired;
      }

  -- So does triggering a pending event, which is in neither.
  pub trigger-IsValid :
      (env : Env D) (e : ℕ) (v : SimEvent) (delay : D) (priority : ℤ)
      → IsValid env
      → HasRoom env
      → e < env.n_events
      → is_pending (env.events e).state ≡ true
      → is_triggered v.state ≡ true
      → v.free_next ≡ (env.events e).free_next
      → IsTime delay
      → IsValid (event_schedule (set_event env e v) e delay priority)
  trigger-IsValid env e v delay priority i r he was now_is link d =
      trigger_outside-IsValid env e v delay priority i r he (ground arith)
        (not_mem_live env.events e env.n_events i.pool (ground arith) i.retired) now_is link d

  -- Whether it triggers the event or leaves it alone, sim_event_succeed on an allocated event
  -- keeps the environment valid, as long as sequence numbers last.
  pub sim_event_succeed-IsValid :
      (env : Env D) (e : ℕ) (value : Ptr)
      → IsValid env
      → HasRoom env
      → e < env.n_events
      → IsValid (sim_event_succeed env e value)
  unfolding sim_event_succeed
  sim_event_succeed-IsValid env e value i r h =
      elim (Bool-cases (is_pending (env.events e).state)) [
        | inr spent ↦ rw spent i
        | inl waits ↦ rw waits (
            trigger-IsValid env e _ F.zero prio_normal i r h waits refl refl
              (F.zero_number, F.lt_irrefl F.zero))
      ]

  -- Whether it triggers the event or leaves it alone, sim_event_fail on an allocated event keeps
  -- the environment valid, as long as sequence numbers last.
  pub sim_event_fail-IsValid :
      (env : Env D) (e : ℕ) (reason : Ptr)
      → IsValid env
      → HasRoom env
      → e < env.n_events
      → IsValid (sim_event_fail env e reason)
  unfolding sim_event_fail
  sim_event_fail-IsValid env e reason i r h = elim (Bool-cases (is_pending (env.events e).state)) [
    | inr spent ↦ rw spent i
    | inl waits ↦ rw waits (
        trigger-IsValid env e _ F.zero prio_normal i r h waits refl refl
          (F.zero_number, F.lt_irrefl F.zero))
  ]

  succeed_spent :
      (env : Env D) (e : ℕ) (value : Ptr)
      → is_pending (env.events e).state ≡ false
      → sim_event_succeed env e value ≡ env
  unfolding sim_event_succeed
  succeed_spent env e value spent = rw spent

  fail_spent :
      (env : Env D) (e : ℕ) (reason : Ptr)
      → is_pending (env.events e).state ≡ false
      → sim_event_fail env e reason ≡ env
  unfolding sim_event_fail
  fail_spent env e reason spent = rw spent

  succeed_spends :
      (env : Env D) (e : ℕ) (value : Ptr)
      → is_pending ((sim_event_succeed env e value).events e).state ≡ false
  unfolding sim_event_succeed event_schedule
  succeed_spends env e value = elim (Bool-cases (is_pending (env.events e).state)) [
    | inr spent ↦ rw spent spent
    | inl waits ↦ rw waits (ground arith)
  ]

  fail_spends :
      (env : Env D) (e : ℕ) (reason : Ptr)
      → is_pending ((sim_event_fail env e reason).events e).state ≡ false
  unfolding sim_event_fail event_schedule
  fail_spends env e reason = elim (Bool-cases (is_pending (env.events e).state)) [
    | inr spent ↦ rw spent spent
    | inl waits ↦ rw waits (ground arith)
  ]

  -- An event is triggered at most once: behind sim_event_succeed or sim_event_fail on it, each of
  -- the two changes nothing.
  pub trigger_once :
      (env : Env D) (e : ℕ) (v w reason late : Ptr)
      → let won = sim_event_succeed env e v in
        let lost = sim_event_fail env e reason in
        (sim_event_succeed won e w ≡ won)
        × (sim_event_fail won e late ≡ won)
        × (sim_event_succeed lost e w ≡ lost)
        × (sim_event_fail lost e late ≡ lost)
  trigger_once env e v w reason late = (
    succeed_spent _ e w (succeed_spends env e v),
    fail_spent _ e late (succeed_spends env e v),
    succeed_spent _ e w (fail_spends env e reason),
    fail_spent _ e late (fail_spends env e reason),
  )

  -- sim_event_succeed on a pending event of a valid environment makes it triggered with the value,
  -- and adds one entry to the queue: now, with normal priority and the next sequence number. It
  -- leaves the other events alone.
  pub sim_event_succeed_lem :
      (env : Env D) (e : ℕ) (value : Ptr)
      → IsValid env
      → HasRoom env
      → is_pending (env.events e).state ≡ true
      → let env' = sim_event_succeed env e value in
        ((env'.events e).state ≡ triggered)
        × ((env'.events e).value ≡ value)
        × ((env'.events e).ok ≡ true)
        × ((x : ℕ) → x ≢ e → env'.events x ≡ env.events x)
        × ((p : HeapEntry D → Bool)
            → entries p env'.heap
              ≡ bit (p (new_entry env e F.zero prio_normal)) + entries p env.heap)
  unfolding sim_event_succeed event_schedule
  sim_event_succeed_lem env e value i r waits =
      let room : env.heap.len < 2 ^ 58 = omega (arith, i.counted) in
      rw waits (
        ground arith,
        ground arith,
        ground arith,
        λ x ne. ground arith,
        λ p. entries-heap_push env.heap (new_entry env e F.zero prio_normal) p i.heap room,
      )
