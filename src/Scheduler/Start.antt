-- ===== src/Scheduler/Start.antt =====
-- src/env.c and src/event.c: taking the first entry off the queue and marking its event as
-- processed, which is what sim_step does before the callbacks run.
use simpyc.Prelude.{◌<◌, ◌≡◌, refl, true, false, arith, ◌==◌, Double}
use simpyc.Heap.{HeapEntry, EventHeap, entry_lt}
use simpyc.Heap.Contents.{count-none}
use simpyc.Heap.Queue.{Popped}
use simpyc.State.{Env, processed, set_event}
use simpyc.Event.{is_triggered}
use simpyc.Event.Pool.{Chain-touch, Retired-outside, not_mem_live}
use simpyc.Event.Validity.{IsValid, IsTime}

module _ {D : Type 0} where
  -- The environment in which the callbacks of the entry's event start to run.
  abbrev pub started : Env D → HeapEntry D → EventHeap D → Env D
  started env x h =
      set_event (record env { heap = h; now = x.time }) x.event
        (record (env.events x.event) { state = processed; cb_len = 0 })

module _ {D : Type 0} ⦃F : Double D⦄ where
  -- An entry that no other comes before is due first.
  pub not_later : (x y : HeapEntry D) → entry_lt y x ≡ false → F.lt y.time x.time ≡ false
  unfolding entry_lt
  not_later x y h = ground arith

  -- The entry that heap_pop returns is not overdue, and its event is triggered.
  pub record IsNext (env : Env D) (x : HeapEntry D) : Type 0 where
    pub time : IsTime x.time
    pub forward : F.lt x.time env.now ≡ false
    pub event : is_triggered (env.events x.event).state ≡ true
    pub allocated : x.event < env.n_events

  pub Popped-IsNext :
      (env : Env D) (x : HeapEntry D) (h : EventHeap D)
      → IsValid env
      → Popped env.heap x h
      → IsNext env x
  Popped-IsNext env x h i p =
      let forward : F.lt x.time env.now ≡ false =
        ground (arith, p.taken (λ y. F.lt y.time env.now), i.on_time) in
      let event : is_triggered (env.events x.event).state ≡ true =
        ground (arith, p.taken (λ y. y.event == x.event), i.exact x.event) in
      record {
        time = (p.timed, ground (arith, forward, i.clock, F.lt_weak x.time env.now F.zero));
        forward = forward;
        event = event;
        allocated = ground (arith, i.untouched x.event, event);
      }

  pub started-IsValid :
      (env : Env D) (x : HeapEntry D) (h : EventHeap D)
      → IsValid env
      → Popped env.heap x h
      → IsValid (started env x h)
  started-IsValid env x h i p =
      let n = Popped-IsNext env x h i p in
      let outside =
        not_mem_live env.events x.event env.n_events i.pool (ground (arith, n.event)) i.retired in
      record {
        heap = p.valid;
        counted = omega (arith, p.size, i.counted);
        clock = n.time;
        on_time = ground (
          arith,
          p.taken (λ y. F.lt y.time x.time),
          count-none (λ y. F.lt y.time x.time) env.heap.cells env.heap.len
              (λ j k. not_later x (env.heap.cells j) (p.least j k)),
        );
        seq_unused = λ s k. ground (arith, p.taken (λ y. y.seq == s), i.seq_unused s k);
        seq_once = λ s. ground (arith, p.taken (λ y. y.seq == s), i.seq_once s);
        exact = λ e. ground (arith, p.taken (λ y. y.event == e), i.exact e, n.event);
        untouched = λ e k. ground (arith, i.untouched e k);
        pool = i.pool;
        chain = Chain-touch env.events x.event _ env.event_pool i.pool refl i.chain;
        distinct = i.distinct;
        retired = Retired-outside env.events x.event _ env.n_events i.pool outside i.retired;
      }
