-- ===== src/Event/Validity.antt =====
-- The well-formedness of the environment, across src/event.c, src/heap.c and src/env.c: the clock,
-- the queue and the pool agree with the states of the events.
use simpyc.Prelude.{ℕ, ◌+◌, ◌^◌, ◌≤◌, ◌<◌, ◌≡◌, false, List, arith, ◌==◌, Double}
use simpyc.Heap.Contents.{bit}
use simpyc.Heap.Queue.{entries}
use simpyc.Heap.Queue.{IsValidHeap}
use simpyc.State.{Env, SimEvent, set_event}
use simpyc.Event.{is_triggered}
use simpyc.Event.Pool.{Chain, Distinct, Retired, Chain-touch, Retired-touch}

module _ {D : Type 0} ⦃F : Double D⦄ where
  -- How often the event stands in the queue.
  abbrev pub queued : Env D → ℕ → ℕ
  queued env e = entries (λ x. x.event == e) env.heap

  -- The time is a number that is not negative.
  abbrev pub IsTime : D → Type 0
  IsTime t = (F.is_nan t ≡ false) × (F.lt t F.zero ≡ false)

  pub record IsValid (env : Env D) : Type 0 where
    pub heap : IsValidHeap env.heap
    pub counted : env.heap.len ≤ env.next_seq
    pub clock : IsTime env.now
    -- Nothing in the queue is overdue.
    pub on_time : entries (λ x. F.lt x.time env.now) env.heap ≡ 0
    -- Sequence numbers are used once, and those to come are unused.
    pub seq_unused : (s : ℕ) → env.next_seq ≤ s → entries (λ x. x.seq == s) env.heap ≡ 0
    pub seq_once : (s : ℕ) → entries (λ x. x.seq == s) env.heap ≤ 1
    -- An event is in the queue once if it is triggered, and not at all otherwise.
    pub exact : (e : ℕ) → queued env e ≡ bit (is_triggered (env.events e).state)
    -- Memory that is not allocated holds no event that is triggered.
    pub untouched : (e : ℕ) → env.n_events ≤ e → is_triggered (env.events e).state ≡ false
    -- The pool holds processed events, each once.
    pub pool : List ℕ
    pub chain : Chain env.events env.event_pool pool
    pub distinct : Distinct pool
    pub retired : Retired env.events env.n_events pool

  -- There is a sequence number for one more entry, and with it room in the queue.
  abbrev pub HasRoom : Env D → Type 0
  HasRoom env = env.next_seq + 1 < 2 ^ 58

  -- A write that keeps the state and the link of an event keeps the environment valid.
  pub touch-IsValid :
      (env : Env D) (e : ℕ) (v : SimEvent)
      → v.state ≡ (env.events e).state
      → v.free_next ≡ (env.events e).free_next
      → IsValid env
      → IsValid (set_event env e v)
  touch-IsValid env e v s l i = record {
    heap = i.heap;
    counted = i.counted;
    clock = i.clock;
    on_time = i.on_time;
    seq_unused = i.seq_unused;
    seq_once = i.seq_once;
    exact = λ x. ground (arith, i.exact x);
    untouched = λ x h. ground (arith, i.untouched x h);
    pool = i.pool;
    chain = Chain-touch env.events e v env.event_pool i.pool l i.chain;
    distinct = i.distinct;
    retired = Retired-touch env.events e v env.n_events i.pool s i.retired;
  }

  -- Validity hangs on six fields of the environment.
  pub record SameQueue (env env' : Env D) : Type 0 where
    pub now : env'.now ≡ env.now
    pub next_seq : env'.next_seq ≡ env.next_seq
    pub heap : env'.heap ≡ env.heap
    pub events : env'.events ≡ env.events
    pub n_events : env'.n_events ≡ env.n_events
    pub event_pool : env'.event_pool ≡ env.event_pool

  pub SameQueue-IsValid : (env env' : Env D) → SameQueue env env' → IsValid env → IsValid env'
  SameQueue-IsValid env env' q i = record {
    heap = rw q.heap i.heap;
    counted = rw (q.heap, q.next_seq) i.counted;
    clock = rw q.now i.clock;
    on_time = rw (q.now, q.heap) i.on_time;
    seq_unused = λ s h. rw q.heap (i.seq_unused s (rw q.next_seq at h));
    seq_once = λ s. rw q.heap (i.seq_once s);
    exact = λ e. rw (q.heap, q.events) (i.exact e);
    untouched = λ e h. rw q.events (i.untouched e (rw q.n_events at h));
    pool = i.pool;
    chain = rw (q.events, q.event_pool) i.chain;
    distinct = i.distinct;
    retired = rw (q.events, q.n_events) i.retired;
  }
