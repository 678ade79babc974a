-- ===== src/Event.antt =====
-- src/event.c: events, their callbacks and the pool of recycled events. An operation takes the
-- environment and returns the new one, with its result in front where it has one. malloc, calloc
-- and realloc succeed. A callback is called through the parameter `call`, for a function pointer
-- may lead to code of the user.
pub mod Delivery
pub mod Effects
pub mod Pool
pub mod Alloc
pub mod Validity
pub mod Trigger
use simpyc.Prelude.{
  ℕ, zero, suc, ◌+◌, ◌-◌, ◌*◌, ◌%◌, Bool, true, false, not, Option, none, some, ltb, ◌==◌,
  if◌then◌else◌, u32_mod, inc64, inc32, ℤ, pos, Double, update, Ptr, null,
}
use simpyc.Heap.{HeapEntry, heap_push}
use simpyc.State.{
  Env, SimEvent, EventState, pending, triggered, processed, CbPair, zero_event, set_event,
}

module _ {D : Type 0} where
  -- _sim_event_alloc, by the head of the free list.
  unfoldable pub alloc_from : Env D → Option ℕ → ℕ × Env D
  alloc_from env (some e) =
      let old = env.events e in
      (
        e,
        set_event (record env { event_pool = old.free_next }) e
            (record zero_event {
              cbs = old.cbs;
              cb_cap = old.cb_cap;
              all_next = old.all_next;
              state = pending;
              ok = true;
            }),
      )
  alloc_from env none =
      let e = env.n_events in
      (
        e,
        set_event (record env { n_events = e + 1; all_events = some e }) e
            (record zero_event { all_next = env.all_events; state = pending; ok = true }),
      )

  unfoldable pub event_alloc : Env D → ℕ × Env D
  unfolding alloc_from
  event_alloc env = alloc_from env env.event_pool

  unfoldable pub sim_event : Env D → ℕ × Env D
  sim_event env = event_alloc env

abbrev pub is_pending : EventState → Bool
is_pending pending = true
is_pending triggered = false
is_pending processed = false

abbrev pub is_triggered : EventState → Bool
is_triggered pending = false
is_triggered triggered = true
is_triggered processed = false

abbrev pub is_processed : EventState → Bool
is_processed pending = false
is_processed triggered = false
is_processed processed = true

module _ {D : Type 0} where
  abbrev pub sim_event_triggered : Env D → ℕ → Bool
  sim_event_triggered env e = not (is_pending (env.events e).state)

  abbrev pub sim_event_processed : Env D → ℕ → Bool
  sim_event_processed env e = is_processed (env.events e).state

  abbrev pub sim_event_ok : Env D → ℕ → Bool
  sim_event_ok env e = (env.events e).ok

  abbrev pub sim_event_value : Env D → ℕ → Ptr
  sim_event_value env e = (env.events e).value

  abbrev pub sim_event_reason : Env D → ℕ → Ptr
  sim_event_reason env e = (env.events e).fail_reason

-- SIM_PRIO_URGENT and SIM_PRIO_NORMAL.
abbrev pub prio_urgent : ℤ
prio_urgent = pos 0

abbrev pub prio_normal : ℤ
prio_normal = pos 1

module _ {D : Type 0} ⦃F : Double D⦄ where
  unfoldable pub event_schedule : Env D → ℕ → D → ℤ → Env D
  event_schedule env e delay priority =
      let he : HeapEntry D = record {
        time = F.add env.now delay;
        priority = priority;
        seq = env.next_seq;
        event = e;
      } in
      record env { next_seq = inc64 env.next_seq; heap = heap_push env.heap he }

  unfoldable pub sim_timeout_v : Env D → D → Ptr → ℕ × Env D
  sim_timeout_v env delay value =
      let (e, env') = event_alloc env in
      (
        e,
        event_schedule
            (set_event env' e
              (record (env'.events e) { value = value; state = triggered; recyclable = true }))
            e delay prio_normal,
      )

  unfoldable pub sim_timeout : Env D → D → ℕ × Env D
  unfolding sim_timeout_v
  sim_timeout env delay = sim_timeout_v env delay null

  unfoldable pub sim_event_succeed : Env D → ℕ → Ptr → Env D
  sim_event_succeed env e value =
      if is_pending (env.events e).state
      then event_schedule
          (set_event env e (record (env.events e) { value = value; ok = true; state = triggered }))
          e F.zero prio_normal
      else env

  unfoldable pub sim_event_fail : Env D → ℕ → Ptr → Env D
  sim_event_fail env e reason =
      if is_pending (env.events e).state
      then event_schedule
          (set_event env e
            (record (env.events e) { fail_reason = reason; ok = false; state = triggered }))
          e F.zero prio_normal
      else env

unfoldable pub cb_grow : SimEvent → SimEvent
cb_grow e = record e { cb_cap = if ltb 0 e.cb_cap then e.cb_cap * 2 % u32_mod else 2 }

-- The store of a subscription in the array.
unfoldable pub cb_store : SimEvent → CbPair → SimEvent
unfolding cb_grow
cb_store e cb =
    let e' = if e.cb_len == e.cb_cap then cb_grow e else e in
    record e' { cbs = update e'.cbs e'.cb_len cb; cb_len = inc32 e'.cb_len }

-- A call of a callback: the pair, the event that fires, and the environment.
abbrev pub Call : Type 0 → Type 0
Call D = CbPair → ℕ → Env D → Env D

module _ {D : Type 0} (call : Call D) where
  unfoldable pub sim_event_on : Env D → ℕ → CbPair → Env D
  sim_event_on env e cb =
      if is_processed (env.events e).state
      then call cb e env
      else set_event env e (cb_store (env.events e) cb)

  -- The loop over `cbs[i]`, `left` rounds before the end. It reads the array as it is at that time.
  unfoldable pub dispatch_loop : ℕ → ℕ → ℕ → Env D → Env D
  dispatch_loop e len zero env = env
  dispatch_loop e len (suc left) env =
      dispatch_loop e len left (call ((env.events e).cbs (len - suc left)) e env)

-- `ev->recyclable = 1`, which the stores and the container do to each event that they make.
unfoldable pub mark_recyclable : {D : Type 0} → Env D → ℕ → Env D
mark_recyclable env e = set_event env e (record (env.events e) { recyclable = true })

-- The push of an event onto the free list.
unfoldable pub recycle : {D : Type 0} → Env D → ℕ → Env D
recycle env e =
    set_event (record env { event_pool = some e }) e
      (record (env.events e) { free_next = env.event_pool })

unfoldable pub run_callbacks : {D : Type 0} → Call D → Env D → ℕ → Env D
unfolding dispatch_loop recycle
run_callbacks call env e =
    let len = (env.events e).cb_len in
    let started = set_event env e (record (env.events e) { state = processed; cb_len = 0 }) in
    let fired = dispatch_loop call e len len started in
    if (fired.events e).recyclable then recycle fired e else fired

-- The end of each function that releases a resource: a processed request goes to the pool.
unfoldable pub recycle_request : {D : Type 0} → Env D → Option ℕ → Env D
unfolding recycle
recycle_request env none = env
recycle_request env (some e) = if is_processed (env.events e).state then recycle env e else env
