-- ===== src/State.antt =====
-- src/internal.h and the structs of src/cond.c: events, processes and the environment that owns
-- them. A pointer to an event, a process or a condition is the number of the allocation that made
-- it, counted from 0, and `none` is NULL; the objects lie in the functions `events`, `processes`
-- and `conds` of the environment, so that every holder of a pointer sees each write. Other
-- pointers (values, arguments, reasons) are plain addresses.
use simpyc.Prelude.{ℕ, Bool, false, Option, none, update, Ptr, null}
use simpyc.Heap.{EventHeap}
use simpyc.Objects.{Objects}
use simpyc.Objects.Resources.{Resource, PriorityResource, PreemptiveResource}
use simpyc.Objects.Buffers.{Container, Store, PriorityStore}
use simpyc.Objects.Filtered.{FilterStore}

-- The functions that an event calls: three of the library's own, and the user's.
pub data CallbackFn : Type 0 where
  unset resume_cb waiter_cb cond_cb : CallbackFn
  user_fn : ℕ → CallbackFn

pub record CbPair : Type 0 where
  pub fn : CallbackFn
  pub user : Ptr

pub data EventState : Type 0 where
  pending triggered processed : EventState

pub record SimEvent : Type 0 where
  -- The array of callbacks: its first `cb_len` cells hold subscriptions.
  pub cbs : ℕ → CbPair
  pub cb_cap : ℕ
  pub cb_len : ℕ
  pub value : Ptr
  pub fail_reason : Ptr
  pub state : EventState
  pub ok : Bool
  pub recyclable : Bool
  pub free_next : Option ℕ
  pub all_next : Option ℕ

pub data ProcessState : Type 0 where
  fresh running dead : ProcessState

-- Where a switch into the process goes on: at its first instruction, or behind a `sim_yield`. The
-- number stands for the registers and the stack.
pub data Context : Type 0 where
  entry : Context
  after_yield : ℕ → Context

pub record SimProcess : Type 0 where
  pub fn : ℕ
  pub arg : Ptr
  pub ctx : Context
  pub done : Option ℕ
  pub yielded : Option ℕ
  pub resume_ev : Option ℕ
  pub resume_value : Ptr
  pub interrupt_cause : Ptr
  pub state : ProcessState
  pub interrupt_pending : Bool
  pub was_interrupted : Bool
  pub free_next : Option ℕ
  pub all_next : Option ℕ

-- `live` is true from calloc to free.
pub record CondState : Type 0 where
  pub out : ℕ
  pub n_total : ℕ
  pub n_fired : ℕ
  pub any : Bool
  pub live : Bool

pub record Env (D : Type 0) : Type 0 where
  pub now : D
  pub next_seq : ℕ
  pub heap : EventHeap D
  pub active : Option ℕ
  pub event_pool : Option ℕ
  pub process_pool : Option ℕ
  pub all_processes : Option ℕ
  pub all_events : Option ℕ
  pub rt_factor : D
  pub rt_strict : Bool
  pub rt_lagged : Bool
  pub rt_start_wall : D
  pub rt_start_sim : D
  -- The allocated objects, and how many there are of each kind.
  pub events : ℕ → SimEvent
  pub n_events : ℕ
  pub processes : ℕ → SimProcess
  pub n_processes : ℕ
  pub conds : ℕ → CondState
  pub n_conds : ℕ
  -- What a client has made of the other kinds.
  pub objects : Objects D

-- What calloc and memset leave.
abbrev pub zero_cb : CbPair
zero_cb = record { fn = unset; user = null }

abbrev pub zero_event : SimEvent
zero_event = record {
  cbs = λ i. zero_cb;
  cb_cap = 0;
  cb_len = 0;
  value = null;
  fail_reason = null;
  state = pending;
  ok = false;
  recyclable = false;
  free_next = none;
  all_next = none;
}

abbrev pub zero_process : SimProcess
zero_process = record {
  fn = 0;
  arg = null;
  ctx = entry;
  done = none;
  yielded = none;
  resume_ev = none;
  resume_value = null;
  interrupt_cause = null;
  state = fresh;
  interrupt_pending = false;
  was_interrupted = false;
  free_next = none;
  all_next = none;
}

abbrev pub zero_cond : CondState
zero_cond = record { out = 0; n_total = 0; n_fired = 0; any = false; live = false }

module _ {D : Type 0} where
  -- `*e = v` for an event, a process and a condition.
  abbrev pub set_event : Env D → ℕ → SimEvent → Env D
  set_event env e v = record env { events = update env.events e v }

  abbrev pub set_process : Env D → ℕ → SimProcess → Env D
  set_process env p v = record env { processes = update env.processes p v }

  abbrev pub set_cond : Env D → ℕ → CondState → Env D
  set_cond env c v = record env { conds = update env.conds c v }

  -- The same for a shared object at its address.
  abbrev pub set_resource : Env D → Ptr → Resource → Env D
  set_resource env a v = record env {
    objects = record env.objects { resources = update env.objects.resources a v };
  }

  abbrev pub set_priority_resource : Env D → Ptr → PriorityResource → Env D
  set_priority_resource env a v = record env {
    objects = record env.objects { priority_resources = update env.objects.priority_resources a v };
  }

  abbrev pub set_preemptive_resource : Env D → Ptr → PreemptiveResource → Env D
  set_preemptive_resource env a v = record env {
    objects = record env.objects {
      preemptive_resources = update env.objects.preemptive_resources a v;
    };
  }

  abbrev pub set_container : Env D → Ptr → Container D → Env D
  set_container env a v = record env {
    objects = record env.objects { containers = update env.objects.containers a v };
  }

  abbrev pub set_store : Env D → Ptr → Store → Env D
  set_store env a v = record env {
    objects = record env.objects { stores = update env.objects.stores a v };
  }

  abbrev pub set_priority_store : Env D → Ptr → PriorityStore → Env D
  set_priority_store env a v = record env {
    objects = record env.objects { priority_stores = update env.objects.priority_stores a v };
  }

  abbrev pub set_filter_store : Env D → Ptr → FilterStore → Env D
  set_filter_store env a v = record env {
    objects = record env.objects { filter_stores = update env.objects.filter_stores a v };
  }
