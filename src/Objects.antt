-- ===== src/Objects.antt =====
-- The shared objects of a client: the resources, the container and the stores, each at the address
-- that malloc gave it. An address where nothing was made holds an empty object.
pub mod Resources
pub mod Buffers
pub mod Filtered
use simpyc.Prelude.{ℕ, [], pos, Ptr}
use simpyc.Objects.Resources.{Resource, PriorityResource, PreemptiveResource}
use simpyc.Objects.Buffers.{Container, Store, PriorityStore}
use simpyc.Objects.Filtered.{FilterStore}

pub record Objects (D : Type 0) : Type 0 where
  pub resources : Ptr → Resource
  pub priority_resources : Ptr → PriorityResource
  pub preemptive_resources : Ptr → PreemptiveResource
  pub containers : Ptr → Container D
  pub stores : Ptr → Store
  pub priority_stores : Ptr → PriorityStore
  pub filter_stores : Ptr → FilterStore

abbrev pub no_objects : {D : Type 0} → D → Objects D
no_objects zero = record {
  resources = λ a. record { self = a; capacity = pos 0; in_use = 0; queue_len = 0; queue = [] };
  priority_resources = λ a. record {
    self = a;
    capacity = pos 0;
    in_use = 0;
    queue_len = 0;
    queue = [];
    next_seq = 0;
  };
  preemptive_resources = λ a. record {
    self = a;
    capacity = pos 0;
    in_use = 0;
    queue_len = 0;
    holders = [];
    waiters = [];
    next_seq = 0;
  };
  containers = λ a. record { self = a; capacity = zero; level = zero; puts = []; gets = [] };
  stores = λ a. record { self = a; capacity = pos 0; count = 0; items = []; gets = []; puts = [] };
  priority_stores = λ a. record {
    self = a;
    capacity = pos 0;
    count = 0;
    next_seq = 0;
    items = [];
    gets = [];
    puts = [];
  };
  filter_stores =
      λ a. record { self = a; capacity = pos 0; count = 0; items = []; gets = []; puts = [] };
}
