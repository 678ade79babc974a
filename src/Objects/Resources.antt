-- ===== src/Objects/Resources.antt =====
-- The structs of src/resource.c, src/priority_resource.c and src/preemptive_resource.c.
-- queue_len is the 32 bits of an `int`. in_use grows only below the capacity, an `int`, and is
-- lowered only above 0, so it is a number that needs no wrap.
use simpyc.Prelude.{ℕ, Bool, Option, List, ℤ, Ptr}
use simpyc.SortedQueue.{Node}

pub record Resource : Type 0 where
  pub self : Ptr
  pub capacity : ℤ
  pub in_use : ℕ
  pub queue_len : ℕ
  pub queue : List ℕ

-- `payload` is the event of the request.
pub record PriorityResource : Type 0 where
  pub self : Ptr
  pub capacity : ℤ
  pub in_use : ℕ
  pub queue_len : ℕ
  pub queue : List (Node ℕ)
  pub next_seq : ℕ

-- `preempted` is set only in a holder that is freed next.
pub record Holder : Type 0 where
  pub req : ℕ
  pub owner : Option ℕ
  pub priority : ℤ
  pub preempted : Bool

-- What a waiter carries beside its priority and its number.
pub record Waiter : Type 0 where
  pub req : ℕ
  pub owner : Option ℕ
  pub preempt : Bool

pub record PreemptiveResource : Type 0 where
  pub self : Ptr
  pub capacity : ℤ
  pub in_use : ℕ
  pub queue_len : ℕ
  pub holders : List Holder
  pub waiters : List (Node Waiter)
  pub next_seq : ℕ
