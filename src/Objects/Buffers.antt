-- ===== src/Objects/Buffers.antt =====
-- The structs of src/container.c, src/store.c and src/priority_store.c.
use simpyc.Prelude.{ℕ, List, ℤ, Ptr}
use simpyc.SortedQueue.{Node}

pub record CqNode (D : Type 0) : Type 0 where
  pub event : ℕ
  pub amount : D

pub record Container (D : Type 0) : Type 0 where
  pub self : Ptr
  pub capacity : D
  pub level : D
  pub puts : List (CqNode D)
  pub gets : List (CqNode D)

pub record WaiterNode : Type 0 where
  pub event : ℕ
  pub item : Ptr

pub record Store : Type 0 where
  pub self : Ptr
  pub capacity : ℤ
  pub count : ℕ
  pub items : List Ptr
  pub gets : List WaiterNode
  pub puts : List WaiterNode

pub record PutWaiter : Type 0 where
  pub event : ℕ
  pub item : Ptr
  pub priority : ℤ

-- The items are nodes with the item as payload. A get-waiter is its event.
pub record PriorityStore : Type 0 where
  pub self : Ptr
  pub capacity : ℤ
  pub count : ℕ
  pub next_seq : ℕ
  pub items : List (Node Ptr)
  pub gets : List ℕ
  pub puts : List PutWaiter
