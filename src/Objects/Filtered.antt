-- ===== src/Objects/Filtered.antt =====
-- The structs of src/filter_store.c.
use simpyc.Prelude.{ℕ, Option, List, ℤ, Ptr}

pub record GetWaiter : Type 0 where
  pub event : ℕ
  pub filter : Option ℕ
  pub user : Ptr

pub record PutWaiter : Type 0 where
  pub event : ℕ
  pub item : Ptr

pub record FilterStore : Type 0 where
  pub self : Ptr
  pub capacity : ℤ
  pub count : ℕ
  pub items : List Ptr
  pub gets : List GetWaiter
  pub puts : List PutWaiter
