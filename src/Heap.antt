-- ===== src/Heap.antt =====
-- src/heap.c: the binary min-heap of scheduled events, keyed on (time, priority, seq).
-- `data` is the array, as a function from indices; what lies at or past `len` is whatever the
-- memory holds. The loops of sift_up and sift_down take fuel: sift_up at most halves the index, so
-- the index is fuel enough, and sift_down raises it, so the length is.
pub mod Order
pub mod Queue
pub mod Contents
pub mod Drain
pub mod Shape
pub mod Sift
use simpyc.Prelude.{
  ℕ, zero, suc, ◌+◌, ◌-◌, ◌*◌, ◌/◌, ◌%◌, Bool, true, false, ◌&&◌, Option, none, some, ltb, ◌==◌,
  if◌then◌else◌, u64_mod, ℤ, ltb_ℤ, Double, update,
}

pub record HeapEntry (D : Type 0) : Type 0 where
  pub time : D
  pub priority : ℤ
  pub seq : ℕ
  pub event : ℕ

abbrev pub Cells : Type 0 → Type 0
Cells D = ℕ → HeapEntry D

pub record EventHeap (D : Type 0) : Type 0 where
  pub cells : Cells D
  pub len : ℕ
  pub cap : ℕ
  -- The size of the block of memory that `data` points to.
  pub bytes : ℕ

-- `junk` is what the memory holds before it is written.
unfoldable pub heap_init : {D : Type 0} → Cells D → EventHeap D
heap_init junk = record { cells = junk; len = 0; cap = 0; bytes = 0 }

-- The size of a heap_entry_t: three fields of 8 bytes, and an int that is padded to 8.
abbrev pub entry_size : ℕ
entry_size = 32

-- realloc keeps the entries. Both products wrap as a `size_t` does.
unfoldable pub heap_grow : {D : Type 0} → EventHeap D → EventHeap D
heap_grow h =
    let ncap = if ltb 0 h.cap then h.cap * 2 % u64_mod else 32 in
    record h { cap = ncap; bytes = ncap * entry_size % u64_mod }

unfoldable pub swap : {D : Type 0} → Cells D → ℕ → ℕ → Cells D
swap a i j = update (update a i (a j)) j (a i)

unfoldable pub heap_peek : {D : Type 0} → EventHeap D → Option (HeapEntry D)
heap_peek h = if h.len == 0 then none else some (h.cells 0)

module _ {D : Type 0} ⦃F : Double D⦄ where
  unfoldable pub entry_lt : HeapEntry D → HeapEntry D → Bool
  entry_lt a b =
      if F.lt a.time b.time
      then true
      else if F.lt b.time a.time
      then false
      else if ltb_ℤ a.priority b.priority
      then true
      else if ltb_ℤ b.priority a.priority
      then false
      else ltb a.seq b.seq

  unfoldable pub sift_up : ℕ → Cells D → ℕ → Cells D
  sift_up zero a i = a
  sift_up (suc fuel) a i =
      let p = (i - 1) / 2 in
      let rest = sift_up fuel (swap a i p) p in
      if ltb 0 i then (if entry_lt (a i) (a p) then rest else a) else a

  -- The choice of `best` among `i` and its children below `n`.
  unfoldable pub best_of : Cells D → ℕ → ℕ → ℕ
  best_of a n i =
      let l = 2 * i + 1 in
      let r = l + 1 in
      let best = if ltb l n && entry_lt (a l) (a i) then l else i in
      if ltb r n && entry_lt (a r) (a best) then r else best

  unfoldable pub sift_down : ℕ → Cells D → ℕ → ℕ → Cells D
  sift_down zero a n i = a
  sift_down (suc fuel) a n i =
      let best = best_of a n i in
      let rest = sift_down fuel (swap a i best) n best in if best == i then a else rest

  unfoldable pub heap_push : EventHeap D → HeapEntry D → EventHeap D
  unfolding heap_grow
  heap_push h e =
      let h' = if h.len == h.cap then heap_grow h else h in
      record h' { cells = sift_up h'.len (update h'.cells h'.len e) h'.len; len = h'.len + 1 }

  -- `none` is the return value -1.
  unfoldable pub heap_pop : EventHeap D → Option (HeapEntry D × EventHeap D)
  heap_pop h =
      if h.len == 0
      then none
      else (let n = h.len - 1 in
          some (
            h.cells 0,
            record h {
              len = n;
              cells = if ltb 0 n then sift_down n (update h.cells 0 (h.cells n)) n 0 else h.cells;
            },
          ))
