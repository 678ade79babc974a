-- ===== src/Heap/Queue.antt =====
-- src/heap.c: heap_push and heap_pop against the specification of a priority queue.
use simpyc.Prelude.{
  ℕ, zero, suc, ◌+◌, ◌-◌, ◌*◌, ◌^◌, ◌≤◌, ◌<◌, ◌≡◌, refl, ◌⊎◌, inl, inr, Bool, none, some, arith,
  ltb, ◌==◌, if◌then◌else◌, Bool-cases, Double, update,
}
use simpyc.Heap.{
  entry_size, heap_peek, heap_pop, sift_down, HeapEntry, EventHeap, Cells, heap_init, heap_grow,
  heap_push, sift_up,
}
use simpyc.Heap.Order.{IsTimed, Le, entry_lt_irrefl, Le-trans}
use simpyc.Heap.Shape.{DownInv, parent, AllTimed, IsHeap, UpInv}
use simpyc.Heap.Sift.{sift_down-Sifted, Sifted, sift_up-Sifted}
use simpyc.Heap.Contents.{
  count-sift_down, count-update, bit, count, count-update_past, count-sift_up,
}

module _ {D : Type 0} ⦃F : Double D⦄ where
  -- The entries fit the allocation, for which the memory is there, their times are numbers, and the heap property holds.
  pub record IsValidHeap (h : EventHeap D) : Type 0 where
    pub fits : h.len ≤ h.cap
    pub backed : h.cap * entry_size ≤ h.bytes
    pub timed : AllTimed h.cells h.len
    pub heap : IsHeap h.cells h.len

  -- How many entries of the heap pass the test.
  abbrev pub entries : (HeapEntry D → Bool) → EventHeap D → ℕ
  entries p h = count p h.cells h.len

  pub heap_init-IsValidHeap : (junk : Cells D) → IsValidHeap (heap_init junk)
  unfolding heap_init
  heap_init-IsValidHeap junk = record {
    fits = omega arith;
    backed = omega arith;
    timed = λ c h. absurd (omega arith);
    heap = λ c h k. absurd (omega arith);
  }

  root_least_below : (k : ℕ) (a : Cells D) (n i : ℕ) → i < k → Sifted a n → i < n → Le (a 0) (a i)
  root_least_below zero a n i f s h = absurd (omega arith)
  root_least_below (suc k) a n zero f s h = entry_lt_irrefl (a 0)
  root_least_below (suc k) a n (suc i) f s h =
      let p = parent (suc i) in
      let hp : p < n = omega arith in
      Le-trans (a 0) (a p) (a (suc i)) (s.0 0 (omega arith)) (s.0 p hp) (s.0 (suc i) h)
        (root_least_below k a n p (omega arith) s hp) (s.1 (suc i) (omega arith) h)

  -- No entry comes before the root.
  pub root_least :
      (h : EventHeap D) → IsValidHeap h → (i : ℕ) → i < h.len → Le (h.cells 0) (h.cells i)
  root_least h v i = root_least_below (suc i) h.cells h.len i (omega arith) (v.timed, v.heap)

  -- The room that heap_push makes, if there is none.
  grown : EventHeap D → EventHeap D
  unfolding heap_grow
  grown h = if h.len == h.cap then heap_grow h else h

  grown_lem :
      (h : EventHeap D)
      → h.len ≤ h.cap
      → h.cap * entry_size ≤ h.bytes
      → h.len < 2 ^ 58
      → ((grown h).cells ≡ h.cells)
        × ((grown h).len ≡ h.len)
        × (h.len < (grown h).cap)
        × ((grown h).cap * entry_size ≤ (grown h).bytes)
  unfolding grown
  grown_lem h f backed small = ground arith

  heap_push-grown :
      (h : EventHeap D) (e : HeapEntry D)
      → heap_push h e ≡ record (grown h) {
        cells = sift_up (grown h).len (update (grown h).cells (grown h).len e) (grown h).len;
        len = (grown h).len + 1;
      }
  unfolding heap_push grown
  heap_push-grown h e = refl

  pub heap_push-len : (h : EventHeap D) (e : HeapEntry D) → (heap_push h e).len ≡ h.len + 1
  unfolding heap_push heap_grow
  heap_push-len h e = ground arith

  push-UpInv :
      (a : Cells D) (n : ℕ) (e : HeapEntry D)
      → Sifted a n
      → IsTimed e
      → UpInv (update a n e) (n + 1) n
  push-UpInv a n e s t = record {
    inside = omega arith;
    timed = λ c h. ground (arith, s.0 c);
    edges = λ c c0 cn ne. ground (arith, s.1 c);
    bridged = λ c c0 cn p n0. absurd (omega arith);
  }

  -- heap_push of an entry whose time is a number keeps a heap of fewer than 2^58 entries valid: in
  -- heap order, and within its allocation, which grows where it must, and whose size in bytes does not
  -- wrap.
  pub heap_push-IsValidHeap :
      (h : EventHeap D) (e : HeapEntry D)
      → IsValidHeap h
      → IsTimed e
      → h.len < 2 ^ 58
      → IsValidHeap (heap_push h e)
  heap_push-IsValidHeap h e v t small =
      let (same, kept, room, backed) = grown_lem h v.fits v.backed small in
      let s =
        sift_up-Sifted h.len (update h.cells h.len e) (h.len + 1) h.len (omega arith)
          (push-UpInv h.cells h.len e (v.timed, v.heap) t) in
      rw (heap_push-grown h e, same, kept)
        (record { fits = omega arith; backed = backed; timed = s.0; heap = s.1 })

  -- heap_push adds the entry and nothing else: of each kind of entry, a valid heap of fewer than
  -- 2^58 has as many as before, and the new one if it is of that kind.
  pub entries-heap_push :
      (h : EventHeap D) (e : HeapEntry D) (p : HeapEntry D → Bool)
      → IsValidHeap h
      → h.len < 2 ^ 58
      → entries p (heap_push h e) ≡ bit (p e) + entries p h
  unfolding count
  entries-heap_push h e p v small =
      let (same, kept, room, backed) = grown_lem h v.fits v.backed small in
      let a = update h.cells h.len e in
      rw (heap_push-grown h e, same, kept)
        (ground (
          arith,
          count-sift_up p h.len a (h.len + 1) h.len (omega arith),
          count-update_past p h.cells h.len h.len e,
        ))

  -- What heap_pop leaves, with the entry that it returns.
  pub record Popped (h : EventHeap D) (e : HeapEntry D) (h' : EventHeap D) : Type 0 where
    pub valid : IsValidHeap h'
    pub timed : IsTimed e
    pub least : (i : ℕ) → i < h.len → Le e (h.cells i)
    pub taken : (p : HeapEntry D → Bool) → bit (p e) + entries p h' ≡ entries p h
    pub size : h'.len + 1 ≡ h.len
    pub kept : h'.cap ≡ h.cap

  cut-DownInv : (a : Cells D) (n : ℕ) → 0 < n → Sifted a (suc n) → DownInv (update a 0 (a n)) n 0
  cut-DownInv a n above s = record {
    inside = above;
    timed = λ c h. ground (arith, s.0 c, s.0 n);
    edges = λ c c0 cn ne. ground (arith, s.1 c);
    bridged = λ c c0 cn e i0. absurd (omega arith);
  }

  -- The array of the heap after heap_pop.
  popped_cells : Cells D → ℕ → Cells D
  popped_cells a n = if ltb 0 n then sift_down n (update a 0 (a n)) n 0 else a

  popped-Sifted : (a : Cells D) (n : ℕ) → Sifted a (suc n) → Sifted (popped_cells a n) n
  unfolding popped_cells
  popped-Sifted a n s = elim (Bool-cases (ltb 0 n)) [
    | inl some_left ↦
        rw some_left (
          sift_down-Sifted n (update a 0 (a n)) n 0 (omega arith)
            (cut-DownInv a n (ground arith) s))
    | inr none_left ↦
        rw none_left ((λ c h. absurd (ground arith)), (λ c h k. absurd (ground arith)))
  ]

  popped-count :
      (a : Cells D) (n : ℕ) (p : HeapEntry D → Bool)
      → Sifted a (suc n)
      → bit (p (a 0)) + count p (popped_cells a n) n ≡ count p a (suc n)
  unfolding popped_cells count
  popped-count a n p s = elim (Bool-cases (ltb 0 n)) [
    | inl some_left ↦
        let above : 0 < n = ground arith in
        let cut = cut-DownInv a n above s in
        rw some_left (
          omega (
            arith,
            count-update p a n 0 (a n) above,
            count-sift_down p n (update a 0 (a n)) n 0 above cut.timed,
          ))
    | inr none_left ↦ rw none_left (let e : n ≡ 0 = ground arith in ground arith)
  ]

  -- heap_pop on a valid heap that is not empty returns an entry that no other comes before, and
  -- leaves a valid heap of exactly the others.
  pub heap_pop_correct :
      (h : EventHeap D)
      → IsValidHeap h
      → 0 < h.len
      → (e : HeapEntry D) × (h' : EventHeap D) × (heap_pop h ≡ some (e, h')) × Popped h e h'
  unfolding heap_pop popped_cells
  heap_pop_correct h v some_in =
      let n = h.len - 1 in
      let size : h.len ≡ suc n = omega arith in
      let s : Sifted h.cells (suc n) =
        rw size at (let t : Sifted h.cells h.len = (v.timed, v.heap) in t) in
      let s' = popped-Sifted h.cells n s in
      (
        h.cells 0,
        record h { len = n; cells = popped_cells h.cells n },
        ground arith,
        record {
          valid = record {
            fits = omega (arith, v.fits);
            backed = v.backed;
            timed = s'.0;
            heap = s'.1;
          };
          timed = v.timed 0 some_in;
          least = root_least h v;
          taken = λ p. ground (arith, popped-count h.cells n p s, size);
          size = omega arith;
          kept = refl;
        },
      )

  -- heap_peek and heap_pop agree: both fail exactly on the empty heap, and heap_pop returns the
  -- entry that heap_peek shows.
  pub heap_peek-heap_pop :
      (h : EventHeap D)
      → ((heap_peek h ≡ none) × (heap_pop h ≡ none))
        ⊎ ((e : HeapEntry D) × (h' : EventHeap D) × (heap_peek h ≡ some e)
            × (heap_pop h ≡ some (e, h')))
  unfolding heap_peek heap_pop
  heap_peek-heap_pop h = elim (Bool-cases (h.len == 0)) [
    | inl empty ↦ rw empty (inl (refl, refl))
    | inr full ↦ rw full (inr (_, _, refl, refl))
  ]
