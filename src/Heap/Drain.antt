-- ===== src/Heap/Drain.antt =====
-- src/heap.c: heap_pop until it fails, behind any calls of heap_push: the queue as a whole.
use simpyc.Prelude.{
  ℕ, zero, suc, ◌+◌, ◌^◌, ◌≤◌, ◌<◌, ◌≡◌, sym, ap, Bool, false, none, some, List, [], ◌∷◌, arith,
  Double, length, All,
}
use simpyc.Heap.{HeapEntry, EventHeap, Cells, entry_lt, heap_init, heap_push, heap_pop}
use simpyc.Heap.Order.{IsTimed, Le}
use simpyc.Heap.Contents.{bit, count, count-none}
use simpyc.Heap.Queue.{
  IsValidHeap, entries, heap_init-IsValidHeap, heap_push-IsValidHeap, entries-heap_push,
  heap_push-len, heap_pop_correct,
}

module _ {D : Type 0} where
  -- How many entries of the list pass the test.
  abbrev pub among : (HeapEntry D → Bool) → List (HeapEntry D) → ℕ
  among p [] = 0
  among p (x ∷ xs) = bit (p x) + among p xs

module _ {D : Type 0} ⦃F : Double D⦄ where
  unfoldable pub push_all : EventHeap D → List (HeapEntry D) → EventHeap D
  push_all h [] = h
  push_all h (x ∷ xs) = push_all (heap_push h x) xs

  -- At most so many entries, in the order in which heap_pop returns them.
  unfoldable pub drain : ℕ → EventHeap D → List (HeapEntry D)
  drain zero h = []
  drain (suc k) h = elim (heap_pop h) [ none ↦ [] | some (x, h') ↦ x ∷ drain k h' ]

  -- No entry of the list comes before one that stands in front of it.
  abbrev pub IsOrdered : List (HeapEntry D) → Type 0
  IsOrdered [] = Unit
  IsOrdered (x ∷ xs) = All (λ y. Le x y) xs × IsOrdered xs

  All-among :
      (p : HeapEntry D → Bool) (xs : List (HeapEntry D))
      → among p xs ≡ 0
      → All (λ y. p y ≡ false) xs
  All-among p [] h = tt
  All-among p (x ∷ xs) h = (ground (arith, h), All-among p xs (omega (arith, h)))

  -- What draining a heap yields.
  record Drained (h : EventHeap D) (xs : List (HeapEntry D)) : Type 0 where
    ordered : IsOrdered xs
    same : (p : HeapEntry D → Bool) → among p xs ≡ entries p h

  drain-Drained : (k : ℕ) (h : EventHeap D) → IsValidHeap h → h.len ≡ k → Drained h (drain k h)
  unfolding drain count
  drain-Drained zero h v e = record {
    ordered = tt;
    same = λ p. ap (λ n. count p h.cells n) (sym e);
  }
  drain-Drained (suc k) h v e =
      let (x, h', popped, q) = heap_pop_correct h v (omega (arith, e)) in
      let d = drain-Drained k h' q.valid (omega (arith, q.size, e)) in
      let later : entries (λ y. entry_lt y x) h' ≡ 0 = omega (
        arith,
        q.taken (λ y. entry_lt y x),
        count-none (λ y. entry_lt y x) h.cells h.len q.least,
      ) in
      rw (popped, drain)
        (record {
          ordered = (
            All-among (λ y. entry_lt y x) (drain k h')
                (omega (arith, d.same (λ y. entry_lt y x), later)),
            d.ordered,
          );
          same = λ p. omega (arith, d.same p, q.taken p);
        })

  push_all-Pushed :
      (h : EventHeap D) (xs : List (HeapEntry D))
      → IsValidHeap h
      → All IsTimed xs
      → h.len + length xs ≤ 2 ^ 58
      → IsValidHeap (push_all h xs)
        × ((push_all h xs).len ≡ h.len + length xs)
        × ((p : HeapEntry D → Bool) → entries p (push_all h xs) ≡ among p xs + entries p h)
  unfolding push_all
  push_all-Pushed h [] v t room = (v, omega arith, λ p. omega arith)
  push_all-Pushed h (x ∷ xs) v t room =
      let len = heap_push-len h x in
      let small : h.len < 2 ^ 58 = omega arith in
      let (v', len', same') =
        push_all-Pushed (heap_push h x) xs (heap_push-IsValidHeap h x v t.0 small) t.1
          (omega (arith, len)) in
      (v', omega (arith, len, len'), λ p. omega (arith, same' p, entries-heap_push h x p v small))

  -- Up to 2^58 entries whose times are numbers, pushed in any order onto a new heap, come out again
  -- by heap_pop in the order of time, priority and sequence number: no entry comes out before one
  -- that it should wait for, and of each kind of entry as many come out as went in.
  pub drain-push_all :
      (junk : Cells D) (xs : List (HeapEntry D))
      → All IsTimed xs
      → length xs ≤ 2 ^ 58
      → let out = drain (length xs) (push_all (heap_init junk) xs) in
        IsOrdered out × ((p : HeapEntry D → Bool) → among p out ≡ among p xs)
  unfolding heap_init count
  drain-push_all junk xs timed room =
      let (v, len, same) =
        push_all-Pushed (heap_init junk) xs (heap_init-IsValidHeap junk) timed
          (omega (arith, room)) in
      let d = drain-Drained (length xs) (push_all (heap_init junk) xs) v (omega (arith, len)) in
      (d.ordered, λ p. omega (arith, d.same p, same p))
