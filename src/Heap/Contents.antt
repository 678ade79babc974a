-- ===== src/Heap/Contents.antt =====
-- src/heap.c: the entries that the array holds, as a multiset. Two arrays hold the same entries if
-- every test counts as many in one as in the other.
use simpyc.Prelude.{
  ℕ, zero, suc, ◌+◌, ◌≤◌, ◌<◌, ◌≡◌, refl, inl, inr, Bool, true, false, arith, ◌==◌, Bool-cases,
  Double, update,
}
use simpyc.Heap.{HeapEntry, Cells, swap, sift_up, best_of, sift_down}
use simpyc.Heap.Shape.{AllTimed, best_of-IsBest, parent, swap-AllTimed}

abbrev pub bit : Bool → ℕ
bit true = 1
bit false = 0

module _ {D : Type 0} where
  -- How many of the first `n` entries pass the test.
  unfoldable pub count : (HeapEntry D → Bool) → Cells D → ℕ → ℕ
  count p a zero = 0
  count p a (suc n) = bit (p (a n)) + count p a n

  -- A test that no entry passes counts none.
  pub count-none :
      (p : HeapEntry D → Bool) (a : ℕ → HeapEntry D) (n : ℕ)
      → ((i : ℕ) → i < n → p (a i) ≡ false)
      → count p a n ≡ 0
  unfolding count
  count-none p a zero h = refl
  count-none p a (suc n) h = ground (arith, h n, count-none p a n (λ i k. h i (omega arith)))

  pub count-update_past :
      (p : HeapEntry D → Bool) (a : Cells D) (n k : ℕ) (e : HeapEntry D)
      → n ≤ k
      → count p (update a k e) n ≡ count p a n
  unfolding count
  count-update_past p a zero k e h = refl
  count-update_past p a (suc n) k e h = ground (arith, count-update_past p a n k e)

  -- A write trades the old entry for the new one.
  pub count-update :
      (p : HeapEntry D → Bool) (a : Cells D) (n k : ℕ) (e : HeapEntry D)
      → k < n
      → count p (update a k e) n + bit (p (a k)) ≡ count p a n + bit (p e)
  unfolding count
  count-update p a zero k e h = absurd (omega arith)
  count-update p a (suc n) k e h = elim (Bool-cases (n == k)) [
    | inl last ↦ ground (arith, count-update_past p a n k e)
    | inr other ↦ ground (arith, count-update p a n k e)
  ]

  pub count-swap :
      (p : HeapEntry D → Bool) (a : Cells D) (n i j : ℕ)
      → i < n
      → j < n
      → count p (swap a i j) n ≡ count p a n
  unfolding swap
  count-swap p a n i j hi hj =
      ground (arith, count-update p a n i (a j) hi, count-update p (update a i (a j)) n j (a i) hj)

module _ {D : Type 0} ⦃F : Double D⦄ (p : HeapEntry D → Bool) where
  pub count-sift_up :
      (fuel : ℕ) (a : Cells D) (n i : ℕ) → i < n → count p (sift_up fuel a i) n ≡ count p a n
  unfolding sift_up
  count-sift_up zero a n i h = refl
  count-sift_up (suc fuel) a n i h =
      let up = parent i in
      let hp : up < n = omega arith in
      ground (arith, count-swap p a n i up h hp, count-sift_up fuel (swap a i up) n up hp)

  pub count-sift_down :
      (fuel : ℕ) (a : Cells D) (n i : ℕ)
      → i < n
      → AllTimed a n
      → count p (sift_down fuel a n i) n ≡ count p a n
  unfolding sift_down
  count-sift_down zero a n i h t = refl
  count-sift_down (suc fuel) a n i h t =
      let m = best_of a n i in
      let hm = (best_of-IsBest a n i h t).inside in
      ground (
        arith,
        count-swap p a n i m h hm,
        count-sift_down fuel (swap a i m) n m hm (swap-AllTimed a n i m h hm t),
      )
