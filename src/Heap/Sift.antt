-- ===== src/Heap/Sift.antt =====
-- src/heap.c: sift_up and sift_down restore the heap property.
use simpyc.Prelude.{ℕ, zero, suc, ◌+◌, ◌≤◌, ◌≢◌, inl, inr, arith, ltb, ◌==◌, Bool-cases, Double}
use simpyc.Heap.{Cells, entry_lt, swap, sift_up, best_of, sift_down}
use simpyc.Heap.Shape.{
  parent, AllTimed, IsHeap, UpInv, DownInv, swap-UpInv, best_of-IsBest, swap-DownInv,
}

module _ {D : Type 0} ⦃F : Double D⦄ where
  -- A heap of numbers.
  abbrev pub Sifted : Cells D → ℕ → Type 0
  Sifted a n = AllTimed a n × IsHeap a n

  pub sift_up-Sifted :
      (fuel : ℕ) (a : Cells D) (n i : ℕ) → i ≤ fuel → UpInv a n i → Sifted (sift_up fuel a i) n
  unfolding sift_up
  sift_up-Sifted zero a n i f v = (v.timed, λ c c0 cn. v.edges c c0 cn (omega arith))
  sift_up-Sifted (suc fuel) a n i f v = elim (Bool-cases (ltb 0 i)) [
    | inr root ↦ rw root (v.timed, λ c c0 cn. v.edges c c0 cn (ground arith))
    | inl above ↦ rw above (elim (Bool-cases (entry_lt (a i) (a (parent i)))) [
      | inr stay ↦ rw stay (v.timed, λ c c0 cn. ground (arith, v.edges c))
      | inl less ↦ rw less (
          sift_up-Sifted fuel (swap a i (parent i)) n (parent i) (ground arith)
            (swap-UpInv a n i v (ground arith) less))
    ])
  ]

  pub sift_down-Sifted :
      (fuel : ℕ) (a : Cells D) (n i : ℕ)
      → n ≤ fuel + i
      → DownInv a n i
      → Sifted (sift_down fuel a n i) n
  unfolding sift_down
  sift_down-Sifted zero a n i f v = absurd (omega (arith, v.inside))
  sift_down-Sifted (suc fuel) a n i f v =
      let s = best_of-IsBest a n i v.inside v.timed in
      let m = best_of a n i in
      elim (Bool-cases (m == i)) [
        | inl same ↦ rw same (v.timed, λ c c0 cn. ground (arith, v.edges c, s.least c))
        | inr other ↦
            let ne : m ≢ i = ground arith in
            rw other (
              sift_down-Sifted fuel (swap a i m) n m (omega (arith, (s.child ne).0, (s.child ne).1))
                (swap-DownInv a n i m v s ne))
      ]
