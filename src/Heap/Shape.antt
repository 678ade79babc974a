-- ===== src/Heap/Shape.antt =====
-- src/heap.c: the heap property of the array, and what a swap does to it.
use simpyc.Prelude.{
  ℕ, ◌+◌, ◌-◌, ◌*◌, ◌/◌, ◌<◌, ◌≡◌, ◌≢◌, ◌⊎◌, true, arith, ◌==◌, if◌then◌else◌, Double,
}
use simpyc.Heap.{Cells, entry_lt, swap, best_of}
use simpyc.Heap.Order.{IsTimed, Le, entry_lt_irrefl, entry_lt_asym, Le-trans}

abbrev pub parent : ℕ → ℕ
parent i = (i - 1) / 2

pub swap_lem :
    {D : Type 0} (a : Cells D) (i j c : ℕ)
    → swap a i j c ≡ (if c == j then a i else if c == i then a j else a c)
unfolding swap
swap_lem a i j c = ground arith

module _ {D : Type 0} ⦃F : Double D⦄ where
  -- The first `n` times are numbers.
  abbrev pub AllTimed : Cells D → ℕ → Type 0
  AllTimed a n = (c : ℕ) → c < n → IsTimed (a c)

  -- No entry among the first `n` comes before its parent.
  abbrev pub IsHeap : Cells D → ℕ → Type 0
  IsHeap a n = (c : ℕ) → 0 < c → c < n → Le (a (parent c)) (a c)

  -- The edges past `i`, from its parent to its children, are in order.
  abbrev IsBridged : Cells D → ℕ → ℕ → Type 0
  IsBridged a n i = (c : ℕ) → 0 < c → c < n → parent c ≡ i → 0 < i → Le (a (parent i)) (a c)

  -- Only the edge above `i` may be out of order.
  pub record UpInv (a : Cells D) (n i : ℕ) : Type 0 where
    pub inside : i < n
    pub timed : AllTimed a n
    pub edges : (c : ℕ) → 0 < c → c < n → c ≢ i → Le (a (parent c)) (a c)
    pub bridged : IsBridged a n i

  -- Only the edges below `i` may be out of order.
  pub record DownInv (a : Cells D) (n i : ℕ) : Type 0 where
    pub inside : i < n
    pub timed : AllTimed a n
    pub edges : (c : ℕ) → 0 < c → c < n → parent c ≢ i → Le (a (parent c)) (a c)
    pub bridged : IsBridged a n i

  pub swap-AllTimed :
      (a : Cells D) (n i j : ℕ) → i < n → j < n → AllTimed a n → AllTimed (swap a i j) n
  swap-AllTimed a n i j hi hj t c h = ground (arith, swap_lem a i j c, t c, t i, t j)

  pub swap-UpInv :
      (a : Cells D) (n i : ℕ)
      → UpInv a n i
      → 0 < i
      → entry_lt (a i) (a (parent i)) ≡ true
      → UpInv (swap a i (parent i)) n (parent i)
  swap-UpInv a n i v above less =
      let p = parent i in
      let hp : p < n = omega (arith, v.inside) in
      let at = swap_lem a i p in
      record {
        inside = hp;
        timed = swap-AllTimed a n i p v.inside hp v.timed;
        edges = λ c c0 cn ne. ground (
          arith,
          at c,
          at (parent c),
          v.edges c,
          v.bridged c,
          v.timed c,
          v.timed i,
          v.timed p,
          entry_lt_asym (a i) (a p),
          Le-trans (a i) (a p) (a c),
        );
        bridged = λ c c0 cn e p0. ground (
          arith,
          at c,
          at (parent p),
          v.edges c,
          v.edges p,
          v.timed c,
          v.timed p,
          v.timed (parent p),
          Le-trans (a (parent p)) (a p) (a c),
        );
      }

  -- `m` is the least of `i` and its children below `n`.
  pub record IsBest (a : Cells D) (n i m : ℕ) : Type 0 where
    pub inside : m < n
    pub child : m ≢ i → (0 < m) × (parent m ≡ i) × (entry_lt (a m) (a i) ≡ true)
    pub least : (c : ℕ) → 0 < c → c < n → parent c ≡ i → Le (a m) (a c)

  pub best_of-IsBest : (a : Cells D) (n i : ℕ) → i < n → AllTimed a n → IsBest a n i (best_of a n i)
  unfolding best_of
  best_of-IsBest a n i h t =
      let l = 2 * i + 1 in
      let r = l + 1 in
      record {
        inside = ground arith;
        child = λ ne.
            ground (arith, t i h, t l, t r, Le-trans (a i) (a r) (a l), entry_lt_asym (a r) (a l));
        least = λ c c0 cn e.
            let side : (c ≡ l) ⊎ (c ≡ r) = omega arith in
            ground (
              arith,
              side,
              t i h,
              t l,
              t r,
              entry_lt_asym (a r) (a l),
              entry_lt_asym (a l) (a i),
              entry_lt_asym (a r) (a i),
              entry_lt_irrefl (a l),
              entry_lt_irrefl (a r),
              Le-trans (a i) (a r) (a l),
              Le-trans (a r) (a i) (a l),
            );
      }

  pub swap-DownInv :
      (a : Cells D) (n i m : ℕ) → DownInv a n i → IsBest a n i m → m ≢ i → DownInv (swap a i m) n m
  swap-DownInv a n i m v s ne =
      let at = swap_lem a i m in
      let (m0, pm, less) = s.child ne in
      record {
        inside = s.inside;
        timed = swap-AllTimed a n i m v.inside s.inside v.timed;
        edges = λ c c0 cn e. ground (
          arith,
          at c,
          at (parent c),
          v.edges c,
          v.bridged m m0 s.inside pm,
          s.least c,
          less,
          pm,
          entry_lt_asym (a m) (a i),
        );
        bridged = λ c c0 cn e p0. ground (arith, at c, at (parent m), v.edges c, pm, ne);
      }
