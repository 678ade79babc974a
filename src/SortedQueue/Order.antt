-- ===== src/SortedQueue/Order.antt =====
-- The sorted insertion of src/priority_resource.c and its two siblings keeps the list in the order
-- of priority and number, and adds the node and nothing else.
use mathlib.Core.List.{Perm}
use mathlib.Core.List.Perm
use simpyc.Prelude.{
  ◌++◌, ap, ℕ, ◌+◌, ◌≤◌, ◌<◌, ◌≡◌, refl, inl, inr, true, false, List, [], ◌∷◌, arith, Bool-cases,
  ltb_ℤ, length, All,
}
use simpyc.SortedQueue.{Node, goes_before, insert}

module _ {ℓ} {A : Type ℓ} where
  -- `x` need not wait for `y`.
  abbrev pub Le : Node A → Node A → Type 0
  Le x y = goes_before y x ≡ false

  pub Le-asym : (n x : Node A) → goes_before n x ≡ true → Le n x
  unfolding goes_before
  Le-asym n x h = ground arith

  pub Le-trans : (x y z : Node A) → Le x y → Le y z → Le x z
  unfolding goes_before
  Le-trans x y z h k = ground arith

  abbrev pub IsSorted : List (Node A) → Type 0
  IsSorted [] = Unit
  IsSorted (x ∷ xs) = All (Le x) xs × IsSorted xs

  -- The numbers of the nodes are below the next one.
  abbrev pub IsNumbered : ℕ → List (Node A) → Type 0
  IsNumbered n = All (λ x. x.seq < n)

  All-Le : (n x : Node A) (xs : List (Node A)) → Le n x → All (Le x) xs → All (Le n) xs
  All-Le n x [] h a = tt
  All-Le n x (y ∷ ys) h a = (Le-trans n x y h a.0, All-Le n x ys h a.1)

  pub All-insert {κ} :
      (P : Node A → Type κ) (n : Node A) (xs : List (Node A)) → P n → All P xs → All P (insert n xs)
  unfolding insert
  All-insert P n [] h a = (h, tt)
  All-insert P n (x ∷ xs) h a = elim (Bool-cases (goes_before n x)) [
    | inl here ↦ rw here (h, a)
    | inr past ↦ rw past (a.0, All-insert P n xs h a.1)
  ]

  -- Insertion keeps a list in the order of priority and number.
  pub insert-IsSorted : (n : Node A) (xs : List (Node A)) → IsSorted xs → IsSorted (insert n xs)
  unfolding insert
  insert-IsSorted n [] s = (tt, tt)
  insert-IsSorted n (x ∷ xs) s = elim (Bool-cases (goes_before n x)) [
    | inl here ↦ let le = Le-asym n x here in rw here ((le, All-Le n x xs le s.0), s)
    | inr past ↦ rw past (All-insert (Le x) n xs past s.0, insert-IsSorted n xs s.1)
  ]

  -- Insertion adds the node, once, and loses none of the others.
  pub insert-perm : (n : Node A) (xs : List (Node A)) → Perm (insert n xs) (n ∷ xs)
  unfolding insert
  insert-perm n [] = Perm.refl (n ∷ [])
  insert-perm n (x ∷ xs) = elim (Bool-cases (goes_before n x)) [
    | inl here ↦ rw here (Perm.refl (n ∷ x ∷ xs))
    | inr past ↦ rw past (Perm.trans (Perm.cons x (insert-perm n xs)) (Perm.swap n x xs))
  ]

  pub length-insert : (n : Node A) (xs : List (Node A)) → length (insert n xs) ≡ length xs + 1
  unfolding insert
  length-insert n [] = omega arith
  length-insert n (x ∷ xs) = ground (arith, length-insert n xs)

  -- The node stands between those that are not behind it in priority, which come first, and those
  -- that are.
  pub record Placed (n : Node A) (xs : List (Node A)) : Type ℓ where
    pub ahead : List (Node A)
    pub behind : List (Node A)
    pub split : xs ≡ ahead ++ behind
    pub result : insert n xs ≡ ahead ++ n ∷ behind
    pub no_less_urgent : All (λ x. ltb_ℤ n.priority x.priority ≡ false) ahead
    pub less_urgent : All (λ x. ltb_ℤ n.priority x.priority ≡ true) behind

  Le-less_urgent :
      (n x : Node A) (xs : List (Node A))
      → ltb_ℤ n.priority x.priority ≡ true
      → All (Le x) xs
      → All (λ y. ltb_ℤ n.priority y.priority ≡ true) xs
  unfolding goes_before
  Le-less_urgent n x [] h a = tt
  Le-less_urgent n x (y ∷ ys) h a =
      (let le = a.0 in ground (arith, h, le), Le-less_urgent n x ys h a.1)

  -- In a sorted list, a node with a number above all the others goes behind all the nodes of its
  -- priority or a more urgent one and before all the less urgent ones: among equals the first to
  -- come is the first to be served.
  pub insert-Placed :
      (n : Node A) (xs : List (Node A)) → IsSorted xs → IsNumbered n.seq xs → Placed n xs
  unfolding insert goes_before
  insert-Placed n [] s h = record {
    ahead = [];
    behind = [];
    split = refl;
    result = refl;
    no_less_urgent = tt;
    less_urgent = tt;
  }
  insert-Placed n (x ∷ xs) s h = elim (Bool-cases (ltb_ℤ n.priority x.priority)) [
    | inl less ↦ record {
      ahead = [];
      behind = x ∷ xs;
      split = refl;
      result = ground (arith, less);
      no_less_urgent = tt;
      less_urgent = (less, Le-less_urgent n x xs less s.0);
    }
    | inr more ↦
        let p = insert-Placed n xs s.1 h.1 in
        let lower = h.0 in
        record {
          ahead = x ∷ p.ahead;
          behind = p.behind;
          split = ap (λ l. x ∷ l) p.split;
          result = ground (arith, more, lower, p.result);
          no_less_urgent = (more, p.no_less_urgent);
          less_urgent = p.less_urgent;
        }
  ]

  pub IsNumbered-mono : (m n : ℕ) (xs : List (Node A)) → m ≤ n → IsNumbered m xs → IsNumbered n xs
  IsNumbered-mono m n [] h a = tt
  IsNumbered-mono m n (x ∷ xs) h a = (omega arith, IsNumbered-mono m n xs h a.1)
