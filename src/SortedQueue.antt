-- ===== src/SortedQueue.antt =====
-- The sorted linked lists of src/priority_resource.c, src/preemptive_resource.c and
-- src/priority_store.c, which run the same insertion over nodes that carry different things.
pub mod Order
use simpyc.Prelude.{
  ℕ, ◌+◌, Bool, true, ◌&&◌, List, [], ◌∷◌, ltb, ◌==◌, if◌then◌else◌, ℤ, pos_part, neg_part, ltb_ℤ,
}

pub record Node {ℓ} (A : Type ℓ) : Type ℓ where
  pub priority : ℤ
  pub seq : ℕ
  pub payload : A

abbrev pub eqb_ℤ : ℤ → ℤ → Bool
eqb_ℤ a b = (pos_part a + neg_part b) == (pos_part b + neg_part a)

module _ {ℓ} {A : Type ℓ} where
  -- The test by which the walk along the list stops.
  unfoldable pub goes_before : Node A → Node A → Bool
  goes_before n x =
      if ltb_ℤ n.priority x.priority then true else eqb_ℤ n.priority x.priority && ltb n.seq x.seq

  unfoldable pub insert : Node A → List (Node A) → List (Node A)
  insert n [] = n ∷ []
  insert n (x ∷ xs) = if goes_before n x then n ∷ x ∷ xs else x ∷ insert n xs
