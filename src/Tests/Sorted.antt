-- ===== src/Tests/Sorted.antt =====
-- The sorted lists.
use simpyc.SortedQueue.Order.{insert-Placed, Placed, insert-IsSorted, IsSorted, insert-perm}
use mathlib.Core.List.{Perm}
use simpyc.Prelude.{ℕ, refl, List, [], ◌∷◌, arith, pos}
use simpyc.SortedQueue.{Node, insert, goes_before}

abbrev node : ℕ → ℕ → Node ℕ
node p s = record { priority = pos p; seq = s; payload = s }

abbrev line : List (Node ℕ)
line = node 1 0 ∷ node 2 1 ∷ node 2 2 ∷ []

line-IsSorted : IsSorted line
unfolding goes_before
line-IsSorted = ((refl, (refl, tt)), ((refl, tt), (tt, tt)))

insert-IsSorted_example : IsSorted (insert (node 1 3) line)
insert-IsSorted_example = insert-IsSorted (node 1 3) line line-IsSorted

insert-perm_example : Perm (insert (node 1 3) line) (node 1 3 ∷ line)
insert-perm_example = insert-perm (node 1 3) line

insert-Placed_example : Placed (node 1 3) line
insert-Placed_example =
    insert-Placed (node 1 3) line line-IsSorted (omega arith, (omega arith, (omega arith, tt)))
