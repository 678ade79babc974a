-- ===== src/Tests/Names.antt =====
-- The choice of benchmarks.
use simpyc.Prelude.{ℕ, ◌≡◌, refl, true, false, none, some, List, [], ◌∷◌}
use simpyc.Micro.{name_in_set, comma}
use simpyc.Micro.Names.{join, name_in_set-join}

-- "store" and "anyof".
abbrev store_name : List ℕ
store_name = b's' ∷ b't' ∷ b'o' ∷ b'r' ∷ b'e' ∷ []

abbrev anyof_name : List ℕ
anyof_name = b'a' ∷ b'n' ∷ b'y' ∷ b'o' ∷ b'f' ∷ []

abbrev chosen : List (List ℕ)
chosen = anyof_name ∷ store_name ∷ []

name_in_set-join_example :
    (name_in_set store_name none ≡ some true)
    × (name_in_set store_name (some (join chosen)) ≡ some true)
name_in_set-join_example =
    name_in_set-join store_name chosen (λ e. cc)
      ((refl, (refl, (refl, (refl, (refl, tt))))), ((refl, (refl, (refl, (refl, (refl, tt))))), tt))

-- A name of which another is the beginning is not chosen, and an empty name at the end is not seen.
stored : name_in_set (store_name) (some (b's' ∷ b't' ∷ [])) ≡ some false
unfolding name_in_set
stored = refl

unnamed : name_in_set [] (some (b's' ∷ comma ∷ [])) ≡ some false
unfolding name_in_set
unnamed = refl
