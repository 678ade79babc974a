-- ===== src/Micro.antt =====
-- benchmarking/c/micro.c: the choice of benchmarks by name. A string of C is the list of its bytes
-- before the 0. strchr, strlen and memcmp are as in the C library. The measuring is not modelled.
pub mod Benches
pub mod Names
use simpyc.Prelude.{
  ℕ, zero, suc, ◌+◌, Bool, true, false, ◌&&◌, Option, none, some, List, [], ◌∷◌, ◌==◌,
  if◌then◌else◌, length, take, drop,
}

abbrev pub comma : ℕ
comma = b','

abbrev pub is_empty : List ℕ → Bool
is_empty [] = true
is_empty (c ∷ cs) = false

-- Whether two byte strings are the same.
abbrev pub same : List ℕ → List ℕ → Bool
same [] [] = true
same [] (y ∷ ys) = false
same (x ∷ xs) [] = false
same (x ∷ xs) (y ∷ ys) = x == y && same xs ys

-- strchr, by the offset of what it finds.
abbrev pub strchr : List ℕ → ℕ → Option ℕ
strchr [] c = none
strchr (x ∷ xs) c =
    if x == c then some 0 else elim (strchr xs c) [ none ↦ none | some i ↦ some (i + 1) ]

-- `len == nl && memcmp(p, name, nl) == 0`.
abbrev pub names_field : List ℕ → ℕ → List ℕ → Bool
names_field p len name = len == length name && same (take (length name) p) name

-- The loop. `none` means that the fuel ran out.
unfoldable pub name_loop : ℕ → List ℕ → List ℕ → Option Bool
name_loop zero name p = none
name_loop (suc fuel) name p = if is_empty p then some false else elim (strchr p comma) [
  | none ↦ some (names_field p (length p) name)
  | some len ↦
      (let rest = name_loop fuel name (drop (len + 1) p) in
        if names_field p len name then some true else rest)
]

-- Each round goes past at least one byte.
unfoldable pub name_in_set : List ℕ → Option (List ℕ) → Option Bool
unfolding name_loop
name_in_set name none = some true
name_in_set name (some csv) = name_loop (length csv + 1) name csv
