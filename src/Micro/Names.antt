-- ===== src/Micro/Names.antt =====
-- benchmarking/c/micro.c: name_in_set against a list of names.
use mathlib.Core.List.{append-nil}
use simpyc.Prelude.{
  ℕ, zero, suc, ◌+◌, ◌<◌, ◌≡◌, refl, sym, ap, ◌∙◌, ◌≢◌, Bool, true, false, ◌||◌, none, some, List,
  [], ◌∷◌, ◌++◌, arith, ◌==◌, if◌then◌else◌, length, length-append, drop, All,
}
use simpyc.Micro.{comma, is_empty, same, strchr, names_field, name_loop, name_in_set}

-- The names with commas between them.
abbrev pub join : List (List ℕ) → List ℕ
join [] = []
join (f ∷ []) = f
join (f ∷ g ∷ fs) = f ++ comma ∷ join (g ∷ fs)

abbrev pub is_among : List ℕ → List (List ℕ) → Bool
is_among name [] = false
is_among name (f ∷ fs) = same f name || is_among name fs

-- The name has no comma in it.
abbrev pub IsPlain : List ℕ → Type 0
IsPlain f = All (λ c. (c == comma) ≡ false) f

strchr-comma : (f rest : List ℕ) → IsPlain f → strchr (f ++ comma ∷ rest) comma ≡ some (length f)
strchr-comma [] rest p = refl
strchr-comma (c ∷ f) rest p = rw (p.0, strchr-comma f rest p.1) (ap some (omega arith))

strchr-none : (f : List ℕ) → IsPlain f → strchr f comma ≡ none
strchr-none [] p = refl
strchr-none (c ∷ f) p = rw (p.0, strchr-none f p.1) refl

drop-append : (f rest : List ℕ) → drop (length f + 1) (f ++ comma ∷ rest) ≡ rest
drop-append [] rest = refl
drop-append (c ∷ f) rest =
    let e : suc (length f) + 1 ≡ suc (length f + 1) = omega arith in rw e (drop-append f rest)

-- The test compares the field with the name, whatever stands behind the field.
names_field-same : (f rest name : List ℕ) → names_field (f ++ rest) (length f) name ≡ same f name
names_field-same [] rest [] = refl
names_field-same [] rest (y ∷ ys) = ground arith
names_field-same (x ∷ f) rest [] = ground arith
names_field-same (x ∷ f) rest (y ∷ ys) = ground (arith, names_field-same f rest ys)

is_empty-append : (f rest : List ℕ) → is_empty (f ++ comma ∷ rest) ≡ false
is_empty-append [] rest = refl
is_empty-append (c ∷ f) rest = refl

not_same : (name : List ℕ) → name ≢ [] → same [] name ≡ false
not_same [] h = absurd (h refl)
not_same (y ∷ ys) h = refl

-- A round of the loop at the last field, and at another.
last_round :
    (fuel : ℕ) (name p : List ℕ)
    → is_empty p ≡ false
    → strchr p comma ≡ none
    → name_loop (suc fuel) name p ≡ some (names_field p (length p) name)
unfolding name_loop
last_round fuel name p full e = rw (full, e) refl

round :
    (fuel : ℕ) (name p : List ℕ) (len : ℕ)
    → is_empty p ≡ false
    → strchr p comma ≡ some len
    → name_loop (suc fuel) name p
      ≡ (if names_field p len name then some true else name_loop fuel name (drop (len + 1) p))
unfolding name_loop
round fuel name p len full e = rw (full, e) refl

last_field :
    (fuel : ℕ) (name f : List ℕ)
    → name ≢ []
    → IsPlain f
    → name_loop (suc fuel) name f ≡ some (same f name)
unfolding name_loop
last_field fuel name [] named p = ap some (sym (not_same name named))
last_field fuel name (c ∷ f) named p =
    last_round fuel name (c ∷ f) refl (strchr-none (c ∷ f) p)
    ∙ ap some (
        ap (λ l. names_field l (length (c ∷ f)) name) (sym (append-nil (c ∷ f)))
        ∙ names_field-same (c ∷ f) [] name)

name_loop-is_among :
    (fuel : ℕ) (name : List ℕ) (fs : List (List ℕ))
    → name ≢ []
    → All IsPlain fs
    → length (join fs) < fuel
    → name_loop fuel name (join fs) ≡ some (is_among name fs)
name_loop-is_among zero name fs named p room = absurd (omega (arith, room))
name_loop-is_among (suc fuel) name [] named p room = unfold name_loop in refl
name_loop-is_among (suc fuel) name (f ∷ []) named p room =
    last_field fuel name f named p.0 ∙ ap some (ground arith)
name_loop-is_among (suc fuel) name (f ∷ g ∷ fs) named p room =
    let rest = join (g ∷ fs) in
    let line = f ++ comma ∷ rest in
    let size = length-append f (comma ∷ rest) in
    let ih = name_loop-is_among fuel name (g ∷ fs) named p.1 (omega (arith, size, room)) in
    let next : name_loop fuel name (drop (length f + 1) line) ≡ some (is_among name (g ∷ fs)) =
      ap (λ l. name_loop fuel name l) (drop-append f rest) ∙ ih in
    round fuel name line (length f) (is_empty-append f rest) (strchr-comma f rest p.0)
    ∙ rw (names_field-same f (comma ∷ rest) name, next) (ground arith)

-- name_in_set always returns. Without a list every benchmark is chosen; with names that hold no
-- comma, joined by commas, exactly those benchmarks of which the name is among them, as long as the
-- benchmark has a name.
pub name_in_set-join :
    (name : List ℕ) (fs : List (List ℕ))
    → name ≢ []
    → All IsPlain fs
    → (name_in_set name none ≡ some true)
      × (name_in_set name (some (join fs)) ≡ some (is_among name fs))
unfolding name_in_set
name_in_set-join name fs named p =
    (refl, name_loop-is_among (length (join fs) + 1) name fs named p (omega arith))
