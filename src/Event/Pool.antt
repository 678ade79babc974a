-- ===== src/Event/Pool.antt =====
-- src/event.c: the free list of recycled events, as the chain of `free_next` from `event_pool`.
use simpyc.Prelude.{
  ℕ, ◌≤◌, ◌<◌, ◌≡◌, refl, sym, ◌∙◌, Bool, true, false, ◌||◌, Option, none, some, List, [], ◌∷◌,
  arith, ◌==◌, update,
}
use simpyc.State.{SimEvent}
use simpyc.Event.{is_processed}

-- The chain from a pointer runs through exactly these events.
abbrev pub Chain : (ℕ → SimEvent) → Option ℕ → List ℕ → Type 0
Chain ev none [] = Unit
Chain ev none (x ∷ xs) = ⊥
Chain ev (some p) [] = ⊥
Chain ev (some p) (x ∷ xs) = (p ≡ x) × Chain ev (ev x).free_next xs

abbrev pub mem : ℕ → List ℕ → Bool
mem e [] = false
mem e (x ∷ xs) = e == x || mem e xs

abbrev pub Distinct : List ℕ → Type 0
Distinct [] = Unit
Distinct (x ∷ xs) = (mem x xs ≡ false) × Distinct xs

-- Each event of the list has been processed and is one of the first `n`.
abbrev pub Retired : (ℕ → SimEvent) → ℕ → List ℕ → Type 0
Retired ev n [] = Unit
Retired ev n (x ∷ xs) = (is_processed (ev x).state ≡ true) × (x < n) × Retired ev n xs

-- A write that leaves `free_next` alone leaves the chain alone.
pub Chain-touch :
    (ev : ℕ → SimEvent) (e : ℕ) (v : SimEvent) (p : Option ℕ) (xs : List ℕ)
    → v.free_next ≡ (ev e).free_next
    → Chain ev p xs
    → Chain (update ev e v) p xs
Chain-touch ev e v none [] k c = tt
Chain-touch ev e v none (x ∷ xs) k c = c
Chain-touch ev e v (some p) [] k c = c
Chain-touch ev e v (some p) (x ∷ xs) k (px, c) =
    let same : (update ev e v x).free_next ≡ (ev x).free_next = ground arith in
    (px, rw same (Chain-touch ev e v (ev x).free_next xs k c))

-- So does a write to an event that is not in it.
pub Chain-outside :
    (ev : ℕ → SimEvent) (e : ℕ) (v : SimEvent) (p : Option ℕ) (xs : List ℕ)
    → mem e xs ≡ false
    → Chain ev p xs
    → Chain (update ev e v) p xs
Chain-outside ev e v none [] k c = tt
Chain-outside ev e v none (x ∷ xs) k c = c
Chain-outside ev e v (some p) [] k c = c
Chain-outside ev e v (some p) (x ∷ xs) k (px, c) =
    let same : (update ev e v x).free_next ≡ (ev x).free_next = ground arith in
    (px, rw same (Chain-outside ev e v (ev x).free_next xs (ground arith) c))

pub Retired-touch :
    (ev : ℕ → SimEvent) (e : ℕ) (v : SimEvent) (n : ℕ) (xs : List ℕ)
    → v.state ≡ (ev e).state
    → Retired ev n xs
    → Retired (update ev e v) n xs
Retired-touch ev e v n [] k r = tt
Retired-touch ev e v n (x ∷ xs) k r = (ground arith, r.1, Retired-touch ev e v n xs k r.2)

pub Retired-outside :
    (ev : ℕ → SimEvent) (e : ℕ) (v : SimEvent) (n : ℕ) (xs : List ℕ)
    → mem e xs ≡ false
    → Retired ev n xs
    → Retired (update ev e v) n xs
Retired-outside ev e v n [] k r = tt
Retired-outside ev e v n (x ∷ xs) k r =
    (ground arith, r.1, Retired-outside ev e v n xs (ground arith) r.2)

pub Retired-mono :
    (ev : ℕ → SimEvent) (m n : ℕ) (xs : List ℕ) → m ≤ n → Retired ev m xs → Retired ev n xs
Retired-mono ev m n [] h r = tt
Retired-mono ev m n (x ∷ xs) h r = (r.0, omega arith, Retired-mono ev m n xs h r.2)

-- An event that has not been processed is not in the pool.
pub not_mem_live :
    (ev : ℕ → SimEvent) (e n : ℕ) (xs : List ℕ)
    → is_processed (ev e).state ≡ false
    → Retired ev n xs
    → mem e xs ≡ false
not_mem_live ev e n [] k r = refl
not_mem_live ev e n (x ∷ xs) k r = ground (arith, not_mem_live ev e n xs k r.2)

-- Nor is one that was never allocated.
pub not_mem_above :
    (ev : ℕ → SimEvent) (e n : ℕ) (xs : List ℕ) → n ≤ e → Retired ev n xs → mem e xs ≡ false
not_mem_above ev e n [] k r = refl
not_mem_above ev e n (x ∷ xs) k r = ground (arith, not_mem_above ev e n xs k r.2)

-- A list that the chain runs through is the only one.
pub Chain-mem :
    (ev : ℕ → SimEvent) (e : ℕ) (p : Option ℕ) (xs ys : List ℕ)
    → Chain ev p xs
    → Chain ev p ys
    → mem e xs ≡ mem e ys
Chain-mem ev e none [] [] c d = refl
Chain-mem ev e none [] (y ∷ ys) c d = absurd d
Chain-mem ev e none (x ∷ xs) ys c d = absurd c
Chain-mem ev e (some p) [] ys c d = absurd c
Chain-mem ev e (some p) (x ∷ xs) [] c d = absurd d
Chain-mem ev e (some p) (x ∷ xs) (y ∷ ys) (px, c) (py, d) =
    let same : x ≡ y = sym px ∙ py in
    let rest = Chain-mem ev e (ev x).free_next xs ys c (rw (← same) at d) in
    ground (arith, rest, same)
