-- ===== src/PreemptiveResource/Weakest.antt =====
-- src/preemptive_resource.c: the search for the weakest holder and the removal of holders.
use mathlib.Core.List.{Perm}
use mathlib.Core.List.Perm
use simpyc.Prelude.{
  ℕ, zero, suc, ◌+◌, ◌≡◌, refl, sym, ap, ◌∙◌, ◌⊎◌, inl, inr, true, false, none, some, List, [], ◌∷◌,
  arith, ◌==◌, Bool-cases, Option-cases, ltb_ℤ, length, All, get_elem?,
}
use simpyc.PreemptiveResource.{Holder, weakest_from, find_weakest, unlink_at, unlink_request}

-- The holder `h` is at least as weak as `x`.
abbrev pub IsWeaker : Holder → Holder → Type 0
IsWeaker h x = ltb_ℤ h.priority x.priority ≡ false

-- The walk returns its best candidate or one that it met, with its place.
weakest_from-place :
    (best : Holder) (at i : ℕ) (hs : List Holder)
    → let (h, k) = weakest_from best at i hs in
      ((h ≡ best) × (k ≡ at)) ⊎ ((j : ℕ) × (k ≡ i + j) × (get_elem? hs j ≡ some h))
unfolding weakest_from
weakest_from-place best at i [] = inl (refl, refl)
weakest_from-place best at i (x ∷ hs) = elim (Bool-cases (ltb_ℤ best.priority x.priority)) [
  | inl worse ↦
      rw (worse, weakest_from)
        (elim (weakest_from-place x i (i + 1) hs) [
          | inl (e, f) ↦ inr (0, omega (arith, f), ap some (sym e))
          | inr (j, f, g) ↦ inr (suc j, omega (arith, f), g)
        ])
  | inr better ↦
      rw (better, weakest_from)
        (elim (weakest_from-place best at (i + 1) hs) [
          | inl (e, f) ↦ inl (e, f)
          | inr (j, f, g) ↦ inr (suc j, omega (arith, f), g)
        ])
]

IsWeaker-trans : (a b c : Holder) → IsWeaker a b → IsWeaker b c → IsWeaker a c
IsWeaker-trans a b c h k = ground arith

-- One step of the walk, by the test.
weakest_from-worse :
    (best x : Holder) (at i : ℕ) (hs : List Holder)
    → ltb_ℤ best.priority x.priority ≡ true
    → weakest_from best at i (x ∷ hs) ≡ weakest_from x i (i + 1) hs
unfolding weakest_from
weakest_from-worse best x at i hs h = rw (h, weakest_from)

weakest_from-better :
    (best x : Holder) (at i : ℕ) (hs : List Holder)
    → ltb_ℤ best.priority x.priority ≡ false
    → weakest_from best at i (x ∷ hs) ≡ weakest_from best at (i + 1) hs
unfolding weakest_from
weakest_from-better best x at i hs h = rw (h, weakest_from)

-- What it returns is weaker than the candidate and than all that it met.
weakest_from-IsWeaker :
    (best : Holder) (at i : ℕ) (hs : List Holder) (r : Holder × ℕ)
    → weakest_from best at i hs ≡ r
    → IsWeaker r.0 best × All (IsWeaker r.0) hs
weakest_from-IsWeaker best at i [] r e =
    let same : best ≡ r.0 = unfold weakest_from in ap (λ p. p.0) e in
    (rw (← same) (ground arith), tt)
weakest_from-IsWeaker best at i (x ∷ hs) r e = elim (Bool-cases (ltb_ℤ best.priority x.priority)) [
  | inl worse ↦
      let e' = sym (weakest_from-worse best x at i hs worse) ∙ e in
      let (w, all) = weakest_from-IsWeaker x i (i + 1) hs r e' in
      (IsWeaker-trans r.0 x best w (ground arith), (w, all))
  | inr better ↦
      let e' = sym (weakest_from-better best x at i hs better) ∙ e in
      let (w, all) = weakest_from-IsWeaker best at (i + 1) hs r e' in
      (w, (IsWeaker-trans r.0 best x w better, all))
]

-- find_weakest fails only without holders. Otherwise it returns a holder that stands at the place
-- it returns, and that no other holder is weaker than.
pub find_weakest_lem :
    (hs : List Holder)
    → ((hs ≡ []) × (find_weakest hs ≡ none))
      ⊎ ((h : Holder) × (k : ℕ) × (find_weakest hs ≡ some (h, k))
          × (get_elem? hs k ≡ some h)
          × All (IsWeaker h) hs)
unfolding find_weakest
find_weakest_lem [] = inl (refl, refl)
find_weakest_lem (x ∷ hs) =
    let (w, all) = weakest_from-IsWeaker x 0 1 hs (weakest_from x 0 1 hs) refl in
    let r = weakest_from x 0 1 hs in
    inr (r.0, r.1, refl, place r (weakest_from-place x 0 1 hs), (w, all))
  where
    place :
        (r : Holder × ℕ)
        → ((r.0 ≡ x) × (r.1 ≡ 0)) ⊎ ((j : ℕ) × (r.1 ≡ 1 + j) × (get_elem? hs j ≡ some r.0))
        → get_elem? (x ∷ hs) r.1 ≡ some r.0
    place (h, k) (inl (e, f)) = rw f (ap some (sym e))
    place (h, k) (inr (j, f, g)) = let f' : k ≡ suc j = omega arith in rw f' g

-- The holder at a place and the others are the holders.
pub unlink_at-perm :
    (hs : List Holder) (k : ℕ) (h : Holder) → get_elem? hs k ≡ some h → Perm (h ∷ unlink_at hs k) hs
unfolding unlink_at
unlink_at-perm [] k h e = absurd (cc)
unlink_at-perm (x ∷ hs) zero h e = Perm.cons' (ground arith) Perm.rfl
unlink_at-perm (x ∷ hs) (suc k) h e =
    Perm.trans (Perm.swap x h _) (Perm.cons x (unlink_at-perm hs k h e))

pub length-unlink_at :
    (hs : List Holder) (k : ℕ) (h : Holder)
    → get_elem? hs k ≡ some h
    → length (unlink_at hs k) + 1 ≡ length hs
unfolding unlink_at
length-unlink_at [] k h e = absurd (cc)
length-unlink_at (x ∷ hs) zero h e = omega arith
length-unlink_at (x ∷ hs) (suc k) h e = omega (arith, length-unlink_at hs k h e)

pub length-unlink_request :
    (req : ℕ) (hs rest : List Holder)
    → unlink_request req hs ≡ some rest
    → length rest + 1 ≡ length hs
unfolding unlink_request
length-unlink_request req [] rest e = absurd (cc)
length-unlink_request req (x ∷ hs) rest e = elim (Bool-cases (x.req == req)) [
  | inl hit ↦ ground arith
  | inr miss ↦ elim (Option-cases (unlink_request req hs)) [
    | inl none_left ↦ absurd (ground arith)
    | inr (tail, f) ↦ ground (arith, length-unlink_request req hs tail f)
  ]
]
