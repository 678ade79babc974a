-- ===== src/Prelude/Float.antt =====
-- The `double` of C. antt has no floats: the type and the operations that the program uses are
-- parameters, with laws that IEEE 754 arithmetic has.
use mathlib.Core.Path.{◌≡◌}
use mathlib.Core.Bool.{Bool, true, false, not}

pub record Double (D : Type 0) : Type 0 where
  pub zero : D
  pub add : D → D → D
  pub sub : D → D → D
  pub mul : D → D → D
  pub lt : D → D → Bool
  pub le : D → D → Bool
  pub is_nan : D → Bool
  pub is_finite : D → Bool
  -- `<` is a strict order, on NaN too.
  pub lt_irrefl : (a : D) → lt a a ≡ false
  pub lt_trans : (a b c : D) → lt a b ≡ true → lt b c ≡ true → lt a c ≡ true
  -- A number stands on one side or the other of a gap.
  pub lt_weak : (a b c : D) → is_nan b ≡ false → lt a c ≡ true → lt a b ≡ false → lt b c ≡ true
  -- On numbers `a <= b` is the negation of `b < a`.
  pub le_not_lt : (a b : D) → is_nan a ≡ false → is_nan b ≡ false → le a b ≡ not (lt b a)
  pub zero_number : is_nan zero ≡ false
  -- The sum of two numbers that are not negative is a number, and not below the first.
  pub add_number :
      (a b : D)
      → is_nan a ≡ false
      → lt a zero ≡ false
      → is_nan b ≡ false
      → lt b zero ≡ false
      → is_nan (add a b) ≡ false
  pub add_grows :
      (a b : D)
      → is_nan a ≡ false
      → lt a zero ≡ false
      → is_nan b ≡ false
      → lt b zero ≡ false
      → lt (add a b) a ≡ false
  pub finite_number : (a : D) → is_finite a ≡ true → is_nan a ≡ false
  -- A difference is NaN only from NaN or from two infinities.
  pub sub_number : (a b : D) → is_nan a ≡ false → is_finite b ≡ true → is_nan (sub a b) ≡ false
  -- Taking no more than there is leaves no debt, and taking what is not negative leaves no more.
  pub sub_nonneg : (a b : D) → le b a ≡ true → lt (sub a b) zero ≡ false
  pub sub_shrinks : (a b : D) → lt b zero ≡ false → lt a (sub a b) ≡ false
