-- ===== src/Heap/Order.antt =====
-- src/heap.c: the order of the entries.
use simpyc.Prelude.{◌≡◌, true, false, arith, Double}
use simpyc.Heap.{HeapEntry, entry_lt}

module _ {D : Type 0} ⦃F : Double D⦄ where
  -- The time of the entry is not NaN.
  abbrev pub IsTimed : HeapEntry D → Type 0
  IsTimed e = F.is_nan e.time ≡ false

  -- `a` need not wait for `b`.
  abbrev pub Le : HeapEntry D → HeapEntry D → Type 0
  Le a b = entry_lt b a ≡ false

  pub entry_lt_irrefl : (a : HeapEntry D) → entry_lt a a ≡ false
  unfolding entry_lt
  entry_lt_irrefl a = ground (arith, F.lt_irrefl a.time)

  pub entry_lt_asym : (a b : HeapEntry D) → entry_lt a b ≡ true → entry_lt b a ≡ false
  unfolding entry_lt
  entry_lt_asym a b h = ground (arith, F.lt_irrefl a.time, F.lt_trans a.time b.time a.time)

  pub Le-trans :
      (a b c : HeapEntry D) → IsTimed a → IsTimed b → IsTimed c → Le a b → Le b c → Le a c
  unfolding entry_lt
  Le-trans a b c ha hb hc h k = ground (
    arith,
    F.lt_weak c.time b.time a.time,
    F.lt_weak a.time c.time b.time,
    F.lt_weak b.time a.time c.time,
    F.lt_trans a.time b.time c.time,
    F.lt_irrefl a.time,
  )
