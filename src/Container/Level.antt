-- ===== src/Container/Level.antt =====
-- src/container.c: the level stays between zero and the capacity, and no waiter that could be served
-- is left at the head of its queue.
use simpyc.Prelude.{◌≡◌, inl, inr, true, false, List, [], ◌∷◌, arith, Bool-cases, Double, All}
use simpyc.State.{Env}
use simpyc.Container.{Container, CqNode, wake_gets, wake_puts}

module _ {D : Type 0} ⦃F : Double D⦄ where
  -- An amount that a client may ask for: finite and not negative.
  abbrev pub IsAmount : D → Type 0
  IsAmount a = (F.is_finite a ≡ true) × (F.lt a F.zero ≡ false)

  -- The level is a number between zero and the capacity.
  pub record IsLevel (level capacity : D) : Type 0 where
    pub number : F.is_nan level ≡ false
    pub capacity_number : F.is_nan capacity ≡ false
    pub nonneg : F.lt level F.zero ≡ false
    pub within : F.lt capacity level ≡ false

  abbrev pub Amounts : List (CqNode D) → Type 0
  Amounts = All (λ n. IsAmount n.amount)

  -- The first get, or put, of the queue cannot be served.
  abbrev pub GetsWait : D → List (CqNode D) → Type 0
  GetsWait level [] = Unit
  GetsWait level (n ∷ q) = F.le n.amount level ≡ false

  abbrev pub PutsWait : D → D → List (CqNode D) → Type 0
  PutsWait level capacity [] = Unit
  PutsWait level capacity (n ∷ q) = F.le (F.add level n.amount) capacity ≡ false

  pub record IsSound (c : Container D) : Type 0 where
    pub level : IsLevel c.level c.capacity
    pub puts : Amounts c.puts
    pub gets : Amounts c.gets
    pub puts_wait : PutsWait c.level c.capacity c.puts
    pub gets_wait : GetsWait c.level c.gets

  -- Taking an amount that there is.
  pub take-IsLevel :
      (level capacity a : D)
      → IsLevel level capacity
      → IsAmount a
      → F.le a level ≡ true
      → IsLevel (F.sub level a) capacity
  take-IsLevel level capacity a v h le = record {
    number = F.sub_number level a v.number h.0;
    capacity_number = v.capacity_number;
    nonneg = F.sub_nonneg level a le;
    within = ground (
      arith,
      v.within,
      v.number,
      F.sub_shrinks level a h.1,
      F.lt_weak capacity level (F.sub level a),
    );
  }

  -- Adding an amount that fits.
  pub give-IsLevel :
      (level capacity a : D)
      → IsLevel level capacity
      → IsAmount a
      → F.le (F.add level a) capacity ≡ true
      → IsLevel (F.add level a) capacity
  give-IsLevel level capacity a v h fits =
      let finite = F.finite_number a h.0 in
      let number = F.add_number level a v.number v.nonneg finite h.1 in
      record {
        number = number;
        capacity_number = v.capacity_number;
        nonneg = ground (
          arith,
          v.number,
          v.nonneg,
          F.add_grows level a v.number v.nonneg finite h.1,
          F.lt_weak (F.add level a) level F.zero,
        );
        within =
            ground (arith, fits, F.le_not_lt (F.add level a) capacity number v.capacity_number);
      }

  pub wake_gets-IsSound :
      (c : Container D) (q : List (CqNode D)) (env : Env D)
      → IsLevel c.level c.capacity
      → Amounts q
      → c.puts ≡ []
      → IsSound (wake_gets c q env).0
  unfolding wake_gets
  wake_gets-IsSound c [] env v a e = record {
    level = v;
    puts = rw e tt;
    gets = tt;
    puts_wait = rw e tt;
    gets_wait = tt;
  }
  wake_gets-IsSound c (n ∷ q) env v a e = elim (Bool-cases (F.le n.amount c.level)) [
    | inl served ↦ rw served (
        wake_gets-IsSound (record c { level = F.sub c.level n.amount }) q _
          (take-IsLevel c.level c.capacity n.amount v a.0 served) a.1 e)
    | inr waits ↦
        rw waits
          (record { level = v; puts = rw e tt; gets = a; puts_wait = rw e tt; gets_wait = waits })
  ]

  pub wake_puts-IsSound :
      (c : Container D) (q : List (CqNode D)) (env : Env D)
      → IsLevel c.level c.capacity
      → Amounts q
      → c.gets ≡ []
      → IsSound (wake_puts c q env).0
  unfolding wake_puts
  wake_puts-IsSound c [] env v a e = record {
    level = v;
    puts = tt;
    gets = rw e tt;
    puts_wait = tt;
    gets_wait = rw e tt;
  }
  wake_puts-IsSound c (n ∷ q) env v a e =
      elim (Bool-cases (F.le (F.add c.level n.amount) c.capacity)) [
        | inl served ↦ rw served (
            wake_puts-IsSound (record c { level = F.add c.level n.amount }) q _
              (give-IsLevel c.level c.capacity n.amount v a.0 served) a.1 e)
        | inr waits ↦
            rw waits (record {
              level = v;
              puts = a;
              gets = rw e tt;
              puts_wait = waits;
              gets_wait = rw e tt;
            })
      ]
