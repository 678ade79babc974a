-- ===== src/FilterStore/Matching.antt =====
-- src/filter_store.c: the walks along the buffer and along the waiting gets.
use simpyc.Prelude.{
  ◌+◌, ◌≡◌, refl, ◌⊎◌, inl, inr, true, false, none, some, List, [], ◌∷◌, ◌++◌, arith, Bool-cases,
  Ptr, length, All,
}
use simpyc.FilterStore.{GetWaiter, Filters, accepts, take_item, take_waiter, find_match}

module _ (test : Filters) where
  -- The get accepts none of the items.
  abbrev pub Refuses : GetWaiter → List Ptr → Type 0
  Refuses g items = All (λ x. accepts test g.filter g.user x ≡ false) items

  -- No waiting get accepts an item of the buffer.
  abbrev pub Unmatched : List GetWaiter → List Ptr → Type 0
  Unmatched gs items = All (λ g. Refuses g items) gs

  -- The walk finds nothing, and then the get refuses all the items, or leaves all but one.
  pub record Taken (x : Ptr) (xs items : List Ptr) : Type 0 where
    pub size : length items ≡ length xs + 1
    pub subset : (g : GetWaiter) → Refuses g items → Refuses g xs

  pub take_item-cases :
      (g : GetWaiter) (items : List Ptr)
      → ((take_item test g.filter g.user items ≡ none) × Refuses g items)
        ⊎ ((x : Ptr) × (xs : List Ptr) × (take_item test g.filter g.user items ≡ some (x, xs))
            × Taken x xs items)
  unfolding take_item
  take_item-cases g [] = inl (refl, tt)
  take_item-cases g (x ∷ xs) = elim (Bool-cases (accepts test g.filter g.user x)) [
    | inl takes ↦ rw takes (inr (x, xs, refl, record { size = omega arith; subset = λ h r. r.1 }))
    | inr refuses ↦ rw refuses (elim (take_item-cases g xs) [
      | inl (e, r) ↦ rw e (inl (refl, (refl, r)))
      | inr (y, ys, e, t) ↦ rw e (
          inr (
            y,
            x ∷ ys,
            refl,
            record { size = omega (arith, t.size); subset = λ h r. (r.0, t.subset h r.1) },
          ))
    ])
  ]

  -- A get that refuses all items but the last takes the last or nothing.
  take_item-last :
      (g : GetWaiter) (items : List Ptr) (y : Ptr)
      → Refuses g items
      → take_item test g.filter g.user (items ++ y ∷ [])
        ≡ elim (accepts test g.filter g.user y) [ true ↦ some (y, items) | false ↦ none ]
  unfolding take_item
  take_item-last g [] y r = ground arith
  take_item-last g (x ∷ xs) y r =
      rw (r.0, take_item-last g xs y r.1)
        (elim (Bool-cases (accepts test g.filter g.user y)) [
          | inl takes ↦ rw takes refl
          | inr refuses ↦ rw refuses refl
        ])

  Refuses-append :
      (g : GetWaiter) (items : List Ptr) (y : Ptr)
      → Refuses g items
      → accepts test g.filter g.user y ≡ false
      → Refuses g (items ++ y ∷ [])
  Refuses-append g [] y r h = (h, tt)
  Refuses-append g (x ∷ xs) y r h = (r.0, Refuses-append g xs y r.1 h)

  -- With one more item in the buffer, the first waiting get that accepts it has it, and the others
  -- still match nothing.
  pub find_match-cases :
      (gs : List GetWaiter) (items : List Ptr) (y : Ptr)
      → Unmatched gs items
      → ((find_match test gs (items ++ y ∷ []) ≡ none) × Unmatched gs (items ++ y ∷ []))
        ⊎ ((g : GetWaiter) × (hs : List GetWaiter) × (find_match test gs (items ++ y ∷ [])
              ≡ some (g, y, hs, items))
            × Unmatched hs items)
  unfolding find_match
  find_match-cases [] items y u = inl (refl, tt)
  find_match-cases (g ∷ gs) items y u = elim (Bool-cases (accepts test g.filter g.user y)) [
    | inl takes ↦ rw (take_item-last g items y u.0, takes, find_match) (inr (g, gs, refl, u.1))
    | inr refuses ↦
        rw (take_item-last g items y u.0, refuses, find_match)
          (elim (find_match-cases gs items y u.1) [
            | inl (e, v) ↦ rw e (inl (refl, (Refuses-append g items y u.0 refuses, v)))
            | inr (h, hs, e, v) ↦ rw e (inr (h, g ∷ hs, refl, (u.0, v)))
          ])
  ]

  -- A put finds no get that accepts its item, or takes one of them away.
  pub take_waiter-cases :
      (y : Ptr) (gs : List GetWaiter) (items : List Ptr)
      → Unmatched gs items
      → ((take_waiter test y gs ≡ none) × Unmatched gs (items ++ y ∷ []))
        ⊎ ((g : GetWaiter) × (hs : List GetWaiter) × (take_waiter test y gs ≡ some (g, hs))
            × Unmatched hs items)
  unfolding take_waiter
  take_waiter-cases y [] items u = inl (refl, tt)
  take_waiter-cases y (g ∷ gs) items u = elim (Bool-cases (accepts test g.filter g.user y)) [
    | inl takes ↦ rw takes (inr (g, gs, refl, u.1))
    | inr refuses ↦ rw refuses (elim (take_waiter-cases y gs items u.1) [
      | inl (e, v) ↦ rw e (inl (refl, (Refuses-append g items y u.0 refuses, v)))
      | inr (h, hs, e, v) ↦ rw e (inr (h, g ∷ hs, refl, (u.0, v)))
    ])
  ]

  pub Unmatched-wait :
      (gs : List GetWaiter) (g : GetWaiter) (items : List Ptr)
      → Unmatched gs items
      → Refuses g items
      → Unmatched (gs ++ g ∷ []) items
  Unmatched-wait [] g items u r = (r, tt)
  Unmatched-wait (h ∷ hs) g items u r = (u.0, Unmatched-wait hs g items u.1 r)

  pub Unmatched-Taken :
      (gs : List GetWaiter) (x : Ptr) (xs items : List Ptr)
      → Taken x xs items
      → Unmatched gs items
      → Unmatched gs xs
  Unmatched-Taken [] x xs items t u = tt
  Unmatched-Taken (g ∷ gs) x xs items t u = (t.subset g u.0, Unmatched-Taken gs x xs items t u.1)
