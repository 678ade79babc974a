-- ===== src/PriorityStore/Order.antt =====
-- src/priority_store.c: the items in order, and who waits when.
use simpyc.Prelude.{
  ◌^◌, dec32-small, inc32, dec32, ℕ, suc, ◌+◌, ◌≤◌, ◌<◌, ◌≡◌, refl, ap, ◌∙◌, ◌⊎◌, inl, inr, true,
  false, List, [], ◌∷◌, arith, u64_mod, inc64, ℤ, Double, Ptr, length, All,
}
use simpyc.State.{Env}
use simpyc.Event.{event_alloc, is_pending}
use simpyc.Event.Delivery.{Delivered, opened, opened-waits, succeed-Delivered, Delivered-succeed}
use simpyc.SortedQueue.{Node, insert}
use simpyc.SortedQueue.Order.{
  Le, IsSorted, IsNumbered, All-insert, insert-IsSorted, length-insert, IsNumbered-mono,
}
use simpyc.PriorityStore.{
  PriorityStore, PutWaiter, item_insert_sorted, is_full, serve, drain, get_top,
  sim_priority_store_get,
}

-- The counter counts the items, which are in order; nobody waits to get while there is an item or a
-- put, and nobody waits to put while there is room. The counter, an int, has not overflowed.
pub record IsSound (s : PriorityStore) : Type 0 where
  pub counted : s.count ≡ length s.items
  pub small : s.count < 2 ^ 31
  pub sorted : IsSorted s.items
  pub numbered : IsNumbered s.next_seq s.items
  pub gets_wait : (s.gets ≡ []) ⊎ ((s.items ≡ []) × (s.puts ≡ []))
  pub puts_wait : (s.puts ≡ []) ⊎ (is_full s ≡ true)

-- A call leaves the store sound, takes one sequence number at most and adds one item at most.
abbrev pub Keeps : PriorityStore → PriorityStore → Type 0
Keeps s s' = IsSound s' × (s'.next_seq ≤ s.next_seq + 1) × (s'.count ≤ s.count + 1)

insert-IsNumbered :
    (n : Node Ptr) (xs : List (Node Ptr))
    → n.seq + 1 < u64_mod
    → IsNumbered n.seq xs
    → IsNumbered (inc64 n.seq) (insert n xs)
insert-IsNumbered n xs room h =
    All-insert (λ x. x.seq < inc64 n.seq) n xs (omega arith)
      (IsNumbered-mono n.seq (inc64 n.seq) xs (omega arith) h)

no_puts : (s : PriorityStore) → IsSound s → s.items ≡ [] → s.puts ≡ []
no_puts s i e = let zero : s.count ≡ 0 = i.counted ∙ ap length e in ground (arith, i.puts_wait)

no_gets :
    (s : PriorityStore) (top : Node Ptr) (rest : List (Node Ptr))
    → IsSound s
    → s.items ≡ top ∷ rest
    → s.gets ≡ []
no_gets s top rest i e = ground (arith, i.gets_wait)

insert-empty : (n : Node Ptr) (xs : List (Node Ptr)) → xs ≡ [] → insert n xs ≡ n ∷ []
unfolding insert
insert-empty n xs e = rw e refl

-- A full store has an item.
pub full-no_gets : (s : PriorityStore) → IsSound s → is_full s ≡ true → s.gets ≡ []
full-no_gets s i full = elim i.gets_wait [
  | inl free ↦ free
  | inr (empty, _) ↦ let zero : s.count ≡ 0 = i.counted ∙ ap length empty in absurd (ground arith)
]

module _ {D : Type 0} ⦃F : Double D⦄ where
  pub put-Keeps :
      (s : PriorityStore) (env : Env D) (priority : ℤ) (item : Ptr) (gets : List ℕ)
      → s.gets ≡ gets
      → IsSound s
      → s.next_seq + 1 < u64_mod
      → s.count + 1 < 2 ^ 31
      → is_full s ≡ false
      → let s' = item_insert_sorted s priority item in Keeps s (serve s' gets s'.items env).0
  unfolding item_insert_sorted serve
  put-Keeps s env priority item [] e i room space free =
      let n : Node Ptr = record { priority = priority; seq = s.next_seq; payload = item } in
      (
        record {
          counted = omega (arith, i.counted, space, length-insert n s.items);
          small = omega (arith, space);
          sorted = insert-IsSorted n s.items i.sorted;
          numbered = insert-IsNumbered n s.items room i.numbered;
          gets_wait = inl e;
          puts_wait = inl (ground (arith, i.puts_wait));
        },
        omega arith,
        omega (arith, space),
      )
  put-Keeps s env priority item (g ∷ q) e i room space free =
      let none_in : s.items ≡ [] = ground (arith, i.gets_wait) in
      let none_wait : s.puts ≡ [] = no_puts s i none_in in
      let size : s.count ≡ 0 = i.counted ∙ ap length none_in in
      let n : Node Ptr = record { priority = priority; seq = s.next_seq; payload = item } in
      rw (insert-empty n s.items none_in) (
        record {
          counted = omega (arith, size);
          small = omega (arith, size);
          sorted = tt;
          numbered = tt;
          gets_wait = inr (refl, none_wait);
          puts_wait = inl none_wait;
        },
        omega arith,
        omega (arith, size),
      )

  drain-Keeps :
      (s : PriorityStore) (top : Node Ptr) (rest : List (Node Ptr)) (puts : List PutWaiter)
      (env : Env D)
      → s.items ≡ top ∷ rest
      → s.puts ≡ puts
      → IsSound s
      → s.next_seq + 1 < u64_mod
      → Keeps s (drain (record s { items = rest; count = dec32 s.count }) puts env).0
  unfolding drain item_insert_sorted
  drain-Keeps s top rest [] env e p i room =
      let size : s.count ≡ suc (length rest) = i.counted ∙ ap length e in
      let less = dec32-small s.count (omega (arith, size)) i.small in
      (
        record {
          counted = omega (arith, size, less);
          small = omega (arith, i.small, less);
          sorted = (rw e at i.sorted).1;
          numbered = (rw e at i.numbered).1;
          gets_wait = inl (no_gets s top rest i e);
          puts_wait = inl p;
        },
        omega arith,
        omega (arith, less),
      )
  drain-Keeps s top rest (w ∷ q) env e p i room =
      let size : s.count ≡ suc (length rest) = i.counted ∙ ap length e in
      let less = dec32-small s.count (omega (arith, size)) i.small in
      let same : inc32 (dec32 s.count) ≡ s.count = omega (arith, size, less, i.small) in
      let full : is_full s ≡ true = ground (arith, i.puts_wait) in
      let n : Node Ptr = record { priority = w.priority; seq = s.next_seq; payload = w.item } in
      (
        record {
          counted = omega (arith, same, size, length-insert n rest);
          small = omega (arith, same, i.small);
          sorted = insert-IsSorted n rest (rw e at i.sorted).1;
          numbered = insert-IsNumbered n rest room (rw e at i.numbered).1;
          gets_wait = inl (no_gets s top rest i e);
          puts_wait = inr (rw same full);
        },
        omega arith,
        omega (arith, same),
      )

  pub get-Keeps :
      (s : PriorityStore) (items : List (Node Ptr)) (env : Env D) (ev : ℕ)
      → s.items ≡ items
      → IsSound s
      → s.next_seq + 1 < u64_mod
      → Keeps s (get_top s items env ev).0
  unfolding get_top
  get-Keeps s [] env ev e i room = (
    record {
      counted = i.counted;
      small = i.small;
      sorted = i.sorted;
      numbered = i.numbered;
      gets_wait = inr (e, no_puts s i e);
      puts_wait = i.puts_wait;
    },
    omega arith,
    omega arith,
  )
  get-Keeps s (top ∷ rest) env ev e i room = drain-Keeps s top rest s.puts _ e refl i room

  drain-Delivered :
      (s : PriorityStore) (puts : List PutWaiter) (env : Env D) (ev item : ℕ)
      → Delivered env ev item
      → Delivered (drain s puts env).1 ev item
  unfolding drain
  drain-Delivered s [] env ev item d = d
  drain-Delivered s (w ∷ q) env ev item d = Delivered-succeed env ev w.event item s.self d

  top-Delivered :
      (s : PriorityStore) (items : List (Node Ptr)) (top : Node Ptr) (rest : List (Node Ptr))
      (env : Env D) (ev : ℕ)
      → items ≡ top ∷ rest
      → is_pending (env.events ev).state ≡ true
      → Delivered (get_top s items env ev).1 ev top.payload
  unfolding get_top
  top-Delivered s items top rest env ev e waits = rw e (
      drain-Delivered (record s { items = rest; count = dec32 s.count }) s.puts _ ev top.payload
        (succeed-Delivered env ev top.payload waits))

  -- A get of a sound store with items triggers its event at once, with an item that no other
  -- precedes in priority or, at equal priority, in arrival.
  pub sim_priority_store_get-most_urgent :
      (s : PriorityStore) (env : Env D) (top : Node Ptr) (rest : List (Node Ptr))
      → IsSound s
      → s.items ≡ top ∷ rest
      → let (ev, s', env') = sim_priority_store_get s env in
        All (Le top) rest × Delivered env' ev top.payload
  unfolding sim_priority_store_get
  sim_priority_store_get-most_urgent s env top rest i e = (
    (rw e at i.sorted).0,
    top-Delivered s s.items top rest (opened env) (event_alloc env).0 e (opened-waits env),
  )
