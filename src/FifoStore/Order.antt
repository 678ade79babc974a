-- ===== src/FifoStore/Order.antt =====
-- src/store.c: items come out in the order in which they went in, waiting puts included.
use mathlib.Core.List.{append-nil, append_assoc, map-append}
use simpyc.Prelude.{
  pos, ltb_ℤ, int_of, int_of-small, dec32, dec32-small, inc32, ◌<◌, ◌^◌, ℕ, suc, ◌+◌, ◌≡◌, refl,
  sym, ap, ◌∙◌, ◌⊎◌, inl, inr, true, false, List, [], ◌∷◌, ◌++◌, map, arith, Bool-cases, Double,
  Ptr, null, length, length-append,
}
use simpyc.State.{Env}
use simpyc.Event.{event_alloc, sim_event_succeed, is_pending}
use simpyc.Event.Delivery.{
  Delivered, opened, opened-waits, opened-keeps, succeed-Delivered, Delivered-succeed,
}
use simpyc.FifoStore.{
  Store, WaiterNode, sim_store_put, sim_store_get, item_push, waiter_push, has_room, put_item,
  get_item, refill,
}

-- The counter, an `int`, has not overflowed and counts the items, nobody waits to get while there is an item or a put, and nobody
-- waits to put while there is room.
pub record IsSound (s : Store) : Type 0 where
  pub counted : s.count ≡ length s.items
  pub small : s.count < 2 ^ 31
  pub gets_wait : (s.gets ≡ []) ⊎ ((s.items ≡ []) × (s.puts ≡ []))
  pub puts_wait : (s.puts ≡ []) ⊎ (has_room s ≡ false)

-- All that was put and not yet got, in order: the buffer, then the puts that wait for room.
abbrev pub contents : Store → List Ptr
contents s = s.items ++ map (λ w. w.item) s.puts

item_push-contents :
    (s : Store) (item : Ptr) → s.puts ≡ [] → contents (item_push s item) ≡ contents s ++ item ∷ []
unfolding item_push
item_push-contents s item e = rw (e, append-nil s.items, append-nil (s.items ++ item ∷ [])) refl

waiter_push-contents :
    (s : Store) (ev : ℕ) (item : Ptr)
    → contents (record s { puts = waiter_push s.puts ev item }) ≡ contents s ++ item ∷ []
unfolding waiter_push
waiter_push-contents s ev item =
    rw (map-append (λ w. w.item) s.puts (record { event = ev; item = item } ∷ []))
      (sym (append_assoc s.items (map (λ w. w.item) s.puts) (item ∷ [])))

no_puts : (s : Store) → IsSound s → s.items ≡ [] → s.puts ≡ []
no_puts s i e = let zero : s.count ≡ 0 = i.counted ∙ ap length e in ground (arith, i.puts_wait)

pub no_gets :
    (s : Store) (item : Ptr) (rest : List Ptr) → IsSound s → s.items ≡ item ∷ rest → s.gets ≡ []
no_gets s item rest i e = ground (arith, i.gets_wait)

pub no_contents : (s : Store) → IsSound s → s.items ≡ [] → contents s ≡ []
no_contents s i e = rw (e, no_puts s i e) refl

taken-contents :
    (s : Store) (item : Ptr) (rest : List Ptr)
    → s.items ≡ item ∷ rest
    → contents s ≡ item ∷ contents (record s { items = rest })
taken-contents s item rest e = ap (λ l. l ++ map (λ w. w.item) s.puts) e

refilled-contents :
    (s : Store) (item : Ptr) (rest : List Ptr) (w : WaiterNode) (q : List WaiterNode)
    → s.items ≡ item ∷ rest
    → s.puts ≡ w ∷ q
    → contents s ≡ item ∷ contents (record s { items = rest ++ w.item ∷ []; puts = q })
refilled-contents s item rest w q e p =
    rw (append_assoc rest (w.item ∷ []) (map (λ x. x.item) q), e, p) refl

module _ {D : Type 0} ⦃F : Double D⦄ where
  -- What a put does to the contents: it hands the item to the get that has waited longest, or adds
  -- it at the end.
  pub record PutDone (s : Store) (env : Env D) (item : Ptr) (r : ℕ × Store × Env D) : Type 0 where
    pub sound : IsSound r.1
    pub effect :
        ((w : WaiterNode) × (s.gets ≡ w ∷ (r.1).gets)
          × (contents r.1 ≡ contents s)
          × (is_pending (env.events w.event).state ≡ true → Delivered r.2 w.event item))
        ⊎ ((s.gets ≡ []) × ((r.1).gets ≡ []) × (contents r.1 ≡ contents s ++ item ∷ []))

  put_item-PutDone :
      (s : Store) (gets : List WaiterNode) (env : Env D) (item : Ptr)
      → s.gets ≡ gets
      → s.count + 1 < 2 ^ 31
      → IsSound s
      → let ev = (event_alloc env).0 in
        let (s', env') = put_item s gets (opened env) ev item in PutDone s env item (ev, s', env')
  unfolding put_item item_push waiter_push
  put_item-PutDone s (w ∷ q) env item e h i = record {
    sound = record {
      counted = i.counted;
      small = i.small;
      gets_wait = ground (arith, i.gets_wait);
      puts_wait = i.puts_wait;
    };
    effect = inl (
      w,
      e,
      refl,
      λ h.
          Delivered-succeed _ w.event (event_alloc env).0 item s.self
            (succeed-Delivered (opened env) w.event item (opened-keeps env w.event h)),
    );
  }
  put_item-PutDone s [] env item e h i = elim (Bool-cases (has_room s)) [
    | inl room ↦
        let none_wait : s.puts ≡ [] = ground (arith, i.puts_wait) in
        rw room (record {
          sound = record {
            counted = omega (arith, h, i.counted, length-append s.items (item ∷ []));
            small = omega (arith, h);
            gets_wait = inl e;
            puts_wait = inl none_wait;
          };
          effect = inr (e, e, item_push-contents s item none_wait);
        })
    | inr full ↦ rw full (record {
      sound = record {
        counted = i.counted;
        small = i.small;
        gets_wait = inl e;
        puts_wait = inr full;
      };
      effect = inr (e, e, waiter_push-contents s (event_alloc env).0 item);
    })
  ]

  -- As long as the counter does not overflow, and with an event from the pool or a new one, a put
  -- keeps the store sound, and either hands its item
  -- to the get that has waited longest, whose event then carries it if it was pending, with the
  -- contents unchanged, or adds the item at the end of the contents, when no get waits.
  pub sim_store_put-PutDone :
      (s : Store) (env : Env D) (item : Ptr)
      → s.count + 1 < 2 ^ 31
      → IsSound s
      → PutDone s env item (sim_store_put s env item)
  unfolding sim_store_put
  sim_store_put-PutDone s env item h i = put_item-PutDone s s.gets env item refl h i

  -- What a get does to the contents: it takes the first item, and its event carries it, or there is
  -- none and it waits behind the other gets.
  pub record GetDone (s : Store) (r : ℕ × Store × Env D) : Type 0 where
    pub sound : IsSound r.1
    pub effect :
        ((item : Ptr) × (contents s ≡ item ∷ contents r.1) × Delivered r.2 r.0 item)
        ⊎ ((contents s ≡ []) × (contents r.1 ≡ []) × ((r.1).gets ≡ waiter_push s.gets r.0 null))

  refill-GetDone :
      (s : Store) (item : Ptr) (rest : List Ptr) (puts : List WaiterNode) (env : Env D) (ev : ℕ)
      → s.items ≡ item ∷ rest
      → s.puts ≡ puts
      → IsSound s
      → Delivered env ev item
      → let (s', env') = refill (record s { items = rest; count = dec32 s.count }) puts env in
        GetDone s (ev, s', env')
  unfolding refill item_push
  refill-GetDone s item rest [] env ev e p i d =
      let size : s.count ≡ suc (length rest) = i.counted ∙ ap length e in
      record {
        sound = record {
          counted = dec32-small s.count (omega (arith, size)) i.small ∙ omega (arith, size);
          small = rw (dec32-small s.count (omega (arith, size)) i.small) (omega (arith, i.small));
          gets_wait = inl (no_gets s item rest i e);
          puts_wait = inl p;
        };
        effect = inl (item, taken-contents s item rest e, d);
      }
  refill-GetDone s item rest (w ∷ q) env ev e p i d =
      let size : s.count ≡ suc (length rest) = i.counted ∙ ap length e in
      let same : inc32 (dec32 s.count) ≡ s.count = omega (arith, size, i.small) in
      let full : has_room s ≡ false = ground (arith, i.puts_wait) in
      record {
        sound = record {
          counted = same ∙ omega (arith, size, length-append rest (w.item ∷ []));
          small = rw same i.small;
          gets_wait = inl (no_gets s item rest i e);
          puts_wait = inr (rw same full);
        };
        effect = inl (
          item,
          refilled-contents s item rest w q e p,
          Delivered-succeed env ev w.event item s.self d,
        );
      }

  get_item-GetDone :
      (s : Store) (items : List Ptr) (env : Env D)
      → s.items ≡ items
      → IsSound s
      → let ev = (event_alloc env).0 in
        let (s', env') = get_item s items (opened env) ev in GetDone s (ev, s', env')
  unfolding get_item
  get_item-GetDone s [] env e i = record {
    sound = record {
      counted = i.counted;
      small = i.small;
      gets_wait = inr (e, no_puts s i e);
      puts_wait = i.puts_wait;
    };
    effect = inr (no_contents s i e, no_contents s i e, refl);
  }
  get_item-GetDone s (item ∷ rest) env e i =
      let ev = (event_alloc env).0 in
      let size : s.count ≡ suc (length rest) = i.counted ∙ ap length e in
      let some_item : ltb_ℤ (pos 0) (int_of s.count) ≡ true =
        rw (int_of-small s.count i.small) (ground (arith, size)) in
      rw some_item (
        refill-GetDone s item rest s.puts (sim_event_succeed (opened env) ev item) ev e refl i
          (succeed-Delivered (opened env) ev item (opened-waits env)))

  -- A get of a sound store keeps it sound. Its event is triggered at once with the first item of the
  -- contents, which leaves them, or the contents are empty and the get waits behind the others.
  pub sim_store_get-GetDone :
      (s : Store) (env : Env D) → IsSound s → GetDone s (sim_store_get s env)
  unfolding sim_store_get
  sim_store_get-GetDone s env i = get_item-GetDone s s.items env refl i
