-- ===== src/FilterStore/History.antt =====
-- src/filter_store.c: any sequence of calls.
use simpyc.FilterStore.Matching.{
  Unmatched, take_item-cases, find_match-cases, take_waiter-cases, Unmatched-wait, Unmatched-Taken,
}
use simpyc.Prelude.{
  int_of, int_of-small, dec32, dec32-small, inc32, inc32-small, ◌+◌, ◌<◌, ◌≤◌, ◌^◌, ◌∙◌, ℕ, ◌-◌,
  ◌≡◌, refl, inl, inr, true, false, Option, List, [], ◌∷◌, arith, Bool-cases, ℤ, pos, ltb_ℤ, Double,
  Ptr, length, length-append,
}
use simpyc.State.{Env}
use simpyc.Event.{event_alloc, sim_event_succeed}
use simpyc.Event.Delivery.{opened}
use simpyc.FilterStore.{
  FilterStore, GetWaiter, PutWaiter, Filters, is_full, buffer_item, try_dispatch_to_waiters,
  serve_match, drain, get_found, sim_filter_store_create, sim_filter_store_put,
  sim_filter_store_get,
}

-- A call of a client.
pub data Operation : Type 0 where
  put : Ptr → Operation
  get : Option ℕ → Ptr → Operation

module _ (test : Filters) where
  -- The counter, an `int`, has not overflowed and counts the items, which fit a positive capacity, and no waiting get accepts an item
  -- of the buffer.
  pub record IsSound (s : FilterStore) : Type 0 where
    pub counted : s.count ≡ length s.items
    pub small : s.count < 2 ^ 31
    pub bounded : ltb_ℤ (pos 0) s.capacity ≡ true → ltb_ℤ s.capacity (int_of s.count) ≡ false
    pub unmatched : Unmatched test s.gets s.items

  -- With at most n items.
  record Bounded (n : ℕ) (s : FilterStore) : Type 0 where
    sound : IsSound s
    most : s.count ≤ n

  module _ {D : Type 0} ⦃F : Double D⦄ where
    abbrev pub perform : Operation → FilterStore × Env D → FilterStore × Env D
    perform (put item) (s, env) =
        let (ev, s', env') = sim_filter_store_put test s env item in (s', env')
    perform (get filter user) (s, env) =
        let (ev, s', env') = sim_filter_store_get test s env filter user in (s', env')

    unfoldable pub perform_all : List Operation → FilterStore × Env D → FilterStore × Env D
    perform_all [] s = s
    perform_all (o ∷ os) s = perform_all os (perform o s)

    put-Bounded :
        (n : ℕ) (s : FilterStore) (env : Env D) (item : Ptr)
        → n + 1 < 2 ^ 31
        → Bounded n s
        → Bounded (n + 1) (perform (put item) (s, env)).0
    unfolding sim_filter_store_put buffer_item
    put-Bounded n s env item room l =
        let i = l.sound in
        let more : inc32 s.count ≡ s.count + 1 =
          inc32-small s.count (omega (arith, room, l.most)) in
        elim (Bool-cases (is_full s)) [
          | inl full ↦ rw full (record {
            sound = record {
              counted = i.counted;
              small = i.small;
              bounded = i.bounded;
              unmatched = i.unmatched;
            };
            most = omega (arith, l.most);
          })
          | inr free ↦ rw free (elim (take_waiter-cases test item s.gets s.items i.unmatched) [
            | inl (e, u) ↦ rw e (record {
              sound = record {
                counted = more ∙ omega (arith, i.counted, length-append s.items (item ∷ []));
                small = rw more (omega (arith, room, l.most));
                bounded = λ b.
                    rw (more, int_of-small (s.count + 1) (omega (arith, room, l.most)))
                      (let fits = rw (int_of-small s.count i.small) at i.bounded b in
                        let less = rw (int_of-small s.count i.small) at free in
                        ground (arith, fits, less, b));
                unmatched = u;
              };
              most = omega (arith, more, l.most);
            })
            | inr (g, hs, e, u) ↦ rw e (record {
              sound = record {
                counted = i.counted;
                small = i.small;
                bounded = i.bounded;
                unmatched = u;
              };
              most = omega (arith, l.most);
            })
          ])
        ]

    -- With a freed place, which a waiting put takes if there is one.
    drain-Bounded :
        (n : ℕ) (s : FilterStore) (q : List PutWaiter) (env : Env D)
        → IsSound s
        → s.count + 1 ≤ n
        → n < 2 ^ 31
        → (ltb_ℤ (pos 0) s.capacity ≡ true → ltb_ℤ (pos s.count) s.capacity ≡ true)
        → Bounded n (drain test s q env).0
    unfolding drain try_dispatch_to_waiters serve_match buffer_item
    drain-Bounded n s [] env i below room free = record { sound = i; most = omega (arith, below) }
    drain-Bounded n s (w ∷ q) env i below room free =
        let more : inc32 s.count ≡ s.count + 1 = inc32-small s.count (omega (arith, below, room)) in
        let same : dec32 (inc32 s.count) ≡ s.count = omega (arith, below, room) in
        elim (find_match-cases test s.gets s.items w.item i.unmatched) [
          | inl (e, u) ↦ rw e (record {
            sound = record {
              counted = more ∙ omega (arith, i.counted, length-append s.items (w.item ∷ []));
              small = rw more (omega (arith, below, room));
              bounded = λ b.
                  rw (more, int_of-small (s.count + 1) (omega (arith, below, room)))
                    (ground (arith, free b));
              unmatched = u;
            };
            most = omega (arith, more, below);
          })
          | inr (g, hs, e, u) ↦ rw e (record {
            sound = record {
              counted = same ∙ i.counted;
              small = rw same i.small;
              bounded = λ b. rw (same, int_of-small s.count i.small) (ground (arith, free b));
              unmatched = u;
            };
            most = omega (arith, same, below);
          })
        ]

    get-Bounded :
        (n : ℕ) (s : FilterStore) (env : Env D) (filter : Option ℕ) (user : Ptr)
        → n < 2 ^ 31
        → Bounded n s
        → Bounded n (perform (get filter user) (s, env)).0
    unfolding sim_filter_store_get get_found
    get-Bounded n s env filter user room l =
        let i = l.sound in
        let g : GetWaiter = record { event = (event_alloc env).0; filter = filter; user = user } in
        elim (take_item-cases test g s.items) [
          | inl (e, refuses) ↦ rw e (record {
            sound = record {
              counted = i.counted;
              small = i.small;
              bounded = i.bounded;
              unmatched = Unmatched-wait test s.gets g s.items i.unmatched refuses;
            };
            most = l.most;
          })
          | inr (x, xs, e, t) ↦
              let less : dec32 s.count ≡ s.count - 1 =
                dec32-small s.count (omega (arith, i.counted, t.size)) i.small in
              let fits = λ (b : ltb_ℤ (pos 0) s.capacity ≡ true).
                rw (int_of-small s.count i.small) at i.bounded b in
              rw e (
                drain-Bounded n (record s { items = xs; count = dec32 s.count }) s.puts
                  (sim_event_succeed (opened env) (event_alloc env).0 x)
                  (record {
                    counted = less ∙ omega (arith, i.counted, t.size);
                    small = rw less (omega (arith, i.small));
                    bounded = λ b.
                        rw (less, int_of-small (s.count - 1) (omega (arith, i.small)))
                          (ground (arith, fits b));
                    unmatched = Unmatched-Taken test s.gets x xs s.items t i.unmatched;
                  })
                  (omega (arith, less, i.counted, t.size, l.most)) room
                  (λ b. rw less (ground (arith, fits b, i.counted, t.size))))
        ]

    perform_all-Bounded :
        (n : ℕ) (os : List Operation) (s : FilterStore × Env D)
        → n + length os < 2 ^ 31
        → Bounded n s.0
        → IsSound (perform_all os s).0
    unfolding perform_all
    perform_all-Bounded n [] s few l = l.sound
    perform_all-Bounded n (put item ∷ os) (s, env) few l =
        perform_all-Bounded (n + 1) os (perform (put item) (s, env)) (omega (arith, few))
          (put-Bounded n s env item (omega (arith, few)) l)
    perform_all-Bounded n (get filter user ∷ os) (s, env) few l =
        perform_all-Bounded n os (perform (get filter user) (s, env)) (omega (arith, few))
          (get-Bounded n s env filter user (omega (arith, few)) l)

    -- After fewer than 2^31 puts and gets on a new store, whatever the filters and the capacity, the counter
    -- counts the items, which are no more than a positive capacity, and no get waits that would
    -- accept an item of the buffer.
    pub filter_store_history-IsSound :
        (self : Ptr) (capacity : ℤ) (os : List Operation) (env : Env D)
        → length os < 2 ^ 31
        → IsSound (perform_all os (sim_filter_store_create self capacity, env)).0
    unfolding sim_filter_store_create
    filter_store_history-IsSound self capacity os env few =
        perform_all-Bounded 0 os (sim_filter_store_create self capacity, env) (omega (arith, few))
          (record {
            sound = record {
              counted = refl;
              small = omega arith;
              bounded = λ b. ground (arith, b);
              unmatched = tt;
            };
            most = omega arith;
          })
