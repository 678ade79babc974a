-- ===== src/FifoStore/Ledger.antt =====
-- src/store.c: puts and gets keep account of the gets that were served and those that wait.
use mathlib.Core.List.{append_assoc, map-append}
use simpyc.Prelude.{
  ◌≤◌, length, length-append, All-weaken, All-both, All-behind, ℕ, ◌+◌, ◌^◌, ◌<◌, ◌≡◌, refl, sym,
  ap, ◌∙◌, ◌≢◌, inl, inr, true, List, [], ◌∷◌, ◌++◌, map, arith, Double, Ptr, null, All,
}
use simpyc.State.{Env}
use simpyc.Event.{is_pending}
use simpyc.Event.Delivery.{Delivered}
use simpyc.FifoStore.{Store, WaiterNode, sim_store_put, sim_store_get, waiter_push}
use simpyc.FifoStore.Order.{IsSound, contents, sim_store_put-PutDone, sim_store_get-GetDone}
use simpyc.FifoStore.Served.{
  put-Delivered, get-Delivered, put-waits, get-waits, get_new-waits, get-gets, sim_store_get-other,
}
use simpyc.FifoStore.Keeping.{put-Fits, get-Fits, get-allocated}
use simpyc.Dispatch.Held.{IsHeldStore}
use simpyc.Dispatch.Kept.{IsKept}

abbrev pub waiter_event : WaiterNode → ℕ
waiter_event w = w.event

abbrev pub Distinct : List WaiterNode → Type 0
Distinct [] = Unit
Distinct (w ∷ q) = All (λ x. x.event ≢ w.event) q × Distinct q

-- The waiter behind the others is none of them.
Distinct-wait :
    (q : List WaiterNode) (w : WaiterNode)
    → Distinct q
    → All (λ x. x.event ≢ w.event) q
    → Distinct (q ++ w ∷ [])
Distinct-wait [] w d a = (tt, tt)
Distinct-wait (x ∷ q) w d a = (wait_apart q x w d.0 a.0, Distinct-wait q w d.1 a.1)
  where
    wait_apart :
        (q : List WaiterNode) (x w : WaiterNode)
        → All (λ y. y.event ≢ x.event) q
        → x.event ≢ w.event
        → All (λ y. y.event ≢ x.event) (q ++ w ∷ [])
    wait_apart [] x w a ne = (λ e. ne (sym e), tt)
    wait_apart (y ∷ q) x w a ne = (a.0, wait_apart q x w a.1 ne)

-- Nothing lies in a store where a get waits.
next-empty :
    (s : Store) (w : WaiterNode) (q : List WaiterNode)
    → IsSound s
    → s.gets ≡ w ∷ q
    → contents s ≡ []
next-empty s w q i e = elim i.gets_wait [
  | inl none_wait ↦ absurd (let clash = sym none_wait ∙ e in (cc))
  | inr (items, puts) ↦ rw (items, puts) refl
]

-- The same the other way round.
full-unwaited :
    (s : Store) (item : Ptr) (rest : List Ptr) → IsSound s → contents s ≡ item ∷ rest → s.gets ≡ []
full-unwaited s item rest i e = elim i.gets_wait [
  | inl none_wait ↦ none_wait
  | inr (items, puts) ↦ absurd (let clash : [] ≡ item ∷ rest = rw (items, puts) at e in (cc))
]

served-into :
    {A : Type 0} (f : ℕ × Ptr → A) (before : List (ℕ × Ptr)) (x : ℕ × Ptr) (rest : List A)
    → map f (before ++ x ∷ []) ++ rest ≡ map f before ++ f x ∷ rest
served-into f [] x rest = refl
served-into f (y ∷ before) x rest = ap (λ l. f y ∷ l) (served-into f before x rest)

served-last :
    {A : Type 0} (f : ℕ × Ptr → A) (before : List (ℕ × Ptr)) (x : ℕ × Ptr)
    → (map f before ++ []) ++ f x ∷ [] ≡ map f (before ++ x ∷ []) ++ []
served-last f [] x = refl
served-last f (y ∷ before) x = ap (λ l. f y ∷ l) (served-last f before x)

no_items : (s : Store) (items : List Ptr) → s.items ≡ items → contents s ≡ [] → s.items ≡ []
no_items s [] e c = e
no_items s (x ∷ xs) e c =
    absurd (let clash : x ∷ xs ++ map (λ w. w.item) s.puts ≡ [] = rw e at c in (cc))

module _ {D : Type 0} ⦃F : Double D⦄ where
  -- The first gets have been served with the first items, each with the item at its own place; the
  -- events of the others wait in the store, or the other items lie there.
  pub record IsServed (asked : List ℕ) (items : List Ptr) (s : Store) (env : Env D) : Type 0 where
    pub sound : IsSound s
    pub served : List (ℕ × Ptr)
    pub delivered : All (λ d. (d.0 < env.n_events) × Delivered env d.0 d.1) served
    pub gets : asked ≡ map (λ d. d.0) served ++ map waiter_event s.gets
    pub puts : items ≡ map (λ d. d.1) served ++ contents s

  pub record Ledger (asked : List ℕ) (items : List Ptr) (s : Store) (env : Env D) : Type 0 where
    pub kept : IsKept env
    pub held : IsHeldStore s env.n_events
    pub done : IsServed asked items s env
    pub waiting : All (λ w. is_pending (env.events w.event).state ≡ true) s.gets
    pub distinct : Distinct s.gets

  -- The counter is bounded by the number of puts.
  pub Ledger-count :
      (asked : List ℕ) (items : List Ptr) (s : Store) (env : Env D)
      → Ledger asked items s env
      → s.count ≤ length items
  Ledger-count asked items s env l =
      let before = map (λ (d : ℕ × Ptr). d.1) l.done.served in
      omega (
        arith,
        l.done.sound.counted,
        ap length l.done.puts,
        length-append before (contents s),
        length-append s.items (map (λ w. w.item) s.puts),
      )

  pub put-Ledger :
      (asked : List ℕ) (items : List Ptr) (s : Store) (env : Env D) (item : Ptr)
      → env.next_seq + 2 < 2 ^ 58
      → s.count + 1 < 2 ^ 31
      → Ledger asked items s env
      → let (ev, s', env') = sim_store_put s env item in Ledger asked (items ++ item ∷ []) s' env'
  put-Ledger asked items s env item room small l =
      let (ev, s', env') = sim_store_put s env item in
      let i = l.kept.valid in
      let d = sim_store_put-PutDone s env item small l.done.sound in
      let (t, held) = put-Fits s env item l.kept l.held room in
      let grows = t.kept.grows in
      let before = l.done.served in
      let still =
        All-weaken (λ x. (x.0 < env.n_events) × Delivered env x.0 x.1)
          (λ x. (x.0 < env'.n_events) × Delivered env' x.0 x.1) before
          (λ x a. (omega (arith, a.0, grows), put-Delivered s env item x.0 x.1 i a.0 a.1))
          l.done.delivered in
      elim d.effect [
        | inr (e, e', c) ↦ record {
          kept = t.kept.kept;
          held = held;
          done = record {
            sound = d.sound;
            served = before;
            delivered = still;
            gets = l.done.gets ∙ ap (λ q. map (λ x. x.0) before ++ map waiter_event q) (e ∙ sym e');
            puts = rw c (
                ap (λ xs. xs ++ item ∷ []) l.done.puts
                ∙ append_assoc (map (λ x. x.1) before) (contents s) (item ∷ []));
          };
          waiting = rw e' tt;
          distinct = rw e' tt;
        }
        | inl (w, e, c, carries) ↦
            let empty = next-empty s w s'.gets l.done.sound e in
            let pending : All (λ x. is_pending (env.events x.event).state ≡ true) (w ∷ s'.gets) =
              rw e at (
                let waits : All (λ x. is_pending (env.events x.event).state ≡ true) s.gets =
                  l.waiting in
                waits) in
            let lower : All (λ x. x.event < env.n_events) (w ∷ s'.gets) =
              rw e at
                (let lower : All (λ x. x.event < env.n_events) s.gets = l.held.gets in lower) in
            let apart : Distinct (w ∷ s'.gets) =
              rw e at (let apart : Distinct s.gets = l.distinct in apart) in
            record {
              kept = t.kept.kept;
              held = held;
              done = record {
                sound = d.sound;
                served = before ++ (w.event, item) ∷ [];
                delivered =
                    All-behind (λ x. (x.0 < env'.n_events) × Delivered env' x.0 x.1) before
                      (w.event, item) still (omega (arith, lower.0, grows), carries pending.0);
                gets =
                    l.done.gets
                    ∙ ap (λ q. map (λ x. x.0) before ++ map waiter_event q) e
                    ∙ sym
                        (served-into (λ x. x.0) before (w.event, item) (map waiter_event s'.gets));
                puts =
                    ap (λ xs. xs ++ item ∷ [])
                      (l.done.puts ∙ ap (λ xs. map (λ x. x.1) before ++ xs) empty)
                    ∙ served-last (λ x. x.1) before (w.event, item)
                    ∙ ap (λ xs. map (λ x. x.1) (before ++ (w.event, item) ∷ []) ++ xs)
                        (sym (c ∙ empty));
              };
              waiting =
                  All-weaken _ _ s'.gets
                    (λ x h. put-waits s env item x.event i h.0 (rw e h.1.1) h.1.0)
                    (All-both (λ x. x.event < env.n_events)
                      (λ x. (is_pending (env.events x.event).state ≡ true) × (x.event ≢ w.event))
                      s'.gets lower.1
                      (All-both (λ x. is_pending (env.events x.event).state ≡ true)
                        (λ x. x.event ≢ w.event) s'.gets pending.1 apart.0));
              distinct = apart.1;
            }
      ]

  pub get-Ledger :
      (asked : List ℕ) (items : List Ptr) (s : Store) (env : Env D)
      → env.next_seq + 2 < 2 ^ 58
      → Ledger asked items s env
      → let (ev, s', env') = sim_store_get s env in Ledger (asked ++ ev ∷ []) items s' env'
  unfolding waiter_push
  get-Ledger asked items s env room l =
      let (ev, s', env') = sim_store_get s env in
      let i = l.kept.valid in
      let d = sim_store_get-GetDone s env l.done.sound in
      let (t, held) = get-Fits s env l.kept l.held room in
      let grows = t.kept.grows in
      let before = l.done.served in
      let still =
        All-weaken (λ x. (x.0 < env.n_events) × Delivered env x.0 x.1)
          (λ x. (x.0 < env'.n_events) × Delivered env' x.0 x.1) before
          (λ x a. (omega (arith, a.0, grows), get-Delivered s env x.0 x.1 i a.0 a.1))
          l.done.delivered in
      elim d.effect [
        | inl (item, c, carries) ↦
            let none_wait = full-unwaited s item (contents s') l.done.sound c in
            let none_left = get-gets s env item carries ∙ none_wait in
            record {
              kept = t.kept.kept;
              held = held;
              done = record {
                sound = d.sound;
                served = before ++ (ev, item) ∷ [];
                delivered =
                    All-behind (λ x. (x.0 < env'.n_events) × Delivered env' x.0 x.1) before
                      (ev, item) still (get-allocated s env l.kept l.held room, carries);
                gets =
                    ap (λ xs. xs ++ ev ∷ [])
                      (l.done.gets
                        ∙ ap (λ q. map (λ x. x.0) before ++ map waiter_event q) none_wait)
                    ∙ served-last (λ x. x.0) before (ev, item)
                    ∙ ap (λ q. map (λ x. x.0) (before ++ (ev, item) ∷ []) ++ map waiter_event q)
                        (sym none_left);
                puts =
                    l.done.puts
                    ∙ ap (λ xs. map (λ x. x.1) before ++ xs) c
                    ∙ sym (served-into (λ x. x.1) before (ev, item) (contents s'));
              };
              waiting = rw none_left tt;
              distinct = rw none_left tt;
            }
        | inr (empty, empty', g) ↦
            let e = no_items s s.items refl empty in
            let used =
              All-both (λ w. w.event < env.n_events)
                (λ w. is_pending (env.events w.event).state ≡ true) s.gets l.held.gets l.waiting in
            let new : WaiterNode = record { event = ev; item = null } in
            record {
              kept = t.kept.kept;
              held = held;
              done = record {
                sound = d.sound;
                served = before;
                delivered = still;
                gets =
                    ap (λ xs. xs ++ ev ∷ []) l.done.gets
                    ∙ append_assoc (map (λ x. x.0) before) (map waiter_event s.gets) (ev ∷ [])
                    ∙ ap (λ xs. map (λ x. x.0) before ++ xs)
                        (sym (map-append waiter_event s.gets (new ∷ []))
                          ∙ ap (map waiter_event) (sym g));
                puts = l.done.puts ∙ ap (λ xs. map (λ x. x.1) before ++ xs) (empty ∙ sym empty');
              };
              waiting = rw g (
                  All-behind (λ w. is_pending (env'.events w.event).state ≡ true) s.gets new
                    (All-weaken _ _ s.gets (λ w h. get-waits s env w.event i e h.0 h.1) used)
                    (get_new-waits s env e));
              distinct = rw g (
                  Distinct-wait s.gets new l.distinct (
                    All-weaken _ _ s.gets (λ w h. sim_store_get-other s env w.event i h.0 h.1)
                      used));
            }
      ]
