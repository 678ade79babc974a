-- ===== src/FifoStore/Served.antt =====
-- src/store.c: what a put or a get does to the events of the other calls.
use simpyc.Prelude.{
  pos, ltb_ℤ, int_of, dec32, ℕ, ◌<◌, ◌≡◌, refl, ◌≢◌, inl, inr, true, false, List, [], ◌∷◌, arith,
  Bool-cases, Double, Ptr,
}
use simpyc.State.{Env}
use simpyc.Event.{
  event_alloc, mark_recyclable, sim_event_succeed, event_schedule, is_pending, is_processed,
}
use simpyc.Event.Delivery.{Delivered, opened, opened-waits, Delivered-succeed}
use simpyc.Event.Validity.{IsValid}
use simpyc.Event.Alloc.{event_alloc-IsFresh}
use simpyc.FifoStore.{
  Store, WaiterNode, sim_store_put, sim_store_get, put_item, get_item, refill, has_room, item_push,
}

-- Whom a put may wake.
abbrev pub IsNext : List WaiterNode → ℕ → Type 0
IsNext [] x = ⊥
IsNext (w ∷ q) x = x ≡ w.event

module _ {D : Type 0} ⦃F : Double D⦄ where
  -- An event that is in use is not handed out.
  used-other :
      (env : Env D) (x : ℕ)
      → IsValid env
      → x < env.n_events
      → is_processed (env.events x).state ≡ false
      → x ≢ (event_alloc env).0
  used-other env x i lt used same =
      let f = event_alloc-IsFresh env i in
      elim f.unused [
        | inl above ↦ omega (arith, lt, above, same)
        | inr done ↦
            let done' : is_processed (env.events x).state ≡ true = rw same done in
            ground (arith, used, done')
      ]

  pub sim_store_get-other :
      (s : Store) (env : Env D) (x : ℕ)
      → IsValid env
      → x < env.n_events
      → is_pending (env.events x).state ≡ true
      → x ≢ (sim_store_get s env).0
  unfolding sim_store_get
  sim_store_get-other s env x i lt h = used-other env x i lt (ground (arith, h))

  opened-other :
      (env : Env D) (x : ℕ)
      → IsValid env
      → x ≢ (event_alloc env).0
      → (opened env).events x ≡ env.events x
  unfolding mark_recyclable
  opened-other env x i ne = let f = event_alloc-IsFresh env i in ground (arith, ne, f.others x ne)

  succeed-waits :
      (env : Env D) (e x : ℕ) (v : Ptr)
      → x ≢ e
      → is_pending (env.events x).state ≡ true
      → is_pending ((sim_event_succeed env e v).events x).state ≡ true
  unfolding sim_event_succeed event_schedule
  succeed-waits env e x v ne h = ground (arith, ne, h)

  put_item-Delivered :
      (s : Store) (gets : List WaiterNode) (env : Env D) (ev : ℕ) (item : Ptr) (e : ℕ) (v : Ptr)
      → Delivered env e v
      → Delivered (put_item s gets env ev item).1 e v
  unfolding put_item
  put_item-Delivered s [] env ev item e v d = elim (Bool-cases (has_room s)) [
    | inl room ↦ rw room (Delivered-succeed env e ev v s.self d)
    | inr full ↦ rw full d
  ]
  put_item-Delivered s (w ∷ q) env ev item e v d =
      Delivered-succeed _ e ev v s.self (Delivered-succeed env e w.event v item d)

  put_item-waits :
      (s : Store) (gets : List WaiterNode) (env : Env D) (ev : ℕ) (item : Ptr) (x : ℕ)
      → x ≢ ev
      → ¬ IsNext gets x
      → is_pending (env.events x).state ≡ true
      → is_pending ((put_item s gets env ev item).1.events x).state ≡ true
  unfolding put_item
  put_item-waits s [] env ev item x ne other h = elim (Bool-cases (has_room s)) [
    | inl room ↦ rw room (succeed-waits env ev x s.self ne h)
    | inr full ↦ rw full h
  ]
  put_item-waits s (w ∷ q) env ev item x ne other h =
      succeed-waits (sim_event_succeed env w.event item) ev x s.self ne
        (succeed-waits env w.event x item other h)

  refill-Delivered :
      (s : Store) (puts : List WaiterNode) (env : Env D) (e : ℕ) (v : Ptr)
      → Delivered env e v
      → Delivered (refill s puts env).1 e v
  unfolding refill
  refill-Delivered s [] env e v d = d
  refill-Delivered s (w ∷ q) env e v d = Delivered-succeed env e w.event v s.self d

  refill-gets :
      (s : Store) (puts : List WaiterNode) (env : Env D) → ((refill s puts env).0).gets ≡ s.gets
  unfolding refill item_push
  refill-gets s [] env = refl
  refill-gets s (w ∷ q) env = refl

  get_item-Delivered :
      (s : Store) (items : List Ptr) (env : Env D) (ev e : ℕ) (v : Ptr)
      → Delivered env e v
      → Delivered (get_item s items env ev).1 e v
  unfolding get_item
  get_item-Delivered s [] env ev e v d = d
  get_item-Delivered s (item ∷ rest) env ev e v d =
      elim (Bool-cases (ltb_ℤ (pos 0) (int_of s.count))) [
        | inl counted ↦ rw counted (
            refill-Delivered (record s { items = rest; count = dec32 s.count }) s.puts _ e v
              (Delivered-succeed env e ev v item d))
        | inr none_there ↦ rw none_there d
      ]

  -- An event of an earlier call that carries its item goes on to carry it.
  pub put-Delivered :
      (s : Store) (env : Env D) (item : Ptr) (e : ℕ) (v : Ptr)
      → IsValid env
      → e < env.n_events
      → Delivered env e v
      → Delivered (sim_store_put s env item).2 e v
  unfolding sim_store_put
  put-Delivered s env item e v i lt d =
      let ne = used-other env e i lt (ground (arith, d.state)) in
      let same = opened-other env e i ne in
      put_item-Delivered s s.gets (opened env) (event_alloc env).0 item e v
        (record { state = rw same d.state; value = rw same d.value })

  pub get-Delivered :
      (s : Store) (env : Env D) (e : ℕ) (v : Ptr)
      → IsValid env
      → e < env.n_events
      → Delivered env e v
      → Delivered (sim_store_get s env).2 e v
  unfolding sim_store_get
  get-Delivered s env e v i lt d =
      let ne = used-other env e i lt (ground (arith, d.state)) in
      let same = opened-other env e i ne in
      get_item-Delivered s s.items (opened env) (event_alloc env).0 e v
        (record { state = rw same d.state; value = rw same d.value })

  -- An event that waits goes on to wait, unless it is the one that the put wakes.
  pub put-waits :
      (s : Store) (env : Env D) (item : Ptr) (x : ℕ)
      → IsValid env
      → x < env.n_events
      → ¬ IsNext s.gets x
      → is_pending (env.events x).state ≡ true
      → is_pending ((sim_store_put s env item).2.events x).state ≡ true
  unfolding sim_store_put
  put-waits s env item x i lt other h =
      let ne = used-other env x i lt (ground (arith, h)) in
      put_item-waits s s.gets (opened env) (event_alloc env).0 item x ne other
        (rw (opened-other env x i ne) h)

  -- A get of an empty buffer changes no event in use, and its own event waits.
  pub get-waits :
      (s : Store) (env : Env D) (x : ℕ)
      → IsValid env
      → s.items ≡ []
      → x < env.n_events
      → is_pending (env.events x).state ≡ true
      → is_pending ((sim_store_get s env).2.events x).state ≡ true
  unfolding sim_store_get get_item
  get-waits s env x i e lt h =
      let ne = used-other env x i lt (ground (arith, h)) in rw e (rw (opened-other env x i ne) h)

  pub get_new-waits :
      (s : Store) (env : Env D)
      → s.items ≡ []
      → is_pending ((sim_store_get s env).2.events (sim_store_get s env).0).state ≡ true
  unfolding sim_store_get get_item
  get_new-waits s env e = rw e (opened-waits env)

  -- A get whose event carries an item leaves the waiting gets alone.
  get_item-gets :
      (s : Store) (items : List Ptr) (env : Env D) (ev : ℕ) (v : Ptr)
      → is_pending (env.events ev).state ≡ true
      → Delivered (get_item s items env ev).1 ev v
      → ((get_item s items env ev).0).gets ≡ s.gets
  unfolding get_item refill item_push
  get_item-gets s [] env ev v h d = absurd (let t = d.state in ground (arith, h, t))
  get_item-gets s (item ∷ rest) env ev v h d = elim (Bool-cases (ltb_ℤ (pos 0) (int_of s.count))) [
    | inl counted ↦ rw counted (
        refill-gets (record s { items = rest; count = dec32 s.count }) s.puts
          (sim_event_succeed env ev item))
    | inr none_there ↦ absurd (let t = (rw none_there at d).state in ground (arith, h, t))
  ]

  pub get-gets :
      (s : Store) (env : Env D) (v : Ptr)
      → Delivered (sim_store_get s env).2 (sim_store_get s env).0 v
      → ((sim_store_get s env).1).gets ≡ s.gets
  unfolding sim_store_get
  get-gets s env v d =
      get_item-gets s s.items (opened env) (event_alloc env).0 v (opened-waits env) d
