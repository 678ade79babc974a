-- ===== src/Container/History.antt =====
-- src/container.c: puts and gets, and any sequence of them.
use simpyc.Prelude.{
  ℕ, ◌≡◌, refl, inl, inr, true, false, ◌&&◌, List, [], ◌∷◌, arith, Bool-cases, Double, Ptr, All,
}
use simpyc.State.{Env}
use simpyc.Container.{
  Container, CqNode, sim_container_create, sim_container_put, sim_container_get, cq_push, is_empty,
}
use simpyc.Container.Level.{
  IsAmount, IsLevel, Amounts, GetsWait, PutsWait, IsSound, take-IsLevel, give-IsLevel,
  wake_gets-IsSound, wake_puts-IsSound,
}

-- A call of a client.
pub data Operation (D : Type 0) : Type 0 where
  put get : D → Operation D

module _ {D : Type 0} ⦃F : Double D⦄ where
  empty-nil : (q : List (CqNode D)) → is_empty q ≡ true → q ≡ []
  empty-nil [] e = refl
  empty-nil (n ∷ q) e = absurd (cc)

  cq_push-Amounts :
      (q : List (CqNode D)) (ev : ℕ) (a : D) → Amounts q → IsAmount a → Amounts (cq_push q ev a)
  unfolding cq_push
  cq_push-Amounts [] ev a h k = (k, tt)
  cq_push-Amounts (n ∷ q) ev a h k = (h.0, cq_push-Amounts q ev a h.1 k)

  cq_push-PutsWait :
      (level capacity : D) (q : List (CqNode D)) (ev : ℕ) (a : D)
      → PutsWait level capacity q
      → (is_empty q && F.le (F.add level a) capacity) ≡ false
      → PutsWait level capacity (cq_push q ev a)
  unfolding cq_push
  cq_push-PutsWait level capacity [] ev a w h = h
  cq_push-PutsWait level capacity (n ∷ q) ev a w h = w

  cq_push-GetsWait :
      (level : D) (q : List (CqNode D)) (ev : ℕ) (a : D)
      → GetsWait level q
      → (is_empty q && F.le a level) ≡ false
      → GetsWait level (cq_push q ev a)
  unfolding cq_push
  cq_push-GetsWait level [] ev a w h = h
  cq_push-GetsWait level (n ∷ q) ev a w h = w

  pub put-IsSound :
      (c : Container D) (env : Env D) (a : D)
      → IsSound c
      → IsAmount a
      → IsSound (sim_container_put c env a).1
  unfolding sim_container_put
  put-IsSound c env a s h =
      elim (Bool-cases (is_empty c.puts && F.le (F.add c.level a) c.capacity)) [
        | inl fits ↦ rw fits (
            wake_gets-IsSound (record c { level = F.add c.level a }) c.gets _
              (give-IsLevel c.level c.capacity a s.level h (ground arith)) s.gets
              (empty-nil c.puts (ground arith)))
        | inr waits ↦ rw waits (record {
          level = s.level;
          puts = cq_push-Amounts c.puts _ a s.puts h;
          gets = s.gets;
          puts_wait = cq_push-PutsWait c.level c.capacity c.puts _ a s.puts_wait waits;
          gets_wait = s.gets_wait;
        })
      ]

  pub get-IsSound :
      (c : Container D) (env : Env D) (a : D)
      → IsSound c
      → IsAmount a
      → IsSound (sim_container_get c env a).1
  unfolding sim_container_get
  get-IsSound c env a s h = elim (Bool-cases (is_empty c.gets && F.le a c.level)) [
    | inl fits ↦ rw fits (
        wake_puts-IsSound (record c { level = F.sub c.level a }) c.puts _
          (take-IsLevel c.level c.capacity a s.level h (ground arith)) s.puts
          (empty-nil c.gets (ground arith)))
    | inr waits ↦ rw waits (record {
      level = s.level;
      puts = s.puts;
      gets = cq_push-Amounts c.gets _ a s.gets h;
      puts_wait = s.puts_wait;
      gets_wait = cq_push-GetsWait c.level c.gets _ a s.gets_wait waits;
    })
  ]

  abbrev pub amount : Operation D → D
  amount (put a) = a
  amount (get a) = a

  unfoldable pub perform : Operation D → Container D × Env D → Container D × Env D
  perform (put a) (c, env) = let (ev, c', env') = sim_container_put c env a in (c', env')
  perform (get a) (c, env) = let (ev, c', env') = sim_container_get c env a in (c', env')

  unfoldable pub perform_all : List (Operation D) → Container D × Env D → Container D × Env D
  unfolding perform
  perform_all [] s = s
  perform_all (o ∷ os) s = perform_all os (perform o s)

  perform-IsSound :
      (o : Operation D) (s : Container D × Env D)
      → IsAmount (amount o)
      → IsSound s.0
      → IsSound (perform o s).0
  unfolding perform
  perform-IsSound (put a) s h i = put-IsSound s.0 s.1 a i h
  perform-IsSound (get a) s h i = get-IsSound s.0 s.1 a i h

  perform_all-IsSound :
      (os : List (Operation D)) (s : Container D × Env D)
      → All (λ o. IsAmount (amount o)) os
      → IsSound s.0
      → IsSound (perform_all os s).0
  unfolding perform_all
  perform_all-IsSound [] s h i = i
  perform_all-IsSound (o ∷ os) s h i =
      perform_all-IsSound os (perform o s) h.1 (perform-IsSound o s h.0 i)

  -- After any puts and gets of finite amounts that are not negative, on a container that starts
  -- between zero and its capacity, the level is between zero and the capacity, and neither the
  -- first waiting put nor the first waiting get could be served.
  pub container_history-IsSound :
      (self : Ptr) (capacity init : D) (os : List (Operation D)) (env : Env D)
      → IsLevel init capacity
      → All (λ o. IsAmount (amount o)) os
      → IsSound (perform_all os (sim_container_create self capacity init, env)).0
  unfolding sim_container_create
  container_history-IsSound self capacity init os env v h =
      perform_all-IsSound os (sim_container_create self capacity init, env) h
        (record { level = v; puts = tt; gets = tt; puts_wait = tt; gets_wait = tt })
