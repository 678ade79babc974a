-- ===== src/Dispatch/Kept.antt =====
-- The invariant that connects events, processes and conditions, and what it takes to keep it.
use simpyc.Heap.{EventHeap}
use simpyc.Prelude.{ℕ, ◌≤◌, ◌<◌, ◌≡◌, refl, ◌∙◌, true, false, some, arith, Double, update}
use simpyc.State.{Env, SimEvent, cond_cb}
use simpyc.Event.{is_processed}
use simpyc.Event.Pool.{Chain-touch, Chain-mem}
use simpyc.Event.Validity.{IsValid}
use simpyc.Dispatch.Held.{AreHeld}
use simpyc.Scheduler.Tame.{IsOutside, IsSettled}

module _ {D : Type 0} ⦃F : Double D⦄ where
  -- An event that the library keeps for itself: it never goes to the pool.
  pub record IsReserved (env : Env D) (r : ℕ) : Type 0 where
    pub allocated : r < env.n_events
    pub kept : (env.events r).recyclable ≡ false
    pub outside : IsOutside env r

  pub record IsKept (env : Env D) : Type 0 where
    pub valid : IsValid env
    -- The event by which a process is resumed is its own for ever.
    pub resumes : (p r : ℕ) → (env.processes p).resume_ev ≡ some r → IsReserved env r
    -- The event of a process's end and the output of a condition are allocated.
    pub dones : (p d : ℕ) → (env.processes p).done ≡ some d → d < env.n_events
    pub outs : (c : ℕ) → c < env.n_conds → (env.conds c).out < env.n_events
    -- A condition that is subscribed somewhere is allocated.
    pub typed :
        (e i : ℕ) → ((env.events e).cbs i).fn ≡ cond_cb → ((env.events e).cbs i).user < env.n_conds
    pub held : AreHeld env.objects env.n_events

  -- What every operation guarantees.
  pub record Kept (env env' : Env D) : Type 0 where
    pub kept : IsKept env'
    pub settled : (x : ℕ) → IsSettled env x → IsSettled env' x
    pub reserved : (r : ℕ) → IsReserved env r → IsReserved env' r
    pub grows : env.n_events ≤ env'.n_events
    pub conds_grow : env.n_conds ≤ env'.n_conds
    pub now : env'.now ≡ env.now

  pub Kept-refl : (env : Env D) → IsKept env → Kept env env
  Kept-refl env k = record {
    kept = k;
    settled = λ x s. s;
    reserved = λ r s. s;
    grows = omega arith;
    conds_grow = omega arith;
    now = refl;
  }

  pub Kept-trans : (a b c : Env D) → Kept a b → Kept b c → Kept a c
  Kept-trans a b c k l = record {
    kept = l.kept;
    settled = λ x s. l.settled x (k.settled x s);
    reserved = λ r s. l.reserved r (k.reserved r s);
    grows = omega (arith, k.grows, l.grows);
    conds_grow = omega (arith, k.conds_grow, l.conds_grow);
    now = l.now ∙ k.now;
  }

  -- A write to one event that leaves its link alone, with whatever it does to the queue.
  abbrev pub written : Env D → ℕ → SimEvent → EventHeap D → ℕ → Env D
  written env e v h n = record env { events = update env.events e v; heap = h; next_seq = n }

  pub written-IsOutside :
      (env : Env D) (e : ℕ) (v : SimEvent) (h : EventHeap D) (n r : ℕ)
      → IsValid env
      → v.free_next ≡ (env.events e).free_next
      → IsOutside env r
      → IsOutside (written env e v h n) r
  written-IsOutside env e v h n r i link o xs c =
      Chain-mem (update env.events e v) r env.event_pool xs i.pool c
        (Chain-touch env.events e v env.event_pool i.pool link i.chain)
      ∙ o i.pool i.chain

  -- What such a write must respect, if the event was settled or reserved.
  pub record IsFair (env : Env D) (e : ℕ) (v : SimEvent) : Type 0 where
    pub link : v.free_next ≡ (env.events e).free_next
    pub settles : IsSettled env e → v.recyclable ≡ true → is_processed v.state ≡ true
    pub reserves : IsReserved env e → v.recyclable ≡ false
    pub typed : (i : ℕ) → (v.cbs i).fn ≡ cond_cb → (v.cbs i).user < env.n_conds

  pub written-IsSettled :
      (env : Env D) (e : ℕ) (v : SimEvent) (h : EventHeap D) (n x : ℕ)
      → IsValid env
      → IsFair env e v
      → IsSettled env x
      → IsSettled (written env e v h n) x
  written-IsSettled env e v h n x i f s = record {
    done = λ back. ground (arith, s.done, f.settles);
    allocated = s.allocated;
    outside = written-IsOutside env e v h n x i f.link s.outside;
  }

  pub written-IsReserved :
      (env : Env D) (e : ℕ) (v : SimEvent) (h : EventHeap D) (n r : ℕ)
      → IsValid env
      → IsFair env e v
      → IsReserved env r
      → IsReserved (written env e v h n) r
  written-IsReserved env e v h n r i f s = record {
    allocated = s.allocated;
    kept = ground (arith, s.kept, f.reserves);
    outside = written-IsOutside env e v h n r i f.link s.outside;
  }
