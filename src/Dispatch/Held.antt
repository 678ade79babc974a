-- ===== src/Dispatch/Held.antt =====
-- Every waiter of an object of the client waits on an event that has been allocated.
use simpyc.Prelude.{ℕ, ◌≤◌, ◌<◌, List, [], ◌∷◌, ◌++◌, arith, inl, inr, Bool-cases, All, Ptr}
use simpyc.SortedQueue.{Node, insert, goes_before}
use simpyc.Objects.{Objects}
use simpyc.Objects.Resources.{Resource, PriorityResource, Waiter, PreemptiveResource}
use simpyc.Objects.Buffers.{CqNode, Container, WaiterNode, Store, PriorityStore}
use simpyc.Objects.Buffers
use simpyc.Objects.Filtered
use simpyc.Objects.Filtered.{GetWaiter, FilterStore}

-- `n` is the number of the allocated events.
abbrev pub Allocated : {W : Type 0} → (W → ℕ) → ℕ → List W → Type 0
Allocated event n q = All (λ w. event w < n) q

module _ {W : Type 0} (event : W → ℕ) where
  pub Allocated-grow : (m n : ℕ) (q : List W) → m ≤ n → Allocated event m q → Allocated event n q
  Allocated-grow m n [] grows a = tt
  Allocated-grow m n (w ∷ q) grows a = (omega (arith, a.0), Allocated-grow m n q grows a.1)

  pub Allocated-wait :
      (n : ℕ) (q : List W) (w : W)
      → Allocated event n q
      → event w < n
      → Allocated event n (q ++ w ∷ [])
  Allocated-wait n [] w a lt = (lt, tt)
  Allocated-wait n (v ∷ q) w a lt = (a.0, Allocated-wait n q w a.1 lt)

pub Allocated-insert :
    {A : Type 0} (event : Node A → ℕ) (n : ℕ) (w : Node A) (q : List (Node A))
    → event w < n
    → Allocated event n q
    → Allocated event n (insert w q)
unfolding insert
Allocated-insert event n w [] lt a = (lt, tt)
Allocated-insert event n w (x ∷ q) lt a = elim (Bool-cases (goes_before w x)) [
  | inl first ↦ rw first (lt, a)
  | inr later ↦ rw later (a.0, Allocated-insert event n w q lt a.1)
]

abbrev pub itself : ℕ → ℕ
itself e = e

abbrev pub node_event : Node ℕ → ℕ
node_event n = n.payload

abbrev pub node_request : Node Waiter → ℕ
node_request n = (n.payload).req

abbrev pub amount_event : {D : Type 0} → CqNode D → ℕ
amount_event w = w.event

abbrev pub item_event : WaiterNode → ℕ
item_event w = w.event

abbrev pub ranked_event : Buffers.PutWaiter → ℕ
ranked_event w = w.event

abbrev pub filter_event : GetWaiter → ℕ
filter_event w = w.event

abbrev pub put_event : Filtered.PutWaiter → ℕ
put_event w = w.event

abbrev pub IsHeldResource : Resource → ℕ → Type 0
IsHeldResource r n = Allocated itself n r.queue

abbrev pub IsHeldPriorityResource : PriorityResource → ℕ → Type 0
IsHeldPriorityResource r n = Allocated node_event n r.queue

abbrev pub IsHeldPreemptiveResource : PreemptiveResource → ℕ → Type 0
IsHeldPreemptiveResource r n = Allocated node_request n r.waiters

pub record IsHeldContainer {D : Type 0} (c : Container D) (n : ℕ) : Type 0 where
  pub gets : Allocated amount_event n c.gets
  pub puts : Allocated amount_event n c.puts

pub record IsHeldStore (s : Store) (n : ℕ) : Type 0 where
  pub gets : Allocated item_event n s.gets
  pub puts : Allocated item_event n s.puts

pub record IsHeldPriorityStore (s : PriorityStore) (n : ℕ) : Type 0 where
  pub gets : Allocated itself n s.gets
  pub puts : Allocated ranked_event n s.puts

pub record IsHeldFilterStore (s : FilterStore) (n : ℕ) : Type 0 where
  pub gets : Allocated filter_event n s.gets
  pub puts : Allocated put_event n s.puts

pub record AreHeld {D : Type 0} (o : Objects D) (n : ℕ) : Type 0 where
  pub resources : (a : Ptr) → IsHeldResource (o.resources a) n
  pub priority_resources : (a : Ptr) → IsHeldPriorityResource (o.priority_resources a) n
  pub preemptive_resources : (a : Ptr) → IsHeldPreemptiveResource (o.preemptive_resources a) n
  pub containers : (a : Ptr) → IsHeldContainer (o.containers a) n
  pub stores : (a : Ptr) → IsHeldStore (o.stores a) n
  pub priority_stores : (a : Ptr) → IsHeldPriorityStore (o.priority_stores a) n
  pub filter_stores : (a : Ptr) → IsHeldFilterStore (o.filter_stores a) n

-- More events may have been allocated.
pub AreHeld-grow : {D : Type 0} (o : Objects D) (m n : ℕ) → m ≤ n → AreHeld o m → AreHeld o n
AreHeld-grow o m n le h = record {
  resources = λ a. Allocated-grow itself m n (o.resources a).queue le (h.resources a);
  priority_resources =
      λ a. Allocated-grow node_event m n (o.priority_resources a).queue le (h.priority_resources a);
  preemptive_resources = λ a.
      Allocated-grow node_request m n (o.preemptive_resources a).waiters le
        (h.preemptive_resources a);
  containers = λ a. record {
    gets = Allocated-grow amount_event m n (o.containers a).gets le (h.containers a).gets;
    puts = Allocated-grow amount_event m n (o.containers a).puts le (h.containers a).puts;
  };
  stores = λ a. record {
    gets = Allocated-grow item_event m n (o.stores a).gets le (h.stores a).gets;
    puts = Allocated-grow item_event m n (o.stores a).puts le (h.stores a).puts;
  };
  priority_stores = λ a. record {
    gets = Allocated-grow itself m n (o.priority_stores a).gets le (h.priority_stores a).gets;
    puts = Allocated-grow ranked_event m n (o.priority_stores a).puts le (h.priority_stores a).puts;
  };
  filter_stores = λ a. record {
    gets = Allocated-grow filter_event m n (o.filter_stores a).gets le (h.filter_stores a).gets;
    puts = Allocated-grow put_event m n (o.filter_stores a).puts le (h.filter_stores a).puts;
  };
}
