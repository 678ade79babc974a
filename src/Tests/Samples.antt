-- ===== src/Tests/Samples.antt =====
-- Natural numbers as times, and the inputs that the tests share.
use simpyc.Prelude.{
  ℕ, ◌+◌, ◌-◌, ◌*◌, ◌≡◌, refl, true, false, not, arith, ltb, leb, pos, negsuc, Double,
}
use simpyc.Heap.{HeapEntry, EventHeap, heap_init, heap_push}
use simpyc.Heap.Queue.{IsValidHeap, heap_init-IsValidHeap, heap_push-IsValidHeap}
use simpyc.State.{CbPair, Env}
use simpyc.Event.{event_schedule, Call, event_alloc, sim_timeout_v}
use simpyc.Event.Validity.{IsValid}
use simpyc.Event.Alloc.{sim_timeout_v-IsValid}
use simpyc.Scheduler.{sim_env_create}
use simpyc.Scheduler.Create.{sim_env_create-IsValid}
use simpyc.Scheduler.Tame.{IsTame, IsPlain-IsTame}

pub nat_lt_irrefl : (a : ℕ) → ltb a a ≡ false
nat_lt_irrefl a = ground arith

pub nat_lt_trans : (a b c : ℕ) → ltb a b ≡ true → ltb b c ≡ true → ltb a c ≡ true
nat_lt_trans a b c h k = ground arith

pub nat_lt_weak : (a b c : ℕ) → false ≡ false → ltb a c ≡ true → ltb a b ≡ false → ltb b c ≡ true
nat_lt_weak a b c n h k = ground arith

pub nat_le_not_lt : (a b : ℕ) → false ≡ false → false ≡ false → leb a b ≡ not (ltb b a)
nat_le_not_lt a b m n = ground arith

pub nat_add_number :
    (a b : ℕ) → false ≡ false → ltb a 0 ≡ false → false ≡ false → ltb b 0 ≡ false → false ≡ false
nat_add_number a b m h n k = refl

pub nat_add_grows :
    (a b : ℕ)
    → false ≡ false
    → ltb a 0 ≡ false
    → false ≡ false
    → ltb b 0 ≡ false
    → ltb (a + b) a ≡ false
nat_add_grows a b m h n k = ground arith

pub nat_sub_nonneg : (a b : ℕ) → leb b a ≡ true → ltb (a - b) 0 ≡ false
nat_sub_nonneg a b h = ground arith

pub nat_sub_shrinks : (a b : ℕ) → ltb b 0 ≡ false → ltb a (a - b) ≡ false
nat_sub_shrinks a b h = ground arith

instance abbrev pub nat_double : Double ℕ
nat_double = record {
  zero = 0;
  add = λ a b. a + b;
  sub = λ a b. a - b;
  mul = λ a b. a * b;
  lt = ltb;
  le = leb;
  is_nan = λ a. false;
  is_finite = λ a. true;
  lt_irrefl = nat_lt_irrefl;
  lt_trans = nat_lt_trans;
  lt_weak = nat_lt_weak;
  le_not_lt = nat_le_not_lt;
  zero_number = refl;
  add_number = nat_add_number;
  add_grows = nat_add_grows;
  finite_number = λ a h. refl;
  sub_number = λ a b h k. refl;
  sub_nonneg = nat_sub_nonneg;
  sub_shrinks = nat_sub_shrinks;
}

abbrev pub junk : ℕ → HeapEntry ℕ
junk i = record { time = 99; priority = negsuc 0; seq = 0; event = 0 }

abbrev pub early : HeapEntry ℕ
early = record { time = 2; priority = pos 1; seq = 1; event = 1 }

abbrev pub late : HeapEntry ℕ
late = record { time = 5; priority = pos 1; seq = 0; event = 0 }

abbrev pub one : EventHeap ℕ
one = heap_push (heap_init junk) late

pub one-IsValidHeap : IsValidHeap one
unfolding heap_init
one-IsValidHeap =
    heap_push-IsValidHeap (heap_init junk) late (heap_init-IsValidHeap junk) refl (omega arith)

abbrev pub two : EventHeap ℕ
two = heap_push one early

pub two-IsValidHeap : IsValidHeap two
unfolding heap_push heap_init
two-IsValidHeap = heap_push-IsValidHeap one early one-IsValidHeap refl (omega arith)

-- Two timeouts, due at 5 and at 2.
abbrev pub start : Env ℕ
start = sim_env_create junk

abbrev pub first : Env ℕ
first = (sim_timeout_v start 5 7).1

pub first-IsValid : IsValid first
unfolding sim_env_create
first-IsValid =
    sim_timeout_v-IsValid start 5 7 (sim_env_create-IsValid junk) (omega arith) (refl, refl)

abbrev pub waiting : Env ℕ
waiting = (sim_timeout_v first 2 8).1

pub waiting-IsValid : IsValid waiting
unfolding sim_env_create sim_timeout_v event_alloc event_schedule
waiting-IsValid = sim_timeout_v-IsValid first 2 8 first-IsValid (omega arith) (refl, refl)

-- A callback that does nothing, and a clock that stands still.
abbrev pub ignore : Call ℕ
ignore cb e env = env

-- Such a callback asks for nothing.
abbrev pub NoDemand : CbPair → ℕ → Env ℕ → Type 0
NoDemand cb e env = Unit

pub ignore-IsTame : IsTame ignore IsValid NoDemand
ignore-IsTame =
    IsPlain-IsTame ignore NoDemand
      (record { keeps = λ cb e env i s f. (i, s); clock = λ cb e env. refl })

abbrev pub stopped : ℕ → ℕ
stopped n = 0
