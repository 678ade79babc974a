-- ===== src/Coro/Arm64.antt =====
-- src/coro_arm64.S, and src/coro.c for arm64: the registers that the calling convention keeps across
-- a call, with those that the two routines use. The offset 112, at which d8 is stored, is slot 14.
pub mod Switch
use simpyc.Prelude.{ℕ, update}
use simpyc.Coro.{Slots, Contexts, zero_slots, stack_top, Entered}

pub record Regs : Type 0 where
  pub x0 : ℕ
  pub x1 : ℕ
  pub x16 : ℕ
  pub sp : ℕ
  pub x19 : ℕ
  pub x20 : ℕ
  pub x21 : ℕ
  pub x22 : ℕ
  pub x23 : ℕ
  pub x24 : ℕ
  pub x25 : ℕ
  pub x26 : ℕ
  pub x27 : ℕ
  pub x28 : ℕ
  pub x29 : ℕ
  pub x30 : ℕ
  pub d8 : ℕ
  pub d9 : ℕ
  pub d10 : ℕ
  pub d11 : ℕ
  pub d12 : ℕ
  pub d13 : ℕ
  pub d14 : ℕ
  pub d15 : ℕ
  pub pc : ℕ

-- coro_init: the trampoline's address is an argument.
unfoldable pub coro_init : ℕ → ℕ → ℕ → ℕ → ℕ → Slots
unfolding stack_top
coro_init trampoline stack size entry arg =
    let slots = zero_slots in
    let slots = update slots 0 (stack_top stack size) in
    let slots = update slots 1 trampoline in let slots = update slots 2 arg in update slots 3 entry

-- The stores into the context in x0.
abbrev pub save : Regs → Slots → Slots
save r slots =
    let slots = update slots 0 r.x16 in
    let slots = update slots 1 r.x30 in
    let slots = update slots 2 r.x19 in
    let slots = update slots 3 r.x20 in
    let slots = update slots 4 r.x21 in
    let slots = update slots 5 r.x22 in
    let slots = update slots 6 r.x23 in
    let slots = update slots 7 r.x24 in
    let slots = update slots 8 r.x25 in
    let slots = update slots 9 r.x26 in
    let slots = update slots 10 r.x27 in
    let slots = update slots 11 r.x28 in
    let slots = update slots 12 r.x29 in
    let slots = update slots 14 r.d8 in
    let slots = update slots 15 r.d9 in
    let slots = update slots 16 r.d10 in
    let slots = update slots 17 r.d11 in
    let slots = update slots 18 r.d12 in
    let slots = update slots 19 r.d13 in let slots = update slots 20 r.d14 in update slots 21 r.d15

-- The loads from the context in x1, and the return to the address in x30.
abbrev pub restore : Slots → Regs → Regs
restore slots r = record r {
  x16 = slots 0;
  sp = slots 0;
  x30 = slots 1;
  x19 = slots 2;
  x20 = slots 3;
  x21 = slots 4;
  x22 = slots 5;
  x23 = slots 6;
  x24 = slots 7;
  x25 = slots 8;
  x26 = slots 9;
  x27 = slots 10;
  x28 = slots 11;
  x29 = slots 12;
  d8 = slots 14;
  d9 = slots 15;
  d10 = slots 16;
  d11 = slots 17;
  d12 = slots 18;
  d13 = slots 19;
  d14 = slots 20;
  d15 = slots 21;
  pc = slots 1;
}

unfoldable pub coro_switch : Regs → Contexts → Regs × Contexts
coro_switch r contexts =
    let r' = record r { x16 = r.sp } in
    let contexts' = update contexts r'.x0 (save r' (contexts r'.x0)) in
    (restore (contexts' r'.x1) r', contexts')

-- coro_trampoline, up to the first instruction of the function that it calls.
unfoldable pub coro_trampoline : Regs → Entered
coro_trampoline r = record { pc = r.x20; arg = r.x19; sp = r.sp }
