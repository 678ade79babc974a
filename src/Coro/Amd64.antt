-- ===== src/Coro/Amd64.antt =====
-- src/coro_amd64.S, and src/coro.c for x86_64: the registers that the calling convention keeps
-- across a call, with those that the two routines use.
pub mod Switch
use simpyc.Prelude.{ℕ, ◌+◌, ◌-◌, ◌%◌, u64_mod, update}
use simpyc.Coro.{Slots, Contexts, zero_slots, stack_top, Entered}

pub record Regs : Type 0 where
  pub rax : ℕ
  pub rbx : ℕ
  pub rbp : ℕ
  pub rsp : ℕ
  pub r12 : ℕ
  pub r13 : ℕ
  pub r14 : ℕ
  pub r15 : ℕ
  pub rdi : ℕ
  pub rsi : ℕ
  pub rip : ℕ

-- coro_init: the trampoline's address is an argument.
unfoldable pub coro_init : ℕ → ℕ → ℕ → ℕ → ℕ → Slots
unfolding stack_top
coro_init trampoline stack size entry arg =
    let slots = zero_slots in
    let slots = update slots 0 (stack_top stack size) in
    let slots = update slots 2 arg in let slots = update slots 3 entry in update slots 7 trampoline

-- `popq %rax`: the word that the stack pointer points to.
abbrev pub pop_rax : (ℕ → ℕ) → Regs → Regs
pop_rax stack r = record r { rax = stack r.rsp; rsp = (r.rsp + 8) % u64_mod }

-- The eight stores into the context in rdi.
abbrev pub save : Regs → Slots → Slots
save r slots =
    let slots = update slots 0 r.rsp in
    let slots = update slots 7 r.rax in
    let slots = update slots 1 r.rbp in
    let slots = update slots 2 r.rbx in
    let slots = update slots 3 r.r12 in
    let slots = update slots 4 r.r13 in let slots = update slots 5 r.r14 in update slots 6 r.r15

-- The eight loads from the context in rsi, and the jump.
abbrev pub restore : Slots → Regs → Regs
restore slots r = record r {
  rsp = slots 0;
  rax = slots 7;
  rbp = slots 1;
  rbx = slots 2;
  r12 = slots 3;
  r13 = slots 4;
  r14 = slots 5;
  r15 = slots 6;
  rip = slots 7;
}

-- coro_switch: `stack` is the memory of the stack that it is called on.
unfoldable pub coro_switch : (ℕ → ℕ) → Regs → Contexts → Regs × Contexts
coro_switch stack r contexts =
    let r' = pop_rax stack r in
    let contexts' = update contexts r'.rdi (save r' (contexts r'.rdi)) in
    (restore (contexts' r'.rsi) r', contexts')

-- coro_trampoline, up to the first instruction of the function that it calls: the call pushes the
-- address behind it.
unfoldable pub coro_trampoline : Regs → Entered
coro_trampoline r = record { pc = r.r12; arg = r.rbx; sp = r.rsp - 8 }
