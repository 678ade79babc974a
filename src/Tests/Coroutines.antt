-- ===== src/Tests/Coroutines.antt =====
-- Switches between contexts.
use simpyc.Prelude.{ℕ, ◌+◌, ◌%◌, ◌≤◌, ◌≡◌, refl, arith, update}
use simpyc.Coro.{Contexts, zero_slots, stack_top}
use simpyc.Coro.Amd64
use simpyc.Coro.Amd64.{Regs}
use simpyc.Coro.Amd64.Switch
use simpyc.Coro.Arm64
use simpyc.Coro.Arm64.Switch as ArmSwitch

-- The host, context 0, switches to context 1, which belongs to a process with its stack at 4096.
abbrev host : Regs
host = record {
  rax = 1;
  rbx = 2;
  rbp = 3;
  rsp = 1000;
  r12 = 4;
  r13 = 5;
  r14 = 6;
  r15 = 7;
  rdi = 0;
  rsi = 1;
  rip = 8;
}

abbrev contexts : Contexts
contexts = update (λ c. zero_slots) 1 (Amd64.coro_init 77 4096 1000 88 99)

abbrev host_stack : ℕ → ℕ
host_stack a = 55

abbrev inside : Regs × Contexts
inside = Amd64.coro_switch host_stack host contexts

-- The process switches back, with other values in its registers.
abbrev leaving : Regs
leaving = record (inside.0) { rdi = 1; rsi = 0; rbx = 22; r15 = 33 }

coro_switch-returns_example :
    Switch.IsReturn host_stack host (Amd64.coro_switch (λ a. 44) leaving inside.1).0
unfolding Amd64.coro_switch
coro_switch-returns_example =
    Switch.coro_switch-returns host_stack (λ a. 44) host leaving contexts inside.1 refl refl
      (omega arith)

coro_init-enters_example :
    let e = Amd64.coro_trampoline inside.0 in
    ((inside.0).rip ≡ 77)
    × (e.pc ≡ 88)
    × (e.arg ≡ 99)
    × (e.sp % 16 ≡ 8)
    × (4096 ≤ e.sp)
    × (e.sp + 8 ≤ 4096 + 1000)
unfolding Amd64.coro_init
coro_init-enters_example =
    Switch.coro_init-enters 77 4096 1000 88 99 host_stack host contexts refl (omega arith)
      (omega arith) (omega arith)

-- 5096 is not a multiple of 16.
inside_sp : (Amd64.coro_trampoline inside.0).sp ≡ 5080
unfolding Amd64.coro_init Amd64.coro_switch Amd64.coro_trampoline stack_top
inside_sp = refl

-- The same on arm64.
abbrev arm_host : Arm64.Regs
arm_host = record {
  x0 = 0;
  x1 = 1;
  x16 = 0;
  sp = 1000;
  x19 = 19;
  x20 = 20;
  x21 = 21;
  x22 = 22;
  x23 = 23;
  x24 = 24;
  x25 = 25;
  x26 = 26;
  x27 = 27;
  x28 = 28;
  x29 = 29;
  x30 = 30;
  d8 = 8;
  d9 = 9;
  d10 = 10;
  d11 = 11;
  d12 = 12;
  d13 = 13;
  d14 = 14;
  d15 = 15;
  pc = 8;
}

abbrev arm_contexts : Contexts
arm_contexts = update (λ c. zero_slots) 1 (Arm64.coro_init 77 4096 1000 88 99)

abbrev arm_inside : Arm64.Regs × Contexts
arm_inside = Arm64.coro_switch arm_host arm_contexts

abbrev arm_leaving : Arm64.Regs
arm_leaving = record (arm_inside.0) { x0 = 1; x1 = 0; x19 = 22; d9 = 33 }

arm64_switch-returns_example :
    ArmSwitch.IsReturn arm_host (Arm64.coro_switch arm_leaving arm_inside.1).0
unfolding Arm64.coro_switch
arm64_switch-returns_example =
    ArmSwitch.arm64_switch-returns arm_host arm_leaving arm_contexts arm_inside.1 refl refl
      (omega arith)
