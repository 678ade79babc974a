-- ===== src/Coro.antt =====
-- src/coro.c, src/coro.h and the assembly: saved contexts, the switch between them, and the first
-- entry into a new one. A context is a number, and the memory behind it the function from its slots
-- to 64-bit values: slot k lies at the byte offset 8k. Addresses of code are numbers.
pub mod Amd64
pub mod Arm64
use simpyc.Prelude.{ℕ, ◌+◌, ◌*◌, ◌/◌, ◌%◌, u64_mod}

-- coro_ctx_t, and all contexts.
abbrev pub Slots : Type 0
Slots = ℕ → ℕ

abbrev pub Contexts : Type 0
Contexts = ℕ → Slots

-- What memset leaves.
abbrev pub zero_slots : Slots
zero_slots k = 0

-- `(uintptr_t)stack + size`, with the lowest four bits cleared.
unfoldable pub stack_top : ℕ → ℕ → ℕ
stack_top stack size = (stack + size) % u64_mod / 16 * 16

-- The registers at the first instruction of `entry(arg)`, for which a switch leaves the context that
-- coro_init made.
pub record Entered : Type 0 where
  pub pc : ℕ
  pub arg : ℕ
  pub sp : ℕ
