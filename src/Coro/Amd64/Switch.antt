-- ===== src/Coro/Amd64/Switch.antt =====
-- src/coro_amd64.S: what a switch keeps, and where the first switch into a context arrives.
use simpyc.Prelude.{
  ℕ, ◌+◌, ◌%◌, ◌≤◌, ◌<◌, ◌≡◌, ◌≢◌, refl, arith, u64_mod, update, update-same, update-other, ap, ◌∙◌,
  sym,
}
use simpyc.Coro.{Contexts}
use simpyc.Coro.Amd64.{Regs, coro_init, coro_switch, coro_trampoline, save, pop_rax}

-- The registers of a caller as the calling convention wants them back: it goes on behind its call,
-- with the return address popped.
pub record IsReturn (stack : ℕ → ℕ) (r r' : Regs) : Type 0 where
  rip : r'.rip ≡ stack r.rsp
  rsp : r'.rsp ≡ (r.rsp + 8) % u64_mod
  rbx : r'.rbx ≡ r.rbx
  rbp : r'.rbp ≡ r.rbp
  r12 : r'.r12 ≡ r.r12
  r13 : r'.r13 ≡ r.r13
  r14 : r'.r14 ≡ r.r14
  r15 : r'.r15 ≡ r.r15

-- On x86_64 a switch away and a later one back are a return to the first caller, with the
-- registers that the calling convention keeps: whatever ran in between, on whatever stack, as
-- long as it did not write to the context that was saved and does not save into it as it switches
-- back.
pub coro_switch-returns :
    (stack stack' : ℕ → ℕ) (r s : Regs) (contexts contexts' : Contexts)
    → contexts' r.rdi ≡ (coro_switch stack r contexts).1 r.rdi
    → s.rsi ≡ r.rdi
    → s.rdi ≢ r.rdi
    → IsReturn stack r (coro_switch stack' s contexts').0
unfolding coro_switch
coro_switch-returns stack stack' r s contexts contexts' kept back other =
    let r' = pop_rax stack r in
    let s' = pop_rax stack' s in
    let moved : s.rsi ≢ s.rdi = λ same. other (sym same ∙ back) in
    let loaded : update contexts' s.rdi (save s' (contexts' s.rdi)) s.rsi
        ≡ save r' (contexts r.rdi) =
      update-other contexts' s.rdi _ s.rsi moved
      ∙ ap contexts' back
      ∙ kept
      ∙ update-same contexts r.rdi _ in
    rw loaded (record {
      rip = refl;
      rsp = refl;
      rbx = refl;
      rbp = refl;
      r12 = refl;
      r13 = refl;
      r14 = refl;
      r15 = refl;
    })

-- On x86_64 the first switch into a new context calls the entry with its argument, on a stack
-- pointer that lies in the stack, with room above it for the return address, and is aligned as at
-- any call; this for a stack of at least 24 bytes that does not reach past the end of the address
-- space.
pub coro_init-enters :
    (trampoline stack size entry arg : ℕ) (caller : ℕ → ℕ) (r : Regs) (contexts : Contexts)
    → contexts r.rsi ≡ coro_init trampoline stack size entry arg
    → r.rsi ≢ r.rdi
    → 24 ≤ size
    → stack + size < u64_mod
    → let r' = (coro_switch caller r contexts).0 in
      let e = coro_trampoline r' in
      (r'.rip ≡ trampoline)
      × (e.pc ≡ entry)
      × (e.arg ≡ arg)
      × (e.sp % 16 ≡ 8)
      × (stack ≤ e.sp)
      × (e.sp + 8 ≤ stack + size)
unfolding coro_switch coro_init coro_trampoline
coro_init-enters trampoline stack size entry arg caller r contexts made other room fits =
    let loaded : update contexts r.rdi (save (pop_rax caller r) (contexts r.rdi)) r.rsi
        ≡ coro_init trampoline stack size entry arg =
      update-other contexts r.rdi _ r.rsi other ∙ made in
    rw loaded (refl, refl, refl, omega arith, omega arith, omega arith)
