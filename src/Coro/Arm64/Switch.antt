-- ===== src/Coro/Arm64/Switch.antt =====
-- src/coro_arm64.S: what a switch keeps, and where the first switch into a context arrives.
use simpyc.Prelude.{
  ℕ, ◌+◌, ◌%◌, ◌≤◌, ◌<◌, ◌≡◌, ◌≢◌, refl, sym, ap, ◌∙◌, arith, u64_mod, update, update-same,
  update-other,
}
use simpyc.Coro.{Contexts}
use simpyc.Coro.Arm64.{Regs, coro_init, coro_switch, coro_trampoline, save}

-- The registers of a caller as the calling convention wants them back: it goes on behind its call,
-- at the address that the call put into x30.
pub record IsReturn (r r' : Regs) : Type 0 where
  pc : r'.pc ≡ r.x30
  sp : r'.sp ≡ r.sp
  x19 : r'.x19 ≡ r.x19
  x20 : r'.x20 ≡ r.x20
  x21 : r'.x21 ≡ r.x21
  x22 : r'.x22 ≡ r.x22
  x23 : r'.x23 ≡ r.x23
  x24 : r'.x24 ≡ r.x24
  x25 : r'.x25 ≡ r.x25
  x26 : r'.x26 ≡ r.x26
  x27 : r'.x27 ≡ r.x27
  x28 : r'.x28 ≡ r.x28
  x29 : r'.x29 ≡ r.x29
  d8 : r'.d8 ≡ r.d8
  d9 : r'.d9 ≡ r.d9
  d10 : r'.d10 ≡ r.d10
  d11 : r'.d11 ≡ r.d11
  d12 : r'.d12 ≡ r.d12
  d13 : r'.d13 ≡ r.d13
  d14 : r'.d14 ≡ r.d14
  d15 : r'.d15 ≡ r.d15

-- On arm64 a switch away and a later one back are a return to the first caller, with the
-- registers that the calling convention keeps: whatever ran in between, as long as it did not
-- write to the context that was saved and does not save into it as it switches back.
pub arm64_switch-returns :
    (r s : Regs) (contexts contexts' : Contexts)
    → contexts' r.x0 ≡ (coro_switch r contexts).1 r.x0
    → s.x1 ≡ r.x0
    → s.x0 ≢ r.x0
    → IsReturn r (coro_switch s contexts').0
unfolding coro_switch
arm64_switch-returns r s contexts contexts' kept back other =
    let r' = record r { x16 = r.sp } in
    let s' = record s { x16 = s.sp } in
    let moved : s.x1 ≢ s.x0 = λ same. other (sym same ∙ back) in
    let loaded : update contexts' s.x0 (save s' (contexts' s.x0)) s.x1 ≡ save r' (contexts r.x0) =
      update-other contexts' s.x0 _ s.x1 moved
      ∙ ap contexts' back
      ∙ kept
      ∙ update-same contexts r.x0 _ in
    rw loaded (record {
      pc = refl;
      sp = refl;
      x19 = refl;
      x20 = refl;
      x21 = refl;
      x22 = refl;
      x23 = refl;
      x24 = refl;
      x25 = refl;
      x26 = refl;
      x27 = refl;
      x28 = refl;
      x29 = refl;
      d8 = refl;
      d9 = refl;
      d10 = refl;
      d11 = refl;
      d12 = refl;
      d13 = refl;
      d14 = refl;
      d15 = refl;
    })

-- The first switch into a new context calls the entry with its argument, on a stack pointer that
-- lies in the stack and is aligned.
pub arm64_init-enters :
    (trampoline stack size entry arg : ℕ) (r : Regs) (contexts : Contexts)
    → contexts r.x1 ≡ coro_init trampoline stack size entry arg
    → r.x1 ≢ r.x0
    → 16 ≤ size
    → stack + size < u64_mod
    → let r' = (coro_switch r contexts).0 in
      let e = coro_trampoline r' in
      (r'.pc ≡ trampoline)
      × (e.pc ≡ entry)
      × (e.arg ≡ arg)
      × (e.sp % 16 ≡ 0)
      × (stack ≤ e.sp)
      × (e.sp ≤ stack + size)
unfolding coro_switch coro_init coro_trampoline
arm64_init-enters trampoline stack size entry arg r contexts made other room fits =
    let loaded : update contexts r.x0 (save (record r { x16 = r.sp }) (contexts r.x0)) r.x1
        ≡ coro_init trampoline stack size entry arg =
      update-other contexts r.x0 _ r.x1 other ∙ made in
    rw loaded (refl, refl, refl, omega arith, omega arith, omega arith)
