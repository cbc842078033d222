-- ===== src/Riscv/Trap/Reach/Safe.antt =====
-- What holds of every reachable machine of trap.c.
use abstract_machine.Base.{ℕ, zero, suc, ◌<◌, inl, inr, refl, arith, Bool-cases, ◌==◌}
use abstract_machine.Riscv.Trap.Expect.{
  Expectation, Machine, Platform, expect, trap_init, trap_init_loop, trap_commit_fcsr,
  trap_commit_vector_csrs, trap_cancel, trap_check_complete, trap_expect, trap_capture, trap_on,
  trap_skip_to,
}
use abstract_machine.Riscv.Trap.Reach.{
  Operation, perform, Reaches, performed, switched, here, after, init, commit_fcsr,
  commit_vector_csrs, cancel, check_complete, expects, captures, on, skip_to, traps, Sound,
  AllSound, Preserves,
}
use abstract_machine.Riscv.Trap.Reach.Keep.{
  if-Preserves, pure-Preserves, fail-Preserves, get-Preserves, bind-Preserves, then-Preserves,
  set_expect-Preserves, set_word-Preserves, expect-Preserves, arm-Preserves,
  m_trap_handler-Preserves,
}

trap_init_loop-Sound : (n : ℕ) (g : ℕ → Expectation) (i : ℕ) → i < n → Sound (trap_init_loop n g i)
unfolding trap_init_loop
trap_init_loop-Sound zero g i lt = absurd (omega arith)
trap_init_loop-Sound (suc n) g i lt = elim (Bool-cases (i == n)) [
  | inl same ↦ rw same (inl refl)
  | inr other ↦ rw other (trap_init_loop-Sound n g i (ground arith))
]

perform-Preserves :
    (p : Platform) (op : Operation)
    → ((f : ℕ) → Preserves p (p.call f))
    → Preserves p (perform p op)
unfolding trap_init trap_commit_fcsr trap_commit_vector_csrs trap_cancel trap_check_complete
    trap_expect trap_capture trap_on trap_skip_to
perform-Preserves p init calls = record {
  keeps = λ s sound i lt. trap_init_loop-Sound p.hart_max s.g_expect i lt;
}
perform-Preserves p commit_fcsr calls = bind-Preserves p (expect p) _ (expect-Preserves p) (λ e.
    get-Preserves p _
      (λ s. if-Preserves p _ _ _ (fail-Preserves p _) (set_word-Preserves p _ 36 _)))
perform-Preserves p commit_vector_csrs calls =
    bind-Preserves p (expect p) _ (expect-Preserves p) (λ e. get-Preserves p _ (λ s.
      if-Preserves p _ _ _ (fail-Preserves p _) (
        then-Preserves p _ _ (set_word-Preserves p _ 39 _) (
          then-Preserves p _ _ (set_word-Preserves p _ 40 _)
            (then-Preserves p _ _ (set_word-Preserves p _ 41 _) (set_word-Preserves p _ 42 _))))))
perform-Preserves p cancel calls =
    bind-Preserves p (expect p) _ (expect-Preserves p)
      (λ e. set_expect-Preserves p e _ (λ x h. inl refl))
perform-Preserves p check_complete calls =
    get-Preserves p _ (λ s. if-Preserves p _ _ _ (fail-Preserves p _) (pure-Preserves p tt))
perform-Preserves p (expects cause epc recovery tval mask) calls =
    arm-Preserves p _ (λ x. inr (refl, refl))
perform-Preserves p captures calls = arm-Preserves p _ (λ x. inr (refl, refl))
perform-Preserves p (on cause tval mask how fn) calls = arm-Preserves p _ (λ x. inr (refl, refl))
perform-Preserves p (skip_to pc) calls = bind-Preserves p (expect p) _ (expect-Preserves p) (λ e.
    get-Preserves p _
      (λ s. if-Preserves p _ _ _ (fail-Preserves p _) (set_expect-Preserves p e _ (λ x h. h))))
perform-Preserves p (traps frame) calls = m_trap_handler-Preserves p frame calls

-- In every machine that is reached from one in which it holds, also by a switch to another hart, an
-- expectation below HART_MAX that is armed is one that no trap has taken, provided that the resolve
-- functions keep this when they return.
pub reached-AllSound :
    (p : Platform) (s t : Machine)
    → ((f : ℕ) → Preserves p (p.call f))
    → AllSound p s
    → Reaches p s t
    → AllSound p t
reached-AllSound p s t calls sound here = sound
reached-AllSound p s t calls sound (after {t = u} path (performed op h)) =
    let before = reached-AllSound p s u calls sound path in
    rw h at ((perform-Preserves p op calls).keeps u before)
reached-AllSound p s t calls sound (after {t = u} path (switched hart)) =
    reached-AllSound p s u calls sound path
