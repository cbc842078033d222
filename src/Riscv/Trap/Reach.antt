-- ===== src/Riscv/Trap/Reach.antt =====
-- The operations of trap.c as a step relation, and what every reachable machine satisfies.
pub mod Keep
pub mod Safe
use Prim.Native.String.{String}
use abstract_machine.Base.{
  ◌/◌, ◌^◌, bit_and, ℕ, zero, suc, ◌+◌, ◌<◌, ◌≤◌, ◌≡◌, ◌≢◌, ◌⊎◌, inl, inr, refl, arith, Bool, true,
  false, Bool-cases, ◌==◌, ◌!=◌, ◌||◌, if◌then◌else◌, leb,
}
use abstract_machine.Riscv.Outcome.{
  Outcome, ok, failed, and_then, Run, ◌>>=◌, ◌>>◌, pure, get, modify, test_fail,
}
use abstract_machine.Riscv.Trap.Expect.{
  Expectation, Machine, Platform, expect, updated, worded, set_expect, set_word, arm, trap_init,
  trap_init_loop, trap_commit_fcsr, trap_commit_vector_csrs, trap_cancel, trap_check_complete,
  trap_expect, trap_capture, trap_on, trap_skip_to, mstatus_mpp,
}
use abstract_machine.Riscv.Trap.Handler.{
  m_trap_handler, record_trap, check_trap, skip_target, trap_insn_len, run_resolve, resume_at,
}

-- What a test, or the hardware with a frame, does to the machine.
pub data Operation : Type 0 where
  init : Operation
  commit_fcsr : Operation
  commit_vector_csrs : Operation
  cancel : Operation
  check_complete : Operation
  expects : ℕ → ℕ → ℕ → ℕ → ℕ → Operation
  captures : Operation
  on : ℕ → ℕ → ℕ → ℕ → ℕ → Operation
  skip_to : ℕ → Operation
  traps : ℕ → Operation

abbrev pub perform : Platform → Operation → Run Machine (Unit {0})
perform p init = trap_init p
perform p commit_fcsr = trap_commit_fcsr p
perform p commit_vector_csrs = trap_commit_vector_csrs p
perform p cancel = trap_cancel p
perform p check_complete = trap_check_complete p
perform p (expects cause epc recovery tval mask) = trap_expect p cause epc recovery tval mask
perform p captures = trap_capture p
perform p (on cause tval mask how fn) = trap_on p cause tval mask how fn
perform p (skip_to pc) = trap_skip_to p pc
perform p (traps frame) = m_trap_handler p frame

-- One operation that returned, or another hart that runs from here on.
pub data Step (p : Platform) : Machine → Machine → Type 0 where
  performed : {s t : Machine} (op : Operation) → perform p op s ≡ ok (tt, t) → Step p s t
  switched : {s : Machine} (hart : ℕ) → Step p s (record s { hart = hart })

pub data Reaches (p : Platform) (s : Machine) : Machine → Type 0 where
  here : Reaches p s s
  after : {t u : Machine} → Reaches p s t → Step p t u → Reaches p s u

-- An armed expectation is one that no trap has taken.
abbrev pub Sound : Expectation → Type 0
Sound x = (x.armed ≡ 0) ⊎ ((x.armed ≡ 1) × (x.taken ≡ 0))

abbrev pub AllSound : Platform → Machine → Type 0
AllSound p s = (i : ℕ) → i < p.hart_max → Sound (s.g_expect i)

-- A routine that keeps this whenever it returns.
abbrev pub Holds : {A : Type 0} → Platform → Outcome (A × Machine) → Type 0
Holds p (ok (a, t)) = AllSound p t
Holds p (failed msg) = Unit {0}
Holds p (Outcome.skipped msg) = Unit {0}

pub record Preserves {A : Type 0} (p : Platform) (m : Run Machine A) : Type 0 where
  pub keeps : (s : Machine) → AllSound p s → Holds p (m s)
