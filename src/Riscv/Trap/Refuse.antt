-- ===== src/Riscv/Trap/Refuse.antt =====
-- The traps on which m_trap_handler fails the test.
use Prim.Native.String.{String}
use abstract_machine.Base.{ℕ, ◌<◌, ◌≡◌, ◌≢◌, inl, inr, refl, arith, Bool-cases, ◌||◌, ◌==◌, none}
use abstract_machine.Riscv.Outcome.{failed}
use abstract_machine.Riscv.Trap.Expect.{Machine, Platform}
use abstract_machine.Riscv.Trap.Handler.{trap_insn_len, check_trap, skip_target, m_trap_handler}
use abstract_machine.Riscv.Trap.Promise.{
  mepc, trapped_status, mcause, mtval, previous, mine, Matches, recorded, NeedsLength, insn_len,
}
use abstract_machine.Riscv.Trap.Deliver.{expect-ok, check_trap-ok, reach_check}

check_trap-failed :
    (s t : Machine) (frame : ℕ)
    → ¬ Matches s frame
    → (msg : String) × (check_trap (mepc s frame) (mcause s frame) (mtval s frame) (mine s) t
        ≡ failed msg)
unfolding check_trap
check_trap-failed s t frame h = elim (Bool-cases (mcause s frame == (mine s).cause)) [
  | inr cause ↦ ("trap cause", ground (arith, h))
  | inl cause ↦ elim (Bool-cases ((mine s).epc == 0 || mepc s frame == (mine s).epc)) [
    | inr epc ↦ ("trap epc", ground (arith, h))
    | inl epc ↦ ("trap tval", ground (arith, h))
  ]
]

-- On a hart within HART_MAX whose expectation is not armed, the handler fails the test.
pub m_trap_handler_unexpected :
    (p : Platform) (s : Machine) (frame : ℕ)
    → s.hart < p.hart_max
    → (mine s).armed ≡ 0
    → m_trap_handler p frame s ≡ failed "unexpected trap"
unfolding m_trap_handler
m_trap_handler_unexpected p s frame running idle = rw (expect-ok p s running, idle) refl

-- On a hart within HART_MAX whose expectation is armed, a trap that differs from the expected one,
-- in its cause, in its pc where one is given, or in tval under the mask, fails the test.
pub m_trap_handler_mismatch :
    (p : Platform) (s : Machine) (frame : ℕ)
    → s.hart < p.hart_max
    → (mine s).armed ≢ 0
    → ¬ Matches s frame
    → (msg : String) × (m_trap_handler p frame s ≡ failed msg)
m_trap_handler_mismatch p s frame running armed differs =
    let (msg, fails) = check_trap-failed s (recorded p frame s) frame differs in
    (msg, rw (reach_check p s frame running armed, fails) refl)

trap_insn_len-failed :
    (s t : Machine) (frame : ℕ)
    → insn_len s frame ≡ none
    → trap_insn_len (mepc s frame) (mcause s frame) (mtval s frame) (trapped_status s frame) t
      ≡ failed "instruction fetch fault needs explicit recovery PC"
unfolding trap_insn_len
trap_insn_len-failed s t frame h = ground arith

skip_target-failed :
    (s t : Machine) (frame : ℕ)
    → NeedsLength s frame
    → insn_len s frame ≡ none
    → skip_target
        (mepc s frame)
        (trapped_status s frame)
        (mcause s frame)
        (mtval s frame)
        (previous s frame)
        (mine s)
        t
      ≡ failed "instruction fetch fault needs explicit recovery PC"
unfolding skip_target
skip_target-failed s t frame need h = ground (arith, trap_insn_len-failed s t frame h)

-- On a hart within HART_MAX, an expected trap whose instruction must be measured but could not be
-- fetched fails the test.
pub m_trap_handler_unfetched :
    (p : Platform) (s : Machine) (frame : ℕ)
    → s.hart < p.hart_max
    → (mine s).armed ≢ 0
    → Matches s frame
    → NeedsLength s frame
    → insn_len s frame ≡ none
    → m_trap_handler p frame s ≡ failed "instruction fetch fault needs explicit recovery PC"
m_trap_handler_unfetched p s frame running armed matches need h =
    rw
      (
        reach_check p s frame running armed,
        check_trap-ok s (recorded p frame s) frame matches,
        skip_target-failed s (recorded p frame s) frame need h,
      )
      refl
