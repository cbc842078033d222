-- ===== src/Riscv/Trap/Deliver.antt =====
-- What m_trap_handler does with an expected trap, step by step.
use abstract_machine.Base.{
  ℕ, ◌+◌, ◌/◌, ◌%◌, ◌^◌, ◌<◌, ◌≤◌, ◌≡◌, ◌≢◌, inl, inr, refl, arith, bit_and, false, ◌&&◌, ◌||◌,
  ◌==◌, if◌then◌else◌, some,
}
use abstract_machine.Base.Bits.{bit_and-low_ones}
use abstract_machine.Riscv.Outcome.{ok, and_then, ◌>>=◌, ◌>>◌}
use abstract_machine.Riscv.Page.Words.{u64}
use abstract_machine.Riscv.Trap.Expect.{
  Expectation, Machine, Platform, expect, updated, mstatus_mpp, trap_leave, trap_skip,
}
use abstract_machine.Riscv.Trap.Handler.{
  trap_insn_len, check_trap, skip_target, run_resolve, resume_at, m_trap_handler, prv_m,
}
use abstract_machine.Riscv.Trap.Status.{
  put_field, mpp_field, stay_status, leave_status, access_status_lem,
}
use abstract_machine.Riscv.Trap.Promise.{
  mepc, trapped_status, mcause, mtval, previous, mine, Matches, recorded, consumed, Resolves,
  NeedsLength, insn_len, returned, Delivered, returned-Delivered,
}

pub expect-ok : (p : Platform) (s : Machine) → s.hart < p.hart_max → expect p s ≡ ok (s.hart, s)
unfolding expect
expect-ok p s h = ground arith

previous_lem : (x : ℕ) → bit_and x mstatus_mpp / 2 ^ 11 ≡ x / 2 ^ 11 % 4
previous_lem x = omega (arith, mpp_field x)

pub check_trap-ok :
    (s t : Machine) (frame : ℕ)
    → Matches s frame
    → check_trap (mepc s frame) (mcause s frame) (mtval s frame) (mine s) t ≡ ok (tt, t)
unfolding check_trap
check_trap-ok s t frame h = ground arith

run_resolve-ok :
    (p : Platform) (e frame fn : ℕ) (s after : Machine)
    → Resolves p fn
        (updated e
          (λ x. record x { active_frame = frame })
          (updated e (λ x. record x { armed = 0; taken = 1; resume = trap_leave; resolve = 0 }) s))
        after
    → run_resolve p e frame fn s ≡ ok (tt, updated e (λ x. record x { active_frame = 0 }) after)
unfolding run_resolve
run_resolve-ok p e frame fn s after h = elim h [
  | inl z ↦ rw (z.0, z.1) refl
  | inr z ↦ let test : (fn == 0) ≡ false = ground arith in rw (test, z.1) refl
]

skip_target-ok :
    (s t : Machine) (frame len : ℕ)
    → (NeedsLength s frame
        → trap_insn_len (mepc s frame) (mcause s frame) (mtval s frame) (trapped_status s frame) t
          ≡ ok (len, t))
    → skip_target
        (mepc s frame)
        (trapped_status s frame)
        (mcause s frame)
        (mtval s frame)
        (previous s frame)
        (mine s)
        t
      ≡ ok (
        (if (mine s).recovery_pc == 0
              && ((mine s).resume == trap_skip
                  || (mine s).resume == trap_leave && previous s frame == prv_m)
            then u64 (mepc s frame + len)
            else (mine s).recovery_pc),
        t,
      )
unfolding skip_target
skip_target-ok s t frame len h = ground (arith, h)

updated_mstatus :
    (e : ℕ) (f : Expectation → Expectation) (s : Machine) → (updated e f s).mstatus ≡ s.mstatus
unfolding updated
updated_mstatus e f s = refl

resume_at-ok :
    (p : Platform) (s after : Machine) (frame len : ℕ)
    → (mine s).resume ≤ 2
    → trapped_status s frame < 2 ^ 64
    → after.mstatus < 2 ^ 64
    → resume_at p frame
        (mine s).resume
        (mepc s frame)
        (trapped_status s frame)
        (previous s frame)
        (if (mine s).recovery_pc == 0
            && ((mine s).resume == trap_skip
                || (mine s).resume == trap_leave && previous s frame == prv_m)
          then u64 (mepc s frame + len)
          else (mine s).recovery_pc)
        (updated s.hart (λ x. record x { active_frame = 0 }) after)
      ≡ ok (tt, returned p frame len s after)
unfolding resume_at
resume_at-ok p s after frame len h g k = ground (
  arith,
  updated_mstatus s.hart (λ x. record x { active_frame = 0 }) after,
  stay_status after.mstatus (trapped_status s frame) k,
  leave_status (trapped_status s frame) g,
)

trap_insn_len-ok :
    (s t : Machine) (frame len : ℕ)
    → s.mstatus < 2 ^ 64
    → t.mstatus ≡ s.mstatus
    → t.load_half ≡ s.load_half
    → insn_len s frame ≡ some len
    → trap_insn_len (mepc s frame) (mcause s frame) (mtval s frame) (trapped_status s frame) t
      ≡ ok (len, t)
unfolding trap_insn_len
trap_insn_len-ok s t frame len small same_status same_load h = ground (
  arith,
  access_status_lem t.mstatus (trapped_status s frame),
  bit_and-low_ones 2 (mtval s frame),
  bit_and-low_ones 2 (
      s.load_half
        (put_field 19 1 1 (put_field 17 1 1 (put_field 11 2 (previous s frame) s.mstatus)))
        (mepc s frame)),
)

pub reach_check :
    (p : Platform) (s : Machine) (frame : ℕ)
    → s.hart < p.hart_max
    → (mine s).armed ≢ 0
    → m_trap_handler p frame s
      ≡ and_then
          (check_trap (mepc s frame) (mcause s frame) (mtval s frame) (mine s) (recorded p frame s))
          (λ _.
            skip_target
              (mepc s frame)
              (trapped_status s frame)
              (mcause s frame)
              (mtval s frame)
              (previous s frame)
              (mine s)
            >>= λ skip_pc.
                run_resolve p s.hart frame (mine s).resolve
                >> resume_at p frame
                    (mine s).resume
                    (mepc s frame)
                    (trapped_status s frame)
                    (previous s frame)
                    skip_pc)
unfolding m_trap_handler
reach_check p s frame running armed =
    rw (expect-ok p s running, previous_lem (trapped_status s frame)) (ground arith)

-- On a hart within HART_MAX whose expectation is armed, with the trap it asks for, a resume action
-- among the three, 64-bit values of mstatus, and a resolve function, if there is one, that returns, the
-- handler returns. The length of the instruction is needed only for a SKIP, or a LEAVE from M-mode,
-- without a recovery pc. Then the frame returns to the trapped instruction after RETRY, to
-- priv_resume_m after LEAVE from S or U, and else to the recovery pc or behind the instruction,
-- whatever resolve armed next. MPP is the trap's, or M after LEAVE; MPRV is clear. Nothing else
-- changes since resolve.
pub m_trap_handler-Delivered :
    (p : Platform) (s after : Machine) (frame len : ℕ)
    → s.hart < p.hart_max
    → (mine s).armed ≢ 0
    → Matches s frame
    → (mine s).resume ≤ 2
    → trapped_status s frame < 2 ^ 64
    → s.mstatus < 2 ^ 64
    → after.mstatus < 2 ^ 64
    → (NeedsLength s frame → insn_len s frame ≡ some len)
    → Resolves p (mine s).resolve (consumed p frame s) after
    → (t : Machine) × (m_trap_handler p frame s ≡ ok (tt, t)) × Delivered p frame len s after t
unfolding updated
m_trap_handler-Delivered p s after frame len running armed matches how trapped_ok s_ok after_ok
      known resolves =
    let before = recorded p frame s in
    (
      returned p frame len s after,
      rw
          (
            reach_check p s frame running armed,
            check_trap-ok s before frame matches,
            skip_target-ok s before frame len
                (λ need. trap_insn_len-ok s before frame len s_ok refl refl (known need)),
            run_resolve-ok p s.hart frame (mine s).resolve before after resolves,
          )
          (resume_at-ok p s after frame len how trapped_ok after_ok),
      returned-Delivered p frame len s after,
    )
