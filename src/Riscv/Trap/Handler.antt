-- ===== src/Riscv/Trap/Handler.antt =====
-- m_trap_handler of trap.c, which the assembly entry calls with the frame of a trap.
use abstract_machine.Base.{
  ℕ, ◌+◌, ◌-◌, ◌/◌, ◌^◌, bit_and, bit_or, Bool, ◌&&◌, ◌||◌, ◌==◌, ◌!=◌, if◌then◌else◌,
}
use abstract_machine.Riscv.Outcome.{Run, ◌>>=◌, ◌>>◌, pure, get, test_fail}
use abstract_machine.Riscv.Page.Words.{u64, clear_bits}
use abstract_machine.Riscv.Trap.Expect.{
  Expectation, Machine, Platform, expect, set_expect, set_word, mstatus_mpp, mstatus_vs, trap_leave,
  trap_skip, trap_retry,
}

abbrev pub cause_illegal_instruction : ℕ
cause_illegal_instruction = 2

abbrev pub is_ecall : ℕ → Bool
is_ecall mcause = mcause == 8 || mcause == 9 || mcause == 11

abbrev pub is_fetch_fault : ℕ → Bool
is_fetch_fault mcause = mcause == 0 || mcause == 1 || mcause == 12

abbrev pub mstatus_mprv : ℕ
mstatus_mprv = 0x20000

abbrev pub mstatus_mxr : ℕ
mstatus_mxr = 0x80000

abbrev pub prv_m : ℕ
prv_m = 3

-- UINT64_MAX
abbrev pub uint64_max : ℕ
uint64_max = 2 ^ 64 - 1

-- The halfword is loaded with MPRV and MXR set, and mstatus is put back.
unfoldable pub trap_insn_len : ℕ → ℕ → ℕ → ℕ → Run Machine ℕ
trap_insn_len mepc mcause mtval status =
    if mcause == cause_illegal_instruction && mtval != 0
    then pure (if bit_and mtval 3 == 3 then 4 else 2)
    else if is_ecall mcause
    then pure 4
    else if is_fetch_fault mcause
    then test_fail "instruction fetch fault needs explicit recovery PC"
    else do
      s ← get
      let access_status =
          bit_or
            (bit_or (bit_or (clear_bits s.mstatus mstatus_mpp) (bit_and status mstatus_mpp))
              mstatus_mprv)
            mstatus_mxr
      pure (if bit_and (s.load_half access_status mepc) 3 == 3 then 4 else 2)

-- The assignments to the last_ fields.
unfoldable pub record_trap : Platform → ℕ → Machine → Expectation → Expectation
record_trap p frame s x =
    let on = p.ext_v_enabled && bit_and (s.frames frame 33) mstatus_vs != 0 in
    record x {
      last_cause = s.frames frame 34;
      last_epc = s.frames frame 32;
      last_tval = s.frames frame 35;
      last_status = s.frames frame 33;
      last_vstart = if on then s.frames frame 41 else uint64_max;
      last_vl = if on then s.frames frame 39 else uint64_max;
      last_vtype = if on then s.frames frame 40 else uint64_max;
    }

-- The checks of an expectation against a trap.
unfoldable pub check_trap : ℕ → ℕ → ℕ → Expectation → Run Machine (Unit {0})
check_trap mepc mcause mtval x =
    if x.check == 0
    then pure tt
    else if mcause != x.cause
    then test_fail "trap cause"
    else if x.epc != 0 && mepc != x.epc
    then test_fail "trap epc"
    else if bit_and mtval x.tval_mask != bit_and x.tval x.tval_mask
    then test_fail "trap tval"
    else pure tt

-- The pc to skip to: the recovery pc, or the one behind the instruction where it is needed.
unfoldable pub skip_target : ℕ → ℕ → ℕ → ℕ → ℕ → Expectation → Run Machine ℕ
unfolding trap_insn_len
skip_target mepc mstatus mcause mtval prev x =
    if x.recovery_pc == 0 && (x.resume == trap_skip || x.resume == trap_leave && prev == prv_m)
    then (trap_insn_len mepc mcause mtval mstatus >>= λ len. pure (u64 (mepc + len)))
    else pure x.recovery_pc

-- `if (resolve) resolve();`, with the frame active.
unfoldable pub run_resolve : Platform → ℕ → ℕ → ℕ → Run Machine (Unit {0})
run_resolve p e frame fn = do
  set_expect e λ x. record x { armed = 0; taken = 1; resume = trap_leave; resolve = 0 }
  set_expect e λ x. record x { active_frame = frame }
  if fn == 0 then pure tt else p.call fn
  set_expect e λ x. record x { active_frame = 0 }

-- The end of the handler: the pc and mstatus to return with.
unfoldable pub resume_at : Platform → ℕ → ℕ → ℕ → ℕ → ℕ → ℕ → Run Machine (Unit {0})
resume_at p frame how mepc mstatus prev skip_pc =
    if how == trap_retry || how == trap_skip
    then (do
      t ← get
      let now = bit_or (clear_bits t.mstatus mstatus_mpp) (bit_and mstatus mstatus_mpp)
      set_word frame 32 (if how == trap_retry then mepc else skip_pc)
      set_word frame 33 (clear_bits now mstatus_mprv))
    else do
      set_word frame 32 (if prev != prv_m then p.priv_resume_m else skip_pc)
      set_word frame 33
          (clear_bits (bit_or (clear_bits mstatus mstatus_mpp) mstatus_mpp) mstatus_mprv)

unfoldable pub m_trap_handler : Platform → ℕ → Run Machine (Unit {0})
unfolding expect check_trap skip_target run_resolve resume_at
m_trap_handler p frame = do
  s ← get
  let mepc = s.frames frame 32
  let mstatus = s.frames frame 33
  let mcause = s.frames frame 34
  let mtval = s.frames frame 35
  e ← expect p
  set_expect e (record_trap p frame s)
  if (s.g_expect e).armed == 0 then test_fail "unexpected trap" else do
    check_trap mepc mcause mtval (s.g_expect e)
    let x = s.g_expect e
    let prev = bit_and mstatus mstatus_mpp / 2 ^ 11
    skip_pc ← skip_target mepc mstatus mcause mtval prev x
    run_resolve p e frame x.resolve
    resume_at p frame x.resume mepc mstatus prev skip_pc
