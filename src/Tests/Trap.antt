-- ===== src/Tests/Trap.antt =====
-- The results about traps on concrete machines: two harts, the first of which runs; frame 100 holds
-- an ecall from S-mode, frame 200 an illegal instruction in M-mode.
use abstract_machine.Base.{ℕ, ◌≡◌, inl, inr, refl, arith, false, ◌==◌, if◌then◌else◌}
use Prim.Native.String.{String}
use abstract_machine.Riscv.Outcome.{ok, failed, pure, ◌>>◌}
use abstract_machine.Riscv.Trap.Expect.{
  Expectation, Machine, Platform, updated, trap_expect, trap_capture, trap_skip, trap_leave, expect,
}
use abstract_machine.Riscv.Trap.Handler.{m_trap_handler}
use abstract_machine.Riscv.Trap.Promise.{consumed, Delivered}
use abstract_machine.Riscv.Trap.Deliver.{m_trap_handler-Delivered}
use abstract_machine.Riscv.Trap.Refuse.{m_trap_handler_mismatch}
use abstract_machine.Riscv.Trap.Armed.{Taken, trap_expect-Taken}
use abstract_machine.Riscv.Trap.Reach.{
  Reaches, here, after, performed, switched, AllSound, captures,
}
use abstract_machine.Riscv.Trap.Reach.Safe.{reached-AllSound}

abbrev pub platform : Platform
platform = record {
  hart_max = 2;
  ext_v_enabled = false;
  priv_resume_m = 0x80001000;
  call = λ f. pure tt;
}

abbrev idle : Expectation
idle = record {
  active_frame = 0;
  armed = 0;
  taken = 0;
  check = 0;
  resume = 0;
  resolve = 0;
  cause = 0;
  epc = 0;
  recovery_pc = 0;
  tval = 0;
  tval_mask = 0;
  last_cause = 0;
  last_epc = 0;
  last_tval = 0;
  last_status = 0;
  last_vstart = 0;
  last_vl = 0;
  last_vtype = 0;
}

abbrev words : ℕ → ℕ → ℕ
words f i =
    if i == 32
    then 0x80002000
    else if i == 33
    then (if f == 100 then 0x800 else 0x1800)
    else if i == 34
    then (if f == 100 then 9 else if f == 200 then 2 else 1)
    else if i == 35
    then (if f == 200 then 0x4501 else 0)
    else 0

abbrev pub start : Machine
start = record {
  hart = 0;
  g_expect = λ i. idle;
  frames = words;
  load_half = λ status a. 0x4501;
  mstatus = 0x1800;
  fcsr = 0;
  vl = 0;
  vtype = 0;
  vstart = 0;
  vcsr = 0;
}

abbrev with_expectation : Expectation → Machine
with_expectation x = record start { g_expect = λ i. x }

-- A skip over the illegal instruction, with a resolve function.
abbrev skipping : Machine
skipping =
    with_expectation
      (record idle { armed = 1; check = 1; resume = trap_skip; resolve = 7; cause = 2 })

abbrev fetching : Machine
fetching = with_expectation (record idle { armed = 1; check = 1; resume = trap_leave; cause = 1 })

m_trap_handler-Delivered_example :
    (t : Machine) × (m_trap_handler platform 200 skipping ≡ ok (tt, t))
    × Delivered platform 200 2 skipping (consumed platform 200 skipping) t
unfolding updated
m_trap_handler-Delivered_example =
    m_trap_handler-Delivered platform skipping (consumed platform 200 skipping) 200 2 (omega arith)
      (omega arith) (inr (refl, inl refl, refl)) (omega arith) (omega arith) (omega arith)
      (omega arith) (λ need. refl) (inr (omega arith, refl))

m_trap_handler_mismatch_example :
    (msg : String) × (m_trap_handler platform 100 skipping ≡ failed msg)
m_trap_handler_mismatch_example =
    m_trap_handler_mismatch platform skipping 100 (omega arith) (omega arith) (λ h. ground arith)

trap_expect-Taken_example :
    (t : Machine) × ((trap_expect platform 2 0 0 0 0 >> m_trap_handler platform 200) start
      ≡ ok (tt, t))
    × Taken platform (words 200) t
    × (t.frames 200 32 ≡ 0x80002002)
trap_expect-Taken_example =
    trap_expect-Taken platform start 200 2 2 0 0 0 0 (omega arith) refl refl (inl refl) refl
      (omega arith) (omega arith) (λ none_given from_m. refl)

abbrev captured : Machine
captured = record start { g_expect = λ i. if i == 0 then record idle { armed = 1 } else idle }

-- A capture on the first hart, then the second hart runs.
path : Reaches platform start (record captured { hart = 1 })
unfolding trap_capture updated expect
path = after {t = captured} (after here (performed captures refl)) (switched 1)

reached-AllSound_example : AllSound platform (record captured { hart = 1 })
reached-AllSound_example =
    reached-AllSound platform start (record captured { hart = 1 })
      (λ f. record { keeps = λ s sound. sound }) (λ i lt. inl refl) path
