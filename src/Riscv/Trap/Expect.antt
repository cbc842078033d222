-- ===== src/Riscv/Trap/Expect.antt =====
-- The expectations of trap.c: how a test arms, changes, cancels and reads them.
use abstract_machine.Base.{
  ℕ, zero, suc, bit_and, Bool, ◌&&◌, ◌||◌, ◌==◌, ◌!=◌, leb, if◌then◌else◌, false,
}
use abstract_machine.Riscv.Outcome.{Run, ◌>>=◌, ◌>>◌, pure, get, modify, test_fail}

pub record Expectation : Type 0 where
  pub active_frame : ℕ
  pub armed : ℕ
  pub taken : ℕ
  pub check : ℕ
  pub resume : ℕ
  pub resolve : ℕ
  pub cause : ℕ
  pub epc : ℕ
  pub recovery_pc : ℕ
  pub tval : ℕ
  pub tval_mask : ℕ
  pub last_cause : ℕ
  pub last_epc : ℕ
  pub last_tval : ℕ
  pub last_status : ℕ
  pub last_vstart : ℕ
  pub last_vl : ℕ
  pub last_vtype : ℕ

-- `hart` is what hart_id() answers, the number of the hart that runs. `load_half` is what a
-- halfword load reads at an address under a value of mstatus. The other fields are CSRs.
pub record Machine : Type 0 where
  pub hart : ℕ
  pub g_expect : ℕ → Expectation
  pub frames : ℕ → ℕ → ℕ
  pub load_half : ℕ → ℕ → ℕ
  pub mstatus : ℕ
  pub fcsr : ℕ
  pub vl : ℕ
  pub vtype : ℕ
  pub vstart : ℕ
  pub vcsr : ℕ

-- What the build and the test give: HART_MAX, whether EXT_V_ENABLED is defined, the address of
-- priv_resume_m, and what a call of a resolve function does.
pub record Platform : Type 0 where
  pub hart_max : ℕ
  pub ext_v_enabled : Bool
  pub priv_resume_m : ℕ
  pub call : ℕ → Run Machine (Unit {0})

abbrev pub trap_leave : ℕ
trap_leave = 0

abbrev pub trap_skip : ℕ
trap_skip = 1

abbrev pub trap_retry : ℕ
trap_retry = 2

abbrev pub mstatus_mpp : ℕ
mstatus_mpp = 0x1800

abbrev pub mstatus_vs : ℕ
mstatus_vs = 0x600

abbrev pub mstatus_fs : ℕ
mstatus_fs = 0x6000

-- Assignments through a pointer to the expectation of hart `e`, and to a word of a frame.
unfoldable pub updated : ℕ → (Expectation → Expectation) → Machine → Machine
updated e f s = record s { g_expect = λ i. if i == e then f (s.g_expect i) else s.g_expect i }

unfoldable pub worded : ℕ → ℕ → ℕ → Machine → Machine
worded f i v s = record s { frames = λ g j. if g == f && j == i then v else s.frames g j }

abbrev pub set_expect : ℕ → (Expectation → Expectation) → Run Machine (Unit {0})
set_expect e f = modify (updated e f)

abbrev pub set_word : ℕ → ℕ → ℕ → Run Machine (Unit {0})
set_word f i v = modify (worded f i v)

unfoldable pub expect : Platform → Run Machine ℕ
expect p = do s ← get; if leb p.hart_max s.hart then test_fail "trap hart" else pure s.hart

-- `for (i = 0; i < count; i++) …`
unfoldable pub trap_init_loop : ℕ → (ℕ → Expectation) → ℕ → Expectation
trap_init_loop zero g i = g i
trap_init_loop (suc n) g i =
    if i == n
    then record (trap_init_loop n g i) {
      armed = 0;
      taken = 0;
      check = 0;
      resume = trap_leave;
      resolve = 0;
    }
    else trap_init_loop n g i

unfoldable pub trap_init : Platform → Run Machine (Unit {0})
trap_init p = modify λ s. record s { g_expect = trap_init_loop p.hart_max s.g_expect }

unfoldable pub trap_commit_fcsr : Platform → Run Machine (Unit {0})
unfolding expect
trap_commit_fcsr p = do
  e ← expect p
  s ← get
  let frame = (s.g_expect e).active_frame
  if frame == 0 || bit_and s.mstatus mstatus_fs == 0
      then test_fail "FCSR commit requires an active resolve and FS enabled"
      else set_word frame 36 s.fcsr

unfoldable pub trap_commit_vector_csrs : Platform → Run Machine (Unit {0})
unfolding expect
trap_commit_vector_csrs p = do
  e ← expect p
  s ← get
  let frame = (s.g_expect e).active_frame
  if frame == 0 || bit_and s.mstatus mstatus_vs == 0
      then test_fail "vector CSR commit requires an active resolve and VS enabled"
      else do
        set_word frame 39 s.vl
        set_word frame 40 s.vtype
        set_word frame 41 s.vstart
        set_word frame 42 s.vcsr

unfoldable pub trap_cancel : Platform → Run Machine (Unit {0})
unfolding expect
trap_cancel p = do e ← expect p; set_expect e λ x. record x { armed = 0 }

-- Whether one of the first `n` harts is armed.
unfoldable pub any_armed : ℕ → (ℕ → Expectation) → Bool
any_armed zero g = false
any_armed (suc n) g = any_armed n g || (g n).armed != 0

unfoldable pub trap_check_complete : Platform → Run Machine (Unit {0})
unfolding any_armed
trap_check_complete p = do
  s ← get
  if any_armed p.hart_max s.g_expect then test_fail "expected trap was not taken" else pure tt

-- `if (e->armed) test_fail(…);`, and then the assignments to the expectation.
abbrev pub arm : ℕ → (Expectation → Expectation) → Run Machine (Unit {0})
arm e f = do
  s ← get
  if (s.g_expect e).armed != 0
      then test_fail "overwriting an unconsumed trap expectation"
      else set_expect e f

unfoldable pub trap_expect : Platform → ℕ → ℕ → ℕ → ℕ → ℕ → Run Machine (Unit {0})
unfolding expect
trap_expect p want pc recovery value mask = do
  e ← expect p
  arm e λ x. record x {
    armed = 1;
    taken = 0;
    check = 1;
    resume = trap_leave;
    resolve = 0;
    cause = want;
    epc = pc;
    recovery_pc = recovery;
    tval = value;
    tval_mask = mask;
  }

unfoldable pub trap_capture : Platform → Run Machine (Unit {0})
unfolding expect
trap_capture p = do
  e ← expect p
  arm e λ x. record x {
    armed = 1;
    taken = 0;
    check = 0;
    resume = trap_leave;
    resolve = 0;
    cause = 0;
    epc = 0;
    recovery_pc = 0;
    tval = 0;
    tval_mask = 0;
  }

unfoldable pub trap_on : Platform → ℕ → ℕ → ℕ → ℕ → ℕ → Run Machine (Unit {0})
unfolding expect
trap_on p want value mask how fn = do
  e ← expect p
  arm e λ x. record x {
    armed = 1;
    taken = 0;
    check = 1;
    resume = how;
    resolve = fn;
    cause = want;
    epc = 0;
    recovery_pc = 0;
    tval = value;
    tval_mask = mask;
  }

unfoldable pub trap_skip_to : Platform → ℕ → Run Machine (Unit {0})
unfolding expect
trap_skip_to p pc = do
  e ← expect p
  s ← get
  if (s.g_expect e).armed == 0 || (s.g_expect e).resume != trap_skip || pc == 0
      then test_fail "trap_skip_to requires armed TRAP_SKIP and nonzero PC"
      else set_expect e λ x. record x { recovery_pc = pc }

-- trap_was_taken and the trap_last_ functions read one field each.
unfoldable pub read_field : (Expectation → ℕ) → Platform → Run Machine ℕ
unfolding expect
read_field f p = do e ← expect p; s ← get; pure (f (s.g_expect e))

unfoldable pub trap_was_taken : Platform → Run Machine ℕ
trap_was_taken = read_field λ x. x.taken

unfoldable pub trap_last_cause : Platform → Run Machine ℕ
trap_last_cause = read_field λ x. x.last_cause

unfoldable pub trap_last_epc : Platform → Run Machine ℕ
trap_last_epc = read_field λ x. x.last_epc

unfoldable pub trap_last_tval : Platform → Run Machine ℕ
trap_last_tval = read_field λ x. x.last_tval

unfoldable pub trap_last_status : Platform → Run Machine ℕ
trap_last_status = read_field λ x. x.last_status

unfoldable pub trap_last_vstart : Platform → Run Machine ℕ
trap_last_vstart = read_field λ x. x.last_vstart

unfoldable pub trap_last_vl : Platform → Run Machine ℕ
trap_last_vl = read_field λ x. x.last_vl

unfoldable pub trap_last_vtype : Platform → Run Machine ℕ
trap_last_vtype = read_field λ x. x.last_vtype
