-- ===== src/Riscv/Trap/Reach/Keep.antt =====
-- Each routine of trap.c keeps what holds of a reachable machine: it is put together from routines
-- that do.
use Prim.Native.String.{String}
use abstract_machine.Base.{
  ◌/◌, ◌^◌, bit_and, ℕ, inl, refl, arith, Bool, true, false, ◌==◌, ◌!=◌, if◌then◌else◌, leb,
}
use abstract_machine.Riscv.Outcome.{
  Outcome, ok, failed, and_then, Run, ◌>>=◌, ◌>>◌, pure, get, test_fail,
}
use abstract_machine.Riscv.Trap.Expect.{
  Expectation, Machine, Platform, expect, updated, worded, set_expect, set_word, arm, mstatus_mpp,
}
use abstract_machine.Riscv.Trap.Handler.{
  m_trap_handler, record_trap, check_trap, skip_target, trap_insn_len, run_resolve, resume_at,
}
use abstract_machine.Riscv.Trap.Reach.{Sound, Holds, Preserves}

and_then-Holds :
    {A B : Type 0} (p : Platform) (o : Outcome (A × Machine)) (k : A → Run Machine B)
    → Holds p o
    → ((a : A) → Preserves p (k a))
    → Holds p (and_then o k)
and_then-Holds p (ok (a, t)) k h keeps = (keeps a).keeps t h
and_then-Holds p (failed msg) k h keeps = tt
and_then-Holds p (Outcome.skipped msg) k h keeps = tt

module _ {A : Type 0} (p : Platform) where
  pub pure-Preserves : (a : A) → Preserves p (pure a)
  pure-Preserves a = record { keeps = λ s sound. sound }

  pub fail-Preserves : (msg : String) → Preserves {A = A} p (test_fail msg)
  fail-Preserves msg = record { keeps = λ s sound. tt }

  pub get-Preserves :
      (k : Machine → Run Machine A) → ((s : Machine) → Preserves p (k s)) → Preserves p (get >>= k)
  get-Preserves k h = record { keeps = λ s sound. (h s).keeps s sound }

  pub if-Preserves :
      (b : Bool) (m n : Run Machine A)
      → Preserves p m
      → Preserves p n
      → Preserves p (if b then m else n)
  if-Preserves true m n hm hn = hm
  if-Preserves false m n hm hn = hn

module _ {A B : Type 0} (p : Platform) where
  pub bind-Preserves :
      (m : Run Machine A) (k : A → Run Machine B)
      → Preserves p m
      → ((a : A) → Preserves p (k a))
      → Preserves p (m >>= k)
  bind-Preserves m k hm hk = record {
    keeps = λ s sound. and_then-Holds p (m s) k (hm.keeps s sound) hk;
  }

  pub then-Preserves :
      (m : Run Machine A) (n : Run Machine B) → Preserves p m → Preserves p n → Preserves p (m >> n)
  then-Preserves m n hm hn = bind-Preserves m (λ _. n) hm (λ _. hn)

pub set_expect-Preserves :
    (p : Platform) (e : ℕ) (f : Expectation → Expectation)
    → ((x : Expectation) → Sound x → Sound (f x))
    → Preserves p (set_expect e f)
unfolding updated
set_expect-Preserves p e f keeps = record {
  keeps = λ s sound i lt. ground (arith, keeps (s.g_expect i), sound i);
}

pub set_word-Preserves : (p : Platform) (f i v : ℕ) → Preserves p (set_word f i v)
unfolding worded
set_word-Preserves p f i v = record { keeps = λ s sound. sound }

pub expect-Preserves : (p : Platform) → Preserves p (expect p)
unfolding expect
expect-Preserves p =
    get-Preserves p _ (λ s.
      if-Preserves p (leb p.hart_max s.hart) _ _ (fail-Preserves p _) (pure-Preserves p s.hart))

pub arm-Preserves :
    (p : Platform) (f : Expectation → Expectation)
    → ((x : Expectation) → Sound (f x))
    → Preserves p (expect p >>= λ e. arm e f)
arm-Preserves p f sound_f =
    bind-Preserves p (expect p) (λ e. arm e f) (expect-Preserves p)
      (λ e. get-Preserves p _ (λ s.
        if-Preserves p ((s.g_expect e).armed != 0) _ (set_expect e f) (fail-Preserves p _)
          (set_expect-Preserves p e f (λ x h. sound_f x))))

check_trap-Preserves :
    (p : Platform) (mepc mcause mtval : ℕ) (x : Expectation)
    → Preserves p (check_trap mepc mcause mtval x)
unfolding check_trap
check_trap-Preserves p mepc mcause mtval x = search (if-Preserves, pure-Preserves, fail-Preserves)

trap_insn_len-Preserves :
    (p : Platform) (mepc mcause mtval status : ℕ)
    → Preserves p (trap_insn_len mepc mcause mtval status)
unfolding trap_insn_len
trap_insn_len-Preserves p mepc mcause mtval status = if-Preserves p _ _ _ (pure-Preserves p _) (
    if-Preserves p _ _ _ (pure-Preserves p 4)
      (if-Preserves p _ _ _ (fail-Preserves p _) (get-Preserves p _ (λ s. pure-Preserves p _))))

skip_target-Preserves :
    (p : Platform) (mepc mstatus mcause mtval prev : ℕ) (x : Expectation)
    → Preserves p (skip_target mepc mstatus mcause mtval prev x)
unfolding skip_target
skip_target-Preserves p mepc mstatus mcause mtval prev x =
    if-Preserves p _ _ _
      (bind-Preserves p (trap_insn_len mepc mcause mtval mstatus) _
        (trap_insn_len-Preserves p mepc mcause mtval mstatus) (λ len. pure-Preserves p _))
      (pure-Preserves p _)

run_resolve-Preserves :
    (p : Platform) (e frame fn : ℕ)
    → ((f : ℕ) → Preserves p (p.call f))
    → Preserves p (run_resolve p e frame fn)
unfolding run_resolve
run_resolve-Preserves p e frame fn calls =
    then-Preserves p _ _ (set_expect-Preserves p e _ (λ x h. inl refl)) (
      then-Preserves p _ _ (set_expect-Preserves p e _ (λ x h. h)) (
        then-Preserves p _ _ (if-Preserves p (fn == 0) _ _ (pure-Preserves p tt) (calls fn))
          (set_expect-Preserves p e _ (λ x h. h))))

resume_at-Preserves :
    (p : Platform) (frame how mepc mstatus prev skip_pc : ℕ)
    → Preserves p (resume_at p frame how mepc mstatus prev skip_pc)
unfolding resume_at
resume_at-Preserves p frame how mepc mstatus prev skip_pc =
    if-Preserves p _ _ _
      (get-Preserves p _ (λ t.
        then-Preserves p _ _ (set_word-Preserves p frame 32 _) (set_word-Preserves p frame 33 _)))
      (then-Preserves p _ _ (set_word-Preserves p frame 32 _) (set_word-Preserves p frame 33 _))

pub m_trap_handler-Preserves :
    (p : Platform) (frame : ℕ)
    → ((f : ℕ) → Preserves p (p.call f))
    → Preserves p (m_trap_handler p frame)
unfolding m_trap_handler record_trap
m_trap_handler-Preserves p frame calls = get-Preserves p _ (λ s.
    let mepc = s.frames frame 32 in
    let mstatus = s.frames frame 33 in
    let mcause = s.frames frame 34 in
    let mtval = s.frames frame 35 in
    let prev = bit_and mstatus mstatus_mpp / 2 ^ 11 in
    bind-Preserves p (expect p) _ (expect-Preserves p) (λ e.
      let x = s.g_expect e in
      then-Preserves p (set_expect e (record_trap p frame s)) _
        (set_expect-Preserves p e (record_trap p frame s) (λ x h. h))
        (if-Preserves p (x.armed == 0) _ _ (fail-Preserves p "unexpected trap") (
          then-Preserves p _ _ (check_trap-Preserves p mepc mcause mtval x) (
            bind-Preserves p _ _ (skip_target-Preserves p mepc mstatus mcause mtval prev x) (λ pc.
              then-Preserves p _ _ (run_resolve-Preserves p e frame x.resolve calls)
                (resume_at-Preserves p frame x.resume mepc mstatus prev pc)))))))
