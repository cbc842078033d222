-- ===== src/Riscv/Trap/Armed.antt =====
-- The life of an expectation in trap.c: armed once, then taken, and checked at the end of a test.
use abstract_machine.Base.{
  ℕ, zero, suc, ◌+◌, ◌^◌, ◌<◌, ◌≤◌, ◌≡◌, ◌≢◌, ◌⊎◌, ◌↔◌, inl, refl, arith, bit_and, false, ◌!=◌,
  if◌then◌else◌, some, ap, ◌∙◌,
}
use abstract_machine.Riscv.Outcome.{ok, failed, ◌>>◌}
use abstract_machine.Riscv.Trap.Expect.{
  Expectation, Machine, Platform, expect, updated, trap_expect, trap_capture, trap_on,
  trap_check_complete, any_armed, trap_was_taken, trap_last_cause, trap_last_epc, trap_last_tval,
  trap_last_status, read_field, trap_leave,
}
use abstract_machine.Riscv.Page.Words.{u64}
use abstract_machine.Riscv.Trap.Handler.{m_trap_handler, record_trap, prv_m}
use abstract_machine.Riscv.Trap.Promise.{
  mepc, trapped_status, mcause, mtval, previous, mine, consumed, recorded, insn_len, NeedsLength,
  Matches, return_pc, Delivered,
}
use abstract_machine.Riscv.Trap.Deliver.{m_trap_handler-Delivered, expect-ok}

-- A hart whose expectation is armed cannot arm another one: each of the three routines fails the
-- test.
pub arm_twice :
    (p : Platform) (s : Machine) (cause epc recovery tval mask how fn : ℕ)
    → s.hart < p.hart_max
    → (mine s).armed ≢ 0
    → (trap_expect p cause epc recovery tval mask s
        ≡ failed "overwriting an unconsumed trap expectation")
      × (trap_capture p s ≡ failed "overwriting an unconsumed trap expectation")
      × (trap_on p cause tval mask how fn s ≡ failed "overwriting an unconsumed trap expectation")
unfolding trap_expect trap_capture trap_on expect
arm_twice p s cause epc recovery tval mask how fn running armed =
    (ground arith, ground arith, ground arith)

none_armed :
    (n : ℕ) (g : ℕ → Expectation) → any_armed n g ≡ false → (i : ℕ) → i < n → (g i).armed ≡ 0
unfolding any_armed
none_armed zero g h i lt = absurd (omega arith)
none_armed (suc n) g h i lt = ground (arith, h, none_armed n g _ i)

all_quiet :
    (n : ℕ) (g : ℕ → Expectation) → ((i : ℕ) → i < n → (g i).armed ≡ 0) → any_armed n g ≡ false
unfolding any_armed
all_quiet zero g h = refl
all_quiet (suc n) g h = ground (arith, h n, all_quiet n g (λ i lt. h i (omega arith)))

-- trap_check_complete returns, and then changes nothing, exactly when no hart below HART_MAX has an
-- expectation that is still armed.
pub trap_check_complete_iff :
    (p : Platform) (s : Machine)
    → (trap_check_complete p s ≡ ok (tt, s)) ↔ ((i : ℕ) → i < p.hart_max → (s.g_expect i).armed ≡ 0)
unfolding trap_check_complete
trap_check_complete_iff p s = (
  λ h i lt. none_armed p.hart_max s.g_expect (ground (arith, h)) i lt,
  λ h. ground (arith, all_quiet p.hart_max s.g_expect h),
)

-- What the routines that read the last trap answer about a trap with these words in its frame, in
-- a machine whose hart is armed no more.
pub record Taken (p : Platform) (words : ℕ → ℕ) (t : Machine) : Type 0 where
  pub taken : trap_was_taken p t ≡ ok (1, t)
  pub cause : trap_last_cause p t ≡ ok (words 34, t)
  pub epc : trap_last_epc p t ≡ ok (words 32, t)
  pub tval : trap_last_tval p t ≡ ok (words 35, t)
  pub status : trap_last_status p t ≡ ok (words 33, t)
  pub disarmed : (mine t).armed ≡ 0

-- The expectation that a trap leaves where no resolve function runs.
abbrev last : Platform → ℕ → Machine → Expectation
last p frame s = record (record_trap p frame s (mine s)) {
  active_frame = 0;
  armed = 0;
  taken = 1;
  resume = trap_leave;
  resolve = 0;
}

updated_here :
    (e : ℕ) (f : Expectation → Expectation) (s : Machine)
    → (updated e f s).g_expect e ≡ f (s.g_expect e)
unfolding updated
updated_here e f s = ground arith

read_field-ok :
    (f : Expectation → ℕ) (p : Platform) (s : Machine)
    → s.hart < p.hart_max
    → read_field f p s ≡ ok (f (mine s), s)
unfolding read_field expect
read_field-ok f p s running = ground arith

Delivered-last :
    (p : Platform) (frame len : ℕ) (s t : Machine)
    → Delivered p frame len s (consumed p frame s) t
    → t.hart ≡ s.hart
    → mine t ≡ last p frame s
Delivered-last p frame len s t d same =
    let one = updated_here s.hart (record_trap p frame s) s in
    let two =
      updated_here s.hart (λ x. record x { armed = 0; taken = 1; resume = trap_leave; resolve = 0 })
        (recorded p frame s) in
    let three =
      updated_here s.hart (λ x. record x { active_frame = frame })
        (updated s.hart (λ x. record x { armed = 0; taken = 1; resume = trap_leave; resolve = 0 })
          (recorded p frame s)) in
    rw same d.inactive
    ∙ ap (λ (x : Expectation). record x { active_frame = 0 }) three
    ∙ ap (λ (x : Expectation). record x { active_frame = 0 }) two
    ∙ ap
        (λ (x : Expectation). record x {
          active_frame = 0;
          armed = 0;
          taken = 1;
          resume = trap_leave;
          resolve = 0;
        })
        one

Delivered-Taken :
    (p : Platform) (frame len : ℕ) (s t : Machine)
    → s.hart < p.hart_max
    → Delivered p frame len s (consumed p frame s) t
    → t.hart ≡ s.hart
    → Taken p (s.frames frame) t
unfolding trap_was_taken trap_last_cause trap_last_epc trap_last_tval trap_last_status record_trap
Delivered-Taken p frame len s t running d same =
    let e = Delivered-last p frame len s t d same in
    let r : t.hart < p.hart_max = omega (arith, same, running) in
    record {
      taken = read_field-ok (λ x. x.taken) p t r ∙ ap (λ (x : Expectation). ok (x.taken, t)) e;
      cause =
          read_field-ok (λ x. x.last_cause) p t r
          ∙ ap (λ (x : Expectation). ok (x.last_cause, t)) e;
      epc = read_field-ok (λ x. x.last_epc) p t r ∙ ap (λ (x : Expectation). ok (x.last_epc, t)) e;
      tval =
          read_field-ok (λ x. x.last_tval) p t r ∙ ap (λ (x : Expectation). ok (x.last_tval, t)) e;
      status =
          read_field-ok (λ x. x.last_status) p t r
          ∙ ap (λ (x : Expectation). ok (x.last_status, t)) e;
      disarmed = ap (λ (x : Expectation). x.armed) e;
    }

no_resolve-Taken :
    (p : Platform) (s : Machine) (frame len : ℕ)
    → s.hart < p.hart_max
    → (mine s).armed ≢ 0
    → Matches s frame
    → (mine s).resume ≤ 2
    → (mine s).resolve ≡ 0
    → trapped_status s frame < 2 ^ 64
    → s.mstatus < 2 ^ 64
    → (NeedsLength s frame → insn_len s frame ≡ some len)
    → (t : Machine) × (m_trap_handler p frame s ≡ ok (tt, t))
      × Taken p (s.frames frame) t
      × (t.frames frame 32 ≡ return_pc p frame len s)
unfolding updated
no_resolve-Taken p s frame len running armed matches how none_set trapped_ok s_ok known =
    let (t, returns, d) =
      m_trap_handler-Delivered p s (consumed p frame s) frame len running armed matches how
        trapped_ok s_ok s_ok known (inl (none_set, refl)) in
    (t, returns, Delivered-Taken p frame len s t running d d.same_hart, d.pc)

-- Arming with trap_expect on a hart within HART_MAX that is not armed, and then a trap from a frame
-- with that cause, with that pc where one is given, and with that tval under the mask: the handler
-- returns, and then the routines answer that the trap was taken, with its cause, pc, tval and
-- status, and the hart is armed no more. The frame returns to priv_resume_m from S or U, and from M
-- to the recovery pc or, if there is none, behind the instruction, whose length must be known then.
pub trap_expect-Taken :
    (p : Platform) (s : Machine) (frame len want pc recovery value mask : ℕ)
    → s.hart < p.hart_max
    → (mine s).armed ≡ 0
    → mcause s frame ≡ want
    → (pc ≡ 0) ⊎ (mepc s frame ≡ pc)
    → bit_and (mtval s frame) mask ≡ bit_and value mask
    → trapped_status s frame < 2 ^ 64
    → s.mstatus < 2 ^ 64
    → (recovery ≡ 0 → previous s frame ≡ prv_m → insn_len s frame ≡ some len)
    → (t : Machine) × ((trap_expect p want pc recovery value mask >> m_trap_handler p frame) s
        ≡ ok (tt, t))
      × Taken p (s.frames frame) t
      × (t.frames frame 32 ≡ (
          if previous s frame != prv_m
          then p.priv_resume_m
          else if recovery != 0
          then recovery
          else u64 (mepc s frame + len)))
unfolding trap_expect updated
trap_expect-Taken p s frame len want pc recovery value mask running idle same_cause same_pc
      same_tval trapped_ok s_ok known =
    let s1 =
      updated s.hart
        (λ x. record x {
          armed = 1;
          taken = 0;
          check = 1;
          resume = trap_leave;
          resolve = 0;
          cause = want;
          epc = pc;
          recovery_pc = recovery;
          tval = value;
          tval_mask = mask;
        })
        s in
    let arms : trap_expect p want pc recovery value mask s ≡ ok (tt, s1) =
      rw (expect-ok p s running) (ground arith) in
    let (t, returns, taken, at) =
      no_resolve-Taken p s1 frame len running (ground arith) (ground arith) (ground arith)
        (ground arith) trapped_ok s_ok (λ need. ground (arith, known)) in
    (t, rw arms returns, taken, ground (arith, at))
