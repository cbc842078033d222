-- ===== src/Riscv/Trap/Promise.antt =====
-- What m_trap_handler promises, on the numbers of the frame and the expectation.
use abstract_machine.Base.{
  ℕ, ◌+◌, ◌/◌, ◌%◌, ◌^◌, ◌≡◌, ◌≢◌, ◌⊎◌, refl, arith, bit_and, ◌&&◌, ◌||◌, ◌==◌, ◌!=◌, if◌then◌else◌,
  Option, some, none,
}
use abstract_machine.Riscv.Outcome.{ok}
use abstract_machine.Riscv.Page.Words.{u64}
use abstract_machine.Riscv.Trap.Expect.{
  Expectation, Machine, Platform, updated, worded, trap_leave, trap_skip, trap_retry,
}
use abstract_machine.Riscv.Trap.Handler.{record_trap, prv_m}
use abstract_machine.Riscv.Trap.Status.{put_field}

-- The words of the frame, and the privilege mode that trapped.
abbrev pub mepc : Machine → ℕ → ℕ
mepc s frame = s.frames frame 32

abbrev pub trapped_status : Machine → ℕ → ℕ
trapped_status s frame = s.frames frame 33

abbrev pub mcause : Machine → ℕ → ℕ
mcause s frame = s.frames frame 34

abbrev pub mtval : Machine → ℕ → ℕ
mtval s frame = s.frames frame 35

abbrev pub previous : Machine → ℕ → ℕ
previous s frame = trapped_status s frame / 2 ^ 11 % 4

-- The expectation of the hart that runs.
abbrev pub mine : Machine → Expectation
mine s = s.g_expect s.hart

-- The trap is the one that the expectation asks for.
abbrev pub Matches : Machine → ℕ → Type 0
Matches s frame =
    ((mine s).check ≡ 0)
    ⊎ ((mcause s frame ≡ (mine s).cause)
        × (((mine s).epc ≡ 0) ⊎ (mepc s frame ≡ (mine s).epc))
        × (bit_and (mtval s frame) (mine s).tval_mask ≡ bit_and (mine s).tval (mine s).tval_mask))

-- The machine that has recorded the trap.
abbrev pub recorded : Platform → ℕ → Machine → Machine
recorded p frame s = updated s.hart (record_trap p frame s) s

-- The machine that resolve is called on: the expectation is consumed and the frame active.
abbrev pub consumed : Platform → ℕ → Machine → Machine
consumed p frame s =
    updated s.hart (λ x. record x { active_frame = frame })
      (updated s.hart (λ x. record x { armed = 0; taken = 1; resume = trap_leave; resolve = 0 })
        (recorded p frame s))

-- `after` is what the resolve function makes of the machine, where there is one.
abbrev pub Resolves : Platform → ℕ → Machine → Machine → Type 0
Resolves p fn before after =
    ((fn ≡ 0) × (after ≡ before)) ⊎ ((fn ≢ 0) × (p.call fn before ≡ ok (tt, after)))

-- Whether the handler must know the length of the instruction that trapped.
abbrev pub NeedsLength : Machine → ℕ → Type 0
NeedsLength s frame =
    ((mine s).recovery_pc ≡ 0)
    × (((mine s).resume ≡ trap_skip)
        ⊎ (((mine s).resume ≡ trap_leave) × (previous s frame ≡ prv_m)))

-- The length of the instruction that trapped, by its low two bits: from mtval, or known, or read
-- under the trapped privilege; `none` where the fetch itself faulted.
abbrev pub length_of : ℕ → ℕ
length_of bits = if bits % 4 == 3 then 4 else 2

abbrev pub insn_len : Machine → ℕ → Option ℕ
insn_len s frame =
    let access =
      put_field 19 1 1 (put_field 17 1 1 (put_field 11 2 (previous s frame) s.mstatus)) in
    if mcause s frame == 2 && mtval s frame != 0
    then some (length_of (mtval s frame))
    else if mcause s frame == 8 || mcause s frame == 9 || mcause s frame == 11
    then some 4
    else if mcause s frame == 0 || mcause s frame == 1 || mcause s frame == 12
    then none
    else some (length_of (s.load_half access (mepc s frame)))

-- Where and with which mstatus the trap returns; `len` is that length, and `now` the value of
-- mstatus after resolve.
abbrev pub return_pc : Platform → ℕ → ℕ → Machine → ℕ
return_pc p frame len s =
    if (mine s).resume == trap_retry
    then mepc s frame
    else if (mine s).resume == trap_leave && previous s frame != prv_m
    then p.priv_resume_m
    else if (mine s).recovery_pc != 0
    then (mine s).recovery_pc
    else u64 (mepc s frame + len)

abbrev pub return_status : ℕ → ℕ → Machine → ℕ
return_status frame now s =
    if (mine s).resume == trap_leave
    then put_field 17 1 0 (put_field 11 2 3 (trapped_status s frame))
    else put_field 17 1 0 (put_field 11 2 (previous s frame) now)

-- The machine after the handler: the frame returns there, and the frame is active no more.
abbrev pub returned : Platform → ℕ → ℕ → Machine → Machine → Machine
returned p frame len s after = worded frame 33 (return_status frame after.mstatus s) (
    worded frame 32 (return_pc p frame len s)
      (updated s.hart (λ x. record x { active_frame = 0 }) after))

-- The machine `t` that the handler leaves: the frame returns there, resolve's other changes stay,
-- a trap that it armed included, and the frame is active no more.
pub record Delivered (p : Platform) (frame len : ℕ) (s after t : Machine) : Type 0 where
  pub pc : t.frames frame 32 ≡ return_pc p frame len s
  pub status : t.frames frame 33 ≡ return_status frame after.mstatus s
  pub other_words :
      (f j : ℕ) → (f ≢ frame) ⊎ ((j ≢ 32) × (j ≢ 33)) → t.frames f j ≡ after.frames f j
  pub inactive : t.g_expect s.hart ≡ record (after.g_expect s.hart) { active_frame = 0 }
  pub other_harts : (i : ℕ) → i ≢ s.hart → t.g_expect i ≡ after.g_expect i
  pub same_mstatus : t.mstatus ≡ after.mstatus
  pub same_hart : t.hart ≡ after.hart
  pub same_load_half : t.load_half ≡ after.load_half
  pub same_fcsr : t.fcsr ≡ after.fcsr
  pub same_vl : t.vl ≡ after.vl
  pub same_vtype : t.vtype ≡ after.vtype
  pub same_vstart : t.vstart ≡ after.vstart
  pub same_vcsr : t.vcsr ≡ after.vcsr

pub returned-Delivered :
    (p : Platform) (frame len : ℕ) (s after : Machine)
    → Delivered p frame len s after (returned p frame len s after)
unfolding updated worded
returned-Delivered p frame len s after = record {
  pc = ground arith;
  status = ground arith;
  other_words = λ f j h. ground arith;
  inactive = ground arith;
  other_harts = λ i h. ground arith;
  same_mstatus = refl;
  same_hart = refl;
  same_load_half = refl;
  same_fcsr = refl;
  same_vl = refl;
  same_vtype = refl;
  same_vstart = refl;
  same_vcsr = refl;
}
