-- ===== src/Riscv/Trap/Status.antt =====
-- The values of mstatus that m_trap_handler computes, as fields of bits.
use abstract_machine.Base.{ℕ, ◌+◌, ◌-◌, ◌*◌, ◌/◌, ◌%◌, ◌^◌, ◌<◌, ◌≡◌, arith, bit_and, bit_or}
use abstract_machine.Base.Bits.{
  bit_and-split, bit_or-split, bit_and-low_ones, bit_and-high, bit_or-zero, zero-bit_or, bit_or-one,
}
use abstract_machine.Riscv.Page.Words.{clear_bits}
use abstract_machine.Riscv.Trap.Expect.{mstatus_mpp}
use abstract_machine.Riscv.Trap.Handler.{mstatus_mprv, mstatus_mxr}

-- `x` with its field of `w` bits from bit `k` on set to `v`.
abbrev pub put_field : ℕ → ℕ → ℕ → ℕ → ℕ
put_field k w v x = x / 2 ^ (k + w) * 2 ^ (k + w) + v * 2 ^ k + x % 2 ^ k

clear_mpp : (x : ℕ) → x < 2 ^ 64 → clear_bits x mstatus_mpp ≡ put_field 11 2 0 x
clear_mpp x h = omega (
  arith,
  bit_and-split 13 x (2 ^ 64 - 1 - 0x1800),
  bit_and-low_ones 51 (x / 2 ^ 13),
  bit_and-low_ones 11 (x % 2 ^ 13),
)

clear_mprv : (x : ℕ) → x < 2 ^ 64 → clear_bits x mstatus_mprv ≡ put_field 17 1 0 x
clear_mprv x h = omega (
  arith,
  bit_and-split 18 x (2 ^ 64 - 1 - 0x20000),
  bit_and-low_ones 46 (x / 2 ^ 18),
  bit_and-low_ones 17 (x % 2 ^ 18),
)

pub mpp_field : (x : ℕ) → bit_and x mstatus_mpp ≡ x / 2 ^ 11 % 4 * 2 ^ 11
mpp_field x = omega (arith, bit_and-high 11 x 3, bit_and-low_ones 2 (x / 2 ^ 11))

set_mpp : (x v : ℕ) → v < 4 → bit_or (put_field 11 2 0 x) (v * 2 ^ 11) ≡ put_field 11 2 v x
set_mpp x v h =
    let c = put_field 11 2 0 x in
    let high : c / 2 ^ 13 ≡ x / 2 ^ 13 = omega arith in
    let low : c % 2 ^ 13 ≡ x % 2 ^ 11 = omega arith in
    let low_low : x % 2 ^ 11 % 2 ^ 11 ≡ x % 2 ^ 11 = omega arith in
    let low_high : x % 2 ^ 11 / 2 ^ 11 ≡ 0 = omega arith in
    let v_high : v * 2 ^ 11 / 2 ^ 13 ≡ 0 = omega arith in
    let v_low : v * 2 ^ 11 % 2 ^ 13 ≡ v * 2 ^ 11 = omega arith in
    let v_mid : v * 2 ^ 11 / 2 ^ 11 ≡ v = omega arith in
    let v_zero : v * 2 ^ 11 % 2 ^ 11 ≡ 0 = omega arith in
    let outer = rw (high, low, v_high, v_low) at (bit_or-split 13 c (v * 2 ^ 11)) in
    let inner =
      rw (low_low, low_high, v_mid, v_zero) at (bit_or-split 11 (x % 2 ^ 11) (v * 2 ^ 11)) in
    omega (arith, outer, inner, bit_or-zero (x / 2 ^ 13), bit_or-zero (x % 2 ^ 11), zero-bit_or v)

-- RETRY and SKIP return with the mstatus of the moment, the MPP of the trap, and MPRV clear.
pub stay_status :
    (now trapped : ℕ)
    → now < 2 ^ 64
    → clear_bits (bit_or (clear_bits now mstatus_mpp) (bit_and trapped mstatus_mpp)) mstatus_mprv
      ≡ put_field 17 1 0 (put_field 11 2 (trapped / 2 ^ 11 % 4) now)
stay_status now trapped h =
    rw (clear_mpp now h, mpp_field trapped, set_mpp now (trapped / 2 ^ 11 % 4) (omega arith))
      (clear_mprv (put_field 11 2 (trapped / 2 ^ 11 % 4) now) (omega arith))

-- LEAVE returns with the mstatus of the trap, MPP set to M, and MPRV clear.
pub leave_status :
    (trapped : ℕ)
    → trapped < 2 ^ 64
    → clear_bits (bit_or (clear_bits trapped mstatus_mpp) mstatus_mpp) mstatus_mprv
      ≡ put_field 17 1 0 (put_field 11 2 3 trapped)
leave_status trapped h =
    rw (clear_mpp trapped h, set_mpp trapped 3 (omega arith))
      (clear_mprv (put_field 11 2 3 trapped) (omega arith))

set_bit_17 : (x : ℕ) → bit_or x mstatus_mprv ≡ put_field 17 1 1 x
set_bit_17 x =
    omega (arith, bit_or-split 17 x 0x20000, bit_or-one (x / 2 ^ 17), bit_or-zero (x % 2 ^ 17))

set_bit_19 : (x : ℕ) → bit_or x mstatus_mxr ≡ put_field 19 1 1 x
set_bit_19 x =
    omega (arith, bit_or-split 19 x 0x80000, bit_or-one (x / 2 ^ 19), bit_or-zero (x % 2 ^ 19))

-- An instruction is read with the mstatus of the moment, the MPP of the trap, MPRV and MXR.
pub access_status_lem :
    (now trapped : ℕ)
    → now < 2 ^ 64
    → bit_or
        (bit_or (bit_or (clear_bits now mstatus_mpp) (bit_and trapped mstatus_mpp)) mstatus_mprv)
        mstatus_mxr
      ≡ put_field 19 1 1 (put_field 17 1 1 (put_field 11 2 (trapped / 2 ^ 11 % 4) now))
access_status_lem now trapped h =
    let low = put_field 11 2 (trapped / 2 ^ 11 % 4) now in
    rw
      (
        clear_mpp now h,
        mpp_field trapped,
        set_mpp now (trapped / 2 ^ 11 % 4) (omega arith),
        set_bit_17 low,
      )
      (set_bit_19 (put_field 17 1 1 low))
