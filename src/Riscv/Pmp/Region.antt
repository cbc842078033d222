-- ===== src/Riscv/Pmp/Region.antt =====
-- The region of a NAPOT entry from the tests that pmp_set_napot makes.
use native.Mathlib.Nat.{pow-le-pow_right, div-add-mod'}
use mathlib.Core.Path.{subst}
use abstract_machine.Base.{
  ℕ, zero, suc, ◌+◌, ◌-◌, ◌*◌, ◌/◌, ◌^◌, ◌<◌, ◌≤◌, ◌≡◌, Bool, bit_and, leb, ltb, ◌&&◌, sym, ◌∙◌,
  arith, Bool-cases, inl, inr,
}
use abstract_machine.Base.Power.{power_of_two}
use abstract_machine.Base.Bits.{bit_and-low_ones}
use abstract_machine.Riscv.Pmp.{pmp_napot_addr}
use abstract_machine.Riscv.Pmp.Napot.{covers, napot_size, pmp_napot_addr-covers}

-- The address lies in the region of `size` bytes at `base`.
abbrev pub inside : ℕ → ℕ → ℕ → Bool
inside base size x = leb base x && ltb x (base + size)

three_up : (k n : ℕ) → n ≡ 2 ^ k → 8 ≤ n → (j : ℕ) × (n ≡ napot_size j)
three_up zero n e le = absurd (omega arith)
three_up (suc zero) n e le = absurd (omega arith)
three_up (suc (suc zero)) n e le = absurd (omega arith)
three_up (suc (suc (suc j))) n e le = (j, e)

size_bound : (j : ℕ) → napot_size j < 2 ^ 64 → j < 64
size_bound j h = elim (Bool-cases (ltb j 64)) [
  | inl e ↦ ground arith
  | inr e ↦
      let big =
        pow-le-pow_right {n = 2} (omega arith) {i = 64} {j = suc (suc (suc j))} (ground arith) in
      absurd (omega (arith, big))
]

napot_covers :
    (base x j : ℕ)
    → napot_size j < 2 ^ 64
    → bit_and base (napot_size j - 1) ≡ 0
    → covers 64 (pmp_napot_addr base (napot_size j)) (x / 4)
      ≡ (leb base x && ltb x (base + napot_size j))
napot_covers base x j lt aligned =
    let size = napot_size j in
    let q = base / size in
    let low = sym (bit_and-low_ones (suc (suc (suc j))) base) ∙ aligned in
    let whole : q * size ≡ base = omega (arith, low, div-add-mod' base size) in
    subst (λ b. covers 64 (pmp_napot_addr b size) (x / 4) ≡ (leb b x && ltb x (b + size))) whole
      (pmp_napot_addr-covers 64 j q x (size_bound j lt) lt)

-- The address that pmp_napot_addr gives for a size that passes the tests of pmp_set_napot covers the
-- region.
pub power_covers :
    (base size x : ℕ)
    → 8 ≤ size
    → size < 2 ^ 64
    → bit_and size (size - 1) ≡ 0
    → bit_and base (size - 1) ≡ 0
    → covers 64 (pmp_napot_addr base size) (x / 4) ≡ (leb base x && ltb x (base + size))
power_covers base size x le lt pow aligned =
    let (k, e) = power_of_two size (λ z. absurd (omega (arith, z))) pow in
    let (j, p) = three_up k size e le in
    subst (λ n. covers 64 (pmp_napot_addr base n) (x / 4) ≡ (leb base x && ltb x (base + n)))
      (sym p)
      (napot_covers base x j (subst (λ n. n < 2 ^ 64) p lt)
        (subst (λ n. bit_and base (n - 1) ≡ 0) p aligned))
