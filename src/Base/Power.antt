-- ===== src/Base/Power.antt =====
-- The test `n & (n - 1)` for powers of two.
use native.Mathlib.Nat.{pow-suc}
use mathlib.Core.Path.{◌≡◌, refl}
use mathlib.Core.Logic.{◌≢◌, inl, inr}
use native.Mathlib.Omega.{arith}
use Prim.Native.Nat.{ℕ, suc, ◌-◌, ◌/◌, ◌%◌, ◌^◌, bit_and}
use abstract_machine.Base.Tests.{◌==◌, Bool-cases}
use abstract_machine.Base.Bits.{halving_induction, bit_and_digit, bit_and-zero}

bit_and_self : (a : ℕ) → bit_and a a ≡ a
bit_and_self =
    halving_induction (λ a. bit_and a a ≡ a) (bit_and-zero 0)
      (λ a ih. omega (arith, bit_and_digit (suc a) (suc a), ih))

pub power_of_two : (n : ℕ) → n ≢ 0 → bit_and n (n - 1) ≡ 0 → (k : ℕ) × (n ≡ 2 ^ k)
power_of_two =
    halving_induction (λ n. n ≢ 0 → bit_and n (n - 1) ≡ 0 → (k : ℕ) × (n ≡ 2 ^ k))
      (λ ne e. absurd (ne refl)) step
  where
    step :
        (a : ℕ)
        → (suc a / 2 ≢ 0 → bit_and (suc a / 2) (suc a / 2 - 1) ≡ 0 → (k : ℕ) × (suc a / 2 ≡ 2 ^ k))
        → suc a ≢ 0
        → bit_and (suc a) (suc a - 1) ≡ 0
        → (k : ℕ) × (suc a ≡ 2 ^ k)
    step a ih ne e =
        let before : suc a - 1 ≡ a = omega arith in
        let f : bit_and (suc a) a ≡ 0 = rw before at e in
        elim (Bool-cases (suc a % 2 == 0)) [
          | inl even ↦
              let half : a / 2 ≡ suc a / 2 - 1 = ground arith in
              let d : bit_and (suc a / 2) (a / 2) ≡ 0 = omega (arith, f, bit_and_digit (suc a) a) in
              let g : bit_and (suc a / 2) (suc a / 2 - 1) ≡ 0 = rw half at d in
              let (k, p) = ih (λ z. ground arith) g in (suc k, ground (arith, p, pow-suc 2 k))
          | inr odd ↦
              let half : a / 2 ≡ suc a / 2 = ground arith in
              (0, ground (arith, bit_and_digit (suc a) a, bit_and_self (a / 2), half))
        ]
