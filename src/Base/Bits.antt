-- ===== src/Base/Bits.antt =====
-- Binary digits of native numbers: `bit a i` is digit `i`. The bit operations act digit by digit,
-- and digits determine a number.
use Prim.Native.Nat.{
  ℕ, zero, suc, ◌+◌, ◌-◌, ◌*◌, ◌/◌, ◌%◌, ◌^◌, ◌≤◌, ◌<◌, min, max, bit_and, bit_or, digits, bitwise,
  bit_and-bitwise, bit_or-bitwise,
}
use mathlib.Core.Path.{◌≡◌, refl, ap, ◌∙◌}
use mathlib.Core.WellFounded
use native.Mathlib.Nat.{pow-suc, le_refl, one-le-pow, div-div-eq-div-mul}
use native.Mathlib.Omega.{arith}
use abstract_machine.Base.Order.{lt_wf}

abbrev pub bit : ℕ → ℕ → ℕ
bit a zero = a % 2
bit a (suc i) = bit (a / 2) i

-- The fuel of `digits` does not matter once it covers the first number.
enough_fuel :
    (only_b : ℕ → ℕ) (op : ℕ → ℕ → ℕ) (fuel fuel' a b : ℕ)
    → a ≤ fuel
    → a ≤ fuel'
    → digits only_b op fuel a b ≡ digits only_b op fuel' a b
enough_fuel only_b op zero zero a b h h' = refl
enough_fuel only_b op zero (suc k) zero b h h' = refl
enough_fuel only_b op zero (suc k) (suc a) b h h' = absurd (omega arith)
enough_fuel only_b op (suc k) zero zero b h h' = refl
enough_fuel only_b op (suc k) zero (suc a) b h h' = absurd (omega arith)
enough_fuel only_b op (suc k) (suc j) zero b h h' = refl
enough_fuel only_b op (suc k) (suc j) (suc a) b h h' =
    rw (enough_fuel only_b op k j (suc a / 2) (b / 2) (omega arith) (omega arith))

bitwise_digit :
    (only_b : ℕ → ℕ) (op : ℕ → ℕ → ℕ) (a b : ℕ)
    → bitwise only_b op (suc a) b
      ≡ bitwise only_b op (suc a / 2) (b / 2) * 2 + op (suc a % 2) (b % 2)
bitwise_digit only_b op a b =
    omega (arith, enough_fuel only_b op a (suc a / 2) (suc a / 2) (b / 2) (omega arith) (le_refl _))

pub bit_and_digit : (a b : ℕ) → bit_and a b ≡ bit_and (a / 2) (b / 2) * 2 + min (a % 2) (b % 2)
bit_and_digit zero b = simp bit_and-bitwise (omega arith)
bit_and_digit (suc a) b = simp bit_and-bitwise (bitwise_digit (λ y. 0) min a b)

pub bit_or_digit : (a b : ℕ) → bit_or a b ≡ bit_or (a / 2) (b / 2) * 2 + max (a % 2) (b % 2)
bit_or_digit zero b = simp bit_or-bitwise (omega arith)
bit_or_digit (suc a) b = simp bit_or-bitwise (bitwise_digit (λ y. y) max a b)

-- Induction along the halves of a number.
pub halving_induction {ℓ} :
    (P : ℕ → Type ℓ) → P 0 → ((a : ℕ) → P (suc a / 2) → P (suc a)) → (a : ℕ) → P a
halving_induction P base step a = WellFounded.induction lt_wf {C = P} a go
  where
    go : (n : ℕ) → ((k : ℕ) → k < n → P k) → P n
    go zero ih = base
    go (suc n) ih = step n (ih (suc n / 2) (omega arith))

pub bit_and-zero : (a : ℕ) → bit_and a 0 ≡ 0
bit_and-zero =
    halving_induction (λ a. bit_and a 0 ≡ 0) refl
      (λ a ih. omega (arith, bit_and_digit (suc a) 0, ih))

pub bit_or-zero : (a : ℕ) → bit_or a 0 ≡ a
bit_or-zero =
    halving_induction (λ a. bit_or a 0 ≡ a) refl (λ a ih. omega (arith, bit_or_digit (suc a) 0, ih))

pub bit_or-one : (a : ℕ) → bit_or a 1 ≡ a / 2 * 2 + 1
bit_or-one a = omega (arith, bit_or_digit a 1, bit_or-zero (a / 2))

pub mul-pow_suc : (q k : ℕ) → q * 2 ^ suc k ≡ 2 * (q * 2 ^ k)
mul-pow_suc q k = omega (arith, ap (λ (t : ℕ). q * t) (pow-suc 2 k))

-- A shifted field and one that fits below it: `|` adds them.
pub bit_or-shifted : (k q r : ℕ) → r < 2 ^ k → bit_or (q * 2 ^ k) r ≡ q * 2 ^ k + r
bit_or-shifted zero q r h = ground (arith, bit_or-zero q)
bit_or-shifted (suc k) q r h = ground (
  arith,
  bit_or_digit (q * 2 ^ suc k) r,
  mul-pow_suc q k,
  pow-suc 2 k,
  bit_or-shifted k q (r / 2),
)

-- `&` with `k` low ones keeps the low field.
bit_and-low_field : (k q r : ℕ) → r < 2 ^ k → bit_and (q * 2 ^ k + r) (2 ^ k - 1) ≡ r
bit_and-low_field zero q r h = rw bit_and-zero (omega arith)
bit_and-low_field (suc k) q r h = ground (
  arith,
  bit_and_digit (q * 2 ^ suc k + r) (2 ^ suc k - 1),
  mul-pow_suc q k,
  pow-suc 2 k,
  bit_and-low_field k q (r / 2),
)

pub bit_and-low_ones : (k a : ℕ) → bit_and a (2 ^ k - 1) ≡ a % 2 ^ k
bit_and-low_ones k a = ground (arith, one-le-pow k 2, bit_and-low_field k (a / 2 ^ k) (a % 2 ^ k))

pub half_high : (k a : ℕ) → a / 2 / 2 ^ k ≡ a / 2 ^ suc k
half_high k a = div-div-eq-div-mul a 2 (2 ^ k) ∙ ap (λ (t : ℕ). a / t) (omega (arith, pow-suc 2 k))

-- `&` with a mask that starts at digit `k` acts on what lies above it.
pub bit_and-high : (k a b : ℕ) → bit_and a (b * 2 ^ k) ≡ bit_and (a / 2 ^ k) b * 2 ^ k
bit_and-high zero a b = ground arith
bit_and-high (suc k) a b = ground (
  arith,
  bit_and_digit a (b * 2 ^ suc k),
  mul-pow_suc b k,
  mul-pow_suc (bit_and (a / 2 ^ suc k) b) k,
  bit_and-high k (a / 2) b,
  half_high k a,
)

-- `|` of two numbers that fit a field fits it.
pub bit_or-lt : (k a b : ℕ) → a < 2 ^ k → b < 2 ^ k → bit_or a b < 2 ^ k
bit_or-lt zero zero zero h g = omega arith
bit_or-lt zero zero (suc b) h g = absurd (omega arith)
bit_or-lt zero (suc a) b h g = absurd (omega arith)
bit_or-lt (suc k) a b h g =
    ground (arith, bit_or_digit a b, pow-suc 2 k, bit_or-lt k (a / 2) (b / 2))

half_low : (k a : ℕ) → a % 2 ^ suc k / 2 ≡ a / 2 % 2 ^ k
half_low k a = ground (arith, pow-suc 2 k, div-div-eq-div-mul a 2 (2 ^ k), one-le-pow k 2)

low_bit : (k a : ℕ) → a % 2 ^ suc k % 2 ≡ a % 2
low_bit k a = ground (arith, mul-pow_suc (a / 2 ^ suc k) k, one-le-pow (suc k) 2)

-- The bits of `&` above and below a place.
pub bit_and-split :
    (k a b : ℕ)
    → bit_and a b ≡ bit_and (a / 2 ^ k) (b / 2 ^ k) * 2 ^ k + bit_and (a % 2 ^ k) (b % 2 ^ k)
bit_and-split zero a b = ground arith
bit_and-split (suc k) a b = ground (
  arith,
  bit_and_digit a b,
  bit_and_digit (a % 2 ^ suc k) (b % 2 ^ suc k),
  bit_and-split k (a / 2) (b / 2),
  mul-pow_suc (bit_and (a / 2 ^ suc k) (b / 2 ^ suc k)) k,
  half_high k a,
  half_high k b,
  half_low k a,
  half_low k b,
  low_bit k a,
  low_bit k b,
)

-- The bits of `|` above and below a place.
pub bit_or-split :
    (k a b : ℕ)
    → bit_or a b ≡ bit_or (a / 2 ^ k) (b / 2 ^ k) * 2 ^ k + bit_or (a % 2 ^ k) (b % 2 ^ k)
bit_or-split zero a b = ground arith
bit_or-split (suc k) a b = ground (
  arith,
  bit_or_digit a b,
  bit_or_digit (a % 2 ^ suc k) (b % 2 ^ suc k),
  bit_or-split k (a / 2) (b / 2),
  mul-pow_suc (bit_or (a / 2 ^ suc k) (b / 2 ^ suc k)) k,
  half_high k a,
  half_high k b,
  half_low k a,
  half_low k b,
  low_bit k a,
  low_bit k b,
)

pub zero-bit_or : (a : ℕ) → bit_or 0 a ≡ a
zero-bit_or a = simp bit_or-bitwise refl
