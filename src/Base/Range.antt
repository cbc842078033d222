-- ===== src/Base/Range.antt =====
-- Tests of all numbers below a bound, which a closed test decides by evaluation.
use mathlib.Core.Path.{◌≡◌}
use mathlib.Core.Logic.{inl, inr}
use mathlib.Core.Bool.{Bool, true, ◌&&◌}
use native.Mathlib.Omega.{arith}
use Prim.Native.Nat.{ℕ, zero, suc, ◌<◌}
use abstract_machine.Base.Tests.{◌==◌, Bool-cases}

unfoldable pub all : ℕ → (ℕ → Bool) → Bool
all zero p = true
all (suc n) p = p n && all n p

pub all-at : (n : ℕ) (p : ℕ → Bool) (i : ℕ) → all n p ≡ true → i < n → p i ≡ true
unfolding all
all-at zero p i h lt = absurd (omega arith)
all-at (suc n) p i h lt = elim (Bool-cases (i == n)) [
  | inl e ↦ let z : i ≡ n = ground arith in rw z (ground arith)
  | inr e ↦ all-at n p i (ground arith) (ground arith)
]
