-- ===== src/Klib/Stdlib/Random.antt =====
-- The sequence of rand().
use abstract_machine.Base.{ℕ, zero, suc, ◌%◌, ◌^◌, ◌<◌, ◌≡◌, arith}
use abstract_machine.Klib.Stdlib.{rand}

-- The result of call `i + 1`, from a value of `next`.
unfoldable pub nth_rand : ℕ → ℕ → ℕ
nth_rand zero next = (rand next).0
nth_rand (suc i) next = nth_rand i (rand next).1

-- Every result is at most RAND_MAX, and the sequence depends on the seed modulo 2 ^ 31 only.
pub nth_rand_bounds :
    (i s t : ℕ) → s % 2 ^ 31 ≡ t % 2 ^ 31 → (nth_rand i s < 32768) × (nth_rand i s ≡ nth_rand i t)
unfolding nth_rand rand
nth_rand_bounds zero s t h = omega arith
nth_rand_bounds (suc i) s t h = nth_rand_bounds i _ _ (omega arith)
