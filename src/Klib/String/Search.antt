-- ===== src/Klib/String/Search.antt =====
-- strchr and strrchr.
use abstract_machine.Base.{ℕ, zero, suc, ◌+◌, ◌<◌, ◌≤◌, ◌≡◌, ◌≢◌, arith, List, [], ◌∷◌, some}
use abstract_machine.Base.Lists.{length}
use abstract_machine.Klib.Memory.{Mem, null, StrAt, StrAt-byte}
use abstract_machine.Klib.String.{strchr, strrchr_loop, strrchr}
use abstract_machine.Klib.String.Length.{strlen-length}

strchr_at :
    (fuel : ℕ) (m : Mem) (s c i : ℕ)
    → i < fuel
    → m (s + i) ≡ c
    → ((j : ℕ) → j < i → m (s + j) ≢ c)
    → ((j : ℕ) → j < i → m (s + j) ≢ 0)
    → strchr fuel m s c ≡ some (s + i)
unfolding strchr
strchr_at zero m s c i lt e before nonzero = absurd (omega arith)
strchr_at (suc fuel) m s c zero lt e before nonzero = ground arith
strchr_at (suc fuel) m s c (suc i) lt e before nonzero =
    let rest =
      strchr_at fuel m (s + 1) c i (omega arith) (ground arith)
        (λ j lt'. ground (arith, before (suc j))) (λ j lt'. ground (arith, nonzero (suc j))) in
    ground (arith, before 0, nonzero 0, rest)

strchr_none :
    (fuel : ℕ) (m : Mem) (s c : ℕ) (l : List ℕ)
    → StrAt m s l
    → length l < fuel
    → ((j : ℕ) → j ≤ length l → m (s + j) ≢ c)
    → strchr fuel m s c ≡ some null
unfolding strchr
strchr_none zero m s c l h lt all = absurd (omega arith)
strchr_none (suc fuel) m s c [] h lt all = ground (arith, all 0)
strchr_none (suc fuel) m s c (x ∷ xs) h lt all = ground (
  arith,
  all 0,
  strchr_none fuel m (s + 1) c xs h.2 (omega arith) (λ j le. ground (arith, all (suc j))),
)

-- Given fuel beyond the string's length, strchr of a string returns the address of the first byte
-- equal to `c`, the zero at the end included.
pub strchr_first :
    (fuel : ℕ) (m : Mem) (s c : ℕ) (l : List ℕ) (i : ℕ)
    → StrAt m s l
    → length l < fuel
    → i ≤ length l
    → m (s + i) ≡ c
    → ((j : ℕ) → j < i → m (s + j) ≢ c)
    → strchr fuel m s c ≡ some (s + i)
strchr_first fuel m s c l i h lt le e before =
    strchr_at fuel m s c i (omega arith) e before (λ j lt'. (StrAt-byte m s l j h).0 (omega arith))

-- Given fuel beyond the string's length, strchr of a string without a byte equal to `c`, the zero
-- at the end included, returns NULL.
pub strchr_missing :
    (fuel : ℕ) (m : Mem) (s c : ℕ) (l : List ℕ)
    → StrAt m s l
    → length l < fuel
    → ((j : ℕ) → j ≤ length l → m (s + j) ≢ c)
    → strchr fuel m s c ≡ some null
strchr_missing fuel m s c l h lt all = strchr_none fuel m s c l h lt all

strrchr_loop_at :
    (k : ℕ) (m : Mem) (s c i : ℕ)
    → i ≤ k
    → m (s + i) ≡ c
    → ((j : ℕ) → i < j → j ≤ k → m (s + j) ≢ c)
    → strrchr_loop k m s c ≡ s + i
unfolding strrchr_loop
strrchr_loop_at zero m s c i le e after = ground arith
strrchr_loop_at (suc k) m s c i le e after = ground (
  arith,
  after (suc k),
  (λ (h : i ≤ k). strrchr_loop_at k m s c i h e (λ j lt le'. after j lt (omega arith))),
)

strrchr_loop_none :
    (k : ℕ) (m : Mem) (s c : ℕ) → ((j : ℕ) → j ≤ k → m (s + j) ≢ c) → strrchr_loop k m s c ≡ null
unfolding strrchr_loop
strrchr_loop_none zero m s c all = ground (arith, all 0)
strrchr_loop_none (suc k) m s c all =
    ground (arith, all (suc k), strrchr_loop_none k m s c (λ j le. all j (omega arith)))

-- Given fuel beyond the string's length, strrchr of a string returns the address of the last byte
-- equal to `c`, the zero at the end included.
pub strrchr_last :
    (fuel : ℕ) (m : Mem) (s c : ℕ) (l : List ℕ) (i : ℕ)
    → StrAt m s l
    → length l < fuel
    → i ≤ length l
    → m (s + i) ≡ c
    → ((j : ℕ) → i < j → j ≤ length l → m (s + j) ≢ c)
    → strrchr fuel m s c ≡ some (s + i)
unfolding strrchr
strrchr_last fuel m s c l i h lt le e after =
    ground (arith, strlen-length fuel m s l h lt, strrchr_loop_at (length l) m s c i le e after)

-- Given fuel beyond the string's length, strrchr of a string without a byte equal to `c`, the zero
-- at the end included, returns NULL.
pub strrchr_missing :
    (fuel : ℕ) (m : Mem) (s c : ℕ) (l : List ℕ)
    → StrAt m s l
    → length l < fuel
    → ((j : ℕ) → j ≤ length l → m (s + j) ≢ c)
    → strrchr fuel m s c ≡ some null
unfolding strrchr
strrchr_missing fuel m s c l h lt all =
    ground (arith, strlen-length fuel m s l h lt, strrchr_loop_none (length l) m s c all)
