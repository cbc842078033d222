-- ===== src/Klib/String/Length.antt =====
-- strlen measures the string that stands at its argument.
use abstract_machine.Base.{ℕ, zero, suc, ◌+◌, ◌<◌, ◌≡◌, List, [], ◌∷◌, some, arith}
use abstract_machine.Base.Lists.{length}
use abstract_machine.Klib.Memory.{Mem, StrAt}
use abstract_machine.Klib.String.{find_end, strlen}

pub find_end_lem :
    (fuel : ℕ) (m : Mem) (p : ℕ) (l : List ℕ)
    → StrAt m p l
    → length l < fuel
    → find_end fuel m p ≡ some (p + length l)
unfolding find_end
find_end_lem zero m p l h lt = absurd (omega arith)
find_end_lem (suc fuel) m p [] h lt = ground arith
find_end_lem (suc fuel) m p (c ∷ cs) h lt = ground (arith, find_end_lem fuel m (p + 1) cs)

-- Given fuel beyond its length, strlen of a string returns the number of bytes before the zero.
pub strlen-length :
    (fuel : ℕ) (m : Mem) (s : ℕ) (l : List ℕ)
    → StrAt m s l
    → length l < fuel
    → strlen fuel m s ≡ some (length l)
unfolding strlen
strlen-length fuel m s l h lt = ground (arith, find_end_lem fuel m s l)
