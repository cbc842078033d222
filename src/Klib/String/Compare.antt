-- ===== src/Klib/String/Compare.antt =====
-- strcmp and strncmp against the order of strings as lists of bytes.
use abstract_machine.Base.{
  ℕ, zero, suc, ◌+◌, ◌<◌, ◌≡◌, ◌↔◌, refl, arith, ◌==◌, if◌then◌else◌, List, [], ◌∷◌, some,
}
use abstract_machine.Base.Int.{ℤ, pos, sub_ℕ}
use abstract_machine.Base.Lists.{length, take}
use abstract_machine.Klib.Memory.{Mem, StrAt}
use abstract_machine.Klib.String.{strcmp, strncmp_loop, strncmp}

-- The first difference decides, and the end of a string counts as a zero.
unfoldable pub first_difference : List ℕ → List ℕ → ℤ
first_difference [] [] = pos 0
first_difference [] (d ∷ ds) = sub_ℕ 0 d
first_difference (c ∷ cs) [] = sub_ℕ c 0
first_difference (c ∷ cs) (d ∷ ds) = if c == d then first_difference cs ds else sub_ℕ c d

-- Given fuel beyond the first string's length, strcmp of two strings is the difference of the first
-- bytes that differ, the zeros at the end included.
pub strcmp-first_difference :
    (fuel : ℕ) (m : Mem) (s1 s2 : ℕ) (k l : List ℕ)
    → StrAt m s1 k
    → StrAt m s2 l
    → length k < fuel
    → strcmp fuel m s1 s2 ≡ some (first_difference k l)
unfolding strcmp first_difference
strcmp-first_difference zero m s1 s2 k l hk hl lt = absurd (omega arith)
strcmp-first_difference (suc fuel) m s1 s2 [] [] hk hl lt = ground arith
strcmp-first_difference (suc fuel) m s1 s2 [] (d ∷ ds) hk hl lt = ground arith
strcmp-first_difference (suc fuel) m s1 s2 (c ∷ cs) [] hk hl lt = ground arith
strcmp-first_difference (suc fuel) m s1 s2 (c ∷ cs) (d ∷ ds) hk hl lt =
    ground (arith, strcmp-first_difference fuel m (s1 + 1) (s2 + 1) cs ds hk.2 hl.2)

eq_of_first_difference :
    (m : Mem) (s1 s2 : ℕ) (k l : List ℕ)
    → StrAt m s1 k
    → StrAt m s2 l
    → first_difference k l ≡ pos 0
    → k ≡ l
unfolding first_difference
eq_of_first_difference m s1 s2 [] [] hk hl e = refl
eq_of_first_difference m s1 s2 [] (d ∷ ds) hk hl e = ground arith
eq_of_first_difference m s1 s2 (c ∷ cs) [] hk hl e = ground arith
eq_of_first_difference m s1 s2 (c ∷ cs) (d ∷ ds) hk hl e =
    ground (arith, eq_of_first_difference m (s1 + 1) (s2 + 1) cs ds hk.2 hl.2)

first_difference_self : (k : List ℕ) → first_difference k k ≡ pos 0
unfolding first_difference
first_difference_self [] = refl
first_difference_self (c ∷ cs) = ground (arith, first_difference_self cs)

-- Given fuel beyond the first string's length, strcmp of two strings answers 0 exactly when they
-- are the same string.
pub strcmp-zero_iff :
    (fuel : ℕ) (m : Mem) (s1 s2 : ℕ) (k l : List ℕ)
    → StrAt m s1 k
    → StrAt m s2 l
    → length k < fuel
    → (strcmp fuel m s1 s2 ≡ some (pos 0)) ↔ (k ≡ l)
strcmp-zero_iff fuel m s1 s2 k l hk hl lt =
    let e = strcmp-first_difference fuel m s1 s2 k l hk hl lt in
    (
      λ z. eq_of_first_difference m s1 s2 k l hk hl (ground (arith, e)),
      λ same. ground (arith, e, first_difference_self k),
    )

strncmp_loop-first_difference :
    (n : ℕ) (m : Mem) (s1 s2 : ℕ) (k l : List ℕ)
    → StrAt m s1 k
    → StrAt m s2 l
    → strncmp_loop n m s1 s2 ≡ first_difference (take n k) (take n l)
unfolding strncmp_loop first_difference
strncmp_loop-first_difference zero m s1 s2 k l hk hl = refl
strncmp_loop-first_difference (suc n) m s1 s2 [] [] hk hl = ground arith
strncmp_loop-first_difference (suc n) m s1 s2 [] (d ∷ ds) hk hl = ground arith
strncmp_loop-first_difference (suc n) m s1 s2 (c ∷ cs) [] hk hl = ground arith
strncmp_loop-first_difference (suc n) m s1 s2 (c ∷ cs) (d ∷ ds) hk hl =
    ground (arith, strncmp_loop-first_difference n m (s1 + 1) (s2 + 1) cs ds hk.2 hl.2)

-- strncmp of two strings is the difference of the first bytes that differ when both are cut off at
-- `n` bytes.
pub strncmp-first_difference :
    (m : Mem) (s1 s2 n : ℕ) (k l : List ℕ)
    → StrAt m s1 k
    → StrAt m s2 l
    → strncmp m s1 s2 n ≡ first_difference (take n k) (take n l)
unfolding strncmp
strncmp-first_difference m s1 s2 zero k l hk hl = unfold first_difference in refl
strncmp-first_difference m s1 s2 (suc n) k l hk hl =
    ground (arith, strncmp_loop-first_difference (suc n) m s1 s2 k l hk hl)
