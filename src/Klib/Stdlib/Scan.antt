-- ===== src/Klib/Stdlib/Scan.antt =====
-- What strtoull and its kin read: blanks, and then digits up to a character that is none.
use abstract_machine.Base.{
  ℕ, zero, suc, ◌+◌, ◌-◌, ◌*◌, ◌%◌, ◌^◌, ◌<◌, ◌≤◌, ◌≡◌, ◌≢◌, ◌⊎◌, List, [], ◌∷◌, some, true, false,
  Bool-cases, inl, inr, arith, refl, ◌==◌,
}
use abstract_machine.Base.Lists.{length}
use abstract_machine.Klib.Memory.{Mem, BytesAt}
use abstract_machine.Klib.Ctypes.{
  isspace, isalpha, isalnum, isdigit, isxdigit, islower, isupper, tolower,
}
use abstract_machine.Klib.Stdlib.{
  skip_spaces, base_of, skip_prefix, goes_on, digit_value, scan_digits, strtoull,
}

-- The character stands for the digit `d` of the base; digits from ten on are letters.
abbrev pub IsDigit : ℕ → ℕ → ℕ → Type 0
IsDigit base c d =
    (d < base)
    × (((d < 10) × (c ≡ b'0' + d))
        ⊎ ((10 ≤ d) × (d < 36) × ((c ≡ b'a' + (d - 10)) ⊎ (c ≡ b'A' + (d - 10)))))

abbrev pub IsBlank : ℕ → Type 0
IsBlank c = (c ≡ b' ') ⊎ ((9 ≤ c) × (c ≤ 13))

abbrev pub Blanks : List ℕ → Type 0
Blanks [] = Unit {0}
Blanks (c ∷ cs) = IsBlank c × Blanks cs

-- The characters stand for the digits, one for one.
abbrev pub Digits : ℕ → List ℕ → List ℕ → Type 0
Digits base [] [] = Unit {0}
Digits base [] (d ∷ ds) = ⊥
Digits base (c ∷ cs) [] = ⊥
Digits base (c ∷ cs) (d ∷ ds) = IsDigit base c d × Digits base cs ds

-- The number that the digits write, behind `x`.
unfoldable pub number : ℕ → List ℕ → ℕ → ℕ
number base [] x = x
number base (d ∷ ds) x = number base ds (x * base + d)

abbrev pub IsBase : ℕ → Type 0
IsBase base = (base ≡ 8) ⊎ (base ≡ 10) ⊎ (base ≡ 16)

goes_on_digit :
    (base c d : ℕ) → IsBase base → IsDigit base c d → (goes_on base c ≡ true) × (digit_value c ≡ d)
unfolding goes_on digit_value isalnum isalpha islower isupper isdigit isxdigit tolower
goes_on_digit base c d b h = ground arith

goes_on-IsDigit :
    (base c : ℕ) → IsBase base → goes_on base c ≡ true → IsDigit base c (digit_value c)
unfolding goes_on digit_value isalnum isalpha islower isupper isdigit isxdigit tolower
goes_on-IsDigit base c b h = ground arith

number-mod :
    (base : ℕ) (ds : List ℕ) (x y : ℕ)
    → IsBase base
    → x % 2 ^ 64 ≡ y % 2 ^ 64
    → number base ds x % 2 ^ 64 ≡ number base ds y % 2 ^ 64
unfolding number
number-mod base [] x y b h = h
number-mod base (d ∷ ds) x y b h = number-mod base ds (x * base + d) (y * base + d) b (ground arith)

scan_digits_lem :
    (fuel : ℕ) (m : Mem) (p q base x : ℕ) (cs ds : List ℕ)
    → IsBase base
    → BytesAt m p cs
    → Digits base cs ds
    → q ≡ p + length cs
    → ((d : ℕ) → ¬ IsDigit base (m q) d)
    → length cs < fuel
    → x < 2 ^ 64
    → scan_digits fuel m p base x ≡ some (number base ds x % 2 ^ 64, q)
unfolding scan_digits number
scan_digits_lem zero m p q base x cs ds b at h end stop lt x_ok = absurd (omega arith)
scan_digits_lem (suc fuel) m p q base x [] [] b at h end stop lt x_ok =
    let here : p ≡ q = omega arith in
    rw here (elim (Bool-cases (goes_on base (m q))) [
      | inl on ↦ absurd (stop (digit_value (m q)) (goes_on-IsDigit base (m q) b on))
      | inr off ↦ rw off (ground arith)
    ])
scan_digits_lem (suc fuel) m p q base x [] (d ∷ ds) b at h end stop lt x_ok = absurd h
scan_digits_lem (suc fuel) m p q base x (c ∷ cs) [] b at h end stop lt x_ok = absurd h
scan_digits_lem (suc fuel) m p q base x (c ∷ cs) (d ∷ ds) b at h end stop lt x_ok =
    let (on, value) = goes_on_digit base c d b h.0 in
    let x' = (x * base + d) % 2 ^ 64 in
    let rest =
      scan_digits_lem fuel m (p + 1) q base x' cs ds b at.1 h.1 (omega arith) stop (omega arith)
        (omega arith) in
    let same = number-mod base ds x' (x * base + d) b (omega arith) in
    rw (at.0, on, value, rest, same) refl

skip_spaces_lem :
    (fuel : ℕ) (m : Mem) (p q : ℕ) (cs : List ℕ)
    → BytesAt m p cs
    → Blanks cs
    → q ≡ p + length cs
    → ¬ IsBlank (m q)
    → length cs < fuel
    → skip_spaces fuel m p ≡ some q
unfolding skip_spaces isspace
skip_spaces_lem zero m p q cs at h end stop lt = absurd (omega arith)
skip_spaces_lem (suc fuel) m p q [] at h end stop lt =
    let here : p ≡ q = omega arith in rw here (ground (arith, stop))
skip_spaces_lem (suc fuel) m p q (c ∷ cs) at h end stop lt =
    ground (arith, skip_spaces_lem fuel m (p + 1) q cs at.1 h.1 (omega arith) stop (omega arith))

digit-IsBlank : (base c d : ℕ) → IsDigit base c d → ¬ IsBlank c
digit-IsBlank base c d h blank = omega arith

digit_no_x : (base c d : ℕ) → IsBase base → IsDigit base c d → (tolower c == b'x') ≡ false
unfolding tolower isupper
digit_no_x base c d b h = ground arith

no_prefix :
    (m : Mem) (q r base c d : ℕ) (cs ds : List ℕ)
    → IsBase base
    → BytesAt m (q + 1) cs
    → Digits base cs ds
    → r ≡ q + suc (length cs)
    → (base ≡ 16 → (m r ≢ b'x') × (m r ≢ b'X'))
    → skip_prefix m q base ≡ q
unfolding skip_prefix tolower isupper
no_prefix m q r base c d [] [] b at h end no_x =
    let here : q + 1 ≡ r = omega arith in rw here (ground (arith, no_x))
no_prefix m q r base c d [] (e ∷ es) b at h end no_x = absurd h
no_prefix m q r base c d (x ∷ xs) [] b at h end no_x = absurd h
no_prefix m q r base c d (x ∷ xs) (e ∷ es) b at h end no_x =
    rw at.0 (ground (arith, digit_no_x base x e b h.0))

-- Blanks, and then the digits `ds` of a number in base 8, 10 or 16, up to a character that is no
-- digit: given more fuel than blanks and more than digits, strtoull with that base returns the
-- number modulo 2 ^ 64, and the address of that character. In base 16 it must not be an x, so that
-- the digits are not taken for a prefix.
pub strtoull-number :
    (fuel : ℕ) (m : Mem) (p q r base c d : ℕ) (blanks cs ds : List ℕ)
    → IsBase base
    → BytesAt m p blanks
    → Blanks blanks
    → q ≡ p + length blanks
    → BytesAt m q (c ∷ cs)
    → Digits base (c ∷ cs) (d ∷ ds)
    → r ≡ q + suc (length cs)
    → ((e : ℕ) → ¬ IsDigit base (m r) e)
    → (base ≡ 16 → (m r ≢ b'x') × (m r ≢ b'X'))
    → length blanks < fuel
    → suc (length cs) < fuel
    → strtoull fuel m p base ≡ some (number base (d ∷ ds) 0 % 2 ^ 64, r)
unfolding strtoull base_of
strtoull-number fuel m p q r base c d blanks cs ds b at h end at' h' end' stop no_x lt lt' =
    let first =
      skip_spaces_lem fuel m p q blanks at h end
        (λ blank. digit-IsBlank base c d h'.0 (rw at'.0 at blank)) lt in
    let second =
      scan_digits_lem fuel m q r base 0 (c ∷ cs) (d ∷ ds) b at' h' end' stop lt' (omega arith) in
    let same_base : base_of m q base ≡ base = ground arith in
    rw (first, same_base, no_prefix m q r base c d cs ds b at'.1 h'.1 end' no_x) second
