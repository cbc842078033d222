-- ===== src/Klib/Stdio/Digit.antt =====
-- The digits that vsnprintf writes: what number they are, and how many.
use mathlib.Core.List.{reverse, reverse-cons}
use native.Mathlib.Nat.{pow-suc}
use abstract_machine.Base.{
  ℕ, zero, suc, ◌+◌, ◌*◌, ◌/◌, ◌%◌, ◌^◌, ◌<◌, ◌≤◌, ◌≡◌, ◌≢◌, ◌⊎◌, List, [], ◌∷◌, ◌++◌, Bool, true,
  false, Bool-cases, inl, inr, refl, ap, arith, ◌∙◌, sym, ◌==◌,
}
use abstract_machine.Base.Lists.{length}
use abstract_machine.Klib.Stdio.{digit_char, digits, buf_of}
use abstract_machine.Klib.Stdlib.Scan.{IsDigit, Digits, number}

abbrev pub IsRadix : ℕ → Type 0
IsRadix base = (base ≡ 10) ⊎ (base ≡ 16)

digit_char-IsDigit :
    (capital : Bool) (base d : ℕ) → IsRadix base → d < base → IsDigit base (digit_char capital d) d
unfolding digit_char
digit_char-IsDigit capital base d b h = ground arith

Digits-append :
    (base : ℕ) (cs ds ks es : List ℕ)
    → Digits base cs ds
    → Digits base ks es
    → Digits base (cs ++ ks) (ds ++ es)
Digits-append base [] [] ks es h g = g
Digits-append base [] (d ∷ ds) ks es h g = absurd h
Digits-append base (c ∷ cs) [] ks es h g = absurd h
Digits-append base (c ∷ cs) (d ∷ ds) ks es h g = (h.0, Digits-append base cs ds ks es h.1 g)

number-append :
    (base : ℕ) (ds es : List ℕ) (x : ℕ)
    → number base (ds ++ es) x ≡ number base es (number base ds x)
unfolding number
number-append base [] es x = refl
number-append base (d ∷ ds) es x = number-append base ds es (x * base + d)

-- The first digit is not zero.
abbrev pub Leads : List ℕ → Type 0
Leads [] = Unit {0}
Leads (d ∷ ds) = d ≢ 0

Leads-append : (ds : List ℕ) (e : ℕ) → Leads ds → (ds ≡ [] → e ≢ 0) → Leads (ds ++ e ∷ [])
Leads-append [] e h g = g refl
Leads-append (d ∷ ds) e h g = h

-- Letters among the digits are capitals, or none is.
abbrev pub Cased : Bool → List ℕ → Type 0
Cased capital [] = Unit {0}
Cased true (c ∷ cs) = (c < b'a') × Cased true cs
Cased false (c ∷ cs) = ((c < b'A') ⊎ (b'a' ≤ c)) × Cased false cs

Cased-append :
    (capital : Bool) (cs : List ℕ) (base d : ℕ)
    → IsRadix base
    → d < base
    → Cased capital cs
    → Cased capital (cs ++ digit_char capital d ∷ [])
unfolding digit_char
Cased-append true [] base d b lt h = ground arith
Cased-append false [] base d b lt h = ground arith
Cased-append true (c ∷ cs) base d b lt h = (h.0, Cased-append true cs base d b lt h.1)
Cased-append false (c ∷ cs) base d b lt h = (h.0, Cased-append false cs base d b lt h.1)

zero-Cased : (capital : Bool) → Cased capital (b'0' ∷ [])
zero-Cased true = (omega arith, tt)
zero-Cased false = (omega arith, tt)

-- The characters write the number `val` in the base, with its capital or its small letters, and
-- no zero in front but that of the number zero.
pub record Writes (capital : Bool) (base : ℕ) (cs : List ℕ) (val : ℕ) : Type 0 where
  pub values : List ℕ
  pub reads : Digits base cs values
  pub worth : number base values 0 ≡ val
  pub cased : Cased capital cs
  pub leads : ((val ≢ 0) × Leads values) ⊎ (values ≡ 0 ∷ [])

digits-Writes :
    (fuel : ℕ) (capital : Bool) (base val : ℕ)
    → IsRadix base
    → val < 2 ^ fuel
    → (values : List ℕ) × Digits base (reverse (digits fuel capital base val)) values
      × (number base values 0 ≡ val)
      × Cased capital (reverse (digits fuel capital base val))
      × Leads values
unfolding digits number
digits-Writes zero capital base val b h = ([], tt, omega arith, tt, tt)
digits-Writes (suc fuel) capital base val b h = elim (Bool-cases (val == 0)) [
  | inl none_left ↦ rw none_left ([], tt, ground arith, tt, tt)
  | inr more ↦
      let (values, reads, worth, cased, leads) =
        digits-Writes fuel capital base (val / base) b (ground (arith, pow-suc 2 fuel)) in
      let d_ok : val % base < base = omega arith in
      rw more (
        values ++ (val % base) ∷ [],
        rw reverse-cons (
            Digits-append base _ values (digit_char capital (val % base) ∷ []) (val % base ∷ [])
              reads (digit_char-IsDigit capital base (val % base) b d_ok, tt)),
        number-append base values (val % base ∷ []) 0 ∙ ground (arith, worth),
        rw reverse-cons (Cased-append capital _ base (val % base) b d_ok cased),
        Leads-append values (val % base) leads (λ e.
            let low : val / base ≡ 0 = sym worth ∙ ap (λ ds. number base ds 0) e in ground arith),
      )
]

length-digits :
    (fuel k : ℕ) (capital : Bool) (base val : ℕ)
    → IsRadix base
    → val < 10 ^ k
    → length (digits fuel capital base val) ≤ k
unfolding digits
length-digits zero k capital base val b h = omega arith
length-digits (suc fuel) zero capital base val b h = ground arith
length-digits (suc fuel) (suc k) capital base val b h =
    ground (arith, pow-suc 10 k, length-digits fuel k capital base (val / base))

length-digits_pos :
    (fuel : ℕ) (capital : Bool) (base val : ℕ)
    → val ≢ 0
    → 0 < length (digits (suc fuel) capital base val)
unfolding digits
length-digits_pos fuel capital base val h = ground arith

-- The digits of a 64-bit number in base 10 or 16, as they are printed, write that number with no
-- zero in front and with the letters asked for; they are at least one and at most 20, so that they
-- fit the 32 bytes of the array.
pub buf_of-Writes :
    (capital : Bool) (base val : ℕ)
    → IsRadix base
    → val < 2 ^ 64
    → Writes capital base (reverse (buf_of capital base val)) val
      × (0 < length (buf_of capital base val))
      × (length (buf_of capital base val) ≤ 20)
unfolding buf_of
buf_of-Writes capital base val b h = elim (Bool-cases (val == 0)) [
  | inl nil ↦ rw nil (
    record {
      values = 0 ∷ [];
      reads = (omega arith, tt);
      worth = unfold number in ground arith;
      cased = zero-Cased capital;
      leads = inr refl;
    },
    omega arith,
    omega arith,
  )
  | inr more ↦
      let (values, reads, worth, cased, leads) = digits-Writes 64 capital base val b h in
      rw more (
        record {
          values = values;
          reads = reads;
          worth = worth;
          cased = cased;
          leads = inl (ground arith, leads);
        },
        length-digits_pos 63 capital base val (ground arith),
        length-digits 64 20 capital base val b (omega arith),
      )
]
