-- ===== src/Klib/Stdio/Reread.antt =====
-- A number that vsnprintf prints is the number that strtoull reads.
use mathlib.Core.List.{append-nil}
use abstract_machine.Base.{
  ℕ, zero, suc, ◌+◌, ◌-◌, ◌%◌, ◌^◌, ◌<◌, ◌≤◌, ◌≡◌, ◌≢◌, ◌⊎◌, List, [], ◌∷◌, Bool, true, false, inl,
  inr, refl, ap, arith, ◌∙◌, sym, some,
}
use abstract_machine.Base.Lists.{length, take}
use abstract_machine.Klib.Memory.{Mem, StrAt, BytesAt}
use abstract_machine.Klib.Stdlib.{strtoull}
use abstract_machine.Klib.Stdlib.Scan.{number, Digits, IsDigit, strtoull-number}
use abstract_machine.Klib.Stdio.{long, vsnprintf}
use abstract_machine.Klib.Stdio.Digit.{Writes, IsRadix, Leads}
use abstract_machine.Klib.Stdio.Item.{
  Letter, letter_u, letter_x, letter_capital_x, Item, conversion, format_text, Padded, Ready,
}
use abstract_machine.Klib.Stdio.Render.{AllReady, Prints, vsnprintf-Prints}

take-all : (n : ℕ) (l : List ℕ) → length l ≤ n → take n l ≡ l
take-all zero [] h = refl
take-all zero (c ∷ cs) h = absurd (omega arith)
take-all (suc n) [] h = refl
take-all (suc n) (c ∷ cs) h = ap (λ l. c ∷ l) (take-all n cs (omega arith))

-- No digit of any base is the zero byte.
zero-IsDigit : (base d : ℕ) → ¬ IsDigit base 0 d
zero-IsDigit base d h = omega arith

Writes-strtoull :
    (fuel : ℕ) (m : Mem) (p base val : ℕ) (capital : Bool) (cs : List ℕ)
    → IsRadix base
    → Writes capital base cs val
    → BytesAt m p cs
    → m (p + length cs) ≡ 0
    → length cs < fuel
    → strtoull fuel m p base ≡ some (val % 2 ^ 64, p + length cs)
unfolding number
Writes-strtoull fuel m p base val capital cs b w at end lt =
    go cs w.values w.reads at end lt w.leads w.worth ∙ (rw w.worth refl)
  where
    go :
        (cs ds : List ℕ)
        → Digits base cs ds
        → BytesAt m p cs
        → m (p + length cs) ≡ 0
        → length cs < fuel
        → ((val ≢ 0) × Leads ds) ⊎ (ds ≡ 0 ∷ [])
        → number base ds 0 ≡ val
        → strtoull fuel m p base ≡ some (number base ds 0 % 2 ^ 64, p + length cs)
    go [] [] reads at end lt leads worth =
        absurd (elim leads [ inl (no_zero, _) ↦ no_zero (sym worth) | inr e ↦ cc ])
    go [] (d ∷ ds) reads at end lt leads worth = absurd reads
    go (c ∷ cs) [] reads at end lt leads worth = absurd reads
    go (c ∷ cs) (d ∷ ds) reads at end lt leads worth =
        strtoull-number fuel m p p (p + suc (length cs)) base c d [] cs ds (inr b) tt tt
          (omega arith) at reads refl (rw end (zero-IsDigit base))
          (rw end (λ _. (omega arith, omega arith))) (omega arith) lt

-- What vsnprintf printed as one numeral, strtoull reads.
reread :
    (fuel : ℕ) (m : Mem) (out n fmt base x : ℕ) (args : ℕ → ℕ) (capital : Bool) (items : List Item)
    → IsRadix base
    → x < 2 ^ 64
    → 20 < n
    → AllReady 0 m out n args items 0
    → StrAt m fmt (format_text items)
    → (fmt + length (format_text items) < out) ⊎ (out + n ≤ fmt)
    → length (format_text items) < fuel
    → 20 < fuel
    → ((text : List ℕ) → Prints m args items 0 text → Padded false 0 capital base x text)
    → (len : ℕ) × (m' : Mem) × (vsnprintf fuel m out n fmt args ≡ some (len, m'))
      × (strtoull fuel m' out base ≡ some (x, out + len))
reread fuel m out n fmt base x args capital items b ok room ready at off lt lt' shown =
    let (text, m', prints, run, stands, end, _) =
      vsnprintf-Prints fuel 0 m out n fmt args items (omega arith) (omega arith) ready at off
        (omega arith) in
    let printed = shown text prints in
    let none_left : 0 - length printed.numeral ≡ 0 = omega arith in
    let same : text ≡ printed.numeral = rw none_left at printed.padded in
    let all : take (n - 1) text ≡ printed.numeral =
      rw same (take-all (n - 1) printed.numeral (omega (arith, printed.short))) in
    let value : x % 2 ^ 64 ≡ x = omega arith in
    let len_small : length printed.numeral % 2 ^ 32 ≡ length printed.numeral =
      omega (arith, printed.short) in
    (
      length printed.numeral,
      m',
      rw (all, len_small) at run,
      Writes-strtoull fuel m' out base x capital printed.numeral b printed.written
            (rw all at stands) (rw all at end) (omega (arith, printed.short))
          ∙ rw value refl,
    )

-- The conversion letters that print an unsigned number, with their case and their base.
pub data Radix : Letter → Bool → ℕ → Type 0 where
  decimal : Radix letter_u false 10
  hexadecimal : Radix letter_x false 16
  capital_hexadecimal : Radix letter_capital_x true 16

abbrev long_format : Letter → List Item
long_format letter = conversion false [] long letter ∷ []

alone :
    (m : Mem) (args : ℕ → ℕ) (text : List ℕ) {letter : Letter} {capital : Bool} {base : ℕ}
    → Radix letter capital base
    → args 0 < 2 ^ 64
    → Prints m args (long_format letter) 0 text
    → Padded false 0 capital base (args 0) text
unfolding number
alone m args text decimal ok (t, rest, whole, shows, none_left) =
    let value : args 0 % 2 ^ 64 ≡ args 0 = omega arith in
    let same : text ≡ t = whole ∙ (rw none_left (append-nil t)) in rw (sym value, same) shows
alone m args text hexadecimal ok (t, rest, whole, shows, none_left) =
    let value : args 0 % 2 ^ 64 ≡ args 0 = omega arith in
    let same : text ≡ t = whole ∙ (rw none_left (append-nil t)) in rw (sym value, same) shows
alone m args text capital_hexadecimal ok (t, rest, whole, shows, none_left) =
    let value : args 0 % 2 ^ 64 ≡ args 0 = omega arith in
    let same : text ≡ t = whole ∙ (rw none_left (append-nil t)) in rw (sym value, same) shows

Radix-IsRadix :
    {letter : Letter} {capital : Bool} {base : ℕ} → Radix letter capital base → IsRadix base
Radix-IsRadix decimal = inl refl
Radix-IsRadix hexadecimal = inr refl
Radix-IsRadix capital_hexadecimal = inr refl

-- An unsigned conversion asks nothing of its argument, and its letter is one character.
Radix-Ready :
    (m : Mem) (out n x : ℕ) {letter : Letter} {capital : Bool} {base : ℕ}
    → Radix letter capital base
    → Ready 0 m out n long letter x
Radix-Ready m out n x decimal = tt
Radix-Ready m out n x hexadecimal = tt
Radix-Ready m out n x capital_hexadecimal = tt

-- Let `%lu`, `%lx` or `%lX` stand outside a buffer of at least 21 bytes. Given fuel above 20 for
-- both, vsnprintf of that format with a 64-bit argument returns a length, and strtoull, with the
-- base of the letter, on the memory that it leaves reads the argument back, up to the end of what
-- was printed.
pub strtoull-vsnprintf :
    (fuel : ℕ) (m : Mem) (out n fmt base : ℕ) (args : ℕ → ℕ) (letter : Letter) (capital : Bool)
    → Radix letter capital base
    → args 0 < 2 ^ 64
    → 20 < n
    → StrAt m fmt (format_text (conversion false [] long letter ∷ []))
    → (fmt + 3 < out) ⊎ (out + n ≤ fmt)
    → 20 < fuel
    → (len : ℕ) × (m' : Mem) × (vsnprintf fuel m out n fmt args ≡ some (len, m'))
      × (strtoull fuel m' out base ≡ some (args 0, out + len))
strtoull-vsnprintf fuel m out n fmt base args letter capital radix ok room at off lt =
    reread fuel m out n fmt base (args 0) args capital (long_format letter) (Radix-IsRadix radix) ok
      room ((tt, λ _. tt, unfold number in omega arith), Radix-Ready m out n (args 0) radix, tt) at
      (omega arith) (omega arith) lt (λ text prints. alone m args text radix ok prints)
