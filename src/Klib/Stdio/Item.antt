-- ===== src/Klib/Stdio/Item.antt =====
-- What a format string is made of, and what each of its items prints, said without the code.
use abstract_machine.Klib.Stdlib.Scan.{number}
use abstract_machine.Base.{
  ◌^◌, ℕ, ◌+◌, ◌-◌, ◌%◌, ◌^◌, ◌<◌, ◌≤◌, ◌≡◌, ◌≢◌, ◌⊎◌, List, [], ◌∷◌, ◌++◌, Bool, true, false,
  if◌then◌else◌,
}
use abstract_machine.Base.Lists.{length, replicate}
use abstract_machine.Klib.Memory.{Mem, null, StrAt}
use abstract_machine.Klib.Stdio.{Size, plain, long, long_long, null_text}
use abstract_machine.Klib.Stdio.Digit.{Writes, Leads}

-- The conversions, less `%p`.
pub data Letter : Type 0 where
  letter_d : Letter
  letter_i : Letter
  letter_u : Letter
  letter_x : Letter
  letter_capital_x : Letter
  letter_s : Letter
  letter_c : Letter
  letter_percent : Letter

-- A character that stands for itself, or `%`, the flag `0` or none, the digits of the width, the
-- size and the letter.
pub data Item : Type 0 where
  literal : (c : ℕ) → Item
  conversion : (zero_pad : Bool) (width : List ℕ) (size : Size) (letter : Letter) → Item

abbrev pub letter_char : Letter → ℕ
letter_char letter_d = b'd'
letter_char letter_i = b'i'
letter_char letter_u = b'u'
letter_char letter_x = b'x'
letter_char letter_capital_x = b'X'
letter_char letter_s = b's'
letter_char letter_c = b'c'
letter_char letter_percent = b'%'

abbrev pub size_text : Size → List ℕ
size_text plain = []
size_text long = b'l' ∷ []
size_text long_long = b'l' ∷ b'l' ∷ []

abbrev pub flag_text : Bool → List ℕ
flag_text true = b'0' ∷ []
flag_text false = []

abbrev pub width_text : List ℕ → List ℕ
width_text [] = []
width_text (d ∷ ds) = (b'0' + d) ∷ width_text ds

abbrev pub item_text : Item → List ℕ
item_text (literal c) = c ∷ []
item_text (conversion zero_pad width size letter) =
    b'%' ∷ flag_text zero_pad ++ (width_text width ++ (size_text size ++ letter_char letter ∷ []))

abbrev pub format_text : List Item → List ℕ
format_text [] = []
format_text (item ∷ items) = item_text item ++ format_text items

abbrev pub Decimal : List ℕ → Type 0
Decimal [] = Unit {0}
Decimal (d ∷ ds) = (d < 10) × Decimal ds

-- A literal is not the percent sign; a width that no flag comes before does not begin with 0, and an
-- int holds it.
abbrev pub IsItem : Item → Type 0
IsItem (literal c) = (c ≢ 0) × (c ≢ b'%')
IsItem (conversion zero_pad width size letter) =
    Decimal width × (zero_pad ≡ false → Leads width) × (number 10 width 0 < 2 ^ 31)

abbrev pub bits : Size → ℕ
bits plain = 32
bits long = 64
bits long_long = 64

-- How many arguments the conversion takes.
abbrev pub takes : Letter → ℕ
takes letter_percent = 0
takes letter = 1

-- The numeral of `val`, of 20 characters at most, with blanks or zeros in front up to the width.
pub record Padded (zero_pad : Bool) (width : ℕ) (capital : Bool) (base val : ℕ) (text : List ℕ)
    : Type 0 where
  pub numeral : List ℕ
  pub written : Writes capital base numeral val
  pub short : length numeral ≤ 20
  pub padded :
      text ≡ replicate (width - length numeral) (if zero_pad then b'0' else b' ') ++ numeral

-- The argument `x` is read as a number in two's complement; a minus sign comes before the padding.
abbrev pub ShowsSigned : Bool → ℕ → Size → ℕ → List ℕ → Type 0
ShowsSigned zero_pad width size x text =
    ((x % 2 ^ bits size < 2 ^ (bits size - 1))
      × Padded zero_pad width false 10 (x % 2 ^ bits size) text)
    ⊎ ((2 ^ (bits size - 1) ≤ x % 2 ^ bits size)
        × ((rest : List ℕ) × (text ≡ b'-' ∷ rest)
            × Padded zero_pad width false 10 (2 ^ bits size - x % 2 ^ bits size) rest))

-- What a conversion prints for the argument `x`.
abbrev pub Shows : Mem → Bool → ℕ → Size → Letter → ℕ → List ℕ → Type 0
Shows m zero_pad width size letter_d x text = ShowsSigned zero_pad width size x text
Shows m zero_pad width size letter_i x text = ShowsSigned zero_pad width size x text
Shows m zero_pad width size letter_u x text =
    Padded zero_pad width false 10 (x % 2 ^ bits size) text
Shows m zero_pad width size letter_x x text =
    Padded zero_pad width false 16 (x % 2 ^ bits size) text
Shows m zero_pad width size letter_capital_x x text =
    Padded zero_pad width true 16 (x % 2 ^ bits size) text
Shows m zero_pad width size letter_s x text =
    ((x % 2 ^ 64 ≡ null) × (text ≡ null_text)) ⊎ ((x % 2 ^ 64 ≢ null) × StrAt m (x % 2 ^ 64) text)
Shows m zero_pad width size letter_c x text = text ≡ x % 256 ∷ []
Shows m zero_pad width size letter_percent x text = text ≡ b'%' ∷ []

-- A string argument is null, or stands outside the `n` bytes at `out` and is shorter than `fuel`.
abbrev pub IsText : ℕ → Mem → ℕ → ℕ → ℕ → Type 0
IsText fuel m out n s =
    (s ≡ null)
    ⊎ ((s ≢ null)
        × ((l : List ℕ) × StrAt m s l × (length l < fuel) × ((s + length l < out) ⊎ (out + n ≤ s))))

-- The arguments that can be printed: any number but the least long long, and any such string.
abbrev pub Ready : ℕ → Mem → ℕ → ℕ → Size → Letter → ℕ → Type 0
Ready fuel m out n size letter_d x = x % 2 ^ bits size ≢ 2 ^ 63
Ready fuel m out n size letter_i x = x % 2 ^ bits size ≢ 2 ^ 63
Ready fuel m out n size letter_s x = IsText fuel m out n (x % 2 ^ 64)
Ready fuel m out n size letter x = Unit {0}
