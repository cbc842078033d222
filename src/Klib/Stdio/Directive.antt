-- ===== src/Klib/Stdio/Directive.antt =====
-- How the code reads one conversion of the format: flag, width, size and letter.
use mathlib.Core.Option
use abstract_machine.Base.{
  ◌≤◌, ltb, ◌^◌, ℕ, zero, suc, ◌+◌, ◌-◌, ◌*◌, ◌<◌, ◌≡◌, ◌≢◌, List, [], ◌∷◌, ◌++◌, Bool, true, false,
  refl, ap, arith, leb, sym, ◌==◌, some, ◌&&◌, if◌then◌else◌,
}
use abstract_machine.Base.Lists.{length, length-append}
use abstract_machine.Klib.Memory.{Mem, StrAt, BytesAt}
use abstract_machine.Klib.Stdlib.Scan.{number}
use abstract_machine.Klib.Stdio.{
  Out, Size, plain, long, long_long, convert, read_width, read_size, directive,
}
use abstract_machine.Klib.Stdio.Digit.{Leads}
use abstract_machine.Klib.Stdio.Item.{
  Letter, letter_d, letter_i, letter_u, letter_x, letter_capital_x, letter_s, letter_c,
  letter_percent, letter_char, size_text, flag_text, width_text, Decimal,
}

pub StrAt-append :
    (m : Mem) (p q : ℕ) (k l : List ℕ)
    → q ≡ p + length k
    → StrAt m p (k ++ l)
    → BytesAt m p k × StrAt m q l
StrAt-append m p q [] l e h = let here : p ≡ q = omega arith in (tt, rw (sym here) h)
StrAt-append m p q (c ∷ cs) l e h =
    let (first, rest) = StrAt-append m (p + 1) q cs l (omega arith) h.2 in ((h.0, first), rest)

BytesAt-append :
    (m : Mem) (p q : ℕ) (k l : List ℕ)
    → q ≡ p + length k
    → BytesAt m p (k ++ l)
    → BytesAt m p k × BytesAt m q l
BytesAt-append m p q [] l e h = let here : p ≡ q = omega arith in (tt, rw (sym here) h)
BytesAt-append m p q (c ∷ cs) l e h =
    let (first, rest) = BytesAt-append m (p + 1) q cs l (omega arith) h.1 in ((h.0, first), rest)

letter_char_lem :
    (letter : Letter)
    → ((leb b'0' (letter_char letter) && leb (letter_char letter) b'9') ≡ false)
      × (letter_char letter ≢ b'l')
letter_char_lem letter_d = ground arith
letter_char_lem letter_i = ground arith
letter_char_lem letter_u = ground arith
letter_char_lem letter_x = ground arith
letter_char_lem letter_capital_x = ground arith
letter_char_lem letter_s = ground arith
letter_char_lem letter_c = ground arith
letter_char_lem letter_percent = ground arith

-- Behind the width there is no digit.
no_digit :
    (m : Mem) (p : ℕ) (size : Size) (letter : Letter) (l : List ℕ)
    → BytesAt m p (size_text size ++ letter_char letter ∷ l)
    → (leb b'0' (m p) && leb (m p) b'9') ≡ false
no_digit m p plain letter l h = rw h.0 (letter_char_lem letter).0
no_digit m p long letter l h = ground arith
no_digit m p long_long letter l h = ground arith

read_size_lem :
    (m : Mem) (p q : ℕ) (size : Size) (letter : Letter) (l : List ℕ)
    → q ≡ p + length (size_text size)
    → BytesAt m p (size_text size ++ letter_char letter ∷ l)
    → read_size m p ≡ (size, q)
unfolding read_size
read_size_lem m p q plain letter l e h =
    let here : p ≡ q = omega arith in
    let no : (m p == b'l') ≡ false = ground (arith, letter_char_lem letter) in
    rw no (ap (λ x. (plain, x)) here)
read_size_lem m p q long letter l e h =
    let on : (m p == b'l') ≡ true = ground arith in
    let no : (m (p + 1) == b'l') ≡ false = ground (arith, letter_char_lem letter) in
    rw (on, no) (ap (λ x. (long, x)) (sym e))
read_size_lem m p q long_long letter l e h =
    let on : (m p == b'l') ≡ true = ground arith in
    let on' : (m (p + 1) == b'l') ≡ true = ground arith in
    rw (on, on') (ap (λ x. (long_long, x)) (sym e))

number-above : (ds : List ℕ) (x : ℕ) → x ≤ number 10 ds x
unfolding number
number-above [] x = omega arith
number-above (d ∷ ds) x = omega (arith, number-above ds (x * 10 + d))

read_width_lem :
    (fuel : ℕ) (m : Mem) (p q x : ℕ) (ds : List ℕ)
    → BytesAt m p (width_text ds)
    → Decimal ds
    → q ≡ p + length (width_text ds)
    → (leb b'0' (m q) && leb (m q) b'9') ≡ false
    → length (width_text ds) < fuel
    → number 10 ds x < 2 ^ 31
    → read_width fuel m p x ≡ some (number 10 ds x, q)
unfolding read_width number
read_width_lem zero m p q x ds at h end stop lt small = absurd (omega arith)
read_width_lem (suc fuel) m p q x [] at h end stop lt small =
    let here : p ≡ q = omega arith in rw (here, stop) refl
read_width_lem (suc fuel) m p q x (d ∷ ds) at h end stop lt small =
    let on : (leb b'0' (b'0' + d) && leb (b'0' + d) b'9') ≡ true = ground arith in
    let value : b'0' + d - b'0' ≡ d = omega arith in
    let holds : ltb (x * 10 + d) (2 ^ 31) ≡ true =
      ground (arith, number-above ds (x * 10 + d), small) in
    rw (at.0, on, value, holds)
      (read_width_lem fuel m (p + 1) q (x * 10 + d) ds at.1 h.1 (omega arith) stop (omega arith)
        small)

-- The flag is where it is looked for.
flag_lem :
    (m : Mem) (p : ℕ) (zero_pad : Bool) (width : List ℕ) (size : Size) (letter : Letter)
    (l : List ℕ)
    → BytesAt m p
        (flag_text zero_pad ++ (width_text width ++ (size_text size ++ letter_char letter ∷ l)))
    → (zero_pad ≡ false → Leads width)
    → (m p == b'0') ≡ zero_pad
flag_lem m p true width size letter l h g = ground arith
flag_lem m p false [] size letter l h g = ground (arith, no_digit m p size letter l h)
flag_lem m p false (d ∷ ds) size letter l h g = ground (arith, g refl)

flag_behind :
    (p : ℕ) (zero_pad : Bool) → (if zero_pad then p + 1 else p) ≡ p + length (flag_text zero_pad)
flag_behind p true = refl
flag_behind p false = omega arith

-- A conversion that stands behind a `%` is read as it is meant, up to its last character.
pub directive_lem :
    (fuel end : ℕ) (args : ℕ → ℕ) (o : Out) (p q arg : ℕ) (zero_pad : Bool) (width : List ℕ)
    (size : Size) (letter : Letter) (l : List ℕ)
    → BytesAt o.mem p
        (flag_text zero_pad ++ (width_text width ++ (size_text size ++ letter_char letter ∷ l)))
    → Decimal width
    → (zero_pad ≡ false → Leads width)
    → q
      ≡ p
        + length (
            flag_text zero_pad ++ (width_text width ++ (size_text size ++ letter_char letter ∷ [])))
    → length (width_text width) < fuel
    → number 10 width 0 < 2 ^ 31
    → directive fuel end args o p arg
      ≡ Option.map
          (λ r. (r.0, q, r.1))
          (convert fuel end args arg zero_pad (number 10 width 0) size (letter_char letter) o)
unfolding directive Option.bind
directive_lem fuel end args o p q arg zero_pad width size letter l h decimal leads e lt small =
    let p1 = p + length (flag_text zero_pad) in
    let p2 = p1 + length (width_text width) in
    let p3 = p2 + length (size_text size) in
    let t2 = size_text size ++ letter_char letter ∷ l in
    let (_, at1) = BytesAt-append o.mem p p1 (flag_text zero_pad) (width_text width ++ t2) refl h in
    let (widths, at2) = BytesAt-append o.mem p1 p2 (width_text width) t2 refl at1 in
    let (_, at3) = BytesAt-append o.mem p2 p3 (size_text size) (letter_char letter ∷ l) refl at2 in
    let end_ok : p3 + 1 ≡ q = omega (
      arith,
      length-append (flag_text zero_pad)
          (width_text width ++ (size_text size ++ letter_char letter ∷ [])),
      length-append (width_text width) (size_text size ++ letter_char letter ∷ []),
      length-append (size_text size) (letter_char letter ∷ []),
    ) in
    rw
      (
        flag_lem o.mem p zero_pad width size letter l h leads,
        flag_behind p zero_pad,
        read_width_lem fuel o.mem p1 p2 0 width widths decimal refl
            (no_digit o.mem p2 size letter l at2) lt small,
        read_size_lem o.mem p2 p3 size letter l refl at2,
        at3.0,
        end_ok,
      )
      refl
