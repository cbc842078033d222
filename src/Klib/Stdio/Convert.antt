-- ===== src/Klib/Stdio/Convert.antt =====
-- Each conversion puts one text, as far as there is room.
use mathlib.Core.List.{reverse, reverse-cons}
use mathlib.Core.Option
use abstract_machine.Base.{
  ℕ, zero, suc, ◌+◌, ◌-◌, ◌%◌, ◌^◌, ◌<◌, ◌≤◌, ◌≡◌, ◌≢◌, ◌⊎◌, List, [], ◌∷◌, ◌++◌, Bool, true, false,
  inl, inr, refl, arith, leb, ◌∙◌, ◌==◌, Option, some, if◌then◌else◌,
}
use abstract_machine.Base.Lists.{length, length-append, replicate}
use abstract_machine.Klib.Memory.{Mem, null, StrAt, BytesAt, StrAt-move}
use abstract_machine.Klib.String.{find_end}
use abstract_machine.Klib.String.Length.{find_end_lem}
use abstract_machine.Klib.Stdio.{
  Out, Size, plain, long, long_long, put, put_all, put_number, put_signed, put_string, convert,
  buf_of, signed_buf_of, unsigned_arg, signed_arg, count_to, null_text,
}
use abstract_machine.Klib.Stdio.Buffer.{
  Within, put_all-append, put-put_all, pad-put_all, copy_out-put_all,
}
use abstract_machine.Klib.Stdio.Digit.{IsRadix, buf_of-Writes}
use abstract_machine.Klib.Stdio.Item.{
  Letter, letter_d, letter_i, letter_u, letter_x, letter_capital_x, letter_s, letter_c,
  letter_percent, letter_char, takes, bits, Padded, ShowsSigned, Shows, IsText, Ready,
}

length-reverse : (l : List ℕ) → length (reverse l) ≡ length l
length-reverse [] = refl
length-reverse (c ∷ cs) =
    rw reverse-cons (omega (arith, length-append (reverse cs) (c ∷ []), length-reverse cs))

put_number-put_all :
    (end : ℕ) (zero_pad : Bool) (width : ℕ) (buf : List ℕ) (o : Out)
    → put_number end zero_pad width buf o
      ≡ put_all end
          (replicate (width - length buf) (if zero_pad then b'0' else b' ') ++ reverse buf)
          o
unfolding put_number
put_number-put_all end zero_pad width buf o =
    rw
      (
        pad-put_all (width - length buf) end (if zero_pad then b'0' else b' ') o,
        put_all-append end (replicate (width - length buf) (if zero_pad then b'0' else b' '))
            (reverse buf) o,
      )
      refl

number_text : Bool → ℕ → Bool → ℕ → ℕ → List ℕ
number_text zero_pad width capital base val =
    replicate (width - length (buf_of capital base val)) (if zero_pad then b'0' else b' ')
    ++ reverse (buf_of capital base val)

number_text-Padded :
    (zero_pad : Bool) (width : ℕ) (capital : Bool) (base val : ℕ)
    → IsRadix base
    → val < 2 ^ 64
    → Padded zero_pad width capital base val (number_text zero_pad width capital base val)
unfolding number_text
number_text-Padded zero_pad width capital base val b h = record {
  numeral = reverse (buf_of capital base val);
  written = (buf_of-Writes capital base val b h).0;
  short =
      omega
        (arith, length-reverse (buf_of capital base val), (buf_of-Writes capital base val b h).2);
  padded = rw (length-reverse (buf_of capital base val)) refl;
}

unsigned_arg_lem : (size : Size) (x : ℕ) → unsigned_arg size x ≡ x % 2 ^ bits size
unfolding unsigned_arg
unsigned_arg_lem plain x = refl
unsigned_arg_lem long x = refl
unsigned_arg_lem long_long x = refl

bits_ok : (size : Size) (x : ℕ) → x % 2 ^ bits size < 2 ^ 64
bits_ok plain x = omega arith
bits_ok long x = omega arith
bits_ok long_long x = omega arith

-- A text, what it shows, and that the way of printing `run` puts it, on fuel from `k` on.
abbrev pub Puts : ℕ → Mem → ℕ → ℕ → (List ℕ → Type 0) → (ℕ → Out → Option (Out × ℕ)) → ℕ → Type 0
Puts k m out n Good run arg =
    (text : List ℕ) × Good text
    × ((fuel : ℕ) (o : Out)
        → k ≤ fuel
        → Within m out n o
        → run fuel o ≡ some (put_all (out + n - 1) text o, arg))

number_Puts :
    (k : ℕ) (m : Mem) (out n arg : ℕ) (zero_pad : Bool) (width : ℕ) (capital : Bool) (base val : ℕ)
    → IsRadix base
    → val < 2 ^ 64
    → Puts k m out n
        (Padded zero_pad width capital base val)
        (λ fuel o. some (put_number (out + n - 1) zero_pad width (buf_of capital base val) o, arg))
        arg
unfolding number_text
number_Puts k m out n arg zero_pad width capital base val b h = (
  number_text zero_pad width capital base val,
  number_text-Padded zero_pad width capital base val b h,
  λ fuel o le w.
      rw (put_number-put_all (out + n - 1) zero_pad width (buf_of capital base val) o) refl,
)

-- What signed_arg gives for an argument that is not negative, and for one that is.
signed_arg_lem :
    (size : Size) (x : ℕ)
    → ((x % 2 ^ bits size < 2 ^ (bits size - 1))
        × (signed_arg size x ≡ x % 2 ^ bits size)
        × (x % 2 ^ bits size < 2 ^ 63))
      ⊎ ((2 ^ (bits size - 1) ≤ x % 2 ^ bits size)
          × (2 ^ 63 ≤ signed_arg size x)
          × ((2 ^ 64 - signed_arg size x) % 2 ^ 64 ≡ 2 ^ bits size - x % 2 ^ bits size)
          × (2 ^ bits size - x % 2 ^ bits size ≤ 2 ^ 63)
          × ((2 ^ bits size - x % 2 ^ bits size ≡ 2 ^ 63) → x % 2 ^ bits size ≡ 2 ^ 63))
unfolding signed_arg
signed_arg_lem plain x = ground arith
signed_arg_lem long x = ground arith
signed_arg_lem long_long x = ground arith

signed_buf_of_lem : (val : ℕ) → val < 2 ^ 63 → signed_buf_of val ≡ buf_of false 10 val
unfolding signed_buf_of
signed_buf_of_lem val h = ground arith

signed_Puts :
    (k : ℕ) (m : Mem) (out n arg : ℕ) (zero_pad : Bool) (width : ℕ) (size : Size) (x : ℕ)
    → x % 2 ^ bits size ≢ 2 ^ 63
    → Puts k m out n
        (ShowsSigned zero_pad width size x)
        (λ fuel o. some (put_signed (out + n - 1) zero_pad width (signed_arg size x) o, arg))
        arg
unfolding put_signed number_text
signed_Puts k m out n arg zero_pad width size x no_min = elim (signed_arg_lem size x) [
  | inl (low, is, small) ↦
      let val = x % 2 ^ bits size in
      let off : leb (2 ^ 63) val ≡ false = ground arith in
      (
        number_text zero_pad width false 10 val,
        inl (low, number_text-Padded zero_pad width false 10 val (inl refl) (omega arith)),
        λ fuel o le w.
            rw
              (
                is,
                off,
                signed_buf_of_lem val small,
                put_number-put_all (out + n - 1) zero_pad width (buf_of false 10 val) o,
              )
              refl,
      )
  | inr (high, minus, is, small, min) ↦
      let val = 2 ^ bits size - x % 2 ^ bits size in
      let on : leb (2 ^ 63) (signed_arg size x) ≡ true = ground arith in
      let val_ok : val < 2 ^ 63 = ground arith in
      (
        b'-' ∷ number_text zero_pad width false 10 val,
        inr (
          high,
          (
            number_text zero_pad width false 10 val,
            refl,
            number_text-Padded zero_pad width false 10 val (inl refl) (omega arith),
          ),
        ),
        λ fuel o le w.
            rw
              (
                on,
                is,
                signed_buf_of_lem val val_ok,
                put_number-put_all (out + n - 1) zero_pad width (buf_of false 10 val)
                    (put (out + n - 1) b'-' o),
                put-put_all (out + n - 1) b'-' o,
                put_all-append (out + n - 1) (b'-' ∷ []) (number_text zero_pad width false 10 val)
                    o,
              )
              refl,
      )
]

-- Two loops walk the string: the first as far as the width, the second on to the zero.
count_to-find_end :
    (fuel w : ℕ) (m : Mem) (p : ℕ) (l : List ℕ)
    → StrAt m p l
    → length l < fuel
    → find_end fuel m (count_to w m p) ≡ some (p + length l)
unfolding count_to
count_to-find_end fuel zero m p l h lt = find_end_lem fuel m p l h lt
count_to-find_end fuel (suc w) m p [] h lt = rw h (find_end_lem fuel m p [] h lt)
count_to-find_end fuel (suc w) m p (c ∷ cs) h lt =
    let off : (m p == 0) ≡ false = ground arith in
    rw off (
      count_to-find_end fuel w m (p + 1) cs h.2 (omega arith)
      ∙ (let e : p + 1 + length cs ≡ p + suc (length cs) = omega arith in rw e refl))

StrAt-BytesAt : (m : Mem) (p : ℕ) (l : List ℕ) → StrAt m p l → BytesAt m p l
StrAt-BytesAt m p [] h = tt
StrAt-BytesAt m p (c ∷ cs) h = (h.0, StrAt-BytesAt m (p + 1) cs h.2)

-- A string outside the buffer is still there.
pub StrAt-Within :
    (m : Mem) (out n s : ℕ) (l : List ℕ) (o : Out)
    → StrAt m s l
    → (s + length l < out) ⊎ (out + n ≤ s)
    → Within m out n o
    → StrAt o.mem s l
StrAt-Within m out n s l o h off w =
    StrAt-move m o.mem s s l h (λ i le. w.kept (s + i) (ground arith))

text_Puts :
    (k : ℕ) (m : Mem) (out n arg width s : ℕ)
    → IsText k m out n s
    → Puts k m out n
        (λ t. ((s ≡ null) × (t ≡ null_text)) ⊎ ((s ≢ null) × StrAt m s t))
        (λ fuel o. Option.map (λ o'. (o', arg)) (put_string fuel (out + n - 1) width s o))
        arg
unfolding put_string
text_Puts k m out n arg width s (inl is_null) =
    (null_text, inl (is_null, refl), λ fuel o le w. rw is_null refl)
text_Puts k m out n arg width s (inr (no_null, (l, at, lt, off))) =
    let no : (s == null) ≡ false = ground arith in
    (
      l,
      inr (no_null, at),
      λ fuel o le w.
          let len : s + length l - s ≡ length l = omega arith in
          rw
            (
              no,
              count_to-find_end fuel width o.mem s l (StrAt-Within m out n s l o at off w)
                  (omega arith),
              len,
              copy_out-put_all m out n s l o (StrAt-BytesAt m s l at) (ground arith) w,
            )
            refl,
    )

-- Whatever the conversion, the text that its argument shows as is put into the buffer.
pub convert-Puts :
    (k : ℕ) (m : Mem) (out n : ℕ) (args : ℕ → ℕ) (arg : ℕ) (zero_pad : Bool) (width : ℕ)
    (size : Size) (letter : Letter)
    → Ready k m out n size letter (args arg)
    → Puts k m out n
        (Shows m zero_pad width size letter (args arg))
        (λ fuel. convert fuel (out + n - 1) args arg zero_pad width size (letter_char letter))
        (arg + takes letter)
unfolding convert
convert-Puts k m out n args arg zero_pad width size letter_d h =
    signed_Puts k m out n (arg + 1) zero_pad width size (args arg) h
convert-Puts k m out n args arg zero_pad width size letter_i h =
    signed_Puts k m out n (arg + 1) zero_pad width size (args arg) h
convert-Puts k m out n args arg zero_pad width size letter_u h =
    rw (unsigned_arg_lem size (args arg)) (
      number_Puts k m out n (arg + 1) zero_pad width false 10 (args arg % 2 ^ bits size) (inl refl)
        (bits_ok size (args arg)))
convert-Puts k m out n args arg zero_pad width size letter_x h =
    rw (unsigned_arg_lem size (args arg)) (
      number_Puts k m out n (arg + 1) zero_pad width false 16 (args arg % 2 ^ bits size) (inr refl)
        (bits_ok size (args arg)))
convert-Puts k m out n args arg zero_pad width size letter_capital_x h =
    rw (unsigned_arg_lem size (args arg)) (
      number_Puts k m out n (arg + 1) zero_pad width true 16 (args arg % 2 ^ bits size) (inr refl)
        (bits_ok size (args arg)))
convert-Puts k m out n args arg zero_pad width size letter_s h =
    text_Puts k m out n (arg + 1) width (args arg % 2 ^ 64) h
convert-Puts k m out n args arg zero_pad width size letter_c h = (
  args arg % 256 ∷ [],
  refl,
  λ fuel o le w. rw (put-put_all (out + n - 1) (args arg % 256) o) refl,
)
convert-Puts k m out n args arg zero_pad width size letter_percent h =
    let e : arg + 0 ≡ arg = omega arith in
    (b'%' ∷ [], refl, λ fuel o le w. rw (put-put_all (out + n - 1) b'%' o, e) refl)
