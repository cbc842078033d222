-- ===== src/Tests/Stdio.antt =====
-- Printing and reading: the format "%5d:%s" at 1000, "abc" at 2000, "%lu" at 3000, "  42;" at 4000,
-- and a buffer at 5000.
use mathlib.Core.Option
use mathlib.Core.List.{reverse}
use abstract_machine.Base.{
  ℕ, zero, suc, ◌+◌, ◌-◌, ◌%◌, ◌^◌, ◌<◌, ◌≤◌, ◌≡◌, List, [], ◌∷◌, true, false, inl, inr, Option,
  some, none, refl, arith, if◌then◌else◌,
}
use abstract_machine.Base.Lists.{length, take}
use abstract_machine.Klib.Memory.{Mem, BytesAt, within, store}
use abstract_machine.Klib.String.{find_end}
use abstract_machine.Klib.Stdlib.{strtoull}
use abstract_machine.Klib.Stdlib.Scan.{number, strtoull-number}
use abstract_machine.Klib.Stdio.{
  plain, put, pad, put_all, copy_out, digit_char, digits, buf_of, signed_buf_of, signed_arg,
  unsigned_arg, put_number, put_signed, put_string, count_to, convert, read_width, read_size,
  directive, format_loop, vsnprintf, vsnprintf_internal,
}
use abstract_machine.Klib.Stdio.Digit.{Writes, buf_of-Writes}
use abstract_machine.Klib.Stdio.Item.{Item, literal, conversion, letter_d, letter_s, letter_u}
use abstract_machine.Klib.Stdio.Render.{Prints, vsnprintf-Prints}
use abstract_machine.Klib.Stdio.Reread.{decimal, strtoull-vsnprintf}

abbrev byte_of : List ℕ → ℕ → ℕ
byte_of [] i = 0
byte_of (x ∷ xs) zero = x
byte_of (x ∷ xs) (suc i) = byte_of xs i

abbrev mem : Mem
mem a =
    if within a 1000 6
    then byte_of (b'%' ∷ b'5' ∷ b'd' ∷ b':' ∷ b'%' ∷ b's' ∷ []) (a - 1000)
    else if within a 2000 3
    then byte_of (b'a' ∷ b'b' ∷ b'c' ∷ []) (a - 2000)
    else if within a 3000 3
    then byte_of (b'%' ∷ b'l' ∷ b'u' ∷ []) (a - 3000)
    else if within a 4000 5
    then byte_of (b' ' ∷ b' ' ∷ b'4' ∷ b'2' ∷ b';' ∷ []) (a - 4000)
    else 0

-- The int -42, and the string.
abbrev args : ℕ → ℕ
args zero = 2 ^ 32 - 42
args (suc i) = 2000

abbrev items : List Item
items =
    conversion false (5 ∷ []) plain letter_d
    ∷ literal b':'
    ∷ conversion false [] plain letter_s
    ∷ []

byte_written : ℕ → Option (ℕ × Mem) → ℕ
byte_written a none = 0
byte_written a (some r) = r.1 a

vsnprintf_run :
    (Option.map (λ r. r.0) (vsnprintf 20 mem 5000 9 1000 args) ≡ some 8)
    × (byte_written 5000 (vsnprintf 20 mem 5000 9 1000 args) ≡ b'-')
    × (byte_written 5006 (vsnprintf 20 mem 5000 9 1000 args) ≡ b':')
    × (byte_written 5008 (vsnprintf 20 mem 5000 9 1000 args) ≡ 0)
unfolding byte_written vsnprintf vsnprintf_internal format_loop Option.bind directive read_width
    read_size convert put_signed signed_arg put put_number signed_buf_of buf_of digits digit_char
    pad put_all put_string count_to find_end copy_out store
vsnprintf_run = (refl, refl, refl, refl)

vsnprintf-Prints_example :
    (text : List ℕ) × (m' : Mem) × Prints mem args items 0 text
    × (vsnprintf 20 mem 5000 9 1000 args ≡ some (length (take 8 text) % 2 ^ 32, m'))
    × BytesAt m' 5000 (take 8 text)
    × (m' (5000 + length (take 8 text)) ≡ 0)
    × ((a : ℕ) → within a 5000 9 ≡ false → m' a ≡ mem a)
unfolding number
vsnprintf-Prints_example =
    vsnprintf-Prints 20 4 mem 5000 9 1000 args items (omega arith) (omega arith)
      (
        ((omega arith, tt), λ _. omega arith, ground arith),
        omega arith,
        (
          (omega arith, omega arith),
          (
            (tt, λ _. tt, ground arith),
            inr (
              omega arith,
              (b'a' ∷ b'b' ∷ b'c' ∷ [], ground arith, omega arith, inl (omega arith)),
            ),
            tt,
          ),
        ),
      )
      (ground arith) (inl (omega arith)) (omega arith)

abbrev printed : Mem
printed = store (store (store (store mem 5000 b'4') 5001 b'2') 5002 b'9') 5003 0

vsnprintf_truncated : vsnprintf 20 mem 5000 4 3000 args ≡ some (3, printed)
unfolding vsnprintf vsnprintf_internal format_loop Option.bind directive read_width read_size
    convert unsigned_arg put_number buf_of digits digit_char pad put_all store
vsnprintf_truncated = refl

strtoull-vsnprintf_example :
    (len : ℕ) × (m' : Mem) × (vsnprintf 21 mem 5000 21 3000 args ≡ some (len, m'))
    × (strtoull 21 m' 5000 10 ≡ some (args 0, 5000 + len))
strtoull-vsnprintf_example =
    strtoull-vsnprintf 21 mem 5000 21 3000 10 args letter_u false decimal (omega arith)
      (omega arith) (ground arith) (inl (omega arith)) (omega arith)

buf_of-Writes_example :
    Writes true 16 (reverse (buf_of true 16 0xbeef)) 0xbeef
    × (0 < length (buf_of true 16 0xbeef))
    × (length (buf_of true 16 0xbeef) ≤ 20)
buf_of-Writes_example = buf_of-Writes true 16 0xbeef (inr refl) (omega arith)

strtoull-number_example : strtoull 9 mem 4000 10 ≡ some (number 10 (4 ∷ 2 ∷ []) 0 % 2 ^ 64, 4004)
strtoull-number_example =
    strtoull-number 9 mem 4000 4002 4004 10 b'4' 4 (b' ' ∷ b' ' ∷ []) (b'2' ∷ []) (2 ∷ [])
      (inr (inl refl)) (ground arith) (inl refl, (inl refl, tt)) refl (ground arith) (ground arith)
      refl (λ e h. omega arith) (λ e. absurd (omega arith)) (omega arith) (omega arith)

-- The format "%d" at 6000 as well.
abbrev with_format : Mem
with_format a = if within a 6000 2 then byte_of (b'%' ∷ b'd' ∷ []) (a - 6000) else mem a
