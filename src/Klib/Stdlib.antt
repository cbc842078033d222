-- ===== src/Klib/Stdlib.antt =====
-- klib/src/stdlib.c. The `while` loops run on fuel, and `none` means that the fuel ran out. A long
-- and a pointer have 64 bits; a signed number is given by its bit pattern.
pub mod Scan
pub mod Random
use mathlib.Core.Option
use abstract_machine.Base.{
  ℕ, zero, suc, ◌+◌, ◌-◌, ◌*◌, ◌/◌, ◌%◌, ◌^◌, Bool, true, false, ◌&&◌, ◌||◌, not, Option, none,
  some, leb, ltb, ◌==◌, ◌!=◌, if◌then◌else◌,
}
use abstract_machine.Klib.Memory.{Mem, null}
use abstract_machine.Klib.Ctypes.{isspace, isdigit, isxdigit, isalpha, isalnum, tolower}

-- The static `next`, and the number that rand() returns.
unfoldable pub rand : ℕ → ℕ × ℕ
rand next =
    let next' = (next * 1103515245 + 12345) % 2 ^ 64 in (next' / 65536 % 2 ^ 32 % 32768, next')

unfoldable pub srand : ℕ → ℕ
srand seed = seed

-- An int is negative from 2 ^ 31 on; `-x` is for INT_MIN what wrapping around makes of it.
unfoldable pub abs : ℕ → ℕ
abs x = if leb (2 ^ 31) x then (2 ^ 32 - x) % 2 ^ 32 else x

-- `while (isspace(*nptr)) { nptr++; }`
unfoldable pub skip_spaces : ℕ → Mem → ℕ → Option ℕ
unfolding isspace
skip_spaces zero m p = none
skip_spaces (suc fuel) m p =
    let rest = skip_spaces fuel m (p + 1) in if isspace (m p) then rest else some p

-- The base, read from the text where it is given as 0.
unfoldable pub base_of : Mem → ℕ → ℕ → ℕ
unfolding tolower
base_of m p base =
    if base == 0
    then (if m p != b'0' then 10 else if tolower (m (p + 1)) == b'x' then 16 else 8)
    else base

-- Behind the prefix `0x` of a hexadecimal number.
unfoldable pub skip_prefix : Mem → ℕ → ℕ → ℕ
unfolding tolower
skip_prefix m p base = if base == 16 && m p == b'0' && tolower (m (p + 1)) == b'x' then p + 2 else p

-- Whether the loop over the digits goes on at this character.
unfoldable pub goes_on : ℕ → ℕ → Bool
unfolding isalnum isdigit isxdigit
goes_on base c =
    isalnum c
    && not (base == 8 && not (leb b'0' c && leb c b'7'))
    && not (base == 10 && not (isdigit c))
    && not (base == 16 && not (isxdigit c))

unfoldable pub digit_value : ℕ → ℕ
unfolding isalpha tolower
digit_value c = if isalpha c then tolower c - b'a' + 10 else c - b'0'

-- The loop over the digits: the number, and where it stops.
unfoldable pub scan_digits : ℕ → Mem → ℕ → ℕ → ℕ → Option (ℕ × ℕ)
unfolding goes_on digit_value
scan_digits zero m p base x = none
scan_digits (suc fuel) m p base x =
    let rest = scan_digits fuel m (p + 1) base ((x * base + digit_value (m p)) % 2 ^ 64) in
    if goes_on base (m p) then rest else some (x, p)

-- strtol, strtoul, strtoll and strtoull, which differ in the sign of the type alone: the number and
-- the value for `*endptr`.
unfoldable pub strtoull : ℕ → Mem → ℕ → ℕ → Option (ℕ × ℕ)
unfolding skip_spaces base_of skip_prefix scan_digits Option.bind
strtoull fuel m nptr base =
    Option.bind (skip_spaces fuel m nptr)
      (λ p. let b = base_of m p base in scan_digits fuel m (skip_prefix m p b) b 0)

-- The low 32 bits, as the return converts a long to an int.
unfoldable pub atoi : ℕ → Mem → ℕ → Option ℕ
atoi fuel m nptr = Option.map (λ r. r.0 % 2 ^ 32) (strtoull fuel m nptr 10)
