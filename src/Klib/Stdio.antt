-- ===== src/Klib/Stdio.antt =====
-- The printing half of klib/src/stdio.c. The `while` loops run on fuel, and `none` means that the
-- fuel ran out, or that the width of a conversion is more than an int holds. The variable arguments are a row of 64-bit slots, as on RV64: `args i` is argument
-- `i`, and `ap` the number of the next one. A signed value is given by its bit pattern.
pub mod Buffer
pub mod Item
pub mod Digit
pub mod Convert
pub mod Directive
pub mod Render
pub mod Reread
pub mod Scanf
pub mod Input
use mathlib.Core.List.{reverse}
use mathlib.Core.Option
use abstract_machine.Base.{
  ℕ, zero, suc, ◌+◌, ◌-◌, ◌*◌, ◌/◌, ◌%◌, ◌^◌, Bool, true, false, ◌&&◌, ◌||◌, not, List, [], ◌∷◌,
  ◌++◌, Option, none, some, leb, ltb, ◌==◌, ◌!=◌, if◌then◌else◌,
}
use abstract_machine.Base.Lists.{length}
use abstract_machine.Klib.Memory.{Mem, null, store}
use abstract_machine.Klib.String.{find_end}

-- The memory and the pointer `dst`.
pub record Out : Type 0 where
  pub mem : Mem
  pub dst : ℕ

-- `*dst++ = c`
abbrev pub push : ℕ → Out → Out
push c o = record { mem = store o.mem o.dst c; dst = o.dst + 1 }

-- `if (dst < end) *dst++ = c;`
unfoldable pub put : ℕ → ℕ → Out → Out
put end c o = if ltb o.dst end then push c o else o

-- `while (len < width && dst < end) { *dst++ = …; width--; }`, with `k` for `width - len`.
unfoldable pub pad : ℕ → ℕ → ℕ → Out → Out
pad zero end c o = o
pad (suc k) end c o = let rest = pad k end c (push c o) in if ltb o.dst end then rest else o

-- `for (i = len - 1; i >= 0 && dst < end; i--) *dst++ = buf[i];`, on the characters in that order.
unfoldable pub put_all : ℕ → List ℕ → Out → Out
put_all end [] o = o
put_all end (c ∷ cs) o = let rest = put_all end cs (push c o) in if ltb o.dst end then rest else o

-- `for (i = 0; i < len && dst < end; i++) *dst++ = s[i];`
unfoldable pub copy_out : ℕ → ℕ → ℕ → Out → Out
copy_out zero end s o = o
copy_out (suc len) end s o =
    let rest = copy_out len end (s + 1) (push (o.mem s) o) in if ltb o.dst end then rest else o

-- "0123456789abcdef"[d], and with capitals; for a decimal digit it is '0' + d.
unfoldable pub digit_char : Bool → ℕ → ℕ
digit_char capital d = if ltb d 10 then b'0' + d else (if capital then b'A' else b'a') + (d - 10)

-- `while (val > 0) { buf[len++] = …; val /= base; }`; 64 rounds are enough for any 64-bit value.
unfoldable pub digits : ℕ → Bool → ℕ → ℕ → List ℕ
digits zero capital base val = []
digits (suc fuel) capital base val =
    let rest = digits fuel capital base (val / base) in
    if val == 0 then [] else digit_char capital (val % base) ∷ rest

-- The array buf, filled from the low digit on.
unfoldable pub buf_of : Bool → ℕ → ℕ → List ℕ
buf_of capital base val = if val == 0 then b'0' ∷ [] else digits 64 capital base val

-- For a signed value `val > 0` fails from 2 ^ 63 on, and the array stays empty.
unfoldable pub signed_buf_of : ℕ → List ℕ
signed_buf_of val = if leb (2 ^ 63) val then [] else buf_of false 10 val

-- The length modifiers: none, `l`, or `ll`.
pub data Size : Type 0 where
  plain : Size
  long : Size
  long_long : Size

-- va_arg with an unsigned type of the size.
unfoldable pub unsigned_arg : Size → ℕ → ℕ
unsigned_arg plain x = x % 2 ^ 32
unsigned_arg long x = x % 2 ^ 64
unsigned_arg long_long x = x % 2 ^ 64

-- va_arg with a signed type, converted to long long.
unfoldable pub signed_arg : Size → ℕ → ℕ
signed_arg plain x =
    let low = x % 2 ^ 32 in if ltb low (2 ^ 31) then low else low + (2 ^ 64 - 2 ^ 32)
signed_arg long x = x % 2 ^ 64
signed_arg long_long x = x % 2 ^ 64

-- The padding and the digits of a number.
unfoldable pub put_number : ℕ → Bool → ℕ → List ℕ → Out → Out
put_number end zero_pad width buf o =
    put_all end (reverse buf) (pad (width - length buf) end (if zero_pad then b'0' else b' ') o)

unfoldable pub put_signed : ℕ → Bool → ℕ → ℕ → Out → Out
put_signed end zero_pad width val o =
    if leb (2 ^ 63) val
    then put_number end zero_pad width (signed_buf_of ((2 ^ 64 - val) % 2 ^ 64)) (put end b'-' o)
    else put_number end zero_pad width (signed_buf_of val) o

-- `0x` only where it leaves room; then the digits.
unfoldable pub put_pointer : ℕ → ℕ → Out → Out
put_pointer end val o =
    put_all end (reverse (buf_of false 16 val))
      (if ltb (o.dst + 2) end then push b'x' (push b'0' o) else o)

-- `while (s[len] && len < width) len++;`
unfoldable pub count_to : ℕ → Mem → ℕ → ℕ
count_to zero m p = p
count_to (suc w) m p = let rest = count_to w m (p + 1) in if m p == 0 then p else rest

abbrev pub null_text : List ℕ
null_text = b'(' ∷ b'n' ∷ b'u' ∷ b'l' ∷ b'l' ∷ b')' ∷ []

unfoldable pub put_string : ℕ → ℕ → ℕ → ℕ → Out → Option Out
put_string fuel end width s o =
    if s == null
    then some (put_all end null_text o)
    else Option.map (λ q. copy_out (q - s) end s o) (find_end fuel o.mem (count_to width o.mem s))

-- The switch on the conversion specifier: the output, and the next argument.
unfoldable pub convert : ℕ → ℕ → (ℕ → ℕ) → ℕ → Bool → ℕ → Size → ℕ → Out → Option (Out × ℕ)
convert fuel end args ap zero_pad width size c o =
    if c == b'd' || c == b'i'
    then some (put_signed end zero_pad width (signed_arg size (args ap)) o, ap + 1)
    else if c == b'u'
    then some
        (put_number end zero_pad width (buf_of false 10 (unsigned_arg size (args ap))) o, ap + 1)
    else if c == b'x' || c == b'X'
    then some (
      put_number end zero_pad width (buf_of (c == b'X') 16 (unsigned_arg size (args ap))) o,
      ap + 1,
    )
    else if c == b'p'
    then some (put_pointer end (args ap % 2 ^ 64) o, ap + 1)
    else if c == b's'
    then Option.map (λ o'. (o', ap + 1)) (put_string fuel end width (args ap % 2 ^ 64) o)
    else if c == b'c'
    then some (put end (args ap % 256) o, ap + 1)
    else if c == b'%'
    then some (put end b'%' o, ap)
    else some (put end c (put end b'%' o), ap)

-- `while (*fmt >= '0' && *fmt <= '9')`: the width, and where it ends. The width is an int, and its
-- overflow is undefined in C: there is no result then.
unfoldable pub read_width : ℕ → Mem → ℕ → ℕ → Option (ℕ × ℕ)
read_width zero m p width = none
read_width (suc fuel) m p width =
    let next = width * 10 + (m p - b'0') in
    let rest = read_width fuel m (p + 1) next in
    if leb b'0' (m p) && leb (m p) b'9'
    then (if ltb next (2 ^ 31) then rest else none)
    else some (width, p)

-- The length modifier, and where it ends.
unfoldable pub read_size : Mem → ℕ → Size × ℕ
read_size m p =
    if m p == b'l'
    then (if m (p + 1) == b'l' then (long_long, p + 2) else (long, p + 1))
    else (plain, p)

-- One conversion, from behind its `%`: the output, the format behind it, and the next argument.
-- The letter is read once: C asks that the output does not overlap the format.
unfoldable pub directive : ℕ → ℕ → (ℕ → ℕ) → Out → ℕ → ℕ → Option (Out × ℕ × ℕ)
directive fuel end args o fmt ap =
    let zero_pad = o.mem fmt == b'0' in
    Option.bind (read_width fuel o.mem (if zero_pad then fmt + 1 else fmt) 0) (λ w.
      let size = read_size o.mem w.1 in
      Option.map (λ r. (r.0, size.1 + 1, r.1))
        (convert fuel end args ap zero_pad w.0 size.0 (o.mem size.1) o))

unfoldable pub format_loop : ℕ → ℕ → (ℕ → ℕ) → Out → ℕ → ℕ → Option Out
format_loop zero end args o fmt ap = none
format_loop (suc fuel) end args o fmt ap =
    let after = λ (r : Out × ℕ × ℕ). format_loop fuel end args r.0 r.1 r.2 in
    if o.mem fmt == 0 || not (ltb o.dst end)
    then some o
    else if o.mem fmt != b'%'
    then after (push (o.mem fmt) o, fmt + 1, ap)
    else Option.bind (directive fuel end args o (fmt + 1) ap) after

-- The difference of the pointers is returned as an int, here its 32 bits.
unfoldable pub vsnprintf_internal : ℕ → Mem → ℕ → ℕ → ℕ → (ℕ → ℕ) → Option (ℕ × Mem)
vsnprintf_internal fuel m out n fmt args =
    Option.map (λ o. ((o.dst - out) % 2 ^ 32, store o.mem o.dst 0))
      (format_loop fuel (out + n - 1) args (record { mem = m; dst = out }) fmt 0)

-- Also snprintf, with its own arguments.
unfoldable pub vsnprintf : ℕ → Mem → ℕ → ℕ → ℕ → (ℕ → ℕ) → Option (ℕ × Mem)
vsnprintf fuel m out n fmt args =
    if n == 0 then some (0, m) else vsnprintf_internal fuel m out n fmt args

-- Also sprintf.
unfoldable pub vsprintf : ℕ → Mem → ℕ → ℕ → (ℕ → ℕ) → Option (ℕ × Mem)
vsprintf fuel m out fmt args = vsnprintf_internal fuel m out 0x7fffffff fmt args

-- `for (i = 0; i < len; i++) putch(buf[i]);`, as the characters that it puts.
unfoldable pub putch_all : ℕ → Mem → ℕ → List ℕ
putch_all zero m p = []
putch_all (suc len) m p = m p ∷ putch_all len m (p + 1)

-- Also printf; `buf` is the address of the local array. The length, and the characters put.
unfoldable pub vprintf : ℕ → Mem → ℕ → ℕ → (ℕ → ℕ) → Option (ℕ × List ℕ)
vprintf fuel m buf fmt args =
    Option.map (λ r. (r.0, putch_all r.0 r.1 buf)) (vsnprintf fuel m buf 1024 fmt args)
