-- ===== src/Klib/String.antt =====
-- klib/src/string.c. A `while` loop whose end only the memory decides runs on fuel, and `none`
-- means that the fuel ran out; a loop that counts `n` down recurs on `n`.
pub mod Length
pub mod Block
pub mod Copy
pub mod Compare
pub mod Search
use mathlib.Core.Option
use abstract_machine.Base.{
  ℕ, zero, suc, ◌+◌, ◌-◌, ◌%◌, Bool, true, false, ◌&&◌, Option, none, some, ltb, ◌==◌, ◌!=◌,
  if◌then◌else◌,
}
use abstract_machine.Base.Int.{ℤ, pos, sub_ℕ}
use abstract_machine.Klib.Memory.{Mem, null, store}

-- `while (*p) p++;`, which strlen and strcat share.
unfoldable pub find_end : ℕ → Mem → ℕ → Option ℕ
find_end zero m p = none
find_end (suc fuel) m p = let rest = find_end fuel m (p + 1) in if m p == 0 then some p else rest

unfoldable pub strlen : ℕ → Mem → ℕ → Option ℕ
strlen fuel m s = Option.map (λ p. p - s) (find_end fuel m s)

-- `while ((*dst++ = *src++));`
unfoldable pub copy_str : ℕ → Mem → ℕ → ℕ → Option Mem
copy_str zero m dst src = none
copy_str (suc fuel) m dst src =
    let m' = store m dst (m src) in
    let rest = copy_str fuel m' (dst + 1) (src + 1) in if m src == 0 then some m' else rest

unfoldable pub strcpy : ℕ → Mem → ℕ → ℕ → Option (ℕ × Mem)
strcpy fuel m dst src = Option.map (λ m'. (dst, m')) (copy_str fuel m dst src)

-- `while (--n > 0) *dst++ = '\0';`, entered with `n + 1`.
unfoldable pub pad_zero : ℕ → Mem → ℕ → Mem
pad_zero zero m dst = m
pad_zero (suc n) m dst = pad_zero n (store m dst 0) (dst + 1)

unfoldable pub strncpy_loop : ℕ → Mem → ℕ → ℕ → Mem
strncpy_loop zero m dst src = m
strncpy_loop (suc n) m dst src =
    let m' = store m dst (m src) in
    let rest = strncpy_loop n m' (dst + 1) (src + 1) in
    if m src == 0 then pad_zero n m' (dst + 1) else rest

unfoldable pub strncpy : Mem → ℕ → ℕ → ℕ → ℕ × Mem
strncpy m dst src n = (dst, strncpy_loop n m dst src)

unfoldable pub strcat : ℕ → Mem → ℕ → ℕ → Option (ℕ × Mem)
unfolding Option.bind
strcat fuel m dst src =
    Option.bind (find_end fuel m dst)
      (λ end. Option.map (λ m'. (dst, m')) (copy_str fuel m end src))

unfoldable pub strcmp : ℕ → Mem → ℕ → ℕ → Option ℤ
strcmp zero m s1 s2 = none
strcmp (suc fuel) m s1 s2 =
    let rest = strcmp fuel m (s1 + 1) (s2 + 1) in
    if m s1 != 0 && m s1 == m s2 then rest else some (sub_ℕ (m s1) (m s2))

-- The loop leaves with `n == 0` or at a difference or a zero byte.
unfoldable pub strncmp_loop : ℕ → Mem → ℕ → ℕ → ℤ
strncmp_loop zero m s1 s2 = pos 0
strncmp_loop (suc n) m s1 s2 =
    let rest = strncmp_loop n m (s1 + 1) (s2 + 1) in
    if m s1 != 0 && m s1 == m s2 then rest else sub_ℕ (m s1) (m s2)

unfoldable pub strncmp : Mem → ℕ → ℕ → ℕ → ℤ
strncmp m s1 s2 n = if n == 0 then pos 0 else strncmp_loop n m s1 s2

unfoldable pub memset_loop : ℕ → Mem → ℕ → ℕ → Mem
memset_loop zero m p c = m
memset_loop (suc n) m p c = memset_loop n (store m p (c % 256)) (p + 1) c

-- `c` is an `int`, given by its bit pattern.
unfoldable pub memset : Mem → ℕ → ℕ → ℕ → ℕ × Mem
memset m s c n = (s, memset_loop n m s c)

-- `while (n--) *d++ = *s++;`
unfoldable pub copy_up : ℕ → Mem → ℕ → ℕ → Mem
copy_up zero m d s = m
copy_up (suc n) m d s = copy_up n (store m d (m s)) (d + 1) (s + 1)

-- `while (n--) *(--d) = *(--s);`
unfoldable pub copy_down : ℕ → Mem → ℕ → ℕ → Mem
copy_down zero m d s = m
copy_down (suc n) m d s = copy_down n (store m (d - 1) (m (s - 1))) (d - 1) (s - 1)

unfoldable pub memmove : Mem → ℕ → ℕ → ℕ → ℕ × Mem
memmove m dst src n =
    (dst, if ltb dst src then copy_up n m dst src else copy_down n m (dst + n) (src + n))

unfoldable pub memcpy : Mem → ℕ → ℕ → ℕ → ℕ × Mem
memcpy m out src n = (out, copy_up n m out src)

unfoldable pub memcmp : ℕ → Mem → ℕ → ℕ → ℤ
memcmp zero m p1 p2 = pos 0
memcmp (suc n) m p1 p2 =
    let rest = memcmp n m (p1 + 1) (p2 + 1) in if m p1 != m p2 then sub_ℕ (m p1) (m p2) else rest

-- A `char` is promoted as on RISC-V, where it is unsigned; `c` is the bit pattern of an `int`.
unfoldable pub strchr : ℕ → Mem → ℕ → ℕ → Option ℕ
strchr zero m s c = none
strchr (suc fuel) m s c =
    let rest = strchr fuel m (s + 1) c in
    if m s == c then some s else if m s == 0 then some null else rest

-- The walk down from `p = s + k`.
unfoldable pub strrchr_loop : ℕ → Mem → ℕ → ℕ → ℕ
strrchr_loop zero m s c = if m s == c then s else null
strrchr_loop (suc k) m s c =
    let rest = strrchr_loop k m s c in if m (s + suc k) == c then s + suc k else rest

unfoldable pub strrchr : ℕ → Mem → ℕ → ℕ → Option ℕ
strrchr fuel m s c = Option.map (λ k. strrchr_loop k m s c) (strlen fuel m s)
