-- ===== src/Klib/String/Copy.antt =====
-- strcpy, strcat and strncpy on strings that stand in memory.
use abstract_machine.Base.{
  ℕ, zero, suc, ◌+◌, ◌-◌, ◌<◌, ◌≤◌, ◌≡◌, ◌⊎◌, refl, sym, arith, ltb, ◌++◌, if◌then◌else◌, List, [],
  ◌∷◌, some, false,
}
use native.Mathlib.Nat.{add-zero}
use abstract_machine.Base.Lists.{length}
use abstract_machine.Klib.Memory.{Mem, store, within, StrAt, StrAt-move, StrAt-store}
use abstract_machine.Klib.String.{
  copy_up, copy_str, strcpy, strcat, pad_zero, strncpy_loop, strncpy,
}
use abstract_machine.Klib.String.Length.{find_end_lem}
use abstract_machine.Klib.String.Block.{copy_up_lem}

-- On a string the copy up to the zero byte is the copy of its length and one.
copy_str-copy_up :
    (fuel : ℕ) (m : Mem) (d s : ℕ) (l : List ℕ)
    → StrAt m s l
    → (d ≤ s) ⊎ (s + length l < d)
    → length l < fuel
    → copy_str fuel m d s ≡ some (copy_up (suc (length l)) m d s)
unfolding copy_str copy_up
copy_str-copy_up zero m d s l h off lt = absurd (omega arith)
copy_str-copy_up (suc fuel) m d s [] h off lt = ground arith
copy_str-copy_up (suc fuel) m d s (c ∷ cs) h off lt = ground (
  arith,
  copy_str-copy_up fuel (store m d (m s)) (d + 1) (s + 1) cs
      (StrAt-store m (s + 1) d (m s) cs h.2 (omega arith)) (omega arith) (omega arith),
)

-- What a routine that writes a string owes: it returns `d`, the string `l` stands at `d`, and only
-- the `n` bytes at `w` may have changed.
pub record Written (m : Mem) (d : ℕ) (l : List ℕ) (w n : ℕ) (m' : Mem) : Type 0 where
  pub stands : StrAt m' d l
  pub others : (a : ℕ) → within a w n ≡ false → m' a ≡ m a

-- Given fuel beyond the string's length and a destination anywhere but behind the start of the
-- source inside it, strcpy returns `dst`; the string then stands there and only its bytes and the
-- zero were written.
pub strcpy-Written :
    (fuel : ℕ) (m : Mem) (dst src : ℕ) (l : List ℕ)
    → StrAt m src l
    → (dst ≤ src) ⊎ (src + length l < dst)
    → length l < fuel
    → (m' : Mem) × (strcpy fuel m dst src ≡ some (dst, m'))
      × Written m dst l dst (suc (length l)) m'
unfolding strcpy
strcpy-Written fuel m dst src l h off lt = (
  copy_up (suc (length l)) m dst src,
  rw (copy_str-copy_up fuel m dst src l h off lt),
  record {
    stands =
        StrAt-move m (copy_up (suc (length l)) m dst src) src dst l h
          (λ i le. ground (arith, copy_up_lem (suc (length l)) m dst src (dst + i)));
    others = λ a out. ground (arith, copy_up_lem (suc (length l)) m dst src a);
  },
)

-- A string whose bytes are kept, followed by another where its zero byte stood.
StrAt-append :
    (m m' : Mem) (p : ℕ) (k l : List ℕ)
    → StrAt m p k
    → ((i : ℕ) → i < length k → m' (p + i) ≡ m (p + i))
    → StrAt m' (p + length k) l
    → StrAt m' p (k ++ l)
StrAt-append m m' p [] l h same g = rw (sym (add-zero p)) g
StrAt-append m m' p (c ∷ cs) l h same g =
    let e : p + suc (length cs) ≡ p + 1 + length cs = omega arith in
    (
      ground (arith, same 0),
      h.1,
      StrAt-append m m' (p + 1) cs l h.2 (λ i lt. ground (arith, same (suc i))) (rw e at g),
    )

-- Given fuel beyond both lengths and a second string that ends before the place where it is
-- written, or starts behind the byte that is written first, strcat returns `dst`, leaves the first
-- string followed by the second there, and writes only over the first string's zero byte and behind
-- it.
pub strcat-Written :
    (fuel : ℕ) (m : Mem) (dst src : ℕ) (k l : List ℕ)
    → StrAt m dst k
    → StrAt m src l
    → (dst + length k ≤ src) ⊎ (src + length l < dst + length k)
    → length k < fuel
    → length l < fuel
    → (m' : Mem) × (strcat fuel m dst src ≡ some (dst, m'))
      × Written m dst (k ++ l) (dst + length k) (suc (length l)) m'
unfolding strcat strcpy
strcat-Written fuel m dst src k l hk hl off ltk ltl =
    let end = dst + length k in
    let m' = copy_up (suc (length l)) m end src in
    let copied_at = λ (a : ℕ). copy_up_lem (suc (length l)) m end src a (omega arith) in
    (
      m',
      rw (find_end_lem fuel m dst k hk ltk, copy_str-copy_up fuel m end src l hl off ltl),
      record {
        stands =
            StrAt-append m m' dst k l hk (λ i lt. ground (arith, copied_at (dst + i)))
              (StrAt-move m m' src end l hl (λ i le. ground (arith, copied_at (end + i))));
        others = λ a out. ground (arith, copied_at a);
      },
    )

pad_zero_lem : (n : ℕ) (m : Mem) (d a : ℕ) → pad_zero n m d a ≡ (if within a d n then 0 else m a)
unfolding pad_zero store
pad_zero_lem zero m d a = ground arith
pad_zero_lem (suc n) m d a = ground (arith, pad_zero_lem n (store m d 0) (d + 1) a)

-- Byte `i` of what strncpy makes of the string of length `len` at `src`.
abbrev pub padded : Mem → ℕ → ℕ → ℕ → ℕ
padded m src len i = if ltb i len then m (src + i) else 0

strncpy_loop_lem :
    (n : ℕ) (m : Mem) (d s : ℕ) (l : List ℕ) (a : ℕ)
    → StrAt m s l
    → (d ≤ s) ⊎ (s + length l < d)
    → strncpy_loop n m d s a ≡ (if within a d n then padded m s (length l) (a - d) else m a)
unfolding strncpy_loop store
strncpy_loop_lem zero m d s l a h off = ground arith
strncpy_loop_lem (suc n) m d s [] a h off =
    ground (arith, pad_zero_lem n (store m d (m s)) (d + 1) a)
strncpy_loop_lem (suc n) m d s (c ∷ cs) a h off = ground (
  arith,
  strncpy_loop_lem n (store m d (m s)) (d + 1) (s + 1) cs a
      (StrAt-store m (s + 1) d (m s) cs h.2 (omega arith)) (omega arith),
)

-- Given a string as the source and a destination anywhere but behind the start of the source inside
-- it, strncpy returns `dst` and writes exactly the `n` bytes there: the string, cut off at `n`
-- bytes with no zero behind it, or filled up with zeros.
pub strncpy-padded :
    (m : Mem) (dst src n : ℕ) (l : List ℕ) (a : ℕ)
    → StrAt m src l
    → (dst ≤ src) ⊎ (src + length l < dst)
    → ((strncpy m dst src n).0 ≡ dst)
      × ((strncpy m dst src n).1 a
          ≡ (if within a dst n then padded m src (length l) (a - dst) else m a))
unfolding strncpy
strncpy-padded m dst src n l a h off = (refl, strncpy_loop_lem n m dst src l a h off)
