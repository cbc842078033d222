-- ===== src/Klib/String/Block.antt =====
-- memcpy, memmove, memset and memcmp on blocks of bytes.
use abstract_machine.Base.{
  ℕ, zero, suc, ◌+◌, ◌-◌, ◌%◌, ◌<◌, ◌≤◌, ◌≡◌, ◌≢◌, ◌⊎◌, ◌↔◌, refl, arith, if◌then◌else◌,
}
use abstract_machine.Base.Int.{pos, sub_ℕ}
use abstract_machine.Klib.Memory.{Mem, store, within}
use abstract_machine.Klib.String.{copy_up, copy_down, memmove, memcpy, memset_loop, memset, memcmp}

-- What a copy of `n` bytes from `s` to `d` leaves at `a`, by the memory before.
abbrev pub copied : ℕ → Mem → ℕ → ℕ → ℕ → ℕ
copied n m d s a = if within a d n then m (a - d + s) else m a

-- Upwards is right unless the destination starts inside the source, behind its start.
pub copy_up_lem :
    (n : ℕ) (m : Mem) (d s a : ℕ) → (d ≤ s) ⊎ (s + n ≤ d) → copy_up n m d s a ≡ copied n m d s a
unfolding copy_up store
copy_up_lem zero m d s a h = ground arith
copy_up_lem (suc n) m d s a h = ground (arith, copy_up_lem n (store m d (m s)) (d + 1) (s + 1) a)

-- Downwards is right unless the source starts inside the destination, behind its start.
pub copy_down_lem :
    (n : ℕ) (m : Mem) (d s a : ℕ)
    → (s ≤ d) ⊎ (d + n ≤ s)
    → copy_down n m (d + n) (s + n) a ≡ copied n m d s a
unfolding copy_down store
copy_down_lem zero m d s a h = ground arith
copy_down_lem (suc n) m d s a h =
    let e : d + suc n - 1 ≡ d + n = omega arith in
    let e' : s + suc n - 1 ≡ s + n = omega arith in
    rw (e, e') (ground (arith, copy_down_lem n (store m (d + n) (m (s + n))) d s a))

-- memmove returns its destination. Whether the blocks overlap or not, each byte of the destination
-- holds what the source held before the call, and no other byte changes.
pub memmove-copied :
    (m : Mem) (dst src n a : ℕ)
    → ((memmove m dst src n).0 ≡ dst) × ((memmove m dst src n).1 a ≡ copied n m dst src a)
unfolding memmove
memmove-copied m dst src n a =
    (refl, ground (arith, copy_up_lem n m dst src a, copy_down_lem n m dst src a))

-- Where the two blocks share no byte, memcpy leaves the same memory as memmove.
pub memcpy-memmove :
    (m : Mem) (out src n a : ℕ)
    → (out + n ≤ src) ⊎ (src + n ≤ out)
    → (memcpy m out src n).1 a ≡ (memmove m out src n).1 a
unfolding memcpy
memcpy-memmove m out src n a h =
    ground (arith, memmove-copied m out src n a, copy_up_lem n m out src a)

pub memset_loop_lem :
    (n : ℕ) (m : Mem) (p c a : ℕ) → memset_loop n m p c a ≡ (if within a p n then c % 256 else m a)
unfolding memset_loop store
memset_loop_lem zero m p c a = ground arith
memset_loop_lem (suc n) m p c a =
    ground (arith, memset_loop_lem n (store m p (c % 256)) (p + 1) c a)

-- memset returns its block, fills it with the low byte of `c`, and changes no other byte.
pub memset_lem :
    (m : Mem) (s c n a : ℕ)
    → ((memset m s c n).0 ≡ s) × ((memset m s c n).1 a ≡ (if within a s n then c % 256 else m a))
unfolding memset
memset_lem m s c n a = (refl, memset_loop_lem n m s c a)

memcmp-zero : (n : ℕ) (m : Mem) (p q i : ℕ) → memcmp n m p q ≡ pos 0 → i < n → m (p + i) ≡ m (q + i)
unfolding memcmp
memcmp-zero zero m p q i h lt = absurd (omega arith)
memcmp-zero (suc n) m p q zero h lt = ground arith
memcmp-zero (suc n) m p q (suc i) h lt = ground (arith, memcmp-zero n m (p + 1) (q + 1) i)

zero-memcmp :
    (n : ℕ) (m : Mem) (p q : ℕ) → ((i : ℕ) → i < n → m (p + i) ≡ m (q + i)) → memcmp n m p q ≡ pos 0
unfolding memcmp
zero-memcmp zero m p q h = refl
zero-memcmp (suc n) m p q h =
    ground (arith, h 0, zero-memcmp n m (p + 1) (q + 1) (λ i lt. ground (arith, h (suc i))))

-- memcmp answers 0 exactly when the two blocks hold the same bytes.
pub memcmp-zero_iff :
    (n : ℕ) (m : Mem) (p q : ℕ)
    → (memcmp n m p q ≡ pos 0) ↔ ((i : ℕ) → i < n → m (p + i) ≡ m (q + i))
memcmp-zero_iff n m p q = ((λ h i. memcmp-zero n m p q i h), zero-memcmp n m p q)

-- Where the blocks first differ within `n` bytes, memcmp answers the difference of the two bytes
-- there, as unsigned numbers.
pub memcmp_first_difference :
    (n : ℕ) (m : Mem) (p q i : ℕ)
    → i < n
    → ((j : ℕ) → j < i → m (p + j) ≡ m (q + j))
    → m (p + i) ≢ m (q + i)
    → memcmp n m p q ≡ sub_ℕ (m (p + i)) (m (q + i))
unfolding memcmp
memcmp_first_difference zero m p q i lt same ne = absurd (omega arith)
memcmp_first_difference (suc n) m p q zero lt same ne = ground arith
memcmp_first_difference (suc n) m p q (suc i) lt same ne = ground (
  arith,
  same 0,
  memcmp_first_difference n m (p + 1) (q + 1) i (omega arith)
      (λ j lt'. ground (arith, same (suc j))) (ground arith),
)
