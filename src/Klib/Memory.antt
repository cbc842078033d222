-- ===== src/Klib/Memory.antt =====
-- Flat byte memory, as the klib routines see it: pointers are addresses, `NULL` is 0, and no
-- object wraps around the end of the address space.
use abstract_machine.Base.{
  ℕ, zero, suc, ◌+◌, ◌<◌, ◌≤◌, ◌≡◌, ◌≢◌, Bool, List, [], ◌∷◌, ◌&&◌, ◌⊎◌, arith, ltb, leb, ◌==◌,
  if◌then◌else◌,
}
use abstract_machine.Base.Lists.{length}

abbrev pub Mem : Type 0
Mem = ℕ → ℕ

abbrev pub null : ℕ
null = 0

-- `*p = v`, with `v` a byte already.
unfoldable pub store : Mem → ℕ → ℕ → Mem
store m p v = λ a. if a == p then v else m a

-- The address lies in the block of `n` bytes at `p`.
abbrev pub within : ℕ → ℕ → ℕ → Bool
within a p n = leb p a && ltb a (p + n)

-- The bytes `l`, none of them zero, stand at `p` and a zero byte follows them.
abbrev pub StrAt : Mem → ℕ → List ℕ → Type 0
StrAt m p [] = m p ≡ 0
StrAt m p (c ∷ cs) = (m p ≡ c) × (c ≢ 0) × StrAt m (p + 1) cs

-- The bytes `l` stand at `p`.
abbrev pub BytesAt : Mem → ℕ → List ℕ → Type 0
BytesAt m p [] = Unit {0}
BytesAt m p (c ∷ cs) = (m p ≡ c) × BytesAt m (p + 1) cs

-- A string moves with its bytes, the terminator included.
pub StrAt-move :
    (m m' : Mem) (s d : ℕ) (l : List ℕ)
    → StrAt m s l
    → ((i : ℕ) → i ≤ length l → m' (d + i) ≡ m (s + i))
    → StrAt m' d l
StrAt-move m m' s d [] h same = ground (arith, same 0)
StrAt-move m m' s d (c ∷ cs) h same = (
  ground (arith, same 0),
  h.1,
  StrAt-move m m' (s + 1) (d + 1) cs h.2 (λ i le. ground (arith, same (suc i))),
)

-- A store off the string leaves it alone.
pub StrAt-store :
    (m : Mem) (s a v : ℕ) (l : List ℕ)
    → StrAt m s l
    → (a < s) ⊎ (s + length l < a)
    → StrAt (store m a v) s l
unfolding store
StrAt-store m s a v l h off = StrAt-move m (store m a v) s s l h (λ i le. ground arith)

-- Every byte before the terminator is nonzero, and the terminator is zero.
pub StrAt-byte :
    (m : Mem) (s : ℕ) (l : List ℕ) (i : ℕ)
    → StrAt m s l
    → ((i < length l) → m (s + i) ≢ 0) × ((i ≡ length l) → m (s + i) ≡ 0)
StrAt-byte m s [] i h = (λ lt. absurd (omega arith), λ e. ground arith)
StrAt-byte m s (c ∷ cs) zero h = ground arith
StrAt-byte m s (c ∷ cs) (suc i) h = ground (arith, StrAt-byte m (s + 1) cs i h.2)
