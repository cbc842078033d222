-- ===== src/Riscv/Pmp/Match.antt =====
-- Which entry of physical memory protection decides about an access, by the privileged architecture:
-- the one with the lowest number that matches the address.
use abstract_machine.Base.{
  ℕ, zero, suc, ◌+◌, ◌-◌, ◌*◌, ◌/◌, ◌%◌, ◌^◌, ◌<◌, ◌≤◌, ◌≡◌, ◌≢◌, Bool, true, false, Option, none,
  some, ltb, leb, ◌==◌, ◌&&◌, refl, arith, if◌then◌else◌, Bool-cases, inl, inr,
}
use abstract_machine.Riscv.Pmp.{Registers}
use abstract_machine.Riscv.Pmp.Napot.{covers}

-- The byte of an entry in the configuration registers.
unfoldable pub config_of : ℕ → ℕ → ℕ → ℕ
config_of cfg0 cfg2 i = (if ltb i 8 then cfg0 else cfg2) / 2 ^ (8 * (i % 8)) % 256

abbrev pub config : Registers → ℕ → ℕ
config s i = config_of s.pmpcfg0 s.pmpcfg2 i

-- The bottom of a TOR entry.
abbrev pub bottom : Registers → ℕ → ℕ
bottom s i = if i == 0 then 0 else s.pmpaddr (i - 1)

-- The entry `i` matches the word `w`, of four bytes: its mode is OFF, TOR, NA4 or NAPOT.
unfoldable pub matches : Registers → ℕ → ℕ → Bool
matches s i w =
    let mode = config s i / 8 % 4 in
    if mode == 0
    then false
    else if mode == 1
    then leb (bottom s i) w && ltb w (s.pmpaddr i)
    else if mode == 2
    then s.pmpaddr i == w
    else covers 64 (s.pmpaddr i) w

-- The permissions of the first of the last `n` entries that matches.
unfoldable pub permissions_from : ℕ → Registers → ℕ → Option ℕ
permissions_from zero s w = none
permissions_from (suc n) s w =
    let rest = permissions_from n s w in
    if matches s (15 - n) w then some (config s (15 - n) % 8) else rest

abbrev pub permissions : Registers → ℕ → Option ℕ
permissions s w = permissions_from 16 s w

pub permissions_none :
    (n : ℕ) (s : Registers) (w : ℕ)
    → ((i : ℕ) → i < 16 → matches s i w ≡ false)
    → permissions_from n s w ≡ none
unfolding permissions_from
permissions_none zero s w h = refl
permissions_none (suc n) s w h = rw (h (15 - n) (omega arith)) (permissions_none n s w h)

pub permissions_first :
    (n j : ℕ) (s : Registers) (w : ℕ)
    → n ≤ 16
    → j < 16
    → 15 < j + n
    → matches s j w ≡ true
    → ((i : ℕ) → i < j → matches s i w ≡ false)
    → permissions_from n s w ≡ some (config s j % 8)
unfolding permissions_from
permissions_first zero j s w le lt in_range m before = absurd (omega arith)
permissions_first (suc n) j s w le lt in_range m before = elim (Bool-cases (15 - n == j)) [
  | inl e ↦ let here : 15 - n ≡ j = ground arith in rw here (rw m refl)
  | inr e ↦
      let less : 15 - n < j = ground arith in
      let rest = permissions_first n j s w (omega arith) lt (omega arith) m before in
      rw (before (15 - n) less) rest
]

-- A byte of zero is an entry that is off.
pub off-matches : (s : Registers) (i w : ℕ) → config s i / 8 % 4 ≡ 0 → matches s i w ≡ false
unfolding matches
off-matches s i w e = rw e refl

pub tor-matches :
    (s : Registers) (i w : ℕ)
    → config s i / 8 % 4 ≡ 1
    → matches s i w ≡ (leb (bottom s i) w && ltb w (s.pmpaddr i))
unfolding matches
tor-matches s i w e = rw e refl

pub napot-matches :
    (s : Registers) (i w : ℕ) → config s i / 8 % 4 ≡ 3 → matches s i w ≡ covers 64 (s.pmpaddr i) w
unfolding matches
napot-matches s i w e = rw e refl

but_one :
    (s : Registers) (n i w : ℕ)
    → matches s i w ≡ false
    → (n ≢ i → matches s n w ≡ false)
    → matches s n w ≡ false
but_one s n i w m f = elim (Bool-cases (n == i)) [
  | inl e ↦ let z : n ≡ i = ground arith in rw z m
  | inr e ↦ f (λ z. ground arith)
]

-- Where all entries but two are off, the lower one of the two decides, and then the other one.
pub two_entries :
    (s : Registers) (i j w : ℕ)
    → i < j
    → j < 16
    → ((n : ℕ) → n < 16 → n ≢ i → n ≢ j → matches s n w ≡ false)
    → permissions s w ≡ (
        if matches s i w
        then some (config s i % 8)
        else if matches s j w
        then some (config s j % 8)
        else none)
two_entries s i j w lt in_range off = elim (Bool-cases (matches s i w)) [
  | inl m ↦ rw m (
      permissions_first 16 i s w (omega arith) (omega arith) (omega arith) m (λ n less.
        off n (omega arith) (λ e. absurd (omega (arith, e))) (λ e. absurd (omega (arith, e)))))
  | inr m ↦ rw m (elim (Bool-cases (matches s j w)) [
    | inl k ↦ rw k (
        permissions_first 16 j s w (omega arith) (omega arith) (omega arith) k (λ n less.
          but_one s n i w m (λ ne. off n (omega arith) ne (λ e. absurd (omega (arith, e))))))
    | inr k ↦ rw k (
        permissions_none 16 s w
          (λ n less. but_one s n i w m (λ ne. but_one s n j w k (λ nj. off n less ne nj))))
  ])
]
