-- ===== src/Riscv/Pmp/Napot.antt =====
-- The address of a NAPOT entry, and the guards of pmp_set_napot.
use abstract_machine.Base.{
  ℕ, zero, suc, ◌+◌, ◌-◌, ◌*◌, ◌/◌, ◌%◌, ◌^◌, ◌<◌, ◌≤◌, ◌≡◌, ◌≢◌, inl, inr, refl, arith, bit_and,
  bit_or, if◌then◌else◌, ◌==◌, ltb, leb, ◌&&◌, ◌||◌, ◌!=◌, Bool-cases, Bool, true, false, ap, ◌∙◌,
}
use abstract_machine.Base.Bits.{bit_or-shifted, bit_and-low_ones, mul-pow_suc, half_high}
use abstract_machine.Riscv.Outcome.{ok}
use abstract_machine.Riscv.Page.Words.{u64, shl, clear_bits}
use abstract_machine.Riscv.Pmp.{
  Registers, pmp_set_cfg, pmp_set_addr, pmp_napot_addr, pmp_set_napot, pmp_rwxl, pmp_a_napot,
}
use native.Mathlib.Nat.{
  pow-suc, one-le-pow, div-add-mod', mul-le-mul_right, mod-lt, suc-mul, pow-le-pow_right, mod_self,
  mul-mod_left,
}

-- Which words, of four bytes, a NAPOT address covers, by the privileged architecture: each low one
-- of the address frees a bit of the word's number, and so does the zero above them.
unfoldable pub covers : ℕ → ℕ → ℕ → Bool
covers zero a w = true
covers (suc fuel) a w =
    let rest = covers fuel (a / 2) (w / 2) in if a % 2 == 0 then a / 2 == w / 2 else rest

covers_lem :
    (fuel k q w : ℕ) → k < fuel → covers fuel (q * 2 ^ suc k + (2 ^ k - 1)) w ≡ (q == w / 2 ^ suc k)
unfolding covers
covers_lem zero k q w h = absurd (omega arith)
covers_lem (suc fuel) zero q w h = ground arith
covers_lem (suc fuel) (suc k) q w h = ground (
  arith,
  mul-pow_suc q (suc k),
  pow-suc 2 k,
  one-le-pow k 2,
  half_high (suc k) w,
  covers_lem fuel k q (w / 2),
)

-- The size 8 * 2 ^ k, as pmp_set_napot is given it.
abbrev pub napot_size : ℕ → ℕ
napot_size k = 2 ^ suc (suc (suc k))

napot_addr_lem :
    (k q : ℕ)
    → napot_size k < 2 ^ 64
    → pmp_napot_addr (q * napot_size k) (napot_size k) ≡ q * 2 ^ suc k + (2 ^ k - 1)
unfolding pmp_napot_addr
napot_addr_lem k q g =
    let eight : napot_size k ≡ 8 * 2 ^ k =
      omega (arith, pow-suc 2 (suc (suc k)), pow-suc 2 (suc k), pow-suc 2 k) in
    let scaled : q * napot_size k ≡ 4 * (q * 2 ^ suc k) =
      omega (arith, mul-pow_suc q (suc (suc k)), mul-pow_suc q (suc k)) in
    let high : q * napot_size k / 4 ≡ q * 2 ^ suc k = omega (arith, scaled) in
    let low : u64 (napot_size k + (2 ^ 64 - 1)) / 8 ≡ 2 ^ k - 1 =
      omega (arith, eight, g, one-le-pow k 2) in
    rw (high, low)
      (bit_or-shifted (suc k) q (2 ^ k - 1) (omega (arith, pow-suc 2 k, one-le-pow k 2)))

-- The multiples of a size cut the numbers into blocks.
in_block :
    (size q x : ℕ) → 0 < size → (q == x / size) ≡ (leb (q * size) x && ltb x (q * size + size))
in_block size q x pos =
    let y = x / size in
    let whole = div-add-mod' x size in
    let rest : x % size < size = mod-lt x pos in
    let up = λ (h : suc q ≤ y). mul-le-mul_right {m = suc q} {n = y} size h in
    let down = λ (h : suc y ≤ q). mul-le-mul_right {m = suc y} {n = q} size h in
    let one : suc q * size ≡ q * size + size = suc-mul q size in
    let two : suc y * size ≡ y * size + size = suc-mul y size in
    ground (arith, whole, rest, up, down, one, two)

-- For a region of a size that is a power of two, at least 8 and below 2 ^ 64, at an address that is a
-- multiple of it, pmp_napot_addr gives an address that covers exactly the words of the region, as
-- the architecture reads a NAPOT address with enough bits to hold its ones.
pub pmp_napot_addr-covers :
    (fuel k q x : ℕ)
    → k < fuel
    → napot_size k < 2 ^ 64
    → covers fuel (pmp_napot_addr (q * napot_size k) (napot_size k)) (x / 4)
      ≡ (leb (q * napot_size k) x && ltb x (q * napot_size k + napot_size k))
pmp_napot_addr-covers fuel k q x h g =
    let words : x / 4 / 2 ^ suc k ≡ x / napot_size k =
      ap (λ (t : ℕ). t / 2 ^ suc k) (omega arith)
      ∙ half_high (suc k) (x / 2)
      ∙ half_high (suc (suc k)) x in
    rw (napot_addr_lem k q g, covers_lem fuel k q (x / 4) h, words)
      (in_block (napot_size k) q x (one-le-pow (suc (suc (suc k))) 2 (omega arith)))

set_cfg-ok :
    (idx cfg : ℕ) (s : Registers)
    → idx < 16
    → (t : Registers) × (pmp_set_cfg idx cfg s ≡ ok (tt, t)) × (t.pmpaddr ≡ s.pmpaddr)
unfolding pmp_set_cfg
set_cfg-ok idx cfg s h =
    let off = bit_and idx 7 * 8 in
    let mask = shl 0xff off in
    elim (Bool-cases (idx / 8 == 0)) [
      | inl low ↦ (
        record s { pmpcfg0 = bit_or (clear_bits s.pmpcfg0 mask) (shl cfg off) },
        rw low refl,
        refl,
      )
      | inr high ↦
          let second : (idx / 8 == 1) ≡ true = ground arith in
          (
            record s { pmpcfg2 = bit_or (clear_bits s.pmpcfg2 mask) (shl cfg off) },
            rw (high, second) refl,
            refl,
          )
    ]

module _ (k : ℕ) (k_ok : k < 61) where
  size_fits : napot_size k < 2 ^ 64
  size_fits =
      omega (
        arith,
        pow-le-pow_right {n = 2} (omega arith) {i = suc (suc (suc k))} {j = 63} (omega arith),
      )

  less_one : u64 (napot_size k + (2 ^ 64 - 1)) ≡ napot_size k - 1
  less_one = omega (arith, size_fits, one-le-pow (suc (suc (suc k))) 2 (omega arith))

  size_test :
      (ltb (napot_size k) 8 || bit_and (napot_size k) (u64 (napot_size k + (2 ^ 64 - 1))) != 0)
      ≡ false
  size_test =
      let masked : bit_and (napot_size k) (napot_size k - 1) ≡ 0 =
        bit_and-low_ones (suc (suc (suc k))) (napot_size k) ∙ mod_self (napot_size k) in
      let big : (ltb (napot_size k) 8) ≡ false = ground (
        arith,
        pow-suc 2 (suc (suc k)),
        pow-suc 2 (suc k),
        pow-suc 2 k,
        one-le-pow k 2 (omega arith),
      ) in
      rw (less_one, masked, big) refl

  align_test :
      (base : ℕ)
      → (bit_and base (u64 (napot_size k + (2 ^ 64 - 1))) != 0) ≡ (base % napot_size k != 0)
  align_test base = rw less_one (ground (arith, bit_and-low_ones (suc (suc (suc k))) base))

-- For one of the sixteen entries, a size of 2 ^ 3 to 2 ^ 63 that is a power of two, and a base that
-- is a multiple of it, pmp_set_napot returns. Then the entry's address, read as a NAPOT address,
-- covers exactly the words of the region, and the address of every other entry is as before.
pub pmp_set_napot-covers :
    (s : Registers) (idx k q cfg : ℕ)
    → idx < 16
    → k < 61
    → (t : Registers) × (pmp_set_napot idx (q * napot_size k) (napot_size k) cfg s ≡ ok (tt, t))
      × ((x : ℕ)
          → covers 64 (t.pmpaddr idx) (x / 4)
            ≡ (leb (q * napot_size k) x && ltb x (q * napot_size k + napot_size k)))
      × ((i : ℕ) → i ≢ idx → t.pmpaddr i ≡ s.pmpaddr i)
unfolding pmp_set_napot pmp_set_addr
pmp_set_napot-covers s idx k q cfg idx_ok k_ok =
    let base = q * napot_size k in
    let fits = size_fits k k_ok in
    let aligned : (bit_and base (u64 (napot_size k + (2 ^ 64 - 1))) != 0) ≡ false =
      align_test k k_ok base ∙ ground (arith, mul-mod_left q (napot_size k)) in
    let t1 = record s {
      pmpaddr = λ i. if i == idx then pmp_napot_addr base (napot_size k) else s.pmpaddr i;
    } in
    let added : pmp_set_addr idx (pmp_napot_addr base (napot_size k)) s ≡ ok (tt, t1) =
      ground arith in
    let (t, sets, same) = set_cfg-ok idx (bit_or (bit_and cfg pmp_rwxl) pmp_a_napot) t1 idx_ok in
    (
      t,
      rw (size_test k k_ok, aligned) (rw added sets),
      λ x. rw same (ground (arith, pmp_napot_addr-covers 64 k q x (omega arith) fits)),
      λ i ne. rw same (ground arith),
    )
