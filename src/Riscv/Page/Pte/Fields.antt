-- ===== src/Riscv/Page/Pte/Fields.antt =====
-- The bit operations on entries and addresses, as arithmetic on their fields.
use abstract_machine.Base.{
  ℕ, ◌+◌, ◌*◌, ◌/◌, ◌%◌, ◌^◌, ◌<◌, ◌≡◌, bit_and, bit_or, ◌&&◌, ◌!=◌, arith, ◌∙◌,
}
use abstract_machine.Base.Bits.{
  bit_and_digit, bit_or_digit, bit_or-one, bit_or-shifted, bit_and-low_ones, bit_or-lt,
}
use abstract_machine.Riscv.Page.Pte.{
  pte_leaf, pte_next, is_valid, is_leaf, pte_address, vpn, accessed_dirty, pte_v, pte_rwx,
  pte_leaf_flags,
}

pub vpn_lem : (va shift : ℕ) → vpn va shift ≡ va / 2 ^ shift % 512
vpn_lem va shift = bit_and-low_ones 9 (va / 2 ^ shift)

and_v : (pte : ℕ) → bit_and pte pte_v ≡ pte % 2
and_v pte = bit_and-low_ones 1 pte

and_rwx : (pte : ℕ) → bit_and pte pte_rwx ≡ pte / 2 % 8 * 2
and_rwx pte = omega (arith, bit_and_digit pte 14, bit_and-low_ones 3 (pte / 2))

pub leaf_flags_lem : (pte : ℕ) → bit_and pte pte_leaf_flags ≡ pte / 2 % 128 * 2
leaf_flags_lem pte = omega (arith, bit_and_digit pte 254, bit_and-low_ones 7 (pte / 2))

pub is_valid_lem : (pte : ℕ) → is_valid pte ≡ (pte % 2 != 0)
unfolding is_valid
is_valid_lem pte = rw (and_v pte)

pub is_leaf_lem : (pte : ℕ) → is_leaf pte ≡ (pte % 2 != 0 && pte / 2 % 8 != 0)
unfolding is_leaf
is_leaf_lem pte = rw (and_v pte, and_rwx pte) (ground arith)

pub pte_address_lem : (pte : ℕ) → pte < 2 ^ 62 → pte_address pte ≡ pte / 1024 * 4096
unfolding pte_address
pte_address_lem pte h = omega arith

pub pte_leaf_lem :
    (pa flags : ℕ)
    → pa < 2 ^ 64
    → flags < 1024
    → pte_leaf pa flags ≡ pa / 4096 * 1024 + flags / 2 * 2 + 1
unfolding pte_leaf
pte_leaf_lem pa flags h g =
    let shifted : pa / 4096 * 1024 % 2 ^ 64 ≡ pa / 4096 * 1024 = omega arith in
    rw (shifted, bit_or-shifted 10 (pa / 4096) flags g, bit_or-one) (omega arith)

pub pte_next_lem : (next : ℕ) → next < 2 ^ 64 → pte_next next ≡ next / 4096 * 1024 + 1
unfolding pte_next
pte_next_lem next h =
    let shifted : next / 4096 * 1024 % 2 ^ 64 ≡ next / 4096 * 1024 = omega arith in
    rw (shifted, bit_or-one) (omega arith)

-- PTE_A and PTE_D leave the low four flags, V, R, W and X, as they are.
or_high : (a b : ℕ) → bit_or a (b * 16) % 16 ≡ a % 16
or_high a b = ground (
  arith,
  bit_or_digit a (b * 16),
  bit_or_digit (a / 2) (b * 8),
  bit_or_digit (a / 2 / 2) (b * 4),
  bit_or_digit (a / 2 / 2 / 2) (b * 2),
)

pub accessed_dirty_low : (flags : ℕ) → accessed_dirty flags % 16 ≡ flags % 16
accessed_dirty_low flags = or_high (bit_or flags 64) 8 ∙ or_high flags 4

pub accessed_dirty-lt : (flags : ℕ) → flags < 1024 → accessed_dirty flags < 1024
accessed_dirty-lt flags h =
    bit_or-lt 10 (bit_or flags 64) 128 (bit_or-lt 10 flags 64 h (omega arith)) (omega arith)
