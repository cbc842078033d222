-- ===== src/Riscv/Page/Pte.antt =====
-- Page table entries of page.c and the fields of a virtual address.
pub mod Fields
use abstract_machine.Base.{ℕ, ◌/◌, ◌^◌, bit_and, bit_or, Bool, ◌&&◌, ◌!=◌}
use abstract_machine.Riscv.Page.Words.{shl}

abbrev pub pte_v : ℕ
pte_v = 1

-- PTE_R | PTE_W | PTE_X
abbrev pub pte_rwx : ℕ
pte_rwx = 0xe

abbrev pub pte_a : ℕ
pte_a = 0x40

abbrev pub pte_d : ℕ
pte_d = 0x80

-- PTE_R | PTE_W | PTE_X | PTE_U | PTE_G | PTE_A | PTE_D
abbrev pub pte_leaf_flags : ℕ
pte_leaf_flags = 0xfe

unfoldable pub pte_leaf : ℕ → ℕ → ℕ
pte_leaf pa flags = bit_or (bit_or (shl (pa / 2 ^ 12) 10) flags) pte_v

unfoldable pub pte_next : ℕ → ℕ
pte_next next = bit_or (shl (next / 2 ^ 12) 10) pte_v

unfoldable pub is_valid : ℕ → Bool
is_valid pte = bit_and pte pte_v != 0

unfoldable pub is_leaf : ℕ → Bool
is_leaf pte = bit_and pte pte_v != 0 && bit_and pte pte_rwx != 0

-- `(pte >> 10) << 12`
unfoldable pub pte_address : ℕ → ℕ
pte_address pte = shl (pte / 2 ^ 10) 12

-- `(va >> shift) & 0x1ff`
abbrev pub vpn : ℕ → ℕ → ℕ
vpn va shift = bit_and (va / 2 ^ shift) 0x1ff

abbrev pub accessed_dirty : ℕ → ℕ
accessed_dirty flags = bit_or (bit_or flags pte_a) pte_d
