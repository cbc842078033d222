-- ===== src/Riscv/Pmp.antt =====
-- am/src/riscv/test-support/pmp.c: the entries of physical memory protection. The registers keep
-- the value that is written to them.
pub mod Napot
pub mod Match
pub mod Region
pub mod Config
use abstract_machine.Base.{
  ℕ, zero, suc, ◌+◌, ◌-◌, ◌*◌, ◌/◌, ◌^◌, bit_and, bit_or, ◌==◌, ◌!=◌, ◌||◌, ltb, if◌then◌else◌,
}
use abstract_machine.Riscv.Outcome.{Run, ◌>>=◌, ◌>>◌, pure, get, modify, test_fail}
use abstract_machine.Riscv.Page.Words.{u64, shl, clear_bits}

-- `pmpaddr i` is the register pmpaddr<i>.
pub record Registers : Type 0 where
  pub pmpaddr : ℕ → ℕ
  pub pmpcfg0 : ℕ
  pub pmpcfg2 : ℕ

unfoldable pub pmp_set_addr : ℕ → ℕ → Run Registers (Unit {0})
pmp_set_addr idx addr_raw =
    if ltb idx 16
    then modify (λ s. record s { pmpaddr = λ i. if i == idx then addr_raw else s.pmpaddr i })
    else test_fail "pmp idx"

unfoldable pub pmp_set_cfg : ℕ → ℕ → Run Registers (Unit {0})
pmp_set_cfg idx cfg = do
  s ← get
  let reg = idx / 2 ^ 3
  let off = bit_and idx 7 * 8
  let mask = shl 0xff off
  if reg == 0
      then modify (λ t. record t { pmpcfg0 = bit_or (clear_bits s.pmpcfg0 mask) (shl cfg off) })
      else if reg == 1
      then modify (λ t. record t { pmpcfg2 = bit_or (clear_bits s.pmpcfg2 mask) (shl cfg off) })
      else test_fail "pmp cfg reg"

-- `for (i = 0; i < count; i++) pmp_set_addr(i, 0);`
unfoldable pub clear_addrs : ℕ → Run Registers (Unit {0})
clear_addrs zero = pure tt
clear_addrs (suc n) = do clear_addrs n; pmp_set_addr n 0

unfoldable pub pmp_clear_all : Run Registers (Unit {0})
unfolding clear_addrs
pmp_clear_all = do modify λ s. record s { pmpcfg0 = 0; pmpcfg2 = 0 }; clear_addrs 16

-- `size - 1UL` wraps around at 0.
unfoldable pub pmp_napot_addr : ℕ → ℕ → ℕ
pmp_napot_addr base size = bit_or (base / 2 ^ 2) (u64 (size + (2 ^ 64 - 1)) / 2 ^ 3)

-- PMP_R | PMP_W | PMP_X | PMP_L
abbrev pub pmp_rwxl : ℕ
pmp_rwxl = 0x87

abbrev pub pmp_a_tor : ℕ
pmp_a_tor = 8

abbrev pub pmp_a_napot : ℕ
pmp_a_napot = 0x18

unfoldable pub pmp_set_napot : ℕ → ℕ → ℕ → ℕ → Run Registers (Unit {0})
unfolding pmp_set_addr pmp_set_cfg
pmp_set_napot idx base size cfg =
    if ltb size 8 || bit_and size (u64 (size + (2 ^ 64 - 1))) != 0
    then test_fail "pmp napot size"
    else if bit_and base (u64 (size + (2 ^ 64 - 1))) != 0
    then test_fail "pmp napot align"
    else do
      pmp_set_addr idx (pmp_napot_addr base size)
      pmp_set_cfg idx (bit_or (bit_and cfg pmp_rwxl) pmp_a_napot)

unfoldable pub pmp_set_tor : ℕ → ℕ → ℕ → Run Registers (Unit {0})
unfolding pmp_set_addr pmp_set_cfg
pmp_set_tor idx top cfg = do
  pmp_set_addr idx (top / 2 ^ 2)
  pmp_set_cfg idx (bit_or (bit_and cfg pmp_rwxl) pmp_a_tor)
