-- ===== src/Riscv/Priv.antt =====
-- am/src/riscv/test-support/priv.c: the window that lets the lower modes at the memory, with
-- DRAM_BASE and DRAM_SIZE of the build as `base` and `size`.
pub mod Window
use abstract_machine.Base.{ℕ, ◌+◌, ◌-◌, ◌/◌, ◌^◌, bit_and, ◌==◌, ◌&&◌, leb, if◌then◌else◌}
use abstract_machine.Riscv.Outcome.{Run, ◌>>=◌, ◌>>◌}
use abstract_machine.Riscv.Page.Words.{u64}
use abstract_machine.Riscv.Pmp.{Registers, pmp_clear_all, pmp_set_addr, pmp_set_napot, pmp_set_tor}

-- PMP_R | PMP_W | PMP_X
abbrev pub pmp_rwx : ℕ
pmp_rwx = 7

unfoldable pub priv_allow_dram : ℕ → ℕ → Run Registers (Unit {0})
priv_allow_dram base size = do
  pmp_clear_all
  if leb 8 size && bit_and size (size - 1) == 0 && bit_and base (size - 1) == 0
      then pmp_set_napot 0 base size pmp_rwx
      else do pmp_set_addr 0 (base / 2 ^ 2); pmp_set_tor 1 (u64 (base + size)) pmp_rwx
