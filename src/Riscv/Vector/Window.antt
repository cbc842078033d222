-- ===== src/Riscv/Vector/Window.antt =====
-- vector-test.c: rvv_page_base, rvv_page_offset, and the window without one page that
-- rvv_pmp_deny_page_allow_dram makes, with DRAM_BASE and DRAM_SIZE of the build as `base` and `size`.
use abstract_machine.Base.{ℕ, ◌+◌, bit_and, ltb, ◌==◌, ◌!=◌, if◌then◌else◌}
use abstract_machine.Riscv.Outcome.{Run, ◌>>◌, test_fail, pure}
use abstract_machine.Riscv.Page.Words.{clear_bits}
use abstract_machine.Riscv.Pmp.{Registers, pmp_clear_all, pmp_set_napot, pmp_a_napot}

unfoldable pub rvv_page_base : ℕ → ℕ
rvv_page_base address = clear_bits address 0xfff

unfoldable pub rvv_page_offset : ℕ → ℕ → Run Registers ℕ
rvv_page_offset page offset =
    if bit_and page 0xfff != 0
    then test_fail "assert"
    else if ltb offset 4096
    then pure (page + offset)
    else test_fail "assert"

unfoldable pub rvv_pmp_deny_page_allow_dram : ℕ → ℕ → ℕ → ℕ → ℕ → Run Registers (Unit {0})
rvv_pmp_deny_page_allow_dram base size deny_entry allow_entry page =
    if bit_and page 0xfff != 0
    then test_fail "assert"
    else if deny_entry == allow_entry
    then test_fail "assert"
    else do
      pmp_clear_all
      pmp_set_napot deny_entry page 4096 pmp_a_napot
      pmp_set_napot allow_entry base size 0x1f
