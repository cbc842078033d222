-- ===== src/Riscv/Page/Mode.antt =====
-- The generic operations of page.c on the translation mode.
pub mod Switch
use abstract_machine.Base.{ℕ, ◌/◌, ◌^◌, bit_and, ◌&&◌, ◌==◌, ◌!=◌, if◌then◌else◌}
use abstract_machine.Riscv.Outcome.{Run, ◌>>=◌, ◌>>◌, pure, get, test_fail}
use abstract_machine.Riscv.Page.Words.{State}
use abstract_machine.Riscv.Page.Table.{sfence_vma_all}
use abstract_machine.Riscv.Page.Satp.{satp_mode_shift, write_satp}
use abstract_machine.Riscv.Page.Sv39.{page_enable_sv39}
use abstract_machine.Riscv.Page.Sv48.{page_enable_sv48}

unfoldable pub page_disable : Run State (Unit {0})
unfolding write_satp sfence_vma_all
page_disable = do write_satp 0; sfence_vma_all

-- A mode is the number that its enumerator has.
abbrev pub pt_mode_bare : ℕ
pt_mode_bare = 0

abbrev pub pt_mode_sv39 : ℕ
pt_mode_sv39 = 8

abbrev pub pt_mode_sv48 : ℕ
pt_mode_sv48 = 9

unfoldable pub page_get_mode : Run State ℕ
page_get_mode = do s ← get; pure (bit_and (s.satp / 2 ^ satp_mode_shift) 0xf)

unfoldable pub page_switch_mode : ℕ → ℕ → Run State (Unit {0})
unfolding page_disable page_enable_sv39 page_enable_sv48
page_switch_mode new_mode root =
    if root == 0 && new_mode != pt_mode_bare
    then test_fail "page_switch_mode: root cannot be NULL for paging modes"
    else if new_mode == pt_mode_bare
    then page_disable
    else if new_mode == pt_mode_sv39
    then page_enable_sv39 root
    else if new_mode == pt_mode_sv48
    then page_enable_sv48 root
    else test_fail "page_switch_mode: unsupported mode"
