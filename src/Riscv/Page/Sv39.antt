-- ===== src/Riscv/Page/Sv39.antt =====
-- The Sv39 routines of page.c.
pub mod Map
pub mod Unmap
use abstract_machine.Base.{ℕ, ◌-◌, ◌/◌, ◌^◌, bit_and, bit_or, ◌!=◌, if◌then◌else◌}
use abstract_machine.Riscv.Outcome.{Run, ◌>>=◌, ◌>>◌, test_fail}
use abstract_machine.Riscv.Page.Words.{State, shl}
use abstract_machine.Riscv.Page.Arena.{page_size, mega_size, giga_size}
use abstract_machine.Riscv.Page.Pte.{pte_leaf, vpn, accessed_dirty}
use abstract_machine.Riscv.Page.Table.{
  set_entry, sfence_vma_all, next_table, present_table, unmap_entry, unmap_below,
}
use abstract_machine.Riscv.Page.Satp.{satp_mode_shift, satp_mode_sv39, write_satp}

unfoldable pub page_map_identity_1g_sv39 : ℕ → ℕ → ℕ → Run State (Unit {0})
unfolding set_entry
page_map_identity_1g_sv39 root pa_base flags =
    if bit_and pa_base (giga_size - 1) != 0
    then test_fail "1g align"
    else set_entry root (vpn pa_base 30) (pte_leaf pa_base (accessed_dirty flags))

unfoldable pub page_map_4k_sv39 : ℕ → ℕ → ℕ → ℕ → Run State (Unit {0})
unfolding next_table
page_map_4k_sv39 root va pa flags = do
  l1 ← next_table root (vpn va 30) mega_size
  l0 ← next_table l1 (vpn va 21) page_size
  set_entry l0 (vpn va 12) (pte_leaf pa (accessed_dirty flags))

unfoldable pub page_unmap_4k_sv39 : ℕ → ℕ → Run State ℕ
unfolding present_table unmap_entry unmap_below
page_unmap_4k_sv39 root va =
    if bit_and va (page_size - 1) != 0 then test_fail "4k unmap align" else do
      found ← present_table root (vpn va 30) mega_size
      unmap_below
          (λ l1. do
            found' ← present_table l1 (vpn va 21) page_size
            unmap_below (λ l0. unmap_entry l0 (vpn va 12)) found')
          found

unfoldable pub page_enable_sv39 : ℕ → Run State (Unit {0})
unfolding write_satp sfence_vma_all
page_enable_sv39 root = do
  write_satp (bit_or (shl satp_mode_sv39 satp_mode_shift) (root / 2 ^ 12))
  sfence_vma_all
