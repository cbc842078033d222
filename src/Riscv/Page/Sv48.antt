-- ===== src/Riscv/Page/Sv48.antt =====
-- The Sv48 routines of page.c.
pub mod Map
use abstract_machine.Base.{ℕ, ◌-◌, ◌/◌, ◌^◌, bit_and, bit_or, ◌!=◌, if◌then◌else◌}
use abstract_machine.Riscv.Outcome.{Run, ◌>>=◌, ◌>>◌, test_fail}
use abstract_machine.Riscv.Page.Words.{State, shl}
use abstract_machine.Riscv.Page.Arena.{page_size, mega_size, giga_size, tera_size}
use abstract_machine.Riscv.Page.Pte.{pte_leaf, vpn, accessed_dirty}
use abstract_machine.Riscv.Page.Table.{set_entry, sfence_vma_all, next_table}
use abstract_machine.Riscv.Page.Satp.{satp_mode_shift, satp_mode_sv48, write_satp}

unfoldable pub page_map_identity_512g_sv48 : ℕ → ℕ → ℕ → Run State (Unit {0})
unfolding set_entry
page_map_identity_512g_sv48 root pa_base flags =
    if bit_and pa_base (tera_size - 1) != 0
    then test_fail "512g align"
    else set_entry root (vpn pa_base 39) (pte_leaf pa_base (accessed_dirty flags))

unfoldable pub page_map_identity_1g_sv48 : ℕ → ℕ → ℕ → Run State (Unit {0})
unfolding next_table set_entry
page_map_identity_1g_sv48 root pa_base flags =
    if bit_and pa_base (giga_size - 1) != 0 then test_fail "1g align" else do
      l2 ← next_table root (vpn pa_base 39) giga_size
      set_entry l2 (vpn pa_base 30) (pte_leaf pa_base (accessed_dirty flags))

unfoldable pub page_map_4k_sv48 : ℕ → ℕ → ℕ → ℕ → Run State (Unit {0})
unfolding next_table set_entry
page_map_4k_sv48 root va pa flags = do
  l2 ← next_table root (vpn va 39) giga_size
  l1 ← next_table l2 (vpn va 30) mega_size
  l0 ← next_table l1 (vpn va 21) page_size
  set_entry l0 (vpn va 12) (pte_leaf pa (accessed_dirty flags))

unfoldable pub page_enable_sv48 : ℕ → Run State (Unit {0})
unfolding write_satp sfence_vma_all
page_enable_sv48 root = do
  write_satp (bit_or (shl satp_mode_sv48 satp_mode_shift) (root / 2 ^ 12))
  sfence_vma_all
