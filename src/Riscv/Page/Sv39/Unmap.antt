-- ===== src/Riscv/Page/Sv39/Unmap.antt =====
-- page_unmap_4k_sv39 on a tree of tables.
use abstract_machine.Base.{
  ℕ, suc, ◌-◌, ◌*◌, ◌/◌, ◌%◌, ◌^◌, ◌<◌, ◌≡◌, ◌≢◌, arith, bit_and, ◌!=◌, false,
}
use abstract_machine.Base.Bits.{bit_and-low_ones}
use abstract_machine.Riscv.Outcome.{ok, failed}
use abstract_machine.Riscv.Page.Words.{State}
use abstract_machine.Riscv.Page.Arena.{page_size}
use abstract_machine.Riscv.Page.Arena.Alloc.{HasRoom}
use abstract_machine.Riscv.Page.Pte.{vpn}
use abstract_machine.Riscv.Page.Pte.Fields.{vpn_lem}
use abstract_machine.Riscv.Page.Walk.{index}
use abstract_machine.Riscv.Page.Tree.{Places, IsTree}
use abstract_machine.Riscv.Page.Descend.Path.{start}
use abstract_machine.Riscv.Page.Sv39.{page_unmap_4k_sv39}
use abstract_machine.Riscv.Page.Descend.Gone.{Unmapped, present_table-Ends, unmap_entry-Ends}

module _ {root : ℕ} {own : Places} {s : State} (k va : ℕ) (tree : IsTree 2 root own s) where
  -- Given a tree of Sv39 tables, room for two pages in the arena and a page-aligned address below 2
  -- ^ 39, page_unmap_4k_sv39 returns. Then the page of `va` has no translation, every other page
  -- translates as before, also where a larger leaf was split, and the tree still stands, with the
  -- room left less at most two pages. The answer is 1, after one sfence.vma, or 0, with none, and
  -- then the page had no translation before.
  pub page_unmap_4k_sv39-Unmapped :
      HasRoom (suc (suc k)) s
      → va < 2 ^ 39
      → va % page_size ≡ 0
      → (after : State) × (answer : ℕ) × (page_unmap_4k_sv39 (root * 4096) va s
          ≡ ok (answer, after))
        × Unmapped root own s (va / 4096) k answer after
  unfolding page_unmap_4k_sv39
  page_unmap_4k_sv39-Unmapped room va_ok aligned =
      let v = va / 4096 in
      let v_ok : v < 2 ^ 27 = omega arith in
      let vpn2 : vpn va 30 ≡ index 2 v = omega (arith, vpn_lem va 30) in
      let vpn1 : vpn va 21 ≡ index 1 v = omega (arith, vpn_lem va 21) in
      let vpn0 : vpn va 12 ≡ index 0 v = omega (arith, vpn_lem va 12) in
      let test : (bit_and va (page_size - 1) != 0) ≡ false =
        ground (arith, bit_and-low_ones 12 va) in
      rw (test, vpn2, vpn1, vpn0)
        (present_table-Ends k (suc k) v 1 root (omega arith) v_ok
          (start (suc (suc k)) v tree room (omega arith)) _
          (λ l1 own1 s1 r1.
            present_table-Ends k k v 0 l1 (omega arith) v_ok r1 _
              (λ l0 own2 s2 r2. unmap_entry-Ends k k v l0 (omega arith) v_ok r2)))

-- On an address that is not page-aligned, page_unmap_4k_sv39 fails the test.
pub page_unmap_4k_sv39_unaligned :
    (root va : ℕ) (s : State)
    → va % page_size ≢ 0
    → page_unmap_4k_sv39 root va s ≡ failed "4k unmap align"
unfolding page_unmap_4k_sv39
page_unmap_4k_sv39_unaligned root va s h = ground (arith, bit_and-low_ones 12 va)
