-- ===== src/Riscv/Page/Sv39/Map.antt =====
-- The Sv39 mapping routines on a tree of tables.
use abstract_machine.Base.{
  ℕ, suc, ◌-◌, ◌*◌, ◌/◌, ◌%◌, ◌^◌, ◌<◌, ◌≡◌, ◌≢◌, arith, bit_or, bit_and, ◌!=◌, false,
}
use abstract_machine.Base.Bits.{bit_and-low_ones}
use abstract_machine.Riscv.Outcome.{ok, failed}
use abstract_machine.Riscv.Page.Words.{State}
use abstract_machine.Riscv.Page.Arena.{giga_size}
use abstract_machine.Riscv.Page.Arena.Alloc.{HasRoom}
use abstract_machine.Riscv.Page.Pte.{accessed_dirty, vpn, pte_v}
use abstract_machine.Riscv.Page.Pte.Fields.{vpn_lem}
use abstract_machine.Riscv.Page.Walk.{index, Canonical}
use abstract_machine.Riscv.Page.Tree.{Places, IsTree}
use abstract_machine.Riscv.Page.Descend.Path.{start, next}
use abstract_machine.Riscv.Page.Descend.Finish.{
  Mapped, Identity, Mapped-identity, finished, finish, finish_returns,
}
use abstract_machine.Riscv.Page.Sv39.{page_map_4k_sv39, page_map_identity_1g_sv39}

module _ {root : ℕ} {own : Places} {s : State} (k va pa flags : ℕ)
    (tree : IsTree 2 root own s) where
  -- Given a tree of Sv39 tables, room for two pages in the arena, a canonical virtual address, a
  -- physical address below 2 ^ 56 and flags below 2 ^ 10 with R or X, and W only with R, page_map_4k_sv39 returns.
  -- Then the page of `va` translates to the page of `pa` with the flags, A, D and V, every other
  -- page translates as before, also where a larger leaf was split, and the tree still stands, with
  -- the room left less two pages.
  pub page_map_4k_sv39-Mapped :
      HasRoom (suc (suc k)) s
      → Canonical 39 va
      → pa < 2 ^ 56
      → flags < 1024
      → flags / 2 % 8 ≢ 0
      → flags / 2 % 4 ≢ 2
      → (after : State) × (page_map_4k_sv39 (root * 4096) va pa flags s ≡ ok (tt, after))
        × Mapped 2 root own s 0
            (va / 4096 % 2 ^ 27)
            (pa / 4096)
            (bit_or (accessed_dirty flags) pte_v % 256)
            k
            after
  unfolding page_map_4k_sv39
  page_map_4k_sv39-Mapped room va_ok pa_ok flags_ok rwx no_w =
      let v = va / 4096 % 2 ^ 27 in
      let first = next (suc k) v (start (suc (suc k)) v tree room (omega arith)) in
      let second = next k v first.reached in
      let vpn2 : vpn va 30 ≡ index 2 v = omega (arith, vpn_lem va 30) in
      let vpn1 : vpn va 21 ≡ index 1 v = omega (arith, vpn_lem va 21) in
      let vpn0 : vpn va 12 ≡ index 0 v = omega (arith, vpn_lem va 12) in
      let r = second.reached in
      (
        finished 0 pa flags r (omega arith) (omega arith) pa_ok flags_ok rwx no_w,
        rw (vpn2, first.returns, vpn1, second.returns, vpn0)
            (finish_returns 0 pa flags r (omega arith) (omega arith) pa_ok flags_ok rwx no_w),
        finish 0 pa flags r (omega arith) (omega arith) pa_ok flags_ok rwx no_w,
      )

  -- Given a tree of Sv39 tables whose arena has room for `k` pages, an address below 2 ^ 38 that is
  -- aligned to 1 GiB, and flags below 2 ^ 10 with R or X, and W only with R, page_map_identity_1g_sv39 returns.
  -- Then each page of that gigabyte translates to itself with the flags, A, D and V, every other
  -- page translates as before, and the tree still stands, with the same room left.
  pub page_map_identity_1g_sv39-Mapped :
      HasRoom k s
      → pa % giga_size ≡ 0
      → pa < 2 ^ 38
      → flags < 1024
      → flags / 2 % 8 ≢ 0
      → flags / 2 % 4 ≢ 2
      → (after : State) × (page_map_identity_1g_sv39 (root * 4096) pa flags s ≡ ok (tt, after))
        × Mapped 2 root own s 2
            (pa / 4096)
            (pa / 4096)
            (bit_or (accessed_dirty flags) pte_v % 256)
            k
            after
        × Identity 2 root after.mem 2 (pa / 4096) (bit_or (accessed_dirty flags) pte_v % 256)
  unfolding page_map_identity_1g_sv39
  page_map_identity_1g_sv39-Mapped room aligned pa_ok flags_ok rwx no_w =
      let v = pa / 4096 in
      let r = start k v tree room (omega arith) in
      let vpn2 : vpn pa 30 ≡ index 2 v = omega (arith, vpn_lem pa 30) in
      let test : (bit_and pa (giga_size - 1) != 0) ≡ false =
        ground (arith, bit_and-low_ones 30 pa) in
      let mapped =
        finish 2 pa flags r (omega arith) (omega arith) (omega arith) flags_ok rwx no_w in
      (
        finished 2 pa flags r (omega arith) (omega arith) (omega arith) flags_ok rwx no_w,
        rw (test, vpn2)
            (finish_returns 2 pa flags r (omega arith) (omega arith) (omega arith) flags_ok rwx
              no_w),
        mapped,
        Mapped-identity 2 v _ k mapped (λ w h. omega arith),
      )

-- On an address that is not aligned to 1 GiB, page_map_identity_1g_sv39 fails the test.
pub page_map_identity_1g_sv39_unaligned :
    (root pa flags : ℕ) (s : State)
    → pa % giga_size ≢ 0
    → page_map_identity_1g_sv39 root pa flags s ≡ failed "1g align"
unfolding page_map_identity_1g_sv39
page_map_identity_1g_sv39_unaligned root pa flags s h = ground (arith, bit_and-low_ones 30 pa)
