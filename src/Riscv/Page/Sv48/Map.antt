-- ===== src/Riscv/Page/Sv48/Map.antt =====
-- The Sv48 mapping routines on a tree of tables.
use abstract_machine.Base.{
  ℕ, suc, ◌-◌, ◌*◌, ◌/◌, ◌%◌, ◌^◌, ◌<◌, ◌≡◌, ◌≢◌, arith, bit_or, bit_and, ◌!=◌, false,
}
use abstract_machine.Base.Bits.{bit_and-low_ones}
use abstract_machine.Riscv.Outcome.{ok}
use abstract_machine.Riscv.Page.Words.{State}
use abstract_machine.Riscv.Page.Arena.{giga_size, tera_size}
use abstract_machine.Riscv.Page.Arena.Alloc.{HasRoom}
use abstract_machine.Riscv.Page.Pte.{accessed_dirty, vpn, pte_v}
use abstract_machine.Riscv.Page.Pte.Fields.{vpn_lem}
use abstract_machine.Riscv.Page.Walk.{index, Canonical}
use abstract_machine.Riscv.Page.Tree.{Places, IsTree}
use abstract_machine.Riscv.Page.Descend.Path.{start, next}
use abstract_machine.Riscv.Page.Descend.Finish.{
  Mapped, Identity, Mapped-identity, finished, finish, finish_returns,
}
use abstract_machine.Riscv.Page.Sv48.{
  page_map_4k_sv48, page_map_identity_1g_sv48, page_map_identity_512g_sv48,
}

module _ {root : ℕ} {own : Places} {s : State} (k va pa flags : ℕ)
    (tree : IsTree 3 root own s) where
  -- Given a tree of Sv48 tables, room for three pages in the arena, a canonical virtual address,
  -- a physical address below 2 ^ 56 and flags below 2 ^ 10 with R or X, and W only with R, page_map_4k_sv48
  -- returns. Then the page of `va` translates to the page of `pa` with the flags, A, D and V, every
  -- other page translates as before, also where larger leaves were split, and the tree still
  -- stands, with the room left less three pages.
  pub page_map_4k_sv48-Mapped :
      HasRoom (suc (suc (suc k))) s
      → Canonical 48 va
      → pa < 2 ^ 56
      → flags < 1024
      → flags / 2 % 8 ≢ 0
      → flags / 2 % 4 ≢ 2
      → (after : State) × (page_map_4k_sv48 (root * 4096) va pa flags s ≡ ok (tt, after))
        × Mapped 3 root own s 0
            (va / 4096 % 2 ^ 36)
            (pa / 4096)
            (bit_or (accessed_dirty flags) pte_v % 256)
            k
            after
  unfolding page_map_4k_sv48
  page_map_4k_sv48-Mapped room va_ok pa_ok flags_ok rwx no_w =
      let v = va / 4096 % 2 ^ 36 in
      let first = next (suc (suc k)) v (start (suc (suc (suc k))) v tree room (omega arith)) in
      let second = next (suc k) v first.reached in
      let third = next k v second.reached in
      let vpn3 : vpn va 39 ≡ index 3 v = omega (arith, vpn_lem va 39) in
      let vpn2 : vpn va 30 ≡ index 2 v = omega (arith, vpn_lem va 30) in
      let vpn1 : vpn va 21 ≡ index 1 v = omega (arith, vpn_lem va 21) in
      let vpn0 : vpn va 12 ≡ index 0 v = omega (arith, vpn_lem va 12) in
      let r = third.reached in
      (
        finished 0 pa flags r (omega arith) (omega arith) pa_ok flags_ok rwx no_w,
        rw (vpn3, first.returns, vpn2, second.returns, vpn1, third.returns, vpn0)
            (finish_returns 0 pa flags r (omega arith) (omega arith) pa_ok flags_ok rwx no_w),
        finish 0 pa flags r (omega arith) (omega arith) pa_ok flags_ok rwx no_w,
      )

  -- Given a tree of Sv48 tables, room for one page in the arena, an address below 2 ^ 47 that is
  -- aligned to 1 GiB, and flags below 2 ^ 10 with R or X, and W only with R, page_map_identity_1g_sv48 returns.
  -- Then each page of that gigabyte translates to itself with the flags, A, D and V, every other
  -- page translates as before, also where a leaf of 512 GiB was split, and the tree still stands,
  -- with the room left less one page.
  pub page_map_identity_1g_sv48-Mapped :
      HasRoom (suc k) s
      → pa % giga_size ≡ 0
      → pa < 2 ^ 47
      → flags < 1024
      → flags / 2 % 8 ≢ 0
      → flags / 2 % 4 ≢ 2
      → (after : State) × (page_map_identity_1g_sv48 (root * 4096) pa flags s ≡ ok (tt, after))
        × Mapped 3 root own s 2
            (pa / 4096)
            (pa / 4096)
            (bit_or (accessed_dirty flags) pte_v % 256)
            k
            after
        × Identity 3 root after.mem 2 (pa / 4096) (bit_or (accessed_dirty flags) pte_v % 256)
  unfolding page_map_identity_1g_sv48
  page_map_identity_1g_sv48-Mapped room aligned pa_ok flags_ok rwx no_w =
      let v = pa / 4096 in
      let first = next k v (start (suc k) v tree room (omega arith)) in
      let r = first.reached in
      let vpn3 : vpn pa 39 ≡ index 3 v = omega (arith, vpn_lem pa 39) in
      let vpn2 : vpn pa 30 ≡ index 2 v = omega (arith, vpn_lem pa 30) in
      let test : (bit_and pa (giga_size - 1) != 0) ≡ false =
        ground (arith, bit_and-low_ones 30 pa) in
      let mapped =
        finish 2 pa flags r (omega arith) (omega arith) (omega arith) flags_ok rwx no_w in
      (
        finished 2 pa flags r (omega arith) (omega arith) (omega arith) flags_ok rwx no_w,
        rw (test, vpn3, first.returns, vpn2)
            (finish_returns 2 pa flags r (omega arith) (omega arith) (omega arith) flags_ok rwx
              no_w),
        mapped,
        Mapped-identity 2 v _ k mapped (λ w h. omega arith),
      )

  -- Given a tree of Sv48 tables whose arena has room for `k` pages, an address below 2 ^ 47 that is
  -- aligned to 512 GiB, and flags below 2 ^ 10 with R or X, and W only with R, page_map_identity_512g_sv48 returns.
  -- Then each page of those 512 GiB translates to itself with the flags, A, D and V, every other
  -- page translates as before, and the tree still stands, with the same room left.
  pub page_map_identity_512g_sv48-Mapped :
      HasRoom k s
      → pa % tera_size ≡ 0
      → pa < 2 ^ 47
      → flags < 1024
      → flags / 2 % 8 ≢ 0
      → flags / 2 % 4 ≢ 2
      → (after : State) × (page_map_identity_512g_sv48 (root * 4096) pa flags s ≡ ok (tt, after))
        × Mapped 3 root own s 3
            (pa / 4096)
            (pa / 4096)
            (bit_or (accessed_dirty flags) pte_v % 256)
            k
            after
        × Identity 3 root after.mem 3 (pa / 4096) (bit_or (accessed_dirty flags) pte_v % 256)
  unfolding page_map_identity_512g_sv48
  page_map_identity_512g_sv48-Mapped room aligned pa_ok flags_ok rwx no_w =
      let v = pa / 4096 in
      let r = start k v tree room (omega arith) in
      let vpn3 : vpn pa 39 ≡ index 3 v = omega (arith, vpn_lem pa 39) in
      let test : (bit_and pa (tera_size - 1) != 0) ≡ false =
        ground (arith, bit_and-low_ones 39 pa) in
      let mapped =
        finish 3 pa flags r (omega arith) (omega arith) (omega arith) flags_ok rwx no_w in
      (
        finished 3 pa flags r (omega arith) (omega arith) (omega arith) flags_ok rwx no_w,
        rw (test, vpn3)
            (finish_returns 3 pa flags r (omega arith) (omega arith) (omega arith) flags_ok rwx
              no_w),
        mapped,
        Mapped-identity 3 v _ k mapped (λ w h. omega arith),
      )
