-- ===== src/Tests/Page.antt =====
-- An arena of 16 pages at 0x80200000, a root table taken from it, and pages mapped and unmapped.
use abstract_machine.Base.{inl, ℕ, ◌*◌, ◌≡◌, Option, some, none, refl, arith}
use abstract_machine.Riscv.Outcome.{Outcome, ok, failed, ◌>>◌}
use abstract_machine.Riscv.Page.Words.{State, write_word, fill}
use abstract_machine.Riscv.Page.Arena.{page_alloc_table}
use abstract_machine.Riscv.Page.Arena.Alloc.{allocated, HasRoom}
use abstract_machine.Riscv.Page.Pte.{pte_leaf, pte_next, is_valid, is_leaf, pte_address}
use abstract_machine.Riscv.Page.Sv39.{
  page_map_4k_sv39, page_map_identity_1g_sv39, page_unmap_4k_sv39,
}
use abstract_machine.Riscv.Page.Sv48.{
  page_map_identity_1g_sv48, page_map_4k_sv48, page_map_identity_512g_sv48,
}
use abstract_machine.Riscv.Page.Walk.{walk, Translation}
use abstract_machine.Riscv.Page.Tree.{Places, IsTree}
use abstract_machine.Riscv.Page.Tree.Root.{places, page_alloc_table-IsTree}
use abstract_machine.Riscv.Page.Descend.Finish.{Mapped, Identity}
use abstract_machine.Riscv.Page.Sv39.Map.{
  page_map_4k_sv39-Mapped, page_map_identity_1g_sv39-Mapped, page_map_identity_1g_sv39_unaligned,
}
use abstract_machine.Riscv.Page.Descend.Gone.{Unmapped}
use abstract_machine.Riscv.Page.Sv39.Unmap.{
  page_unmap_4k_sv39-Unmapped, page_unmap_4k_sv39_unaligned,
}
use abstract_machine.Riscv.Page.Sv48.Map.{
  page_map_4k_sv48-Mapped, page_map_identity_1g_sv48-Mapped, page_map_identity_512g_sv48-Mapped,
}
use abstract_machine.Riscv.Page.Mode.{page_switch_mode}
use abstract_machine.Riscv.Page.Mode.Switch.{page_switch_mode_null}

abbrev boot : State
boot = record {
  mem = λ a. 0xdead;
  arena_ptr = 0;
  arena_end = 0;
  satp = 0;
  sfences = 0;
  page_arena_start = 0x80200000;
  page_arena_end = 0x80210000;
}

abbrev root : ℕ
root = 0x80200

boot-HasRoom : HasRoom 16 boot
boot-HasRoom = record { room = omega arith; physical = omega arith }

abbrev rooted : State
rooted = allocated boot

abbrev own : ℕ → Places
own top = places 15 top boot boot-HasRoom

rooted-IsTree : (top : ℕ) → IsTree top root (own top) rooted
rooted-IsTree top = (page_alloc_table-IsTree 15 top boot boot-HasRoom).1

rooted-HasRoom : HasRoom 15 rooted
rooted-HasRoom = (page_alloc_table-IsTree 15 2 boot boot-HasRoom).2

-- The translation of page `v` after a run.
abbrev translate : {A : Type 0} → Outcome (A × State) → ℕ → ℕ → Option Translation
translate (ok (_, s)) top v = walk s.mem top root v
translate (failed _) top v = none
translate (Outcome.skipped _) top v = none

-- A gigabyte is mapped, one of its pages elsewhere, and another page is unmapped.
abbrev session : Outcome (ℕ × State)
session =
    (do
      page_map_identity_1g_sv39 (root * 4096) 0x80000000 0xe
      page_map_4k_sv39 (root * 4096) 0x80005000 0x90007000 0x6
      page_unmap_4k_sv39 (root * 4096) 0x80009000)
      rooted

session_run :
    (translate session 2 0x80005 ≡ some (record { page = 0x90007; perms = 0xc7 }))
    × (translate session 2 0x80006 ≡ some (record { page = 0x80006; perms = 0xcf }))
    × (translate session 2 0x80009 ≡ none)
    × (translate session 2 0xbffff ≡ some (record { page = 0xbffff; perms = 0xcf }))
unfolding page_map_identity_1g_sv39 page_map_4k_sv39 page_unmap_4k_sv39 walk write_word fill
    page_alloc_table is_valid is_leaf pte_leaf pte_next pte_address
session_run = (refl, refl, refl, refl)

page_alloc_table-IsTree_example :
    (page_alloc_table boot ≡ ok (root * 4096, rooted))
    × IsTree 2 root (own 2) rooted
    × HasRoom 15 rooted
    × ((v : ℕ) → walk rooted.mem 2 root v ≡ none)
page_alloc_table-IsTree_example = page_alloc_table-IsTree 15 2 boot boot-HasRoom

abbrev full : State
full = record boot { page_arena_end = 0x80200fff }

page_map_4k_sv39-Mapped_example :
    (after : State) × (page_map_4k_sv39 (root * 4096) 0x80005000 0x90007000 0x6 rooted
      ≡ ok (tt, after))
    × Mapped 2 root (own 2) rooted 0 0x80005 0x90007 0xc7 13 after
page_map_4k_sv39-Mapped_example =
    page_map_4k_sv39-Mapped 13 0x80005000 0x90007000 0x6 (rooted-IsTree 2) rooted-HasRoom
      (inl (omega arith)) (omega arith) (omega arith) (omega arith) (omega arith)

page_map_4k_sv48-Mapped_example :
    (after : State) × (page_map_4k_sv48 (root * 4096) 0x80005000 0x90007000 0x6 rooted
      ≡ ok (tt, after))
    × Mapped 3 root (own 3) rooted 0 0x80005 0x90007 0xc7 12 after
page_map_4k_sv48-Mapped_example =
    page_map_4k_sv48-Mapped 12 0x80005000 0x90007000 0x6 (rooted-IsTree 3) rooted-HasRoom
      (inl (omega arith)) (omega arith) (omega arith) (omega arith) (omega arith)

page_map_identity_1g_sv39-Mapped_example :
    (after : State) × (page_map_identity_1g_sv39 (root * 4096) 0x80000000 0xe rooted
      ≡ ok (tt, after))
    × Mapped 2 root (own 2) rooted 2 0x80000 0x80000 0xcf 15 after
    × Identity 2 root after.mem 2 0x80000 0xcf
page_map_identity_1g_sv39-Mapped_example =
    page_map_identity_1g_sv39-Mapped 15 0 0x80000000 0xe (rooted-IsTree 2) rooted-HasRoom
      (omega arith) (omega arith) (omega arith) (omega arith) (omega arith)

page_map_identity_1g_sv39_unaligned_example :
    page_map_identity_1g_sv39 (root * 4096) 0x80001000 0xe rooted ≡ failed "1g align"
page_map_identity_1g_sv39_unaligned_example =
    page_map_identity_1g_sv39_unaligned (root * 4096) 0x80001000 0xe rooted (omega arith)

page_map_identity_1g_sv48-Mapped_example :
    (after : State) × (page_map_identity_1g_sv48 (root * 4096) 0x80000000 0xe rooted
      ≡ ok (tt, after))
    × Mapped 3 root (own 3) rooted 2 0x80000 0x80000 0xcf 14 after
    × Identity 3 root after.mem 2 0x80000 0xcf
page_map_identity_1g_sv48-Mapped_example =
    page_map_identity_1g_sv48-Mapped 14 0 0x80000000 0xe (rooted-IsTree 3) rooted-HasRoom
      (omega arith) (omega arith) (omega arith) (omega arith) (omega arith)

page_map_identity_512g_sv48-Mapped_example :
    (after : State) × (page_map_identity_512g_sv48 (root * 4096) 0x8000000000 0xe rooted
      ≡ ok (tt, after))
    × Mapped 3 root (own 3) rooted 3 0x8000000 0x8000000 0xcf 15 after
    × Identity 3 root after.mem 3 0x8000000 0xcf
page_map_identity_512g_sv48-Mapped_example =
    page_map_identity_512g_sv48-Mapped 15 0 0x8000000000 0xe (rooted-IsTree 3) rooted-HasRoom
      (omega arith) (omega arith) (omega arith) (omega arith) (omega arith)

abbrev giga_run :
    (after : State) × (page_map_identity_1g_sv39 (root * 4096) 0x80000000 0xe rooted
      ≡ ok (tt, after))
    × Mapped 2 root (own 2) rooted 2 0x80000 0x80000 0xcf 15 after
    × Identity 2 root after.mem 2 0x80000 0xcf
giga_run =
    page_map_identity_1g_sv39-Mapped 15 0 0x80000000 0xe (rooted-IsTree 2) rooted-HasRoom
      (omega arith) (omega arith) (omega arith) (omega arith) (omega arith)

-- The state after the gigabyte was mapped.
abbrev giga : State
giga = giga_run.0

page_unmap_4k_sv39-Unmapped_example :
    (after : State) × (answer : ℕ) × (page_unmap_4k_sv39 (root * 4096) 0x80009000 giga
      ≡ ok (answer, after))
    × Unmapped root giga_run.2.places giga 0x80009 13 answer after
page_unmap_4k_sv39-Unmapped_example =
    page_unmap_4k_sv39-Unmapped 13 0x80009000 giga_run.2.tree giga_run.2.room (omega arith)
      (omega arith)

page_unmap_4k_sv39_unaligned_example :
    page_unmap_4k_sv39 (root * 4096) 0x80009001 rooted ≡ failed "4k unmap align"
page_unmap_4k_sv39_unaligned_example =
    page_unmap_4k_sv39_unaligned (root * 4096) 0x80009001 rooted (omega arith)

page_switch_mode_null_example :
    page_switch_mode 8 0 boot ≡ failed "page_switch_mode: root cannot be NULL for paging modes"
page_switch_mode_null_example = page_switch_mode_null boot 8 (omega arith)
