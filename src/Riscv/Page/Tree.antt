-- ===== src/Riscv/Page/Tree.antt =====
-- When the memory holds a tree of tables: each table belongs to one place of the tree, given by its
-- level and the page number's upper part that leads to it. The routines of page.c keep this.
pub mod Frame
pub mod Install
pub mod Leaf
pub mod Root
use abstract_machine.Base.{
  ℕ, zero, suc, ◌+◌, ◌*◌, ◌/◌, ◌%◌, ◌^◌, ◌≤◌, ◌<◌, ◌≡◌, ◌≢◌, Bool, ◌==◌, if◌then◌else◌, Option,
  some,
}
use abstract_machine.Riscv.Page.Words.{State}
use abstract_machine.Riscv.Page.Words.Slots.{slot}
use abstract_machine.Riscv.Page.Arena.Alloc.{free_from}
use abstract_machine.Riscv.Page.Walk.{span, ppn}

-- The level and the upper part of the page numbers for which the page is a table, if it is one.
abbrev pub Places : Type 0
Places = ℕ → Option (ℕ × ℕ)

abbrev pub place : Places → ℕ → ℕ × ℕ → Places
place own n x p = if p == n then some x else own p

abbrev pub IsPointer : ℕ → Type 0
IsPointer pte = (pte % 2 ≡ 1) × (pte / 2 % 8 ≡ 0)

abbrev pub IsLeaf : ℕ → Type 0
IsLeaf pte = (pte % 2 ≡ 1) × (pte / 2 % 8 ≢ 0)

-- A leaf's pages are aligned to its size and lie in physical memory.
abbrev pub IsAligned : ℕ → ℕ → Type 0
IsAligned level pte = (ppn pte % span level ≡ 0) × (ppn pte + span level ≤ 2 ^ 44)

pub record IsTree (top root : ℕ) (own : Places) (s : State) : Type 0 where
  pub rooted : own root ≡ some (top, 0)
  pub below : (p level b : ℕ) → own p ≡ some (level, b) → p * 4096 + 4096 ≤ free_from s
  pub pointers :
      (p level b i : ℕ)
      → own p ≡ some (suc level, b)
      → i < 512
      → IsPointer (s.mem (slot p i))
      → own (ppn (s.mem (slot p i))) ≡ some (level, b * 512 + i)
  pub leaves :
      (p level b i : ℕ)
      → own p ≡ some (level, b)
      → i < 512
      → IsLeaf (s.mem (slot p i))
      → IsAligned level (s.mem (slot p i))
  pub fits : (p level b i : ℕ) → own p ≡ some (level, b) → i < 512 → s.mem (slot p i) < 2 ^ 54
