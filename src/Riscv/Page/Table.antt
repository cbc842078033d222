-- ===== src/Riscv/Page/Table.antt =====
-- One level of the tables of page.c: the step to the table below an entry. The routines of page.c
-- write this step out at each level; here it is written once, with the size that varies.
use abstract_machine.Base.{ℕ, suc, ◌+◌, ◌*◌, bit_and, not, if◌then◌else◌, Option, none, some}
use abstract_machine.Riscv.Outcome.{Run, ◌>>=◌, ◌>>◌, pure, get, modify}
use abstract_machine.Riscv.Page.Words.{State, u64, entry, write_word, fill}
use abstract_machine.Riscv.Page.Arena.{page_alloc_table}
use abstract_machine.Riscv.Page.Pte.{
  pte_leaf_flags, pte_leaf, pte_next, is_valid, is_leaf, pte_address,
}

unfoldable pub set_entry : ℕ → ℕ → ℕ → Run State (Unit {0})
set_entry table idx v = modify λ s. record s { mem = write_word s.mem (entry table idx) v }

unfoldable pub sfence_vma_all : Run State (Unit {0})
sfence_vma_all = modify λ s. record s { sfences = suc s.sfences }

-- A leaf gives way to a table of 512 leaves, `size` bytes each, over the same range.
unfoldable pub demote : ℕ → ℕ → ℕ → Run State ℕ
unfolding set_entry
demote table idx size = do
  s ← get
  let base = pte_address (s.mem (entry table idx))
  let leaf_flags = bit_and (s.mem (entry table idx)) pte_leaf_flags
  next ← page_alloc_table
  modify λ t. record t {
    mem = fill 512 t.mem next (λ i. pte_leaf (u64 (base + u64 (i * size))) leaf_flags);
  }
  set_entry table idx (pte_next next)
  pure next

unfoldable pub fresh_table : ℕ → ℕ → Run State ℕ
unfolding set_entry
fresh_table table idx = do next ← page_alloc_table; set_entry table idx (pte_next next); pure next

-- The table below `table[idx]`, which is made where there is none; each level of the mapping
-- routines does this, with the size of the child's leaves.
unfoldable pub next_table : ℕ → ℕ → ℕ → Run State ℕ
unfolding demote fresh_table
next_table table idx size = do
  s ← get
  let pte = s.mem (entry table idx)
  if not (is_valid pte)
      then fresh_table table idx
      else if is_leaf pte
      then demote table idx size
      else pure (pte_address pte)

-- The table below `table[idx]`, or `none` where the entry is not valid.
unfoldable pub present_table : ℕ → ℕ → ℕ → Run State (Option ℕ)
unfolding demote
present_table table idx size = do
  s ← get
  let pte = s.mem (entry table idx)
  if not (is_valid pte)
      then pure none
      else if is_leaf pte
      then (demote table idx size >>= λ next. pure (some next))
      else pure (some (pte_address pte))

-- The last level: the entry is cleared if it is valid.
unfoldable pub unmap_entry : ℕ → ℕ → Run State ℕ
unfolding set_entry sfence_vma_all
unmap_entry l0 idx = do
  s ← get
  if not (is_valid (s.mem (entry l0 idx)))
      then pure 0
      else (do set_entry l0 idx 0; sfence_vma_all; pure 1)

-- `return 0` on a missing table.
unfoldable pub unmap_below : (ℕ → Run State ℕ) → Option ℕ → Run State ℕ
unmap_below next none = pure 0
unmap_below next (some table) = next table
