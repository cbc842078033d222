-- ===== src/Riscv/Page/Tree/Root.antt =====
-- A tree starts as one zeroed table.
use abstract_machine.Base.{ℕ, suc, ◌*◌, ◌<◌, ◌≡◌, arith, ◌∙◌, none}
use abstract_machine.Riscv.Outcome.{ok}
use abstract_machine.Riscv.Page.Words.{State}
use abstract_machine.Riscv.Page.Words.Slots.{slot, fill_at}
use abstract_machine.Riscv.Page.Arena.{page_alloc_table}
use abstract_machine.Riscv.Page.Arena.Alloc.{
  next_page, allocated, HasRoom, page_alloc_table-ok, HasRoom-allocated,
}
use abstract_machine.Riscv.Page.Walk.{walk, index}
use abstract_machine.Riscv.Page.Tree.{Places, place, IsTree}
use abstract_machine.Riscv.Page.Tree.Frame.{walk_head}

module _ (k top : ℕ) (s : State) (room : HasRoom (suc k) s) where
  abbrev pub places : Places
  places = place (λ p. none) (next_page s) (top, 0)

  zeroed : (j : ℕ) → j < 512 → (allocated s).mem (slot (next_page s) j) ≡ 0
  zeroed j lt =
      fill_at 512 s.mem (next_page s) (λ i. 0) j (ground (arith, room.room, room.physical))
        (omega arith) lt

  -- Given room for one page in the arena, page_alloc_table returns the next page of the arena, and
  -- that page is the root of a tree, of any number of levels, in which nothing is translated yet;
  -- there is room for one page less.
  pub page_alloc_table-IsTree :
      (page_alloc_table s ≡ ok (next_page s * 4096, allocated s))
      × IsTree top (next_page s) places (allocated s)
      × HasRoom k (allocated s)
      × ((v : ℕ) → walk (allocated s).mem top (next_page s) v ≡ none)
  page_alloc_table-IsTree = (
    page_alloc_table-ok k s room,
    record {
      rooted = ground arith;
      below = λ p l c h. ground arith;
      pointers = λ p l c j h lt ptr. absurd (ground (arith, zeroed j lt));
      leaves = λ p l c j h lt leaf. absurd (ground (arith, zeroed j lt));
      fits = λ p l c j h lt. ground (arith, zeroed j lt);
    },
    HasRoom-allocated k s room,
    λ v.
        let (below, e) = walk_head (allocated s).mem top (next_page s) v in
        e ∙ rw (zeroed (index top v) (omega arith)),
  )
