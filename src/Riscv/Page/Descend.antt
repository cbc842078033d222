-- ===== src/Riscv/Page/Descend.antt =====
-- What the step to the table below an entry does to the tree.
pub mod Entries
pub mod Steps
pub mod Path
pub mod Finish
pub mod Gone
use abstract_machine.Base.{ℕ, suc, ◌+◌, ◌*◌, ◌<◌, ◌≡◌, some}
use abstract_machine.Riscv.Page.Words.{State}
use abstract_machine.Riscv.Page.Words.Slots.{slot}
use abstract_machine.Riscv.Page.Arena.Alloc.{HasRoom}
use abstract_machine.Riscv.Page.Walk.{walk, upper, ppn}
use abstract_machine.Riscv.Page.Tree.{Places, IsTree, IsPointer}

-- The step from entry `i` of the table at page `t`, which serves the upper part `b`, has led to the
-- table at page `q`: the tree is whole, no walk has changed, nor any pointer, and `s'` has room for
-- `k` more pages.
pub record Descended (top root : ℕ) (own : Places) (s : State) (k t level b i q : ℕ) (own' : Places)
    (s' : State) : Type 0 where
  pub tree : IsTree top root own' s'
  pub room : HasRoom k s'
  pub keeps_places : (p l c : ℕ) → own p ≡ some (l, c) → own' p ≡ some (l, c)
  pub same_walks : (v : ℕ) → upper (suc top) v ≡ 0 → walk s'.mem top root v ≡ walk s.mem top root v
  pub keeps_pointers :
      (p l c j : ℕ)
      → own p ≡ some (l, c)
      → j < 512
      → IsPointer (s.mem (slot p j))
      → s'.mem (slot p j) ≡ s.mem (slot p j)
  pub child : own' q ≡ some (level, b * 512 + i)
  pub points : IsPointer (s'.mem (slot t i))
  pub target : ppn (s'.mem (slot t i)) ≡ q
  pub same_satp : s'.satp ≡ s.satp
  pub same_sfences : s'.sfences ≡ s.sfences
