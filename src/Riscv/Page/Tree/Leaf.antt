-- ===== src/Riscv/Page/Tree/Leaf.antt =====
-- An entry of a table of the tree is written, and gets no table below it.
use abstract_machine.Base.{
  ℕ, suc, ◌+◌, ◌*◌, ◌<◌, ◌≡◌, ◌≢◌, ◌⊎◌, inl, inr, Option, some, arith, ◌∙◌, ap, Bool-cases, ◌==◌,
}
use abstract_machine.Riscv.Page.Words.{State, write_word}
use abstract_machine.Riscv.Page.Words.Slots.{slot, write_word_self}
use abstract_machine.Riscv.Page.Walk.{walk, upper, index, resolve, Translation}
use abstract_machine.Riscv.Page.Tree.{Places, IsTree}
use abstract_machine.Riscv.Page.Tree.Frame.{walk_same, walk_head}
use abstract_machine.Riscv.Page.Tree.Install.{IsPlain}

module _ {top root : ℕ} {own : Places} {s : State} (p level b i e : ℕ)
    (tree : IsTree top root own s) (at : own p ≡ some (level, b)) (slot_ok : i < 512)
    (plain : IsPlain level e) where
  abbrev pub written : State
  written = record s { mem = write_word s.mem (slot p i) e }

  -- An entry of the tree afterwards: the one written, in its place, or as it was.
  pub written_cases :
      (q l c j : ℕ)
      → own q ≡ some (l, c)
      → j < 512
      → ((l ≡ level) × (c ≡ b) × (j ≡ i) × (written.mem (slot q j) ≡ e))
        ⊎ (written.mem (slot q j) ≡ s.mem (slot q j))
  unfolding write_word
  written_cases q l c j h lt = elim (Bool-cases (slot q j == slot p i)) [
    | inl same ↦ inl (ground arith)
    | inr other ↦ inr (ground arith)
  ]

  pub written-IsTree : IsTree top root own written
  written-IsTree = record {
    rooted = tree.rooted;
    below = tree.below;
    pointers = λ q l c j h lt ptr. elim (written_cases q (suc l) c j h lt) [
      | inl (_, _, _, w) ↦ absurd (plain.no_pointer (rw w at ptr))
      | inr w ↦ rw w (tree.pointers q l c j h lt (rw w at ptr))
    ];
    leaves = λ q l c j h lt leaf. elim (written_cases q l c j h lt) [
      | inl (l_eq, _, _, w) ↦ rw (l_eq, w) (plain.aligned (rw w at leaf))
      | inr w ↦ rw w (tree.leaves q l c j h lt (rw w at leaf))
    ];
    fits = λ q l c j h lt. elim (written_cases q l c j h lt) [
      | inl (_, _, _, w) ↦ rw w plain.fits
      | inr w ↦ rw w (tree.fits q l c j h lt)
    ];
  }

  -- Walks that do not come by the entry are as before.
  pub written_others :
      (v : ℕ)
      → upper (suc top) v ≡ 0
      → upper level v ≢ b * 512 + i
      → walk written.mem top root v ≡ walk s.mem top root v
  written_others v e' ne =
      walk_same tree written.mem v
        (λ l q h. elim (written_cases q l (upper (suc l) v) (index l v) h (omega arith)) [
          | inl (l_eq, c_eq, j_eq, _) ↦
              let same : upper l v ≡ upper level v = ap (λ n. upper n v) l_eq in
              absurd (ne (omega arith))
          | inr same ↦ inl same
        ])
        top root (ground (arith, tree.rooted))

  -- A walk that comes to the entry reads what was written.
  pub written_here :
      (v : ℕ)
      → index level v ≡ i
      → (below : Option Translation) × (walk written.mem level p v ≡ resolve level e v below)
  written_here v e' =
      let (below, h) = walk_head written.mem level p v in
      (below, h ∙ rw (e', write_word_self s.mem (slot p i) e))

  -- Pointers of other levels stay.
  pub written_keeps :
      (q l c j : ℕ)
      → own q ≡ some (l, c)
      → l ≢ level
      → j < 512
      → written.mem (slot q j) ≡ s.mem (slot q j)
  written_keeps q l c j h ne lt = elim (written_cases q l c j h lt) [
    | inl c ↦ absurd (ne c.0)
    | inr same ↦ same
  ]
