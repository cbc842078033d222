-- ===== src/Riscv/Page/Tree/Frame.antt =====
-- A change of the memory that no step of a walk notices.
use abstract_machine.Base.{
  ℕ, zero, suc, ◌/◌, ◌%◌, ◌≡◌, ◌⊎◌, inl, inr, ◌==◌, Option, some, none, refl, arith, ◌∙◌, ap,
  Bool-cases,
}
use abstract_machine.Riscv.Page.Words.{State}
use abstract_machine.Riscv.Page.Words.Slots.{slot}
use abstract_machine.Riscv.Page.Walk.{Translation, walk, resolve, upper, index, ppn}
use abstract_machine.Riscv.Page.Tree.{Places, IsTree, IsPointer}

-- Only a pointer looks at the next level.
resolve_below :
    (level pte v : ℕ) (x y : Option Translation)
    → (IsPointer pte → x ≡ y)
    → resolve level pte v x ≡ resolve level pte v y
resolve_below level pte v x y h = elim (Bool-cases (pte % 2 == 0)) [
  | inl e ↦ rw e
  | inr e ↦ rw e (elim (Bool-cases (pte / 2 % 4 == 2)) [
    | inl w ↦ rw w
    | inr w ↦ rw w (elim (Bool-cases (pte / 2 % 8 == 0)) [
      | inl e' ↦ rw e' (h (ground arith))
      | inr e' ↦ rw e'
    ])
  ])
]

walk_step :
    (m : ℕ → ℕ) (level p v : ℕ)
    → walk m (suc level) p v
      ≡ resolve
          (suc level)
          (m (slot p (index (suc level) v)))
          v
          (walk m level (ppn (m (slot p (index (suc level) v)))) v)
unfolding walk
walk_step m level p v = refl

-- The page that a pointer names belongs to the place below.
pub child_place :
    {top root : ℕ} {own : Places} {s : State} (level p v : ℕ)
    → IsTree top root own s
    → own p ≡ some (suc level, upper (suc (suc level)) v)
    → IsPointer (s.mem (slot p (index (suc level) v)))
    → own (ppn (s.mem (slot p (index (suc level) v)))) ≡ some (level, upper (suc level) v)
child_place level p v tree at h =
    let u = upper (suc level) v in
    tree.pointers p level (u / 512) (u % 512) at (omega arith) h
    ∙ ap {B = Option (ℕ × ℕ)} (λ t. some (level, t)) (omega arith)

-- At every table on the way of `v`, the entry is the same or the walk from there is.
module _ {top root : ℕ} {own : Places} {s : State} (tree : IsTree top root own s) (m' : ℕ → ℕ)
    (v : ℕ)
    (local : (level p : ℕ)
      → own p ≡ some (level, upper (suc level) v)
      → (m' (slot p (index level v)) ≡ s.mem (slot p (index level v)))
        ⊎ (walk m' level p v ≡ walk s.mem level p v)) where
  pub walk_same :
      (level p : ℕ)
      → own p ≡ some (level, upper (suc level) v)
      → walk m' level p v ≡ walk s.mem level p v
  walk_same zero p at = elim (local zero p at) [ inl e ↦ unfold walk in rw e | inr e ↦ e ]
  walk_same (suc level) p at =
      let pte = s.mem (slot p (index (suc level) v)) in
      let rest : IsPointer pte → walk m' level (ppn pte) v ≡ walk s.mem level (ppn pte) v =
        λ h. walk_same level (ppn pte) (child_place level p v tree at h) in
      elim (local (suc level) p at) [
        | inl e ↦
            rw (walk_step m' level p v, walk_step s.mem level p v, e)
              (resolve_below (suc level) pte v _ _ rest)
        | inr e ↦ e
      ]

-- A walk starts by what its first entry means.
pub walk_head :
    (m : ℕ → ℕ) (level p v : ℕ)
    → (below : Option Translation) × (walk m level p v
        ≡ resolve level (m (slot p (index level v))) v below)
walk_head m zero p v = (none, unfold walk in refl)
walk_head m (suc level) p v =
    (walk m level (ppn (m (slot p (index (suc level) v)))) v, walk_step m level p v)

-- Through a pointer a walk goes on in the table below.
pub walk_pointer :
    (m : ℕ → ℕ) (level p v : ℕ)
    → IsPointer (m (slot p (index (suc level) v)))
    → walk m (suc level) p v ≡ walk m level (ppn (m (slot p (index (suc level) v)))) v
walk_pointer m level p v h = walk_step m level p v ∙ ground arith
