-- ===== src/Riscv/Page/Tree/Install.antt =====
-- A new table below an entry that is no pointer, with entries that mean what that entry meant.
use abstract_machine.Base.{
  ℕ, suc, ◌+◌, ◌*◌, ◌^◌, ◌≤◌, ◌<◌, ◌≡◌, ◌≢◌, ◌⊎◌, inl, inr, ◌==◌, Option, some, arith, ap,
  Bool-cases,
}
use abstract_machine.Riscv.Page.Words.{State}
use abstract_machine.Riscv.Page.Words.Slots.{slot}
use abstract_machine.Riscv.Page.Arena.Alloc.{free_to, next_page, HasRoom}
use abstract_machine.Riscv.Page.Walk.{Translation, walk, resolve, upper, index, ppn}
use abstract_machine.Riscv.Page.Tree.{Places, place, IsTree, IsPointer, IsLeaf, IsAligned}
use abstract_machine.Riscv.Page.Tree.Frame.{walk_same, walk_head, walk_pointer}

-- An entry that may stand in a table of the level without a table below it.
pub record IsPlain (level pte : ℕ) : Type 0 where
  pub no_pointer : ¬ IsPointer pte
  pub aligned : IsLeaf pte → IsAligned level pte
  pub fits : pte < 2 ^ 54

-- `s'` is `s` with the next free page taken for a table of the entries `f`, and entry `i` of the
-- table at page `t` pointing to it.
pub record Installs (s : State) (t i : ℕ) (f : ℕ → ℕ) (s' : State) : Type 0 where
  pub entries : (j : ℕ) → j < 512 → s'.mem (slot (next_page s) j) ≡ f j
  pub link : s'.mem (slot t i) ≡ next_page s * 1024 + 1
  pub others :
      (a : ℕ)
      → (a < next_page s * 4096) ⊎ (next_page s * 4096 + 4096 ≤ a)
      → a ≢ slot t i
      → s'.mem a ≡ s.mem a
  pub pointer : s'.arena_ptr ≡ next_page s * 4096 + 4096
  pub end : s'.arena_end ≡ free_to s

module _ {top root : ℕ} {own : Places} {s s' : State} (k t level b i : ℕ) (f : ℕ → ℕ)
    (tree : IsTree top root own s) (room : HasRoom (suc k) s) (at : own t ≡ some (suc level, b))
    (slot_ok : i < 512) (plain : (j : ℕ) → j < 512 → IsPlain level (f j))
    (installs : Installs s t i f s') where
  abbrev own' : Places
  own' = place own (next_page s) (level, b * 512 + i)

  fresh : (p l c : ℕ) → own p ≡ some (l, c) → (p < next_page s)
  fresh p l c h = ground (arith, tree.below p l c h)

  new_physical : next_page s < 2 ^ 44
  new_physical = ground (arith, room.room, room.physical)

  kept :
      (p l c j : ℕ)
      → own p ≡ some (l, c)
      → j < 512
      → ((p ≡ t) × (j ≡ i)) ⊎ (s'.mem (slot p j) ≡ s.mem (slot p j))
  kept p l c j h lt = elim (Bool-cases (slot p j == slot t i)) [
    | inl e ↦ inl (ground arith)
    | inr e ↦ inr (ground (arith, fresh p l c, installs.others (slot p j)))
  ]

  -- An entry of the tree afterwards: in the new table, the link to it, or as it was.
  data Sort (p l c j : ℕ) : Type 0 where
    new : p ≡ next_page s → l ≡ level → c ≡ b * 512 + i → s'.mem (slot p j) ≡ f j → Sort p l c j
    link : l ≡ suc level → c ≡ b → j ≡ i → s'.mem (slot p j) ≡ next_page s * 1024 + 1 → Sort p l c j
    old : own p ≡ some (l, c) → s'.mem (slot p j) ≡ s.mem (slot p j) → Sort p l c j

  sort_old : (p l c j : ℕ) → own p ≡ some (l, c) → j < 512 → Sort p l c j
  sort_old p l c j h lt = elim (kept p l c j h lt) [
    | inl e ↦ link (ground arith) (ground arith) e.1 (ground (arith, installs.link))
    | inr e ↦ old h e
  ]

  sort : (p l c j : ℕ) → own' p ≡ some (l, c) → j < 512 → Sort p l c j
  sort p l c j h lt = elim (Bool-cases (p == next_page s)) [
    | inl e ↦ new (ground arith) (ground arith) (ground arith) (ground (arith, installs.entries j))
    | inr e ↦ sort_old p l c j (ground arith) lt
  ]

  pointers' :
      (p l c j : ℕ)
      → Sort p (suc l) c j
      → j < 512
      → IsPointer (s'.mem (slot p j))
      → own' (ppn (s'.mem (slot p j))) ≡ some (l, c * 512 + j)
  pointers' p l c j (new e _ _ m) lt h = absurd ((plain j lt).no_pointer (ground arith))
  pointers' p l c j (link e e' e'' m) lt h = ground (arith, new_physical)
  pointers' p l c j (old o m) lt h =
      ground (arith, tree.pointers p l c j, fresh (ppn (s.mem (slot p j))) l (c * 512 + j))

  leaves' :
      (p l c j : ℕ)
      → Sort p l c j
      → j < 512
      → IsLeaf (s'.mem (slot p j))
      → IsAligned l (s'.mem (slot p j))
  leaves' p l c j (new _ e _ m) lt h = rw (e, m) ((plain j lt).aligned (ground arith))
  leaves' p l c j (link e e' e'' m) lt h = absurd (ground arith)
  leaves' p l c j (old o m) lt h = rw m (tree.leaves p l c j o lt (rw m at h))

  fits' : (p l c j : ℕ) → Sort p l c j → j < 512 → s'.mem (slot p j) < 2 ^ 54
  fits' p l c j (new _ _ _ m) lt = ground (arith, (plain j lt).fits)
  fits' p l c j (link _ _ _ m) lt = ground (arith, new_physical)
  fits' p l c j (old o m) lt = ground (arith, tree.fits p l c j)

  pub install-IsTree : IsTree top root own' s'
  install-IsTree = record {
    rooted = ground (arith, tree.rooted, fresh root top 0);
    below = λ p l c h. ground (arith, fresh p l c, tree.below p l c, installs.pointer);
    pointers = λ p l c j h lt ptr. pointers' p l c j (sort p (suc l) c j h lt) lt ptr;
    leaves = λ p l c j h lt leaf. leaves' p l c j (sort p l c j h lt) lt leaf;
    fits = λ p l c j h lt. fits' p l c j (sort p l c j h lt) lt;
  }

  -- Every walk is as before, if the new entries mean what the old one meant.
  module _ (not_pointer : ¬ IsPointer (s.mem (slot t i)))
      (same_meaning : (v : ℕ) (x y : Option Translation)
        → upper (suc level) v ≡ b * 512 + i
        → resolve level (f (index level v)) v x ≡ resolve (suc level) (s.mem (slot t i)) v y) where
    walk_through :
        (v : ℕ)
        → upper (suc level) v ≡ b * 512 + i
        → walk s'.mem (suc level) t v ≡ walk s.mem (suc level) t v
    walk_through v e =
        let u = upper (suc level) v in
        let n = next_page s in
        let here : index (suc level) v ≡ i = omega arith in
        let link_here : s'.mem (slot t (index (suc level) v)) ≡ n * 1024 + 1 =
          rw here installs.link in
        let below : ppn (s'.mem (slot t (index (suc level) v))) ≡ n =
          ground (arith, link_here, new_physical) in
        let (y, before) = walk_head s.mem (suc level) t v in
        let (x, after) = walk_head s'.mem level n v in
        let entry_here : s.mem (slot t (index (suc level) v)) ≡ s.mem (slot t i) = rw here in
        cc (
          walk_pointer s'.mem level t v (ground (arith, link_here)),
          below,
          before,
          after,
          entry_here,
          installs.entries (index level v) (omega arith),
          same_meaning v x y e,
        )

    pub install_walk :
        (v : ℕ) → upper (suc top) v ≡ 0 → walk s'.mem top root v ≡ walk s.mem top root v
    install_walk v e = walk_same tree s'.mem v local top root (ground (arith, tree.rooted))
      where
        local :
            (l p : ℕ)
            → own p ≡ some (l, upper (suc l) v)
            → (s'.mem (slot p (index l v)) ≡ s.mem (slot p (index l v)))
              ⊎ (walk s'.mem l p v ≡ walk s.mem l p v)
        local l p h = elim (kept p l (upper (suc l) v) (index l v) h (omega arith)) [
          | inl (p_eq, i_eq) ↦
              let level_eq : l ≡ suc level = ground arith in
              let same_upper : upper l v ≡ upper (suc level) v = ap (λ n. upper n v) level_eq in
              inr (rw (level_eq, p_eq) (walk_through v (ground arith)))
          | inr same ↦ inl same
        ]

    -- A pointer of the tree stays what it is.
    pub install_keeps :
        (p l c j : ℕ)
        → own p ≡ some (l, c)
        → j < 512
        → IsPointer (s.mem (slot p j))
        → s'.mem (slot p j) ≡ s.mem (slot p j)
    install_keeps p l c j h lt ptr = elim (kept p l c j h lt) [
      | inl (p_eq, j_eq) ↦ absurd (not_pointer (rw (p_eq, j_eq) at ptr))
      | inr same ↦ same
    ]
