-- ===== src/Riscv/Page/Descend/Gone.antt =====
-- The steps of page_unmap_4k_sv39: each ends with the translation of one page gone.
use abstract_machine.Base.{
  ℕ, suc, ◌*◌, ◌%◌, ◌^◌, ◌≤◌, ◌<◌, ◌≡◌, ◌≢◌, ◌⊎◌, inl, inr, refl, arith, ◌∙◌, ap, ◌!=◌, ◌==◌, true,
  false, Bool-cases, some, none, Bool,
}
use abstract_machine.Riscv.Outcome.{ok, and_then, Outcome, pure, Run, ◌>>=◌}
use abstract_machine.Riscv.Page.Words.{State, entry, write_word}
use abstract_machine.Riscv.Page.Words.Slots.{slot, entry-slot}
use abstract_machine.Riscv.Page.Arena.Alloc.{HasRoom, HasRoom-fewer}
use abstract_machine.Riscv.Page.Pte.{pte_address, is_valid, is_leaf}
use abstract_machine.Riscv.Page.Pte.Fields.{is_valid_lem}
use abstract_machine.Riscv.Page.Table.{demote, next_table, present_table, unmap_entry, unmap_below}
use abstract_machine.Riscv.Page.Walk.{walk, upper, index, span}
use abstract_machine.Riscv.Page.Tree.{Places, IsTree}
use abstract_machine.Riscv.Page.Tree.Frame.{walk_head}
use abstract_machine.Riscv.Page.Tree.Install.{IsPlain}
use abstract_machine.Riscv.Page.Tree.Leaf.{
  written-IsTree, written_others, written_here, written_keeps,
}
use abstract_machine.Riscv.Page.Descend.Path.{Reached, next}

and_then-some :
    (o : Outcome (ℕ × State)) (q : ℕ) (s' : State)
    → o ≡ ok (q, s')
    → and_then o (λ next. pure (some next)) ≡ ok (some q, s')
and_then-some o q s' h = rw h

-- On a valid entry present_table does what next_table does.
present_table_valid :
    (table idx size q : ℕ) (s s' : State)
    → is_valid (s.mem (entry table idx)) ≡ true
    → next_table table idx size s ≡ ok (q, s')
    → present_table table idx size s ≡ ok (some q, s')
unfolding next_table present_table
present_table_valid table idx size q s s' valid h =
    elim (Bool-cases (is_leaf (s.mem (entry table idx)))) [
      | inl leaf ↦
          rw (valid, leaf) (and_then-some (demote table idx size s) q s' (rw (valid, leaf) at h))
      | inr found ↦
          rw (valid, found)
            (and_then-some (pure (pte_address (s.mem (entry table idx))) s) q s'
              (rw (valid, found) at h))
    ]

present_table_invalid :
    (table idx size : ℕ) (s : State)
    → is_valid (s.mem (entry table idx)) ≡ false
    → present_table table idx size s ≡ ok (none, s)
unfolding present_table
present_table_invalid table idx size s invalid = rw invalid

-- An entry that is not valid ends the walk.
walk_invalid :
    (m : ℕ → ℕ) (level p v : ℕ) → (m (slot p (index level v)) % 2 ≡ 0) → walk m level p v ≡ none
walk_invalid m level p v h = let (below, e) = walk_head m level p v in e ∙ ground arith

-- What page_unmap_4k_sv39 owes for the page `v`: the tree is whole, `v` has no translation, and
-- every other page number is translated as before; the answer is 1, after one sfence.vma, or 0, and
-- then `v` had no translation before either.
pub record Unmapped (root : ℕ) (own : Places) (s : State) (v k answer : ℕ) (after : State)
    : Type 0 where
  pub places : Places
  pub tree : IsTree 2 root places after
  pub keeps_places : (p l c : ℕ) → own p ≡ some (l, c) → places p ≡ some (l, c)
  pub gone : walk after.mem 2 root v ≡ none
  pub others : (w : ℕ) → w < 2 ^ 27 → w ≢ v → walk after.mem 2 root w ≡ walk s.mem 2 root w
  pub answers :
      ((answer ≡ 1) × (after.sfences ≡ suc s.sfences))
      ⊎ ((answer ≡ 0) × (after.sfences ≡ s.sfences) × (walk s.mem 2 root v ≡ none))
  pub room : HasRoom k after
  pub same_satp : after.satp ≡ s.satp

module _ {root : ℕ} {own own' : Places} {s s' : State} (n k v level q : ℕ) (n_ok : n ≤ k)
    (v_ok : v < 2 ^ 27) (r : Reached 2 root own s k v level q own' s') where
  -- The entry that was reached is not valid.
  missing : s'.mem (slot q (index level v)) % 2 ≡ 0 → Unmapped root own s v n 0 s'
  missing invalid =
      let none_here : walk s'.mem 2 root v ≡ none =
        r.through s'.mem (λ p l c j h lt j_lt ptr. refl) v refl
        ∙ walk_invalid s'.mem level q v invalid in
      record {
        places = own';
        tree = r.tree;
        keeps_places = r.keeps_places;
        gone = none_here;
        others = λ w w_ok ne. r.same_walks w (omega arith);
        answers = inr (refl, r.same_sfences, ground (arith, none_here, r.same_walks v));
        room = HasRoom-fewer n k s' n_ok r.room;
        same_satp = r.same_satp;
      }

  here : entry (q * 4096) (index level v) ≡ slot q (index level v)
  here =
      entry-slot q (index level v)
        (ground
          (arith, r.tree.below q level (upper (suc level) v) r.at, r.room.room, r.room.physical))
        (omega arith)

  valid_here :
      (b : Bool)
      → (s'.mem (slot q (index level v)) % 2 != 0) ≡ b
      → is_valid (s'.mem (entry (q * 4096) (index level v))) ≡ b
  valid_here b h = rw here (is_valid_lem (s'.mem (slot q (index level v))) ∙ h)

-- How a call ends: it returns, and keeps what is owed.
abbrev pub Ends : ℕ → Places → State → ℕ → ℕ → Outcome (ℕ × State) → Type 0
Ends root own s v k run =
    (after : State) × (answer : ℕ) × (run ≡ ok (answer, after))
    × Unmapped root own s v k answer after

zero-IsPlain : IsPlain 0 0
zero-IsPlain = record {
  no_pointer = λ h. omega arith;
  aligned = λ h. absurd (omega arith);
  fits = omega arith;
}

module _ {root : ℕ} {own own' : Places} {s s' : State} (n k v q : ℕ) (n_ok : n ≤ k)
    (v_ok : v < 2 ^ 27) (r : Reached 2 root own s k v 0 q own' s') where
  abbrev cleared : State
  cleared = record s' { mem = write_word s'.mem (slot q (index 0 v)) 0; sfences = suc s'.sfences }

  cleared-Unmapped : Unmapped root own s v n 1 cleared
  cleared-Unmapped =
      let b = upper 1 v in
      let i = index 0 v in
      let i_ok : i < 512 = omega arith in
      let w = written-IsTree q 0 b i 0 r.tree r.at i_ok zero-IsPlain in
      let kept = λ (p l c j : ℕ) (h : own' p ≡ some (l, c)) (ne : l ≢ 0) (j_ok : j < 512).
        written_keeps q 0 b i 0 r.tree r.at i_ok zero-IsPlain p l c j h ne j_ok in
      let (below, at_leaf) = written_here q 0 b i 0 r.tree r.at i_ok zero-IsPlain v refl in
      record {
        places = own';
        tree = record {
          rooted = w.rooted;
          below = w.below;
          pointers = w.pointers;
          leaves = w.leaves;
          fits = w.fits;
        };
        keeps_places = r.keeps_places;
        gone =
            r.through cleared.mem (λ p l c j h lt j_ok ptr. kept p l c j h (λ e. omega arith) j_ok)
              v refl
            ∙ at_leaf
            ∙ refl;
        others = λ x x_ok ne.
            written_others q 0 b i 0 r.tree r.at i_ok zero-IsPlain x (omega arith)
              (λ same. ne (omega arith))
            ∙ r.same_walks x (omega arith);
        answers = inl (refl, ap suc r.same_sfences);
        room =
            HasRoom-fewer n k cleared n_ok
              (record { room = r.room.room; physical = r.room.physical });
        same_satp = r.same_satp;
      }

  pub unmap_entry-Ends : Ends root own s v n (unmap_entry (q * 4096) (index 0 v) s')
  unfolding unmap_entry
  unmap_entry-Ends = elim (Bool-cases (s'.mem (slot q (index 0 v)) % 2 == 0)) [
    | inl invalid ↦ (
      s',
      0,
      rw (valid_here n k v 0 q n_ok v_ok r false (ground arith)),
      missing n k v 0 q n_ok v_ok r (ground arith),
    )
    | inr valid ↦ (
      cleared,
      1,
      rw (valid_here n k v 0 q n_ok v_ok r true (ground arith), here n k v 0 q n_ok v_ok r),
      cleared-Unmapped,
    )
  ]

-- One level up: on a missing table the routine returns 0, and else goes on below.
module _ {root : ℕ} {own own' : Places} {s s' : State} (n k v level q : ℕ) (n_ok : n ≤ suc k)
    (v_ok : v < 2 ^ 27) (r : Reached 2 root own s (suc k) v (suc level) q own' s')
    (go_on : ℕ → Run State ℕ) where
  pub present_table-Ends :
      ((q' : ℕ) (own2 : Places) (s2 : State)
        → Reached 2 root own s k v level q' own2 s2
        → Ends root own s v n (go_on (q' * 4096) s2))
      → Ends root own s v n (
          (present_table (q * 4096) (index (suc level) v) (span level * 4096) >>= unmap_below go_on)
            s')
  unfolding unmap_below
  present_table-Ends rest = elim (Bool-cases (s'.mem (slot q (index (suc level) v)) % 2 == 0)) [
    | inl invalid ↦ (
      s',
      0,
      rw (
          present_table_invalid (q * 4096) (index (suc level) v) (span level * 4096) s'
            (valid_here n (suc k) v (suc level) q n_ok v_ok r false (ground arith))),
      missing n (suc k) v (suc level) q n_ok v_ok r (ground arith),
    )
    | inr valid ↦
        let step = next k v r in
        let (after, answer, returns, owed) = rest step.page step.places step.after step.reached in
        (
          after,
          answer,
          rw
              (present_table_valid (q * 4096) (index (suc level) v) (span level * 4096)
                (step.page * 4096) s' step.after
                (valid_here n (suc k) v (suc level) q n_ok v_ok r true (ground arith)) step.returns)
              returns,
          owed,
        )
  ]
