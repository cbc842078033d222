-- ===== src/Riscv/Page/Descend/Finish.antt =====
-- The last step of the mapping routines: a leaf is written into the table that was reached.
use abstract_machine.Base.{
  ℕ, suc, ◌+◌, ◌*◌, ◌/◌, ◌%◌, ◌^◌, ◌≤◌, ◌<◌, ◌≡◌, ◌≢◌, some, Option, arith, ◌∙◌, ap, ap₂, bit_or,
}
use abstract_machine.Base.Bits.{bit_or-one}
use abstract_machine.Riscv.Outcome.{ok}
use abstract_machine.Riscv.Page.Words.{State, write_word, entry}
use abstract_machine.Riscv.Page.Words.Slots.{slot, entry-slot}
use abstract_machine.Riscv.Page.Arena.Alloc.{HasRoom}
use abstract_machine.Riscv.Page.Pte.{pte_leaf, accessed_dirty, pte_v}
use abstract_machine.Riscv.Page.Pte.Fields.{pte_leaf_lem, accessed_dirty_low, accessed_dirty-lt}
use abstract_machine.Riscv.Page.Table.{set_entry}
use abstract_machine.Riscv.Page.Walk.{walk, upper, index, ppn, lower, span, Translation}
use abstract_machine.Riscv.Page.Tree.{Places, IsTree, IsLeaf}
use abstract_machine.Riscv.Page.Tree.Install.{IsPlain}
use abstract_machine.Riscv.Page.Tree.Leaf.{
  written-IsTree, written_others, written_here, written_keeps,
}
use abstract_machine.Riscv.Page.Descend.Entries.{resolve_leaf}
use abstract_machine.Riscv.Page.Descend.Path.{Reached}

-- The fields of a leaf that the mapping routines write.
pub record LeafFields (pa flags e : ℕ) : Type 0 where
  pub leaf : IsLeaf e
  pub allowed : e / 2 % 4 ≢ 2
  pub page : ppn e ≡ pa / 4096
  pub perms : e % 256 ≡ bit_or (accessed_dirty flags) pte_v % 256
  pub small : e < 2 ^ 54

pub leaf_fields :
    (pa flags : ℕ)
    → pa < 2 ^ 56
    → flags < 1024
    → flags / 2 % 8 ≢ 0
    → flags / 2 % 4 ≢ 2
    → LeafFields pa flags (pte_leaf pa (accessed_dirty flags))
leaf_fields pa flags h g rwx no_w =
    let f = accessed_dirty flags in
    let low = accessed_dirty_low flags in
    rw (pte_leaf_lem pa f (omega arith) (accessed_dirty-lt flags g)) (
      let small = accessed_dirty-lt flags g in
      record {
        leaf = (omega arith, λ e. rwx (omega (arith, low)));
        allowed = λ e. no_w (omega (arith, low));
        page = omega (arith, small);
        perms = rw bit_or-one (omega arith);
        small = omega (arith, small);
      })

-- What a mapping routine owes for the pages that share `v` above the level: it has made a whole tree
-- in which they translate to the pages from `page` on with `perms`, and every other page number is
-- translated as before; the arena has room for `k` more pages.
pub record Mapped (top root : ℕ) (own : Places) (s : State) (level v page perms k : ℕ)
    (after : State) : Type 0 where
  pub places : Places
  pub tree : IsTree top root places after
  pub keeps_places : (p l c : ℕ) → own p ≡ some (l, c) → places p ≡ some (l, c)
  pub maps :
      (w : ℕ)
      → upper level w ≡ upper level v
      → walk after.mem top root w ≡ some (record { page = page + lower level w; perms = perms })
  pub others :
      (w : ℕ)
      → upper (suc top) w ≡ 0
      → upper level w ≢ upper level v
      → walk after.mem top root w ≡ walk s.mem top root w
  pub room : HasRoom k after
  pub same_satp : after.satp ≡ s.satp
  pub same_sfences : after.sfences ≡ s.sfences

-- The pages that share `v` above the level translate to themselves.
abbrev pub Identity : ℕ → ℕ → (ℕ → ℕ) → ℕ → ℕ → ℕ → Type 0
Identity top root m level v perms =
    (w : ℕ)
    → upper level w ≡ upper level v
    → walk m top root w ≡ some (record { page = w; perms = perms })

pub Mapped-identity :
    {top root : ℕ} {own : Places} {s after : State} (level v perms k : ℕ)
    → Mapped top root own s level v v perms k after
    → ((w : ℕ) → upper level w ≡ upper level v → v + lower level w ≡ w)
    → Identity top root after.mem level v perms
Mapped-identity level v perms k mapped start_of w h =
    mapped.maps w h
    ∙ ap {B = Option Translation} (λ x. some (record { page = x; perms = perms })) (start_of w h)

module _ {top root : ℕ} {own own' : Places} {s s' : State} {k v q : ℕ} (level pa flags : ℕ)
    (r : Reached top root own s k v level q own' s') (aligned : pa / 4096 % span level ≡ 0)
    (physical : pa / 4096 + span level ≤ 2 ^ 44) (pa_ok : pa < 2 ^ 56) (flags_ok : flags < 1024)
    (rwx : flags / 2 % 8 ≢ 0) (no_w : flags / 2 % 4 ≢ 2) where
  abbrev e : ℕ
  e = pte_leaf pa (accessed_dirty flags)

  abbrev b : ℕ
  b = upper (suc level) v

  fields : LeafFields pa flags e
  fields = leaf_fields pa flags pa_ok flags_ok rwx no_w

  plain : IsPlain level e
  plain = record {
    no_pointer = λ h. fields.leaf.1 h.1;
    aligned = λ h. rw fields.page (aligned, physical);
    fits = fields.small;
  }

  index-lt : index level v < 512
  index-lt = omega arith

  abbrev pub finished : State
  finished = record s' { mem = write_word s'.mem (slot q (index level v)) e }

  pub finish_returns : set_entry (q * 4096) (index level v) e s' ≡ ok (tt, finished)
  unfolding set_entry
  finish_returns =
      let q_below = r.tree.below q level b r.at in
      let here : entry (q * 4096) (index level v) ≡ slot q (index level v) =
        entry-slot q (index level v) (ground (arith, q_below, r.room.room, r.room.physical))
          index-lt in
      rw here

  pub finish :
      Mapped top root own s level v
        (pa / 4096)
        (bit_or (accessed_dirty flags) pte_v % 256)
        k
        finished
  finish = record {
    places = own';
    tree = written-IsTree q level b (index level v) e r.tree r.at index-lt plain;
    keeps_places = r.keeps_places;
    maps = λ w h.
        let through =
          r.through finished.mem
            (λ p l c j p_at lt j_lt ptr.
              written_keeps q level b (index level v) e r.tree r.at index-lt plain p l c j p_at
                (λ same. omega arith) j_lt)
            w (ap (λ n. n / 512) h) in
        let (below, here) =
          written_here q level b (index level v) e r.tree r.at index-lt plain w
            (ap (λ n. n % 512) h) in
        let aligned' : ppn e % span level ≡ 0 = rw fields.page aligned in
        through
        ∙ here
        ∙ resolve_leaf level e w below fields.leaf fields.allowed aligned'
        ∙ ap₂ {C = Option Translation}
            (λ x y. some (record { page = x + lower level w; perms = y })) fields.page fields.perms;
    others = λ w h ne.
        written_others q level b (index level v) e r.tree r.at index-lt plain w h
          (λ same. ne (omega arith))
        ∙ r.same_walks w h;
    room = record { room = r.room.room; physical = r.room.physical };
    same_satp = r.same_satp;
    same_sfences = r.same_sfences;
  }
