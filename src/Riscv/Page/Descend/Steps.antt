-- ===== src/Riscv/Page/Descend/Steps.antt =====
-- The step to the table below: made where there is none, made of a leaf, or found.
use abstract_machine.Base.{
  ℕ, suc, ◌+◌, ◌*◌, ◌/◌, ◌%◌, ◌^◌, ◌≤◌, ◌<◌, ◌≡◌, ◌⊎◌, inl, inr, Option, some, refl, arith, ◌∙◌,
  Bool-cases, true, false, ◌==◌,
}
use abstract_machine.Riscv.Outcome.{ok}
use abstract_machine.Riscv.Page.Words.{State, entry, write_word, fill}
use abstract_machine.Riscv.Page.Words.Slots.{
  slot, entry-slot, write_word_self, write_word_ne, fill_at, fill_off,
}
use abstract_machine.Riscv.Page.Arena.Alloc.{
  next_page, allocated, HasRoom, page_alloc_table-ok, HasRoom-allocated,
}
use abstract_machine.Riscv.Page.Pte.{pte_next, is_valid, is_leaf, pte_address}
use abstract_machine.Riscv.Page.Pte.Fields.{
  pte_next_lem, is_valid_lem, is_leaf_lem, pte_address_lem,
}
use abstract_machine.Riscv.Page.Table.{demote, next_table}
use abstract_machine.Riscv.Page.Walk.{span, ppn, upper, resolve, Translation, index}
use abstract_machine.Riscv.Page.Tree.{Places, place, IsTree, IsPointer, IsLeaf}
use abstract_machine.Riscv.Page.Tree.Install.{
  IsPlain, Installs, install-IsTree, install_walk, install_keeps,
}
use abstract_machine.Riscv.Page.Descend.{Descended}
use abstract_machine.Riscv.Page.Descend.Entries.{demoted, demoted-IsPlain, demoted_meaning}

-- After an allocation: a memory, and entry `i` of page `t` pointing to the new table.
abbrev linked : State → ℕ → ℕ → (ℕ → ℕ) → State
linked s t i m = record (allocated s) { mem = write_word m (slot t i) (next_page s * 1024 + 1) }

-- What `next_table` owes: it returns the table below, and the tree holds it.
pub record Stepped (top root : ℕ) (own : Places) (s : State) (k t level b i : ℕ) : Type 0 where
  pub page : ℕ
  pub places : Places
  pub after : State
  pub returns : next_table (t * 4096) i (span level * 4096) s ≡ ok (page * 4096, after)
  pub descended : Descended top root own s k t level b i page places after

module _ {top root : ℕ} {own : Places} {s : State} (k t level b i : ℕ)
    (tree : IsTree top root own s) (room : HasRoom (suc k) s) (at : own t ≡ some (suc level, b))
    (slot_ok : i < 512) where
  abbrev old : ℕ
  old = s.mem (slot t i)

  table_below : t < next_page s
  table_below = ground (arith, tree.below t (suc level) b at)

  page_physical : next_page s < 2 ^ 44
  page_physical = ground (arith, room.room, room.physical)

  here : entry (t * 4096) i ≡ slot t i
  here = entry-slot t i (omega (arith, table_below, page_physical)) slot_ok

  link_value : pte_next (next_page s * 4096) ≡ next_page s * 1024 + 1
  link_value = omega (arith, pte_next_lem (next_page s * 4096), page_physical)

  demote-ok :
      (size : ℕ)
      → demote (t * 4096) i size s
        ≡ ok (
          next_page s * 4096,
          linked s t i (fill 512 (allocated s).mem (next_page s * 4096) (demoted size old)),
        )
  unfolding demote
  demote-ok size = rw (page_alloc_table-ok k s room, here, link_value)

  -- Both ways to fill the new table install it.
  linked-Installs :
      (m : ℕ → ℕ) (f : ℕ → ℕ)
      → ((j : ℕ) → j < 512 → m (slot (next_page s) j) ≡ f j)
      → ((a : ℕ) → (a < next_page s * 4096) ⊎ (next_page s * 4096 + 4096 ≤ a) → m a ≡ s.mem a)
      → Installs s t i f (linked s t i m)
  linked-Installs m f filled off = record {
    entries = λ j lt.
        write_word_ne m (slot t i) _ (slot (next_page s) j) (λ e. omega (arith, table_below))
        ∙ filled j lt;
    link = write_word_self m (slot t i) _;
    others = λ a out ne. write_word_ne m (slot t i) _ a ne ∙ off a out;
    pointer = refl;
    end = refl;
  }

  abbrev new_places : Places
  new_places = place own (next_page s) (level, b * 512 + i)

  linked-Descended :
      (m : ℕ → ℕ) (f : ℕ → ℕ)
      → ((j : ℕ) → j < 512 → IsPlain level (f j))
      → ¬ IsPointer old
      → ((v : ℕ) (x y : Option Translation)
          → upper (suc level) v ≡ b * 512 + i
          → resolve level (f (index level v)) v x ≡ resolve (suc level) old v y)
      → ((j : ℕ) → j < 512 → m (slot (next_page s) j) ≡ f j)
      → ((a : ℕ) → (a < next_page s * 4096) ⊎ (next_page s * 4096 + 4096 ≤ a) → m a ≡ s.mem a)
      → Descended top root own s k t level b i (next_page s) new_places (linked s t i m)
  linked-Descended m f plain not_pointer meaning filled off =
      let put = linked-Installs m f filled off in
      let left = HasRoom-allocated k s room in
      record {
        tree = install-IsTree k t level b i f tree room at slot_ok plain put;
        room = record { room = left.room; physical = left.physical };
        keeps_places = λ p l c h. ground (arith, tree.below p l c h);
        same_walks =
            install_walk k t level b i f tree room at slot_ok plain put not_pointer meaning;
        keeps_pointers =
            install_keeps k t level b i f tree room at slot_ok plain put not_pointer meaning;
        child = ground arith;
        points = rw put.link (omega arith);
        target = rw put.link (omega (arith, page_physical));
        same_satp = refl;
        same_sfences = refl;
      }

  zero_off :
      (a : ℕ)
      → (a < next_page s * 4096) ⊎ (next_page s * 4096 + 4096 ≤ a)
      → (allocated s).mem a ≡ s.mem a
  zero_off a out =
      fill_off 512 s.mem (next_page s) (λ j. 0) a (omega (arith, page_physical)) (omega arith) out

  fresh-Descended :
      old % 2 ≡ 0
      → Descended top root own s k t level b i
          (next_page s)
          new_places
          (linked s t i (allocated s).mem)
  fresh-Descended invalid =
      linked-Descended (allocated s).mem (λ j. 0)
        (λ j lt. record {
          no_pointer = λ h. omega arith;
          aligned = λ h. absurd (omega arith);
          fits = omega arith;
        })
        (λ h. omega arith) (λ v x y e. ground arith)
        (λ j lt.
          fill_at 512 s.mem (next_page s) (λ n. 0) j (omega (arith, page_physical)) (omega arith)
            lt)
        zero_off

  demote-Descended :
      IsLeaf old
      → Descended top root own s k t level b i (next_page s) new_places (
          linked s t i
            (fill 512 (allocated s).mem (next_page s * 4096) (demoted (span level * 4096) old)))
  demote-Descended leaf =
      let aligned = tree.leaves t (suc level) b i at slot_ok leaf in
      let fits = tree.fits t (suc level) b i at slot_ok in
      let f = demoted (span level * 4096) old in
      let n = next_page s in
      linked-Descended (fill 512 (allocated s).mem (n * 4096) f) f
        (demoted-IsPlain level old leaf aligned fits) (λ h. leaf.1 h.1)
        (λ v x y e. demoted_meaning level old leaf aligned fits v x y)
        (λ j lt.
          fill_at 512 (allocated s).mem n f j (omega (arith, page_physical)) (omega arith) lt)
        (λ a out.
          fill_off 512 (allocated s).mem n f a (omega (arith, page_physical)) (omega arith) out
          ∙ zero_off a out)

  -- A pointer is followed; nothing changes.
  found-Descended : IsPointer old → Descended top root own s k t level b i (ppn old) own s
  found-Descended ptr = record {
    tree = tree;
    room = record { room = omega (arith, room.room); physical = room.physical };
    keeps_places = λ p l c h. h;
    same_walks = λ v e. refl;
    keeps_pointers = λ p l c j h lt g. refl;
    child = tree.pointers t level b i at slot_ok ptr;
    points = ptr;
    target = refl;
    same_satp = refl;
    same_sfences = refl;
  }

  next_fresh :
      (size : ℕ)
      → (old % 2 == 0) ≡ true
      → next_table (t * 4096) i size s ≡ ok (next_page s * 4096, linked s t i (allocated s).mem)
  unfolding next_table
  next_fresh size e =
      let invalid : is_valid old ≡ false = is_valid_lem old ∙ ground arith in
      rw (here, invalid, page_alloc_table-ok k s room, link_value)

  next_demote :
      (size : ℕ)
      → (old % 2 == 0) ≡ false
      → (old / 2 % 8 == 0) ≡ false
      → next_table (t * 4096) i size s ≡ demote (t * 4096) i size s
  unfolding next_table
  next_demote size e e' =
      let valid : is_valid old ≡ true = is_valid_lem old ∙ ground arith in
      let leaf : is_leaf old ≡ true = is_leaf_lem old ∙ ground arith in rw (here, valid, leaf)

  next_found :
      (size : ℕ)
      → (old % 2 == 0) ≡ false
      → (old / 2 % 8 == 0) ≡ true
      → next_table (t * 4096) i size s ≡ ok (ppn old * 4096, s)
  unfolding next_table
  next_found size e e' =
      let valid : is_valid old ≡ true = is_valid_lem old ∙ ground arith in
      let leaf : is_leaf old ≡ false = is_leaf_lem old ∙ ground arith in
      let fits = tree.fits t (suc level) b i at slot_ok in
      let target : pte_address old ≡ ppn old * 4096 =
        omega (arith, pte_address_lem old (omega arith)) in
      rw (here, valid, leaf, target)

  pub next_table-Stepped : Stepped top root own s k t level b i
  next_table-Stepped = elim (Bool-cases (old % 2 == 0)) [
    | inl invalid ↦ record {
      page = next_page s;
      places = new_places;
      after = linked s t i (allocated s).mem;
      returns = next_fresh (span level * 4096) invalid;
      descended = fresh-Descended (ground arith);
    }
    | inr valid ↦ elim (Bool-cases (old / 2 % 8 == 0)) [
      | inl ptr ↦ record {
        page = ppn old;
        places = own;
        after = s;
        returns = next_found (span level * 4096) valid ptr;
        descended = found-Descended (ground arith);
      }
      | inr leaf ↦ record {
        page = next_page s;
        places = new_places;
        after =
            linked s t i
              (fill 512 (allocated s).mem (next_page s * 4096) (demoted (span level * 4096) old));
        returns = next_demote (span level * 4096) valid leaf ∙ demote-ok (span level * 4096);
        descended = demote-Descended (ground arith);
      }
    ]
  ]
