-- ===== src/Riscv/Page/Descend/Entries.antt =====
-- The 512 leaves that a demoted leaf gives way to cover its range with its permissions.
use native.Mathlib.Nat.{div-add-mod, mul-mod_left}
use abstract_machine.Base.{
  ◌==◌, ◌≢◌, none, Bool-cases, inl, inr, ℕ, zero, suc, ◌+◌, ◌*◌, ◌/◌, ◌%◌, ◌^◌, ◌≤◌, ◌<◌, ◌≡◌,
  bit_and, Option, some, arith, ◌∙◌, ap, ap₂, sym,
}
use abstract_machine.Riscv.Page.Words.{u64}
use abstract_machine.Riscv.Page.Pte.{pte_leaf, pte_address, pte_leaf_flags}
use abstract_machine.Riscv.Page.Pte.Fields.{pte_leaf_lem, pte_address_lem, leaf_flags_lem}
use abstract_machine.Riscv.Page.Walk.{Translation, resolve, index, lower, span, ppn}
use abstract_machine.Riscv.Page.Tree.{IsLeaf, IsAligned}
use abstract_machine.Riscv.Page.Tree.Install.{IsPlain}

-- Leaf `j` of those that `demote` makes of `pte`.
abbrev pub demoted : ℕ → ℕ → ℕ → ℕ
demoted size pte j = pte_leaf (u64 (pte_address pte + u64 (j * size))) (bit_and pte pte_leaf_flags)

block_fits : (j w : ℕ) → j < 512 → j * w + w ≤ 512 * w
block_fits j w h = grind arith

block_aligned : (x j w : ℕ) → x % (512 * w) ≡ 0 → (x + j * w) % w ≡ 0
block_aligned x j w h =
    let q = x / (512 * w) in
    ap (λ (n : ℕ). n % w) (grind (arith, div-add-mod x (512 * w))) ∙ mul-mod_left (512 * q + j) w

pub span_pos : (level : ℕ) → 0 < span level
span_pos zero = omega arith
span_pos (suc level) = omega (arith, span_pos level)

pub resolve_leaf :
    (level pte v : ℕ) (x : Option Translation)
    → IsLeaf pte
    → pte / 2 % 4 ≢ 2
    → ppn pte % span level ≡ 0
    → resolve level pte v x ≡ some (record { page = ppn pte + lower level v; perms = pte % 256 })
resolve_leaf level pte v x leaf allowed aligned = ground arith

-- With W and not R an entry faults.
resolve_reserved :
    (level pte v : ℕ) (x : Option Translation) → pte / 2 % 4 ≡ 2 → resolve level pte v x ≡ none
resolve_reserved level pte v x reserved = ground arith

module _ (level pte : ℕ) (leaf : IsLeaf pte) (aligned : IsAligned (suc level) pte)
    (fits : pte < 2 ^ 54) where
  abbrev size : ℕ
  size = span level * 4096

  demoted_fields :
      (j : ℕ)
      → j < 512
      → demoted size pte j ≡ (ppn pte + j * span level) * 1024 + pte / 2 % 128 * 2 + 1
  demoted_fields j lt =
      let below = block_fits j (span level) lt in
      let address : u64 (pte_address pte + u64 (j * size)) ≡ (ppn pte + j * span level) * 4096 =
        omega (arith, pte_address_lem pte (omega arith), aligned.1) in
      rw (address, leaf_flags_lem pte)
        (ground
          (arith, pte_leaf_lem ((ppn pte + j * span level) * 4096) (pte / 2 % 128 * 2), aligned.1))

  -- Leaf `j` on its fields: it is a leaf, its pages start `j` blocks in, it has the permissions.
  record Block (j : ℕ) : Type 0 where
    is_leaf : IsLeaf (demoted size pte j)
    page : ppn (demoted size pte j) ≡ ppn pte + j * span level
    perms : demoted size pte j % 256 ≡ pte % 256
    in_range : ppn pte + j * span level + span level ≤ 2 ^ 44
    word : demoted size pte j < 2 ^ 54

  block : (j : ℕ) → j < 512 → Block j
  block j lt =
      let below = block_fits j (span level) lt in
      let e = demoted_fields j lt in
      let range : ppn pte + j * span level + span level ≤ 2 ^ 44 = omega (arith, aligned.1) in
      record {
        is_leaf = rw e (omega arith);
        page = rw e (omega (arith, span_pos level));
        perms = rw e (omega arith);
        in_range = range;
        word = rw e (omega (arith, span_pos level));
      }

  pub demoted-IsPlain : (j : ℕ) → j < 512 → IsPlain level (demoted size pte j)
  demoted-IsPlain j lt = record {
    no_pointer = λ h. (block j lt).is_leaf.1 h.1;
    aligned = λ h.
        rw (block j lt).page
          (block_aligned (ppn pte) j (span level) aligned.0, (block j lt).in_range);
    fits = (block j lt).word;
  }

  pub demoted_meaning :
      (v : ℕ) (x y : Option Translation)
      → resolve level (demoted size pte (index level v)) v x ≡ resolve (suc level) pte v y
  demoted_meaning v x y =
      let j = index level v in
      let at = block j (omega arith) in
      let aligned' : ppn (demoted size pte j) % span level ≡ 0 =
        rw at.page (block_aligned (ppn pte) j (span level) aligned.0) in
      let page : ppn (demoted size pte j) + lower level v ≡ ppn pte + lower (suc level) v =
        omega (arith, at.page) in
      let low : demoted size pte j / 2 % 4 ≡ pte / 2 % 4 = omega (arith, at.perms) in
      elim (Bool-cases (pte / 2 % 4 == 2)) [
        | inl w ↦
            resolve_reserved level (demoted size pte j) v x (ground (arith, low))
            ∙ sym (resolve_reserved (suc level) pte v y (ground arith))
        | inr w ↦
            resolve_leaf level (demoted size pte j) v x at.is_leaf (λ z. ground (arith, low))
              aligned'
            ∙ ap₂ {C = Option Translation} (λ p q. some (record { page = p; perms = q })) page
                at.perms
            ∙ sym (resolve_leaf (suc level) pte v y leaf (λ z. ground arith) aligned.0)
      ]
