-- ===== src/Riscv/Page/Walk.antt =====
-- What the hardware makes of a tree of tables: the translation process of the RISC-V privileged
-- architecture for Sv39 (top level 2) and Sv48 (top level 3), which page.c writes its entries for.
-- It is an independent description, on page numbers: `p` is the page of a table and `v` the page
-- number of a canonical virtual address, its bits that the tables index; any other address
-- faults before the walk. Permissions are read off the leaf's low eight bits and not checked.
use abstract_machine.Base.{
  ◌⊎◌, ◌<◌, ◌≤◌, ◌-◌, ℕ, zero, suc, ◌+◌, ◌*◌, ◌/◌, ◌%◌, ◌^◌, ◌==◌, ◌!=◌, if◌then◌else◌, Option,
  none, some,
}
use abstract_machine.Riscv.Page.Words.Slots.{slot}

-- An address of 64 bits whose upper bits are those of its last one of `bits`.
abbrev pub Canonical : ℕ → ℕ → Type 0
Canonical bits va = (va < 2 ^ (bits - 1)) ⊎ ((2 ^ 64 - 2 ^ (bits - 1) ≤ va) × (va < 2 ^ 64))

pub record Translation : Type 0 where
  pub page : ℕ
  pub perms : ℕ

-- The page number without its last `level` fields of nine bits, and those fields.
abbrev pub upper : ℕ → ℕ → ℕ
upper zero v = v
upper (suc level) v = upper level v / 512

-- 4 KiB pages under an entry of the level.
abbrev pub span : ℕ → ℕ
span zero = 1
span (suc level) = 512 * span level

abbrev pub lower : ℕ → ℕ → ℕ
lower zero v = 0
lower (suc level) v = lower level v + upper level v % 512 * span level

abbrev pub index : ℕ → ℕ → ℕ
index level v = upper level v % 512

abbrev pub ppn : ℕ → ℕ
ppn pte = pte / 1024 % 2 ^ 44

-- What an entry means: not valid, or with W and not R, which both fault; a pointer, for which `below` is the walk of the next level; or a
-- leaf, which faults if its page is not aligned to its size.
abbrev pub resolve : ℕ → ℕ → ℕ → Option Translation → Option Translation
resolve level pte v below =
    if pte % 2 == 0
    then none
    else if pte / 2 % 4 == 2
    then none
    else if pte / 2 % 8 == 0
    then below
    else if ppn pte % span level != 0
    then none
    else some (record { page = ppn pte + lower level v; perms = pte % 256 })

unfoldable pub walk : (ℕ → ℕ) → ℕ → ℕ → ℕ → Option Translation
walk m zero p v = resolve zero (m (slot p (index zero v))) v none
walk m (suc level) p v =
    let pte = m (slot p (index (suc level) v)) in
    let below = walk m level (ppn pte) v in resolve (suc level) pte v below
