-- ===== src/Riscv/Hart/Rounds.antt =====
-- Where the harts and the two words of the barrier can be in a round.
use abstract_machine.Base.{
  ℕ, ◌+◌, ◌%◌, ◌^◌, ◌<◌, ◌≤◌, ◌≡◌, ◌≢◌, ◌⊎◌, inl, inr, true, Bool-cases, ◌==◌, refl, arith,
}
use abstract_machine.Riscv.Hart.Task.{set}
use abstract_machine.Riscv.Hart.Barrier.{
  Post, outside, looked, last, emptied, waiting, hart_barrier, Meeting, arrival, leaving,
}
use abstract_machine.Riscv.Hart.Count.{here}

-- What a hart at its place has arrived at and passed, when `r` rounds are over and the sense is `s`.
abbrev pub Stand : ℕ → ℕ → Post → ℕ → ℕ → Type 0
Stand r s outside a p = (a ≡ r) × (p ≡ r)
Stand r s (looked my) a p = (my ≡ s) × (a ≡ r) × (p ≡ r)
Stand r s (last my) a p = (my ≡ s) × (a ≡ r + 1) × (p ≡ r)
Stand r s (emptied my) a p = (my ≡ s) × (a ≡ r + 1) × (p ≡ r)
Stand r s (waiting my) a p = ((my ≡ s) × (a ≡ r + 1) × (p ≡ r)) ⊎ ((my ≢ s) × (a ≡ r) × (p + 1 ≡ r))

abbrev pub Open : Post → Type 0
Open (last my) = ⊥
Open (emptied my) = ⊥
Open post = Unit {0}

pub Stand-bounds :
    (r s : ℕ) (w : Post) (a p : ℕ) → Stand r s w a p → (r ≤ a) × (a ≤ r + 1) × (p ≤ r)
Stand-bounds r s outside a p h = omega arith
Stand-bounds r s (looked my) a p h = omega arith
Stand-bounds r s (last my) a p h = omega arith
Stand-bounds r s (emptied my) a p h = omega arith
Stand-bounds r s (waiting my) a p h = omega arith

-- Either harts are still missing and the count is theirs that have arrived, or all have arrived and
-- the hart `k` closes the round.
pub record Closing (n r : ℕ) (s : Meeting) (k : ℕ) : Type 0 where
  pub k_lt : k < n
  pub closer :
      (s.post k ≡ last s.words.sense) ⊎ ((s.post k ≡ emptied s.words.sense) × (s.words.count ≡ 0))
  pub all_here : (i : ℕ) → i < n → s.arrived i ≡ r + 1
  pub others : (i : ℕ) → i < n → i ≢ k → Open (s.post i)

pub record Gathering (n r : ℕ) (s : Meeting) : Type 0 where
  pub counted : s.words.count ≡ here s.arrived r n
  pub missing : s.words.count < n
  pub open_all : (i : ℕ) → i < n → Open (s.post i)

pub record Round (n : ℕ) (s : Meeting) : Type 0 where
  pub r : ℕ
  pub sense_is : s.words.sense ≡ r % 2 ^ 32
  pub stands : (i : ℕ) → i < n → Stand r s.words.sense (s.post i) (s.arrived i) (s.passed i)
  pub mode : Gathering n r s ⊎ ((k : ℕ) × Closing n r s k)

pub set-Stand :
    (n r s : ℕ) (post : ℕ → Post) (a p : ℕ → ℕ) (i : ℕ) (w : Post) (x y : ℕ)
    → ((j : ℕ) → j < n → Stand r s (post j) (a j) (p j))
    → Stand r s w x y
    → (j : ℕ) → j < n
    → Stand r s (set post i w j) (set a i x j) (set p i y j)
set-Stand n r s post a p i w x y h g j lt = elim (Bool-cases (j == i)) [
  | inl same ↦ rw same g
  | inr other ↦ rw other (h j lt)
]

pub set-Open :
    (n : ℕ) (post : ℕ → Post) (i : ℕ) (w : Post)
    → ((j : ℕ) → j < n → j ≢ i → Open (post j))
    → Open w
    → (j : ℕ) → j < n
    → Open (set post i w j)
set-Open n post i w h g j lt = elim (Bool-cases (j == i)) [
  | inl same ↦ rw same g
  | inr other ↦ rw other (h j lt (λ e. ground arith))
]

pub set_zero : (a : ℕ → ℕ) (i j : ℕ) → set a i (a i + 0) j ≡ a j
set_zero a i j = elim (Bool-cases (j == i)) [
  | inl same ↦ let e : j ≡ i = ground arith in rw (same, e) (omega arith)
  | inr other ↦ rw other refl
]

-- `goes`, for a hart at the place `w`.
abbrev pub moved : ℕ → ℕ → Meeting → Post → Meeting
moved n i s w = record {
  words = (hart_barrier n s.words w).0;
  post = set s.post i (hart_barrier n s.words w).1;
  arrived = set s.arrived i (s.arrived i + arrival w);
  passed = set s.passed i (s.passed i + leaving w (hart_barrier n s.words w).1);
}

pub self : (j : ℕ) → (j == j) ≡ true
self j = ground arith

-- Only the closer is about to store.
pub closer_is : (i k : ℕ) (w : Post) → ¬ Open w → (i ≢ k → Open w) → i ≡ k
closer_is i k w shut others = elim (Bool-cases (i == k)) [
  | inl same ↦ ground arith
  | inr other ↦ absurd (shut (others (λ e. ground arith)))
]

-- Once the sense has changed, a waiting hart is one that has still to leave.
pub released :
    (r s s' : ℕ) (w : Post) (a p : ℕ)
    → s ≡ r % 2 ^ 32
    → s' ≡ (r + 1) % 2 ^ 32
    → a ≡ r + 1
    → Open w
    → Stand r s w a p
    → Stand (r + 1) s' w a p
released r s s' outside a p e e' all o h = absurd (omega arith)
released r s s' (looked my) a p e e' all o h = absurd (omega arith)
released r s s' (last my) a p e e' all o h = absurd o
released r s s' (emptied my) a p e e' all o h = absurd o
released r s s' (waiting my) a p e e' all o (inl (same, _, passed)) =
    inr (λ now. omega arith, omega arith, omega arith)
released r s s' (waiting my) a p e e' all o (inr (_, late, _)) = absurd (omega arith)

pub closer-not-Open : (n r : ℕ) (s : Meeting) (k : ℕ) → Closing n r s k → ¬ Open (s.post k)
closer-not-Open n r s k c o = elim c.closer [
  | inl before ↦ rw before at o
  | inr (before, _) ↦ rw before at o
]
