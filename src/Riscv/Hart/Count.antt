-- ===== src/Riscv/Hart/Count.antt =====
-- Counting the harts that have arrived at the barrier in a round.
use abstract_machine.Base.{
  ℕ, zero, suc, ◌+◌, ◌-◌, ◌<◌, ◌≤◌, ◌≡◌, inl, inr, Bool-cases, ◌==◌, refl, arith,
}
use abstract_machine.Riscv.Hart.Task.{set}

-- How many of the first `n` harts have arrived in the round `r`.
unfoldable pub here : (ℕ → ℕ) → ℕ → ℕ → ℕ
here arrived r zero = 0
here arrived r (suc n) = here arrived r n + (arrived n - r)

pub here-set_off : (a : ℕ → ℕ) (r n i x : ℕ) → n ≤ i → here (set a i x) r n ≡ here a r n
unfolding here
here-set_off a r zero i x h = refl
here-set_off a r (suc n) i x h = ground (arith, here-set_off a r n i x)

pub here-set :
    (a : ℕ → ℕ) (r n i : ℕ) → i < n → r ≤ a i → here (set a i (a i + 1)) r n ≡ here a r n + 1
unfolding here
here-set a r zero i lt ge = absurd (omega arith)
here-set a r (suc n) i lt ge = elim (Bool-cases (n == i)) [
  | inl same ↦
      let e : n ≡ i = ground arith in
      let rest = here-set_off a r n i (a i + 1) (omega arith) in ground (arith, rest)
  | inr other ↦ let rest = here-set a r n i (ground arith) ge in ground (arith, rest)
]

pub here-full :
    (a : ℕ → ℕ) (r n : ℕ)
    → ((i : ℕ) → i < n → (r ≤ a i) × (a i ≤ r + 1))
    → (here a r n ≤ n) × (here a r n ≡ n → (i : ℕ) → i < n → a i ≡ r + 1)
unfolding here
here-full a r zero h = (omega arith, λ _ i lt. absurd (omega arith))
here-full a r (suc n) h =
    let (le, all) = here-full a r n (λ i lt. h i (omega arith)) in
    let (ge, le') = h n (omega arith) in
    (
      omega arith,
      λ e i lt. elim (Bool-cases (i == n)) [
        | inl same ↦ let e' : i ≡ n = ground arith in rw e' (omega arith)
        | inr before ↦ all (omega arith) i (ground arith)
      ],
    )

pub here-none : (a : ℕ → ℕ) (r n : ℕ) → ((i : ℕ) → i < n → a i ≡ r) → here a r n ≡ 0
unfolding here
here-none a r zero h = refl
here-none a r (suc n) h =
    let rest = here-none a r n (λ i lt. h i (omega arith)) in
    let last' = h n (omega arith) in omega (arith, rest, last')

pub here-same : (a b : ℕ → ℕ) (r n : ℕ) → ((i : ℕ) → b i ≡ a i) → here b r n ≡ here a r n
unfolding here
here-same a b r zero h = refl
here-same a b r (suc n) h = rw (here-same a b r n h, h n) refl
