-- ===== src/Riscv/Hart/Lock.antt =====
-- hart_spin_lock and hart_spin_unlock of hart.c with more than one hart: a word, and harts that swap
-- a 1 into it until they read 0.
use abstract_machine.Base.{ℕ, ◌≡◌, ◌≢◌, ◌⊎◌, inl, inr, Bool-cases, ◌==◌, if◌then◌else◌, refl, arith}
use abstract_machine.Riscv.Hart.Task.{set}

-- Outside the lock, in the loop of hart_spin_lock, or between the two routines.
pub data Place : Type 0 where
  outside : Place
  spinning : Place
  holding : Place

pub record Locked : Type 0 where
  pub lock : ℕ
  pub place : ℕ → Place

-- One round of the loop: `amoswap.w got, one, (lock)`, and the test of `got`.
unfoldable pub hart_spin_lock : ℕ → ℕ × Place
hart_spin_lock lock = (1, if lock == 0 then holding else spinning)

-- `lock->lock = 0;`
unfoldable pub hart_spin_unlock : ℕ → ℕ × Place
hart_spin_unlock lock = (0, outside)

-- A hart calls hart_spin_lock from outside, makes a round of its loop, or unlocks what it holds.
pub data Turn (s : Locked) : Locked → Type 0 where
  calls : (i : ℕ) → s.place i ≡ outside → Turn s (record s { place = set s.place i spinning })
  swaps :
      (i : ℕ)
      → s.place i ≡ spinning
      → Turn s (record {
        lock = (hart_spin_lock s.lock).0;
        place = set s.place i (hart_spin_lock s.lock).1;
      })
  unlocks :
      (i : ℕ)
      → s.place i ≡ holding
      → Turn s (record {
        lock = (hart_spin_unlock s.lock).0;
        place = set s.place i (hart_spin_unlock s.lock).1;
      })

abbrev pub unlocked : Locked
unlocked = record { lock = 0; place = λ _. outside }

pub data Turns : Locked → Type 0 where
  start : Turns unlocked
  later : {s t : Locked} → Turns s → Turn s t → Turns t

-- Either the word is 0 and no hart holds the lock, or it is not and one hart does.
pub record Owned (s : Locked) : Type 0 where
  pub free : s.lock ≡ 0 → (i : ℕ) → s.place i ≢ holding
  pub held : s.lock ≢ 0 → (i : ℕ) × (s.place i ≡ holding)
  pub unique : (i j : ℕ) → s.place i ≡ holding → s.place j ≡ holding → i ≡ j

Turn-Owned : {s t : Locked} → Turn s t → Owned s → Owned t
unfolding hart_spin_lock hart_spin_unlock
Turn-Owned {s} (calls i here) o = record {
  free = λ e j. grind (arith, o.free);
  held = λ e. let (j, holds) = o.held e in (j, grind arith);
  unique = λ j k. grind (arith, o.unique j k);
}
Turn-Owned {s} (swaps i here) o = elim (Bool-cases (s.lock == 0)) [
  | inl got ↦ rw got (record {
    free = λ e j. absurd (omega arith);
    held = λ e. (i, grind arith);
    unique = λ j k. grind (arith, o.free);
  })
  | inr busy ↦ rw busy (record {
    free = λ e j. absurd (omega arith);
    held = λ e. let (j, holds) = o.held (ground arith) in (j, grind arith);
    unique = λ j k. grind (arith, o.unique j k);
  })
]
Turn-Owned {s} (unlocks i here) o = record {
  free = λ e j. grind (arith, o.unique i j);
  held = λ e. absurd (e refl);
  unique = λ j k. grind (arith, o.unique i j, o.unique i k, o.unique j k);
}

pub Turns-Owned : {s : Locked} → Turns s → Owned s
Turns-Owned start = record { free = λ e i. cc; held = λ e. absurd (e refl); unique = λ i j. cc }
Turns-Owned (later r turn) = Turn-Owned turn (Turns-Owned r)

-- In every reachable state at most one hart holds the lock; and if a hart spins, then either
-- another hart holds the lock, or the next round of its loop takes it.
pub mutual_exclusion :
    {s : Locked}
    → Turns s
    → ((i j : ℕ) → s.place i ≡ holding → s.place j ≡ holding → i ≡ j)
      × ((i : ℕ)
          → s.place i ≡ spinning
          → ((j : ℕ) × (j ≢ i) × (s.place j ≡ holding)) ⊎ ((hart_spin_lock s.lock).1 ≡ holding))
unfolding hart_spin_lock
mutual_exclusion {s} r = (
  (Turns-Owned r).unique,
  λ i here. elim (Bool-cases (s.lock == 0)) [
    | inl got ↦ inr (rw got refl)
    | inr busy ↦ let (j, holds) = (Turns-Owned r).held (ground arith) in inl (j, λ e. cc, holds)
  ],
)
