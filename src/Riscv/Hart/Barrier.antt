-- ===== src/Riscv/Hart/Barrier.antt =====
-- hart_barrier of hart.c with more than one hart: `n` harts, numbered from 0, meet at it again and
-- again, one access at a time in any order.
use abstract_machine.Base.{ℕ, ◌+◌, ◌%◌, ◌^◌, ◌<◌, ◌==◌, if◌then◌else◌}
use abstract_machine.Riscv.Hart.Task.{set}

-- Where a hart stands: outside, behind the read of hart_bar_sense, before the store that empties
-- the count, before the store to hart_bar_sense, or in the loop.
pub data Post : Type 0 where
  outside : Post
  looked : (mysense : ℕ) → Post
  last : (mysense : ℕ) → Post
  emptied : (mysense : ℕ) → Post
  waiting : (mysense : ℕ) → Post

-- hart_bar_count and hart_bar_sense
pub record Words : Type 0 where
  pub count : ℕ
  pub sense : ℕ

-- One access of a hart that calls hart_barrier(n).
unfoldable pub hart_barrier : ℕ → Words → Post → Words × Post
hart_barrier n w outside = (w, looked w.sense)
hart_barrier n w (looked mysense) = (
  record w { count = (w.count + 1) % 2 ^ 32 },
  if (w.count + 1) % 2 ^ 32 == n then last mysense else waiting mysense,
)
hart_barrier n w (last mysense) = (record w { count = 0 }, emptied mysense)
hart_barrier n w (emptied mysense) = (record w { sense = (mysense + 1) % 2 ^ 32 }, outside)
hart_barrier n w (waiting mysense) = (w, if w.sense == mysense then waiting mysense else outside)

-- How often each hart has arrived, and how often it has passed.
pub record Meeting : Type 0 where
  pub words : Words
  pub post : ℕ → Post
  pub arrived : ℕ → ℕ
  pub passed : ℕ → ℕ

abbrev pub arrival : Post → ℕ
arrival (looked mysense) = 1
arrival post = 0

abbrev pub leaving : Post → Post → ℕ
leaving (emptied mysense) post = 1
leaving (waiting mysense) outside = 1
leaving post post' = 0

abbrev pub goes : ℕ → ℕ → Meeting → Meeting
goes n i s = record {
  words = (hart_barrier n s.words (s.post i)).0;
  post = set s.post i (hart_barrier n s.words (s.post i)).1;
  arrived = set s.arrived i (s.arrived i + arrival (s.post i));
  passed = set s.passed i (s.passed i + leaving (s.post i) (hart_barrier n s.words (s.post i)).1);
}

abbrev pub begun : Meeting
begun = record {
  words = record { count = 0; sense = 0 };
  post = λ _. outside;
  arrived = λ _. 0;
  passed = λ _. 0;
}

pub data Meets (n : ℕ) : Meeting → Type 0 where
  start : Meets n begun
  later : {s : Meeting} (i : ℕ) → i < n → Meets n s → Meets n (goes n i s)
