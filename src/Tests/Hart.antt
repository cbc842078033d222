-- ===== src/Tests/Hart.antt =====
-- Harts: function 7 is started on hart 1 of two and joined; harts 0 and 1 race for the lock.
use abstract_machine.Base.{ℕ, ◌≤◌, ◌≡◌, ◌≢◌, ◌⊎◌, ◌∷◌, refl, arith}
use abstract_machine.Riscv.Hart.Task.{set, joined, hart_start, hart_join, main_move, worker_move}
use abstract_machine.Riscv.Hart.Schedule.{
  System, booted, main_goes, calls_start, calls_join, main_step, worker_step, Reach, start, later,
}
use abstract_machine.Riscv.Hart.Join.{Idle, goes, posted-returned, join-Idle, join_ends}
use abstract_machine.Riscv.Hart.Lock.{
  Locked, unlocked, holding, spinning, hart_spin_lock, Turn, calls, swaps, Turns, mutual_exclusion,
}
use abstract_machine.Riscv.Hart.Lock
use abstract_machine.Riscv.Hart.Barrier
use abstract_machine.Riscv.Hart.Pass.{passed-arrived}

abbrev starting : System
starting = record booted { main = hart_start 2 0 booted.boxes 1 7 }

abbrev started : System
started = main_goes (main_goes (main_goes starting))

abbrev waiting : System
waiting = record started { main = hart_join 2 0 started.boxes 1 0 }

abbrev over : System
over = goes 4 1 waiting

abbrev pub finished : System
finished = main_goes (main_goes over)

reach_started : Reach 2 started
reach_started =
    later (later (later (later start (calls_start 1 7 refl)) main_step) main_step) main_step

reach_waiting : Reach 2 waiting
unfolding hart_start main_move
reach_waiting = later reach_started (calls_join 1 refl)

reach_over : Reach 2 over
reach_over =
    later
      (later
        (later (later reach_waiting (worker_step 1 (omega arith) (omega arith)))
          (worker_step 1 (omega arith) (omega arith)))
        (worker_step 1 (omega arith) (omega arith)))
      (worker_step 1 (omega arith) (omega arith))

pub reach_finished : Reach 2 finished
reach_finished = later (later reach_over main_step) main_step

posted-returned_example :
    (waiting.posted 1 ≡ waiting.returned 1)
    ⊎ ((fn : ℕ) × (waiting.posted 1 ≡ fn ∷ waiting.returned 1))
posted-returned_example = posted-returned reach_waiting 1

join-Idle_example : Idle over 1
unfolding hart_start hart_join main_move worker_move
join-Idle_example = join-Idle reach_over 1 0 refl refl

join_ends_example : (k : ℕ) × (k ≤ 4) × ((main_goes (goes k 1 waiting)).main ≡ joined 1 0)
unfolding hart_start hart_join main_move
join_ends_example = join_ends reach_waiting 1 0 refl

abbrev both : Locked
both = record { lock = 0; place = set (set (λ _. Lock.outside) 0 spinning) 1 spinning }

abbrev won : Locked
won = record {
  lock = (hart_spin_lock both.lock).0;
  place = set both.place 0 (hart_spin_lock both.lock).1;
}

won_turns : Turns won
won_turns =
    Lock.later (Lock.later (Lock.later Lock.start (calls 0 refl)) (calls 1 refl)) (swaps 0 refl)

mutual_exclusion_example :
    ((i j : ℕ) → won.place i ≡ holding → won.place j ≡ holding → i ≡ j)
    × ((i : ℕ)
        → won.place i ≡ spinning
        → ((j : ℕ) × (j ≢ i) × (won.place j ≡ holding)) ⊎ ((hart_spin_lock won.lock).1 ≡ holding))
mutual_exclusion_example = mutual_exclusion won_turns

-- Hart 0 arrives and waits, hart 1 arrives last and lets both go.
abbrev met : Barrier.Meeting
met = Barrier.goes 2 1 (Barrier.goes 2 1 (Barrier.goes 2 0 (Barrier.goes 2 0 Barrier.begun)))

met_reached : Barrier.Meets 2 met
met_reached = Barrier.later 1 (omega arith) (
    Barrier.later 1 (omega arith)
      (Barrier.later 0 (omega arith) (Barrier.later 0 (omega arith) Barrier.start)))

met_run : (met.post 0 ≡ Barrier.waiting 0) × (met.post 1 ≡ Barrier.last 0)
unfolding Barrier.hart_barrier
met_run = (refl, refl)

passed-arrived_example : met.passed 0 ≤ met.arrived 1
passed-arrived_example =
    passed-arrived (omega arith) (omega arith) met_reached 0 1 (omega arith) (omega arith)
