-- ===== src/Riscv/Hart/Schedule.antt =====
-- Hart 0 and the workers, one access at a time in any order, with the tasks posted to each hart and
-- the tasks that returned on it, the last one first.
use abstract_machine.Base.{ℕ, ◌<◌, ◌≡◌, List, [], ◌∷◌}
use abstract_machine.Riscv.Hart.Task.{
  Boxes, set, Main, in_test, posting, Worker, polling, running, hart_start, hart_join, main_move,
  worker_move,
}

pub record System : Type 0 where
  pub boxes : Boxes
  pub main : Main
  pub worker : ℕ → Worker
  pub posted : ℕ → List ℕ
  pub returned : ℕ → List ℕ

-- After the boot every variable is 0, the test runs, and the workers poll.
abbrev pub booted : System
booted = record {
  boxes = record { mailbox = λ _. 0; done = λ _. 0; pending = λ _. 0 };
  main = in_test;
  worker = λ _. polling;
  posted = λ _. [];
  returned = λ _. [];
}

abbrev pub note_posted : Main → (ℕ → List ℕ) → ℕ → List ℕ
note_posted (posting id fn) l = set l id (fn ∷ l id)
note_posted main l = l

abbrev pub note_returned : ℕ → Worker → (ℕ → List ℕ) → ℕ → List ℕ
note_returned i (running fn) l = set l i (fn ∷ l i)
note_returned i worker l = l

abbrev pub main_goes : System → System
main_goes s = record s {
  boxes = (main_move s.boxes s.main).0;
  main = (main_move s.boxes s.main).1;
  posted = note_posted s.main s.posted;
}

abbrev pub worker_goes : ℕ → System → System
worker_goes i s = record s {
  boxes = (worker_move i s.boxes (s.worker i)).0;
  worker = set s.worker i (worker_move i s.boxes (s.worker i)).1;
  returned = note_returned i (s.worker i) s.returned;
}

-- The test calls hart_start or hart_join with any arguments, or a hart makes an access.
pub data Step (hart_max : ℕ) (s : System) : System → Type 0 where
  calls_start :
      (id fn : ℕ)
      → s.main ≡ in_test
      → Step hart_max s (record s { main = hart_start hart_max 0 s.boxes id fn })
  calls_join :
      (id : ℕ)
      → s.main ≡ in_test
      → Step hart_max s (record s { main = hart_join hart_max 0 s.boxes id 0 })
  main_step : Step hart_max s (main_goes s)
  worker_step : (i : ℕ) → 0 < i → i < hart_max → Step hart_max s (worker_goes i s)

pub data Reach (hart_max : ℕ) : System → Type 0 where
  start : Reach hart_max booted
  later : {s t : System} → Reach hart_max s → Step hart_max s t → Reach hart_max t
