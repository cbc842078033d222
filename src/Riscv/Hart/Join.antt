-- ===== src/Riscv/Hart/Join.antt =====
-- What a join waits for, that it ends, and what hart_check_complete finds.
use abstract_machine.Base.{
  ℕ, zero, suc, ◌-◌, ◌<◌, ◌≤◌, ◌≡◌, ◌≢◌, ◌⊎◌, inl, inr, List, ◌∷◌, false, Bool-cases, ◌==◌,
  if◌then◌else◌, refl, arith,
}
use abstract_machine.Riscv.Hart.Task.{
  Boxes, in_test, joining, joined, failed, Worker, polling, taking, running, reporting, main_move,
  worker_move, any_pending, hart_check_complete,
}
use abstract_machine.Riscv.Hart.Schedule.{System, main_goes, worker_goes, Reach}
use abstract_machine.Riscv.Hart.Account.{
  Stage, away, awaits, Account, fresh, ended, ended_awaited, ended_reset, cleared, marked, about,
  posted, taken, runs, reports,
}
use abstract_machine.Riscv.Hart.Balance.{Balanced, self, worker_move-Balanced, Reach-Sound}

-- No task is left: all that were posted have returned, the worker polls, and its mailbox is empty.
abbrev pub Idle : System → ℕ → Type 0
Idle s i = (s.returned i ≡ s.posted i) × (s.worker i ≡ polling) × (s.boxes.mailbox i ≡ 0)

over-Account :
    {mb d p : ℕ} {w : Worker} {ps rs : List ℕ}
    → d ≢ 0
    → Account mb d p w awaits ps rs
    → (rs ≡ ps) × (w ≡ polling) × (mb ≡ 0)
over-Account h ended_awaited = (refl, refl, refl)
over-Account h (posted x g) = absurd (h refl)
over-Account h (taken g) = absurd (h refl)
over-Account h (runs g) = absurd (h refl)
over-Account h (reports g) = absurd (h refl)

quiet-Account :
    {mb d p : ℕ} {w : Worker} {ps rs : List ℕ}
    → p ≡ 0
    → Account mb d p w away ps rs
    → (rs ≡ ps) × (w ≡ polling) × (mb ≡ 0)
quiet-Account h fresh = (refl, refl, refl)
quiet-Account h ended = absurd (omega arith)
quiet-Account h (posted x g) = absurd (omega arith)
quiet-Account h (taken g) = absurd (omega arith)
quiet-Account h (runs g) = absurd (omega arith)
quiet-Account h (reports g) = absurd (omega arith)

one_open :
    {mb d p : ℕ} {w : Worker} {g : Stage} {ps rs : List ℕ}
    → Account mb d p w g ps rs
    → (ps ≡ rs) ⊎ ((fn : ℕ) × (ps ≡ fn ∷ rs))
one_open fresh = inl refl
one_open ended = inl refl
one_open ended_awaited = inl refl
one_open ended_reset = inl refl
one_open cleared = inl refl
one_open marked = inl refl
one_open about = inl refl
one_open (posted x g) = inr (_, refl)
one_open (taken g) = inr (_, refl)
one_open (runs g) = inr (_, refl)
one_open (reports g) = inl refl

-- In every reachable state the tasks that have returned on a hart are the tasks that were posted to
-- it, in their order and each of them once, but for at most the last one.
pub posted-returned :
    {hart_max : ℕ} {s : System}
    → Reach hart_max s
    → (i : ℕ) → (s.posted i ≡ s.returned i) ⊎ ((fn : ℕ) × (s.posted i ≡ fn ∷ s.returned i))
posted-returned r i = one_open ((Reach-Sound r).balanced i)

-- In every reachable state in which hart 0 is in the loop of hart_join and leaves it by its next
-- access, every task that was posted to that hart has returned, its worker polls again, and its
-- mailbox is empty.
pub join-Idle :
    {hart_max : ℕ} {s : System}
    → Reach hart_max s
    → (id next : ℕ) → s.main ≡ joining id next
    → (main_goes s).main ≡ joined id next
    → Idle s id
unfolding main_move
join-Idle {s} r id next here leaves =
    let account = rw (here, self id) at ((Reach-Sound r).balanced id) in
    elim (Bool-cases (s.boxes.done id == 0)) [
      | inl waits ↦
          let e : joining id next ≡ joined id next = rw (here, waits) at leaves in absurd cc
      | inr over ↦ over-Account (ground arith) account
    ]

pub any_pending_lem :
    (k : ℕ) (m : Boxes) (i : ℕ) → any_pending k m ≡ false → 0 < i → i ≤ k → m.pending i ≡ 0
unfolding any_pending
any_pending_lem zero m i none_there pos le = absurd (omega arith)
any_pending_lem (suc k) m i none_there pos le = elim (Bool-cases (i == suc k)) [
  | inl last ↦ let e : i ≡ suc k = ground arith in rw e (ground arith)
  | inr before ↦ any_pending_lem k m i (ground arith) pos (ground arith)
]

-- In every reachable state in which the test runs on hart 0 and hart_check_complete does not end
-- the run, no task is left on any worker.
pub hart_check_complete-Idle :
    {hart_max : ℕ} {s : System}
    → Reach hart_max s
    → s.main ≡ in_test
    → hart_check_complete hart_max s.boxes ≡ in_test
    → (i : ℕ) → 0 < i
    → i < hart_max
    → Idle s i
unfolding hart_check_complete
hart_check_complete-Idle {hart_max} {s} r here passes i pos lt =
    let account = rw here at ((Reach-Sound r).balanced i) in
    elim (Bool-cases (any_pending (hart_max - 1) s.boxes)) [
      | inl some_there ↦
          let e : failed "worker task was not joined" ≡ in_test = rw some_there at passes in
          absurd cc
      | inr none_there ↦
          quiet-Account (any_pending_lem (hart_max - 1) s.boxes i none_there pos (omega arith))
            account
    ]

-- The next `k` accesses of worker `i`, with no other in between.
abbrev pub goes : ℕ → ℕ → System → System
goes zero i s = s
goes (suc k) i s = goes k i (worker_goes i s)

-- How many accesses the worker is from reporting the end of a task.
abbrev left : Worker → ℕ → ℕ
left polling done = if done == 0 then 4 else 0
left (taking fn) done = 3
left (running fn) done = 2
left reporting done = 1

left_bound : (w : Worker) (d : ℕ) → left w d ≤ 4
left_bound polling d = ground arith
left_bound (taking fn) d = omega arith
left_bound (running fn) d = omega arith
left_bound reporting d = omega arith

awaited_mailbox :
    {mb d p : ℕ} {ps rs : List ℕ} → d ≡ 0 → Account mb d p polling awaits ps rs → mb ≢ 0
awaited_mailbox h ended_awaited = absurd (omega arith)
awaited_mailbox h (posted x g) = x

awaited_done :
    {mb d p : ℕ} {w : Worker} {ps rs : List ℕ}
    → Account mb d p w awaits ps rs
    → left w d ≡ 0
    → d ≢ 0
awaited_done ended_awaited e = omega arith
awaited_done (posted x g) e = absurd (omega arith)
awaited_done (taken g) e = absurd (omega arith)
awaited_done (runs g) e = absurd (omega arith)
awaited_done (reports g) e = absurd (omega arith)

worker_move_nearer :
    (i : ℕ) (m : Boxes) (w : Worker)
    → m.done i ≡ 0
    → (w ≡ polling → m.mailbox i ≢ 0)
    → left (worker_move i m w).1 ((worker_move i m w).0.done i) < left w (m.done i)
unfolding worker_move
worker_move_nearer i m polling zero_done full =
    let some_there : (m.mailbox i == 0) ≡ false = ground (arith, full refl) in
    rw (some_there, zero_done) (omega arith)
worker_move_nearer i m (taking fn) zero_done full = omega arith
worker_move_nearer i m (running fn) zero_done full = omega arith
worker_move_nearer i m reporting zero_done full = rw (self i) (omega arith)

ends :
    (k : ℕ) (s : System) (id next : ℕ)
    → Balanced s.boxes s.main s.worker s.posted s.returned
    → s.main ≡ joining id next
    → left (s.worker id) (s.boxes.done id) ≤ k
    → (j : ℕ) × (j ≤ k) × ((main_goes (goes j id s)).main ≡ joined id next)
unfolding main_move
ends zero s id next h here near =
    let account = rw (here, self id) at (h id) in
    let over : (s.boxes.done id == 0) ≡ false =
      ground (arith, awaited_done account (omega arith)) in
    (0, omega arith, rw (here, over) refl)
ends (suc k) s id next h here near = elim (Bool-cases (s.boxes.done id == 0)) [
  | inr over ↦ (0, omega arith, rw (here, over) refl)
  | inl waits ↦
      let account = rw (here, self id) at (h id) in
      let zero_done : s.boxes.done id ≡ 0 = ground arith in
      let nearer =
        worker_move_nearer id s.boxes (s.worker id) zero_done
          (λ e. awaited_mailbox zero_done (rw e at account)) in
      let (j, le, leaves) =
        ends k (worker_goes id s) id next
          (worker_move-Balanced id s.boxes s.main s.worker s.posted s.returned (s.worker id) refl h)
          here (rw (self id) (omega arith)) in
      (suc j, omega arith, leaves)
]

-- In every reachable state in which hart 0 is in the loop of hart_join, at most four accesses of
-- the worker that it waits for, the return of the task among them, let hart 0 leave the loop by its
-- next access.
pub join_ends :
    {hart_max : ℕ} {s : System}
    → Reach hart_max s
    → (id next : ℕ) → s.main ≡ joining id next
    → (k : ℕ) × (k ≤ 4) × ((main_goes (goes k id s)).main ≡ joined id next)
join_ends {s} r id next here =
    ends 4 s id next (Reach-Sound r).balanced here (left_bound (s.worker id) (s.boxes.done id))
