-- ===== src/Riscv/Hart/Balance.antt =====
-- In every order of the accesses the account of every hart stays in balance.
use abstract_machine.Base.{
  ℕ, ◌≡◌, inl, inr, List, true, Bool-cases, ◌||◌, not, ltb, ◌==◌, ◌!=◌, refl, arith,
}
use abstract_machine.Riscv.Hart.Task.{
  Boxes, set, Main, in_test, joining, joined, clearing, marking, posting, failed, skipped, Worker,
  polling, taking, running, reporting, hart_start, hart_join, main_move, worker_move,
}
use abstract_machine.Riscv.Hart.Schedule.{
  System, note_posted, note_returned, Step, calls_start, calls_join, main_step, worker_step, Reach,
  start, later,
}
use abstract_machine.Riscv.Hart.Account.{
  stage, Posts, Account, fresh, joins-Account, sees-Account, resets-Account, restarts-Account,
  starts-Account, clears-Account, marks-Account, posts-Account, polls-Account, takes-Account,
  returns-Account, reports-Account,
}

abbrev pub Balanced : Boxes → Main → (ℕ → Worker) → (ℕ → List ℕ) → (ℕ → List ℕ) → Type 0
Balanced m main worker ps rs =
    (i : ℕ) → Account (m.mailbox i) (m.done i) (m.pending i) (worker i) (stage i main) (ps i) (rs i)

pub self : (i : ℕ) → (i == i) ≡ true
self i = ground arith

main_move-Balanced :
    (m : Boxes) (main : Main) (worker : ℕ → Worker) (ps rs : ℕ → List ℕ)
    → Posts main
    → Balanced m main worker ps rs
    → Balanced (main_move m main).0 (main_move m main).1 worker (note_posted main ps) rs
unfolding main_move
main_move-Balanced m in_test worker ps rs good h i = h i
main_move-Balanced m (joining id next) worker ps rs good h i = elim (Bool-cases (m.done id == 0)) [
  | inl waits ↦ rw waits (h i)
  | inr over ↦ elim (Bool-cases (i == id)) [
    | inl same ↦
        let e : i ≡ id = ground arith in
        rw (over, e, self id) (sees-Account (ground arith) (rw (self id) at (h id)))
    | inr other ↦ rw (over, other) (rw other at (h i))
  ]
]
main_move-Balanced m (joined id next) worker ps rs good h i = elim (Bool-cases (i == id)) [
  | inl same ↦
      let e : i ≡ id = ground arith in
      elim (Bool-cases (next == 0)) [
        | inl alone ↦ rw (e, self id, alone) (resets-Account (rw (self id) at (h id)))
        | inr starts ↦ rw (e, self id, starts, self id) (restarts-Account (rw (self id) at (h id)))
      ]
  | inr other ↦ elim (Bool-cases (next == 0)) [
    | inl alone ↦ rw (other, alone) (rw other at (h i))
    | inr starts ↦ rw (starts, other) (rw other at (h i))
  ]
]
main_move-Balanced m (clearing id fn) worker ps rs good h i = elim (Bool-cases (i == id)) [
  | inl same ↦
      let e : i ≡ id = ground arith in rw (e, self id) (clears-Account (rw (self id) at (h id)))
  | inr other ↦ rw other (rw other at (h i))
]
main_move-Balanced m (marking id fn) worker ps rs good h i = elim (Bool-cases (i == id)) [
  | inl same ↦
      let e : i ≡ id = ground arith in rw (e, self id) (marks-Account (rw (self id) at (h id)))
  | inr other ↦ rw other (rw other at (h i))
]
main_move-Balanced m (posting id fn) worker ps rs good h i = elim (Bool-cases (i == id)) [
  | inl same ↦
      let e : i ≡ id = ground arith in rw (e, self id) (posts-Account good (rw (self id) at (h id)))
  | inr other ↦ rw other (rw other at (h i))
]
main_move-Balanced m (failed msg) worker ps rs good h i = h i
main_move-Balanced m (skipped msg) worker ps rs good h i = h i

pub worker_move-Balanced :
    (i : ℕ) (m : Boxes) (main : Main) (worker : ℕ → Worker) (ps rs : ℕ → List ℕ) (w : Worker)
    → worker i ≡ w
    → Balanced m main worker ps rs
    → Balanced
        (worker_move i m w).0
        main
        (set worker i (worker_move i m w).1)
        ps
        (note_returned i w rs)
unfolding worker_move
worker_move-Balanced i m main worker ps rs polling is h j = elim (Bool-cases (j == i)) [
  | inl same ↦
      let e : j ≡ i = ground arith in
      elim (Bool-cases (m.mailbox i == 0)) [
        | inl empty ↦ rw (e, self i, empty) (rw is at (h i))
        | inr full ↦ rw (e, self i, full) (polls-Account (ground arith) (rw is at (h i)))
      ]
  | inr other ↦ rw other (h j)
]
worker_move-Balanced i m main worker ps rs (taking fn) is h j = elim (Bool-cases (j == i)) [
  | inl same ↦ let e : j ≡ i = ground arith in rw (e, self i) (takes-Account (rw is at (h i)))
  | inr other ↦ rw other (h j)
]
worker_move-Balanced i m main worker ps rs (running fn) is h j = elim (Bool-cases (j == i)) [
  | inl same ↦ let e : j ≡ i = ground arith in rw (e, self i) (returns-Account (rw is at (h i)))
  | inr other ↦ rw other (h j)
]
worker_move-Balanced i m main worker ps rs reporting is h j = elim (Bool-cases (j == i)) [
  | inl same ↦ let e : j ≡ i = ground arith in rw (e, self i) (reports-Account (rw is at (h i)))
  | inr other ↦ rw other (h j)
]

hart_join-Balanced :
    (hart_max : ℕ) (m : Boxes) (worker : ℕ → Worker) (ps rs : ℕ → List ℕ) (id next : ℕ)
    → Balanced m in_test worker ps rs
    → Balanced m (hart_join hart_max 0 m id next) worker ps rs
unfolding hart_join
hart_join-Balanced hart_max m worker ps rs id next h i =
    elim (Bool-cases (id == 0 || not (ltb id hart_max))) [
      | inl refused ↦ rw refused (h i)
      | inr allowed ↦ elim (Bool-cases (m.pending id == 0)) [
        | inl none_there ↦ rw (allowed, none_there) (h i)
        | inr some_there ↦ elim (Bool-cases (i == id)) [
          | inl same ↦
              let e : i ≡ id = ground arith in
              rw (allowed, some_there, e, self id) (joins-Account (ground arith) (h id))
          | inr other ↦ rw (allowed, some_there, other) (h i)
        ]
      ]
    ]

hart_join-Posts : (hart_max : ℕ) (m : Boxes) (id next : ℕ) → Posts (hart_join hart_max 0 m id next)
unfolding hart_join
hart_join-Posts hart_max m id next = elim (Bool-cases (id == 0 || not (ltb id hart_max))) [
  | inl refused ↦ rw refused tt
  | inr allowed ↦ elim (Bool-cases (m.pending id == 0)) [
    | inl none_there ↦ rw (allowed, none_there) tt
    | inr some_there ↦ rw (allowed, some_there) tt
  ]
]

hart_start-Balanced :
    (hart_max : ℕ) (m : Boxes) (worker : ℕ → Worker) (ps rs : ℕ → List ℕ) (id fn : ℕ)
    → Balanced m in_test worker ps rs
    → Balanced m (hart_start hart_max 0 m id fn) worker ps rs
      × Posts (hart_start hart_max 0 m id fn)
unfolding hart_start
hart_start-Balanced hart_max m worker ps rs id fn h = elim (Bool-cases (ltb id hart_max)) [
  | inl below ↦ elim (Bool-cases (id == 0 || fn == 0)) [
    | inl refused ↦ rw (below, refused) (h, tt)
    | inr allowed ↦ elim (Bool-cases (m.pending id != 0)) [
      | inl some_there ↦
          rw (below, allowed, some_there)
            (hart_join-Balanced hart_max m worker ps rs id fn h, hart_join-Posts hart_max m id fn)
      | inr none_there ↦
          rw (below, allowed, none_there)
            (
              λ i. elim (Bool-cases (i == id)) [
                | inl same ↦
                    let e : i ≡ id = ground arith in
                    rw (e, self id) (starts-Account (ground arith) (h id))
                | inr other ↦ rw other (h i)
              ],
              λ is_null. ground arith,
            )
    ]
  ]
  | inr above ↦ rw above (h, tt)
]

main_move-Posts : (m : Boxes) (main : Main) → Posts main → Posts (main_move m main).1
unfolding main_move
main_move-Posts m in_test h = tt
main_move-Posts m (joining id next) h = elim (Bool-cases (m.done id == 0)) [
  | inl waits ↦ rw waits tt
  | inr over ↦ rw over tt
]
main_move-Posts m (joined id next) h = elim (Bool-cases (next == 0)) [
  | inl alone ↦ rw alone tt
  | inr starts ↦ rw starts (λ is_null. ground arith)
]
main_move-Posts m (clearing id fn) h = h
main_move-Posts m (marking id fn) h = h
main_move-Posts m (posting id fn) h = tt
main_move-Posts m (failed msg) h = tt
main_move-Posts m (skipped msg) h = tt

pub record Sound (s : System) : Type 0 where
  pub balanced : Balanced s.boxes s.main s.worker s.posted s.returned
  pub functions : Posts s.main

Step-Sound : {hart_max : ℕ} {s t : System} → Step hart_max s t → Sound s → Sound t
Step-Sound {hart_max} {s} (calls_start id fn quiet) sound =
    let (balanced, functions) =
      hart_start-Balanced hart_max s.boxes s.worker s.posted s.returned id fn
        (rw quiet at sound.balanced) in
    record { balanced = balanced; functions = functions }
Step-Sound {hart_max} {s} (calls_join id quiet) sound = record {
  balanced =
      hart_join-Balanced hart_max s.boxes s.worker s.posted s.returned id 0
        (rw quiet at sound.balanced);
  functions = hart_join-Posts hart_max s.boxes id 0;
}
Step-Sound {s} main_step sound = record {
  balanced =
      main_move-Balanced s.boxes s.main s.worker s.posted s.returned sound.functions sound.balanced;
  functions = main_move-Posts s.boxes s.main sound.functions;
}
Step-Sound {s} (worker_step i pos lt) sound = record {
  balanced =
      worker_move-Balanced i s.boxes s.main s.worker s.posted s.returned (s.worker i) refl
        sound.balanced;
  functions = sound.functions;
}

pub Reach-Sound : {hart_max : ℕ} {s : System} → Reach hart_max s → Sound s
Reach-Sound start = record { balanced = λ i. fresh; functions = tt }
Reach-Sound (later r step) = Step-Sound step (Reach-Sound r)
