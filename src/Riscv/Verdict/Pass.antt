-- ===== src/Riscv/Verdict/Pass.antt =====
-- am/src/riscv/test-support/assert.c: when a test passes, with hart.c and trap.c.
use abstract_machine.Base.{
  ℕ, zero, suc, ◌-◌, ◌<◌, ◌≤◌, ◌≡◌, ◌≢◌, ◌↔◌, ◌⊎◌, inl, inr, Bool, true, false, not, ◌&&◌, List,
  refl, sym, ap, ◌∙◌, arith, ◌==◌, Bool-cases,
}
use abstract_machine.Riscv.Hart.Task.{Boxes, in_test, any_pending, hart_check_complete}
use abstract_machine.Riscv.Hart.Schedule.{System, Reach}
use abstract_machine.Riscv.Hart.Join.{Idle, any_pending_lem, hart_check_complete-Idle}
use abstract_machine.Riscv.Trap.Expect.{Machine, Platform, trap_check_complete, any_armed}
use abstract_machine.Riscv.Trap.Armed.{trap_check_complete_iff}
use abstract_machine.Riscv.Outcome.{ok}
use abstract_machine.Riscv.Verdict.{Halt, puts, test_pass, test_fail}

zero_not_one : ◌≢◌ {A = ℕ} 0 1
zero_not_one e = ground (arith)

true_not_false : ◌≢◌ {A = Bool} true false
true_not_false e = absurd (cc)

none_pending :
    (k : ℕ) (m : Boxes) → ((i : ℕ) → 0 < i → i ≤ k → m.pending i ≡ 0) → any_pending k m ≡ false
unfolding any_pending
none_pending zero m h = refl
none_pending (suc k) m h =
    let ih = none_pending k m (λ i pos le. h i pos (omega arith)) in ground (arith, ih, h (suc k))

-- The three tests of test_pass.
complete : Platform → Boxes → Machine → Bool
complete p m s =
    s.hart == 0 && (not (any_pending (p.hart_max - 1) m) && not (any_armed p.hart_max s.g_expect))

test_pass_lem :
    (p : Platform) (m : Boxes) (s : Machine) (console : List ℕ)
    → complete p m s ≡ true
    → test_pass p m s console
      ≡ record { code = 0; console = puts "\u{1b}[1;32mPASS\u{1b}[0m\n" console }
unfolding complete test_pass hart_check_complete trap_check_complete
test_pass_lem p m s console e = ground (arith)

test_fail_lem :
    (p : Platform) (m : Boxes) (s : Machine) (console : List ℕ)
    → complete p m s ≡ false
    → (test_pass p m s console).code ≡ 1
unfolding complete test_pass hart_check_complete trap_check_complete test_fail
test_fail_lem p m s console e = ground (arith)

complete_iff :
    (p : Platform) (m : Boxes) (s : Machine)
    → (complete p m s ≡ true) ↔ (
        ((s.hart ≡ 0) × ((i : ℕ) → 0 < i → i < p.hart_max → m.pending i ≡ 0))
        × ((i : ℕ) → i < p.hart_max → (s.g_expect i).armed ≡ 0))
unfolding complete trap_check_complete
complete_iff p m s = (
  λ e.
      let quiet : trap_check_complete p s ≡ ok (tt, s) = ground (arith) in
      (
        (
          ground (arith),
          λ i pos lt. any_pending_lem (p.hart_max - 1) m i (ground (arith)) pos (omega arith),
        ),
        (trap_check_complete_iff p s).0 quiet,
      ),
  λ h.
      let n = none_pending (p.hart_max - 1) m (λ i pos le. h.0.1 i pos (omega arith)) in
      let q = (trap_check_complete_iff p s).1 h.1 in ground (arith, n, q),
)

-- test_pass ends the run with code 0 exactly when it runs on hart 0, no worker below HART_MAX has a
-- task that is not joined, and no hart below HART_MAX has an expectation that is still armed. It
-- writes PASS and nothing else in that case, and ends the run with code 1 in every other one.
pub test_pass_iff :
    (p : Platform) (m : Boxes) (s : Machine) (console : List ℕ)
    → (((test_pass p m s console).code ≡ 0) ↔ (
        ((s.hart ≡ 0) × ((i : ℕ) → 0 < i → i < p.hart_max → m.pending i ≡ 0))
        × ((i : ℕ) → i < p.hart_max → (s.g_expect i).armed ≡ 0)))
      × (((test_pass p m s console).code ≡ 1)
          ⊎ (test_pass p m s console
              ≡ record { code = 0; console = puts "\u{1b}[1;32mPASS\u{1b}[0m\n" console }))
test_pass_iff p m s console = elim (Bool-cases (complete p m s)) [
  | inl e ↦
      let t = test_pass_lem p m s console e in
      ((λ c. (complete_iff p m s).0 e, λ h. ap (λ (x : Halt). x.code) t), inr t)
  | inr e ↦
      let t = test_fail_lem p m s console e in
      (
        (
          λ c. absurd (zero_not_one (sym c ∙ t)),
          λ h. absurd (true_not_false (sym ((complete_iff p m s).1 h) ∙ e)),
        ),
        inl t,
      )
]

-- In every reachable state of the harts in which the test runs on hart 0, a test_pass that ends the
-- run with code 0 does so where, on each worker below HART_MAX, every task that was posted has
-- returned, the worker polls, and its mailbox is empty, and no hart has an armed expectation.
pub test_pass-Idle :
    (p : Platform) {h : System} (s : Machine) (console : List ℕ)
    → Reach p.hart_max h
    → h.main ≡ in_test
    → (test_pass p h.boxes s console).code ≡ 0
    → ((i : ℕ) → 0 < i → i < p.hart_max → Idle h i)
      × ((i : ℕ) → i < p.hart_max → (s.g_expect i).armed ≡ 0)
unfolding hart_check_complete
test_pass-Idle p {h} s console r here e =
    let c = ((test_pass_iff p h.boxes s console).0).0 e in
    let n = none_pending (p.hart_max - 1) h.boxes (λ i pos le. c.0.1 i pos (omega arith)) in
    (hart_check_complete-Idle r here (rw n refl), c.1)
