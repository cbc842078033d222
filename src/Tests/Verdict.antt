-- ===== src/Tests/Verdict.antt =====
-- The end of a test on two harts, with a task that has been joined and with one that has not.
use abstract_machine.Base.{ℕ, ◌%◌, ◌^◌, ◌<◌, ◌≡◌, ◌↔◌, ◌⊎◌, List, [], ◌∷◌, ◌++◌, refl}
use abstract_machine.Base.Lists.{length}
use abstract_machine.Riscv.Hart.Task.{
  main_move, hart_join, hart_start, worker_move, hart_check_complete, any_pending,
}
use abstract_machine.Riscv.Hart.Join.{Idle}
use abstract_machine.Riscv.Trap.Expect.{trap_check_complete}
use abstract_machine.Tests.Hart.{finished, reach_finished}
use abstract_machine.Tests.Trap.{platform, start}
use abstract_machine.Riscv.Verdict.{bytes, nth_digit, puts, test_pass, put_digits, test_put_hex}
use abstract_machine.Riscv.Verdict.Pass.{test_pass_iff, test_pass-Idle}
use abstract_machine.Riscv.Verdict.Text.{read_hex, test_put_hex-read_hex}

test_put_hex_run : test_put_hex 0x80000abc [] ≡ bytes "0x0000000080000abc"
unfolding test_put_hex put_digits nth_digit bytes
test_put_hex_run = refl

test_put_hex-read_hex_example :
    (ds : List ℕ) × ((test_put_hex 0x80000abc (b'=' ∷ []) ≡ (b'=' ∷ []) ++ (48 ∷ 120 ∷ ds))
      × ((length ds ≡ 16) × (read_hex 0 ds ≡ 0x80000abc % 2 ^ 64)))
test_put_hex-read_hex_example = test_put_hex-read_hex 0x80000abc (b'=' ∷ [])

test_pass_iff_example :
    (((test_pass platform finished.boxes start []).code ≡ 0) ↔ (
      ((start.hart ≡ 0) × ((i : ℕ) → 0 < i → i < platform.hart_max → finished.boxes.pending i ≡ 0))
      × ((i : ℕ) → i < platform.hart_max → (start.g_expect i).armed ≡ 0)))
    × (((test_pass platform finished.boxes start []).code ≡ 1)
        ⊎ (test_pass platform finished.boxes start []
            ≡ record { code = 0; console = puts "\u{1b}[1;32mPASS\u{1b}[0m\n" [] }))
test_pass_iff_example = test_pass_iff platform finished.boxes start []

test_pass-Idle_example :
    ((i : ℕ) → 0 < i → i < platform.hart_max → Idle finished i)
    × ((i : ℕ) → i < platform.hart_max → (start.g_expect i).armed ≡ 0)
unfolding main_move hart_join hart_start worker_move test_pass hart_check_complete any_pending
    trap_check_complete
test_pass-Idle_example = test_pass-Idle platform start [] reach_finished refl refl
