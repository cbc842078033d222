-- ===== src/Riscv/Verdict.antt =====
-- am/src/riscv/test-support/assert.c: what a test writes to the console, and how a run ends. The
-- console is the list of the bytes that putch was given, and halt ends the run with a code.
pub mod Pass
pub mod Text
use Prim.Native.Char.{code}
use Prim.Native.String
use Prim.Native.String.{String}
use abstract_machine.Base.{
  ℕ, zero, suc, ◌+◌, ◌-◌, ◌*◌, ◌/◌, ◌%◌, ◌^◌, Option, none, some, List, [], ◌∷◌, ◌++◌, ◌==◌, ◌!=◌,
  if◌then◌else◌,
}
use abstract_machine.Klib.Memory.{Mem}
use abstract_machine.Riscv.Hart.Task.{Boxes, Main, hart_check_complete}
use abstract_machine.Riscv.Outcome.{Outcome}
use abstract_machine.Riscv.Trap.Expect.{Machine, Platform, trap_check_complete}

-- The characters of an ASCII text.
unfoldable pub bytes : String → List ℕ
bytes String.[] = []
bytes (String.◌∷◌ c s) = code c ∷ bytes s

-- The loop of test_puts; none when the fuel runs out.
unfoldable pub puts_loop : ℕ → Mem → ℕ → List ℕ → Option (List ℕ)
puts_loop zero m s console = none
puts_loop (suc fuel) m s console =
    let rest = puts_loop fuel m (s + 1) (console ++ (m s ∷ [])) in
    if m s == 0 then some console else rest

-- test_puts of the string at `s`
unfoldable pub test_puts : ℕ → Mem → ℕ → List ℕ → Option (List ℕ)
test_puts fuel m s console = if s == 0 then some console else puts_loop fuel m s console

-- test_puts of a text of the program
abbrev pub puts : String → List ℕ → List ℕ
puts text console = console ++ bytes text

-- digits[i]
unfoldable pub nth_digit : ℕ → List ℕ → ℕ
nth_digit i [] = 0
nth_digit i (d ∷ ds) = if i == 0 then d else nth_digit (i - 1) ds

abbrev pub hex_digits : List ℕ
hex_digits = bytes "0123456789abcdef"

-- The loop of test_put_hex, with `n` digits to go, i = 4 * n - 4.
unfoldable pub put_digits : ℕ → ℕ → List ℕ → List ℕ
put_digits zero value console = console
put_digits (suc n) value console =
    put_digits n value (console ++ (nth_digit (value / 2 ^ (4 * n) % 16) hex_digits ∷ []))

unfoldable pub test_put_hex : ℕ → List ℕ → List ℕ
test_put_hex value console = put_digits 16 value (puts "0x" console)

-- The end of a run.
pub record Halt : Type 0 where
  pub code : ℕ
  pub console : List ℕ

unfoldable pub test_skip : String → List ℕ → Halt
test_skip reason console = record {
  code = 77;
  console = puts "\n" (puts reason (puts "SKIP: " console));
}

unfoldable pub test_fail : Option String → List ℕ → Halt
test_fail none console = record {
  code = 1;
  console = puts "\n" (puts "\u{1b}[1;31mFAIL\u{1b}[0m" console);
}
test_fail (some msg) console = record {
  code = 1;
  console = puts "\n" (puts msg (puts ": " (puts "\u{1b}[1;31mFAIL\u{1b}[0m" console)));
}

-- What follows a call on hart 0, where it returns.
abbrev pub unless_ended : Main → List ℕ → Halt → Halt
unless_ended (Main.failed msg) console next = test_fail (some msg) console
unless_ended (Main.skipped msg) console next = test_skip msg console
unless_ended other console next = next

abbrev pub unless_failed : Outcome (Unit {0} × Machine) → List ℕ → Halt → Halt
unless_failed (Outcome.ok s) console next = next
unless_failed (Outcome.failed msg) console next = test_fail (some msg) console
unless_failed (Outcome.skipped msg) console next = test_skip msg console

unfoldable pub test_pass : Platform → Boxes → Machine → List ℕ → Halt
test_pass p m s console =
    if s.hart != 0
    then test_fail (some "test_pass from worker hart") console
    else unless_ended (hart_check_complete p.hart_max m) console (
        unless_failed (trap_check_complete p s) console
          (record { code = 0; console = puts "\u{1b}[1;32mPASS\u{1b}[0m\n" console }))
