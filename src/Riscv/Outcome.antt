-- ===== src/Riscv/Outcome.antt =====
-- A routine of the test runtime on a state: it returns, or it ends the run through `test_fail` or
-- `test_skip`, which print their message and halt.
use Prim.Native.String.{String}

pub data Outcome (A : Type 0) : Type 0 where
  ok : A → Outcome A
  failed : String → Outcome A
  skipped : String → Outcome A

abbrev pub Run : Type 0 → Type 0 → Type 0
Run S A = S → Outcome (A × S)

module _ {S A B : Type 0} where
  abbrev pub and_then : Outcome (A × S) → (A → Run S B) → Outcome (B × S)
  and_then (ok (a, s)) k = k a s
  and_then (failed e) k = failed e
  and_then (skipped e) k = skipped e

  infixl 5 ◌>>=◌ ◌>>◌
  abbrev pub ◌>>=◌ : Run S A → (A → Run S B) → Run S B
  m >>= k = λ s. and_then (m s) k

  abbrev pub ◌>>◌ : Run S A → Run S B → Run S B
  m >> n = m >>= λ _. n

module _ {S : Type 0} where
  abbrev pub pure : {A : Type 0} → A → Run S A
  pure a s = ok (a, s)

  abbrev pub get : Run S S
  get s = ok (s, s)

  abbrev pub modify : (S → S) → Run S (Unit {0})
  modify f s = ok (tt, f s)

  abbrev pub test_fail : {A : Type 0} → String → Run S A
  test_fail msg s = failed msg

  abbrev pub test_skip : {A : Type 0} → String → Run S A
  test_skip reason s = skipped reason
