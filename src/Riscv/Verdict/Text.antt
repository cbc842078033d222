-- ===== src/Riscv/Verdict/Text.antt =====
-- am/src/riscv/test-support/assert.c: test_puts writes a string, and test_put_hex a number that can
-- be read back.
use native.Mathlib.Nat.{
  div-add-mod, mul-add-mod_self_left, mod-eq_of_lt, mod-lt, pow-suc, one-le-pow,
}
use abstract_machine.Base.{
  ℕ, zero, suc, ◌+◌, ◌-◌, ◌*◌, ◌/◌, ◌%◌, ◌^◌, ◌<◌, ◌≡◌, ◌≢◌, refl, sym, ap, ◌∙◌, arith, some, List,
  [], ◌∷◌, ◌++◌, true, false, ◌==◌, ltb, if◌then◌else◌,
}
use abstract_machine.Base.Lists.{length}
use abstract_machine.Base.Range.{all, all-at}
use abstract_machine.Klib.Memory.{Mem, StrAt}
use abstract_machine.Riscv.Verdict.{
  bytes, puts, puts_loop, test_puts, nth_digit, hex_digits, put_digits, test_put_hex,
}

append_one : (l : List ℕ) (c : ℕ) (cs : List ℕ) → (l ++ (c ∷ [])) ++ cs ≡ l ++ (c ∷ cs)
append_one [] c cs = refl
append_one (x ∷ l) c cs = ap (λ (t : List ℕ). x ∷ t) (append_one l c cs)

append_two : (l : List ℕ) (a b : ℕ) (cs : List ℕ) → (l ++ (a ∷ b ∷ [])) ++ cs ≡ l ++ (a ∷ b ∷ cs)
append_two [] a b cs = refl
append_two (x ∷ l) a b cs = ap (λ (t : List ℕ). x ∷ t) (append_two l a b cs)

append_none : (l : List ℕ) → l ++ [] ≡ l
append_none [] = refl
append_none (x ∷ l) = ap (λ (t : List ℕ). x ∷ t) (append_none l)

puts_loop_lem :
    (fuel : ℕ) (m : Mem) (s : ℕ) (cs console : List ℕ)
    → StrAt m s cs
    → length cs < fuel
    → puts_loop fuel m s console ≡ some (console ++ cs)
unfolding puts_loop
puts_loop_lem zero m s cs console h lt = absurd (omega arith)
puts_loop_lem (suc fuel) m s [] console h lt = rw h (ap some (sym (append_none console)))
puts_loop_lem (suc fuel) m s (c ∷ cs) console h lt =
    let ih = puts_loop_lem fuel m (s + 1) cs (console ++ (m s ∷ [])) h.2 (omega arith) in
    let z : (m s == 0) ≡ false = ground (arith, h.0, h.1) in
    simp z (ih ∙ ap some (append_one console (m s) cs ∙ ap (λ (x : ℕ). console ++ (x ∷ cs)) h.0))

-- A string that is not at the null pointer is written to the console, byte after byte, on fuel above
-- its length.
pub test_puts-StrAt :
    (fuel : ℕ) (m : Mem) (s : ℕ) (cs console : List ℕ)
    → s ≢ 0
    → StrAt m s cs
    → length cs < fuel
    → test_puts fuel m s console ≡ some (console ++ cs)
unfolding test_puts
test_puts-StrAt fuel m s cs console n h lt =
    let z : (s == 0) ≡ false = ground (arith) in rw z (puts_loop_lem fuel m s cs console h lt)

-- The digits of the low `n` hexadecimal places, the highest first.
hex : ℕ → ℕ → List ℕ
hex zero value = []
hex (suc n) value = nth_digit (value / 2 ^ (4 * n) % 16) hex_digits ∷ hex n value

put_digits-hex :
    (n value : ℕ) (console : List ℕ) → put_digits n value console ≡ console ++ hex n value
unfolding put_digits hex
put_digits-hex zero value console = sym (append_none console)
put_digits-hex (suc n) value console =
    put_digits-hex n value (console ++ (nth_digit (value / 2 ^ (4 * n) % 16) hex_digits ∷ []))
    ∙ append_one console (nth_digit (value / 2 ^ (4 * n) % 16) hex_digits) (hex n value)

length-hex : (n value : ℕ) → length (hex n value) ≡ n
unfolding hex
length-hex zero value = refl
length-hex (suc n) value = ap suc (length-hex n value)

abbrev pub char_value : ℕ → ℕ
char_value d = if ltb d 58 then d - 48 else d - 87

-- The number that hexadecimal digits stand for, after the digits that stand for `acc`.
unfoldable pub read_hex : ℕ → List ℕ → ℕ
read_hex acc [] = acc
read_hex acc (d ∷ ds) = read_hex (16 * acc + char_value d) ds

each_digit : all 16 (λ d. char_value (nth_digit d hex_digits) == d) ≡ true
unfolding nth_digit bytes all
each_digit = refl

at_digit : (d : ℕ) → d < 16 → char_value (nth_digit d hex_digits) ≡ d
at_digit d lt =
    ground (arith, all-at 16 (λ (i : ℕ). char_value (nth_digit i hex_digits) == i) d each_digit lt)

places : (n : ℕ) → 2 ^ (4 * suc n) ≡ 16 * 2 ^ (4 * n)
places n =
    let k = 4 * n in
    let four : 4 * suc n ≡ suc (suc (suc (suc k))) = omega arith in
    rw four (
      omega (
        arith,
        pow-suc 2 k,
        pow-suc 2 (suc k),
        pow-suc 2 (suc (suc k)),
        pow-suc 2 (suc (suc (suc k))),
      ))

digits_bound : (d r p : ℕ) → d < 16 → r < p → d * p + r < 16 * p
digits_bound d r p lt le = grind arith

split : (v p : ℕ) → 0 < p → v % (16 * p) ≡ v / p % 16 * p + v % p
split v p pos =
    let q = v / p in
    let d = q % 16 in
    let r = v % p in
    let e : v ≡ 16 * p * (q / 16) + (d * p + r) =
      omega (arith, div-add-mod v p, ap (λ (t : ℕ). t * p) (div-add-mod q 16)) in
    ap (λ (x : ℕ). x % (16 * p)) e
    ∙ mul-add-mod_self_left (16 * p) (q / 16) (d * p + r)
    ∙ mod-eq_of_lt (digits_bound d r p (mod-lt q (omega arith)) (mod-lt v pos))

read_hex-hex :
    (n value acc : ℕ) → read_hex acc (hex n value) ≡ acc * 2 ^ (4 * n) + value % 2 ^ (4 * n)
unfolding read_hex hex
read_hex-hex zero value acc = omega arith
read_hex-hex (suc n) value acc =
    let p = 2 ^ (4 * n) in
    let d = value / p % 16 in
    let c = at_digit d (mod-lt (value / p) (omega arith)) in
    let ih = read_hex-hex n value (16 * acc + d) in
    let s = split value p (one-le-pow (4 * n) 2 (omega arith)) in
    ap (λ (t : ℕ). read_hex (16 * acc + t) (hex n value)) c
    ∙ (ih ∙ rw (places n) (omega (arith, s)))

-- test_put_hex writes 0x and sixteen digits, and the digits stand for the low 64 bits of the value.
pub test_put_hex-read_hex :
    (value : ℕ) (console : List ℕ)
    → (ds : List ℕ) × ((test_put_hex value console ≡ console ++ (48 ∷ 120 ∷ ds))
        × ((length ds ≡ 16) × (read_hex 0 ds ≡ value % 2 ^ 64)))
unfolding test_put_hex bytes
test_put_hex-read_hex value console = (
  hex 16 value,
  (
    put_digits-hex 16 value (puts "0x" console) ∙ append_two console 48 120 (hex 16 value),
    (length-hex 16 value, omega (arith, read_hex-hex 16 value 0)),
  ),
)
