-- ===== src/Riscv/Htif/Token.antt =====
-- The one read request of the console, or the byte that answers it.
use abstract_machine.Base.{ℕ, suc, ◌≡◌, ◌≢◌, List, [], ◌∷◌, refl, sym, ap, arith, ◌⊎◌, inl, inr}
use abstract_machine.Base.Int.{ℤ, pos, negsuc, pos_part}
use abstract_machine.Riscv.Htif.{fromhost_dev, fromhost_cmd, byte}

-- The bytes among the results of htif_console_getchar.
unfoldable pub received : List ℤ → List ℕ
received [] = []
received (pos c ∷ l) = c ∷ received l
received (negsuc n ∷ l) = received l

suc_not_zero : {n : ℕ} → suc n ≢ 0
suc_not_zero e = omega arith

-- htif_console_buf, the requests under way, fromhost, and the bytes answered and received.
pub data Token : ℤ → ℕ → ℕ → List ℕ → List ℕ → Type 0 where
  asked : {l : List ℕ} → Token (negsuc 0) 1 0 l l
  answered :
      {v : ℕ} {l : List ℕ}
      → fromhost_dev v ≡ 1
      → fromhost_cmd v ≡ 0
      → Token (negsuc 0) 0 v (byte v ∷ l) l
  empty : {l : List ℕ} → Token (pos 0) 0 0 l l
  held : {c : ℕ} {l : List ℕ} → Token (pos (suc c)) 0 0 (c ∷ l) l

pub clears-Token :
    {b : ℤ} {q fh : ℕ} {a r : List ℕ}
    → fh ≢ 0
    → Token b q fh a r
    → ((fromhost_dev fh ≡ 1) × (fromhost_cmd fh ≡ 0)) × Token (pos (suc (byte fh))) q 0 a r
clears-Token n asked = absurd (n refl)
clears-Token n (answered d c) = ((d, c), held)
clears-Token n empty = absurd (n refl)
clears-Token n held = absurd (n refl)

pub answers-Token :
    {b : ℤ} {q f m v : ℕ} {a r : List ℕ}
    → q ≡ suc m
    → f ≡ 0
    → fromhost_dev v ≡ 1
    → fromhost_cmd v ≡ 0
    → Token b q f a r
    → Token b m v (byte v ∷ a) r
answers-Token {m = m} e z d c asked = let w : m ≡ 0 = omega arith in rw w (answered d c)
answers-Token e z d c (answered g h) = absurd (omega arith)
answers-Token e z d c empty = absurd (omega arith)
answers-Token e z d c held = absurd (omega arith)

pub reads_empty :
    {b : ℤ} {q f : ℕ} {a r : List ℕ} → b ≡ pos 0 → Token b q f a r → Token (negsuc 0) (suc q) f a r
reads_empty e asked = absurd (cc)
reads_empty e (answered d c) = absurd (cc)
reads_empty e empty = asked
reads_empty e held = absurd (suc_not_zero (ap pos_part e))

pub reads_held :
    {b : ℤ} {q f c : ℕ} {a r : List ℕ}
    → b ≡ pos (suc c)
    → Token b q f a r
    → Token (negsuc 0) (suc q) f a (c ∷ r)
reads_held e asked = absurd (cc)
reads_held e (answered d h) = absurd (cc)
reads_held e empty = absurd (suc_not_zero (sym (ap pos_part e)))
reads_held {c = c} e (held {c = d} {l = l}) =
    let w : c ≡ d = omega (arith, ap pos_part e) in rw w asked

-- At most one byte is under way.
pub one_open :
    {b : ℤ} {q f : ℕ} {a r : List ℕ} → Token b q f a r → (a ≡ r) ⊎ ((c : ℕ) × (a ≡ c ∷ r))
one_open asked = inl refl
one_open (answered {v} d c) = inr (byte v, refl)
one_open empty = inl refl
one_open (held {c}) = inr (c, refl)
