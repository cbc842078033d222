-- ===== src/Riscv/Page/Words/Slots.antt =====
-- Tables by page number: slot `i` of page `p` is the address of entry `i` of the table there. Slots
-- of different pages, and different slots of a page, do not meet.
use abstract_machine.Base.{ℕ, zero, suc, ◌+◌, ◌*◌, ◌^◌, ◌<◌, ◌≤◌, ◌≡◌, ◌≢◌, ◌⊎◌, arith, refl}
use abstract_machine.Riscv.Page.Words.{entry, write_word, fill}

abbrev pub slot : ℕ → ℕ → ℕ
slot p i = p * 4096 + 8 * i

pub entry-slot : (p i : ℕ) → p < 2 ^ 50 → i < 512 → entry (p * 4096) i ≡ slot p i
entry-slot p i h g = omega arith

pub write_word_self : (m : ℕ → ℕ) (a v : ℕ) → write_word m a v a ≡ v
unfolding write_word
write_word_self m a v = ground arith

pub write_word_ne : (m : ℕ → ℕ) (a v b : ℕ) → b ≢ a → write_word m a v b ≡ m b
unfolding write_word
write_word_ne m a v b h = ground arith

-- The loop fills the slots below `n` of its page, in any order the same, and no other address.
pub fill_at :
    (n : ℕ) (m : ℕ → ℕ) (p : ℕ) (f : ℕ → ℕ) (i : ℕ)
    → p < 2 ^ 50
    → n ≤ 512
    → i < n
    → fill n m (p * 4096) f (slot p i) ≡ f i
unfolding fill write_word
fill_at zero m p f i hp hn lt = absurd (omega arith)
fill_at (suc n) m p f i hp hn lt =
    ground (arith, entry-slot p n hp, (λ (h : i < n). fill_at n m p f i hp (omega arith) h))

pub fill_off :
    (n : ℕ) (m : ℕ → ℕ) (p : ℕ) (f : ℕ → ℕ) (a : ℕ)
    → p < 2 ^ 50
    → n ≤ 512
    → (a < p * 4096) ⊎ (p * 4096 + 4096 ≤ a)
    → fill n m (p * 4096) f a ≡ m a
unfolding fill write_word
fill_off zero m p f a hp hn off = refl
fill_off (suc n) m p f a hp hn off =
    ground (arith, entry-slot p n hp, fill_off n m p f a hp (omega arith) off)
