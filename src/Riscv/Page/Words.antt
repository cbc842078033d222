-- ===== src/Riscv/Page/Words.antt =====
-- The memory of page.c: the state, uint64_t arithmetic, and tables of 8-byte entries. The memory is
-- a function from the address of an entry to its value.
pub mod Slots
use abstract_machine.Base.{ℕ, zero, suc, ◌+◌, ◌-◌, ◌*◌, ◌%◌, ◌^◌, bit_and, ◌==◌, if◌then◌else◌}

-- `csr_write(satp, …)` sets `satp`; `sfences` counts the `sfence.vma` instructions. The last two
-- fields are the addresses of the linker's symbols, which no routine changes.
pub record State : Type 0 where
  pub mem : ℕ → ℕ
  pub arena_ptr : ℕ
  pub arena_end : ℕ
  pub satp : ℕ
  pub sfences : ℕ
  pub page_arena_start : ℕ
  pub page_arena_end : ℕ

abbrev pub u64 : ℕ → ℕ
u64 n = n % 2 ^ 64

-- x << k and x & ~mask on uint64_t.
abbrev pub shl : ℕ → ℕ → ℕ
shl x k = u64 (x * 2 ^ k)

abbrev pub clear_bits : ℕ → ℕ → ℕ
clear_bits x mask = bit_and x (2 ^ 64 - 1 - mask)

-- `&table[idx]`
abbrev pub entry : ℕ → ℕ → ℕ
entry table idx = u64 (table + 8 * idx)

unfoldable pub write_word : (ℕ → ℕ) → ℕ → ℕ → ℕ → ℕ
write_word m a v = λ b. if b == a then v else m b

-- `for (i = 0; i < count; i++) table[i] = f(i);`
unfoldable pub fill : ℕ → (ℕ → ℕ) → ℕ → (ℕ → ℕ) → ℕ → ℕ
fill zero m table f = m
fill (suc i) m table f = write_word (fill i m table f) (entry table i) (f i)
