-- ===== src/Riscv/Page/Arena/Alloc.antt =====
-- page_alloc_table takes the next free page of the arena, zeroed, as long as one is left.
use abstract_machine.Base.{
  ℕ, suc, ◌+◌, ◌-◌, ◌*◌, ◌/◌, ◌^◌, ◌<◌, ◌≤◌, ◌≡◌, arith, ◌==◌, if◌then◌else◌,
}
use abstract_machine.Base.Bits.{bit_and-high, bit_and-low_ones}
use abstract_machine.Riscv.Outcome.{ok, failed}
use abstract_machine.Riscv.Page.Words.{State, clear_bits, u64, fill}
use abstract_machine.Riscv.Page.Arena.{page_alloc_table, page_size}

-- The arena's bounds as the next allocation sees them: a null pointer means not set up yet.
abbrev pub free_from : State → ℕ
free_from s = if s.arena_ptr == 0 then s.page_arena_start else s.arena_ptr

abbrev pub free_to : State → ℕ
free_to s = if s.arena_ptr == 0 then s.page_arena_end else s.arena_end

-- The page that the next allocation takes.
abbrev pub next_page : State → ℕ
next_page s = (free_from s + 4095) / 4096

-- The state after that allocation.
abbrev pub allocated : State → State
allocated s = record s {
  mem = fill 512 s.mem (next_page s * 4096) (λ i. 0);
  arena_ptr = next_page s * 4096 + 4096;
  arena_end = free_to s;
}

-- `k` more pages fit below the end of the arena, which lies in physical memory.
pub record HasRoom (k : ℕ) (s : State) : Type 0 where
  pub room : next_page s * 4096 + k * 4096 ≤ free_to s
  pub physical : free_to s ≤ 2 ^ 56

pub round_up :
    (x : ℕ)
    → x < 2 ^ 57
    → clear_bits (u64 (x + page_size - 1)) (page_size - 1) ≡ (x + 4095) / 4096 * 4096
round_up x h =
    ground (arith, bit_and-high 12 (x + 4095) (2 ^ 52 - 1), bit_and-low_ones 52 ((x + 4095) / 4096))

-- While a page is left, page_alloc_table returns the next one, zeroed, and moves the arena's
-- pointer behind it.
pub page_alloc_table-ok :
    (k : ℕ) (s : State)
    → HasRoom (suc k) s
    → page_alloc_table s ≡ ok (next_page s * 4096, allocated s)
unfolding page_alloc_table
page_alloc_table-ok k s h = ground (arith, round_up s.arena_ptr, round_up s.page_arena_start)

pub HasRoom-allocated : (k : ℕ) (s : State) → HasRoom (suc k) s → HasRoom k (allocated s)
HasRoom-allocated k s h = record { room = ground arith; physical = ground arith }

-- When the arena starts at most at 2 ^ 56 and its next page would end behind its end,
-- page_alloc_table fails the test and returns no table.
pub page_alloc_table_full :
    (s : State)
    → free_from s ≤ 2 ^ 56
    → free_to s < next_page s * 4096 + 4096
    → page_alloc_table s ≡ failed "page arena OOM"
unfolding page_alloc_table
page_alloc_table_full s h full = ground (arith, round_up s.arena_ptr, round_up s.page_arena_start)

pub HasRoom-fewer : (n k : ℕ) (s : State) → n ≤ k → HasRoom k s → HasRoom n s
HasRoom-fewer n k s le h = record { room = omega (arith, h.room); physical = h.physical }
