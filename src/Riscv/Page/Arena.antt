-- ===== src/Riscv/Page/Arena.antt =====
-- The arena of page.c that page tables come from.
pub mod Alloc
use abstract_machine.Base.{ℕ, ◌+◌, ◌-◌, ◌*◌, ltb, ◌==◌, if◌then◌else◌}
use abstract_machine.Riscv.Outcome.{Run, ◌>>=◌, ◌>>◌, pure, get, modify, test_fail}
use abstract_machine.Riscv.Page.Words.{State, u64, clear_bits, fill}

abbrev pub page_size : ℕ
page_size = 4096

abbrev pub mega_size : ℕ
mega_size = 2 * 1024 * 1024

abbrev pub giga_size : ℕ
giga_size = 1 * 1024 * 1024 * 1024

abbrev pub tera_size : ℕ
tera_size = 512 * 1024 * 1024 * 1024

unfoldable pub page_arena_init : Run State (Unit {0})
page_arena_init =
    modify λ s. record s { arena_ptr = s.page_arena_start; arena_end = s.page_arena_end }

unfoldable pub page_zero_table : ℕ → Run State (Unit {0})
page_zero_table table = modify λ s. record s { mem = fill 512 s.mem table (λ i. 0) }

-- The pointer after `if (!arena_ptr) page_arena_init();` is rounded up to a page.
unfoldable pub page_alloc_table : Run State ℕ
unfolding page_arena_init page_zero_table
page_alloc_table = do
  before ← get
  if before.arena_ptr == 0 then page_arena_init else pure tt
  s ← get
  let p = clear_bits (u64 (s.arena_ptr + page_size - 1)) (page_size - 1)
  if ltb s.arena_end (u64 (p + page_size))
      then test_fail "page arena OOM"
      else do modify λ t. record t { arena_ptr = u64 (p + page_size) }; page_zero_table p; pure p
