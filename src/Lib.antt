-- ===== src/Lib.antt =====
-- A verification library for abstract-machine: the bare-metal runtime for RISC-V tests under
-- am/src/riscv/test-support with the console of spike, the C library klib that every platform
-- links, and the address spaces of the native platform.
--
-- The routines of the test runtime work on a state and end in one of three ways: they return, or
-- they end the run through test_fail or test_skip, which print and halt. A routine is a function
-- from a state to an outcome with the state after it, and do blocks run one call after the other
-- in the order of the source. The routines of klib work on a flat memory of bytes.
--
-- - Base: names of the library, Boolean tests, integers, lists, bitwise operators on the native
--   numbers.
--
-- - Klib/String: klib/src/string.c. A pointer is an address, NULL is 0. Each routine has the
--   source's name; a loop that the source shares between routines is one function (find_end,
--   copy_str, copy_up). A char is unsigned, as on RISC-V. Klib/Memory says when a string stands
--   at an address.
--
-- - Klib/Ctypes and Klib/Stdlib: klib/src/ctypes.c, and of klib/src/stdlib.c the random numbers,
--   abs, and the number reading that strtol, strtoul, strtoll, strtoull and atoi share. Scan
--   says what a row of digits is worth.
--
-- - Klib/Stdio: the printing of klib/src/stdio.c. The output is a memory and the pointer dst;
--   format_loop is the loop of vsnprintf_internal, directive one conversion behind its percent
--   sign, convert the switch on the letter. The variable arguments are a row of 64-bit slots.
--   Item describes a format as a list of items and what each of them prints; Buffer has every
--   way of writing as a list of characters put as far as there is room, Digit the numerals,
--   Directive the reading of a conversion, Convert the conversions, Render the whole, and Reread
--   is about reading a printed number back. Scanf is the scanning of the same file, and Input
--   about it.
--
-- - Riscv/Outcome: that a routine ends the run, through test_fail or test_skip of
--   am/src/riscv/test-support/assert.c.
--
-- - Riscv/Verdict: assert.c itself, with the bytes that it writes and the code of halt. Pass is
--   about test_pass, which asks hart.c and trap.c whether the test is over, Text about the
--   console.
--
-- - Riscv/Htif: am/src/riscv/spike/htif.c and htif.h, the console over tohost and fromhost on a
--   64-bit machine. The guest makes one access after the other, and in between the host takes a
--   command from tohost or answers a read request through a free fromhost; what the host is, is
--   not in the repository. Word is about the fields of a command, Token about the one read
--   request, Order about all reachable states.
--
-- - Riscv/Page: am/src/riscv/test-support/page.c and its constants in
--   am/include/arch/riscv-test.h. Words holds the state (the memory of table entries, the arena,
--   satp, a count of sfence.vma), Arena the allocation, Pte the entries, Table one level of the
--   routines, Sv39, Sv48 and Mode the routines themselves. The source writes the step from one
--   level to the next out for each level; next_table and present_table are that step, with the
--   size that differs. Walk is the specification, the translation that the hardware makes of the
--   tables; Tree says when the memory holds a tree of tables in which no table is reached twice;
--   Descend follows a routine down the levels.
--
-- - Riscv/Trap: am/src/riscv/test-support/trap.c. Expect holds the machine (the expectation of
--   each hart, the frames, the CSRs) and the operations on expectations, Handler the steps of
--   m_trap_handler in the order of the source, Promise where and with which status a trap
--   returns, Deliver, Refuse and Armed what the handler and a whole expectation do, Reach the
--   operations as a step relation. What a build or a test gives is a record Platform: HART_MAX,
--   EXT_V_ENABLED, the address of priv_resume_m, and the effect of a resolve function, which may
--   be any routine on the machine.
--
-- - Riscv/Hart: am/src/riscv/test-support/hart.c and the worker loop of start.S. Task has the
--   variables, the guards of hart_start and hart_join, and one access after the other of hart 0
--   and of a worker; Schedule lets them run in any order and notes which tasks were posted and
--   returned; Account says what the variables of one hart can be at the same time, Balance that
--   they stay so, Join what follows for a join. Lock is the spin lock. Barrier is the barrier
--   for a fixed number of harts, Count, Rounds and Moves the state of a round and that every
--   access keeps it, Pass what follows. Memory is sequentially consistent, which the fences of
--   the source are for.
--
-- - Riscv/Pmp: am/src/riscv/test-support/pmp.c, with pmp_napot_addr of
--   am/include/arch/riscv-test.h. The registers keep what is written to them; a lock bit has no
--   effect. Napot reads the address of an entry as the architecture does, and Region what passes
--   the tests of pmp_set_napot; Match says which entry decides about an address, Config what the
--   routines write.
--
-- - Riscv/Priv: priv_allow_dram of am/src/riscv/test-support/priv.c, with DRAM_BASE and
--   DRAM_SIZE as parameters. Window is about what it allows.
--
-- - Riscv/Vector: of am/src/riscv/test-support/vector-test.c the test data and the checks of
--   lanes, and vector_add_i32 of vector.c, with the vector length that the machine grants as a
--   parameter. Lanes is about the checks, Add about the sum. Window holds the page helpers of
--   vector-test.c, Deny what rvv_pmp_deny_page_allow_dram allows.
--
-- - Native/Vme: am/src/native/vme.c with __am_pmem_map and __am_pmem_unmap of
--   am/src/native/platform.c. Pages and list heads stand in a memory by address; the host is a
--   map from addresses to entries. The hash table of the C library is a pair of parameters, find
--   and enter. Whether mmap takes an address with an offset of the memory file is a parameter
--   too, the field accepts of the state; where it does not, the assertion of __am_pmem_map
--   fails. Answer says how a routine ends. Chain says which list stands in memory, Switch what
--   the two loops of __am_switch do, Run what a switch does, Apart and Map what adding a page
--   does, New and Again the two cases of map, Good and Grow what one call keeps of the lists of
--   all spaces, and Reach what holds after any sequence of calls.
--
-- - Tests: each result on a concrete input.
--
-- Bounds and fuel: uint64_t arithmetic wraps at 2 ^ 64. The arena lies below 2 ^ 56, the physical
-- address space of Sv39 and Sv48; the theorems ask for as many free pages as a routine can take. A
-- loop whose end only the memory decides, such as that of strlen, takes fuel; fuel above the
-- length of the string is enough, and the theorems say so. The digits of a 64-bit number take
-- fewer than 64 rounds, for which the model of that loop has fuel. A width in a format that an int
-- does not hold is undefined in C, and gives no result. Loops that count a number down recur on
-- it. The loops over a list of pages take fuel, and fuel above the length of the list is enough;
-- that no fuel is enough for a ring is a result of its own.
--
-- Not modelled: the assembly of the test runtime, the boot in start.S included, but for the loop
-- of a worker; the CSR accesses of the vector routines, priv_s_enter_u, the trap snapshot, the
-- CLINT of hart.c and what hart_barrier does for one hart or for an invalid number, the allocation
-- of klib (which panics on most platforms), the system calls and the lock of htif.c, ucontext and
-- the signals of the native platform, and the other platforms. The description of what a format
-- prints leaves out %p; the model has it. klib/src/int64.c and am/src/riscv/npc/libgcc are copies
-- of other projects. The permissions of a translation are read off the entry and not checked
-- against an access. The memory of tables is indexed by the address of an entry, so accesses that
-- are not aligned have no meaning.
mod Base
pub mod Klib
pub mod Native
pub mod Riscv
mod Tests
