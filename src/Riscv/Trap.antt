-- ===== src/Riscv/Trap.antt =====
-- am/src/riscv/test-support/trap.c: the traps that a test expects, one expectation for each hart.
-- A pointer is a number, NULL is 0, and so is a function pointer. A frame is the array of words
-- that the assembly entry saved, `frames f i` for the C expression f[i].
pub mod Expect
pub mod Handler
pub mod Status
pub mod Promise
pub mod Deliver
pub mod Refuse
pub mod Armed
pub mod Reach
