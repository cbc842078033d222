-- ===== src/Riscv/Hart.antt =====
-- am/src/riscv/test-support/hart.c, and the loop of a worker in start.S: hart 0 posts tasks to the
-- mailboxes of the other harts and joins them, and a word of memory is a spin lock.
pub mod Task
pub mod Schedule
pub mod Account
pub mod Balance
pub mod Join
pub mod Lock
pub mod Barrier
pub mod Count
pub mod Rounds
pub mod Moves
pub mod Pass
