-- ===== src/Riscv/Page.antt =====
-- am/src/riscv/test-support/page.c, a module for each group of its routines, the translation that
-- the hardware makes of the tables, and what the routines do to it.
pub mod Words
pub mod Arena
pub mod Pte
pub mod Table
pub mod Satp
pub mod Sv39
pub mod Sv48
pub mod Mode
pub mod Walk
pub mod Tree
pub mod Descend
