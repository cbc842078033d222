-- ===== src/Riscv.antt =====
-- The RISC-V bare-metal test runtime.
pub mod Verdict
pub mod Outcome
pub mod Page
pub mod Pmp
pub mod Priv
pub mod Hart
pub mod Trap
pub mod Vector
pub mod Htif
