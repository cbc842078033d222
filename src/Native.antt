-- ===== src/Native.antt =====
-- The native platform: AM as a process of the host.
pub mod Answer
pub mod Vme
