-- ===== src/Klib.antt =====
-- klib: the freestanding C library of the repository.
pub mod Memory
pub mod String
pub mod Ctypes
pub mod Stdlib
pub mod Stdio
