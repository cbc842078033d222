-- ===== src/Tests.antt =====
-- Runs of the models at concrete inputs, and the theorems at inputs that meet their hypotheses.
mod Klib
mod Page
mod Trap
mod Pmp
mod Hart
mod Vector
mod Stdio
mod Native
mod Spaces
mod Verdict
mod Htif
