-- ===== src/Riscv/Page/Satp.antt =====
-- The satp register, as page.c writes it.
use abstract_machine.Base.{ℕ}
use abstract_machine.Riscv.Outcome.{Run, modify}
use abstract_machine.Riscv.Page.Words.{State}

abbrev pub satp_mode_shift : ℕ
satp_mode_shift = 60

abbrev pub satp_mode_sv39 : ℕ
satp_mode_sv39 = 8

abbrev pub satp_mode_sv48 : ℕ
satp_mode_sv48 = 9

unfoldable pub write_satp : ℕ → Run State (Unit {0})
write_satp v = modify λ s. record s { satp = v }
