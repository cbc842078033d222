-- ===== src/Tests/Pmp.antt =====
-- The results about physical memory protection on concrete registers.
use abstract_machine.Base.{ℕ, ◌/◌, ◌≡◌, arith, refl, some, none, if◌then◌else◌}
use abstract_machine.Riscv.Outcome.{ok}
use abstract_machine.Riscv.Pmp.{Registers}
use abstract_machine.Riscv.Pmp.Match.{permissions}
use abstract_machine.Riscv.Pmp.Region.{inside}
use abstract_machine.Riscv.Priv.{priv_allow_dram}
use abstract_machine.Riscv.Priv.Window.{priv_allow_dram-permissions}

abbrev cleared : Registers
cleared = record { pmpaddr = λ i. 0; pmpcfg0 = 0; pmpcfg2 = 0 }

priv_allow_dram-permissions_example :
    (t : Registers) × ((priv_allow_dram 0x80000000 0x8000000 cleared ≡ ok (tt, t))
      × ((x : ℕ)
          → permissions t (x / 4) ≡ (if inside 0x80000000 0x8000000 x then some 7 else none)))
priv_allow_dram-permissions_example =
    priv_allow_dram-permissions 0x80000000 0x8000000 cleared (omega arith) refl refl
