-- ===== src/Riscv/Page/Mode/Switch.antt =====
-- Switching the translation mode and reading it back.
use abstract_machine.Base.{ℕ, suc, ◌+◌, ◌*◌, ◌/◌, ◌%◌, ◌^◌, ◌<◌, ◌≡◌, ◌≢◌, ◌⊎◌, refl, arith, bit_or}
use abstract_machine.Base.Bits.{bit_or-shifted, bit_and-low_ones}
use abstract_machine.Riscv.Outcome.{ok, failed}
use abstract_machine.Riscv.Page.Words.{State, shl}
use abstract_machine.Riscv.Page.Mode.{
  pt_mode_bare, pt_mode_sv39, pt_mode_sv48, page_get_mode, page_switch_mode,
}

-- `mode` is in the satp register of the state, which one sfence.vma has followed since `s`, and
-- page_get_mode reads it back.
pub record InMode (s : State) (mode : ℕ) (after : State) : Type 0 where
  pub field : after.satp / 2 ^ 60 ≡ mode
  pub fenced : after.sfences ≡ suc s.sfences
  pub reads : page_get_mode after ≡ ok (mode, after)
  pub same_tables : after.mem ≡ s.mem

read_mode :
    (s : State) (mode : ℕ) → s.satp / 2 ^ 60 ≡ mode → mode < 16 → page_get_mode s ≡ ok (mode, s)
unfolding page_get_mode
read_mode s mode h lt = ground (arith, bit_and-low_ones 4 (s.satp / 2 ^ 60))

paging_satp :
    (mode root : ℕ)
    → mode < 16
    → root < 2 ^ 56
    → bit_or (shl mode 60) (root / 2 ^ 12) ≡ mode * 2 ^ 60 + root / 2 ^ 12
paging_satp mode root h g =
    let fits : mode * 2 ^ 60 % 2 ^ 64 ≡ mode * 2 ^ 60 = omega arith in
    rw fits (bit_or-shifted 60 mode (root / 2 ^ 12) (omega arith))

-- page_switch_mode to Sv39 or Sv48 with a nonzero root in 56 bits returns. Then satp holds the mode
-- and the root's page, one sfence.vma was executed, page_get_mode reads the mode back, and the
-- tables are untouched.
pub page_switch_mode_paging :
    (s : State) (mode root : ℕ)
    → (mode ≡ pt_mode_sv39) ⊎ (mode ≡ pt_mode_sv48)
    → root ≢ 0
    → root < 2 ^ 56
    → (after : State) × (page_switch_mode mode root s ≡ ok (tt, after))
      × InMode s mode after
      × (after.satp % 2 ^ 44 ≡ root / 2 ^ 12)
unfolding page_switch_mode
page_switch_mode_paging s mode root which ne root_ok =
    let value = mode * 2 ^ 60 + root / 2 ^ 12 in
    let after = record s { satp = value; sfences = suc s.sfences } in
    let small : mode < 16 = omega arith in
    (
      after,
      ground (
        arith,
        paging_satp 8 root (omega arith) root_ok,
        paging_satp 9 root (omega arith) root_ok,
      ),
      record {
        field = omega arith;
        fenced = refl;
        reads = read_mode after mode (omega arith) small;
        same_tables = refl;
      },
      omega arith,
    )

-- page_switch_mode to bare mode returns whatever the root; satp is then 0, one sfence.vma was
-- executed, and page_get_mode reads the mode back.
pub page_switch_mode_bare :
    (s : State) (root : ℕ)
    → (after : State) × (page_switch_mode pt_mode_bare root s ≡ ok (tt, after))
      × InMode s pt_mode_bare after
unfolding page_switch_mode
page_switch_mode_bare s root =
    let after = record s { satp = 0; sfences = suc s.sfences } in
    (
      after,
      ground arith,
      record {
        field = refl;
        fenced = refl;
        reads = read_mode after 0 refl (omega arith);
        same_tables = refl;
      },
    )

-- page_switch_mode fails the test on a null root in any mode but bare.
pub page_switch_mode_null :
    (s : State) (mode : ℕ)
    → mode ≢ pt_mode_bare
    → page_switch_mode mode 0 s ≡ failed "page_switch_mode: root cannot be NULL for paging modes"
unfolding page_switch_mode
page_switch_mode_null s mode ne = ground arith

-- page_switch_mode fails the test on a mode that is not one of the three.
pub page_switch_mode_unsupported :
    (s : State) (mode root : ℕ)
    → root ≢ 0
    → mode ≢ pt_mode_bare
    → mode ≢ pt_mode_sv39
    → mode ≢ pt_mode_sv48
    → page_switch_mode mode root s ≡ failed "page_switch_mode: unsupported mode"
unfolding page_switch_mode
page_switch_mode_unsupported s mode root ne a b c = ground arith
