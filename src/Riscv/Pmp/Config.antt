-- ===== src/Riscv/Pmp/Config.antt =====
-- What pmp_set_cfg and pmp_clear_all of pmp.c write.
use mathlib.Core.Path.{fun_ext}
use abstract_machine.Base.{
  ℕ, zero, suc, ◌+◌, ◌-◌, ◌*◌, ◌/◌, ◌^◌, ◌<◌, ◌≤◌, ◌≡◌, true, false, ltb, ◌==◌, refl, ap, ◌∙◌,
  arith, bit_and, bit_or, if◌then◌else◌, Bool-cases, inl, inr,
}
use abstract_machine.Riscv.Outcome.{ok}
use abstract_machine.Riscv.Page.Words.{u64, shl, clear_bits}
use abstract_machine.Riscv.Pmp.{
  Registers, pmp_set_addr, pmp_set_cfg, clear_addrs, pmp_clear_all, pmp_set_napot, pmp_napot_addr,
  pmp_rwxl, pmp_a_napot,
}

-- The register that holds entry `idx`, with the entry's byte written.
abbrev pub with_byte : ℕ → ℕ → ℕ → ℕ
with_byte idx cfg v =
    let off = bit_and idx 7 * 8 in bit_or (clear_bits v (shl 0xff off)) (shl cfg off)

unfoldable pub cfg0_after : ℕ → ℕ → ℕ → ℕ
cfg0_after idx cfg v = if idx / 8 == 0 then with_byte idx cfg v else v

unfoldable pub cfg2_after : ℕ → ℕ → ℕ → ℕ
cfg2_after idx cfg v = if idx / 8 == 0 then v else with_byte idx cfg v

abbrev pub configured : ℕ → ℕ → Registers → Registers
configured idx cfg s = record s {
  pmpcfg0 = cfg0_after idx cfg s.pmpcfg0;
  pmpcfg2 = cfg2_after idx cfg s.pmpcfg2;
}

pub pmp_set_cfg-configured :
    (idx cfg : ℕ) (s : Registers) → idx < 16 → pmp_set_cfg idx cfg s ≡ ok (tt, configured idx cfg s)
unfolding pmp_set_cfg cfg0_after cfg2_after
pmp_set_cfg-configured idx cfg s h = elim (Bool-cases (idx / 8 == 0)) [
  | inl low ↦ rw low refl
  | inr high ↦ let second : (idx / 8 == 1) ≡ true = ground arith in rw (high, second) refl
]

abbrev pub addressed : ℕ → ℕ → Registers → Registers
addressed idx a s = record s { pmpaddr = λ i. if i == idx then a else s.pmpaddr i }

pub pmp_set_addr-addressed :
    (idx a : ℕ) (s : Registers) → idx < 16 → pmp_set_addr idx a s ≡ ok (tt, addressed idx a s)
unfolding pmp_set_addr
pmp_set_addr-addressed idx a s h = ground arith

-- pmp_clear_all leaves every entry off, and with the address 0.
abbrev pub cleared : Registers → Registers
cleared s = record { pmpaddr = λ i. if ltb i 16 then 0 else s.pmpaddr i; pmpcfg0 = 0; pmpcfg2 = 0 }

clear_addrs_lem :
    (n : ℕ) (s : Registers)
    → n ≤ 16
    → clear_addrs n s ≡ ok (tt, record s { pmpaddr = λ i. if ltb i n then 0 else s.pmpaddr i })
unfolding clear_addrs
clear_addrs_lem zero s h =
    ap (λ (f : ℕ → ℕ). ok (tt, record s { pmpaddr = f })) (fun_ext (λ i. ground arith))
clear_addrs_lem (suc n) s h =
    let t = record s { pmpaddr = λ i. if ltb i n then 0 else s.pmpaddr i } in
    rw (clear_addrs_lem n s (omega arith)) (
      pmp_set_addr-addressed n 0 t (omega arith)
      ∙ ap (λ (f : ℕ → ℕ). ok (tt, record s { pmpaddr = f })) (fun_ext (λ i. ground arith)))

pub pmp_clear_all-cleared : (s : Registers) → pmp_clear_all s ≡ ok (tt, cleared s)
unfolding pmp_clear_all
pmp_clear_all-cleared s = clear_addrs_lem 16 (record s { pmpcfg0 = 0; pmpcfg2 = 0 }) (omega arith)

-- pmp_set_napot, where its guards pass.
pub pmp_set_napot-configured :
    (idx base size cfg : ℕ) (s : Registers)
    → idx < 16
    → ltb size 8 ≡ false
    → bit_and size (u64 (size + (2 ^ 64 - 1))) ≡ 0
    → bit_and base (u64 (size + (2 ^ 64 - 1))) ≡ 0
    → pmp_set_napot idx base size cfg s
      ≡ ok (
        tt,
        configured idx
            (bit_or (bit_and cfg pmp_rwxl) pmp_a_napot)
            (addressed idx (pmp_napot_addr base size) s),
      )
unfolding pmp_set_napot
pmp_set_napot-configured idx base size cfg s h a b c =
    let t = addressed idx (pmp_napot_addr base size) s in
    rw (a, b, c)
      (rw (pmp_set_addr-addressed idx (pmp_napot_addr base size) s h)
        (pmp_set_cfg-configured idx (bit_or (bit_and cfg pmp_rwxl) pmp_a_napot) t h))
