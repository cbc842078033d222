-- ===== src/Riscv/Priv/Window.antt =====
-- am/src/riscv/test-support/priv.c: what priv_allow_dram allows.
use abstract_machine.Base.{
  ℕ, ◌+◌, ◌-◌, ◌/◌, ◌%◌, ◌^◌, ◌<◌, ◌≡◌, ◌≢◌, Bool, true, false, some, none, bit_and, leb, ltb, ◌==◌,
  ◌&&◌, refl, ◌∙◌, arith, if◌then◌else◌, Bool-cases, inl, inr,
}
use abstract_machine.Base.Range.{all, all-at}
use abstract_machine.Riscv.Outcome.{ok, ◌>>◌}
use abstract_machine.Riscv.Page.Words.{u64}
use abstract_machine.Riscv.Pmp.{Registers, pmp_set_addr, pmp_set_tor, pmp_set_napot, pmp_napot_addr}
use abstract_machine.Riscv.Pmp.Match.{
  config_of, config, permissions, permissions_none, permissions_first, off-matches, bottom, matches,
}
use abstract_machine.Riscv.Pmp.Config.{
  configured, cfg0_after, cfg2_after, addressed, cleared, pmp_clear_all-cleared,
}
use abstract_machine.Riscv.Pmp.Napot.{covers}
use abstract_machine.Riscv.Pmp.Region.{inside, power_covers}
use abstract_machine.Riscv.Priv.{priv_allow_dram, pmp_rwx}

-- Every entry of the registers but `j` is off.
abbrev off_but : ℕ → ℕ → ℕ → Bool
off_but j cfg0 cfg2 = all 16 (λ i. if i == j then true else config_of cfg0 cfg2 i / 8 % 4 == 0)

of_off_but :
    (j cfg0 cfg2 i : ℕ)
    → off_but j cfg0 cfg2 ≡ true
    → i < 16
    → i ≢ j
    → config_of cfg0 cfg2 i / 8 % 4 ≡ 0
of_off_but j cfg0 cfg2 i h lt ne = ground (
  arith,
  all-at 16 (λ (n : ℕ). if n == j then true else config_of cfg0 cfg2 n / 8 % 4 == 0) i h lt,
)

-- Where every entry but `j` is off, that one alone decides.
one_entry :
    (s : Registers) (j w : ℕ)
    → j < 16
    → off_but j s.pmpcfg0 s.pmpcfg2 ≡ true
    → permissions s w ≡ (if matches s j w then some (config s j % 8) else none)
one_entry s j w lt off =
    let quiet = λ (i : ℕ) (less : i < 16) (ne : i ≢ j).
      off-matches s i w (of_off_but j s.pmpcfg0 s.pmpcfg2 i off less ne) in
    elim (Bool-cases (matches s j w)) [
      | inl m ↦ rw m (
          permissions_first 16 j s w (omega arith) lt (omega arith) m
            (λ i less. quiet i (omega arith) (λ e. absurd (omega (arith, e)))))
      | inr m ↦ rw m (
          permissions_none 16 s w (λ i less. elim (Bool-cases (i == j)) [
            | inl e ↦ let z : i ≡ j = ground arith in rw z m
            | inr e ↦ quiet i less (λ z. ground arith)
          ]))
    ]

-- The registers that each of the two branches leaves.
abbrev napot_window : ℕ → Registers → Registers
napot_window a s = configured 0 0x1f (addressed 0 a (cleared s))

abbrev tor_window : ℕ → ℕ → Registers → Registers
tor_window bottom top s = configured 1 0xf (addressed 1 top (addressed 0 bottom (cleared s)))

napot_window-permissions :
    (a w : ℕ) (s : Registers)
    → permissions (napot_window a s) w ≡ (if covers 64 a w then some 7 else none)
unfolding config_of cfg0_after cfg2_after matches all
napot_window-permissions a w s = one_entry (napot_window a s) 0 w (omega arith) refl

tor_window-permissions :
    (b t w : ℕ) (s : Registers)
    → permissions (tor_window b t s) w ≡ (if leb b w && ltb w t then some 7 else none)
unfolding config_of cfg0_after cfg2_after matches all
tor_window-permissions b t w s = one_entry (tor_window b t s) 1 w (omega arith) refl

-- pmp_set_napot of entry 0, where its guards pass.
set_napot_window :
    (base size : ℕ) (s : Registers)
    → ltb size 8 ≡ false
    → bit_and size (u64 (size + (2 ^ 64 - 1))) ≡ 0
    → bit_and base (u64 (size + (2 ^ 64 - 1))) ≡ 0
    → pmp_set_napot 0 base size pmp_rwx (cleared s)
      ≡ ok (tt, napot_window (pmp_napot_addr base size) s)
unfolding pmp_set_napot cfg0_after cfg2_after
set_napot_window base size s a b c = rw (a, b, c) refl

set_tor_window :
    (base top : ℕ) (s : Registers)
    → (pmp_set_addr 0 (base / 4) >> pmp_set_tor 1 top pmp_rwx) (cleared s)
      ≡ ok (tt, tor_window (base / 4) (top / 4) s)
unfolding pmp_set_addr pmp_set_tor cfg0_after cfg2_after
set_tor_window base top s = refl

tor_range :
    (base size x : ℕ)
    → base % 4 ≡ 0
    → size % 4 ≡ 0
    → (leb (base / 4) (x / 4) && ltb (x / 4) ((base + size) / 4))
      ≡ (leb base x && ltb x (base + size))
tor_range base size x b s = ground arith

-- On any registers, priv_allow_dram returns, and then an access is matched and given all three
-- permissions exactly when its address lies in the memory. The base and the size are multiples of
-- four, and the memory ends below 2 ^ 64.
pub priv_allow_dram-permissions :
    (base size : ℕ) (s : Registers)
    → base + size < 2 ^ 64
    → base % 4 ≡ 0
    → size % 4 ≡ 0
    → (t : Registers) × ((priv_allow_dram base size s ≡ ok (tt, t))
        × ((x : ℕ) → permissions t (x / 4) ≡ (if inside base size x then some 7 else none)))
unfolding priv_allow_dram
priv_allow_dram-permissions base size s fits b4 s4 =
    elim (Bool-cases (leb 8 size && bit_and size (size - 1) == 0 && bit_and base (size - 1) == 0)) [
      | inl e ↦
          let wrap : u64 (size + (2 ^ 64 - 1)) ≡ size - 1 = ground arith in
          let p : bit_and size (size - 1) ≡ 0 = ground arith in
          let q : bit_and base (size - 1) ≡ 0 = ground arith in
          let a = set_napot_window base size s (ground arith) (rw wrap p) (rw wrap q) in
          (
            napot_window (pmp_napot_addr base size) s,
            (
              rw (pmp_clear_all-cleared s) (rw e a),
              λ x.
                  napot_window-permissions (pmp_napot_addr base size) (x / 4) s
                  ∙ rw (power_covers base size x (ground arith) (omega arith) p q) refl,
            ),
          )
      | inr e ↦
          let top = base + size in
          let wrap : u64 (base + size) ≡ base + size = omega arith in
          (
            tor_window (base / 4) (top / 4) s,
            (
              rw (pmp_clear_all-cleared s) (rw (e, wrap) (set_tor_window base top s)),
              λ x.
                  tor_window-permissions (base / 4) (top / 4) (x / 4) s
                  ∙ rw (tor_range base size x b4 s4) refl,
            ),
          )
    ]
