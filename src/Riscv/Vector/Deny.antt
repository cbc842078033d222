-- ===== src/Riscv/Vector/Deny.antt =====
-- vector-test.c: what rvv_pmp_deny_page_allow_dram denies and allows.
use abstract_machine.Base.{
  ℕ, ◌+◌, ◌-◌, ◌/◌, ◌^◌, ◌<◌, ◌≤◌, ◌≡◌, ◌≢◌, Bool, true, false, some, none, bit_and, ltb, ◌==◌,
  refl, ◌∙◌, ap, arith, if◌then◌else◌, Bool-cases, inl, inr,
}
use abstract_machine.Base.Range.{all, all-at}
use abstract_machine.Riscv.Outcome.{ok}
use abstract_machine.Riscv.Page.Words.{u64}
use abstract_machine.Riscv.Vector.Window.{rvv_pmp_deny_page_allow_dram}
use abstract_machine.Riscv.Pmp.Region.{inside, power_covers}
use abstract_machine.Riscv.Pmp.{Registers, pmp_napot_addr}
use abstract_machine.Riscv.Pmp.Napot.{covers}
use abstract_machine.Riscv.Pmp.Match.{
  config_of, config, matches, off-matches, napot-matches, permissions, two_entries,
}
use abstract_machine.Riscv.Pmp.Config.{
  cfg0_after, cfg2_after, configured, addressed, cleared, pmp_clear_all-cleared,
  pmp_set_napot-configured,
}

of_test : {a b : ℕ} → (a == b) ≡ true → a ≡ b
of_test h = ground arith

-- The configuration bytes that it leaves, for every pair of entries.
abbrev wanted : ℕ → ℕ → ℕ → ℕ
wanted d a i = if i == a then 0x1f else if i == d then 0x18 else 0

abbrev cfg0 : ℕ → ℕ → ℕ
cfg0 d a = cfg0_after a 0x1f (cfg0_after d 0x18 0)

abbrev cfg2 : ℕ → ℕ → ℕ
cfg2 d a = cfg2_after a 0x1f (cfg2_after d 0x18 0)

abbrev pair_test : ℕ → ℕ → Bool
pair_test d a =
    if d == a then true else all 16 (λ i. config_of (cfg0 d a) (cfg2 d a) i == wanted d a i)

table : all 16 (λ d. all 16 (λ a. pair_test d a)) ≡ true
unfolding config_of cfg0_after cfg2_after all
table = refl

config_lem :
    (d a i : ℕ)
    → d < 16
    → a < 16
    → d ≢ a
    → i < 16
    → config_of (cfg0 d a) (cfg2 d a) i ≡ wanted d a i
config_lem d a i d_ok a_ok ne i_ok =
    let row = all-at 16 (λ (n : ℕ). all 16 (λ m. pair_test n m)) d table d_ok in
    let pair = all-at 16 (λ (m : ℕ). pair_test d m) a row a_ok in
    let apart : (d == a) ≡ false = ground arith in
    let all_bytes : all 16 (λ n. config_of (cfg0 d a) (cfg2 d a) n == wanted d a n) ≡ true =
      rw apart at pair in
    of_test
      (all-at 16 (λ (n : ℕ). config_of (cfg0 d a) (cfg2 d a) n == wanted d a n) i all_bytes i_ok)

-- The registers that it leaves.
abbrev denied : ℕ → ℕ → ℕ → ℕ → Registers → Registers
denied d a deny_addr allow_addr s =
    configured a 0x1f
      (addressed a allow_addr (configured d 0x18 (addressed d deny_addr (cleared s))))

module _ (d a deny_addr allow_addr : ℕ) (s : Registers) (d_ok : d < 16) (a_ok : a < 16)
    (ne : d ≢ a) where
  end : Registers
  end = denied d a deny_addr allow_addr s

  off : (i w : ℕ) → i < 16 → i ≢ d → i ≢ a → matches end i w ≡ false
  unfolding end
  off i w lt nd na =
      off-matches (denied d a deny_addr allow_addr s) i w
        (rw (config_lem d a i d_ok a_ok ne lt) (ground arith))

  at_allow : (w : ℕ) → matches end a w ≡ covers 64 allow_addr w
  unfolding end
  at_allow w =
      napot-matches (denied d a deny_addr allow_addr s) a w
        (rw (config_lem d a a d_ok a_ok ne a_ok) (ground arith))
      ∙ ap (λ (t : ℕ). covers 64 t w) (ground arith)

  at_deny : (w : ℕ) → matches end d w ≡ covers 64 deny_addr w
  unfolding end
  at_deny w =
      napot-matches (denied d a deny_addr allow_addr s) d w
        (rw (config_lem d a d d_ok a_ok ne d_ok) (ground arith))
      ∙ ap (λ (t : ℕ). covers 64 t w) (ground arith)

  config_allow : config end a ≡ 0x1f
  unfolding end
  config_allow = config_lem d a a d_ok a_ok ne a_ok ∙ ground arith

  config_deny : config end d ≡ 0x18
  unfolding end
  config_deny = config_lem d a d d_ok a_ok ne d_ok ∙ ground arith

  in_order :
      (w : ℕ)
      → permissions end w ≡ (
          if ltb d a
          then (if covers 64 deny_addr w
              then some 0
              else if covers 64 allow_addr w
              then some 7
              else none)
          else (if covers 64 allow_addr w
              then some 7
              else if covers 64 deny_addr w
              then some 0
              else none))
  in_order w = elim (Bool-cases (ltb d a)) [
    | inl e ↦ rw e (
        two_entries end d a w (ground arith) a_ok (λ n lt nd na. off n w lt nd na)
        ∙ rw (at_allow w, at_deny w, config_allow, config_deny) refl)
    | inr e ↦ rw e (
        two_entries end a d w (ground arith) d_ok (λ n lt na nd. off n w lt nd na)
        ∙ rw (at_allow w, at_deny w, config_allow, config_deny) refl)
  ]

-- For a page of 4 KiB at a multiple of its size, and a memory whose size is a power of two that
-- divides its base, rvv_pmp_deny_page_allow_dram returns on two different entries. If the entry for
-- the page is the lower one, then an access to the page is decided by it, without a permission, one
-- to the rest of the memory is given all three permissions, and no entry matches any other address.
-- If it is the higher one, then the page of the memory is given all permissions too.
pub rvv_pmp_deny_page_allow_dram-permissions :
    (base size d a page : ℕ) (s : Registers)
    → d < 16
    → a < 16
    → d ≢ a
    → bit_and page 0xfff ≡ 0
    → 8 ≤ size
    → size < 2 ^ 64
    → bit_and size (size - 1) ≡ 0
    → bit_and base (size - 1) ≡ 0
    → (t : Registers) × ((rvv_pmp_deny_page_allow_dram base size d a page s ≡ ok (tt, t))
        × ((x : ℕ)
            → permissions t (x / 4) ≡ (
                if ltb d a
                then (if inside page 4096 x
                    then some 0
                    else if inside base size x
                    then some 7
                    else none)
                else (if inside base size x
                    then some 7
                    else if inside page 4096 x
                    then some 0
                    else none))))
unfolding rvv_pmp_deny_page_allow_dram end
rvv_pmp_deny_page_allow_dram-permissions base size d a page s d_ok a_ok ne p le lt pow aligned =
    let first = pmp_napot_addr page 4096 in
    let second = pmp_napot_addr base size in
    let wrap : u64 (size + (2 ^ 64 - 1)) ≡ size - 1 = omega arith in
    let apart : (d == a) ≡ false = ground arith in
    let one = pmp_set_napot-configured d page 4096 0x18 (cleared s) d_ok refl refl p in
    let middle = configured d 0x18 (addressed d first (cleared s)) in
    let two =
      pmp_set_napot-configured a base size 0x1f middle a_ok (ground arith) (rw wrap pow)
        (rw wrap aligned) in
    (
      denied d a first second s,
      (
        rw (p, apart) (rw (pmp_clear_all-cleared s) (rw one two)),
        λ x.
            in_order d a first second s d_ok a_ok ne (x / 4)
            ∙ rw
                (
                  power_covers page 4096 x (omega arith) (omega arith) refl p,
                  power_covers base size x le lt pow aligned,
                )
                refl,
      ),
    )
