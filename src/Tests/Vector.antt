-- ===== src/Tests/Vector.antt =====
-- Vector data at concrete addresses, and a machine that takes two elements at a time.
use abstract_machine.Riscv.Pmp.{Registers}
use abstract_machine.Riscv.Pmp.Match.{permissions}
use abstract_machine.Riscv.Pmp.Region.{inside}
use abstract_machine.Riscv.Vector.Window.{rvv_pmp_deny_page_allow_dram}
use abstract_machine.Riscv.Vector.Deny.{rvv_pmp_deny_page_allow_dram-permissions}
use abstract_machine.Base.{
  none, ◌/◌, ℕ, ◌+◌, ◌*◌, ◌%◌, ◌^◌, ◌<◌, ◌≤◌, ◌≡◌, ◌↔◌, ◌⊎◌, inl, inr, some, refl, arith, ltb,
  if◌then◌else◌,
}
use abstract_machine.Klib.Memory.{Mem}
use abstract_machine.Riscv.Outcome.{ok, failed, ◌>>◌}
use abstract_machine.Riscv.Vector.{
  load, sentinel, fill_sentinel, rvv_prng_next, rvv_fill_sentinel, rvv_check, check_lanes,
  rvv_check_sentinel, vector_add_i32,
}
use abstract_machine.Riscv.Vector.Lanes.{rvv_check_sentinel_lem}
use abstract_machine.Riscv.Vector.Add.{IsLength, vector_add_i32_lem}

abbrev ramp : Mem
ramp a = a % 256

rvv_prng_next_run : rvv_prng_next 1 ≡ 0x40822041
unfolding rvv_prng_next
rvv_prng_next_run = refl

rvv_check_run : rvv_check 1 0 1 2 ramp ≡ failed "rvv lane"
unfolding rvv_check check_lanes load
rvv_check_run = refl

rvv_check_sentinel_lem_example :
    ((n : ℕ)
      → 1 + 2 ≤ n
      → (rvv_fill_sentinel 0x1000 n 2 >> rvv_check_sentinel 0x1000 1 2 2) ramp
        ≡ ok (tt, fill_sentinel n 2 0x1000 0 ramp))
    × ((rvv_check_sentinel 0x1000 1 2 2 ramp ≡ ok (tt, ramp))
        ↔ ((j : ℕ) → 1 ≤ j → j < 1 + 2 → load 2 ramp (0x1000 + j * 2) ≡ sentinel 2))
rvv_check_sentinel_lem_example = rvv_check_sentinel_lem 2 ramp 0x1000 1 2 (inr (inl refl))

abbrev pairs : ℕ → ℕ
pairs left = if ltb left 2 then left else 2

pairs-IsLength : IsLength pairs
pairs-IsLength x pos = ground arith

vector_add_i32_lem_example :
    (m' : Mem) × (vector_add_i32 4 pairs ramp 0x100 0x120 0x200 3 ≡ some m')
    × ((j : ℕ)
        → j < 3
        → load 4 m' (0x200 + 4 * j)
          ≡ (load 4 ramp (0x100 + 4 * j) + load 4 ramp (0x120 + 4 * j)) % 2 ^ 32)
    × ((x : ℕ) → (x < 0x200) ⊎ (0x200 + 4 * 3 ≤ x) → m' x ≡ ramp x)
vector_add_i32_lem_example =
    vector_add_i32_lem 4 pairs ramp 0x100 0x120 0x200 3 pairs-IsLength (inl (omega arith))
      (inl (omega arith)) (omega arith)

abbrev no_entries : Registers
no_entries = record { pmpaddr = λ i. 0; pmpcfg0 = 0; pmpcfg2 = 0 }

rvv_pmp_deny_page_allow_dram-permissions_example :
    (t : Registers) × ((rvv_pmp_deny_page_allow_dram 0x80000000 0x8000000 3 9 0x80002000 no_entries
        ≡ ok (tt, t))
      × ((x : ℕ)
          → permissions t (x / 4) ≡ (
              if ltb 3 9
              then (if inside 0x80002000 4096 x
                  then some 0
                  else if inside 0x80000000 0x8000000 x
                  then some 7
                  else none)
              else (if inside 0x80000000 0x8000000 x
                  then some 7
                  else if inside 0x80002000 4096 x
                  then some 0
                  else none))))
rvv_pmp_deny_page_allow_dram-permissions_example =
    rvv_pmp_deny_page_allow_dram-permissions 0x80000000 0x8000000 3 9 0x80002000 no_entries
      (omega arith) (omega arith) (omega arith) refl (omega arith) (omega arith) refl refl
