-- ===== src/Riscv/Vector.antt =====
-- am/src/riscv/test-support/vector-test.c and vector_add_i32 of vector.c: data for tests of vector instructions, and the checks of
-- their results. The source has each routine once for every element size; here the size in bytes is
-- an argument `e`. Elements stand in memory with the low byte first.
pub mod Deny
pub mod Window
pub mod Lanes
pub mod Add
use Prim.Native.String.{String}
use abstract_machine.Base.{
  ◌||◌, ℕ, zero, suc, ◌+◌, ◌-◌, ◌*◌, ◌/◌, ◌%◌, ◌^◌, Bool, ◌==◌, ◌!=◌, ◌&&◌, ltb, bit_xor, bit_and,
  if◌then◌else◌, Option, some, none,
}
use abstract_machine.Klib.Memory.{Mem, store}
use abstract_machine.Riscv.Outcome.{
  Run, Outcome, ok, failed, ◌>>=◌, ◌>>◌, pure, get, modify, test_fail,
}

-- Reading and writing an element of `e` bytes at an address.
unfoldable pub load : ℕ → Mem → ℕ → ℕ
load zero m p = 0
load (suc e) m p = m p + 256 * load e m (p + 1)

unfoldable pub save : ℕ → Mem → ℕ → ℕ → Mem
save zero m p v = m
save (suc e) m p v = store (save e m (p + 1) (v / 256)) p (v % 256)

unfoldable pub check_element_bytes : ℕ → Run Mem (Unit {0})
check_element_bytes e =
    if e != 1 && e != 2 && e != 4 && e != 8 then test_fail "rvv element size" else pure tt

-- The number, and the state after it.
unfoldable pub rvv_prng_next : ℕ → ℕ
rvv_prng_next state =
    let x0 = if state == 0 then 0x9e3779b97f4a7c15 else state in
    let x1 = bit_xor x0 (x0 * 2 ^ 13 % 2 ^ 64) in
    let x2 = bit_xor x1 (x1 / 2 ^ 7) in bit_xor x2 (x2 * 2 ^ 17 % 2 ^ 64)

-- rvv_fill_u8, rvv_fill_u16, rvv_fill_u32 and rvv_fill_u64, from lane `i` on.
unfoldable pub fill_lanes : ℕ → ℕ → ℕ → ℕ → ℕ → Mem → Mem
fill_lanes zero e dst i seed m = m
fill_lanes (suc n) e dst i seed m =
    let x = rvv_prng_next seed in
    fill_lanes n e dst (i + 1) x (save e m (dst + i * e) (x % 256 ^ e))

unfoldable pub rvv_fill : ℕ → ℕ → ℕ → ℕ → Run Mem (Unit {0})
rvv_fill e dst n seed = modify (fill_lanes n e dst 0 seed)

-- RVV_SENTINEL8, RVV_SENTINEL16, RVV_SENTINEL32 and RVV_SENTINEL64
unfoldable pub sentinel : ℕ → ℕ
sentinel e =
    if e == 1
    then 0xa5
    else if e == 2
    then 0xa55a
    else if e == 4
    then 0xa55aa55a
    else 0xa55aa55a5aa55aa5

unfoldable pub fill_sentinel : ℕ → ℕ → ℕ → ℕ → Mem → Mem
fill_sentinel zero e dst i m = m
fill_sentinel (suc n) e dst i m =
    fill_sentinel n e dst (i + 1) (save e m (dst + i * e) (sentinel e))

unfoldable pub rvv_fill_sentinel : ℕ → ℕ → ℕ → Run Mem (Unit {0})
rvv_fill_sentinel dst n e = do check_element_bytes e; modify (fill_sentinel n e dst 0)

-- The loop of a check over lanes: it fails at the first lane that is not good.
unfoldable pub check_lanes : String → ℕ → (Mem → ℕ → Bool) → ℕ → Run Mem (Unit {0})
check_lanes msg zero good i m = ok (tt, m)
check_lanes msg (suc n) good i m =
    let rest = check_lanes msg n good (i + 1) m in if good m i then rest else failed msg

-- rvv_check_u8, rvv_check_u16, rvv_check_u32 and rvv_check_u64
unfoldable pub rvv_check : ℕ → ℕ → ℕ → ℕ → Run Mem (Unit {0})
rvv_check e got want n =
    check_lanes "rvv lane" n (λ m i. load e m (got + i * e) == load e m (want + i * e)) 0

-- rvv_check_allowed_u8, rvv_check_allowed_u16, rvv_check_allowed_u32 and rvv_check_allowed_u64
unfoldable pub rvv_check_allowed : ℕ → ℕ → ℕ → ℕ → ℕ → Run Mem (Unit {0})
rvv_check_allowed e got a b n =
    check_lanes "rvv allowed set" n
      (λ m i.
        load e m (got + i * e) == load e m (a + i * e)
        || load e m (got + i * e) == load e m (b + i * e))
      0

-- The bound of the loop, first + n, wraps around.
unfoldable pub rvv_check_sentinel : ℕ → ℕ → ℕ → ℕ → Run Mem (Unit {0})
rvv_check_sentinel got first n e = do
  check_element_bytes e
  check_lanes "rvv sentinel" ((first + n) % 2 ^ 64 - first)
      (λ m i. load e m (got + i * e) == sentinel e) first

-- vse32.v: lanes 0 to `k` - 1 of a register, to memory.
unfoldable pub store_lanes : ℕ → (ℕ → ℕ) → Mem → ℕ → Mem
store_lanes zero v m d = m
store_lanes (suc k) v m d = save 4 (store_lanes k v m d) (d + 4 * k) (v k)

-- vector_add_i32: what vsetvli returns for the elements left is a parameter `vl`.
unfoldable pub vector_add_i32 : ℕ → (ℕ → ℕ) → Mem → ℕ → ℕ → ℕ → ℕ → Option Mem
vector_add_i32 zero vl m a b d left = none
vector_add_i32 (suc fuel) vl m a b d left =
    let n = vl left in
    let sum = λ (i : ℕ). (load 4 m (a + 4 * i) + load 4 m (b + 4 * i)) % 2 ^ 32 in
    let rest =
      vector_add_i32 fuel vl (store_lanes n sum m d) (a + 4 * n) (b + 4 * n) (d + 4 * n)
        (left - n) in
    if left == 0 then some m else rest
