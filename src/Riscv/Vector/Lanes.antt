-- ===== src/Riscv/Vector/Lanes.antt =====
-- Which lanes the checks look at, and that the sentinels stay where they were put.
use Prim.Native.String.{String}
use native.Mathlib.Nat.{pow-suc}
use abstract_machine.Base.{
  ◌-◌, ℕ, zero, suc, ◌+◌, ◌*◌, ◌/◌, ◌%◌, ◌^◌, ◌<◌, ◌≤◌, ◌≡◌, ◌⊎◌, ◌↔◌, inl, inr, Bool, true, false,
  Bool-cases, ◌==◌, refl, sym, ◌∙◌, arith,
}
use abstract_machine.Klib.Memory.{Mem, store}
use abstract_machine.Riscv.Outcome.{ok, failed, ◌>>◌}
use abstract_machine.Riscv.Vector.{
  load, save, check_element_bytes, sentinel, fill_sentinel, rvv_fill_sentinel, check_lanes,
  rvv_check, rvv_check_sentinel,
}

-- A check passes exactly when each of its lanes is good; if it fails, it fails with its message.
pub check_lanes_iff :
    (msg : String) (n : ℕ) (good : Mem → ℕ → Bool) (i : ℕ) (m : Mem)
    → ((check_lanes msg n good i m ≡ ok (tt, m)) × ((j : ℕ) → i ≤ j → j < i + n → good m j ≡ true))
      ⊎ ((check_lanes msg n good i m ≡ failed msg)
          × ((j : ℕ) × (i ≤ j) × (j < i + n) × (good m j ≡ false)))
unfolding check_lanes
check_lanes_iff msg zero good i m = inl (refl, λ j ge lt. absurd (omega arith))
check_lanes_iff msg (suc n) good i m = elim (Bool-cases (good m i)) [
  | inl yes_here ↦ elim (check_lanes_iff msg n good (i + 1) m) [
    | inl (passes, all) ↦ inl (
      rw (yes_here, passes) refl,
      λ j ge lt. elim (Bool-cases (i == j)) [
        | inl here ↦ let e : j ≡ i = ground arith in rw e yes_here
        | inr later ↦ all j (ground arith) (omega arith)
      ],
    )
    | inr (fails, (j, ge, lt, bad)) ↦
        inr (rw (yes_here, fails) refl, (j, omega arith, omega arith, bad))
  ]
  | inr no_here ↦ inr (rw no_here refl, (i, omega arith, omega arith, no_here))
]

check_lanes_passes :
    (msg : String) (n : ℕ) (good : Mem → ℕ → Bool) (i : ℕ) (m : Mem)
    → (check_lanes msg n good i m ≡ ok (tt, m)) ↔ ((j : ℕ) → i ≤ j → j < i + n → good m j ≡ true)
check_lanes_passes msg n good i m = elim (check_lanes_iff msg n good i m) [
  | inl (passes, all) ↦ (λ _. all, λ _. passes)
  | inr (fails, (j, ge, lt, bad)) ↦ (
    λ passes. let no : failed msg ≡ ok (tt, m) = sym fails ∙ passes in absurd cc,
    λ all. let no : true ≡ false = sym (all j ge lt) ∙ bad in absurd cc,
  )
]

pub save_off : (e : ℕ) (m : Mem) (p v a : ℕ) → (a < p) ⊎ (p + e ≤ a) → save e m p v a ≡ m a
unfolding save store
save_off zero m p v a h = refl
save_off (suc e) m p v a h = ground (arith, save_off e m (p + 1) (v / 256) a)

pub load_same :
    (e : ℕ) (m m' : Mem) (p : ℕ)
    → ((a : ℕ) → p ≤ a → a < p + e → m' a ≡ m a)
    → load e m' p ≡ load e m p
unfolding load
load_same zero m m' p h = refl
load_same (suc e) m m' p h =
    rw
      (
        h p (omega arith) (omega arith),
        load_same e m m' (p + 1) (λ a ge lt. h a (omega arith) (omega arith)),
      )
      refl

pub load-save : (e : ℕ) (m : Mem) (p v : ℕ) → v < 256 ^ e → load e (save e m p v) p ≡ v
unfolding load save store
load-save zero m p v h = omega arith
load-save (suc e) m p v h =
    let m1 = save e m (p + 1) (v / 256) in
    let here : store m1 p (v % 256) p ≡ v % 256 = ground arith in
    let behind =
      load_same e m1 (store m1 p (v % 256)) (p + 1) (λ a ge lt. ground arith)
      ∙ load-save e m (p + 1) (v / 256) (omega (arith, pow-suc 256 e)) in
    rw (here, behind) (omega arith)

abbrev pub IsElement : ℕ → Type 0
IsElement e = (e ≡ 1) ⊎ (e ≡ 2) ⊎ (e ≡ 4) ⊎ (e ≡ 8)

sentinel_fits : (e : ℕ) → IsElement e → sentinel e < 256 ^ e
unfolding sentinel
sentinel_fits e (inl is) = rw is (omega arith)
sentinel_fits e (inr (inl is)) = rw is (omega arith)
sentinel_fits e (inr (inr (inl is))) = rw is (omega arith)
sentinel_fits e (inr (inr (inr is))) = rw is (omega arith)

check_element_bytes_lem : (e : ℕ) (m : Mem) → IsElement e → check_element_bytes e m ≡ ok (tt, m)
unfolding check_element_bytes
check_element_bytes_lem e m (inl is) = rw is refl
check_element_bytes_lem e m (inr (inl is)) = rw is refl
check_element_bytes_lem e m (inr (inr (inl is))) = rw is refl
check_element_bytes_lem e m (inr (inr (inr is))) = rw is refl

next_lane : (i e : ℕ) → (i + 1) * e ≡ i * e + e
next_lane i e = omega arith

fill_sentinel_off :
    (n e dst i : ℕ) (m : Mem) (a : ℕ) → a < dst + i * e → fill_sentinel n e dst i m a ≡ m a
unfolding fill_sentinel
fill_sentinel_off zero e dst i m a h = refl
fill_sentinel_off (suc n) e dst i m a h =
    let m1 = save e m (dst + i * e) (sentinel e) in
    fill_sentinel_off n e dst (i + 1) m1 a (omega (arith, next_lane i e))
    ∙ save_off e m (dst + i * e) (sentinel e) a (inl h)

fill_sentinel_lane :
    (n e dst i j : ℕ) (m : Mem)
    → IsElement e
    → i ≤ j
    → j < i + n
    → load e (fill_sentinel n e dst i m) (dst + j * e) ≡ sentinel e
unfolding fill_sentinel
fill_sentinel_lane zero e dst i j m element ge lt = absurd (omega arith)
fill_sentinel_lane (suc n) e dst i j m element ge lt =
    let m1 = save e m (dst + i * e) (sentinel e) in
    elim (Bool-cases (i == j)) [
      | inl here ↦
          let same : j ≡ i = ground arith in
          rw same (
            load_same e m1 (fill_sentinel n e dst (i + 1) m1) (dst + i * e)
              (λ a _ below. fill_sentinel_off n e dst (i + 1) m1 a (omega (arith, next_lane i e)))
            ∙ load-save e m (dst + i * e) (sentinel e) (sentinel_fits e element))
      | inr later ↦ fill_sentinel_lane n e dst (i + 1) j m1 element (ground arith) (omega arith)
    ]

-- For an element size of 1, 2, 4 or 8 bytes: rvv_check_sentinel returns after rvv_fill_sentinel, on
-- any lanes of the filled ones, and leaves the memory as it is; and in any memory it returns exactly
-- when every lane from `first` on and below first + k holds the sentinel, where first + k wraps
-- around at 2 ^ 64.
pub rvv_check_sentinel_lem :
    (e : ℕ) (m : Mem) (dst first k : ℕ)
    → IsElement e
    → ((n : ℕ)
        → first + k ≤ n
        → (rvv_fill_sentinel dst n e >> rvv_check_sentinel dst first k e) m
          ≡ ok (tt, fill_sentinel n e dst 0 m))
      × ((rvv_check_sentinel dst first k e m ≡ ok (tt, m))
          ↔ ((j : ℕ) → first ≤ j → j < (first + k) % 2 ^ 64 → load e m (dst + j * e) ≡ sentinel e))
unfolding rvv_fill_sentinel rvv_check_sentinel
rvv_check_sentinel_lem e m dst first k element =
    let size_ok = λ (m' : Mem). check_element_bytes_lem e m' element in
    let (passed, passes) =
      check_lanes_passes "rvv sentinel" ((first + k) % 2 ^ 64 - first)
        (λ m' i. load e m' (dst + i * e) == sentinel e) first m in
    (
      λ n le.
          let filled = fill_sentinel n e dst 0 m in
          rw (size_ok m, size_ok filled)
            ((check_lanes_passes "rvv sentinel" ((first + k) % 2 ^ 64 - first)
                (λ m' i. load e m' (dst + i * e) == sentinel e) first filled).1
              (λ j ge lt.
                let same = fill_sentinel_lane n e dst 0 j m element (omega arith) (omega arith) in
                ground (arith, same))),
      (
        λ returns j ge lt.
            let good = passed (rw (size_ok m) at returns) j ge (omega arith) in
            ground (arith, good),
        λ all.
            rw (size_ok m)
              (passes (λ j ge lt. let same = all j ge (omega arith) in ground (arith, same))),
      ),
    )

-- rvv_check returns, with the memory as it was, exactly when the lanes of the two arrays are equal
-- one by one.
pub rvv_check_iff :
    (e got want n : ℕ) (m : Mem)
    → (rvv_check e got want n m ≡ ok (tt, m))
      ↔ ((j : ℕ) → j < n → load e m (got + j * e) ≡ load e m (want + j * e))
unfolding rvv_check
rvv_check_iff e got want n m =
    let (passed, passes) =
      check_lanes_passes "rvv lane" n (λ m' i. load e m' (got + i * e) == load e m' (want + i * e))
        0 m in
    (
      λ returns j lt.
          let good = passed returns j (omega arith) (omega arith) in ground (arith, good),
      λ all. passes (λ j ge lt. let same = all j (omega arith) in ground (arith, same)),
    )
