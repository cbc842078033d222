-- ===== src/Riscv/Vector/Add.antt =====
-- vector_add_i32 adds every lane, whatever the vector length of the machine is.
use abstract_machine.Base.{
  ℕ, zero, suc, ◌+◌, ◌-◌, ◌*◌, ◌%◌, ◌^◌, ◌<◌, ◌≤◌, ◌≡◌, ◌⊎◌, inl, inr, Bool-cases, ◌==◌, ltb, refl,
  sym, ◌∙◌, arith, some,
}
use abstract_machine.Klib.Memory.{Mem}
use abstract_machine.Riscv.Vector.{load, save, store_lanes, vector_add_i32}
use abstract_machine.Riscv.Vector.Lanes.{save_off, load_same, load-save}

store_lanes_off :
    (k : ℕ) (v : ℕ → ℕ) (m : Mem) (d x : ℕ)
    → (x < d) ⊎ (d + 4 * k ≤ x)
    → store_lanes k v m d x ≡ m x
unfolding store_lanes
store_lanes_off zero v m d x off = refl
store_lanes_off (suc k) v m d x off =
    save_off 4 (store_lanes k v m d) (d + 4 * k) (v k) x (omega arith)
    ∙ store_lanes_off k v m d x (omega arith)

store_lanes_lane :
    (k : ℕ) (v : ℕ → ℕ) (m : Mem) (d j : ℕ)
    → j < k
    → v j < 2 ^ 32
    → load 4 (store_lanes k v m d) (d + 4 * j) ≡ v j
unfolding store_lanes
store_lanes_lane zero v m d j lt small = absurd (omega arith)
store_lanes_lane (suc k) v m d j lt small = elim (Bool-cases (j == k)) [
  | inl last ↦
      let e : j ≡ k = ground arith in
      rw (sym e) (load-save 4 (store_lanes j v m d) (d + 4 * j) (v j) small)
  | inr before ↦
      let j_lt : j < k = ground arith in
      load_same 4 (store_lanes k v m d) (save 4 (store_lanes k v m d) (d + 4 * k) (v k)) (d + 4 * j)
        (λ x ge lt'. save_off 4 (store_lanes k v m d) (d + 4 * k) (v k) x (omega arith))
      ∙ store_lanes_lane k v m d j j_lt small
]

-- The vector length that vsetvli gives is positive and at most the number of elements left.
abbrev pub IsLength : (ℕ → ℕ) → Type 0
IsLength vl = (x : ℕ) → 0 < x → (0 < vl x) × (vl x ≤ x)

abbrev pub Apart : ℕ → ℕ → ℕ → Type 0
Apart a d bytes = (a + bytes ≤ d) ⊎ (d + bytes ≤ a)

-- Let the destination not overlap a source, and let vsetvli give a positive length that is at most
-- the number of elements left. On fuel above `n`, vector_add_i32 ends, lane j of the destination is
-- the sum of the lanes j of the sources modulo 2 ^ 32 for every j below n, and no other byte has
-- changed.
pub vector_add_i32_lem :
    (fuel : ℕ) (vl : ℕ → ℕ) (m : Mem) (a b d n : ℕ)
    → IsLength vl
    → Apart a d (4 * n)
    → Apart b d (4 * n)
    → n < fuel
    → (m' : Mem) × (vector_add_i32 fuel vl m a b d n ≡ some m')
      × ((j : ℕ)
          → j < n
          → load 4 m' (d + 4 * j) ≡ (load 4 m (a + 4 * j) + load 4 m (b + 4 * j)) % 2 ^ 32)
      × ((x : ℕ) → (x < d) ⊎ (d + 4 * n ≤ x) → m' x ≡ m x)
unfolding vector_add_i32
vector_add_i32_lem zero vl m a b d n good off off' lt = absurd (omega arith)
vector_add_i32_lem (suc fuel) vl m a b d n good off off' lt = elim (Bool-cases (n == 0)) [
  | inl nothing ↦ (m, rw nothing refl, λ j j_lt. absurd (ground arith), λ x _. refl)
  | inr more ↦
      let (pos, most) = good n (ground arith) in
      let v = vl n in
      let sum = λ (i : ℕ). (load 4 m (a + 4 * i) + load 4 m (b + 4 * i)) % 2 ^ 32 in
      let m1 = store_lanes v sum m d in
      let (m', runs, lanes, same) =
        vector_add_i32_lem fuel vl m1 (a + 4 * v) (b + 4 * v) (d + 4 * v) (n - v) good (omega arith)
          (omega arith) (omega arith) in
      (
        m',
        rw more runs,
        λ j j_lt. elim (Bool-cases (ltb j v)) [
          | inl here ↦
              let j_v : j < v = ground arith in
              load_same 4 m1 m' (d + 4 * j) (λ x ge lt'. same x (omega arith))
              ∙ store_lanes_lane v sum m d j j_v (omega arith)
          | inr there ↦
              let j_v : v ≤ j = ground arith in
              let i = j - v in
              let at_d : d + 4 * v + 4 * i ≡ d + 4 * j = omega arith in
              let at_a : a + 4 * v + 4 * i ≡ a + 4 * j = omega arith in
              let at_b : b + 4 * v + 4 * i ≡ b + 4 * j = omega arith in
              let from_a =
                load_same 4 m m1 (a + 4 * j)
                  (λ x ge lt'. store_lanes_off v sum m d x (omega arith)) in
              let from_b =
                load_same 4 m m1 (b + 4 * j)
                  (λ x ge lt'. store_lanes_off v sum m d x (omega arith)) in
              rw (at_d, at_a, at_b, from_a, from_b) at (lanes i (omega arith))
        ],
        λ x off_x. same x (omega arith) ∙ store_lanes_off v sum m d x (omega arith),
      )
]
