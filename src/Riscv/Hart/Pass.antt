-- ===== src/Riscv/Hart/Pass.antt =====
-- No hart passes the barrier before every other has arrived at it.
use abstract_machine.Base.{ℕ, ◌^◌, ◌<◌, ◌≤◌, inl, refl, sym, arith}
use abstract_machine.Riscv.Hart.Barrier.{Meeting, Meets, start, later}
use abstract_machine.Riscv.Hart.Count.{here-none}
use abstract_machine.Riscv.Hart.Rounds.{Stand-bounds, Round}
use abstract_machine.Riscv.Hart.Moves.{move-Round}

Meets-Round : {n : ℕ} {s : Meeting} → 0 < n → n < 2 ^ 32 → Meets n s → Round n s
Meets-Round {n} pos small start = record {
  r = 0;
  sense_is = omega arith;
  stands = λ i lt. (refl, refl);
  mode = inl (record {
    counted = sym (here-none _ 0 n (λ i lt. refl));
    missing = pos;
    open_all = λ i lt. tt;
  });
}
Meets-Round {n} {s} pos small (later {s = before} i lt r) =
    move-Round n i before (before.post i) lt small refl (Meets-Round pos small r)

-- Let `n` harts, n positive and below 2 ^ 32, meet at the barrier again and again, one access at a
-- time in any order. In every state that this reaches, no hart has passed the barrier more often
-- than any other hart has arrived at it; in particular none leaves it before all have come.
pub passed-arrived :
    {n : ℕ} {s : Meeting}
    → 0 < n
    → n < 2 ^ 32
    → Meets n s
    → (i j : ℕ) → i < n
    → j < n
    → s.passed i ≤ s.arrived j
passed-arrived {n} {s} pos small meets i j i_lt j_lt =
    let h = Meets-Round pos small meets in
    let one = Stand-bounds h.r s.words.sense (s.post i) _ _ (h.stands i i_lt) in
    let other = Stand-bounds h.r s.words.sense (s.post j) _ _ (h.stands j j_lt) in
    omega (arith, one.2, other.0)
