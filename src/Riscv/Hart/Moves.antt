-- ===== src/Riscv/Hart/Moves.antt =====
-- Every access at the barrier leaves the meeting in a round.
use abstract_machine.Base.{
  ℕ, ◌+◌, ◌%◌, ◌^◌, ◌<◌, ◌≤◌, ◌≡◌, inl, inr, false, Bool-cases, ◌==◌, refl, sym, ap, ◌∙◌, arith,
}
use abstract_machine.Riscv.Hart.Task.{set}
use abstract_machine.Riscv.Hart.Barrier.{
  Post, outside, looked, last, emptied, waiting, hart_barrier, Meeting,
}
use abstract_machine.Riscv.Hart.Count.{here, here-set, here-full, here-none, here-same}
use abstract_machine.Riscv.Hart.Rounds.{
  Stand, Open, Stand-bounds, Round, set-Stand, set-Open, set_zero, moved, self, closer_is, released,
  closer-not-Open,
}

pub outside-Round :
    (n i : ℕ) (s : Meeting) → i < n → s.post i ≡ outside → Round n s → Round n (moved n i s outside)
unfolding hart_barrier
outside-Round n i s lt e h =
    let stand = rw e at (h.stands i lt) in
    record {
      r = h.r;
      sense_is = h.sense_is;
      stands =
          set-Stand n h.r s.words.sense s.post s.arrived s.passed i (looked s.words.sense) _ _
            h.stands (refl, omega arith, omega arith);
      mode = elim h.mode [
        | inl g ↦ inl (record {
          counted = g.counted ∙ sym (here-same s.arrived _ h.r n (set_zero s.arrived i));
          missing = g.missing;
          open_all = set-Open n s.post i (looked s.words.sense) (λ j j_lt _. g.open_all j j_lt) tt;
        })
        | inr (k, c) ↦ absurd (let all = c.all_here i lt in omega arith)
      ];
    }

pub looked-Round :
    (n i : ℕ) (s : Meeting) (my : ℕ)
    → i < n
    → n < 2 ^ 32
    → s.post i ≡ looked my
    → Round n s
    → Round n (moved n i s (looked my))
unfolding hart_barrier
looked-Round n i s my lt small e h =
    let stand = rw e at (h.stands i lt) in
    let a' = set s.arrived i (s.arrived i + 1) in
    elim h.mode [
      | inr (k, c) ↦ absurd (let all = c.all_here i lt in omega arith)
      | inl g ↦
          let exact : (s.words.count + 1) % 2 ^ 32 ≡ s.words.count + 1 =
            let few = g.missing in omega arith in
          let more : here a' h.r n ≡ s.words.count + 1 =
            here-set s.arrived h.r n i lt (omega arith) ∙ (let c = g.counted in omega arith) in
          let (le, full) = here-full a' h.r n (λ j j_lt. arrived-bounds j j_lt) in
          elim (Bool-cases (s.words.count + 1 == n)) [
            | inl all ↦
                rw (exact, all)
                  (record {
                    r = h.r;
                    sense_is = h.sense_is;
                    stands =
                        set-Stand n h.r s.words.sense s.post s.arrived s.passed i (last my) _ _
                          h.stands (stand.0, omega arith, omega arith);
                    mode = inr (
                      i,
                      record {
                        k_lt = lt;
                        closer = inl (rw (self i, stand.0) refl);
                        all_here = full (ground arith);
                        others = λ j j_lt ne.
                            let other : (j == i) ≡ false = ground (arith, ne) in
                            rw other (g.open_all j j_lt);
                      },
                    );
                  })
            | inr some_left ↦
                rw (exact, some_left)
                  (record {
                    r = h.r;
                    sense_is = h.sense_is;
                    stands =
                        set-Stand n h.r s.words.sense s.post s.arrived s.passed i (waiting my) _ _
                          h.stands (inl (stand.0, omega arith, omega arith));
                    mode = inl (record {
                      counted = sym more;
                      missing = ground (arith, le, more);
                      open_all =
                          set-Open n s.post i (waiting my) (λ j j_lt _. g.open_all j j_lt) tt;
                    });
                  })
          ]
    ]
  where
    arrived-bounds :
        (j : ℕ)
        → j < n
        → (h.r ≤ set s.arrived i (s.arrived i + 1) j)
          × (set s.arrived i (s.arrived i + 1) j ≤ h.r + 1)
    arrived-bounds j j_lt = elim (Bool-cases (j == i)) [
      | inl same ↦ let stand = rw e at (h.stands i lt) in rw same (omega arith, omega arith)
      | inr other ↦
          let bounds =
            Stand-bounds h.r s.words.sense (s.post j) (s.arrived j) (s.passed j)
              (h.stands j j_lt) in
          rw other (bounds.0, bounds.1)
    ]

pub last-Round :
    (n i : ℕ) (s : Meeting) (my : ℕ)
    → i < n
    → s.post i ≡ last my
    → Round n s
    → Round n (moved n i s (last my))
unfolding hart_barrier
last-Round n i s my lt e h =
    let stand = rw e at (h.stands i lt) in
    elim h.mode [
      | inl g ↦ absurd (rw e at (g.open_all i lt))
      | inr (k, c) ↦ record {
        r = h.r;
        sense_is = h.sense_is;
        stands =
            set-Stand n h.r s.words.sense s.post s.arrived s.passed i (emptied my) _ _ h.stands
              (stand.0, omega arith, omega arith);
        mode = inr (
          i,
          record {
            k_lt = lt;
            closer = inr (rw (self i, stand.0) refl, refl);
            all_here = λ j j_lt. set_zero s.arrived i j ∙ c.all_here j j_lt;
            others = λ j j_lt ne.
                let other : (j == i) ≡ false = ground (arith, ne) in
                let same = closer_is i k (last my) (λ x. x) (λ off. rw e at (c.others i lt off)) in
                rw other (c.others j j_lt (λ j_k. ne (j_k ∙ sym same)));
          },
        );
      }
    ]

pub emptied-Round :
    (n i : ℕ) (s : Meeting) (my : ℕ)
    → i < n
    → s.post i ≡ emptied my
    → Round n s
    → Round n (moved n i s (emptied my))
unfolding hart_barrier
emptied-Round n i s my lt e h =
    let stand = rw e at (h.stands i lt) in
    let sense_after : (my + 1) % 2 ^ 32 ≡ (h.r + 1) % 2 ^ 32 = let is = h.sense_is in omega arith in
    elim h.mode [
      | inl g ↦ absurd (rw e at (g.open_all i lt))
      | inr (k, c) ↦
          let is_k = closer_is i k (emptied my) (λ x. x) (λ off. rw e at (c.others i lt off)) in
          let count_is : s.words.count ≡ 0 = elim c.closer [
            | inl before ↦
                let clash : emptied my ≡ last s.words.sense = sym e ∙ ap s.post is_k ∙ before in
                absurd cc
            | inr (_, zero_count) ↦ zero_count
          ] in
          record {
            r = h.r + 1;
            sense_is = sense_after;
            stands = λ j j_lt. elim (Bool-cases (j == i)) [
              | inl same ↦ rw same (omega arith, omega arith)
              | inr other ↦ rw other (
                  released h.r s.words.sense _ (s.post j) (s.arrived j) (s.passed j) h.sense_is
                    sense_after (c.all_here j j_lt)
                    (c.others j j_lt (λ j_k. let both : j ≡ i = j_k ∙ sym is_k in ground arith))
                    (h.stands j j_lt))
            ];
            mode = inl (record {
              counted =
                  count_is
                  ∙ sym (
                      here-none _ (h.r + 1) n
                        (λ j j_lt. set_zero s.arrived i j ∙ c.all_here j j_lt));
              missing = omega (arith, count_is);
              open_all =
                  set-Open n s.post i outside
                    (λ j j_lt ne. c.others j j_lt (λ j_k. ne (j_k ∙ sym is_k))) tt;
            });
          }
    ]

-- A move that changes neither word and no arrival.
pub quiet-Round :
    (n i : ℕ) (s : Meeting) (w : Post) (d : ℕ)
    → i < n
    → Open (s.post i)
    → Open w
    → (h : Round n s) → Stand h.r s.words.sense w (s.arrived i + 0) (s.passed i + d)
    → Round n (record {
      words = s.words;
      post = set s.post i w;
      arrived = set s.arrived i (s.arrived i + 0);
      passed = set s.passed i (s.passed i + d);
    })
quiet-Round n i s w d lt now then_open h stand = record {
  r = h.r;
  sense_is = h.sense_is;
  stands = set-Stand n h.r s.words.sense s.post s.arrived s.passed i w _ _ h.stands stand;
  mode = elim h.mode [
    | inl g ↦ inl (record {
      counted = g.counted ∙ sym (here-same s.arrived _ h.r n (set_zero s.arrived i));
      missing = g.missing;
      open_all = set-Open n s.post i w (λ j j_lt _. g.open_all j j_lt) then_open;
    })
    | inr (k, c) ↦
        let other : (k == i) ≡ false = elim (Bool-cases (k == i)) [
          | inl same ↦
              let e : k ≡ i = ground arith in absurd (closer-not-Open n h.r s k c (rw e now))
          | inr off ↦ off
        ] in
        inr (
          k,
          record {
            k_lt = c.k_lt;
            closer = rw other c.closer;
            all_here = λ j j_lt. set_zero s.arrived i j ∙ c.all_here j j_lt;
            others = λ j j_lt ne. elim (Bool-cases (j == i)) [
              | inl same ↦ rw same then_open
              | inr off ↦ rw off (c.others j j_lt ne)
            ];
          },
        )
  ];
}

pub waiting-Round :
    (n i : ℕ) (s : Meeting) (my : ℕ)
    → i < n
    → s.post i ≡ waiting my
    → Round n s
    → Round n (moved n i s (waiting my))
unfolding hart_barrier
waiting-Round n i s my lt e h =
    let stand = rw e at (h.stands i lt) in
    let now : Open (s.post i) = rw e tt in
    elim (Bool-cases (s.words.sense == my)) [
      | inl stays ↦ rw stays (
          quiet-Round n i s (waiting my) 0 lt now tt h (elim stand [
            | inl x ↦ inl (x.0, omega arith, omega arith)
            | inr x ↦ inr (x.0, omega arith, omega arith)
          ]))
      | inr leaves ↦ rw leaves (
          quiet-Round n i s outside 1 lt now tt h
            (elim stand [ inl x ↦ absurd (ground arith) | inr x ↦ (omega arith, omega arith) ]))
    ]

pub move-Round :
    (n i : ℕ) (s : Meeting) (w : Post)
    → i < n
    → n < 2 ^ 32
    → s.post i ≡ w
    → Round n s
    → Round n (moved n i s w)
move-Round n i s outside lt small e h = outside-Round n i s lt e h
move-Round n i s (looked my) lt small e h = looked-Round n i s my lt small e h
move-Round n i s (last my) lt small e h = last-Round n i s my lt e h
move-Round n i s (emptied my) lt small e h = emptied-Round n i s my lt e h
move-Round n i s (waiting my) lt small e h = waiting-Round n i s my lt e h
