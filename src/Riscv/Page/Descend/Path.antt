-- ===== src/Riscv/Page/Descend/Path.antt =====
-- The way down from the root to the table of one level, in one or more steps.
use abstract_machine.Base.{ℕ, suc, ◌*◌, ◌/◌, ◌%◌, ◌<◌, ◌≡◌, some, Option, refl, arith, ◌∙◌, ap}
use abstract_machine.Riscv.Outcome.{ok}
use abstract_machine.Riscv.Page.Words.{State}
use abstract_machine.Riscv.Page.Words.Slots.{slot}
use abstract_machine.Riscv.Page.Arena.Alloc.{HasRoom}
use abstract_machine.Riscv.Page.Table.{next_table}
use abstract_machine.Riscv.Page.Walk.{walk, upper, index, span, ppn}
use abstract_machine.Riscv.Page.Tree.{Places, IsTree, IsPointer}
use abstract_machine.Riscv.Page.Tree.Frame.{walk_pointer}
use abstract_machine.Riscv.Page.Descend.{Descended}
use abstract_machine.Riscv.Page.Descend.Steps.{next_table-Stepped}

-- `m` agrees with `s` on the pointers above the level.
abbrev pub SamePointers : Places → State → ℕ → (ℕ → ℕ) → Type 0
SamePointers own s level m =
    (p l c j : ℕ)
    → own p ≡ some (l, c)
    → level < l
    → j < 512
    → IsPointer (s.mem (slot p j))
    → m (slot p j) ≡ s.mem (slot p j)

-- From the tree in `s`, the way of `v` has come to the table at page `q` of the level: the tree is
-- whole, no walk has changed, and a memory with the same pointers above takes every page number
-- with this upper part through `q`.
pub record Reached (top root : ℕ) (own : Places) (s : State) (k v level q : ℕ) (own' : Places)
    (s' : State) : Type 0 where
  pub tree : IsTree top root own' s'
  pub room : HasRoom k s'
  pub keeps_places : (p l c : ℕ) → own p ≡ some (l, c) → own' p ≡ some (l, c)
  pub same_walks : (w : ℕ) → upper (suc top) w ≡ 0 → walk s'.mem top root w ≡ walk s.mem top root w
  pub at : own' q ≡ some (level, upper (suc level) v)
  pub through :
      (m : ℕ → ℕ)
      → SamePointers own' s' level m
      → (w : ℕ) → upper (suc level) w ≡ upper (suc level) v
      → walk m top root w ≡ walk m level q w
  pub same_satp : s'.satp ≡ s.satp
  pub same_sfences : s'.sfences ≡ s.sfences

-- The next table on the way of `v`.
pub record Next (top root : ℕ) (own : Places) (s : State) (k v level t : ℕ) (before : State)
    : Type 0 where
  pub page : ℕ
  pub places : Places
  pub after : State
  pub returns :
      next_table (t * 4096) (index (suc level) v) (span level * 4096) before
      ≡ ok (page * 4096, after)
  pub reached : Reached top root own s k v level page places after

module _ {top root : ℕ} {own : Places} {s : State} (k v : ℕ) where
  pub start :
      IsTree top root own s
      → HasRoom k s
      → upper (suc top) v ≡ 0
      → Reached top root own s k v top root own s
  start tree room e = record {
    tree = tree;
    room = room;
    keeps_places = λ p l c h. h;
    same_walks = λ w h. refl;
    at = ground (arith, tree.rooted);
    through = λ m h w same. refl;
    same_satp = refl;
    same_sfences = refl;
  }

  step :
      (level t q : ℕ) (own1 own2 : Places) (s1 s2 : State)
      → Reached top root own s (suc k) v (suc level) t own1 s1
      → Descended top root own1 s1 k t level
          (upper (suc (suc level)) v)
          (index (suc level) v)
          q
          own2
          s2
      → Reached top root own s k v level q own2 s2
  step level t q own1 own2 s1 s2 r d = record {
    tree = d.tree;
    room = d.room;
    keeps_places = λ p l c h. d.keeps_places p l c (r.keeps_places p l c h);
    same_walks = λ w h. d.same_walks w h ∙ r.same_walks w h;
    at = d.child ∙ ap {B = Option (ℕ × ℕ)} (λ u. some (level, u)) (omega arith);
    through = λ m same w w_eq.
        let u_eq : index (suc level) w ≡ index (suc level) v = ap (λ n. n % 512) w_eq in
        let here : m (slot t (index (suc level) w)) ≡ s2.mem (slot t (index (suc level) v)) =
          rw u_eq (
            same t (suc level) (upper (suc (suc level)) v) (index (suc level) v)
              (d.keeps_places t (suc level) (upper (suc (suc level)) v) r.at) (omega arith)
              (omega arith) d.points) in
        r.through m
          (λ p l c j h lt j_lt ptr.
            let kept = d.keeps_pointers p l c j h j_lt ptr in
            same p l c j (d.keeps_places p l c h) (omega arith) j_lt (rw kept ptr) ∙ kept)
          w (ap (λ n. n / 512) w_eq)
        ∙ walk_pointer m level t w (rw here d.points)
        ∙ ap (λ n. walk m level n w) (ap ppn here ∙ d.target);
    same_satp = d.same_satp ∙ r.same_satp;
    same_sfences = d.same_sfences ∙ r.same_sfences;
  }

  pub next :
      {level t : ℕ} {own1 : Places} {s1 : State}
      → Reached top root own s (suc k) v (suc level) t own1 s1
      → Next top root own s k v level t s1
  next {level} {t} {own1} {s1} r =
      let stepped =
        next_table-Stepped k t level (upper (suc (suc level)) v) (index (suc level) v) r.tree r.room
          r.at (omega arith) in
      record {
        page = stepped.page;
        places = stepped.places;
        after = stepped.after;
        returns = stepped.returns;
        reached =
            step level t stepped.page own1 stepped.places s1 stepped.after r stepped.descended;
      }
