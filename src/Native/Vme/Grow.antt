-- ===== src/Native/Vme/Grow.antt =====
-- am/src/native/vme.c: what map keeps of the lists of the spaces.
use mathlib.Core.Path.{subst}
use abstract_machine.Base.{
  ℕ, ◌%◌, Bool, true, false, Option, none, some, List, ◌∷◌, ◌≡◌, ◌≢◌, ◌⊎◌, inl, inr, refl, sym, ◌∙◌,
  ap, ◌==◌, if◌then◌else◌, Bool-cases, arith,
}
use abstract_machine.Native.Answer.{done}
use abstract_machine.Native.Vme.{PageMap, VmHead, Vm, put, in_user, map}
use abstract_machine.Native.Vme.Chain.{lookup, page_of, member}
use abstract_machine.Native.Vme.Run.{Space, Runs}
use abstract_machine.Native.Vme.Map.{
  page_added, page_added-hash, page_added-current, page_added-vme_enable, others-page_of, self,
}
use abstract_machine.Native.Vme.New.{
  Enters, Indexed, entered, entered-same, entered-others, map_lem, map-Space,
}
use abstract_machine.Native.Vme.Good.{Good, done_inj}

module _ {T : Type 0} (find : T → ℕ → Option ℕ) (enter : T → ℕ → ℕ → Option T) (pgsize : ℕ) where
  put_else : (lists : ℕ → List ℕ) (h i : ℕ) (ps : List ℕ) → i ≢ h → put lists h ps i ≡ lists i
  put_else lists h i ps n = ground (arith)

  put_here : (lists : ℕ → List ℕ) (h : ℕ) (ps : List ℕ) → put lists h ps h ≡ ps
  put_here lists h ps = rw (self h) refl

  put_list :
      (lists : ℕ → List ℕ) (h i : ℕ) (ps : List ℕ)
      → put lists h ps i ≡ (if h == i then ps else lists i)
  put_list lists h i ps = ground (arith)

  alive : (live : ℕ → Bool) (h i : ℕ) → live h ≡ true → live i ≡ false → i ≢ h
  alive live h i a b e = ground (arith)

  either : (h i : ℕ) → (i ≡ h) ⊎ (i ≢ h)
  either h i = elim (Bool-cases (i == h)) [
    | inl e ↦ inl (ground (arith))
    | inr e ↦ inr (λ z. ground (arith))
  ]

  runs_list :
      (lists : ℕ → List ℕ) (h fresh c : ℕ)
      → (if h == c then fresh ∷ lists c else lists c) ≡ put lists h (fresh ∷ lists h) c
  runs_list lists h fresh c = elim (either h c) [
    | inl e ↦ rw (e, self h) refl
    | inr n ↦ ground (arith)
  ]

  -- What adding a page leaves of a state.
  record Leaves (s t : Vm T) (h fresh : ℕ) : Type 0 where
    current : t.current ≡ s.current
    enable : t.vme_enable ≡ s.vme_enable
    indexed :
        (i : ℕ) (ps : List ℕ)
        → i ≢ h
        → member fresh ps ≡ false
        → Indexed find enter s i ps
        → Indexed find enter t i ps

  page_added-Leaves :
      (s : Vm T) (h fresh va pa prot : ℕ) (u : T)
      → Leaves s (page_added (entered find enter s h u) h fresh va pa prot) h fresh
  page_added-Leaves s h fresh va pa prot u =
      let v = entered find enter s h u in
      let (pages, (current, enable)) = entered-same find enter s h u in
      record {
        current = page_added-current v h fresh va pa prot ∙ current;
        enable = page_added-vme_enable v h fresh va pa prot ∙ enable;
        indexed = λ i ps n m x j.
            ap (λ (r : T). find r j)
              (page_added-hash v h fresh va pa prot i
                ∙ ap (λ (f : VmHead T). f.hash) (entered-others find enter s h u i n))
            ∙ (x j
                ∙ sym (
                    others-page_of v h fresh va pa prot ps j m
                    ∙ ap (λ (f : ℕ → PageMap). page_of f ps j) pages));
      }

  grown-Good :
      {s t : Vm T} {lists : ℕ → List ℕ} {live : ℕ → Bool} (h fresh : ℕ)
      → live h ≡ true
      → ((i : ℕ) → member fresh (lists i) ≡ false)
      → Leaves s t h fresh
      → Space t h (fresh ∷ lists h)
      → Indexed find enter t h (fresh ∷ lists h)
      → ((i : ℕ) (qs : List ℕ) → i ≢ h → member fresh qs ≡ false → Space s i qs → Space t i qs)
      → Runs t (if h == s.current then fresh ∷ lists s.current else lists s.current)
      → Good find enter s lists live
      → Good find enter t (put lists h (fresh ∷ lists h)) live
  grown-Good {s} {t} {lists} {live} h fresh l o x space indexed others runs g =
      let ps = fresh ∷ lists h in
      let new = put lists h ps in
      record {
        enabled = x.enable ∙ g.enabled;
        dead_zero = g.dead_zero;
        dead = λ i j. put_else lists h i ps (alive live h i l j) ∙ g.dead i j;
        here = rw x.current g.here;
        space = λ i j. elim (either h i) [
          | inl q ↦ subst (λ r. Space t r (new r)) (sym q) (rw (put_here lists h ps) space)
          | inr q ↦ rw (put_else lists h i ps q) (others i (lists i) q (o i) (g.space i j))
        ];
        indexed = λ i j k. elim (either h i) [
          | inl q ↦
              subst (λ r. find (t.heads r).hash k ≡ page_of t.pages (new r) k) (sym q)
                (rw (put_here lists h ps) (indexed k))
          | inr q ↦ rw (put_else lists h i ps q) (x.indexed i (lists i) q (o i) (g.indexed i j) k)
        ];
        runs = subst (λ qs. Runs t qs) (rw x.current (runs_list lists h fresh s.current)) runs;
      }

  pub maps-Good :
      Enters find enter
      → {s t : Vm T} {lists : ℕ → List ℕ} {live : ℕ → Bool} (h fresh va pa prot : ℕ) (u : T)
      → live h ≡ true
      → in_user va ≡ true
      → va % pgsize ≡ 0
      → pa % pgsize ≡ 0
      → lookup s.pages (lists h) va ≡ none
      → fresh ≢ 0
      → ((i : ℕ) → member fresh (lists i) ≡ false)
      → enter (s.heads h).hash va fresh ≡ some u
      → s.accepts va pa ≡ true
      → map find enter pgsize s h fresh va pa prot ≡ done t
      → Good find enter s lists live
      → Good find enter t (put lists h (fresh ∷ lists h)) live
  maps-Good law {s} {t} {lists} {live} h fresh va pa prot u l a b c k m o e ok d g =
      let n : h ≢ 0 = λ z. ground (arith, l, g.dead_zero) in
      let (v, (f, ((space, indexed), (says, (others, runs))))) =
        map-Space find enter law pgsize s h fresh va pa prot (lists h) u a b c n (g.space h l)
          (g.indexed h l) k m (o h) e ok in
      let w : v ≡ t = done_inj (sym f ∙ d) in
      let x = done_inj (
        sym (
          map_lem find enter pgsize s h fresh va pa prot (lists h) u a b c n (g.indexed h l) k e ok)
        ∙ f) in
      subst (λ z. Good find enter z (put lists h (fresh ∷ lists h)) live) w
        (grown-Good h fresh l o
          (subst (λ z. Leaves s z h fresh) x (page_added-Leaves s h fresh va pa prot u)) space
          indexed others (runs (lists s.current) (o s.current) g.runs) g)
