-- ===== src/Native/Vme/Good.antt =====
-- am/src/native/vme.c: what protect and __am_switch keep of the lists of the spaces.
use mathlib.Core.Path.{subst}
use abstract_machine.Base.{
  ℕ, ◌<◌, Bool, true, false, Option, none, List, [], ◌≡◌, ◌≢◌, ◌⊎◌, inl, inr, refl, sym, ◌∙◌, ap,
  ◌==◌, Bool-cases, arith,
}
use abstract_machine.Base.Lists.{length}
use abstract_machine.Native.Answer.{done}
use abstract_machine.Native.Vme.{VmHead, Vm, put, protect, am_switch}
use abstract_machine.Native.Vme.Chain.{lookup, page_of, Chain, Same-page_of}
use abstract_machine.Native.Vme.Run.{Space, Runs, am_switch_lem, Same-Space}
use abstract_machine.Native.Vme.Map.{self}
use abstract_machine.Native.Vme.New.{Indexed}

pub done_inj : {T : Type 0} {s t : Vm T} → done s ≡ done t → s ≡ t
done_inj e = cc

module _ {T : Type 0} (find : T → ℕ → Option ℕ) (enter : T → ℕ → ℕ → Option T) where
  -- What is true of every reachable state: the list of each space, and the host's pages.
  pub record Good (s : Vm T) (lists : ℕ → List ℕ) (live : ℕ → Bool) : Type 0 where
    pub enabled : s.vme_enable ≡ true
    pub dead_zero : live 0 ≡ false
    pub dead : (h : ℕ) → live h ≡ false → lists h ≡ []
    pub here : (s.current ≡ 0) ⊎ (live s.current ≡ true)
    pub space : (h : ℕ) → live h ≡ true → Space s h (lists h)
    pub indexed : (h : ℕ) → live h ≡ true → Indexed find enter s h (lists h)
    pub runs : Runs s (lists s.current)

  pub Good-Space :
      {s : Vm T} {lists : ℕ → List ℕ} {live : ℕ → Bool}
      → Good s lists live
      → (h : ℕ) → (h ≡ 0) ⊎ (live h ≡ true)
      → Space s h (lists h)
  Good-Space g h (inr l) = g.space h l
  Good-Space {s} {lists} {live} g h (inl z) =
      let e : lists h ≡ [] = rw z (g.dead 0 g.dead_zero) in
      rw e (record { listed = λ n. absurd (n z); empty = λ x. refl; users = tt; distinct = tt })

  pub booted-Good :
      {s : Vm T}
      → s.vme_enable ≡ true
      → s.current ≡ 0
      → ((va : ℕ) → s.host va ≡ none)
      → Good s (λ h. []) (λ h. false)
  unfolding lookup
  booted-Good v c h = record {
    enabled = v;
    dead_zero = refl;
    dead = λ h e. refl;
    here = inl c;
    space = λ h e. absurd cc;
    indexed = λ h e. absurd cc;
    runs = record { mapped = tt; host = h };
  }

  pub switches-Good :
      {s t : Vm T} {lists : ℕ → List ℕ} {live : ℕ → Bool}
      → (h fuel : ℕ) → (h ≡ 0) ⊎ (live h ≡ true)
      → length (lists s.current) < fuel
      → length (lists h) < fuel
      → am_switch fuel s h ≡ done t
      → Good s lists live
      → Good t lists live
  switches-Good {s} {t} {lists} {live} h fuel l x y e g =
      let (u, (f, (c, (r, (same, (heads, (v, accepts))))))) =
        am_switch_lem fuel s h (lists s.current) (lists h) g.enabled (Good-Space g s.current g.here)
          g.runs (Good-Space g h l) x y in
      let w : u ≡ t = done_inj (sym f ∙ e) in
      subst (λ z. Good z lists live) w
        (record {
          enabled = v ∙ g.enabled;
          dead_zero = g.dead_zero;
          dead = g.dead;
          here = rw c l;
          space = λ i k. Same-Space s u same heads accepts i (lists i) (g.space i k);
          indexed = λ i k j.
              ap (λ (f : ℕ → VmHead T). find (f i).hash j) heads
              ∙ (g.indexed i k j ∙ sym (Same-page_of same (lists i) j));
          runs = rw c r;
        })

  at_put : (live : ℕ → Bool) (h : ℕ) → put live h true h ≡ true
  at_put live h = ground (arith, self h)

  new_or_live :
      (live : ℕ → Bool) (fresh h : ℕ)
      → put live fresh true h ≡ true
      → (h ≡ fresh) ⊎ ((h ≢ fresh) × (live h ≡ true))
  new_or_live live fresh h e = elim (Bool-cases (h == fresh)) [
    | inl i ↦ inl (ground (arith))
    | inr i ↦ inr ((λ z. ground (arith)), ground (arith))
  ]

  was_dead : (live : ℕ → Bool) (fresh h : ℕ) → put live fresh true h ≡ false → live h ≡ false
  was_dead live fresh h e = ground (arith)

  new_head : T → VmHead T
  new_head table = record { head = 0; hash = table; nr_page = 0 }

  protected : Vm T → ℕ → T → Vm T
  protected s fresh table = record s { heads = put s.heads fresh (new_head table) }

  pub protects-Good :
      {s t : Vm T} {lists : ℕ → List ℕ} {live : ℕ → Bool}
      → (fresh : ℕ) (table : T) → fresh ≢ 0
      → live fresh ≡ false
      → ((k : ℕ) → find table k ≡ none)
      → protect s fresh table ≡ done t
      → Good s lists live
      → Good t lists (put live fresh true)
  unfolding protect protected new_head page_of
  protects-Good {s} {t} {lists} {live} fresh table n l k e g =
      let z : (fresh == 0) ≡ false = ground (arith) in
      let f : protect s fresh table ≡ done (protected s fresh table) = simp z refl in
      let w : protected s fresh table ≡ t = done_inj (sym f ∙ e) in
      let u = protected s fresh table in
      let apart : (i : ℕ) → i ≢ fresh → u.heads i ≡ s.heads i = λ i d. ground (arith) in
      let there : u.heads fresh ≡ new_head table = rw (self fresh) refl in
      let none_yet : lists fresh ≡ [] = g.dead fresh l in
      let new_space : Space u fresh [] = record {
        listed = λ d. ap (λ (f : VmHead T). f.head) there;
        empty = λ d. refl;
        users = tt;
        distinct = tt;
      } in
      let others : (i : ℕ) (ps : List ℕ) → i ≢ fresh → Space s i ps → Space u i ps = λ i ps d x.
        record {
          listed =
              λ y. subst (λ (f : VmHead T). Chain s.pages f.head ps) (sym (apart i d)) (x.listed y);
          empty = x.empty;
          users = x.users;
          distinct = x.distinct;
        } in
      subst (λ x. Good x lists (put live fresh true)) w
        (record {
          enabled = g.enabled;
          dead_zero = ground (arith, g.dead_zero);
          dead = λ h d. g.dead h (was_dead live fresh h d);
          here = elim g.here [ inl c ↦ inl c | inr c ↦ inr (ground (arith)) ];
          space = λ h d. elim (new_or_live live fresh h d) [
            | inl q ↦ subst (λ j. Space u j (lists j)) (sym q) (rw none_yet new_space)
            | inr (q, o) ↦ others h (lists h) q (g.space h o)
          ];
          indexed = λ h d j. elim (new_or_live live fresh h d) [
            | inl q ↦
                subst (λ (i : ℕ). find (u.heads i).hash j ≡ page_of s.pages (lists i) j) (sym q)
                  (rw (there, none_yet) (k j))
            | inr (q, o) ↦ ap (λ (f : VmHead T). find f.hash j) (apart h q) ∙ g.indexed h o j
          ];
          runs = record { mapped = g.runs.mapped; host = g.runs.host };
        })
