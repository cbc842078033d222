-- ===== src/Native/Vme/Run.antt =====
-- am/src/native/vme.c: the spaces in memory, and the running one on the host.
use abstract_machine.Base.{
  ℕ, ◌<◌, true, false, Option, none, some, List, [], ◌∷◌, ◌≡◌, ◌≢◌, refl, sym, ◌∙◌, ap₂, ◌==◌, ◌!=◌,
  if◌then◌else◌, Bool-cases, arith, inl, inr,
}
use mathlib.Core.Path.{subst}
use abstract_machine.Base.Lists.{length}
use abstract_machine.Native.Answer.{done}
use abstract_machine.Native.Vme.{PageMap, Vm, unmap_all, map_all, am_switch}
use abstract_machine.Native.Vme.Chain.{
  Chain, lookup, Users, Distinct, covers, Same, Same-refl, Same-Chain, Same-lookup, Same-Users,
  Same-Distinct,
}
use abstract_machine.Native.Vme.Switch.{
  Mapped, Keeps, overlay-lookup, over, Covered, Keeps-refl, Keeps-trans, unmap_all-empties,
  map_all-overlays,
}

Chain-unique : (f : ℕ → PageMap) (p : ℕ) (xs ys : List ℕ) → Chain f p xs → Chain f p ys → xs ≡ ys
Chain-unique f p [] [] c d = refl
Chain-unique f p [] (b ∷ ys) c ((e, n), d) = absurd (n (sym e ∙ c))
Chain-unique f p (a ∷ xs) [] ((e, n), c) d = absurd (n (sym e ∙ d))
Chain-unique f p (a ∷ xs) (b ∷ ys) ((e, n), c) ((g, m), d) =
    ap₂ (λ (q : ℕ) (qs : List ℕ). q ∷ qs) (sym e ∙ g)
      (Chain-unique f (f p).next xs ys (rw e c) (rw g d))

mapped-covers :
    (f : ℕ → PageMap) (ps : List ℕ) (va : ℕ)
    → Mapped f ps
    → covers f ps va ≡ false
    → lookup f ps va ≡ none
unfolding covers lookup
mapped-covers f [] va m c = refl
mapped-covers f (q ∷ ps) va (e, m) c = let ih = mapped-covers f ps va m in ground (arith, ih)

over-none : (o : Option (ℕ × ℕ)) → over o none ≡ o
over-none none = refl
over-none (some e) = refl

module _ {T : Type 0} where
  -- The space with the head `h` has the pages `ps`; no space is 0, and has no page.
  pub record Space (s : Vm T) (h : ℕ) (ps : List ℕ) : Type 0 where
    pub listed : h ≢ 0 → Chain s.pages (s.heads h).head ps
    pub empty : h ≡ 0 → ps ≡ []
    pub users : Users s.accepts s.pages ps
    pub distinct : Distinct s.pages ps

  -- The host has the pages `ps`, and nothing else.
  pub record Runs (s : Vm T) (ps : List ℕ) : Type 0 where
    pub mapped : Mapped s.pages ps
    pub host : (va : ℕ) → s.host va ≡ lookup s.pages ps va

  pub Same-Space :
      (s t : Vm T)
      → Same t.pages s.pages
      → t.heads ≡ s.heads
      → t.accepts ≡ s.accepts
      → (h : ℕ) (ps : List ℕ) → Space s h ps
      → Space t h ps
  Same-Space s t same heads accepts h ps x = record {
    listed = λ n. Same-Chain same (t.heads h).head ps (rw heads (x.listed n));
    empty = x.empty;
    users = rw accepts (Same-Users same s.accepts ps x.users);
    distinct = Same-Distinct same ps x.distinct;
  }

  pub Space-unique : (s : Vm T) (h : ℕ) (xs ys : List ℕ) → Space s h xs → Space s h ys → xs ≡ ys
  Space-unique s h xs ys x y = elim (Bool-cases (h == 0)) [
    | inl e ↦ x.empty (ground (arith)) ∙ sym (y.empty (ground (arith)))
    | inr e ↦
        Chain-unique s.pages (s.heads h).head xs ys (x.listed (λ z. ground (arith)))
          (y.listed (λ z. ground (arith)))
  ]

  Runs-Covered : (s : Vm T) (ps : List ℕ) → Runs s ps → Covered s ps
  Runs-Covered s ps r va c = r.host va ∙ mapped-covers s.pages ps va r.mapped c

  -- The first loop, where a space runs.
  leave :
      (fuel : ℕ) (s : Vm T) (old : List ℕ)
      → Space s s.current old
      → Runs s old
      → length old < fuel
      → (t : Vm T) × (((if s.current != 0
              then unmap_all fuel s (s.heads s.current).head
              else done s)
            ≡ done t)
          × (Keeps s t × ((va : ℕ) → t.host va ≡ none)))
  unfolding lookup
  leave fuel s old x r l = elim (Bool-cases (s.current != 0)) [
    | inl e ↦
        let n : s.current ≢ 0 = λ z. ground (arith) in
        let (t, (g, k)) =
          unmap_all-empties fuel s (s.heads s.current).head old (x.listed n) (Runs-Covered s old r)
            l in
        (t, (rw e g, k))
    | inr e ↦
        let z : s.current ≡ 0 = ground (arith) in
        (s, (rw e refl, (Keeps-refl s, λ va. r.host va ∙ rw (x.empty z) refl)))
  ]

  enter-Space :
      (fuel : ℕ) (s t : Vm T) (h : ℕ) (new : List ℕ)
      → Space s h new
      → Keeps s t
      → ((va : ℕ) → t.host va ≡ none)
      → length new < fuel
      → (u : Vm T) × (((if h != 0 then map_all fuel t (t.heads h).head else done t) ≡ done u)
          × (Keeps s u × Runs u new))
  unfolding lookup
  enter-Space fuel s t h new x k e l = elim (Bool-cases (h != 0)) [
    | inl i ↦
        let n : h ≢ 0 = λ z. ground (arith) in
        let c = Same-Chain k.same (t.heads h).head new (rw k.heads (x.listed n)) in
        let us : Users t.accepts t.pages new =
          rw k.accepts (Same-Users k.same s.accepts new x.users) in
        let (u, (g, (j, ((m, up), v)))) = map_all-overlays fuel t (t.heads h).head new c us l in
        let d = Same-Distinct k.same new x.distinct in
        (
          u,
          (
            rw i g,
            (
              Keeps-trans k j,
              record {
                mapped = m;
                host = λ va.
                    v va
                    ∙ overlay-lookup t.pages new va (t.host va) d
                    ∙ rw (e va) (over-none (lookup t.pages new va))
                    ∙ sym (Same-lookup j.same new va);
              },
            ),
          ),
        )
    | inr i ↦
        let z : h ≡ 0 = ground (arith) in
        (t, (rw i refl, (k, rw (x.empty z) (record { mapped = tt; host = e }))))
  ]

  -- What a switch leaves, and what it leaves alone.
  pub am_switch_lem :
      (fuel : ℕ) (s : Vm T) (h : ℕ) (old new : List ℕ)
      → s.vme_enable ≡ true
      → Space s s.current old
      → Runs s old
      → Space s h new
      → length old < fuel
      → length new < fuel
      → (t : Vm T) × ((am_switch fuel s h ≡ done t)
          × ((t.current ≡ h)
              × (Runs t new
                  × (Same t.pages s.pages
                      × ((t.heads ≡ s.heads)
                          × ((t.vme_enable ≡ s.vme_enable) × (t.accepts ≡ s.accepts)))))))
  unfolding am_switch
  am_switch_lem fuel s h old new v x r y l m = elim (Bool-cases (h == s.current)) [
    | inl e ↦
        let z : h ≡ s.current = ground (arith) in
        let w : old ≡ new = Space-unique s s.current old new x (subst (λ i. Space s i new) z y) in
        (
          record s { current = h },
          (
            ground (arith),
            (
              refl,
              (
                record {
                  mapped = subst (Mapped s.pages) w r.mapped;
                  host = subst (λ ps. (va : ℕ) → s.host va ≡ lookup s.pages ps va) w r.host;
                },
                (Same-refl s.pages, (refl, (refl, refl))),
              ),
            ),
          ),
        )
    | inr e ↦
        let (t, (g, (k, n))) = leave fuel s old x r l in
        let (u, (i, (j, z))) = enter-Space fuel s t h new y k n m in
        (
          record u { current = h },
          (
            simp (v, e, g, i) refl,
            (
              refl,
              (
                record { mapped = z.mapped; host = z.host },
                (j.same, (j.heads, (j.vme_enable, j.accepts))),
              ),
            ),
          ),
        )
  ]

  -- Where the host has exactly the pages of the running space, at their addresses and with their
  -- protection, __am_switch returns, on fuel above the lengths of the two lists, with the space of
  -- the context running, the host with exactly the pages of that one, all marked as mapped, and
  -- the list of every space as it was; no space, where one is none, has no page. The addresses of a
  -- list are distinct and of user programs, and mmap takes its pages.
  pub am_switch-Runs :
      (fuel : ℕ) (s : Vm T) (h : ℕ) (old new : List ℕ)
      → s.vme_enable ≡ true
      → Space s s.current old
      → Runs s old
      → Space s h new
      → length old < fuel
      → length new < fuel
      → (t : Vm T) × ((am_switch fuel s h ≡ done t)
          × ((t.current ≡ h)
              × (Runs t new × ((i : ℕ) (ps : List ℕ) → Space s i ps → Space t i ps))))
  am_switch-Runs fuel s h old new v x r y l m =
      let (t, (e, (c, (z, (same, (heads, (k, accepts))))))) =
        am_switch_lem fuel s h old new v x r y l m in
      (t, (e, (c, (z, λ i ps. Same-Space s t same heads accepts i ps))))
