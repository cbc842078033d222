-- ===== src/Native/Vme/Switch.antt =====
-- am/src/native/vme.c: what __am_switch leaves on the host.
use abstract_machine.Base.{
  ℕ, zero, suc, ◌<◌, Bool, true, false, Option, none, some, List, [], ◌∷◌, ◌≡◌, refl, sym, ◌∙◌, ap,
  ◌==◌, ◌&&◌, if◌then◌else◌, Bool-cases, arith, inl, inr,
}
use abstract_machine.Base.Lists.{length}
use abstract_machine.Native.Answer.{done}
use abstract_machine.Native.Vme.{
  PageMap, Vm, put, mmap_prot, in_user, pmem_map, pmem_unmap, unmap_page, map_page, set_mapped,
  unmap_all, map_all,
}
use abstract_machine.Native.Vme.Chain.{
  Chain, lookup, Users, Distinct, covers, Same, Same-refl, Same-trans, Same-Chain, Same-Users,
}

-- Every page of the list is on the host.
abbrev pub Mapped : (ℕ → PageMap) → List ℕ → Type 0
Mapped f [] = Unit {0}
Mapped f (q ∷ ps) = ((f q).is_mapped ≡ true) × Mapped f ps

pub set_mapped-Same :
    (f : ℕ → PageMap) (p : ℕ) (b : Bool) → Same (put f p (record (f p) { is_mapped = b })) f
set_mapped-Same f p b = record {
  va = λ q. ground arith;
  pa = λ q. ground arith;
  next = λ q. ground arith;
  prot = λ q. ground arith;
}

unset-covers :
    (f : ℕ → PageMap) (p va : ℕ) (ps : List ℕ)
    → covers (put f p (record (f p) { is_mapped = false })) ps va ≡ false
    → ((f p).is_mapped && ((f p).va == va)) ≡ false
    → covers f ps va ≡ false
unfolding covers
unset-covers f p va [] h e = refl
unset-covers f p va (q ∷ ps) h e = let ih = unset-covers f p va ps in ground (arith, ih)

-- What the list puts on the host, the later pages over the earlier ones.
abbrev pub overlay : (ℕ → PageMap) → List ℕ → ℕ → Option (ℕ × ℕ) → Option (ℕ × ℕ)
overlay f [] va o = o
overlay f (q ∷ ps) va o =
    overlay f ps va (if (f q).va == va then some ((f q).pa, mmap_prot (f q).prot) else o)

Same-overlay :
    {f g : ℕ → PageMap}
    → Same f g
    → (ps : List ℕ) (va : ℕ) (o : Option (ℕ × ℕ)) → overlay f ps va o ≡ overlay g ps va o
Same-overlay same [] va o = refl
Same-overlay same (q ∷ ps) va o = rw (same.va q, same.pa q, same.prot q) (Same-overlay same ps va _)

abbrev pub over : Option (ℕ × ℕ) → Option (ℕ × ℕ) → Option (ℕ × ℕ)
over none o = o
over (some e) o = some e

-- Where no two pages are for one address, their order does not matter.
eq_of_test : {a b : ℕ} → (a == b) ≡ true → a ≡ b
eq_of_test h = ground (arith)

pub overlay-lookup :
    (f : ℕ → PageMap) (ps : List ℕ) (va : ℕ) (o : Option (ℕ × ℕ))
    → Distinct f ps
    → overlay f ps va o ≡ over (lookup f ps va) o
unfolding lookup
overlay-lookup f [] va o d = refl
overlay-lookup f (q ∷ ps) va o (e, d) = elim (Bool-cases ((f q).va == va)) [
  | inl h ↦
      let g : lookup f ps va ≡ none = rw (sym (eq_of_test h)) e in
      rw h (overlay-lookup f ps va _ d ∙ rw g refl)
  | inr h ↦ rw h (overlay-lookup f ps va o d)
]

module _ {T : Type 0} where
  -- The two states differ in the host and in is_mapped only.
  pub record Keeps (s t : Vm T) : Type 0 where
    pub same : Same t.pages s.pages
    pub heads : t.heads ≡ s.heads
    pub current : t.current ≡ s.current
    pub vme_enable : t.vme_enable ≡ s.vme_enable
    pub accepts : t.accepts ≡ s.accepts

  pub Keeps-trans : {s t u : Vm T} → Keeps s t → Keeps t u → Keeps s u
  Keeps-trans a b = record {
    same = Same-trans b.same a.same;
    heads = b.heads ∙ a.heads;
    current = b.current ∙ a.current;
    vme_enable = b.vme_enable ∙ a.vme_enable;
    accepts = b.accepts ∙ a.accepts;
  }

  pub Keeps-refl : (s : Vm T) → Keeps s s
  Keeps-refl s = record {
    same = Same-refl s.pages;
    heads = refl;
    current = refl;
    vme_enable = refl;
    accepts = refl;
  }

  -- Each address of the host is one of the list, with its page on the host.
  abbrev pub Covered : (s : Vm T) → List ℕ → Type 0
  Covered s ps = (va : ℕ) → covers s.pages ps va ≡ false → s.host va ≡ none

  pub unmap_page-Keeps : (s : Vm T) (p : ℕ) → Keeps s (unmap_page s p)
  unfolding unmap_page pmem_unmap
  unmap_page-Keeps s p = elim (Bool-cases (s.pages p).is_mapped) [
    | inl e ↦ rw e (record {
      same = set_mapped-Same s.pages p false;
      heads = refl;
      current = refl;
      vme_enable = refl;
      accepts = refl;
    })
    | inr e ↦ rw e (Keeps-refl s)
  ]

  unmap_page-Covered :
      (s : Vm T) (p : ℕ) (ps : List ℕ) → Covered s (p ∷ ps) → Covered (unmap_page s p) ps
  unfolding unmap_page pmem_unmap covers
  unmap_page-Covered s p ps c va h = let u = unset-covers s.pages p va ps in ground (arith, u, c va)

  -- The first loop leaves nothing on the host.
  pub unmap_all-empties :
      (fuel : ℕ) (s : Vm T) (p : ℕ) (ps : List ℕ)
      → Chain s.pages p ps
      → Covered s ps
      → length ps < fuel
      → (t : Vm T) × ((unmap_all fuel s p ≡ done t) × (Keeps s t × ((va : ℕ) → t.host va ≡ none)))
  unfolding unmap_all covers
  unmap_all-empties zero s p ps c h l = absurd (omega arith)
  unmap_all-empties (suc fuel) s p [] c h l = (s, (ground arith, (Keeps-refl s, λ va. h va refl)))
  unmap_all-empties (suc fuel) s p (q ∷ ps) ((e, n), c) h l =
      let (t, (r, (k, v))) =
        unmap_all-empties fuel (unmap_page s p) (s.pages p).next ps
          (Same-Chain (unmap_page-Keeps s p).same (s.pages p).next ps (rw e c))
          (unmap_page-Covered s p ps (rw e h)) (omega arith) in
      (t, (ground (arith, r), (Keeps-trans (unmap_page-Keeps s p) k, v)))

  -- What map_page leaves where mmap takes the page.
  unfoldable pub page_mapped : Vm T → ℕ → Vm T
  page_mapped s p =
      let g = s.pages p in
      set_mapped (record s { host = put s.host g.va (some (g.pa, mmap_prot g.prot)) }) p true

  pub map_page_lem :
      (s : Vm T) (p : ℕ)
      → s.accepts (s.pages p).va (s.pages p).pa ≡ true
      → map_page s p ≡ done (page_mapped s p)
  unfolding map_page pmem_map page_mapped
  map_page_lem s p a = rw a refl

  pub page_mapped-Keeps : (s : Vm T) (p : ℕ) → Keeps s (page_mapped s p)
  unfolding page_mapped
  page_mapped-Keeps s p = record {
    same = set_mapped-Same s.pages p true;
    heads = refl;
    current = refl;
    vme_enable = refl;
    accepts = refl;
  }

  -- The second loop puts the pages on the host, over what is there, and takes none off.
  pub map_all-overlays :
      (fuel : ℕ) (s : Vm T) (p : ℕ) (ps : List ℕ)
      → Chain s.pages p ps
      → Users s.accepts s.pages ps
      → length ps < fuel
      → (t : Vm T) × ((map_all fuel s p ≡ done t)
          × (Keeps s t
              × ((Mapped t.pages ps
                    × ((q : ℕ) → (s.pages q).is_mapped ≡ true → (t.pages q).is_mapped ≡ true))
                  × ((va : ℕ) → t.host va ≡ overlay s.pages ps va (s.host va)))))
  unfolding map_all page_mapped
  map_all-overlays zero s p ps c u l = absurd (omega arith)
  map_all-overlays (suc fuel) s p [] c u l =
      (s, (ground arith, (Keeps-refl s, ((tt, λ q h. h), λ va. refl))))
  map_all-overlays (suc fuel) s p (q ∷ ps) ((e, n), c) ((i, a), u) l =
      let z : (p == 0) ≡ false = ground (arith) in
      let ok : s.accepts (s.pages p).va (s.pages p).pa ≡ true = rw e a in
      let user : in_user (s.pages p).va ≡ true = rw e i in
      let k0 = page_mapped-Keeps s p in
      let (t, (r, (k, ((m, j), v)))) =
        map_all-overlays fuel (page_mapped s p) (s.pages p).next ps
          (Same-Chain k0.same (s.pages p).next ps (rw e c)) (Same-Users k0.same s.accepts ps u)
          (omega arith) in
      (
        t,
        (
          rw (z, user, map_page_lem s p ok) r,
          (
            Keeps-trans k0 k,
            (
              ((j q (ground arith), m), λ x h. j x (ground arith)),
              λ va.
                  (v va
                    ∙ Same-overlay k0.same ps va _
                    ∙ ap (overlay s.pages ps va) (ground (arith))),
            ),
          ),
        ),
      )
