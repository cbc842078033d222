-- ===== src/Native/Vme/Map.antt =====
-- am/src/native/vme.c: map at an address that the space does not have yet.
use mathlib.Core.Path.{subst}
use abstract_machine.Base.{
  sym, ℕ, Bool, true, false, none, some, List, ◌∷◌, ◌≡◌, ◌≢◌, refl, ◌∙◌, ◌==◌, ◌&&◌, if◌then◌else◌,
  Bool-cases, arith, inl, inr,
}
use abstract_machine.Native.Vme.{PageMap, Vm, put, mmap_prot, in_user, add_page}
use abstract_machine.Native.Vme.Switch.{page_mapped, map_page_lem}
use abstract_machine.Native.Vme.Chain.{lookup, page_of, member, Users}
use abstract_machine.Native.Vme.Run.{Space, Runs}
use abstract_machine.Native.Answer.{done}
use abstract_machine.Native.Vme.Apart.{
  apart-Chain, apart-lookup, apart-page_of, apart-Users, apart-Mapped, apart-Distinct,
}

pub self : (p : ℕ) → (p == p) ≡ true
self p = ground (arith)

abbrev pub page : ℕ → ℕ → ℕ → ℕ → Bool → PageMap
page va pa next prot b = record { va = va; pa = pa; next = next; prot = prot; is_mapped = b }

module _ {T : Type 0} where
  -- What add_page leaves where mmap takes the page.
  unfoldable pub page_added : Vm T → ℕ → ℕ → ℕ → ℕ → ℕ → Vm T
  page_added s h p va pa prot =
      let t : Vm T = record s {
        pages = put s.pages p (page va pa (s.heads h).head prot false);
        heads = put s.heads h (record (s.heads h) { head = p });
      } in
      if h == s.current then page_mapped t p else t

  pub add_page_lem :
      (s : Vm T) (h p va pa prot : ℕ)
      → s.accepts va pa ≡ true
      → add_page s h p va pa prot ≡ done (page_added s h p va pa prot)
  unfolding add_page page_added
  add_page_lem s h p va pa prot a =
      let t : Vm T = record s {
        pages = put s.pages p (page va pa (s.heads h).head prot false);
        heads = put s.heads h (record (s.heads h) { head = p });
      } in
      let ok : t.accepts (t.pages p).va (t.pages p).pa ≡ true = rw (self p) a in
      elim (Bool-cases (h == s.current)) [ inl e ↦ rw e (map_page_lem t p ok) | inr e ↦ rw e refl ]

  pub page_added-Apart :
      (s : Vm T) (h p va pa prot q : ℕ)
      → (q == p) ≡ false
      → (page_added s h p va pa prot).pages q ≡ s.pages q
  unfolding page_added page_mapped
  page_added-Apart s h p va pa prot q e = ground (arith)

  -- The page that is added.
  pub page_added-page :
      (s : Vm T) (h p va pa prot : ℕ)
      → (page_added s h p va pa prot).pages p ≡ page va pa (s.heads h).head prot (h == s.current)
  unfolding page_added page_mapped
  page_added-page s h p va pa prot = elim (Bool-cases (h == s.current)) [
    | inl e ↦ rw e (rw (self p) refl)
    | inr e ↦ rw e (rw (self p) refl)
  ]

  page_added-heads :
      (s : Vm T) (h p va pa prot : ℕ)
      → (page_added s h p va pa prot).heads ≡ put s.heads h (record (s.heads h) { head = p })
  unfolding page_added page_mapped
  page_added-heads s h p va pa prot = ground (arith)

  pub page_added-current :
      (s : Vm T) (h p va pa prot : ℕ) → (page_added s h p va pa prot).current ≡ s.current
  unfolding page_added page_mapped
  page_added-current s h p va pa prot = ground (arith)

  pub page_added-vme_enable :
      (s : Vm T) (h p va pa prot : ℕ) → (page_added s h p va pa prot).vme_enable ≡ s.vme_enable
  unfolding page_added page_mapped
  page_added-vme_enable s h p va pa prot = ground (arith)

  pub page_added-accepts :
      (s : Vm T) (h p va pa prot : ℕ) → (page_added s h p va pa prot).accepts ≡ s.accepts
  unfolding page_added page_mapped
  page_added-accepts s h p va pa prot = ground (arith)

  page_added-host :
      (s : Vm T) (h p va pa prot x : ℕ)
      → (page_added s h p va pa prot).host x
        ≡ (if (h == s.current) && (x == va) then some (pa, mmap_prot prot) else s.host x)
  unfolding page_added page_mapped
  page_added-host s h p va pa prot x = ground (arith)

  module _ (s : Vm T) (h p va pa prot : ℕ) where
    apart : (q : ℕ) → (q == p) ≡ false → (page_added s h p va pa prot).pages q ≡ s.pages q
    apart = page_added-Apart s h p va pa prot

    page_added-Users :
        (ps : List ℕ)
        → member p ps ≡ false
        → Users s.accepts s.pages ps
        → Users (page_added s h p va pa prot).accepts (page_added s h p va pa prot).pages ps
    page_added-Users ps m u =
        let t = page_added s h p va pa prot in
        subst (λ ok. Users ok t.pages ps) (sym (page_added-accepts s h p va pa prot))
          (apart-Users s.pages t.pages p apart s.accepts ps m u)

    pub page_added-head :
        (i : ℕ)
        → ((page_added s h p va pa prot).heads i).head ≡ (if i == h then p else (s.heads i).head)
    page_added-head i = rw (page_added-heads s h p va pa prot) (ground (arith))

    pub page_added-Space :
        (ps : List ℕ)
        → Space s h ps
        → h ≢ 0
        → p ≢ 0
        → member p ps ≡ false
        → in_user va ≡ true
        → s.accepts va pa ≡ true
        → lookup s.pages ps va ≡ none
        → Space (page_added s h p va pa prot) h (p ∷ ps)
    page_added-Space ps x n m a u ok l = record {
      listed = λ z. rw (page_added-head h) (
          rw (self h) (
            (refl, m),
            rw (page_added-page s h p va pa prot) (
                apart-Chain s.pages (page_added s h p va pa prot).pages p apart (s.heads h).head ps
                  a (x.listed n)),
          ));
      empty = λ z. absurd (n z);
      users = (
        rw (page_added-accepts s h p va pa prot, page_added-page s h p va pa prot) (u, ok),
        page_added-Users ps a x.users,
      );
      distinct = (
        rw (page_added-page s h p va pa prot)
            (apart-lookup s.pages (page_added s h p va pa prot).pages p apart ps va a ∙ l),
        apart-Distinct s.pages (page_added s h p va pa prot).pages p apart ps a x.distinct,
      );
    }

    pub page_added-others :
        (i : ℕ) (ps : List ℕ)
        → i ≢ h
        → member p ps ≡ false
        → Space s i ps
        → Space (page_added s h p va pa prot) i ps
    page_added-others i ps n a x =
        let e : (i == h) ≡ false = ground (arith) in
        record {
          listed = λ z. rw (page_added-head i) (
              rw e (
                apart-Chain s.pages (page_added s h p va pa prot).pages p apart (s.heads i).head ps
                  a (x.listed z)));
          empty = x.empty;
          users = page_added-Users ps a x.users;
          distinct =
              apart-Distinct s.pages (page_added s h p va pa prot).pages p apart ps a x.distinct;
        }

    pub page_added-Runs :
        (qs : List ℕ)
        → Runs s qs
        → member p qs ≡ false
        → Runs (page_added s h p va pa prot) (if h == s.current then p ∷ qs else qs)
    unfolding lookup
    page_added-Runs qs r a = elim (Bool-cases (h == s.current)) [
      | inl e ↦ rw e (record {
        mapped = (
          rw (page_added-page s h p va pa prot) e,
          apart-Mapped s.pages (page_added s h p va pa prot).pages p apart qs a r.mapped,
        );
        host = λ x.
            page_added-host s h p va pa prot x
            ∙ rw
                (
                  page_added-page s h p va pa prot,
                  apart-lookup s.pages (page_added s h p va pa prot).pages p apart qs x a,
                  e,
                )
                (ground (arith, r.host x));
      })
      | inr e ↦ rw e (record {
        mapped = apart-Mapped s.pages (page_added s h p va pa prot).pages p apart qs a r.mapped;
        host = λ x.
            page_added-host s h p va pa prot x
            ∙ rw (apart-lookup s.pages (page_added s h p va pa prot).pages p apart qs x a, e)
                (r.host x);
      })
    ]

    pub lookup-page_added :
        (ps : List ℕ) (x : ℕ)
        → member p ps ≡ false
        → lookup (page_added s h p va pa prot).pages (p ∷ ps) x
          ≡ (if x == va then some (pa, mmap_prot prot) else lookup s.pages ps x)
    unfolding lookup
    lookup-page_added ps x a =
        rw
          (
            page_added-page s h p va pa prot,
            apart-lookup s.pages (page_added s h p va pa prot).pages p apart ps x a,
          )
          (ground (arith))

    pub page_of-page_added :
        (ps : List ℕ) (x : ℕ)
        → member p ps ≡ false
        → page_of (page_added s h p va pa prot).pages (p ∷ ps) x
          ≡ (if x == va then some p else page_of s.pages ps x)
    unfolding page_of
    page_of-page_added ps x a =
        rw
          (
            page_added-page s h p va pa prot,
            apart-page_of s.pages (page_added s h p va pa prot).pages p apart ps x a,
          )
          (ground (arith))

    pub page_added-hash : (i : ℕ) → ((page_added s h p va pa prot).heads i).hash ≡ (s.heads i).hash
    page_added-hash i = rw (page_added-heads s h p va pa prot) (ground (arith))

    pub others-page_of :
        (ps : List ℕ) (x : ℕ)
        → member p ps ≡ false
        → page_of (page_added s h p va pa prot).pages ps x ≡ page_of s.pages ps x
    others-page_of ps x a = apart-page_of s.pages (page_added s h p va pa prot).pages p apart ps x a
