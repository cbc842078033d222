-- ===== src/Native/Vme/Apart.antt =====
-- Lists that a page is not on do not notice that it is written.
use abstract_machine.Base.{Bool, ℕ, false, List, [], ◌∷◌, ◌≡◌, refl, ◌==◌, arith}
use abstract_machine.Native.Vme.{PageMap}
use abstract_machine.Native.Vme.Chain.{Chain, lookup, page_of, member, Users, Distinct}
use abstract_machine.Native.Vme.Switch.{Mapped}

member-first : (p q : ℕ) (ps : List ℕ) → member p (q ∷ ps) ≡ false → (q == p) ≡ false
unfolding member
member-first p q ps m = ground (arith)

member-rest : (p q : ℕ) (ps : List ℕ) → member p (q ∷ ps) ≡ false → member p ps ≡ false
unfolding member
member-rest p q ps m = ground (arith)

module _ (f g : ℕ → PageMap) (p : ℕ) (apart : (q : ℕ) → (q == p) ≡ false → g q ≡ f q) where
  pub apart-Chain : (i : ℕ) (ps : List ℕ) → member p ps ≡ false → Chain f i ps → Chain g i ps
  apart-Chain i [] m c = c
  apart-Chain i (q ∷ ps) m (e, c) =
      (e, rw (apart q (member-first p q ps m)) (apart-Chain (f q).next ps (member-rest p q ps m) c))

  pub apart-lookup : (ps : List ℕ) (va : ℕ) → member p ps ≡ false → lookup g ps va ≡ lookup f ps va
  unfolding lookup
  apart-lookup [] va m = refl
  apart-lookup (q ∷ ps) va m =
      rw (apart q (member-first p q ps m), apart-lookup ps va (member-rest p q ps m)) refl

  pub apart-page_of :
      (ps : List ℕ) (va : ℕ) → member p ps ≡ false → page_of g ps va ≡ page_of f ps va
  unfolding page_of
  apart-page_of [] va m = refl
  apart-page_of (q ∷ ps) va m =
      rw (apart q (member-first p q ps m), apart-page_of ps va (member-rest p q ps m)) refl

  pub apart-Users :
      (ok : ℕ → ℕ → Bool) (ps : List ℕ) → member p ps ≡ false → Users ok f ps → Users ok g ps
  apart-Users ok [] m u = tt
  apart-Users ok (q ∷ ps) m (e, u) =
      (rw (apart q (member-first p q ps m)) e, apart-Users ok ps (member-rest p q ps m) u)

  pub apart-Mapped : (ps : List ℕ) → member p ps ≡ false → Mapped f ps → Mapped g ps
  apart-Mapped [] m u = tt
  apart-Mapped (q ∷ ps) m (e, u) =
      (rw (apart q (member-first p q ps m)) e, apart-Mapped ps (member-rest p q ps m) u)

  pub apart-Distinct : (ps : List ℕ) → member p ps ≡ false → Distinct f ps → Distinct g ps
  apart-Distinct [] m d = tt
  apart-Distinct (q ∷ ps) m (e, d) = (
    rw (apart q (member-first p q ps m), apart-lookup ps (f q).va (member-rest p q ps m)) e,
    apart-Distinct ps (member-rest p q ps m) d,
  )
