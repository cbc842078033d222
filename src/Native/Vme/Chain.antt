-- ===== src/Native/Vme/Chain.antt =====
-- Linked lists of pages in memory, and what they say of the addresses of a space. Nothing here reads
-- is_mapped but `covers`, so that it stays true while the host's side of the pages changes.
use abstract_machine.Base.{
  ℕ, Bool, true, false, Option, none, some, List, [], ◌∷◌, ◌≡◌, ◌≢◌, refl, sym, ◌∙◌, ◌==◌, ◌&&◌,
  if◌then◌else◌,
}
use abstract_machine.Native.Vme.{PageMap, mmap_prot, in_user}

-- The list from the address `p` holds the pages at `ps`, in this order.
abbrev pub Chain : (ℕ → PageMap) → ℕ → List ℕ → Type 0
Chain f p [] = p ≡ 0
Chain f p (q ∷ ps) = ((p ≡ q) × (q ≢ 0)) × Chain f (f q).next ps

-- What the list says of an address: where it is, and the protection.
unfoldable pub lookup : (ℕ → PageMap) → List ℕ → ℕ → Option (ℕ × ℕ)
lookup f [] va = none
lookup f (q ∷ ps) va =
    if (f q).va == va then some ((f q).pa, mmap_prot (f q).prot) else lookup f ps va

-- The page of an address.
unfoldable pub page_of : (ℕ → PageMap) → List ℕ → ℕ → Option ℕ
page_of f [] va = none
page_of f (q ∷ ps) va = if (f q).va == va then some q else page_of f ps va

unfoldable pub member : ℕ → List ℕ → Bool
member p [] = false
member p (q ∷ ps) = if p == q then true else member p ps

-- Each page is for an address of user programs, and the host takes it.
abbrev pub Users : (ℕ → ℕ → Bool) → (ℕ → PageMap) → List ℕ → Type 0
Users ok f [] = Unit {0}
Users ok f (q ∷ ps) = ((in_user (f q).va ≡ true) × (ok (f q).va (f q).pa ≡ true)) × Users ok f ps

-- No two pages are for one address.
abbrev pub Distinct : (ℕ → PageMap) → List ℕ → Type 0
Distinct f [] = Unit {0}
Distinct f (q ∷ ps) = (lookup f ps (f q).va ≡ none) × Distinct f ps

-- A page of the list has the address, and the host maps it.
unfoldable pub covers : (ℕ → PageMap) → List ℕ → ℕ → Bool
covers f [] va = false
covers f (q ∷ ps) va = if (f q).is_mapped && ((f q).va == va) then true else covers f ps va

-- Two memories with the same pages, up to is_mapped.
pub record Same (f g : ℕ → PageMap) : Type 0 where
  pub va : (q : ℕ) → (f q).va ≡ (g q).va
  pub pa : (q : ℕ) → (f q).pa ≡ (g q).pa
  pub next : (q : ℕ) → (f q).next ≡ (g q).next
  pub prot : (q : ℕ) → (f q).prot ≡ (g q).prot

pub Same-refl : (f : ℕ → PageMap) → Same f f
Same-refl f = record { va = λ q. refl; pa = λ q. refl; next = λ q. refl; prot = λ q. refl }

pub Same-trans : {f g h : ℕ → PageMap} → Same f g → Same g h → Same f h
Same-trans a b = record {
  va = λ q. a.va q ∙ b.va q;
  pa = λ q. a.pa q ∙ b.pa q;
  next = λ q. a.next q ∙ b.next q;
  prot = λ q. a.prot q ∙ b.prot q;
}

pub Same-sym : {f g : ℕ → PageMap} → Same f g → Same g f
Same-sym a = record {
  va = λ q. sym (a.va q);
  pa = λ q. sym (a.pa q);
  next = λ q. sym (a.next q);
  prot = λ q. sym (a.prot q);
}

module _ {f g : ℕ → PageMap} (same : Same f g) where
  pub Same-Chain : (p : ℕ) (ps : List ℕ) → Chain g p ps → Chain f p ps
  Same-Chain p [] c = c
  Same-Chain p (q ∷ ps) (e, c) = (e, Same-Chain (f q).next ps (rw (same.next q) c))

  pub Same-lookup : (ps : List ℕ) (va : ℕ) → lookup f ps va ≡ lookup g ps va
  unfolding lookup
  Same-lookup [] va = refl
  Same-lookup (q ∷ ps) va = rw (same.va q, same.pa q, same.prot q, Same-lookup ps va) refl

  pub Same-page_of : (ps : List ℕ) (va : ℕ) → page_of f ps va ≡ page_of g ps va
  unfolding page_of
  Same-page_of [] va = refl
  Same-page_of (q ∷ ps) va = rw (same.va q, Same-page_of ps va) refl

  pub Same-Users : (ok : ℕ → ℕ → Bool) (ps : List ℕ) → Users ok g ps → Users ok f ps
  Same-Users ok [] u = tt
  Same-Users ok (q ∷ ps) (e, u) = (rw (same.va q, same.pa q) e, Same-Users ok ps u)

  pub Same-Distinct : (ps : List ℕ) → Distinct g ps → Distinct f ps
  Same-Distinct [] d = tt
  Same-Distinct (q ∷ ps) (e, d) =
      (rw (Same-lookup ps (f q).va) (rw (same.va q) e), Same-Distinct ps d)
