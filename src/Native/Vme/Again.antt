-- ===== src/Native/Vme/Again.antt =====
-- am/src/native/vme.c: map at an address that the space has already. The page is found and goes to
-- the head of the list without leaving its place, so that the list comes back to it.
use mathlib.Core.Path.{subst}
use abstract_machine.Base.{
  Bool, ℕ, zero, suc, ◌%◌, ◌^◌, true, false, Option, some, List, [], ◌∷◌, ◌≡◌, ◌≢◌, refl, sym, ◌∙◌,
  ◌==◌, ◌!=◌, if◌then◌else◌, Bool-cases, arith, inl, inr,
}
use abstract_machine.Native.Answer.{Answer, done, asserted, spinning}
use abstract_machine.Native.Vme.{
  PageMap, Vm, in_user, find_page, map, map_all, unmap_all, and_then, am_switch,
}
use abstract_machine.Native.Vme.{unmap_page}
use abstract_machine.Native.Vme.Chain.{Chain, page_of, member, Users, Same}
use abstract_machine.Native.Vme.Run.{Space}
use abstract_machine.Native.Vme.Map.{
  page_added, add_page_lem, page_added-accepts, page_added-Apart, page_added-page, page_added-head,
  page_added-current, page_added-vme_enable, self,
}
use abstract_machine.Native.Vme.New.{Indexed, in_user-key}
use abstract_machine.Native.Vme.Switch.{
  Keeps, page_mapped, map_page_lem, page_mapped-Keeps, unmap_page-Keeps, Keeps-trans, Keeps-refl,
}

-- The pages of the list up to the page `p`.
upto : ℕ → List ℕ → List ℕ
upto p [] = []
upto p (q ∷ ps) = q ∷ (if q == p then [] else upto p ps)

-- From each page of the list one comes to another one of it, or stays.
record Ring (ok : ℕ → ℕ → Bool) (f : ℕ → PageMap) (ps : List ℕ) : Type 0 where
  next : (q : ℕ) → member q ps ≡ true → member (f q).next ps ≡ true
  user : (q : ℕ) → member q ps ≡ true → in_user (f q).va ≡ true
  taken : (q : ℕ) → member q ps ≡ true → ok (f q).va (f q).pa ≡ true
  nonzero : member 0 ps ≡ false

Same-Ring :
    {ok : ℕ → ℕ → Bool} {f g : ℕ → PageMap} → Same f g → (ps : List ℕ) → Ring ok g ps → Ring ok f ps
Same-Ring same ps r = record {
  next = λ q m. rw (same.next q) (r.next q m);
  user = λ q m. rw (same.va q) (r.user q m);
  taken = λ q m. rw (same.va q, same.pa q) (r.taken q m);
  nonzero = r.nonzero;
}

member-nonzero : (p : ℕ) (ps : List ℕ) → member 0 ps ≡ false → member p ps ≡ true → (p == 0) ≡ false
member-nonzero zero ps z m = absurd (cc)
member-nonzero (suc p) ps z m = ground (arith)

member-upto :
    (p q r : ℕ) (ps : List ℕ)
    → member q (upto p (r ∷ ps))
      ≡ (if q == r then true else if r == p then false else member q (upto p ps))
unfolding upto member
member-upto p q r ps = elim (Bool-cases (r == p)) [ inl h ↦ rw h refl | inr h ↦ rw h refl ]

upto-member : (p q : ℕ) (ps : List ℕ) → member q (upto p ps) ≡ true → member q ps ≡ true
unfolding upto member
upto-member p q [] m = m
upto-member p q (r ∷ ps) m = let ih = upto-member p q ps in ground (arith, ih, member-upto p q r ps)

upto-head :
    (f : ℕ → PageMap) (p i : ℕ) (ps : List ℕ)
    → Chain f i ps
    → member p ps ≡ true
    → member i (upto p ps) ≡ true
unfolding upto member
upto-head f p i [] c m = absurd (cc)
upto-head f p i (r ∷ ps) ((e, n), c) m = ground (arith)

upto_self : (p : ℕ) (ps : List ℕ) → member p ps ≡ true → member p (upto p ps) ≡ true
unfolding member
upto_self p [] m = absurd (cc)
upto_self p (r ∷ ps) m = let ih = upto_self p ps in ground (arith, ih, member-upto p p r ps)

upto-next :
    (f : ℕ → PageMap) (p q i : ℕ) (ps : List ℕ)
    → Chain f i ps
    → member p ps ≡ true
    → member q (upto p ps) ≡ true
    → (q == p) ≡ false
    → member (f q).next (upto p ps) ≡ true
unfolding member
upto-next f p q i [] c m n z = absurd (cc)
upto-next f p q i (r ∷ ps) ((e, o), c) m n z = elim (Bool-cases (q == r)) [
  | inl g ↦
      let k : member p ps ≡ true = ground (arith) in
      let y : q ≡ r = ground (arith) in
      let first : member (f q).next (upto p ps) ≡ true = rw y (upto-head f p (f r).next ps c k) in
      ground (arith, member-upto p (f q).next r ps)
  | inr g ↦
      let w : member q (upto p ps) ≡ true = ground (arith, member-upto p q r ps) in
      let v : (r == p) ≡ false = ground (arith, member-upto p q r ps) in
      let k : member p ps ≡ true = ground (arith) in
      let ih = upto-next f p q (f r).next ps c k w z in
      ground (arith, member-upto p (f q).next r ps)
]

Chain-nonzero : (f : ℕ → PageMap) (i : ℕ) (ps : List ℕ) → Chain f i ps → member 0 ps ≡ false
unfolding member
Chain-nonzero f i [] c = refl
Chain-nonzero f i (r ∷ ps) ((e, o), c) = let ih = Chain-nonzero f (f r).next ps c in ground (arith)

member-Users :
    (ok : ℕ → ℕ → Bool) (f : ℕ → PageMap) (q : ℕ) (ps : List ℕ)
    → Users ok f ps
    → member q ps ≡ true
    → (in_user (f q).va ≡ true) × (ok (f q).va (f q).pa ≡ true)
unfolding member
member-Users ok f q [] u m = absurd (cc)
member-Users ok f q (r ∷ ps) (e, u) m = elim (Bool-cases (q == r)) [
  | inl h ↦ let z : q ≡ r = ground (arith) in rw z e
  | inr h ↦ member-Users ok f q ps u (ground (arith))
]

page_of-member :
    (f : ℕ → PageMap) (p va : ℕ) (ps : List ℕ) → page_of f ps va ≡ some p → member p ps ≡ true
unfolding page_of member
page_of-member f p va [] e = absurd (cc)
page_of-member f p va (r ∷ ps) e = let ih = page_of-member f p va ps in ground (arith, ih)

module _ {T : Type 0} where
  -- Either loop of __am_switch is still in a ring after any number of rounds.
  map_all-Ring :
      (fuel : ℕ) (s : Vm T) (p : ℕ) (ps : List ℕ)
      → Ring s.accepts s.pages ps
      → member p ps ≡ true
      → map_all fuel s p ≡ spinning
  unfolding map_all
  map_all-Ring zero s p ps r m = refl
  map_all-Ring (suc fuel) s p ps r m =
      let z = member-nonzero p ps r.nonzero m in
      let k = page_mapped-Keeps s p in
      let next : Ring (page_mapped s p).accepts (page_mapped s p).pages ps =
        rw k.accepts (Same-Ring k.same ps r) in
      rw (z, r.user p m, map_page_lem s p (r.taken p m))
        (map_all-Ring fuel (page_mapped s p) (s.pages p).next ps next (r.next p m))

  unmap_all-Ring :
      (fuel : ℕ) (s : Vm T) (p : ℕ) (ps : List ℕ)
      → Ring s.accepts s.pages ps
      → member p ps ≡ true
      → unmap_all fuel s p ≡ spinning
  unfolding unmap_all
  unmap_all-Ring zero s p ps r m = refl
  unmap_all-Ring (suc fuel) s p ps r m =
      let z = member-nonzero p ps r.nonzero m in
      let k = unmap_page-Keeps s p in
      let next : Ring (unmap_page s p).accepts (unmap_page s p).pages ps =
        rw k.accepts (Same-Ring k.same ps r) in
      simp (z) (unmap_all-Ring fuel (unmap_page s p) (s.pages p).next ps next (r.next p m))

  -- What the first loop leaves alone.
  unmap_all-Keeps : (fuel : ℕ) (s t : Vm T) (p : ℕ) → unmap_all fuel s p ≡ done t → Keeps s t
  unfolding unmap_all
  unmap_all-Keeps zero s t p e = absurd (cc)
  unmap_all-Keeps (suc fuel) s t p e = elim (Bool-cases (p == 0)) [
    | inl z ↦ let g : s ≡ t = ground (arith) in subst (λ u. Keeps s u) g (Keeps-refl s)
    | inr z ↦
        let g : unmap_all fuel (unmap_page s p) (s.pages p).next ≡ done t = ground (arith) in
        Keeps-trans (unmap_page-Keeps s p)
          (unmap_all-Keeps fuel (unmap_page s p) t (s.pages p).next g)
  ]

  -- A page of the list that is added once more closes a ring.
  page_added-Ring :
      (s : Vm T) (h p va pa prot : ℕ) (ps : List ℕ)
      → Chain s.pages (s.heads h).head ps
      → Users s.accepts s.pages ps
      → member p ps ≡ true
      → in_user va ≡ true
      → s.accepts va pa ≡ true
      → Ring s.accepts (page_added s h p va pa prot).pages (upto p ps)
  page_added-Ring s h p va pa prot ps c u m a ok = record {
    next = λ q n. elim (Bool-cases (q == p)) [
      | inl e ↦
          let z : q ≡ p = ground (arith) in
          rw z (rw (page_added-page s h p va pa prot) (upto-head s.pages p (s.heads h).head ps c m))
      | inr e ↦
          rw (page_added-Apart s h p va pa prot q e)
            (upto-next s.pages p q (s.heads h).head ps c m n e)
    ];
    user = λ q n. elim (Bool-cases (q == p)) [
      | inl e ↦ let z : q ≡ p = ground (arith) in rw z (rw (page_added-page s h p va pa prot) a)
      | inr e ↦
          rw (page_added-Apart s h p va pa prot q e)
            ((member-Users s.accepts s.pages q ps u (upto-member p q ps n)).0)
    ];
    taken = λ q n. elim (Bool-cases (q == p)) [
      | inl e ↦ let z : q ≡ p = ground (arith) in rw z (rw (page_added-page s h p va pa prot) ok)
      | inr e ↦
          rw (page_added-Apart s h p va pa prot q e)
            ((member-Users s.accepts s.pages q ps u (upto-member p q ps n)).1)
    ];
    nonzero = ground (arith, upto-member p 0 ps, Chain-nonzero s.pages (s.heads h).head ps c);
  }

  -- The first loop never returns from a ring of the space that ran, nor the second from one of the
  -- space that is going to.
  from_Ring :
      (fuel : ℕ) (t : Vm T) (g : ℕ) (ps : List ℕ)
      → t.vme_enable ≡ true
      → t.current ≢ 0
      → g ≢ t.current
      → Ring t.accepts t.pages ps
      → member (t.heads t.current).head ps ≡ true
      → am_switch fuel t g ≡ spinning
  unfolding am_switch
  from_Ring fuel t g ps v n d r m =
      let w = unmap_all-Ring fuel t (t.heads t.current).head ps r m in
      let i : (g == t.current) ≡ false = ground (arith) in
      let j : (t.current != 0) ≡ true = ground (arith) in simp (v, i, j, w) refl

  and_then-done :
      (r : Answer (Vm T)) (k : Vm T → Answer (Vm T)) (u : Vm T)
      → and_then r k ≡ done u
      → (t : Vm T) × ((r ≡ done t) × (k t ≡ done u))
  and_then-done (done t) k u e = (t, (refl, e))
  and_then-done asserted k u e = absurd (cc)
  and_then-done spinning k u e = absurd (cc)

  left-Keeps :
      (fuel : ℕ) (s t : Vm T)
      → (if s.current != 0 then unmap_all fuel s (s.heads s.current).head else done s) ≡ done t
      → Keeps s t
  left-Keeps fuel s t e = elim (Bool-cases (s.current != 0)) [
    | inl i ↦ unmap_all-Keeps fuel s t (s.heads s.current).head (ground (arith))
    | inr i ↦ let g : s ≡ t = ground (arith) in subst (λ u. Keeps s u) g (Keeps-refl s)
  ]

  to_Ring :
      (fuel : ℕ) (t u : Vm T) (h : ℕ) (ps : List ℕ)
      → t.vme_enable ≡ true
      → h ≢ 0
      → h ≢ t.current
      → Ring t.accepts t.pages ps
      → member (t.heads h).head ps ≡ true
      → am_switch fuel t h ≢ done u
  unfolding am_switch
  to_Ring fuel t u h ps v n d r m e =
      let i : (h == t.current) ≡ false = ground (arith) in
      let j : (h != 0) ≡ true = ground (arith) in
      let k0 = λ (y : Vm T).
        and_then (if h != 0 then map_all fuel y (y.heads h).head else done y)
          (λ (z : Vm T). done (record z { current = h })) in
      let first = if t.current != 0 then unmap_all fuel t (t.heads t.current).head else done t in
      let stepped : am_switch fuel t h ≡ and_then first k0 = simp (v, i) refl in
      let (w, (left, right)) = and_then-done first k0 u (sym stepped ∙ e) in
      let k = left-Keeps fuel t w left in
      let o : member (w.heads h).head ps ≡ true = rw (k.heads) m in
      let ring : Ring w.accepts w.pages ps = rw k.accepts (Same-Ring k.same ps r) in
      let q = map_all-Ring fuel w (w.heads h).head ps ring o in
      let last : k0 w ≡ spinning = simp (j, q) refl in let clash = sym last ∙ right in absurd (cc)

  find_page-found :
      (find : T → ℕ → Option ℕ) (enter : T → ℕ → ℕ → Option T) (s : Vm T) (h fresh p va : ℕ)
      → (va % 2 ^ 32) ≡ va
      → find (s.heads h).hash va ≡ some p
      → find_page find enter s h fresh va ≡ some (p, s)
  unfolding find_page
  find_page-found find enter s h fresh p va k f = rw (k, find_page) (rw (f, find_page) refl)

  -- map of an aligned user address that the space has already, with a physical one that mmap takes
  -- with it, returns and makes a ring of the list: in the state that it leaves, if the space does
  -- not run, __am_switch to it does not return, whatever the fuel; and if the space runs,
  -- __am_switch to any other one is in its first loop for ever.
  pub map-spinning :
      (find : T → ℕ → Option ℕ) (enter : T → ℕ → ℕ → Option T) (pgsize : ℕ) (s : Vm T)
      (h fresh p va pa prot : ℕ) (ps : List ℕ)
      → in_user va ≡ true
      → va % pgsize ≡ 0
      → pa % pgsize ≡ 0
      → h ≢ 0
      → Space s h ps
      → Indexed find enter s h ps
      → page_of s.pages ps va ≡ some p
      → s.vme_enable ≡ true
      → s.accepts va pa ≡ true
      → (t : Vm T) × ((map find enter pgsize s h fresh va pa prot ≡ done t)
          × ((h ≢ s.current → (fuel : ℕ) (u : Vm T) → am_switch fuel t h ≢ done u)
              × (h ≡ s.current → (g : ℕ) → g ≢ h → (fuel : ℕ) → am_switch fuel t g ≡ spinning)))
  unfolding map
  map-spinning find enter pgsize s h fresh p va pa prot ps a b c n x i f v ok =
      let z : (h == 0) ≡ false = ground (arith) in
      let k = in_user-key va a in
      let l = i va ∙ f in
      let found = find_page-found find enter s h fresh p va k l in
      let t = page_added s h p va pa prot in
      let m = page_of-member s.pages p va ps f in
      let r : Ring t.accepts t.pages (upto p ps) =
        rw (page_added-accepts s h p va pa prot)
          (page_added-Ring s h p va pa prot ps (x.listed n) x.users m a ok) in
      let w = page_added-vme_enable s h p va pa prot ∙ v in
      let y = page_added-current s h p va pa prot in
      let o : member (t.heads h).head (upto p ps) ≡ true =
        rw (page_added-head s h p va pa prot h) (rw (self h) (upto_self p ps m)) in
      (
        t,
        (
          simp (a, b, c, z, found) (add_page_lem s h p va pa prot ok),
          (
            (λ d fuel u. to_Ring fuel t u h (upto p ps) w n (λ e. d (e ∙ y)) r o),
            (λ e g d fuel.
                from_Ring fuel t g (upto p ps) w (λ q. n (e ∙ (sym y ∙ q)))
                  (λ q. d (q ∙ (y ∙ sym e))) r
                  (subst (λ j. member (t.heads j).head (upto p ps) ≡ true) (e ∙ sym y) o)),
          ),
        ),
      )
