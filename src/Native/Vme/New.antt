-- ===== src/Native/Vme/New.antt =====
-- am/src/native/vme.c: map at an address that the space does not have yet, with the hash table.
use mathlib.Core.Path.{subst}
use abstract_machine.Base.{
  ℕ, ◌+◌, ◌%◌, ◌^◌, true, false, Option, none, some, List, [], ◌∷◌, ◌≡◌, ◌≢◌, refl, sym, ◌∙◌, ap,
  ◌==◌, if◌then◌else◌, arith,
}
use abstract_machine.Native.Answer.{done}
use abstract_machine.Native.Vme.{
  PageMap, VmHead, Vm, put, mmap_prot, in_user, find_page, map, protect,
}
use abstract_machine.Native.Vme.Chain.{Chain, lookup, page_of, member}
use abstract_machine.Native.Vme.Run.{Space, Runs}
use abstract_machine.Native.Vme.Map.{
  page_added-Space, page_added-others, page_added-Runs, page_added-hash, lookup-page_added,
  page_of-page_added, self, page_added, add_page_lem,
}

-- A new key has the value that is entered, and the others keep theirs.
abbrev pub Enters : {T : Type 0} → (T → ℕ → Option ℕ) → (T → ℕ → ℕ → Option T) → Type 0
Enters {T} find enter =
    (t u : T) (k p : ℕ)
    → find t k ≡ none
    → enter t k p ≡ some u
    → (j : ℕ) → find u j ≡ (if j == k then some p else find t j)

page_of-lookup :
    (f : ℕ → PageMap) (ps : List ℕ) (va : ℕ) → lookup f ps va ≡ none → page_of f ps va ≡ none
unfolding lookup page_of
page_of-lookup f [] va l = refl
page_of-lookup f (q ∷ ps) va l = let ih = page_of-lookup f ps va in ground (arith, ih)

-- An address of user programs is its own key.
pub in_user-key : (va : ℕ) → in_user va ≡ true → (va % 2 ^ 32) ≡ va
in_user-key va u = ground (arith)

module _ {T : Type 0} (find : T → ℕ → Option ℕ) (enter : T → ℕ → ℕ → Option T) where
  -- The table of the space gives the page of each address.
  abbrev pub Indexed : Vm T → ℕ → List ℕ → Type 0
  Indexed s h ps = (k : ℕ) → find (s.heads h).hash k ≡ page_of s.pages ps k

  pub entered : Vm T → ℕ → T → Vm T
  entered s h u = record s {
    heads = put s.heads h (record (s.heads h) { hash = u; nr_page = (s.heads h).nr_page + 1 });
  }

  entered-head :
      (s : Vm T) (h : ℕ) (u : T) (i : ℕ) → ((entered s h u).heads i).head ≡ (s.heads i).head
  unfolding entered
  entered-head s h u i = ground (arith)

  pub entered-hash : (s : Vm T) (h : ℕ) (u : T) → ((entered s h u).heads h).hash ≡ u
  unfolding entered
  entered-hash s h u = ground (arith)

  pub entered-others :
      (s : Vm T) (h : ℕ) (u : T) (i : ℕ) → i ≢ h → (entered s h u).heads i ≡ s.heads i
  unfolding entered
  entered-others s h u i n = ground (arith)

  pub entered-same :
      (s : Vm T) (h : ℕ) (u : T)
      → ((entered s h u).pages ≡ s.pages)
        × (((entered s h u).current ≡ s.current) × ((entered s h u).vme_enable ≡ s.vme_enable))
  unfolding entered
  entered-same s h u = (refl, (refl, refl))

  pub entered-accepts : (s : Vm T) (h : ℕ) (u : T) → (entered s h u).accepts ≡ s.accepts
  unfolding entered
  entered-accepts s h u = refl

  pub entered-Runs : (s : Vm T) (h : ℕ) (u : T) (ps : List ℕ) → Runs s ps → Runs (entered s h u) ps
  unfolding entered
  entered-Runs s h u ps r = record { mapped = r.mapped; host = r.host }

  pub entered-Space :
      (s : Vm T) (h : ℕ) (u : T) (i : ℕ) (ps : List ℕ) → Space s i ps → Space (entered s h u) i ps
  unfolding entered
  entered-Space s h u i ps x = record {
    listed = λ n. rw (entered-head s h u i) (x.listed n);
    empty = x.empty;
    users = x.users;
    distinct = x.distinct;
  }

  find_page-enters :
      (s : Vm T) (h fresh va : ℕ) (u : T)
      → (va % 2 ^ 32) ≡ va
      → find (s.heads h).hash va ≡ none
      → enter (s.heads h).hash va fresh ≡ some u
      → find_page find enter s h fresh va ≡ some (fresh, entered s h u)
  unfolding find_page entered
  find_page-enters s h fresh va u k f e = rw (k, find_page) (rw (f, find_page) (rw (k, e) refl))

  pub map_lem :
      (pgsize : ℕ) (s : Vm T) (h fresh va pa prot : ℕ) (ps : List ℕ) (u : T)
      → in_user va ≡ true
      → va % pgsize ≡ 0
      → pa % pgsize ≡ 0
      → h ≢ 0
      → Indexed s h ps
      → lookup s.pages ps va ≡ none
      → enter (s.heads h).hash va fresh ≡ some u
      → s.accepts va pa ≡ true
      → map find enter pgsize s h fresh va pa prot
        ≡ done (page_added (entered s h u) h fresh va pa prot)
  unfolding map
  map_lem pgsize s h fresh va pa prot ps u a b c n i l e ok =
      let k =
        find_page-enters s h fresh va u (in_user-key va a) (i va ∙ page_of-lookup s.pages ps va l)
          e in
      let z : (h == 0) ≡ false = ground (arith) in
      let w = entered s h u in
      let taken : w.accepts va pa ≡ true = rw (entered-accepts s h u) ok in
      simp (a, b, c, z, k) (add_page_lem w h fresh va pa prot taken)

  -- Where pgalloc returns an address that is not 0 and not in the list, the table takes the key,
  -- and mmap takes the address with the physical one, map of an aligned user address that the space
  -- does not have returns; the page is first in the list, the table gives the page of every
  -- address, the space says the new entry at the address and what it said elsewhere, other spaces
  -- without the new page keep their lists, and the host has exactly the pages of the running space, the new one with them where it is the one
  -- that runs. A key that is entered has its value, and the other keys keep theirs.
  pub map-Space :
      Enters find enter
      → (pgsize : ℕ) (s : Vm T) (h fresh va pa prot : ℕ) (ps : List ℕ) (u : T) → in_user va ≡ true
      → va % pgsize ≡ 0
      → pa % pgsize ≡ 0
      → h ≢ 0
      → Space s h ps
      → Indexed s h ps
      → lookup s.pages ps va ≡ none
      → fresh ≢ 0
      → member fresh ps ≡ false
      → enter (s.heads h).hash va fresh ≡ some u
      → s.accepts va pa ≡ true
      → (t : Vm T) × ((map find enter pgsize s h fresh va pa prot ≡ done t)
          × ((Space t h (fresh ∷ ps) × Indexed t h (fresh ∷ ps))
              × (((x : ℕ)
                    → lookup t.pages (fresh ∷ ps) x
                      ≡ (if x == va then some (pa, mmap_prot prot) else lookup s.pages ps x))
                  × (((i : ℕ) (qs : List ℕ)
                        → i ≢ h
                        → member fresh qs ≡ false
                        → Space s i qs
                        → Space t i qs)
                      × ((qs : List ℕ)
                          → member fresh qs ≡ false
                          → Runs s qs
                          → Runs t (if h == s.current then fresh ∷ qs else qs))))))
  unfolding entered
  map-Space law pgsize s h fresh va pa prot ps u a b c n x i l m o e ok =
      let w = entered s h u in
      let f : find (s.heads h).hash va ≡ none = i va ∙ page_of-lookup s.pages ps va l in
      let indexed = λ (k : ℕ).
        ap (λ (j : T). find j k) (page_added-hash w h fresh va pa prot h ∙ entered-hash s h u)
        ∙ law (s.heads h).hash u va fresh f e k
        ∙ (rw (i k) (sym (page_of-page_added w h fresh va pa prot ps k o))) in
      (
        page_added w h fresh va pa prot,
        (
          map_lem pgsize s h fresh va pa prot ps u a b c n i l e ok,
          (
            (
              page_added-Space w h fresh va pa prot ps (entered-Space s h u h ps x) n m o a ok l,
              λ k. indexed k,
            ),
            (
              (λ k. lookup-page_added w h fresh va pa prot ps k o),
              (
                (λ j qs d g y.
                    page_added-others w h fresh va pa prot j qs d g (entered-Space s h u j qs y)),
                (λ qs g r.
                    page_added-Runs w h fresh va pa prot qs
                      (record { mapped = r.mapped; host = r.host }) g),
              ),
            ),
          ),
        ),
      )

  -- protect, where pgalloc returns an address and hcreate_r an empty table, returns with a new space
  -- that has no page, and leaves the other spaces and the host as they were.
  pub protect-Space :
      (s : Vm T) (fresh : ℕ) (table : T)
      → fresh ≢ 0
      → ((k : ℕ) → find table k ≡ none)
      → (t : Vm T) × ((protect s fresh table ≡ done t)
          × ((Space t fresh [] × Indexed t fresh [])
              × (((i : ℕ) (ps : List ℕ) → i ≢ fresh → Space s i ps → Space t i ps)
                  × ((ps : List ℕ) → Runs s ps → Runs t ps))))
  unfolding protect page_of
  protect-Space s fresh table n e =
      let z : (fresh == 0) ≡ false = ground (arith) in
      let head : VmHead T = record { head = 0; hash = table; nr_page = 0 } in
      let t : Vm T = record s { heads = put s.heads fresh head } in
      let there : t.heads fresh ≡ head = rw (self fresh) refl in
      let apart : (i : ℕ) → i ≢ fresh → t.heads i ≡ s.heads i = λ i d. ground (arith) in
      (
        t,
        (
          simp z refl,
          (
            (
              record {
                listed = λ d. ap (λ (g : VmHead T). g.head) there;
                empty = λ d. refl;
                users = tt;
                distinct = tt;
              },
              λ k. ap (λ (g : VmHead T). find g.hash k) there ∙ e k,
            ),
            (
              (λ i ps d x. record {
                listed = λ y.
                    subst (λ (g : VmHead T). Chain s.pages g.head ps) (sym (apart i d))
                      (x.listed y);
                empty = x.empty;
                users = x.users;
                distinct = x.distinct;
              }),
              (λ ps r. record { mapped = r.mapped; host = r.host }),
            ),
          ),
        ),
      )
