-- ===== src/Native/Vme/Reach.antt =====
-- am/src/native/vme.c: any sequence of protect, map at new addresses, and __am_switch.
use abstract_machine.Base.{
  ℕ, ◌<◌, ◌%◌, Bool, true, false, Option, none, some, List, [], ◌∷◌, ◌≡◌, ◌≢◌, ◌⊎◌,
}
use abstract_machine.Base.Lists.{length}
use abstract_machine.Native.Answer.{done}
use abstract_machine.Native.Vme.{Vm, put, in_user, protect, map, am_switch}
use abstract_machine.Native.Vme.Chain.{lookup, member}
use abstract_machine.Native.Vme.Run.{Space, Runs, am_switch_lem}
use abstract_machine.Native.Vme.New.{Enters, Indexed}
use abstract_machine.Native.Vme.Good.{Good, Good-Space, booted-Good, switches-Good, protects-Good}
use abstract_machine.Native.Vme.Grow.{maps-Good}

module _ {T : Type 0} (find : T → ℕ → Option ℕ) (enter : T → ℕ → ℕ → Option T) (pgsize : ℕ) where
  -- The states after a sequence of calls that succeed, with the list of each space, and which heads
  -- are spaces. pgalloc returns what is not in use.
  pub data Reach : Vm T → (ℕ → List ℕ) → (ℕ → Bool) → Type 0 where
    booted :
        {s : Vm T}
        → s.vme_enable ≡ true
        → s.current ≡ 0
        → ((va : ℕ) → s.host va ≡ none)
        → Reach s (λ h. []) (λ h. false)
    protects :
        {s t : Vm T} {lists : ℕ → List ℕ} {live : ℕ → Bool}
        → (fresh : ℕ) (table : T) → fresh ≢ 0
        → live fresh ≡ false
        → ((k : ℕ) → find table k ≡ none)
        → protect s fresh table ≡ done t
        → Reach s lists live
        → Reach t lists (put live fresh true)
    maps :
        {s t : Vm T} {lists : ℕ → List ℕ} {live : ℕ → Bool}
        → (h fresh va pa prot : ℕ) (u : T) → live h ≡ true
        → in_user va ≡ true
        → va % pgsize ≡ 0
        → pa % pgsize ≡ 0
        → lookup s.pages (lists h) va ≡ none
        → fresh ≢ 0
        → ((i : ℕ) → member fresh (lists i) ≡ false)
        → enter (s.heads h).hash va fresh ≡ some u
        → s.accepts va pa ≡ true
        → map find enter pgsize s h fresh va pa prot ≡ done t
        → Reach s lists live
        → Reach t (put lists h (fresh ∷ lists h)) live
    switches :
        {s t : Vm T} {lists : ℕ → List ℕ} {live : ℕ → Bool}
        → (h fuel : ℕ) → (h ≡ 0) ⊎ (live h ≡ true)
        → length (lists s.current) < fuel
        → length (lists h) < fuel
        → am_switch fuel s h ≡ done t
        → Reach s lists live
        → Reach t lists live

  Reach-Good :
      Enters find enter
      → {s : Vm T} {lists : ℕ → List ℕ} {live : ℕ → Bool} → Reach s lists live
      → Good find enter s lists live
  Reach-Good law (booted v c h) = booted-Good find enter v c h
  Reach-Good law (protects fresh table n l k e r) =
      protects-Good find enter fresh table n l k e (Reach-Good law r)
  Reach-Good law (maps h fresh va pa prot u l a b c k m o e ok d r) =
      maps-Good find enter pgsize law h fresh va pa prot u l a b c k m o e ok d (Reach-Good law r)
  Reach-Good law (switches h fuel l x y e r) =
      switches-Good find enter h fuel l x y e (Reach-Good law r)

  -- After any sequence of protect, of map at addresses that the space does not have, and of
  -- __am_switch, from a start with no space and nothing on the host: each space is the list of the
  -- pages that were mapped in it, each for an address of user programs and no two for one address;
  -- its table gives the page of each address; the host has exactly the pages of the space that
  -- runs, and none where none runs; and __am_switch to any space, or to none, returns when its fuel
  -- is more than the pages of both. pgalloc never returns 0 or what is in use, hcreate_r gives an
  -- empty table, the table takes each key and keeps the others, and mmap takes what is mapped.
  pub Reach-Runs :
      Enters find enter
      → {s : Vm T} {lists : ℕ → List ℕ} {live : ℕ → Bool} → Reach s lists live
      → Runs s (lists s.current)
        × (((h : ℕ) → live h ≡ true → Space s h (lists h) × Indexed find enter s h (lists h))
            × ((h fuel : ℕ)
                → (h ≡ 0) ⊎ (live h ≡ true)
                → length (lists s.current) < fuel
                → length (lists h) < fuel
                → (t : Vm T) × (am_switch fuel s h ≡ done t)))
  Reach-Runs law {s} {lists} r =
      let g = Reach-Good law r in
      (
        g.runs,
        (
          (λ h l. (g.space h l, g.indexed h l)),
          (λ h fuel l x y.
              let (t, (e, rest)) =
                am_switch_lem fuel s h (lists s.current) (lists h) g.enabled
                  (Good-Space find enter g s.current g.here) g.runs (Good-Space find enter g h l) x
                  y in
              (t, e)),
        ),
      )
