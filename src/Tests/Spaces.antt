-- ===== src/Tests/Spaces.antt =====
-- A space of the native platform that is made, entered and given a page.
use abstract_machine.Base.{
  ℕ, ◌<◌, Bool, true, false, none, List, [], ◌∷◌, ◌≡◌, ◌⊎◌, inr, refl, arith,
}
use abstract_machine.Base.Lists.{length}
use abstract_machine.Native.Answer.{Answer, done}
use abstract_machine.Native.Vme.{
  Vm, put, am_switch, protect, map, unmap_all, map_all, find_page, add_page, pmem_map, map_page,
}
use abstract_machine.Native.Vme.Chain.{lookup, member}
use abstract_machine.Native.Vme.Run.{Space, Runs}
use abstract_machine.Native.Vme.New.{Indexed}
use abstract_machine.Native.Vme.Reach.{Reach, booted, protects, maps, switches, Reach-Runs}
use abstract_machine.Tests.Native.{accepts, find, enter, enters}

abbrev Table : Type 0
Table = List (ℕ × ℕ)

abbrev start : Vm Table
start = record {
  pages = λ p. record { va = 0; pa = 0; next = 0; prot = 0; is_mapped = false };
  heads = λ h. record { head = 0; hash = []; nr_page = 0 };
  host = λ va. none;
  accepts = accepts;
  current = 0;
  vme_enable = true;
}

unfoldable answer : Answer (Vm Table) → Vm Table
answer (done s) = s
answer r = start

abbrev made : Vm Table
made = answer (protect start 0x100 [])

abbrev entered : Vm Table
entered = answer (am_switch 1 made 0x100)

abbrev filled : Vm Table
filled = answer (map find enter 4096 entered 0x100 0x3000 0x40002000 0x1007000 1)

abbrev lists : ℕ → List ℕ
lists = put (λ h. []) 0x100 (0x3000 ∷ [])

abbrev live : ℕ → Bool
live = put (λ h. false) 0x100 true

filled-Reach : Reach find enter 4096 filled lists live
unfolding protect answer am_switch unmap_all map_all find enter find_page add_page map lookup member
    pmem_map map_page
filled-Reach =
    maps {s = entered} 0x100 0x3000 0x40002000 0x1007000 1 ((0x40002000, 0x3000) ∷ []) refl refl
      refl refl refl (omega arith) (λ i. refl) refl refl refl
      (switches {s = made} 0x100 1 (inr refl) (omega arith) (omega arith) refl (
        protects {s = start} 0x100 [] (omega arith) refl (λ k. refl) refl
          (booted {s = start} refl refl (λ va. refl))))

Reach-Runs_example :
    Runs filled (lists filled.current)
    × (((h : ℕ) → live h ≡ true → Space filled h (lists h) × Indexed find enter filled h (lists h))
        × ((h fuel : ℕ)
            → (h ≡ 0) ⊎ (live h ≡ true)
            → length (lists filled.current) < fuel
            → length (lists h) < fuel
            → (t : Vm Table) × (am_switch fuel filled h ≡ done t)))
Reach-Runs_example = Reach-Runs find enter 4096 enters filled-Reach
