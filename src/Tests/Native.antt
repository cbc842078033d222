-- ===== src/Tests/Native.antt =====
-- Two address spaces of the native platform with a page each, of which one runs.
use abstract_machine.Base.{
  ◌%◌, ◌&&◌, Bool, leb, ltb, ℕ, ◌+◌, true, false, Option, none, some, List, [], ◌∷◌, ◌≡◌, ◌≢◌, refl,
  arith, ◌==◌, if◌then◌else◌,
}
use abstract_machine.Native.Answer.{done, spinning}
use abstract_machine.Native.Vme.{PageMap, VmHead, Vm, mmap_prot, am_switch, map}
use abstract_machine.Native.Vme.Chain.{lookup, page_of, member}
use abstract_machine.Native.Vme.Run.{Space, Runs, am_switch-Runs}
use abstract_machine.Native.Vme.New.{Enters, Indexed, map-Space}
use abstract_machine.Native.Vme.Again.{map-spinning}

unfoldable pub find : List (ℕ × ℕ) → ℕ → Option ℕ
find [] k = none
find ((j, p) ∷ t) k = if k == j then some p else find t k

unfoldable pub enter : List (ℕ × ℕ) → ℕ → ℕ → Option (List (ℕ × ℕ))
enter t k p = some ((k, p) ∷ t)

pub enters : Enters find enter
unfolding find enter
enters t u k p e g j = let w : u ≡ ((k, p) ∷ t) = cc in rw w refl

abbrev pages : ℕ → PageMap
pages p = record {
  va = if p == 0x1000 then 0x40000000 else 0x40001000;
  pa = p + 0x1000000;
  next = 0;
  prot = 3;
  is_mapped = p == 0x1000;
}

abbrev heads : ℕ → VmHead (List (ℕ × ℕ))
heads h = record {
  head = if h == 0x100 then 0x1000 else 0x2000;
  hash = (if h == 0x100 then (0x40000000, 0x1000) else (0x40001000, 0x2000)) ∷ [];
  nr_page = 1;
}

-- mmap takes the pages of the memory file, which is 128 MiB from pmem on.
abbrev pub accepts : ℕ → ℕ → Bool
accepts va pa = va % 4096 == 0 && pa % 4096 == 0 && leb 0x1000000 pa && ltb pa 0x9000000

abbrev machine : Vm (List (ℕ × ℕ))
machine = record {
  pages = pages;
  heads = heads;
  host = λ va. if va == 0x40000000 then some (0x1001000, 7) else none;
  accepts = accepts;
  current = 0x100;
  vme_enable = true;
}

first-Space : Space machine 0x100 (0x1000 ∷ [])
unfolding lookup
first-Space = record {
  listed = λ n. ((refl, omega arith), refl);
  empty = λ e. absurd (omega arith);
  users = ((refl, refl), tt);
  distinct = (refl, tt);
}

second-Space : Space machine 0x200 (0x2000 ∷ [])
unfolding lookup
second-Space = record {
  listed = λ n. ((refl, omega arith), refl);
  empty = λ e. absurd (omega arith);
  users = ((refl, refl), tt);
  distinct = (refl, tt);
}

first-Runs : Runs machine (0x1000 ∷ [])
unfolding lookup mmap_prot
first-Runs = record { mapped = (refl, tt); host = λ va. ground (arith) }

second-Indexed : Indexed find enter machine 0x200 (0x2000 ∷ [])
unfolding find page_of
second-Indexed k = ground (arith)

first-Indexed : Indexed find enter machine 0x100 (0x1000 ∷ [])
unfolding find page_of
first-Indexed k = ground (arith)

unlisted : lookup machine.pages (0x1000 ∷ []) 0x40002000 ≡ none
unfolding lookup
unlisted = refl

found : page_of machine.pages (0x2000 ∷ []) 0x40001000 ≡ some 0x2000
unfolding page_of
found = refl

am_switch-Runs_example :
    (t : Vm (List (ℕ × ℕ))) × ((am_switch 2 machine 0x200 ≡ done t)
      × ((t.current ≡ 0x200)
          × (Runs t (0x2000 ∷ []) × ((i : ℕ) (ps : List ℕ) → Space machine i ps → Space t i ps))))
am_switch-Runs_example =
    am_switch-Runs 2 machine 0x200 (0x1000 ∷ []) (0x2000 ∷ []) refl first-Space first-Runs
      second-Space (omega arith) (omega arith)

map-Space_example :
    (t : Vm (List (ℕ × ℕ))) × ((map find enter 4096 machine 0x100 0x3000 0x40002000 0x1007000 1
        ≡ done t)
      × ((Space t 0x100 (0x3000 ∷ 0x1000 ∷ []) × Indexed find enter t 0x100 (0x3000 ∷ 0x1000 ∷ []))
          × (((x : ℕ)
                → lookup t.pages (0x3000 ∷ 0x1000 ∷ []) x ≡ (
                    if x == 0x40002000
                    then some (0x1007000, mmap_prot 1)
                    else lookup machine.pages (0x1000 ∷ []) x))
              × (((i : ℕ) (qs : List ℕ)
                    → i ≢ 0x100
                    → member 0x3000 qs ≡ false
                    → Space machine i qs
                    → Space t i qs)
                  × ((qs : List ℕ)
                      → member 0x3000 qs ≡ false
                      → Runs machine qs
                      → Runs t (if 0x100 == machine.current then 0x3000 ∷ qs else qs))))))
unfolding member enter
map-Space_example =
    map-Space find enter enters 4096 machine 0x100 0x3000 0x40002000 0x1007000 1 (0x1000 ∷ [])
      ((0x40002000, 0x3000) ∷ (0x40000000, 0x1000) ∷ []) refl refl refl (omega arith) first-Space
      first-Indexed unlisted (omega arith) refl refl refl

map-spinning_example :
    (t : Vm (List (ℕ × ℕ))) × ((map find enter 4096 machine 0x200 0x3000 0x40001000 0x1007000 1
        ≡ done t)
      × ((0x200 ≢ machine.current
            → (fuel : ℕ) (u : Vm (List (ℕ × ℕ))) → am_switch fuel t 0x200 ≢ done u)
          × (0x200 ≡ machine.current
              → (g : ℕ) → g ≢ 0x200
              → (fuel : ℕ) → am_switch fuel t g ≡ spinning)))
map-spinning_example =
    map-spinning find enter 4096 machine 0x200 0x3000 0x2000 0x40001000 0x1007000 1 (0x2000 ∷ [])
      refl refl refl (omega arith) second-Space second-Indexed found refl refl
