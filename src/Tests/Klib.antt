-- ===== src/Tests/Klib.antt =====
-- Memory with "abc" at 100 and "abd" at 200, for the routines of klib.
use abstract_machine.Base.{
  ℕ, zero, suc, ◌-◌, ◌≡◌, inr, if◌then◌else◌, List, [], ◌∷◌, ◌++◌, some, refl, arith,
}
use abstract_machine.Base.Int.{negsuc}
use abstract_machine.Klib.Memory.{Mem, store, within, StrAt}
use abstract_machine.Klib.String.{
  find_end, strlen, strncpy, strcat, strcmp, strncmp, memmove, copy_down, strrchr, strrchr_loop,
}
use abstract_machine.Klib.String.Block.{memmove-copied}
use abstract_machine.Klib.String.Copy.{Written, strcat-Written, strncpy-padded}
use abstract_machine.Klib.String.Compare.{
  first_difference, strcmp-first_difference, strncmp-first_difference,
}

abbrev abc : List ℕ
abc = b'a' ∷ b'b' ∷ b'c' ∷ []

abbrev abd : List ℕ
abd = b'a' ∷ b'b' ∷ b'd' ∷ []

abbrev byte_of : List ℕ → ℕ → ℕ
byte_of [] i = 0
byte_of (x ∷ xs) zero = x
byte_of (x ∷ xs) (suc i) = byte_of xs i

abbrev mem : Mem
mem a =
    if within a 100 3
    then byte_of abc (a - 100)
    else if within a 200 3
    then byte_of abd (a - 200)
    else 0

abc_at : StrAt mem 100 abc
abc_at = ground arith

abd_at : StrAt mem 200 abd
abd_at = ground arith

strlen_run : strlen 10 mem 100 ≡ some 3
unfolding strlen find_end
strlen_run = refl

memmove_overlap_run : (memmove mem 101 100 3).1 103 ≡ b'c'
unfolding memmove copy_down store
memmove_overlap_run = refl

strcmp_run : strcmp 10 mem 100 200 ≡ some (negsuc 0)
unfolding strcmp
strcmp_run = refl

strrchr_run : strrchr 10 mem 100 b'b' ≡ some 101
unfolding strrchr strlen find_end strrchr_loop
strrchr_run = refl

memmove-copied_example : ((memmove mem 101 100 3).0 ≡ 101) × ((memmove mem 101 100 3).1 103 ≡ b'c')
memmove-copied_example = memmove-copied mem 101 100 3 103

strcat-Written_example :
    (m' : Mem) × (strcat 10 mem 200 100 ≡ some (200, m')) × Written mem 200 (abd ++ abc) 203 4 m'
strcat-Written_example =
    strcat-Written 10 mem 200 100 abd abc abd_at abc_at (inr (omega arith)) (omega arith)
      (omega arith)

strncpy-padded_example : ((strncpy mem 300 100 5).0 ≡ 300) × ((strncpy mem 300 100 5).1 304 ≡ 0)
strncpy-padded_example = strncpy-padded mem 300 100 5 abc 304 abc_at (inr (omega arith))

strncmp-first_difference_example : strncmp mem 100 200 3 ≡ negsuc 0
unfolding first_difference
strncmp-first_difference_example = strncmp-first_difference mem 100 200 3 abc abd abc_at abd_at

strcmp-first_difference_example : strcmp 10 mem 100 200 ≡ some (negsuc 0)
unfolding first_difference
strcmp-first_difference_example =
    strcmp-first_difference 10 mem 100 200 abc abd abc_at abd_at (omega arith)
