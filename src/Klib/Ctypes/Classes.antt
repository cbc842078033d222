-- ===== src/Klib/Ctypes/Classes.antt =====
-- The character classes of ctypes.c, against one another.
use abstract_machine.Base.{ℕ, ◌≡◌, false, ◌&&◌, ◌||◌, arith, ◌==◌, ltb}
use abstract_machine.Klib.Ctypes.{
  isspace, isprint, isdigit, islower, isupper, isalpha, isalnum, ispunct, iscntrl, isgraph, tolower,
  toupper,
}

-- A printing character is the blank or a graphic one, and a graphic one is either a letter, a digit
-- or a punctuation mark, and only one of these; below 128, a character is either printing or a
-- control character, and not both.
pub classes_lem :
    (c : ℕ)
    → (isprint c ≡ (c == b' ' || isgraph c))
      × (isgraph c ≡ (islower c || isupper c || isdigit c || ispunct c))
      × ((islower c && isupper c || isalpha c && isdigit c || isalnum c && ispunct c) ≡ false)
      × (ltb c 128 ≡ (isprint c || iscntrl c))
      × ((isprint c && iscntrl c) ≡ false)
unfolding isspace isprint isdigit islower isupper isalpha isalnum ispunct iscntrl isgraph
classes_lem c = (ground arith, ground arith, ground arith, ground arith, ground arith)

-- tolower and toupper change exactly the letters of the other case, to letters of theirs, and undo
-- one another there.
pub tolower-toupper :
    (c : ℕ)
    → (isupper (tolower c) ≡ false)
      × (islower (toupper c) ≡ false)
      × (toupper (tolower c) ≡ toupper c)
      × (tolower (toupper c) ≡ tolower c)
      × (isalpha (tolower c) ≡ isalpha c)
      × (isalpha (toupper c) ≡ isalpha c)
unfolding islower isupper isalpha tolower toupper
tolower-toupper c =
    (ground arith, ground arith, ground arith, ground arith, ground arith, ground arith)
