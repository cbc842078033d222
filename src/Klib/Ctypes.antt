-- ===== src/Klib/Ctypes.antt =====
-- klib/src/ctypes.c. A character is the value of an unsigned char, as on RISC-V.
pub mod Classes
use abstract_machine.Base.{ℕ, ◌+◌, ◌-◌, Bool, ◌&&◌, ◌||◌, not, leb, ltb, ◌==◌, if◌then◌else◌}

unfoldable pub isspace : ℕ → Bool
isspace c = c == b' ' || c == 12 || c == 10 || c == 13 || c == 9 || c == 11

unfoldable pub isprint : ℕ → Bool
isprint c = leb 0x20 c && ltb c 128

unfoldable pub isdigit : ℕ → Bool
isdigit c = leb b'0' c && leb c b'9'

unfoldable pub isxdigit : ℕ → Bool
unfolding isdigit
isxdigit c = isdigit c || leb b'A' c && leb c b'F' || leb b'a' c && leb c b'f'

unfoldable pub islower : ℕ → Bool
islower c = leb b'a' c && leb c b'z'

unfoldable pub isupper : ℕ → Bool
isupper c = leb b'A' c && leb c b'Z'

unfoldable pub isalpha : ℕ → Bool
unfolding islower isupper
isalpha c = islower c || isupper c

unfoldable pub isalnum : ℕ → Bool
unfolding isalpha isdigit
isalnum c = isalpha c || isdigit c

unfoldable pub ispunct : ℕ → Bool
unfolding isprint isspace isalnum
ispunct c = isprint c && not (isspace c) && not (isalnum c)

unfoldable pub iscntrl : ℕ → Bool
iscntrl c = leb 0 c && ltb c 0x20

unfoldable pub isgraph : ℕ → Bool
unfolding isprint isspace
isgraph c = isprint c && not (isspace c)

unfoldable pub tolower : ℕ → ℕ
unfolding isupper
tolower c = if isupper c then c + b'a' - b'A' else c

unfoldable pub toupper : ℕ → ℕ
unfolding islower
toupper c = if islower c then c + b'A' - b'a' else c
