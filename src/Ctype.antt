-- ===== src/Ctype.antt =====
-- kernel/libc/ctype.c. A character is its code, from 0 to 255; a negative `char` passes none of
-- the tests, and neither does its code as a byte.
pub mod Laws
mod Tests
use dos.Prelude.{Bool, if◌then◌else◌, leb, not, ℕ, ◌&&◌, ◌+◌, ◌-◌, ◌==◌, ◌||◌}

unfoldable pub islower : ℕ → Bool
islower c = leb b'a' c && leb c b'z'

unfoldable pub isupper : ℕ → Bool
isupper c = leb b'A' c && leb c b'Z'

unfoldable pub isalpha : ℕ → Bool
unfolding islower isupper
isalpha c = islower c || isupper c

unfoldable pub isdigit : ℕ → Bool
isdigit c = leb b'0' c && leb c b'9'

unfoldable pub isalnum : ℕ → Bool
unfolding isalpha isdigit
isalnum c = isalpha c || isdigit c

unfoldable pub isblank : ℕ → Bool
isblank c = (c == 32) || (c == 9)

unfoldable pub iscntrl : ℕ → Bool
iscntrl c = leb c 31 || (c == 127)

unfoldable pub isgraph : ℕ → Bool
isgraph c = leb 33 c && leb c 126

unfoldable pub isprint : ℕ → Bool
unfolding isgraph
isprint c = isgraph c || (c == 32)

unfoldable pub ispunct : ℕ → Bool
unfolding isgraph isalnum
ispunct c = isgraph c && not (isalnum c)

unfoldable pub isspace : ℕ → Bool
unfolding isblank
isspace c = isblank c || (leb 9 c && leb c 13)

unfoldable pub isxdigit : ℕ → Bool
unfolding isdigit
isxdigit c = isdigit c || (leb b'a' c && leb c b'f') || (leb b'A' c && leb c b'F')

unfoldable pub toupper : ℕ → ℕ
toupper c = if leb b'a' c && leb c b'z' then b'A' + c - b'a' else c

unfoldable pub tolower : ℕ → ℕ
tolower c = if leb b'A' c && leb c b'Z' then b'a' + c - b'A' else c
