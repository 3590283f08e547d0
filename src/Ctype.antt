-- ===== src/Ctype.antt =====
-- lib/ctype.h: the character classes of the C locale.
-- A character is its byte. No class holds a byte from 0x80 on, so the functions give the same
-- whether `char` is signed or not.
use kvm_unit_tests.Base.{ℕ, ◌+◌, ◌-◌, Bool, ◌&&◌, ◌||◌, leb, ◌==◌, if◌then◌else◌}

unfoldable pub isblank : ℕ → Bool
isblank c = c == b' ' || c == 9

unfoldable pub islower : ℕ → Bool
islower c = leb b'a' c && leb c b'z'

unfoldable pub isupper : ℕ → Bool
isupper c = leb b'A' c && leb c b'Z'

unfoldable pub isalpha : ℕ → Bool
unfolding isupper islower
isalpha c = isupper c || islower c

unfoldable pub isdigit : ℕ → Bool
isdigit c = leb b'0' c && leb c b'9'

unfoldable pub isalnum : ℕ → Bool
unfolding isalpha isdigit
isalnum c = isalpha c || isdigit c

unfoldable pub isspace : ℕ → Bool
isspace c = c == b' ' || c == 9 || c == 13 || c == 10 || c == 11 || c == 12

unfoldable pub toupper : ℕ → ℕ
unfolding islower
toupper c = if islower c then c - b'a' + b'A' else c

unfoldable pub tolower : ℕ → ℕ
unfolding isupper
tolower c = if isupper c then c - b'A' + b'a' else c
