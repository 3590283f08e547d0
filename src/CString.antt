-- ===== src/CString.antt =====
-- lib/string.c: the string functions on NUL-terminated texts.
-- A pointer into an object is the list of the bytes from it to the object's end, so that `p + 1`
-- is the tail, and a read at [] is one past the end. A result that points into an argument is the
-- offset from it; NULL is `none`. A write gives the new bytes. `dest` and `src` do not overlap.
pub mod Length
pub mod Find
pub mod Compare
pub mod Locate
pub mod Getenv
pub mod Glob
use kvm_unit_tests.Base.{
  ℕ, zero, suc, ◌+◌, ◌-◌, ◌^◌, Bool, ◌&&◌, ◌||◌, not, List, [], ◌∷◌, Option, none, some, leb, ◌==◌,
  if◌then◌else◌, Result, ok, fault, ◌>>=◌, u8,
}
use kvm_unit_tests.Base.Int.{ℤ, pos, negsuc, ◌-ℤ◌, is_zero}
use kvm_unit_tests.Ctype.{tolower}

strlen_loop : List ℕ → ℕ → Result ℕ
strlen_loop [] len = fault
strlen_loop (c ∷ buf) len = if c == 0 then ok len else strlen_loop buf (len + 1)

unfoldable pub strlen : List ℕ → Result ℕ
unfolding strlen_loop
strlen buf = strlen_loop buf 0

-- The loop of `strnlen` on `maxlen`, `sc` and `sc - buf`.
strnlen_loop : ℕ → List ℕ → ℕ → Result ℕ
strnlen_loop zero sc n = ok n
strnlen_loop (suc maxlen) [] n = fault
strnlen_loop (suc maxlen) (c ∷ sc) n = if c == 0 then ok n else strnlen_loop maxlen sc (n + 1)

unfoldable pub strnlen : List ℕ → ℕ → Result ℕ
unfolding strnlen_loop
strnlen buf maxlen = strnlen_loop maxlen buf 0

-- `while ((*p++ = *src++) != 0);`, on the object from `p` on.
copy_loop : List ℕ → List ℕ → Result (List ℕ)
copy_loop [] src = fault
copy_loop (x ∷ p) [] = fault
copy_loop (x ∷ p) (c ∷ src) =
    let rest = copy_loop p src in if c == 0 then ok (c ∷ p) else (do r ← rest; ok (c ∷ r))

unfoldable pub strcat : List ℕ → List ℕ → Result (List ℕ)
unfolding copy_loop
strcat [] src = fault
strcat (c ∷ dest) src =
    let rest = strcat dest src in
    if c == 0 then copy_loop (c ∷ dest) src else (do r ← rest; ok (c ∷ r))

unfoldable pub strcpy : List ℕ → List ℕ → Result (List ℕ)
unfolding strcat
strcpy [] src = fault
strcpy (c ∷ dest) src = strcat (0 ∷ dest) src

-- `*a - *b` on `unsigned char`, the `int` that `memcmp` returns.
memcmp_loop : ℕ → List ℕ → List ℕ → Result ℤ
memcmp_loop zero a b = ok (pos 0)
memcmp_loop (suc n) [] b = fault
memcmp_loop (suc n) (x ∷ a) [] = fault
memcmp_loop (suc n) (x ∷ a) (y ∷ b) =
    let ret = pos x -ℤ pos y in let rest = memcmp_loop n a b in if is_zero ret then rest else ok ret

unfoldable pub memcmp : List ℕ → List ℕ → ℕ → Result ℤ
unfolding memcmp_loop
memcmp s1 s2 n = memcmp_loop n s1 s2

-- The loop of `memchr` with the offset of `str`.
memchr_loop : ℕ → List ℕ → ℕ → ℕ → Result (Option ℕ)
memchr_loop zero str chr i = ok none
memchr_loop (suc n) [] chr i = fault
memchr_loop (suc n) (x ∷ str) chr i =
    if x == chr then ok (some i) else memchr_loop n str chr (i + 1)

unfoldable pub memchr : List ℕ → ℕ → ℕ → Result (Option ℕ)
unfolding memchr_loop
memchr s c n = memchr_loop n s (u8 c) 0

-- Whether a plain `char` is signed is the target's choice: it is on x86, and is not on arm,
-- powerpc, riscv and s390x.
module _ (char_signed : Bool) where
  -- The `int` that a `char` is promoted to.
  abbrev pub char_value : ℕ → ℤ
  char_value c = if char_signed && leb 128 c then negsuc (255 - c) else pos c

  unfoldable pub strncmp : List ℕ → List ℕ → ℕ → Result ℤ
  strncmp a b zero = ok (pos 0)
  strncmp [] b (suc n) = fault
  strncmp (x ∷ a) [] (suc n) = fault
  strncmp (x ∷ a) (y ∷ b) (suc n) =
      let rest = strncmp a b n in
      if not (x == y) || x == 0 then ok (char_value x -ℤ char_value y) else rest

  unfoldable pub strncasecmp : List ℕ → List ℕ → ℕ → Result ℤ
  unfolding tolower
  strncasecmp a b zero = ok (pos 0)
  strncasecmp [] b (suc n) = fault
  strncasecmp (x ∷ a) [] (suc n) = fault
  strncasecmp (x ∷ a) (y ∷ b) (suc n) =
      let rest = strncasecmp a b n in
      if not (tolower x == tolower y) || x == 0
      then ok (char_value (tolower x) -ℤ char_value (tolower y))
      else rest

  -- SIZE_MAX of a 64-bit target
  unfoldable pub strcmp : List ℕ → List ℕ → Result ℤ
  strcmp a b = strncmp a b (2 ^ 64 - 1)

  unfoldable pub strcasecmp : List ℕ → List ℕ → Result ℤ
  strcasecmp a b = strncasecmp a b (2 ^ 64 - 1)

strchr_loop : List ℕ → ℕ → ℕ → Result (Option ℕ)
strchr_loop [] c i = fault
strchr_loop (x ∷ s) c i =
    let rest = strchr_loop s c (i + 1) in
    if x == c then ok (some i) else if x == 0 then ok none else rest

unfoldable pub strchr : List ℕ → ℕ → Result (Option ℕ)
unfolding strchr_loop
strchr s c = strchr_loop s (u8 c) 0

strrchr_loop : List ℕ → ℕ → ℕ → Option ℕ → Result (Option ℕ)
strrchr_loop [] c i last = fault
strrchr_loop (x ∷ s) c i last =
    let last' = if x == c then some i else last in
    if x == 0 then ok last' else strrchr_loop s c (i + 1) last'

unfoldable pub strrchr : List ℕ → ℕ → Result (Option ℕ)
unfolding strrchr_loop
strrchr s c = strrchr_loop s (u8 c) 0 none

strchrnul_loop : List ℕ → ℕ → ℕ → Result ℕ
strchrnul_loop [] c i = fault
strchrnul_loop (x ∷ s) c i =
    if not (x == 0) && not (x == c) then strchrnul_loop s c (i + 1) else ok i

unfoldable pub strchrnul : List ℕ → ℕ → Result ℕ
unfolding strchrnul_loop
strchrnul s c = strchrnul_loop s (u8 c) 0

-- The loop of `strstr` on `l1`, `s1` and its offset. `l2` is not 0, so the loop ends at `l1` 0.
strstr_loop : ℕ → List ℕ → List ℕ → ℕ → ℕ → Result (Option ℕ)
strstr_loop zero s1 s2 l2 i = ok none
strstr_loop (suc l1) [] s2 l2 i = if leb l2 (suc l1) then fault else ok none
strstr_loop (suc l1) (x ∷ s1) s2 l2 i =
    let rest = strstr_loop l1 s1 s2 l2 (i + 1) in
    if leb l2 (suc l1)
    then (do r ← memcmp (x ∷ s1) s2 l2; if is_zero r then ok (some i) else rest)
    else ok none

unfoldable pub strstr : List ℕ → List ℕ → Result (Option ℕ)
unfolding strlen strstr_loop memcmp
strstr s1 s2 = do
  l2 ← strlen s2
  if l2 == 0 then ok (some 0) else (do l1 ← strlen s1; strstr_loop l1 s1 s2 l2 0)
