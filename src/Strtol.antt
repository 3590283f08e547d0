-- ===== src/Strtol.antt =====
-- lib/string.c: `strtol` and its kin, and `atol`; lib/util.c: `parse_keyval`.
-- `long` has `long_bits` bits (32 or 64) and `long long` has 64. A result is the `unsigned long
-- long` that `__strtoll` returns, with the offset that it stores through `endptr`.
pub mod Digits
pub mod Parse
pub mod Spelled
use kvm_unit_tests.Base.{
  ℕ, ◌+◌, ◌-◌, ◌*◌, ◌%◌, ◌^◌, Bool, true, false, ◌&&◌, ◌||◌, List, [], ◌∷◌, Option, none, some, leb,
  ltb, ◌==◌, if◌then◌else◌, Result, ok, fault, ◌>>=◌, ◌>>◌, assert, u64, drop,
}
use kvm_unit_tests.Ctype.{isspace}
use kvm_unit_tests.CString.{strchr}

-- `while (isspace(*s)) s++;`: the rest of the text, and its offset.
unfoldable pub skip_space : List ℕ → ℕ → Result (List ℕ × ℕ)
unfolding isspace
skip_space [] i = fault
skip_space (c ∷ s) i = let rest = skip_space s (i + 1) in if isspace c then rest else ok (c ∷ s, i)

-- The sign: whether it is '-', and what follows it.
unfoldable pub read_sign : List ℕ → ℕ → Result (Bool × List ℕ × ℕ)
read_sign [] i = fault
read_sign (c ∷ s) i =
    if c == b'-'
    then ok (true, s, i + 1)
    else if c == b'+'
    then ok (false, s, i + 1)
    else ok (false, c ∷ s, i)

-- What follows a '0' that `read_base` has read at `i`.
unfoldable pub after_zero : ℕ → List ℕ → ℕ → Result (ℕ × List ℕ × ℕ)
after_zero base [] i = fault
after_zero base (x ∷ t) i =
    if x == b'x' || x == b'X'
    then ok (16, t, i + 2)
    else if base == 0
    then ok (8, x ∷ t, i + 1)
    else ok (base, x ∷ t, i + 1)

-- The prefix "0x" or "0" where `base` is 0 or 16: the base to read with, and what follows.
unfoldable pub read_base : ℕ → List ℕ → ℕ → Result (ℕ × List ℕ × ℕ)
unfolding after_zero
read_base base [] i = if base == 0 || base == 16 then fault else ok (base, [], i)
read_base base (c ∷ s) i =
    if base == 0 || base == 16
    then (if c == b'0'
        then after_zero base s i
        else if base == 0
        then ok (10, c ∷ s, i)
        else ok (base, c ∷ s, i))
    else ok (base, c ∷ s, i)

-- The value of a digit, or `none` where the loop breaks.
unfoldable pub digit : ℕ → ℕ → Option ℕ
digit base c =
    if leb b'0' c && (ltb c (b'0' + base) && leb c b'9')
    then some (c - b'0')
    else if leb b'a' c && ltb c (b'a' + base - 10)
    then some (c - b'a' + 10)
    else if leb b'A' c && ltb c (b'A' + base - 10)
    then some (c - b'A' + 10)
    else none

-- `while (*s)`: `ull` is what is read so far, and `max` the least value that overflows the type
-- read. `ull` stays below it, so that the conversions
-- to `long` and to `unsigned long` do not change it.
unfoldable pub digit_loop : ℕ → ℕ → ℕ → List ℕ → ℕ → Result (ℕ × ℕ)
unfolding digit
digit_loop max base ull [] i = fault
digit_loop max base ull (ch ∷ s) i = if ch == 0 then ok (ull, i) else (elim (digit base ch) [
  | none ↦ ok (ull, i)
  | some c ↦ (do
    assert (ltb (ull * base) max)
    assert (ltb (ull * base + c) max)
    digit_loop max base (u64 (ull * base + c)) s (i + 1))
])

module _ (long_bits : ℕ) where
  -- The least value that overflows the type read: 2^63 for `long long`, 2^64 if it is unsigned.
  abbrev pub limit : Bool → Bool → ℕ
  limit is_signed is_longlong =
      let bits = if is_longlong then 64 else long_bits in
      if is_signed then 2 ^ (bits - 1) else 2 ^ bits

  unfoldable pub strtoll_impl : List ℕ → ℕ → Bool → Bool → Result (ℕ × ℕ)
  strtoll_impl nptr base is_signed is_longlong = do
    assert (base == 0 || (leb 2 base && leb base 36))
    (s, i) ← skip_space nptr 0
    (neg, s, i) ← read_sign s i
    (base, s, i) ← read_base base s i
    (ull, i) ← digit_loop (limit is_signed is_longlong) base 0 s i
    ok (if neg then (2 ^ 64 - ull) % 2 ^ 64 else ull, i)

  -- A `long` or `unsigned long` result is truncated to its width.
  unfoldable pub strtol : List ℕ → ℕ → Result (ℕ × ℕ)
  strtol nptr base = do (v, i) ← strtoll_impl nptr base true false; ok (v % 2 ^ long_bits, i)

  pub strtoul : List ℕ → ℕ → Result (ℕ × ℕ)
  strtoul nptr base = do (v, i) ← strtoll_impl nptr base false false; ok (v % 2 ^ long_bits, i)

  unfoldable pub strtoll : List ℕ → ℕ → Result (ℕ × ℕ)
  strtoll nptr base = strtoll_impl nptr base true true

  pub strtoull : List ℕ → ℕ → Result (ℕ × ℕ)
  strtoull nptr base = strtoll_impl nptr base false true

  unfoldable pub atol : List ℕ → Result ℕ
  atol ptr = do (v, _) ← strtol ptr 10; ok v

  -- The offset of '=' with the value after it, or `none` for -1.
  unfoldable pub parse_keyval : List ℕ → Result (Option (ℕ × ℕ))
  parse_keyval s = do
    p ← strchr s b'='
    elim p [
      | none ↦ ok none
      | some i ↦ (do (val, _) ← strtol (drop (i + 1) s) 0; ok (some (i, val)))
    ]
