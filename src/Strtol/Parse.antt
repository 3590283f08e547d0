-- ===== src/Strtol/Parse.antt =====
-- lib/string.c: `__strtoll` on blanks, a sign, digits and a character that ends them.
use kvm_unit_tests.Base.{
  ℕ, ◌+◌, ◌-◌, ◌%◌, ◌^◌, ◌≤◌, ◌<◌, ◌≡◌, refl, ◌≢◌, Bool, true, false, List, [], ◌∷◌, ◌++◌, Option,
  none, some, arith, length, ok, aborted, ◌>>=◌, leb, ◌==◌, ◌&&◌, ◌||◌, if◌then◌else◌,
}
use native.Mathlib.Nat.{zero-add, one-le-pow}
use kvm_unit_tests.Ctype.{isspace}
use kvm_unit_tests.Strtol.{digit, digit_loop, skip_space, read_sign, read_base, limit, strtoll_impl}
use kvm_unit_tests.Strtol.Digits.{value, Reads, IsStop, digit_loop-value, digit_loop_overflow}

abbrev pub AllSpace : List ℕ → Type 0
AllSpace [] = Unit
AllSpace (c ∷ s) = (isspace c ≡ true) × AllSpace s

abbrev pub sign_text : Option Bool → List ℕ
sign_text none = []
sign_text (some true) = b'-' ∷ []
sign_text (some false) = b'+' ∷ []

abbrev pub negated : Option Bool → ℕ → ℕ
negated (some true) v = (2 ^ 64 - v) % 2 ^ 64
negated (some false) v = v
negated none v = v

abbrev is_minus : Option Bool → Bool
is_minus (some true) = true
is_minus (some false) = false
is_minus none = false

skip_space_lem :
    (sp rest : List ℕ) (c i : ℕ)
    → AllSpace sp
    → isspace c ≡ false
    → skip_space (sp ++ (c ∷ rest)) i ≡ ok (c ∷ rest, i + length sp)
unfolding skip_space
skip_space_lem [] rest c i a n = ground arith
skip_space_lem (x ∷ sp) rest c i a n = ground (arith, skip_space_lem sp rest c (i + 1) a.1 n)

digit_from_zero : (base c v : ℕ) → digit base c ≡ some v → 48 ≤ c
unfolding digit
digit_from_zero base c v h = ground arith

not_isspace : (c : ℕ) → 48 ≤ c → isspace c ≡ false
unfolding isspace
not_isspace c h = ground arith

negated_lem :
    (sign : Option Bool) (v : ℕ)
    → (if is_minus sign then (2 ^ 64 - v) % 2 ^ 64 else v) ≡ negated sign v
negated_lem none v = refl
negated_lem (some true) v = refl
negated_lem (some false) v = refl

limit_pos :
    (long_bits : ℕ) (is_signed is_longlong : Bool) → 0 < limit long_bits is_signed is_longlong
limit_pos b true true = omega arith
limit_pos b false true = omega arith
limit_pos b true false = one-le-pow (b - 1) 2 (omega arith)
limit_pos b false false = one-le-pow b 2 (omega arith)

base_allowed : (base : ℕ) → 2 ≤ base → base ≤ 36 → (base == 0 || (leb 2 base && leb base 36)) ≡ true
base_allowed base lo hi = ground arith

read_base_plain :
    (base c : ℕ) (s : List ℕ) (i : ℕ)
    → base ≢ 0
    → base ≢ 16
    → read_base base (c ∷ s) i ≡ ok (base, c ∷ s, i)
unfolding read_base
read_base_plain base c s i z x = ground arith

skip_space_sign :
    (sp rest : List ℕ) (sign : Option Bool) (d i : ℕ)
    → AllSpace sp
    → 48 ≤ d
    → skip_space (sp ++ (sign_text sign ++ (d ∷ rest))) i
      ≡ ok (sign_text sign ++ (d ∷ rest), i + length sp)
skip_space_sign sp rest none d i a h = skip_space_lem sp rest d i a (not_isspace d h)
skip_space_sign sp rest (some true) d i a h =
    skip_space_lem sp (d ∷ rest) b'-' i a (unfold isspace in refl)
skip_space_sign sp rest (some false) d i a h =
    skip_space_lem sp (d ∷ rest) b'+' i a (unfold isspace in refl)

read_sign_lem :
    (rest : List ℕ) (sign : Option Bool) (d i : ℕ)
    → 48 ≤ d
    → read_sign (sign_text sign ++ (d ∷ rest)) i
      ≡ ok (is_minus sign, d ∷ rest, i + length (sign_text sign))
unfolding read_sign
read_sign_lem rest none d i h = ground arith
read_sign_lem rest (some true) d i h = ground arith
read_sign_lem rest (some false) d i h = ground arith

module _ (long_bits : ℕ) (is_signed is_longlong : Bool) (base : ℕ) where
  -- `strtoll_impl` is the digit loop on what follows the blanks and the sign.
  strtoll_impl_digits :
      (sp rest : List ℕ) (sign : Option Bool) (d : ℕ)
      → 2 ≤ base
      → base ≤ 36
      → base ≢ 16
      → AllSpace sp
      → 48 ≤ d
      → strtoll_impl long_bits (sp ++ (sign_text sign ++ (d ∷ rest))) base is_signed is_longlong ≡ (
          digit_loop
            (limit long_bits is_signed is_longlong)
            base
            0
            (d ∷ rest)
            (length sp + length (sign_text sign))
          >>= λ r. ok (if is_minus sign then (2 ^ 64 - r.0) % 2 ^ 64 else r.0, r.1))
  unfolding strtoll_impl
  strtoll_impl_digits sp rest sign d lo hi ne a h = rw (
    base_allowed base lo hi,
    skip_space_sign sp rest sign d 0 a h,
    zero-add (length sp),
    read_sign_lem rest sign d (length sp) h,
    read_base_plain base d rest (length sp + length (sign_text sign)) (omega arith) ne,
  )

  -- What `strtoll_lem` says, for blanks and digits as the code tests them.
  pub strtoll-Reads :
      (sp ds vs rest : List ℕ) (sign : Option Bool) (d v c : ℕ)
      → 2 ≤ base
      → base ≤ 36
      → base ≢ 16
      → limit long_bits is_signed is_longlong ≤ 2 ^ 64
      → AllSpace sp
      → Reads base (d ∷ ds) (v ∷ vs)
      → IsStop base c
      → let text = sp ++ (sign_text sign ++ (d ∷ (ds ++ (c ∷ rest)))) in
        let n = value base 0 (v ∷ vs) in
        let result = strtoll_impl long_bits text base is_signed is_longlong in
        (n < limit long_bits is_signed is_longlong
          → result ≡ ok (negated sign n, length sp + length (sign_text sign) + length (d ∷ ds)))
        × (limit long_bits is_signed is_longlong ≤ n → result ≡ aborted)
  strtoll-Reads sp ds vs rest sign d v c lo hi ne small a r stop = (
    λ fits. rw (
      strtoll_impl_digits sp (ds ++ (c ∷ rest)) sign d lo hi ne a from_zero,
      digit_loop-value max base pos small (d ∷ ds) (v ∷ vs) rest 0 start c r stop fits,
      negated_lem sign (value base 0 (v ∷ vs)),
    ),
    λ over. rw (
      strtoll_impl_digits sp (ds ++ (c ∷ rest)) sign d lo hi ne a from_zero,
      digit_loop_overflow max base pos small (d ∷ ds) (v ∷ vs) rest 0 start c r some_room over,
    ),
  )
    where
      max : ℕ
      max = limit long_bits is_signed is_longlong

      start : ℕ
      start = length sp + length (sign_text sign)

      pos : 1 ≤ base
      pos = omega arith

      from_zero : 48 ≤ d
      from_zero = digit_from_zero base d v r.1

      some_room : 0 < max
      some_room = limit_pos long_bits is_signed is_longlong
