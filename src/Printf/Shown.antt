-- ===== src/Printf/Shown.antt =====
-- lib/printf.c: the texts that `print_int` and `print_unsigned` write.
use mathlib.Core.List.{reverse, reverse-cons, reverse-reverse}
use native.Mathlib.Nat.{pow-suc}
use kvm_unit_tests.Base.{
  ℕ, zero, suc, ◌+◌, ◌-◌, ◌*◌, ◌/◌, ◌%◌, ◌^◌, ◌≤◌, ◌<◌, ◌≡◌, refl, sym, inl, inr, Bool, true, false,
  Bool-cases, List, [], ◌∷◌, ◌++◌, Option, some, none, arith, length, ltb, lt→ltb, ◌==◌,
  if◌then◌else◌, ok, fault, ◌>>=◌,
}
use kvm_unit_tests.Base.Int.{ℤ, pos, negsuc, pos_part, neg_part}
use kvm_unit_tests.CString.Length.{IsText}
use kvm_unit_tests.Strtol.Digits.{Reads}
use kvm_unit_tests.Printf.{Pstream, Strprops, is_neg}
use kvm_unit_tests.Printf.Number.{
  push, number_loop, zeros_loop, magnitude, print_buf, print_int, print_unsigned,
}
use kvm_unit_tests.Printf.Reverse.{swap_loop-reverse, length-reverse}
use kvm_unit_tests.Printf.Digits.{
  Radix, ten, number_loop_overrun, digit_text, digit_text-Reads, length-digit_text, digit_text_none,
  reverse-digit_text, number_loop-digit_text,
}
use kvm_unit_tests.Printf.Stream.{emit, padded, print_str-emit}

-- The digits of a number, "0" for 0.
abbrev pub shown : ℕ → ℕ → List ℕ
shown base n = if n == 0 then b'0' ∷ [] else digit_text base n

-- Without a precision the loop of zeros writes one, for an empty `buf`.
zeros_loop_none :
    (cap k : ℕ) (c : ℕ) (buf : List ℕ)
    → zeros_loop (suc cap + 1) (suc cap) (negsuc k) (c ∷ buf) ≡ ok (c ∷ buf)
unfolding zeros_loop
zeros_loop_none cap k c buf = ground arith

zeros_loop_one : (cap k : ℕ) → zeros_loop (suc cap + 1) (suc cap) (negsuc k) [] ≡ ok (b'0' ∷ [])
unfolding zeros_loop push
zeros_loop_one cap k = ground arith

print_buf-emit :
    (cap : ℕ) (text : List ℕ) (props : Strprops) (p : Pstream)
    → IsText text
    → length text < cap
    → print_buf cap (reverse text) props p ≡ emit (padded props text) p
unfolding print_buf push
print_buf-emit cap text props p t room =
    let r : ltb (length text) cap ≡ true = lt→ltb _ _ room in
    rw (swap_loop-reverse (reverse text), reverse-reverse text, r)
      (print_str-emit text [] t props p)

-- The properties of a conversion without '#' and '.'.
abbrev pub no_flags : ℕ → ℤ → Strprops
no_flags pad npad = record { pad = pad; npad = npad; alternate = false; precision = negsuc 0 }

Reads-IsText : (base : ℕ) (ds vs : List ℕ) → Reads base ds vs → IsText ds
Reads-IsText base [] vs r = tt
Reads-IsText base (c ∷ ds) [] r = absurd r
Reads-IsText base (c ∷ ds) (v ∷ vs) r = (r.0, Reads-IsText base ds vs r.2)

if_same : {A : Type 0} (b : Bool) (x : A) → (if b then x else x) ≡ x
if_same true x = refl
if_same false x = refl

module _ {base : ℕ} (radix : Radix base) (n : ℕ) where
  pub shown-IsText : IsText (shown base n)
  shown-IsText = elim (Bool-cases (n == 0)) [
    | inl z ↦ rw z ((λ e. omega arith), tt)
    | inr nz ↦ rw nz (Reads-IsText base _ _ (digit_text-Reads radix n))
  ]

  zeros_loop-shown :
      (cap k : ℕ)
      → 1 ≤ cap
      → zeros_loop (cap + 1) cap (negsuc k) (reverse (digit_text base n))
        ≡ ok (reverse (shown base n))
  zeros_loop-shown zero k some_room = absurd (omega arith)
  zeros_loop-shown (suc cap) k some_room = elim (Bool-cases (n == 0)) [
    | inl z ↦ rw (z, digit_text_none radix n z) (zeros_loop_one cap k)
    | inr nz ↦
        let (c, rest, e) = reverse-digit_text radix n nz in
        rw (nz, e) (zeros_loop_none cap k c rest)
  ]

  -- The digits in `buf`, before it is reversed.
  digits-shown :
      (cap k : ℕ)
      → n < 2 ^ 64
      → n < base ^ (cap - 1)
      → 2 ≤ cap
      → (number_loop 64 cap base n [] >>= λ b. zeros_loop (cap + 1) cap (negsuc k) b)
        ≡ ok (reverse (shown base n))
  digits-shown cap k h fits room =
      rw
        (number_loop-digit_text radix n cap h
          (omega (arith, length-digit_text radix n (cap - 1) fits)))
        (zeros_loop-shown cap k (omega arith))

  length-shown : (k : ℕ) → 1 ≤ k → n < base ^ k → length (shown base n) ≤ k
  length-shown k some_room h = elim (Bool-cases (n == 0)) [
    | inl z ↦ rw z some_room
    | inr nz ↦ rw nz (length-digit_text radix n k h)
  ]

  -- `print_unsigned` in base 10 or 16, without '#' and '.', writes the digits with their padding,
  -- for a number that fits `buf`.
  pub print_unsigned-emit :
      (long_bits pad : ℕ) (npad : ℤ) (p : Pstream)
      → n < 2 ^ 64
      → n < base ^ (long_bits / 8 * 3 + 2)
      → print_unsigned long_bits n base (no_flags pad npad) p
        ≡ emit (padded (no_flags pad npad) (shown base n)) p
  unfolding print_unsigned
  print_unsigned-emit long_bits pad npad p h fits =
      let cap : ℕ = long_bits / 8 * 3 + 3 in
      let less : (cap - 1) ≡ (long_bits / 8 * 3 + 2) = omega arith in
      let fits' : n < base ^ (cap - 1) = rw less fits in
      rw
        (
          number_loop-digit_text radix n cap h
              (omega (arith, length-digit_text radix n (cap - 1) fits')),
          if_same (length (reverse (digit_text base n)) == 0) (no_flags pad npad),
          zeros_loop-shown cap 0 (omega arith),
        )
        (print_buf-emit cap (shown base n) (no_flags pad npad) p shown-IsText
          (omega (arith, length-shown (cap - 1) (omega arith) fits')))

abbrev sign_of : ℤ → Option Bool
sign_of (pos n) = none
sign_of (negsuc n) = some true

-- The decimal text of an integer.
abbrev pub int_text : ℤ → List ℕ
int_text (pos n) = shown 10 n
int_text (negsuc n) = b'-' ∷ shown 10 (suc n)

-- The 64-bit word of an integer.
abbrev pub to_word : ℤ → ℕ
to_word (pos n) = n
to_word (negsuc n) = (2 ^ 64 - suc n) % 2 ^ 64

abbrev pub abs : ℤ → ℕ
abs n = pos_part n + neg_part n

magnitude_pos : (n : ℕ) → magnitude (pos n) ≡ ok n
unfolding magnitude
magnitude_pos n = ground arith

magnitude_neg : (n : ℕ) → suc n < 2 ^ 63 → magnitude (negsuc n) ≡ ok (suc n)
unfolding magnitude
magnitude_neg n h = ground arith

is_neg_pos : (n : ℕ) → is_neg (pos n) ≡ false
is_neg_pos n = ground arith

is_neg_neg : (n : ℕ) → is_neg (negsuc n) ≡ true
is_neg_neg n = ground arith

push_ok : (cap c : ℕ) (buf : List ℕ) → length buf < cap → push cap c buf ≡ ok (buf ++ (c ∷ []))
unfolding push
push_ok cap c buf h = rw (lt→ltb (length buf) cap h)

-- The digits of an integer's magnitude, which leave room for the sign and the NUL.
module _ (n k : ℕ) (small : n < 2 ^ 63) (fits : n < 10 ^ k) (some_room : 1 ≤ k) where
  fits-suc : n < 10 ^ (k + 2 - 1)
  fits-suc = let e : (k + 2 - 1) ≡ suc k = omega arith in rw e (omega (arith, pow-suc 10 k))

  abs-digits : number_loop 64 (k + 2) 10 n [] ≡ ok (reverse (digit_text 10 n))
  abs-digits =
      number_loop-digit_text ten n (k + 2) (omega arith)
        (omega (arith, length-digit_text ten n k fits))

  abs-zeros :
      zeros_loop (k + 2 + 1) (k + 2) (negsuc 0) (reverse (digit_text 10 n))
      ≡ ok (reverse (shown 10 n))
  abs-zeros = zeros_loop-shown ten n (k + 2) 0 (omega arith)

  abs-length : length (shown 10 n) ≤ k
  abs-length = length-shown ten n k some_room fits

-- `print_int` in base 10, without '.', writes the decimal text with its padding, for an integer
-- that fits `buf` with its sign.
pub print_int-emit :
    (long_bits pad : ℕ) (npad n : ℤ) (p : Pstream)
    → 8 ≤ long_bits
    → abs n < 2 ^ 63
    → abs n < 10 ^ (long_bits / 8 * 3)
    → print_int long_bits n 10 (no_flags pad npad) p
      ≡ emit (padded (no_flags pad npad) (int_text n)) p
unfolding print_int
print_int-emit long_bits pad npad (pos n) p bits h fits =
    let k : ℕ = long_bits / 8 * 3 in
    let small : n < 2 ^ 63 = omega arith in
    let fits' : n < 10 ^ k = omega arith in
    let room : 1 ≤ k = omega arith in
    rw
      (
        magnitude_pos n,
        abs-digits n k small fits' room,
        abs-zeros n k small fits' room,
        is_neg_pos n,
      )
      (print_buf-emit (k + 2) (shown 10 n) (no_flags pad npad) p (shown-IsText ten n)
        (omega (arith, abs-length n k small fits' room)))
print_int-emit long_bits pad npad (negsuc n) p bits h fits =
    let k : ℕ = long_bits / 8 * 3 in
    let small : suc n < 2 ^ 63 = omega arith in
    let fits' : suc n < 10 ^ k = omega arith in
    let room : 1 ≤ k = omega arith in
    let len : length (shown 10 (suc n)) ≤ k = abs-length (suc n) k small fits' room in
    rw
      (
        magnitude_neg n small,
        abs-digits (suc n) k small fits' room,
        abs-zeros (suc n) k small fits' room,
        is_neg_neg n,
        push_ok (k + 2) b'-' (reverse (shown 10 (suc n)))
            (omega (arith, length-reverse (shown 10 (suc n)))),
        sym (reverse-cons b'-' (shown 10 (suc n))),
      )
      (print_buf-emit (k + 2) (b'-' ∷ shown 10 (suc n)) (no_flags pad npad) p
        ((λ e. omega arith), shown-IsText ten (suc n)) (omega arith))

-- `print_unsigned` of a number with more digits than `buf` holds writes past its end: in base 10
-- from 10^15 on where `long` has 32 bits.
pub print_unsigned_overrun :
    {base : ℕ} (radix : Radix base) (n long_bits : ℕ) (props : Strprops) (p : Pstream)
    → base ^ (long_bits / 8 * 3 + 3) ≤ n
    → print_unsigned long_bits n base props p ≡ fault
unfolding print_unsigned
print_unsigned_overrun radix n long_bits props p h =
    let cap = long_bits / 8 * 3 + 3 in
    rw (number_loop_overrun radix 64 cap cap n [] (omega arith) h)
