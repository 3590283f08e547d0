-- ===== src/Printf/Digits.antt =====
-- lib/printf.c: the digits that `print_int` and `print_unsigned` put in `buf`.
use mathlib.Core.List.{append_assoc, append-nil, reverse, reverse-append}
use kvm_unit_tests.Base.{
  ℕ, zero, suc, ◌+◌, ◌-◌, ◌*◌, ◌/◌, ◌%◌, ◌^◌, ◌≤◌, ◌<◌, ◌≡◌, refl, ◌≢◌, ap, ◌∙◌, sym, inl, inr,
  Bool, true, false, ◌&&◌, ==_iff, Bool-cases, List, [], ◌∷◌, ◌++◌, map, some, arith, length,
  length-append, get_or, get_elem?, get_elem?-eq-get_or, ltb, lt→ltb, ◌==◌, if◌then◌else◌, ok,
  fault,
}
use native.Mathlib.Nat.{one-le-pow, pow-zero, pow-suc, mul_comm}
use kvm_unit_tests.Strtol.{digit}
use kvm_unit_tests.Strtol.Digits.{value, Reads}
use kvm_unit_tests.Printf.Number.{digits, push, number_loop}

-- The bases that the conversions use.
pub record Radix (base : ℕ) : Type 0 where
  pub least : 2 ≤ base
  pub most : base ≤ 16
  pub reach : (n m : ℕ) → base * m ≤ n → m ≤ (n / base)
  pub half : (n m : ℕ) → n < 2 * m → (n / base) < m
  pub shrink : (n m : ℕ) → n < base * m → (n / base) < m
  pub small : (n : ℕ) → (n % base) < base
  pub recompose : (n : ℕ) → (n / base) * base + n % base ≡ n

abbrev pub ten : Radix 10
ten = record {
  least = omega arith;
  most = omega arith;
  reach = λ n m h. omega arith;
  half = λ n m h. omega arith;
  shrink = λ n m h. omega arith;
  small = λ n. omega arith;
  recompose = λ n. omega arith;
}

abbrev pub sixteen : Radix 16
sixteen = record {
  least = omega arith;
  most = omega arith;
  reach = λ n m h. omega arith;
  half = λ n m h. omega arith;
  shrink = λ n m h. omega arith;
  small = λ n. omega arith;
  recompose = λ n. omega arith;
}

abbrev pub char : ℕ → ℕ
char v = get_or digits v 0

-- The digit values of a number, the highest first.
abbrev pub numeral : ℕ → ℕ → ℕ → List ℕ
numeral zero base n = []
numeral (suc fuel) base n = if n == 0 then [] else numeral fuel base (n / base) ++ (n % base ∷ [])

digit_char : (v : ℕ) → v < 16 → get_elem? digits v ≡ some (char v)
digit_char v h = get_elem?-eq-get_or digits v 0 h

-- A test that holds of every number below a bound.
abbrev all_below : ℕ → (ℕ → Bool) → Bool
all_below zero test = true
all_below (suc n) test = test n && all_below n test

all_below_lem : (n v : ℕ) (test : ℕ → Bool) → all_below n test ≡ true → v < n → test v ≡ true
all_below_lem zero v test a h = absurd (omega arith)
all_below_lem (suc n) v test a h = elim (Bool-cases (v == n)) [
  | inl e ↦ let same : v ≡ n = ground arith in rw same (ground arith)
  | inr e ↦ all_below_lem n v test (ground arith) (ground arith)
]

abbrev ascii : ℕ → ℕ
ascii v = if ltb v 10 then b'0' + v else b'a' + v - 10

char_lem : (v : ℕ) → v < 16 → char v ≡ ascii v
char_lem v h =
    let e = all_below_lem 16 v (λ v. char v == ascii v) refl h in (==_iff (char v) (ascii v)).0 e

value-snoc :
    (base acc v : ℕ) (xs : List ℕ) → value base acc (xs ++ (v ∷ [])) ≡ value base acc xs * base + v
value-snoc base acc v [] = refl
value-snoc base acc v (x ∷ xs) = value-snoc base (acc * base + x) v xs

Reads-snoc :
    (base c v : ℕ) (ds vs : List ℕ)
    → Reads base ds vs
    → c ≢ 0
    → digit base c ≡ some v
    → Reads base (ds ++ (c ∷ [])) (vs ++ (v ∷ []))
Reads-snoc base c v [] [] r z d = (z, d, tt)
Reads-snoc base c v [] (x ∷ vs) r z d = absurd r
Reads-snoc base c v (x ∷ ds) [] r z d = absurd r
Reads-snoc base c v (x ∷ ds) (y ∷ vs) (p, q, r) z d = (p, q, Reads-snoc base c v ds vs r z d)

map-snoc : (xs : List ℕ) (v : ℕ) → map char (xs ++ (v ∷ [])) ≡ map char xs ++ (char v ∷ [])
map-snoc [] v = refl
map-snoc (x ∷ xs) v = ap (λ l. char x ∷ l) (map-snoc xs v)

zero_of : {n : ℕ} → n < 1 → (n == 0) ≡ true
zero_of h = ground arith

module _ {base : ℕ} (radix : Radix base) where
  char-ne-zero : (v : ℕ) → v < base → char v ≢ 0
  char-ne-zero v h = let e = char_lem v (omega (arith, radix.most)) in ground arith

  digit-char : (v : ℕ) → v < base → digit base (char v) ≡ some v
  unfolding digit
  digit-char v h = rw (char_lem v (omega (arith, radix.most))) (ground (arith, radix.most))

  pub value-numeral : (fuel n : ℕ) → n < 2 ^ fuel → value base 0 (numeral fuel base n) ≡ n
  value-numeral zero n h = omega arith
  value-numeral (suc fuel) n h = elim (Bool-cases (n == 0)) [
    | inl z ↦ rw z (ground arith)
    | inr nz ↦
        rw
          (
            nz,
            value-snoc base 0 (n % base) (numeral fuel base (n / base)),
            value-numeral fuel (n / base) (radix.half n (2 ^ fuel) (omega arith)),
          )
          (radix.recompose n)
  ]

  pub numeral-Reads :
      (fuel n : ℕ) → Reads base (map char (numeral fuel base n)) (numeral fuel base n)
  numeral-Reads zero n = tt
  numeral-Reads (suc fuel) n = elim (Bool-cases (n == 0)) [
    | inl z ↦ rw z tt
    | inr nz ↦
        rw (nz, map-snoc (numeral fuel base (n / base)) (n % base))
          (Reads-snoc base (char (n % base)) (n % base) _ _ (numeral-Reads fuel (n / base))
            (char-ne-zero (n % base) (radix.small n)) (digit-char (n % base) (radix.small n)))
  ]

  pub length-numeral : (fuel n k : ℕ) → n < base ^ k → length (map char (numeral fuel base n)) ≤ k
  length-numeral zero n k h = omega arith
  length-numeral (suc fuel) n zero h =
      let one : n < 1 = omega (arith, pow-zero base) in
      let z : (n == 0) ≡ true = zero_of one in rw z (omega arith)
  length-numeral (suc fuel) n (suc k) h = elim (Bool-cases (n == 0)) [
    | inl z ↦ rw z (omega arith)
    | inr nz ↦
        rw (nz, map-snoc (numeral fuel base (n / base)) (n % base))
          (omega (
            arith,
            length-append (map char (numeral fuel base (n / base))) (char (n % base) ∷ []),
            length-numeral fuel (n / base) k (
                radix.shrink n (base ^ k)
                  (omega (arith, pow-suc base k, mul_comm base (base ^ k)))),
          ))
  ]

  -- The digits before the one that a round pushes.
  abbrev higher : ℕ → ℕ → List ℕ
  higher fuel n = map char (numeral fuel base (n / base))

  reverse-higher :
      (fuel n : ℕ) (buf : List ℕ)
      → ((buf ++ (char (n % base) ∷ [])) ++ reverse (higher fuel n))
        ≡ (buf ++ reverse (higher fuel n ++ (char (n % base) ∷ [])))
  reverse-higher fuel n buf =
      append_assoc buf (char (n % base) ∷ []) (reverse (higher fuel n))
      ∙ ap (λ l. buf ++ l) (sym (reverse-append (higher fuel n) (char (n % base) ∷ [])))

  number_loop_step :
      (fuel cap n : ℕ) (buf : List ℕ)
      → (n == 0) ≡ false
      → length buf < cap
      → number_loop (suc fuel) cap base n buf
        ≡ number_loop fuel cap base (n / base) (buf ++ (char (n % base) ∷ []))
  unfolding number_loop push
  number_loop_step fuel cap n buf nz room =
      let sixteenth : (n % base) < 16 = omega (arith, radix.small n, radix.most) in
      rw (nz, digit_char (n % base) sixteenth, lt→ltb (length buf) cap room) refl

  number_loop_none :
      (fuel cap n : ℕ) (buf : List ℕ) → (n == 0) ≡ true → number_loop fuel cap base n buf ≡ ok buf
  unfolding number_loop
  number_loop_none zero cap n buf z = rw z
  number_loop_none (suc fuel) cap n buf z = rw z

  -- The digits are pushed from the lowest on.
  pub number_loop-numeral :
      (fuel cap n : ℕ) (buf : List ℕ)
      → n < 2 ^ fuel
      → length buf + length (map char (numeral fuel base n)) ≤ cap
      → number_loop fuel cap base n buf ≡ ok (buf ++ reverse (map char (numeral fuel base n)))
  unfolding number_loop
  number_loop-numeral zero cap n buf h room =
      number_loop_none zero cap n buf (ground arith) ∙ ap ok (sym (append-nil buf))
  number_loop-numeral (suc fuel) cap n buf h room = elim (Bool-cases (n == 0)) [
    | inl z ↦ number_loop_none (suc fuel) cap n buf z ∙ rw (z, append-nil buf) refl
    | inr nz ↦
        let c = char (n % base) in
        let room' : length buf + length (higher fuel n ++ (c ∷ [])) ≤ cap =
          rw (nz, map-snoc (numeral fuel base (n / base)) (n % base)) at room in
        number_loop_step fuel cap n buf nz (omega (arith, length-append (higher fuel n) (c ∷ [])))
        ∙ number_loop-numeral fuel cap (n / base) (buf ++ (c ∷ []))
            (radix.half n (2 ^ fuel) (omega arith))
            (omega (arith, length-append (higher fuel n) (c ∷ []), length-append buf (c ∷ [])))
        ∙ rw (nz, map-snoc (numeral fuel base (n / base)) (n % base), reverse-higher fuel n buf)
            refl
  ]

  pos_of : (k n : ℕ) → base ^ k ≤ n → (n == 0) ≡ false
  pos_of k n h = let p = one-le-pow k base (omega (arith, radix.least)) in ground arith

  number_loop_stuck :
      (cap n : ℕ) (buf : List ℕ) → (n == 0) ≡ false → number_loop 0 cap base n buf ≡ fault
  unfolding number_loop
  number_loop_stuck cap n buf nz = rw nz

  number_loop_full :
      (fuel cap n : ℕ) (buf : List ℕ)
      → (n == 0) ≡ false
      → cap ≤ length buf
      → number_loop (suc fuel) cap base n buf ≡ fault
  unfolding number_loop push
  number_loop_full fuel cap n buf nz full =
      let sixteenth : (n % base) < 16 = omega (arith, radix.small n, radix.most) in
      let no : ltb (length buf) cap ≡ false = ground arith in
      rw (nz, digit_char (n % base) sixteenth, no) refl

  -- The digits of a number that is too long overrun `buf`.
  pub number_loop_overrun :
      (fuel k cap n : ℕ) (buf : List ℕ)
      → length buf + k ≡ cap
      → base ^ k ≤ n
      → number_loop fuel cap base n buf ≡ fault
  number_loop_overrun zero k cap n buf e h = number_loop_stuck cap n buf (pos_of k n h)
  number_loop_overrun (suc fuel) zero cap n buf e h =
      number_loop_full fuel cap n buf (pos_of 0 n h) (omega arith)
  number_loop_overrun (suc fuel) (suc k) cap n buf e h =
      number_loop_step fuel cap n buf (pos_of (suc k) n h) (omega arith)
      ∙ number_loop_overrun fuel k cap (n / base) (buf ++ (char (n % base) ∷ []))
          (omega (arith, length-append buf (char (n % base) ∷ [])))
          (radix.reach n (base ^ k) (omega (arith, pow-suc base k, mul_comm base (base ^ k))))

-- The digit values and the digits of a number of 64 bits.
unfoldable pub digit_values : ℕ → ℕ → List ℕ
digit_values base n = numeral 64 base n

unfoldable pub digit_text : ℕ → ℕ → List ℕ
digit_text base n = map char (numeral 64 base n)

module _ {base : ℕ} (radix : Radix base) (n : ℕ) where
  pub digit_text-Reads : Reads base (digit_text base n) (digit_values base n)
  unfolding digit_text digit_values
  digit_text-Reads = numeral-Reads radix 64 n

  pub value-digit_values : n < 2 ^ 64 → value base 0 (digit_values base n) ≡ n
  unfolding digit_values
  value-digit_values = value-numeral radix 64 n

  pub length-digit_text : (k : ℕ) → n < base ^ k → length (digit_text base n) ≤ k
  unfolding digit_text
  length-digit_text = length-numeral radix 64 n

  pub digit_text_none : (n == 0) ≡ true → digit_text base n ≡ []
  unfolding digit_text
  digit_text_none z = rw z

  pub reverse-digit_text :
      (n == 0) ≡ false → (c : ℕ) × (rest : List ℕ) × (reverse (digit_text base n) ≡ c ∷ rest)
  unfolding digit_text
  reverse-digit_text nz = (
    char (n % base),
    reverse (higher radix 63 n),
    rw nz (
        ap reverse (map-snoc (numeral 63 base (n / base)) (n % base))
        ∙ reverse-append (higher radix 63 n) (char (n % base) ∷ [])),
  )

  pub number_loop-digit_text :
      (cap : ℕ)
      → n < 2 ^ 64
      → length (digit_text base n) ≤ cap
      → number_loop 64 cap base n [] ≡ ok (reverse (digit_text base n))
  unfolding digit_text
  number_loop-digit_text cap h room = number_loop-numeral radix 64 cap n [] h (omega arith)
