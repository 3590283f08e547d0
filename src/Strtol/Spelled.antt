-- ===== src/Strtol/Spelled.antt =====
-- lib/string.c: `__strtoll` against the digits 0 to 9 and a to z, of either case.
use kvm_unit_tests.Base.{
  false, true, sym, ℕ, ◌+◌, ◌-◌, ◌^◌, ◌≤◌, ◌<◌, ◌≡◌, refl, ◌≢◌, Bool, ◌⊎◌, inl, inr, Bool-cases,
  List, [], ◌∷◌, ◌++◌, Option, none, some, arith, length, ok, aborted, leb, ltb, ◌&&◌,
}
use kvm_unit_tests.Ctype.{isspace}
use kvm_unit_tests.Strtol.{digit, limit, strtoll_impl}
use kvm_unit_tests.Strtol.Digits.{value, Reads, IsStop}
use kvm_unit_tests.Strtol.Parse.{AllSpace, sign_text, negated, strtoll-Reads}

-- The character `c` is the digit of value `v` in `base`: one of 0 to 9 for the values below ten, and
-- a letter of either case from there on.
abbrev pub IsDigit : ℕ → ℕ → ℕ → Type 0
IsDigit base c v =
    (v < base)
    × (((v < 10) × (c ≡ b'0' + v)) ⊎ ((10 ≤ v) × ((c ≡ b'a' + (v - 10)) ⊎ (c ≡ b'A' + (v - 10)))))

-- The characters are digits of these values.
abbrev pub Spells : ℕ → List ℕ → List ℕ → Type 0
Spells base [] [] = Unit
Spells base [] (v ∷ vs) = ⊥
Spells base (c ∷ ds) [] = ⊥
Spells base (c ∷ ds) (v ∷ vs) = IsDigit base c v × Spells base ds vs

-- The space and the controls from the tab to the carriage return.
abbrev pub AllBlank : List ℕ → Type 0
AllBlank [] = Unit
AllBlank (c ∷ s) = ((c ≡ 32) ⊎ ((9 ≤ c) × (c ≤ 13))) × AllBlank s

AllBlank-AllSpace : (sp : List ℕ) → AllBlank sp → AllSpace sp
unfolding isspace
AllBlank-AllSpace [] b = tt
AllBlank-AllSpace (c ∷ sp) b = (ground (arith, b.0), AllBlank-AllSpace sp b.1)

module _ (base : ℕ) (lo : 2 ≤ base) (hi : base ≤ 36) where
  IsDigit-digit : (c v : ℕ) → IsDigit base c v → digit base c ≡ some v
  unfolding digit
  IsDigit-digit c v d = ground (arith, d)

  IsDigit-nonzero : (c v : ℕ) → IsDigit base c v → c ≢ 0
  IsDigit-nonzero c v d e = ground (arith, d)

  Spells-Reads : (ds vs : List ℕ) → Spells base ds vs → Reads base ds vs
  Spells-Reads [] [] s = tt
  Spells-Reads [] (v ∷ vs) s = s
  Spells-Reads (c ∷ ds) [] s = s
  Spells-Reads (c ∷ ds) (v ∷ vs) s =
      (IsDigit-nonzero c v s.0, IsDigit-digit c v s.0, Spells-Reads ds vs s.1)

  digit-IsDigit : (c v : ℕ) → digit base c ≡ some v → IsDigit base c v
  unfolding digit
  digit-IsDigit c v e = elim (Bool-cases (leb b'0' c && (ltb c (b'0' + base) && leb c b'9'))) [
    | inl d ↦ (ground arith, inl (ground arith, ground arith))
    | inr nd ↦ elim (Bool-cases (leb b'a' c && ltb c (b'a' + base - 10))) [
      | inl l ↦ (ground arith, inr (ground arith, inl (ground arith)))
      | inr nl ↦ (ground arith, inr (ground arith, inr (ground arith)))
    ]
  ]

  -- A character that is no digit ends the number.
  none-IsStop :
      (c : ℕ) (o : Option ℕ) → digit base c ≡ o → ((v : ℕ) → ¬ IsDigit base c v) → IsStop base c
  none-IsStop c none e out = inr e
  none-IsStop c (some v) e out = absurd (out v (digit-IsDigit c v e))

  end-IsStop : (c : ℕ) → (c ≡ 0) ⊎ ((v : ℕ) → ¬ IsDigit base c v) → IsStop base c
  end-IsStop c (inl z) = inl z
  end-IsStop c (inr out) = none-IsStop c (digit base c) refl out

-- One more than the greatest value of `long`, `unsigned long`, `long long` and `unsigned long long`.
abbrev pub type_end : ℕ → Bool → Bool → ℕ
type_end long_bits true false = 2 ^ (long_bits - 1)
type_end long_bits false false = 2 ^ long_bits
type_end long_bits true true = 2 ^ 63
type_end long_bits false true = 2 ^ 64

limit-type_end :
    (long_bits : ℕ) (is_signed is_longlong : Bool)
    → type_end long_bits is_signed is_longlong ≡ limit long_bits is_signed is_longlong
limit-type_end long_bits true false = refl
limit-type_end long_bits false false = refl
limit-type_end long_bits true true = refl
limit-type_end long_bits false true = refl

-- `__strtoll` in a base other than 0 and 16, for a type of at most 64 bits, on blanks, a sign or
-- none, at least one digit, and NUL or a character that is no digit: if the digits stand for a
-- number that the type can hold, it returns that number, negated mod 2^64 after '-', and the offset
-- of the character that ended it; if they stand for a greater one, an assertion fails. The digits
-- are 0 to 9 and a to z of either case, up to the base.
pub strtoll_lem :
    (long_bits : ℕ) (is_signed is_longlong : Bool) (base : ℕ) (sp ds vs rest : List ℕ)
    (sign : Option Bool) (d v c : ℕ)
    → 2 ≤ base
    → base ≤ 36
    → base ≢ 16
    → type_end long_bits is_signed is_longlong ≤ 2 ^ 64
    → AllBlank sp
    → Spells base (d ∷ ds) (v ∷ vs)
    → (c ≡ 0) ⊎ ((w : ℕ) → ¬ IsDigit base c w)
    → let text = sp ++ (sign_text sign ++ (d ∷ (ds ++ (c ∷ rest)))) in
      let n = value base 0 (v ∷ vs) in
      let result = strtoll_impl long_bits text base is_signed is_longlong in
      (n < type_end long_bits is_signed is_longlong
        → result ≡ ok (negated sign n, length sp + length (sign_text sign) + length (d ∷ ds)))
      × (type_end long_bits is_signed is_longlong ≤ n → result ≡ aborted)
strtoll_lem long_bits is_signed is_longlong base sp ds vs rest sign d v c lo hi ne small b s stop =
    let e : type_end long_bits is_signed is_longlong ≡ limit long_bits is_signed is_longlong =
      limit-type_end long_bits is_signed is_longlong in
    let lem =
      strtoll-Reads long_bits is_signed is_longlong base sp ds vs rest sign d v c lo hi ne
        (rw (sym e) small) (AllBlank-AllSpace sp b) (Spells-Reads base lo hi (d ∷ ds) (v ∷ vs) s)
        (end-IsStop base lo hi c stop) in
    (λ fits. lem.0 (rw (sym e) fits), λ over. lem.1 (rw (sym e) over))
