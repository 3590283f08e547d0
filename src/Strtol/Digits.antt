-- ===== src/Strtol/Digits.antt =====
-- lib/string.c: the digit loop of `__strtoll` against the value of a digit sequence.
use kvm_unit_tests.Base.{
  ℕ, ◌+◌, ◌*◌, ◌^◌, ◌≤◌, ◌<◌, ◌≡◌, ◌≢◌, ◌⊎◌, inl, inr, Bool-cases, List, [], ◌∷◌, ◌++◌, none, some,
  arith, length, ok, aborted, ltb, ltb→lt,
}
use kvm_unit_tests.Strtol.{digit, digit_loop}

-- The number that digit values stand for, after `acc`.
abbrev pub value : ℕ → ℕ → List ℕ → ℕ
value base acc [] = acc
value base acc (v ∷ vs) = value base (acc * base + v) vs

-- The characters `ds` are digits in `base`, of the values `vs`.
abbrev pub Reads : ℕ → List ℕ → List ℕ → Type 0
Reads base [] [] = Unit
Reads base [] (v ∷ vs) = ⊥
Reads base (c ∷ ds) [] = ⊥
Reads base (c ∷ ds) (v ∷ vs) = (c ≢ 0) × (digit base c ≡ some v) × Reads base ds vs

-- A character that ends the number.
abbrev pub IsStop : ℕ → ℕ → Type 0
IsStop base c = (c ≡ 0) ⊎ (digit base c ≡ none)

value-le : (base acc : ℕ) (vs : List ℕ) → 1 ≤ base → acc ≤ value base acc vs
value-le base acc [] h = omega arith
value-le base acc (v ∷ vs) h = grind (arith, value-le base (acc * base + v) vs h)

module _ (max base : ℕ) (pos : 1 ≤ base) (fits64 : max ≤ 2 ^ 64) where
  digit_loop_stop :
      (acc i c : ℕ) (rest : List ℕ)
      → IsStop base c
      → digit_loop max base acc (c ∷ rest) i ≡ ok (acc, i)
  unfolding digit_loop
  digit_loop_stop acc i c rest (inl z) = ground arith
  digit_loop_stop acc i c rest (inr n) = ground arith

  pub digit_loop-value :
      (ds vs rest : List ℕ) (acc i c : ℕ)
      → Reads base ds vs
      → IsStop base c
      → value base acc vs < max
      → digit_loop max base acc (ds ++ (c ∷ rest)) i ≡ ok (value base acc vs, i + length ds)
  unfolding digit_loop
  digit_loop-value [] [] rest acc i c r stop h = ground (arith, digit_loop_stop acc i c rest stop)
  digit_loop-value [] (v ∷ vs) rest acc i c r stop h = absurd r
  digit_loop-value (d ∷ ds) [] rest acc i c r stop h = absurd r
  digit_loop-value (d ∷ ds) (v ∷ vs) rest acc i c r stop h = ground (
    arith,
    value-le base (acc * base + v) vs pos,
    digit_loop-value ds vs rest (acc * base + v) (i + 1) c r.2 stop h,
  )

  pub digit_loop_overflow :
      (ds vs rest : List ℕ) (acc i c : ℕ)
      → Reads base ds vs
      → acc < max
      → max ≤ value base acc vs
      → digit_loop max base acc (ds ++ (c ∷ rest)) i ≡ aborted
  unfolding digit_loop
  digit_loop_overflow [] [] rest acc i c r lt h = absurd (omega arith)
  digit_loop_overflow [] (v ∷ vs) rest acc i c r lt h = absurd r
  digit_loop_overflow (d ∷ ds) [] rest acc i c r lt h = absurd r
  digit_loop_overflow (d ∷ ds) (v ∷ vs) rest acc i c r lt h =
      elim (Bool-cases (ltb (acc * base + v) max)) [
        | inl fits ↦ ground (
          arith,
          digit_loop_overflow ds vs rest (acc * base + v) (i + 1) c r.2 (ltb→lt _ _ fits) h,
        )
        | inr over ↦ ground arith
      ]
