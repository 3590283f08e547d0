-- ===== src/CString/Compare.antt =====
-- lib/string.c: `strcmp` and `strncmp` tell equal texts from different ones.
use kvm_unit_tests.Base.{
  ℕ, zero, suc, ◌-◌, ◌^◌, ◌≤◌, ◌<◌, ◌≡◌, refl, ◌↔◌, Bool, true, inl, inr, List, [], ◌∷◌, ◌++◌,
  arith, Bool-cases, length, take, take_all, ok, ◌==◌,
}
use kvm_unit_tests.Base.Int.{ℤ, pos, ◌-ℤ◌, is_zero}
use kvm_unit_tests.CString.{char_value, strncmp, strcmp}
use kvm_unit_tests.CString.Length.{IsText}

abbrev pub IsBytes : List ℕ → Type 0
IsBytes [] = Unit
IsBytes (c ∷ s) = (c < 256) × IsBytes s

module _ (char_signed : Bool) where
  char_value_injective :
      (x y : ℕ)
      → x < 256
      → y < 256
      → is_zero (char_value char_signed x -ℤ char_value char_signed y) ≡ (x == y)
  char_value_injective x y hx hy = ground arith

  -- On NUL-terminated texts `strncmp` returns without reading outside them, and returns 0 exactly
  -- when the texts agree in their first `n` characters, whether `char` is signed or not.
  pub strncmp_zero_iff :
      (n : ℕ) (s t r r' : List ℕ)
      → IsText s
      → IsText t
      → IsBytes s
      → IsBytes t
      → (d : ℤ) × (strncmp char_signed (s ++ (0 ∷ r)) (t ++ (0 ∷ r')) n ≡ ok d)
        × ((is_zero d ≡ true) ↔ (take n s ≡ take n t))
  unfolding strncmp
  strncmp_zero_iff zero s t r r' hs ht bs bt = (pos 0, refl, ((λ _. refl), (λ _. refl)))
  strncmp_zero_iff (suc n) [] [] r r' hs ht bs bt = (pos 0, ground arith, ground arith)
  strncmp_zero_iff (suc n) [] (y ∷ t) r r' hs ht bs bt =
      (char_value char_signed 0 -ℤ char_value char_signed y, ground arith, ground arith)
  strncmp_zero_iff (suc n) (x ∷ s) [] r r' hs ht bs bt =
      (char_value char_signed x -ℤ char_value char_signed 0, ground arith, ground arith)
  strncmp_zero_iff (suc n) (x ∷ s) (y ∷ t) r r' hs ht bs bt =
      let (d, e, z) = strncmp_zero_iff n s t r r' hs.1 ht.1 bs.1 bt.1 in
      elim (Bool-cases (x == y)) [
        | inl same ↦ (d, ground arith, ground arith)
        | inr other ↦ (
          char_value char_signed x -ℤ char_value char_signed y,
          ground arith,
          ground (arith, char_value_injective x y bs.0 bt.0),
        )
      ]

  strncmp_zero_all :
      (n : ℕ) (s t r r' : List ℕ)
      → length s ≤ n
      → length t ≤ n
      → IsText s
      → IsText t
      → IsBytes s
      → IsBytes t
      → (d : ℤ) × (strncmp char_signed (s ++ (0 ∷ r)) (t ++ (0 ∷ r')) n ≡ ok d)
        × ((is_zero d ≡ true) ↔ (s ≡ t))
  strncmp_zero_all n s t r r' ls lt hs ht bs bt =
      let (d, e, z) = strncmp_zero_iff n s t r r' hs ht bs bt in
      (d, e, rw (take_all n s ls, take_all n t lt) at z)

  -- On NUL-terminated texts of fewer than 2^64 - 1 characters `strcmp` returns without reading
  -- outside them, and returns 0 exactly when the texts are equal, whether `char` is signed or not.
  pub strcmp_zero_iff :
      (s t r r' : List ℕ)
      → length s ≤ 2 ^ 64 - 1
      → length t ≤ 2 ^ 64 - 1
      → IsText s
      → IsText t
      → IsBytes s
      → IsBytes t
      → (d : ℤ) × (strcmp char_signed (s ++ (0 ∷ r)) (t ++ (0 ∷ r')) ≡ ok d)
        × ((is_zero d ≡ true) ↔ (s ≡ t))
  unfolding strcmp
  strcmp_zero_iff s t r r' ls lt hs ht bs bt =
      strncmp_zero_all (2 ^ 64 - 1) s t r r' ls lt hs ht bs bt
