-- ===== src/CString/Glob/Pattern.antt =====
-- lib/string.c: `simple_glob` on a body with or without a '*' at either end.
use kvm_unit_tests.Base.{
  ℕ, ◌+◌, ◌-◌, ◌^◌, ◌≤◌, ◌<◌, ◌≡◌, ◌≢◌, ◌↔◌, refl, ◌∙◌, ap, Bool, true, false, List, [], ◌∷◌, ◌++◌,
  some, arith, ok, ◌==◌, length, length-append, length-replicate, replicate, get_elem?,
}
use kvm_unit_tests.CString.Length.{IsText, strlen_lem}
use kvm_unit_tests.CString.Compare.{IsBytes}
use kvm_unit_tests.CString.Glob.{
  star, last_of, IsText-snoc, glob_end, glob_end-plain, glob_end-star, glob_match, simple_glob,
  simple_glob-steps,
}
use kvm_unit_tests.CString.Glob.Match.{Matches, match-both, match-start, match-end, match-exact}

-- The body with the '*' behind it, if there is one.
abbrev pub with_end : Bool → List ℕ → List ℕ
with_end true b = b ++ (b'*' ∷ [])
with_end false b = b

module _ (c : ℕ) (b : List ℕ) (t : IsText (c ∷ b)) (ends : last_of c b ≢ b'*') where
  IsText-with_end : (e : Bool) → IsText (with_end e (c ∷ b))
  IsText-with_end true = IsText-snoc (c ∷ b) b'*' t (omega arith)
  IsText-with_end false = t

  glob_end-with_end :
      (e : Bool) (r buf : List ℕ)
      → length (with_end e (c ∷ b)) < length buf
      → (junk : List ℕ) × (glob_end
            (length (with_end e (c ∷ b)))
            (with_end e (c ∷ b) ++ (0 ∷ r))
            buf
          ≡ ok (e, length (c ∷ b), (c ∷ b) ++ (0 ∷ junk)))
  glob_end-with_end true r buf fits =
      let long = length-append (c ∷ b) (b'*' ∷ []) in
      let n : length ((c ∷ b) ++ (b'*' ∷ [])) ≡ length (c ∷ b) + 1 = omega arith in
      let (junk, e) = glob_end-star c b t ends r buf (omega arith) in
      (junk, ap (λ n. glob_end n (with_end true (c ∷ b) ++ (0 ∷ r)) buf) n ∙ e)
  glob_end-with_end false r buf fits = glob_end-plain c b t ends r buf fits

  head_with_end : (e : Bool) (r : List ℕ) → get_elem? (with_end e (c ∷ b) ++ (0 ∷ r)) 0 ≡ some c
  head_with_end true r = refl
  head_with_end false r = refl

  -- The steps before the final tests.
  simple_glob-with_star :
      (char_signed s e : Bool) (text r : List ℕ)
      → c ≢ b'*'
      → (junk : List ℕ) × (simple_glob char_signed text (star s ++ (with_end e (c ∷ b) ++ (0 ∷ r)))
          ≡ glob_match char_signed s e (length (c ∷ b)) text ((c ∷ b) ++ (0 ∷ junk)))
  simple_glob-with_star char_signed true e text r ne =
      let p = with_end e (c ∷ b) in
      let buf : List ℕ = replicate (length (b'*' ∷ p) + 1) 0 in
      let n : length (b'*' ∷ p) - 1 ≡ length p = omega arith in
      let (junk, run) =
        glob_end-with_end e r buf
          (omega (arith, length-replicate {A = ℕ} (length (b'*' ∷ p) + 1) 0)) in
      (
        junk,
        simple_glob-steps char_signed true e text (b'*' ∷ (p ++ (0 ∷ r))) _ _ _ b'*'
            (strlen_lem (b'*' ∷ p) r (omega arith, IsText-with_end e)) refl refl
            (ap (λ n. glob_end n (p ++ (0 ∷ r)) buf) n ∙ run),
      )
  simple_glob-with_star char_signed false e text r ne =
      let p = with_end e (c ∷ b) in
      let buf : List ℕ = replicate (length p + 1) 0 in
      let (junk, run) =
        glob_end-with_end e r buf (omega (arith, length-replicate {A = ℕ} (length p + 1) 0)) in
      let head : (c == b'*') ≡ false = ground arith in
      (
        junk,
        simple_glob-steps char_signed false e text (p ++ (0 ∷ r)) _ _ _ c
            (strlen_lem p r (IsText-with_end e)) (head_with_end e r) head run,
      )

-- `simple_glob` returns on NUL-terminated texts of fewer than 2^64 bytes, for a pattern that is a
-- body with or without a '*' before it and after it, where the body is not empty and has no '*' at
-- its ends; and it returns true exactly if the text is the body with something before it, if a '*'
-- stands before the body, and something after it, if one stands after it.
pub simple_glob-Matches :
    (char_signed s e : Bool) (t r : List ℕ) (c : ℕ) (b r' : List ℕ)
    → IsText t
    → IsText (c ∷ b)
    → IsBytes t
    → IsBytes (c ∷ b)
    → length t ≤ 2 ^ 64 - 1
    → length (c ∷ b) ≤ 2 ^ 64 - 1
    → c ≢ b'*'
    → last_of c b ≢ b'*'
    → (m : Bool) × (simple_glob char_signed
          (t ++ (0 ∷ r))
          (star s ++ (with_end e (c ∷ b) ++ (0 ∷ r')))
        ≡ ok m)
      × ((m ≡ true) ↔ Matches s e (c ∷ b) t)
simple_glob-Matches char_signed s e t r c b r' ht hb bt bb lt lb starts ends =
    let (junk, steps) =
      simple_glob-with_star c b hb ends char_signed s e (t ++ (0 ∷ r)) r' starts in
    let (m, run, iff) = go s e junk in (m, steps ∙ run, iff)
  where
    go :
        (s e : Bool) (junk : List ℕ)
        → (m : Bool) × (glob_match char_signed s e
              (length (c ∷ b))
              (t ++ (0 ∷ r))
              ((c ∷ b) ++ (0 ∷ junk))
            ≡ ok m)
          × ((m ≡ true) ↔ Matches s e (c ∷ b) t)
    go true true junk = match-both char_signed t (c ∷ b) r junk ht hb
    go false true junk = match-start char_signed t (c ∷ b) r junk ht hb
    go true false junk = match-end char_signed t (c ∷ b) r junk ht hb bt bb lt lb
    go false false junk = match-exact char_signed t (c ∷ b) r junk ht hb bt bb lt lb
