-- ===== src/CString/Glob.antt =====
-- lib/string.c: `simple_glob`.
-- The array `copy` is taken to hold zeros before it is written.
pub mod Match
pub mod Pattern
use kvm_unit_tests.Base.{
  ℕ, zero, suc, ◌+◌, ◌-◌, ◌≤◌, ◌<◌, ◌≡◌, ◌≢◌, refl, sym, ◌∙◌, ap, Bool, true, false, ◌&&◌, List, [],
  ◌∷◌, ◌++◌, Option, none, some, arith, ok, Result, ◌>>=◌, ltb, lt→ltb, ◌==◌, if◌then◌else◌, length,
  length-append, replicate, length-replicate, get_elem?, set, drop, in_object,
}
use mathlib.Core.List.{append_assoc}
use kvm_unit_tests.Base.Int.{is_zero}
use kvm_unit_tests.CString.{strlen, strcpy, strcmp, strstr}
use kvm_unit_tests.CString.Length.{IsText, strlen_lem, strcpy_lem}

-- The copy of the pattern from `p` on, of length `n`, and what is done about a '*' at its end:
-- `star_end`, the new `n` and the copy.
unfoldable pub glob_end : ℕ → List ℕ → List ℕ → Result (Bool × ℕ × List ℕ)
glob_end n p buf = do
  copy ← strcpy buf p
  last ← if ltb 0 n then in_object (get_elem? p (n - 1)) else ok 0
  let star_end = last == b'*'
  ok (if star_end then (true, n - 1, set copy (n - 1) 0) else (false, n, copy))

-- The tests at the end of the function.
unfoldable pub glob_match : Bool → Bool → Bool → ℕ → List ℕ → List ℕ → Result Bool
glob_match char_signed true true n text copy = do
  o ← strstr text copy
  ok (elim o [ none ↦ false | some i ↦ true ])
glob_match char_signed false true n text copy = do
  o ← strstr text copy
  ok (elim o [ none ↦ false | some i ↦ i == 0 ])
glob_match char_signed true false n text copy = do
  text_len ← strlen text
  let suffix = (do r ← strcmp char_signed (drop (text_len - n) text) copy; ok (is_zero r))
  if ltb text_len n then ok false else suffix
glob_match char_signed false false n text copy = do r ← strcmp char_signed text copy; ok (is_zero r)

unfoldable pub simple_glob : Bool → List ℕ → List ℕ → Result Bool
simple_glob char_signed text pattern = do
  n ← strlen pattern
  c ← in_object (get_elem? pattern 0)
  let star_start = c == b'*'
  (star_end, n, copy) ←
      glob_end (if star_start then n - 1 else n) (if star_start then drop 1 pattern else pattern)
        (replicate (n + 1) 0)
  glob_match char_signed star_start star_end n text copy

pub simple_glob-steps :
    (char_signed s e : Bool) (text pattern copy : List ℕ) (n l x : ℕ)
    → strlen pattern ≡ ok n
    → get_elem? pattern 0 ≡ some x
    → (x == b'*') ≡ s
    → glob_end
        (if s then n - 1 else n)
        (if s then drop 1 pattern else pattern)
        (replicate (n + 1) 0)
      ≡ ok (e, l, copy)
    → simple_glob char_signed text pattern ≡ glob_match char_signed s e l text copy
unfolding simple_glob
simple_glob-steps char_signed s e text pattern copy n l x len head starts rest =
    rw (len, head, starts, rest) refl

-- A body of a pattern: not empty, with no '*' at either end.
abbrev pub last_of : ℕ → List ℕ → ℕ
last_of c [] = c
last_of c (d ∷ b) = last_of d b

abbrev pub star : Bool → List ℕ
star true = b'*' ∷ []
star false = []

get_elem?-last :
    (c : ℕ) (b rest : List ℕ) → get_elem? ((c ∷ b) ++ rest) (length b) ≡ some (last_of c b)
get_elem?-last c [] rest = refl
get_elem?-last c (d ∷ b) rest = get_elem?-last d b rest

get_elem?-middle : (b rest : List ℕ) (x : ℕ) → get_elem? (b ++ (x ∷ rest)) (length b) ≡ some x
get_elem?-middle [] rest x = refl
get_elem?-middle (c ∷ b) rest x = get_elem?-middle b rest x

set-middle : (b rest : List ℕ) (x v : ℕ) → set (b ++ (x ∷ rest)) (length b) v ≡ b ++ (v ∷ rest)
set-middle [] rest x v = refl
set-middle (c ∷ b) rest x v = ap (λ t. c ∷ t) (set-middle b rest x v)

IsText-snoc : (s : List ℕ) (x : ℕ) → IsText s → x ≢ 0 → IsText (s ++ (x ∷ []))
IsText-snoc [] x h n = (n, tt)
IsText-snoc (c ∷ s) x h n = (h.0, IsText-snoc s x h.1 n)

module _ (c : ℕ) (b : List ℕ) (t : IsText (c ∷ b)) (ends : last_of c b ≢ b'*') where
  -- The copy holds the body, whether a '*' follows it or not.
  pub glob_end-plain :
      (r buf : List ℕ)
      → length (c ∷ b) < length buf
      → (junk : List ℕ) × (glob_end (length (c ∷ b)) ((c ∷ b) ++ (0 ∷ r)) buf
          ≡ ok (false, length (c ∷ b), (c ∷ b) ++ (0 ∷ junk)))
  unfolding glob_end
  glob_end-plain r buf fits =
      let some_left : ltb 0 (length (c ∷ b)) ≡ true = lt→ltb _ _ (omega arith) in
      let pred : length (c ∷ b) - 1 ≡ length b = omega arith in
      let no_star : (last_of c b == b'*') ≡ false = ground arith in
      (
        drop (suc (length (c ∷ b))) buf,
        rw (strcpy_lem buf (c ∷ b) r t fits, some_left, pred, get_elem?-last c b (0 ∷ r), no_star)
            refl,
      )

  pub glob_end-star :
      (r buf : List ℕ)
      → length (c ∷ b) + 1 < length buf
      → (junk : List ℕ) × (glob_end (length (c ∷ b) + 1) (((c ∷ b) ++ (b'*' ∷ [])) ++ (0 ∷ r)) buf
          ≡ ok (true, length (c ∷ b), (c ∷ b) ++ (0 ∷ junk)))
  unfolding glob_end
  glob_end-star r buf fits =
      let long = length-append (c ∷ b) (b'*' ∷ []) in
      let some_left : ltb 0 (length (c ∷ b) + 1) ≡ true = lt→ltb _ _ (omega arith) in
      let pred : length (c ∷ b) + 1 - 1 ≡ length (c ∷ b) = omega arith in
      let junk = drop (suc (length ((c ∷ b) ++ (b'*' ∷ [])))) buf in
      let copied : strcpy buf (((c ∷ b) ++ (b'*' ∷ [])) ++ (0 ∷ r))
          ≡ ok ((c ∷ b) ++ (b'*' ∷ 0 ∷ junk)) =
        strcpy_lem buf ((c ∷ b) ++ (b'*' ∷ [])) r (IsText-snoc (c ∷ b) b'*' t (omega arith))
          (omega arith)
        ∙ ap ok (append_assoc (c ∷ b) (b'*' ∷ []) (0 ∷ junk)) in
      let at_end : get_elem? (((c ∷ b) ++ (b'*' ∷ [])) ++ (0 ∷ r)) (length (c ∷ b)) ≡ some b'*' =
        ap (λ m. get_elem? m (length (c ∷ b))) (append_assoc (c ∷ b) (b'*' ∷ []) (0 ∷ r))
        ∙ get_elem?-middle (c ∷ b) (0 ∷ r) b'*' in
      (0 ∷ junk, rw (copied, some_left, pred, at_end, set-middle (c ∷ b) (0 ∷ junk) b'*' 0) refl)
