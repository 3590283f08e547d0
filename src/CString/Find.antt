-- ===== src/CString/Find.antt =====
-- lib/string.c: `strstr` finds the first occurrence, and `strchr` the first byte.
use mathlib.Core.Path.{subst}
use kvm_unit_tests.Base.{
  ℕ, suc, ◌+◌, ◌≤◌, ◌<◌, ◌≡◌, refl, sym, ap, Bool, true, false, ◌&&◌, inl, inr, List, [], ◌∷◌, ◌++◌,
  Option, none, some, arith, Bool-cases, length, ok, ◌==◌, leb, if◌then◌else◌,
}
use kvm_unit_tests.Base.Int.{ℤ, pos, ◌-ℤ◌, is_zero}
use kvm_unit_tests.CString.{memcmp, strstr_loop, strstr}
use kvm_unit_tests.CString.Length.{IsText, strlen_lem}

unfoldable pub is_prefix : List ℕ → List ℕ → Bool
is_prefix [] s = true
is_prefix (c ∷ t) [] = false
is_prefix (c ∷ t) (x ∷ s) = x == c && is_prefix t s

-- The least offset at which `t` occurs in `s`, counted from `i`.
unfoldable pub find : List ℕ → List ℕ → ℕ → Option ℕ
unfolding is_prefix
find [] t i = if is_prefix t [] then some i else none
find (x ∷ s) t i = let rest = find s t (i + 1) in if is_prefix t (x ∷ s) then some i else rest

-- `memcmp` on the first `length t` bytes tells whether the second text begins with `t`.
pub memcmp-is_prefix :
    (t s r r' : List ℕ)
    → length t ≤ length s
    → (d : ℤ) × (memcmp (s ++ r) (t ++ r') (length t) ≡ ok d) × (is_zero d ≡ is_prefix t s)
unfolding memcmp is_prefix
memcmp-is_prefix [] s r r' h = (pos 0, refl, refl)
memcmp-is_prefix (c ∷ t) [] r r' h = absurd (omega arith)
memcmp-is_prefix (c ∷ t) (x ∷ s) r r' h =
    let (d, e, z) = memcmp-is_prefix t s r r' (omega arith) in
    elim (Bool-cases (x == c)) [
      | inl same ↦ (d, ground arith, ground arith)
      | inr other ↦ (pos x -ℤ pos c, ground arith, ground arith)
    ]

is_prefix_long : (t s : List ℕ) → length s < length t → is_prefix t s ≡ false
unfolding is_prefix
is_prefix_long [] s h = absurd (omega arith)
is_prefix_long (c ∷ t) [] h = refl
is_prefix_long (c ∷ t) (x ∷ s) h = ground (arith, is_prefix_long t s (omega arith))

find_long : (s t : List ℕ) (i : ℕ) → length s < length t → find s t i ≡ none
unfolding find
find_long [] t i h = ground (arith, is_prefix_long t [] h)
find_long (x ∷ s) t i h =
    ground (arith, is_prefix_long t (x ∷ s) h, find_long s t (i + 1) (omega arith))

strstr_loop_lem :
    (s t r r' : List ℕ) (i : ℕ)
    → 0 < length t
    → strstr_loop (length s) (s ++ r) (t ++ r') (length t) i ≡ ok (find s t i)
unfolding strstr_loop find
strstr_loop_lem [] t r r' i h = ground (arith, is_prefix_long t [] h)
strstr_loop_lem (x ∷ s) t r r' i h = elim (Bool-cases (leb (length t) (suc (length s)))) [
  | inl long ↦
      let (d, e, z) = memcmp-is_prefix t (x ∷ s) r r' (ground arith) in
      ground (arith, strstr_loop_lem s t r r' (i + 1) h)
  | inr short ↦ ground (arith, is_prefix_long t (x ∷ s), find_long s t (i + 1))
]

find-nil : (s : List ℕ) → find s [] 0 ≡ some 0
unfolding find is_prefix
find-nil [] = refl
find-nil (x ∷ s) = refl

pub strstr_lem :
    (s t r r' : List ℕ)
    → IsText s
    → IsText t
    → strstr (s ++ (0 ∷ r)) (t ++ (0 ∷ r')) ≡ ok (find s t 0)
unfolding strstr
strstr_lem s [] r r' hs ht = ap ok (sym (find-nil s))
strstr_lem s (c ∷ t) r r' hs ht =
    rw (strlen_lem (c ∷ t) r' ht, strlen_lem s r hs)
      (ground (arith, strstr_loop_lem s (c ∷ t) (0 ∷ r) (0 ∷ r') 0))

-- `t` stands in `s` at offset `i` and at no smaller one.
pub record IsFirst (s t : List ℕ) (i : ℕ) : Type 0 where
  pub before : List ℕ
  pub after : List ℕ
  pub splits : s ≡ before ++ (t ++ after)
  pub offset : length before ≡ i
  pub least : (u v : List ℕ) → s ≡ u ++ (t ++ v) → i ≤ length u

abbrev pub Finds : List ℕ → List ℕ → Option ℕ → Type 0
Finds s t none = (u v : List ℕ) → ¬ (s ≡ u ++ (t ++ v))
Finds s t (some i) = IsFirst s t i

is_prefix-splits : (t s : List ℕ) → is_prefix t s ≡ true → (v : List ℕ) × (s ≡ t ++ v)
unfolding is_prefix
is_prefix-splits [] s h = (s, refl)
is_prefix-splits (c ∷ t) [] h = absurd (cc)
is_prefix-splits (c ∷ t) (x ∷ s) h =
    let (v, e) = is_prefix-splits t s (ground arith) in (v, ground arith)

pub is_prefix-append : (t v : List ℕ) → is_prefix t (t ++ v) ≡ true
unfolding is_prefix
is_prefix-append [] v = refl
is_prefix-append (c ∷ t) v = ground (arith, is_prefix-append t v)

is_prefix_of_splits : (t s v : List ℕ) → s ≡ t ++ v → is_prefix t s ≡ true
is_prefix_of_splits t s v e = rw e (is_prefix-append t v)

find_absent : (s t : List ℕ) (i : ℕ) → find s t i ≡ none → (u v : List ℕ) → ¬ (s ≡ u ++ (t ++ v))
unfolding find
find_absent [] t i h [] v e = ground (arith, is_prefix_of_splits t [] v e)
find_absent [] t i h (y ∷ u) v e = cc
find_absent (x ∷ s) t i h [] v e = ground (arith, is_prefix_of_splits t (x ∷ s) v e)
find_absent (x ∷ s) t i h (y ∷ u) v e = find_absent s t (i + 1) (ground arith) u v (cc)

IsFirst-cons :
    (x : ℕ) (s t : List ℕ) (k : ℕ)
    → is_prefix t (x ∷ s) ≡ false
    → IsFirst s t k
    → IsFirst (x ∷ s) t (suc k)
IsFirst-cons x s t k no_here f = record {
  before = x ∷ f.before;
  after = f.after;
  splits = ap (λ l. x ∷ l) f.splits;
  offset = ap suc f.offset;
  least = least;
}
  where
    least : (u v : List ℕ) → x ∷ s ≡ u ++ (t ++ v) → suc k ≤ length u
    least [] v e = ground (arith, is_prefix_of_splits t (x ∷ s) v e)
    least (y ∷ u) v e =
        let e' : s ≡ u ++ (t ++ v) = cc in let le : k ≤ length u = f.least u v e' in omega arith

IsFirst-here : (s t : List ℕ) → is_prefix t s ≡ true → IsFirst s t 0
IsFirst-here s t h =
    let (v, e) = is_prefix-splits t s h in
    record { before = []; after = v; splits = e; offset = refl; least = λ u w p. omega arith }

find_present :
    (s t : List ℕ) (i j : ℕ) → find s t i ≡ some j → (k : ℕ) × (j ≡ i + k) × IsFirst s t k
unfolding find
find_present [] t i j h = elim (Bool-cases (is_prefix t [])) [
  | inl here ↦ (0, ground arith, IsFirst-here [] t here)
  | inr gone ↦ absurd (ground arith)
]
find_present (x ∷ s) t i j h = elim (Bool-cases (is_prefix t (x ∷ s))) [
  | inl here ↦ (0, ground arith, IsFirst-here (x ∷ s) t here)
  | inr gone ↦
      let (k, e, f) = find_present s t (i + 1) j (ground arith) in
      (suc k, omega arith, IsFirst-cons x s t k gone f)
]

find-Finds : (s t : List ℕ) (o : Option ℕ) → find s t 0 ≡ o → Finds s t o
find-Finds s t none h = find_absent s t 0 h
find-Finds s t (some j) h =
    let (k, e, f) = find_present s t 0 j h in
    let same : k ≡ j = omega arith in subst (IsFirst s t) same f

-- On NUL-terminated texts `strstr` returns without reading outside them: the offset of the first
-- occurrence of the second text in the first if there is one, and NULL only if there is none.
pub strstr-Finds :
    (s t r r' : List ℕ)
    → IsText s
    → IsText t
    → (o : Option ℕ) × (strstr (s ++ (0 ∷ r)) (t ++ (0 ∷ r')) ≡ ok o) × Finds s t o
strstr-Finds s t r r' hs ht = (find s t 0, strstr_lem s t r r' hs ht, find-Finds s t _ refl)
