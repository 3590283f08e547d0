-- ===== src/CString/Getenv.antt =====
-- lib/string.c: `getenv`.
use kvm_unit_tests.Base.{
  ℕ, ◌+◌, ◌≡◌, refl, Bool, true, false, Bool-cases, ◌&&◌, inl, inr, List, [], ◌∷◌, ◌++◌, map,
  Option, none, some, arith, ok, Result, aborted, ◌>>=◌, ◌==◌, if◌then◌else◌, get_elem?, in_object,
  length,
}
use kvm_unit_tests.Base.Int.{ℤ, pos, ◌-ℤ◌, is_zero}
use kvm_unit_tests.CString.{memcmp, strchr}
use kvm_unit_tests.CString.Length.{IsText}
use kvm_unit_tests.CString.Find.{is_prefix}
use kvm_unit_tests.CString.Locate.{Lacks, strchr_found}

-- The loop over `environ`, a list of texts whose end is NULL: the index of the entry in it, and the
-- offset of the value in the entry.
unfoldable pub getenv_loop : List ℕ → List (List ℕ) → ℕ → Result (Option (ℕ × ℕ))
getenv_loop name [] i = ok none
getenv_loop name (env ∷ envp) i =
    let rest = getenv_loop name envp (i + 1) in
    (do
      delim ← strchr env b'='
      elim delim [
        | none ↦ aborted
        | some len ↦ (do
          r ← memcmp name env len
          let at_len = (do
            c ← in_object (get_elem? name len)
            if c == 0 then ok (some (i, len + 1)) else rest)
          if is_zero r then at_len else rest)
      ])

unfoldable pub getenv : List ℕ → List (List ℕ) → Result (Option (ℕ × ℕ))
unfolding getenv_loop
getenv name environ = getenv_loop name environ 0

-- A variable, and its entry in `environ`.
pub record Variable : Type 0 where
  pub key : List ℕ
  pub value : List ℕ

abbrev pub entry : Variable → List ℕ
entry v = v.key ++ (b'=' ∷ (v.value ++ (0 ∷ [])))

abbrev pub IsVariables : List Variable → Type 0
IsVariables [] = Unit
IsVariables (v ∷ vs) = (IsText v.key × Lacks b'=' v.key) × IsVariables vs

unfoldable pub same_text : List ℕ → List ℕ → Bool
same_text [] [] = true
same_text [] (y ∷ t) = false
same_text (x ∷ s) [] = false
same_text (x ∷ s) (y ∷ t) = y == x && same_text s t

-- The first variable of that name, with the offset of its value.
abbrev pub lookup : List ℕ → List Variable → ℕ → Option (ℕ × ℕ)
lookup name [] i = none
lookup name (v ∷ vs) i =
    let rest = lookup name vs (i + 1) in
    if same_text v.key name then some (i, length v.key + 1) else rest

-- Comparing as many bytes as the key has stops at the end of the name.
memcmp-key :
    (key name r r' : List ℕ)
    → IsText key
    → (d : ℤ) × (memcmp (name ++ (0 ∷ r)) (key ++ r') (length key) ≡ ok d)
      × (is_zero d ≡ is_prefix key name)
unfolding memcmp is_prefix
memcmp-key [] name r r' k = (pos 0, refl, refl)
memcmp-key (c ∷ key) [] r r' k = (pos 0 -ℤ pos c, ground (arith, k.0), ground (arith, k.0))
memcmp-key (c ∷ key) (x ∷ name) r r' k =
    let (d, e, z) = memcmp-key key name r r' k.1 in
    elim (Bool-cases (x == c)) [
      | inl same ↦ (d, ground arith, ground arith)
      | inr other ↦ (pos x -ℤ pos c, ground arith, ground arith)
    ]

-- The byte of the name behind the key.
key_end :
    (key name r : List ℕ)
    → IsText name
    → is_prefix key name ≡ true
    → (c : ℕ) × (get_elem? (name ++ (0 ∷ r)) (length key) ≡ some c)
      × ((c == 0) ≡ same_text key name)
unfolding is_prefix same_text
key_end [] [] r t h = (0, refl, refl)
key_end [] (x ∷ name) r t h = (x, refl, ground (arith, t.0))
key_end (c ∷ key) [] r t h = absurd (cc)
key_end (c ∷ key) (x ∷ name) r t h =
    let (b, g, z) = key_end key name r t.1 (ground arith) in (b, g, ground arith)

not_prefix : (key name : List ℕ) → is_prefix key name ≡ false → same_text key name ≡ false
unfolding is_prefix same_text
not_prefix [] name h = absurd (cc)
not_prefix (c ∷ key) [] h = refl
not_prefix (c ∷ key) (x ∷ name) h = ground (arith, not_prefix key name)

last_step :
    (b : Bool) (o o' : Option (ℕ × ℕ)) → (if b then ok o else ok o') ≡ ok (if b then o else o')
last_step true o o' = refl
last_step false o o' = refl

getenv_loop-lookup :
    (name r : List ℕ) (vs : List Variable) (i : ℕ)
    → IsText name
    → IsVariables vs
    → getenv_loop (name ++ (0 ∷ r)) (map entry vs) i ≡ ok (lookup name vs i)
unfolding getenv_loop
getenv_loop-lookup name r [] i t h = refl
getenv_loop-lookup name r (v ∷ vs) i t h =
    let found = strchr_found v.key (v.value ++ (0 ∷ [])) b'=' (omega arith) h.0.0 h.0.1 in
    let (d, e, z) = memcmp-key v.key name r (b'=' ∷ (v.value ++ (0 ∷ []))) h.0.0 in
    let later = getenv_loop-lookup name r vs (i + 1) t h.1 in
    elim (Bool-cases (is_prefix v.key name)) [
      | inl p ↦
          let (c, g, s) = key_end v.key name r t p in
          rw (found, e, z, p, g, s, later) (last_step (same_text v.key name) _ _)
      | inr n ↦ rw (found, e, z, n, not_prefix v.key name n, later) refl
    ]

-- On texts of the form "key=value", with no '=' in a key, `getenv` returns, and finds the value of
-- the first variable whose key is the name, and NULL where there is none.
pub getenv-lookup :
    (name r : List ℕ) (vs : List Variable)
    → IsText name
    → IsVariables vs
    → getenv (name ++ (0 ∷ r)) (map entry vs) ≡ ok (lookup name vs 0)
unfolding getenv
getenv-lookup name r vs t h = getenv_loop-lookup name r vs 0 t h
