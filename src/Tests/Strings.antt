-- ===== src/Tests/Strings.antt =====
-- lib/string.c: the string and memory functions on short texts.
use kvm_unit_tests.Base.{
  ℕ, Bool, map, ◌≤◌, ◌<◌, ◌≡◌, ◌↔◌, refl, inl, true, false, List, [], ◌∷◌, ◌++◌, Option, none, some,
  arith, ok, fault, take,
}
use kvm_unit_tests.Base.Int.{ℤ, pos, negsuc, is_zero}
use kvm_unit_tests.CString.{
  strlen, strcat, strcpy, strcmp, strncmp, strchr, strrchr, strstr, memchr, memcmp,
}
use kvm_unit_tests.CString.Length.{strcat_total, strlen-strcpy}
use kvm_unit_tests.CString.Find.{Finds, strstr-Finds}
use kvm_unit_tests.CString.Compare.{strcmp_zero_iff, strncmp_zero_iff}
use kvm_unit_tests.CString.Locate.{strchr_found}
use kvm_unit_tests.CString.Glob.{simple_glob, glob_end, glob_match}
use kvm_unit_tests.CString.Glob.Match.{Matches}
use kvm_unit_tests.CString.Glob.Pattern.{simple_glob-Matches}
use kvm_unit_tests.CString.Getenv.{getenv, Variable, entry, lookup, getenv-lookup}
use kvm_unit_tests.Memory.{memset, memcpy, memmove}
use kvm_unit_tests.Memory.Move.{IsMoved, IsFilled, memset-IsFilled, memcpy-IsMoved, memmove-IsMoved}

-- "ab", "ba" and "abab", and the bytes 1 to 5
abbrev ab : List ℕ
ab = 97 ∷ 98 ∷ []

abbrev ba : List ℕ
ba = 98 ∷ 97 ∷ []

abbrev abab : List ℕ
abab = 97 ∷ 98 ∷ 97 ∷ 98 ∷ []

abbrev five : List ℕ
five = 1 ∷ 2 ∷ 3 ∷ 4 ∷ 5 ∷ []

strstr_runs :
    (strstr (abab ++ (0 ∷ [])) (ba ++ (0 ∷ [])) ≡ ok (some 1))
    × (strstr (ab ++ (0 ∷ [])) (abab ++ (0 ∷ [])) ≡ ok none)
    × (strstr ab (ba ++ (0 ∷ [])) ≡ fault)
unfolding strstr
strstr_runs = (refl, refl, refl)

locate_runs :
    (strchr (abab ++ (0 ∷ [])) 98 ≡ ok (some 1))
    × (strrchr (abab ++ (0 ∷ [])) 98 ≡ ok (some 3))
    × (memchr abab 0 4 ≡ ok none)
unfolding strchr strrchr memchr
locate_runs = (refl, refl, refl)

-- A byte above 127 is below the others where `char` is signed, and above them where it is not.
strcmp_runs :
    (strcmp true (200 ∷ 0 ∷ []) (97 ∷ 0 ∷ []) ≡ ok (negsuc 152))
    × (strcmp false (200 ∷ 0 ∷ []) (97 ∷ 0 ∷ []) ≡ ok (pos 103))
unfolding strcmp strncmp
strcmp_runs = (refl, refl)

memmove_runs :
    (memmove five 1 0 3 ≡ ok (1 ∷ 1 ∷ 2 ∷ 3 ∷ 5 ∷ []))
    × (memcpy five 1 0 3 ≡ ok (1 ∷ 1 ∷ 1 ∷ 1 ∷ 5 ∷ []))
    × (memset five 3 7 3 ≡ fault)
unfolding memmove memcpy memset
memmove_runs = (refl, refl, refl)

strstr-Finds_example :
    (o : Option ℕ) × (strstr (abab ++ (0 ∷ [])) (ba ++ (0 ∷ [])) ≡ ok o) × Finds abab ba o
strstr-Finds_example = strstr-Finds abab ba [] [] (omega arith) (omega arith)

strcmp_zero_iff_example :
    (d : ℤ) × (strcmp true (ab ++ (0 ∷ [])) (ba ++ (0 ∷ [])) ≡ ok d)
    × ((is_zero d ≡ true) ↔ (ab ≡ ba))
strcmp_zero_iff_example =
    strcmp_zero_iff true ab ba [] [] (omega arith) (omega arith) (omega arith) (omega arith)
      (omega arith) (omega arith)

strncmp_zero_iff_example :
    (d : ℤ) × (strncmp true (abab ++ (0 ∷ [])) (ab ++ (0 ∷ [])) 2 ≡ ok d)
    × ((is_zero d ≡ true) ↔ (take 2 abab ≡ take 2 ab))
strncmp_zero_iff_example =
    strncmp_zero_iff true 2 abab ab [] [] (omega arith) (omega arith) (omega arith) (omega arith)

strcat_total_example :
    (2 ≤ 3 → strcat (ab ++ (0 ∷ 7 ∷ 7 ∷ 7 ∷ [])) (ba ++ (0 ∷ [])) ≡ ok (ab ++ (ba ++ (0 ∷ 7 ∷ []))))
    × (3 < 2 → strcat (ab ++ (0 ∷ 7 ∷ 7 ∷ 7 ∷ [])) (ba ++ (0 ∷ [])) ≡ fault)
strcat_total_example = strcat_total ab ba [] (7 ∷ 7 ∷ 7 ∷ []) (omega arith) (omega arith)

strlen-strcpy_example :
    (copy : List ℕ) × (strcpy five (ab ++ (0 ∷ [])) ≡ ok copy)
    × (strlen copy ≡ strlen (ab ++ (0 ∷ [])))
strlen-strcpy_example = strlen-strcpy five ab [] (omega arith) (omega arith)

strchr_found_example : strchr (ab ++ (61 ∷ ba)) 61 ≡ ok (some 2)
strchr_found_example = strchr_found ab ba 61 (omega arith) (omega arith) (omega arith)

memmove-IsMoved_example : IsMoved five 1 0 3 (memmove five 1 0 3)
memmove-IsMoved_example = memmove-IsMoved five 1 0 3 (omega arith) (omega arith)

memcpy-IsMoved_example : IsMoved five 0 2 3 (memcpy five 0 2 3)
memcpy-IsMoved_example = memcpy-IsMoved five 0 2 3 (inl (omega arith)) (omega arith) (omega arith)

memset-IsFilled_example : IsFilled five 1 3 4 (memset five 1 260 2)
memset-IsFilled_example = memset-IsFilled five 1 260 2 (omega arith)

-- "ab=ba" and "x="
abbrev variables : List Variable
variables = record { key = ab; value = ba } ∷ record { key = 120 ∷ []; value = [] } ∷ []

getenv_runs :
    (getenv (120 ∷ 0 ∷ []) (map entry variables) ≡ ok (some (1, 2)))
    × (getenv (97 ∷ 0 ∷ []) (map entry variables) ≡ ok none)
unfolding getenv memcmp strchr
getenv_runs = (refl, refl)

getenv-lookup_example : getenv (ab ++ (0 ∷ [])) (map entry variables) ≡ ok (lookup ab variables 0)
getenv-lookup_example =
    getenv-lookup ab [] variables (omega arith)
      ((omega arith, omega arith), ((omega arith, omega arith), tt))

-- "a*", "*b" and "*"
simple_glob_runs :
    (simple_glob true (ab ++ (0 ∷ [])) (97 ∷ b'*' ∷ 0 ∷ []) ≡ ok true)
    × (simple_glob true (ba ++ (0 ∷ [])) (b'*' ∷ 98 ∷ 0 ∷ []) ≡ ok false)
    × (simple_glob true (ab ++ (0 ∷ [])) (b'*' ∷ 0 ∷ []) ≡ ok true)
unfolding simple_glob glob_end glob_match strlen strcpy strcat strcmp strncmp strstr memcmp
simple_glob_runs = (refl, refl, refl)

simple_glob-Matches_example :
    (m : Bool) × (simple_glob true (abab ++ (0 ∷ [])) (b'*' ∷ 98 ∷ 97 ∷ b'*' ∷ 0 ∷ []) ≡ ok m)
    × ((m ≡ true) ↔ Matches true true ba abab)
simple_glob-Matches_example =
    simple_glob-Matches true true true abab [] 98 (97 ∷ []) [] (omega arith) (omega arith)
      (omega arith) (omega arith) (omega arith) (omega arith) (λ e. omega arith) (λ e. omega arith)
