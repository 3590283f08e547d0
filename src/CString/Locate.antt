-- ===== src/CString/Locate.antt =====
-- lib/string.c: `strchr` finds the first byte of a value.
use kvm_unit_tests.Base.{ℕ, ◌+◌, ◌<◌, ◌≡◌, ◌≢◌, List, [], ◌∷◌, ◌++◌, none, some, arith, length, ok}
use kvm_unit_tests.CString.{strchr_loop, strchr}
use kvm_unit_tests.CString.Length.{IsText}

abbrev pub Lacks : ℕ → List ℕ → Type 0
Lacks c [] = Unit
Lacks c (x ∷ s) = (x ≢ c) × Lacks c s

strchr_loop_found :
    (u v : List ℕ) (c i : ℕ)
    → IsText u
    → Lacks c u
    → strchr_loop (u ++ (c ∷ v)) c i ≡ ok (some (i + length u))
unfolding strchr_loop
strchr_loop_found [] v c i h l = ground arith
strchr_loop_found (x ∷ u) v c i h l = ground (arith, strchr_loop_found u v c (i + 1) h.1 l.1)

strchr_loop_absent :
    (s r : List ℕ) (c i : ℕ)
    → c ≢ 0
    → IsText s
    → Lacks c s
    → strchr_loop (s ++ (0 ∷ r)) c i ≡ ok none
unfolding strchr_loop
strchr_loop_absent [] r c i nz h l = ground arith
strchr_loop_absent (x ∷ s) r c i nz h l =
    ground (arith, strchr_loop_absent s r c (i + 1) nz h.1 l.1)

-- `strchr` for a byte `c` returns the offset of the first one, where it follows characters other
-- than NUL and `c`.
pub strchr_found :
    (u v : List ℕ) (c : ℕ)
    → c < 256
    → IsText u
    → Lacks c u
    → strchr (u ++ (c ∷ v)) c ≡ ok (some (length u))
unfolding strchr
strchr_found u v c b h l = ground (arith, strchr_loop_found u v c 0 h l)

-- A byte other than NUL that a text lacks is not found past its NUL.
pub strchr_absent :
    (s r : List ℕ) (c : ℕ)
    → c < 256
    → c ≢ 0
    → IsText s
    → Lacks c s
    → strchr (s ++ (0 ∷ r)) c ≡ ok none
unfolding strchr
strchr_absent s r c b nz h l = ground (arith, strchr_loop_absent s r c 0 nz h l)
