-- ===== src/CString/Length.antt =====
-- lib/string.c: lengths and copies of NUL-terminated texts.
use kvm_unit_tests.Base.{
  ℕ, zero, suc, ◌+◌, ◌≤◌, ◌<◌, min, ◌≡◌, refl, ◌≢◌, ap, ◌∙◌, List, [], ◌∷◌, ◌++◌, arith, length,
  drop, ok, fault,
}
use kvm_unit_tests.CString.{strlen_loop, strlen, strnlen_loop, strnlen, copy_loop, strcat, strcpy}

-- A text holds no NUL; in memory it is followed by one.
abbrev pub IsText : List ℕ → Type 0
IsText [] = Unit
IsText (c ∷ s) = (c ≢ 0) × IsText s

strlen_loop_lem :
    (s rest : List ℕ) (len : ℕ) → IsText s → strlen_loop (s ++ (0 ∷ rest)) len ≡ ok (len + length s)
unfolding strlen_loop
strlen_loop_lem [] rest len h = ap ok (omega arith)
strlen_loop_lem (c ∷ s) rest len h = ground (arith, strlen_loop_lem s rest (len + 1) h.1)

pub strlen_lem : (s rest : List ℕ) → IsText s → strlen (s ++ (0 ∷ rest)) ≡ ok (length s)
unfolding strlen
strlen_lem s rest h = strlen_loop_lem s rest 0 h ∙ ap ok (omega arith)

strnlen_loop_lem :
    (m n : ℕ) (s rest : List ℕ)
    → IsText s
    → strnlen_loop m (s ++ (0 ∷ rest)) n ≡ ok (n + min m (length s))
unfolding strnlen_loop
strnlen_loop_lem zero n s rest h = ap ok (omega arith)
strnlen_loop_lem (suc m) n [] rest h = ap ok (omega arith)
strnlen_loop_lem (suc m) n (c ∷ s) rest h = ground (arith, strnlen_loop_lem m (n + 1) s rest h.1)

pub strnlen_lem :
    (s rest : List ℕ) (m : ℕ) → IsText s → strnlen (s ++ (0 ∷ rest)) m ≡ ok (min m (length s))
unfolding strnlen
strnlen_lem s rest m h = strnlen_loop_lem m 0 s rest h ∙ ap ok (omega arith)

copy_loop_lem :
    (s after room : List ℕ)
    → IsText s
    → length s < length room
    → copy_loop room (s ++ (0 ∷ after)) ≡ ok (s ++ (0 ∷ drop (suc (length s)) room))
unfolding copy_loop
copy_loop_lem [] after [] h fits = absurd (omega arith)
copy_loop_lem [] after (x ∷ room) h fits = refl
copy_loop_lem (c ∷ s) after [] h fits = absurd (omega arith)
copy_loop_lem (c ∷ s) after (x ∷ room) h fits = ground (arith, copy_loop_lem s after room h.1)

copy_loop_fault :
    (s after room : List ℕ)
    → IsText s
    → length room ≤ length s
    → copy_loop room (s ++ (0 ∷ after)) ≡ fault
unfolding copy_loop
copy_loop_fault s after [] h full = refl
copy_loop_fault [] after (x ∷ room) h full = absurd (omega arith)
copy_loop_fault (c ∷ s) after (x ∷ room) h full = ground (arith, copy_loop_fault s after room h.1)

pub strcat_lem :
    (d s after room : List ℕ)
    → IsText d
    → IsText s
    → length s ≤ length room
    → strcat (d ++ (0 ∷ room)) (s ++ (0 ∷ after)) ≡ ok (d ++ (s ++ (0 ∷ drop (length s) room)))
unfolding strcat
strcat_lem [] s after room hd hs fits = copy_loop_lem s after (0 ∷ room) hs (omega arith)
strcat_lem (c ∷ d) s after room hd hs fits = ground (arith, strcat_lem d s after room hd.1 hs)

strcat_fault :
    (d s after room : List ℕ)
    → IsText d
    → IsText s
    → length room < length s
    → strcat (d ++ (0 ∷ room)) (s ++ (0 ∷ after)) ≡ fault
unfolding strcat
strcat_fault [] s after room hd hs full = copy_loop_fault s after (0 ∷ room) hs (omega arith)
strcat_fault (c ∷ d) s after room hd hs full = ground (arith, strcat_fault d s after room hd.1 hs)

-- `strcat` of two NUL-terminated texts appends the text of `src` with its NUL to the text of
-- `dest` and leaves the bytes after it, where the object of `dest` has room for it; otherwise it
-- writes outside the object.
pub strcat_total :
    (d s after room : List ℕ)
    → IsText d
    → IsText s
    → (length s ≤ length room
        → strcat (d ++ (0 ∷ room)) (s ++ (0 ∷ after)) ≡ ok (d ++ (s ++ (0 ∷ drop (length s) room))))
      × (length room < length s → strcat (d ++ (0 ∷ room)) (s ++ (0 ∷ after)) ≡ fault)
strcat_total d s after room hd hs =
    (strcat_lem d s after room hd hs, strcat_fault d s after room hd hs)

pub strcpy_lem :
    (buf s after : List ℕ)
    → IsText s
    → length s < length buf
    → strcpy buf (s ++ (0 ∷ after)) ≡ ok (s ++ (0 ∷ drop (suc (length s)) buf))
unfolding strcpy
strcpy_lem [] s after hs fits = absurd (omega arith)
strcpy_lem (c ∷ buf) s after hs fits = strcat_lem [] s after buf tt hs (omega arith)

-- `strcpy` of a text to an object that has room for it and its NUL succeeds, and `strlen` of the
-- copy is `strlen` of the original.
pub strlen-strcpy :
    (buf s after : List ℕ)
    → IsText s
    → length s < length buf
    → (copy : List ℕ) × (strcpy buf (s ++ (0 ∷ after)) ≡ ok copy)
      × (strlen copy ≡ strlen (s ++ (0 ∷ after)))
strlen-strcpy buf s after hs fits = (
  s ++ (0 ∷ drop (suc (length s)) buf),
  strcpy_lem buf s after hs fits,
  rw (strlen_lem s (drop (suc (length s)) buf) hs, strlen_lem s after hs),
)
