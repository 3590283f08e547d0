-- ===== src/Printf/Stream.antt =====
-- lib/printf.c: what `addchar` and `print_str` write.
use kvm_unit_tests.Base.{
  ℕ, zero, suc, ◌+◌, ◌-◌, ◌≤◌, ◌<◌, min, ◌≡◌, refl, ◌≢◌, ap, ◌∙◌, sym, inl, inr, Bool-cases, true,
  false, List, [], ◌∷◌, ◌++◌, arith, length, take, drop, replicate, ◌==◌, if◌then◌else◌, Result, ok,
  fault, aborted, ◌>>=◌,
}
use kvm_unit_tests.Base.Int.{ℤ, pos, negsuc, pos_part, neg_part, ◌-ℤ◌, is_zero}
use mathlib.Core.List.{append-nil, append_assoc}
use kvm_unit_tests.CString.Length.{IsText, strlen_lem}
use kvm_unit_tests.Printf.{
  Pstream, Strprops, put_char, addchar, pad_loop, str_loop, is_pos, is_neg, pad_left, pad_right,
  print_str,
}

-- `addchar` of each character of a text.
unfoldable pub emit : List ℕ → Pstream → Result Pstream
emit [] p = ok p
emit (c ∷ t) p = do q ← addchar c p; emit t q

abbrev pub stream : List ℕ → List ℕ → ℕ → ℕ → Pstream
stream w b r a = record { written = w; buffer = b; remain = pos r; added = a }

pub bind_assoc {ℓ} :
    {A B C : Type ℓ} (x : Result A) (f : A → Result B) (g : B → Result C)
    → (x >>= f >>= g) ≡ (x >>= λ a. f a >>= g)
bind_assoc (ok a) f g = refl
bind_assoc fault f g = refl
bind_assoc aborted f g = refl

pub bind_cong {ℓ} :
    {A B : Type ℓ} (x : Result A) {f g : A → Result B}
    → ((a : A) → f a ≡ g a)
    → (x >>= f) ≡ (x >>= g)
bind_cong (ok a) e = e a
bind_cong fault e = refl
bind_cong aborted e = refl

pub emit-append : (s t : List ℕ) (p : Pstream) → emit (s ++ t) p ≡ (emit s p >>= λ q. emit t q)
unfolding emit
emit-append [] t p = refl
emit-append (c ∷ s) t p =
    bind_cong (addchar c p) (λ q. emit-append s t q)
    ∙ sym (bind_assoc (addchar c p) (λ q. emit s q) (λ q. emit t q))

pub pred : (r : ℕ) → (pos (suc r) -ℤ pos 1) ≡ pos r
pred r = ground arith

pub pred_neg : (r : ℕ) → (negsuc r -ℤ pos 1) ≡ negsuc (suc r)
pred_neg r = ground arith

addchar-full :
    (c : ℕ) (w b : List ℕ) (a : ℕ) → addchar c (stream w b 0 a) ≡ ok (stream w b 0 (a + 1))
unfolding addchar
addchar-full c w b a = refl

not_zero : (r : ℕ) → is_zero (pos (suc r)) ≡ false
not_zero r = ground arith

not_zero_neg : (r : ℕ) → is_zero (negsuc r) ≡ false
not_zero_neg r = ground arith

addchar-room :
    (c x : ℕ) (w b : List ℕ) (r a : ℕ)
    → addchar c (stream w (x ∷ b) (suc r) a) ≡ ok (stream (w ++ (c ∷ [])) b r (a + 1))
unfolding addchar put_char
addchar-room c x w b r a = rw (not_zero r, pred r)

min-zero : (r : ℕ) → 0 ≡ min r 0
min-zero r = omega arith

zero-min : (n : ℕ) → min 0 n ≡ min 0 (suc n)
zero-min n = omega arith

suc-min : (r n : ℕ) → suc (min r n) ≡ min (suc r) (suc n)
suc-min r n = omega arith

stream_cong :
    {w w' b b' : List ℕ} {r r' a a' : ℕ}
    → w ≡ w'
    → b ≡ b'
    → r ≡ r'
    → a ≡ a'
    → ok (stream w b r a) ≡ ok (stream w' b' r' a')
stream_cong e f g h = cc

-- The stream has room for the characters left and a NUL.
pub emit_lem :
    (t w b : List ℕ) (r a : ℕ)
    → r < length b
    → emit t (stream w b r a)
      ≡ ok (stream (w ++ take r t) (drop (min r (length t)) b) (r - length t) (a + length t))
unfolding emit
emit_lem [] w b zero a h =
    stream_cong (sym (append-nil w)) (ap (λ n. drop n b) (min-zero zero)) (omega arith)
      (omega arith)
emit_lem [] w b (suc r) a h =
    stream_cong (sym (append-nil w)) (ap (λ n. drop n b) (min-zero (suc r))) (omega arith)
      (omega arith)
emit_lem (c ∷ t) w b zero a h =
    ap (λ x. x >>= emit t) (addchar-full c w b a)
    ∙ emit_lem t w b zero (a + 1) h
    ∙ stream_cong refl (ap (λ n. drop n b) (zero-min (length t))) (omega arith) (omega arith)
emit_lem (c ∷ t) w [] (suc r) a h = absurd (omega arith)
emit_lem (c ∷ t) w (x ∷ b) (suc r) a h =
    ap (λ x. x >>= emit t) (addchar-room c x w b r a)
    ∙ emit_lem t (w ++ (c ∷ [])) b r (a + 1) (omega arith)
    ∙ stream_cong (append_assoc w (c ∷ []) (take r t))
        (ap (λ n. drop n (x ∷ b)) (suc-min r (length t))) (omega arith) (omega arith)

pub pad_loop-emit : (n c : ℕ) (p : Pstream) → pad_loop n c p ≡ emit (replicate n c) p
unfolding pad_loop emit
pad_loop-emit zero c p = refl
pad_loop-emit (suc n) c p = bind_cong (addchar c p) (λ q. pad_loop-emit n c q)

nonzero : (c : ℕ) → c ≢ 0 → (c == 0) ≡ false
nonzero c h = ground arith

-- The part of a text that a precision leaves.
abbrev pub cut : ℤ → List ℕ → List ℕ
cut (pos k) s = take k s
cut (negsuc k) s = s

pub str_loop-emit :
    (s rest : List ℕ) (precision : ℤ) (p : Pstream)
    → IsText s
    → str_loop (s ++ (0 ∷ rest)) precision p ≡ emit (cut precision s) p
unfolding str_loop emit
str_loop-emit [] rest (pos zero) p h = refl
str_loop-emit [] rest (pos (suc k)) p h = refl
str_loop-emit [] rest (negsuc k) p h = refl
str_loop-emit (c ∷ s) rest (pos zero) p h = ground arith
str_loop-emit (c ∷ s) rest (pos (suc k)) p h =
    rw (nonzero c h.0, not_zero k, pred k)
      (bind_cong (addchar c p) (λ q. str_loop-emit s rest (pos k) q h.1))
str_loop-emit (c ∷ s) rest (negsuc k) p h =
    rw (nonzero c h.0, not_zero_neg k, pred_neg k)
      (bind_cong (addchar c p) (λ q. str_loop-emit s rest (negsuc (suc k)) q h.1))

-- The text that `print_str` writes: the padding counts the whole text, not what the precision leaves.
abbrev pub padded : Strprops → List ℕ → List ℕ
padded props s =
    replicate (pos_part props.npad - length s) props.pad
    ++ (cut props.precision s ++ replicate (neg_part props.npad - length s) b' ')

pos_part_sub : (n l : ℕ) → pos_part (pos n -ℤ pos l) ≡ n - l
pos_part_sub n l = ground arith

-- `npad` after the loop of the left padding.
abbrev after_left : ℕ → ℕ → ℤ
after_left n l = let short = pos n -ℤ pos l in if is_pos short then pos 0 else short

neg_part_after : (n l : ℕ) → neg_part (after_left n l) ≤ l
neg_part_after n l = ground arith

neg_part_add : (n : ℤ) (l : ℕ) → is_neg n ≡ true → neg_part (n -ℤ (pos 0 -ℤ pos l)) ≡ neg_part n - l
neg_part_add (pos n) l h = ground arith
neg_part_add (negsuc n) l h = ground arith

neg_part_none : (n : ℤ) → is_neg n ≡ false → (l : ℕ) → neg_part n ≤ l
neg_part_none (pos n) h l = omega arith
neg_part_none (negsuc n) h l = ground arith

replicate_zero : (n l c : ℕ) → n ≤ l → replicate (n - l) c ≡ []
replicate_zero n l c h = let e : (n - l) ≡ 0 = omega arith in rw e

module _ (s rest : List ℕ) (h : IsText s) where
  pad_left-emit :
      (k pad : ℕ) (p : Pstream)
      → pad_left (s ++ (0 ∷ rest)) (pos (suc k)) pad p
        ≡ (emit (replicate (suc k - length s) pad) p >>= λ q. ok (q, after_left (suc k) (length s)))
  unfolding pad_left
  pad_left-emit k pad p =
      let e : is_pos (pos (suc k)) ≡ true = ground arith in
      rw (e, strlen_lem s rest h, pos_part_sub (suc k) (length s), pad_loop-emit) refl

  pad_left-none :
      (n : ℤ) (pad : ℕ) (p : Pstream)
      → is_pos n ≡ false
      → pad_left (s ++ (0 ∷ rest)) n pad p ≡ ok (p, n)
  unfolding pad_left
  pad_left-none n pad p e = rw e

  pad_right-emit :
      (n : ℤ) (p : Pstream)
      → pad_right (s ++ (0 ∷ rest)) n p ≡ emit (replicate (neg_part n - length s) b' ') p
  unfolding pad_right emit
  pad_right-emit n p = elim (Bool-cases (is_neg n)) [
    | inl neg ↦ rw (neg, strlen_lem s rest h, neg_part_add n (length s) neg, pad_loop-emit) refl
    | inr not_neg ↦
        rw
          (
            not_neg,
            replicate_zero (neg_part n) (length s) b' ' (neg_part_none n not_neg (length s)),
          )
          refl
  ]

  tail-emit :
      (n : ℤ) (precision : ℤ) (p : Pstream)
      → (str_loop (s ++ (0 ∷ rest)) precision p >>= λ r. pad_right (s ++ (0 ∷ rest)) n r)
        ≡ emit (cut precision s ++ replicate (neg_part n - length s) b' ') p
  tail-emit n precision p =
      ap (λ x. x >>= λ r. pad_right (s ++ (0 ∷ rest)) n r) (str_loop-emit s rest precision p h)
      ∙ bind_cong (emit (cut precision s) p) (pad_right-emit n)
      ∙ sym (emit-append (cut precision s) (replicate (neg_part n - length s) b' ') p)

  parts-emit :
      (n : ℤ) (pad : ℕ) (precision : ℤ) (p : Pstream)
      → (pad_left (s ++ (0 ∷ rest)) n pad p >>= λ x.
          str_loop (s ++ (0 ∷ rest)) precision x.0 >>= λ r. pad_right (s ++ (0 ∷ rest)) x.1 r)
        ≡ emit
            (replicate (pos_part n - length s) pad
              ++ (cut precision s ++ replicate (neg_part n - length s) b' '))
            p
  parts-emit (pos zero) pad precision p =
      rw (pad_left-none (pos zero) pad p refl, replicate_zero 0 (length s) pad (omega arith))
        (tail-emit (pos zero) precision p)
  parts-emit (negsuc k) pad precision p =
      rw
        (
          pad_left-none (negsuc k) pad p (ground arith),
          replicate_zero 0 (length s) pad (omega arith),
        )
        (tail-emit (negsuc k) precision p)
  parts-emit (pos (suc k)) pad precision p =
      let n = after_left (suc k) (length s) in
      let none_left : replicate (neg_part n - length s) b' ' ≡ replicate (0 - length s) b' ' =
        replicate_zero (neg_part n) (length s) b' ' (neg_part_after (suc k) (length s))
        ∙ sym (replicate_zero 0 (length s) b' ' (omega arith)) in
      rw (pad_left-emit k pad p, emit-append, sym none_left)
        (bind_assoc (emit (replicate (suc k - length s) pad) p) (λ q. ok (q, n))
            (λ (x : Pstream × ℤ).
              str_loop (s ++ (0 ∷ rest)) precision x.0 >>= λ r. pad_right (s ++ (0 ∷ rest)) x.1 r)
          ∙ bind_cong (emit (replicate (suc k - length s) pad) p) (tail-emit n precision))

  -- `print_str` of a text writes it cut to the precision, padded on the left for a positive width
  -- with `props.pad` and on the right for a negative one with blanks; the padding makes up for the
  -- length of the whole text.
  pub print_str-emit :
      (props : Strprops) (p : Pstream)
      → print_str (s ++ (0 ∷ rest)) props p ≡ emit (padded props s) p
  unfolding print_str
  print_str-emit props p = parts-emit props.npad props.pad props.precision p
