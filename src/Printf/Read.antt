-- ===== src/Printf/Read.antt =====
-- lib/printf.c: the texts of numbers, and lib/string.c, which reads them back.
use mathlib.Core.List.{append-nil}
use kvm_unit_tests.Base.{
  ℕ, suc, ◌+◌, ◌-◌, ◌^◌, ◌≤◌, ◌<◌, ◌≡◌, refl, ◌≢◌, ap, ap₂, ◌∙◌, sym, inl, inr, Bool, true,
  Bool-cases, List, [], ◌∷◌, ◌++◌, Option, some, none, arith, length, take_all, drop, min, ◌==◌,
  Result, ok, fault, aborted, ◌>>=◌,
}
use kvm_unit_tests.Base.Int.{ℤ, pos, negsuc, ◌-ℤ◌}
use kvm_unit_tests.Strtol.{digit, strtoll_impl, strtoll}
use kvm_unit_tests.Strtol.Digits.{value, Reads}
use kvm_unit_tests.Strtol.Parse.{strtoll-Reads, sign_text, negated}
use kvm_unit_tests.Printf.{Pstream}
use kvm_unit_tests.Printf.Number.{print_int}
use kvm_unit_tests.Printf.Digits.{
  ten, digit_text, digit_values, digit_text-Reads, value-digit_values,
}
use kvm_unit_tests.Printf.Format.{
  Arg, vsnprintf, format_loop, morefmt, convert, classify, word, signed, terminate,
}
use kvm_unit_tests.Printf.Truncate.{truncated, printed_lem}
use kvm_unit_tests.Printf.Stream.{emit, padded, stream, pred}
use kvm_unit_tests.Printf.Shown.{shown, no_flags, int_text, to_word, abs, print_int-emit}

-- A digit text as its first digit and the rest.
abbrev IsNumeral : ℕ → List ℕ → Type 0
IsNumeral n text =
    (d : ℕ) × (ds : List ℕ) × (v : ℕ) × (vs : List ℕ) × (text ≡ d ∷ ds)
    × Reads 10 (d ∷ ds) (v ∷ vs)
    × (value 10 0 (v ∷ vs) ≡ n)

digits-IsNumeral :
    (n : ℕ) (ds vs : List ℕ) → Reads 10 ds vs → value 10 0 vs ≡ n → n ≢ 0 → IsNumeral n ds
digits-IsNumeral n [] [] r e nz = absurd (nz (sym e))
digits-IsNumeral n [] (v ∷ vs) r e nz = absurd r
digits-IsNumeral n (d ∷ ds) [] r e nz = absurd r
digits-IsNumeral n (d ∷ ds) (v ∷ vs) r e nz = (d, ds, v, vs, refl, r, e)

shown-IsNumeral : (n : ℕ) → n < 2 ^ 64 → IsNumeral n (shown 10 n)
unfolding digit
shown-IsNumeral n h = elim (Bool-cases (n == 0)) [
  | inl z ↦ (b'0', [], 0, [], rw z refl, ((λ e. omega arith), refl, tt), ground arith)
  | inr nz ↦ rw nz (
      digits-IsNumeral n (digit_text 10 n) (digit_values 10 n) (digit_text-Reads ten n)
        (value-digit_values ten n h) (ground arith))
]

strtoll-numeral :
    (sign : Option Bool) (n : ℕ) (text rest : List ℕ)
    → n < 2 ^ 63
    → IsNumeral n text
    → strtoll_impl 64 (sign_text sign ++ (text ++ (0 ∷ rest))) 10 true true
      ≡ ok (negated sign n, length (sign_text sign) + length text)
strtoll-numeral sign n text rest h (d, ds, v, vs, e, r, val) =
    let lem =
      strtoll-Reads 64 true true 10 [] ds vs rest sign d v 0 (omega arith) (omega arith)
        (omega arith) (omega arith) tt r (inl refl) in
    rw e (lem.0 (omega arith) ∙ ap₂ (λ a b. ok (negated sign a, b)) val (omega arith))

strtoll-int_text :
    (n : ℤ) (rest : List ℕ)
    → abs n < 2 ^ 63
    → strtoll_impl 64 (int_text n ++ (0 ∷ rest)) 10 true true ≡ ok (to_word n, length (int_text n))
strtoll-int_text (pos n) rest h =
    strtoll-numeral none n (shown 10 n) rest (omega arith) (shown-IsNumeral n (omega arith))
    ∙ ap (λ k. ok (n, k)) (omega arith)
strtoll-int_text (negsuc n) rest h =
    strtoll-numeral (some true) (suc n) (shown 10 (suc n)) rest (omega arith)
      (shown-IsNumeral (suc n) (omega arith))
    ∙ ap (λ k. ok (to_word (negsuc n), k)) (omega arith)

-- "%ld"
abbrev pub format_ld : List ℕ
format_ld = b'%' ∷ b'l' ∷ b'd' ∷ 0 ∷ []

signed-to_word : (n : ℤ) → abs n < 2 ^ 63 → signed 64 (to_word n) ≡ n
signed-to_word (pos n) h = ground arith
signed-to_word (negsuc n) h = ground arith

padded_none : (text : List ℕ) → padded (no_flags b' ' (pos 0)) text ≡ text
padded_none text = let e : (0 - length text) ≡ 0 = omega arith in rw (e, append-nil text) refl

after_print :
    (x : Result Pstream)
    → ◌>>=◌ {A = Pstream × List Arg} (x >>= λ t. ok (t, [])) (λ y. ok y.0) >>= terminate
      ≡ (x >>= terminate)
after_print (ok x) = refl
after_print fault = refl
after_print aborted = refl

-- The run of `vsnprintf` on "%ld".
vsnprintf_ld :
    (w : ℕ) (buf : List ℕ) (size : ℕ)
    → vsnprintf 64 buf size format_ld (word w ∷ []) ≡ (
        print_int 64
          (signed 64 w)
          10
          (no_flags b' ' (pos 0))
          (record { written = []; buffer = buf; remain = pos size -ℤ pos 1; added = 0 })
        >>= terminate)
unfolding vsnprintf format_loop morefmt convert classify
vsnprintf_ld w buf size = after_print (print_int 64 (signed 64 w) 10 (no_flags b' ' (pos 0)) _)

printed_all :
    (size : ℕ) (buf text : List ℕ)
    → length text ≤ size
    → truncated size buf text ≡ (text ++ (0 ∷ drop (suc (length text)) buf), length text)
printed_all size buf text h =
    let e : min size (length text) ≡ length text = omega arith in rw (take_all size text h, e) refl

-- `vsnprintf` of "%ld" into a buffer that the text fits, and `strtoll` of what it wrote, give back
-- the integer, for every `long` but the least.
pub vsnprintf-strtoll :
    (n : ℤ) (buf : List ℕ) (size : ℕ)
    → abs n < 2 ^ 63
    → length (int_text n) ≤ size
    → size < length buf
    → (out : List ℕ) × (vsnprintf 64 buf (suc size) format_ld (word (to_word n) ∷ [])
        ≡ ok (out, length (int_text n)))
      × (strtoll 64 out 10 ≡ ok (to_word n, length (int_text n)))
unfolding strtoll
vsnprintf-strtoll n buf size h room fits = (
  int_text n ++ (0 ∷ drop (suc (length (int_text n))) buf),
  vsnprintf_ld (to_word n) buf (suc size)
      ∙ ap₂
          (λ i r.
            print_int 64 i 10 (no_flags b' ' (pos 0))
              (record { written = []; buffer = buf; remain = r; added = 0 })
            >>= terminate)
          (signed-to_word n h) (pred size)
      ∙ ap (λ x. x >>= terminate)
          (print_int-emit 64 b' ' (pos 0) n (stream [] buf size 0) (omega arith) h (omega arith)
            ∙ ap (λ t. emit t (stream [] buf size 0)) (padded_none (int_text n)))
      ∙ printed_lem (ok (int_text n)) size buf fits
      ∙ ap ok (printed_all size buf (int_text n) room),
  strtoll-int_text n _ h,
)
