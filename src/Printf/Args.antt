-- ===== src/Printf/Args.antt =====
-- lib/printf.c: the conversions of `vsnprintf` on arguments that are no texts of 16-bit units.
use kvm_unit_tests.Base.{
  ℕ, zero, suc, ◌%◌, ◌^◌, refl, ◌∙◌, ◌==◌, Bool, true, false, if◌then◌else◌, List, [], ◌∷◌, Result,
  ok, fault, aborted, ◌>>=◌,
}
use kvm_unit_tests.Base.Int.{ℤ, pos}
use kvm_unit_tests.Ctype.{isdigit}
use kvm_unit_tests.Printf.{Pstream, Strprops, addchar, print_str}
use kvm_unit_tests.Printf.Wide.{print_wstring}
use kvm_unit_tests.Printf.Format.{
  signed, skip_atoi, Arg, word, text, wide, word_arg, text_arg, wide_arg, get_int, Case, percent,
  char, end, dot, sharp, zero_flag, number, long_flag, size_flag, decimal, unsigned, hex, pointer,
  string, other, Spec, convert,
}
use kvm_unit_tests.Printf.Stream.{stream, bind_assoc}
use kvm_unit_tests.Printf.Bounds.{Writer, writer, Writer-fault, Writer-addchar, Writer-bind}
use kvm_unit_tests.Printf.Writers.{print_str-Writer, print_int-Writer, print_unsigned-Writer}

-- No argument is a text of 16-bit units.
abbrev pub NoWide : List Arg → Type 0
NoWide [] = Unit
NoWide (word w ∷ args) = NoWide args
NoWide (text s ∷ args) = NoWide args
NoWide (wide s ∷ args) = ⊥

abbrev pub with_rest : Result Pstream → List Arg → Result (Pstream × List Arg)
with_rest r rest = do t ← r; ok (t, rest)

abbrev pub and_then :
    Result (Pstream × List Arg) → (List Arg → Pstream → Result Pstream) → Result Pstream
and_then r K = do (t, rest) ← r; K rest t

Writer-assoc :
    (k : Pstream → Result Pstream) (rest : List Arg) (K : List Arg → Pstream → Result Pstream)
    → Writer k
    → Writer (K rest)
    → Writer (λ s. and_then (with_rest (k s) rest) K)
Writer-assoc k rest K m n = step (Writer-bind m n)
  where
    step : Writer (λ p. k p >>= K rest) → Writer (λ s. and_then (with_rest (k s) rest) K)
    step (writer t e) = writer t (λ w b r a h.
        bind_assoc (k (stream w b r a)) (λ t. ok (t, rest)) (λ (y : Pstream × List Arg). K y.1 y.0)
        ∙ e w b r a h)

-- What follows a conversion.
module _ (K : List Arg → Pstream → Result Pstream)
    (next : (rest : List Arg) → NoWide rest → Writer (K rest)) where
  word-then :
      (k : ℕ → Pstream → Result Pstream)
      → ((w : ℕ) → Writer (k w))
      → (args : List Arg) → NoWide args
      → Writer (λ s. and_then (word_arg args >>= λ x. with_rest (k x.0 s) x.1) K)
  word-then k m [] h = Writer-fault
  word-then k m (word w ∷ args) h = Writer-assoc (k w) args K (m w) (next args h)
  word-then k m (text w ∷ args) h = Writer-fault
  word-then k m (wide w ∷ args) h = Writer-fault

  text-then :
      (k : List ℕ → Pstream → Result Pstream)
      → ((w : List ℕ) → Writer (k w))
      → (args : List Arg) → NoWide args
      → Writer (λ s. and_then (text_arg args >>= λ x. with_rest (k x.0 s) x.1) K)
  text-then k m [] h = Writer-fault
  text-then k m (word w ∷ args) h = Writer-fault
  text-then k m (text w ∷ args) h = Writer-assoc (k w) args K (m w) (next args h)
  text-then k m (wide w ∷ args) h = Writer-fault

  wide-then :
      (k : List ℕ → Pstream → Result Pstream)
      → (args : List Arg) → NoWide args
      → Writer (λ s. and_then (wide_arg args >>= λ x. with_rest (k x.0 s) x.1) K)
  wide-then k [] h = Writer-fault
  wide-then k (word w ∷ args) h = Writer-fault
  wide-then k (text w ∷ args) h = Writer-fault
  wide-then k (wide w ∷ args) h = absurd h

  module _ (long_bits : ℕ) where
    string-then :
        (n : ℕ) (f : ℕ) (props : Strprops) (args : List Arg)
        → NoWide args
        → Writer (λ s.
          and_then (convert long_bits string f (record { props = props; nlong = n }) args s) K)
    unfolding convert
    string-then zero f props args h =
        text-then (λ o. print_str o props) (λ o. print_str-Writer o props) args h
    string-then (suc n) f props args h = wide-then (λ o. print_wstring o props) args h

    char-then :
        (f : ℕ) (args : List Arg)
        → NoWide args
        → Writer (λ s. and_then (with_rest (addchar f s) args) K)
    char-then f args h = Writer-assoc (addchar f) args K (Writer-addchar f) (next args h)

    pub convert-then :
        (c : Case) (f : ℕ) (spec : Spec) (args : List Arg)
        → NoWide args
        → Writer (λ s. and_then (convert long_bits c f spec args s) K)
    unfolding convert
    convert-then percent f spec args h = char-then b'%' args h
    convert-then char f spec args h =
        word-then (λ w. addchar (w % 2 ^ 8)) (λ w. Writer-addchar _) args h
    convert-then decimal f spec args h =
        word-then _ (λ w. print_int-Writer long_bits _ 10 spec.props) args h
    convert-then unsigned f spec args h =
        word-then _ (λ w. print_unsigned-Writer long_bits _ 10 spec.props) args h
    convert-then hex f spec args h =
        word-then _ (λ w. print_unsigned-Writer long_bits _ 16 spec.props) args h
    convert-then pointer f spec args h =
        word-then _ (λ w. print_unsigned-Writer long_bits _ 16 _) args h
    convert-then string f spec args h = string-then spec.nlong f spec.props args h
    convert-then end f spec args h = char-then f args h
    convert-then dot f spec args h = char-then f args h
    convert-then sharp f spec args h = char-then f args h
    convert-then zero_flag f spec args h = char-then f args h
    convert-then number f spec args h = char-then f args h
    convert-then long_flag f spec args h = char-then f args h
    convert-then size_flag f spec args h = char-then f args h
    convert-then other f spec args h = char-then f args h

abbrev pub and_int :
    Result (ℤ × ℕ × List Arg)
    → (ℤ → ℕ → List Arg → Pstream → Result Pstream)
    → Pstream
    → Result Pstream
and_int r K s = do (n, len, rest) ← r; K n len rest s

module _ (K : ℤ → ℕ → List Arg → Pstream → Result Pstream)
    (next : (n : ℤ) (len : ℕ) (rest : List Arg) → NoWide rest → Writer (K n len rest)) where
  star-then :
      (args : List Arg)
      → NoWide args
      → Writer (and_int (do (w, rest) ← word_arg args; ok (signed 32 w, 1, rest)) K)
  star-then [] h = Writer-fault
  star-then (word w ∷ args) h = next _ 1 args h
  star-then (text w ∷ args) h = Writer-fault
  star-then (wide w ∷ args) h = Writer-fault

  digits-then :
      (r : Result (ℤ × ℕ)) (args : List Arg)
      → NoWide args
      → Writer (and_int (do (n, len) ← r; ok (n, len, args)) K)
  digits-then (ok x) args h = next x.0 x.1 args h
  digits-then fault args h = Writer-fault
  digits-then aborted args h = writer aborted (λ w b r a h. refl)

  if-then :
      (c : Bool) (x y : Result (ℤ × ℕ × List Arg))
      → Writer (and_int x K)
      → Writer (and_int y K)
      → Writer (and_int (if c then x else y) K)
  if-then true x y m n = m
  if-then false x y m n = n

  pub get_int-then :
      (fmt : List ℕ) (args : List Arg) → NoWide args → Writer (and_int (get_int fmt args) K)
  unfolding get_int
  get_int-then [] args h = Writer-fault
  get_int-then (c ∷ fmt) args h =
      if-then (isdigit c) _ _ (digits-then (skip_atoi (c ∷ fmt)) args h)
        (if-then (c == b'*') _ _ (star-then args h) (next (pos 0) 0 args h))
