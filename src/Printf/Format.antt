-- ===== src/Printf/Format.antt =====
-- lib/printf.c: `vsnprintf` and the functions on its format.
-- An argument is the 64-bit slot that `va_arg` reads a number from, or the object of a text.
use kvm_unit_tests.Base.{
  ℕ, zero, suc, ◌+◌, ◌-◌, ◌*◌, ◌%◌, ◌^◌, true, false, ◌&&◌, ◌||◌, List, [], ◌∷◌, ◌++◌, ltb, leb,
  ◌==◌, if◌then◌else◌, Result, ok, fault, ◌>>=◌,
}
use kvm_unit_tests.Base.Int.{ℤ, pos, negsuc, ◌-ℤ◌}
use kvm_unit_tests.Ctype.{isdigit}
use kvm_unit_tests.Strtol.{atol}
use kvm_unit_tests.Printf.{Pstream, Strprops, addchar, print_str}
use kvm_unit_tests.Printf.Number.{print_int, print_unsigned}
use kvm_unit_tests.Printf.Wide.{print_wstring}

pub data Arg : Type 0 where
  word : ℕ → Arg
  text : List ℕ → Arg
  wide : List ℕ → Arg

-- The conversion of a `bits`-bit word to a signed type of that width.
abbrev pub signed : ℕ → ℕ → ℤ
signed bits n =
    let m = n % 2 ^ bits in if ltb (2 * m) (2 ^ bits) then pos m else negsuc (2 ^ bits - m - 1)

abbrev pub word_arg : List Arg → Result (ℕ × List Arg)
word_arg (word w ∷ args) = ok (w, args)
word_arg args = fault

abbrev pub text_arg : List Arg → Result (List ℕ × List Arg)
text_arg (text s ∷ args) = ok (s, args)
text_arg args = fault

abbrev pub wide_arg : List Arg → Result (List ℕ × List Arg)
wide_arg (wide s ∷ args) = ok (s, args)
wide_arg args = fault

-- `while (*f >= '0' && *f <= '9') ++f, ++len;`
digits_len : List ℕ → Result ℕ
digits_len [] = fault
digits_len (c ∷ f) =
    let rest = digits_len f in if leb b'0' c && leb c b'9' then (do n ← rest; ok (n + 1)) else ok 0

-- The characters that `fmtnum` passes over: a '-' and digits.
unfoldable pub fmtnum_len : List ℕ → Result ℕ
unfolding digits_len
fmtnum_len [] = fault
fmtnum_len (c ∷ f) = if c == b'-' then (do n ← digits_len f; ok (n + 1)) else digits_len (c ∷ f)

-- `fmtnum`: the number, and how far it moves `*fmt`.
unfoldable pub fmtnum : ℕ → List ℕ → Result (ℤ × ℕ)
unfolding fmtnum_len
fmtnum long_bits fmt = do len ← fmtnum_len fmt; num ← atol long_bits fmt; ok (signed 32 num, len)

-- The loop of `skip_atoi` after its first digit; an `int` that overflows is a fault.
unfoldable pub skip_atoi_loop : ℕ → List ℕ → ℕ → Result (ℤ × ℕ)
unfolding isdigit
skip_atoi_loop i [] len = fault
skip_atoi_loop i (c ∷ s) len =
    let next = i * 10 + c - b'0' in
    let rest = skip_atoi_loop next s (len + 1) in
    if isdigit c then (if ltb (i * 10 + c) (2 ^ 31) then rest else fault) else ok (pos i, len)

-- `skip_atoi`, on a text that starts with a digit: the number, and how far it moves `*s`.
unfoldable pub skip_atoi : List ℕ → Result (ℤ × ℕ)
unfolding skip_atoi_loop
skip_atoi [] = fault
skip_atoi (c ∷ s) = skip_atoi_loop (c - b'0') s 1

-- `get_int`: the number, how far it moves `*fmt`, and the arguments left.
unfoldable pub get_int : List ℕ → List Arg → Result (ℤ × ℕ × List Arg)
unfolding isdigit skip_atoi
get_int [] args = fault
get_int (c ∷ fmt) args =
    if isdigit c
    then (do (n, len) ← skip_atoi (c ∷ fmt); ok (n, len, args))
    else if c == b'*'
    then (do (w, rest) ← word_arg args; ok (signed 32 w, 1, rest))
    else ok (pos 0, 0, args)

-- The cases of the `switch`.
pub data Case : Type 0 where
  percent : Case
  char : Case
  end : Case
  dot : Case
  sharp : Case
  zero_flag : Case
  number : Case
  long_flag : Case
  size_flag : Case
  decimal : Case
  unsigned : Case
  hex : Case
  pointer : Case
  string : Case
  other : Case

unfoldable pub classify : ℕ → Case
classify f =
    if f == b'%'
    then percent
    else if f == b'c'
    then char
    else if f == 0
    then end
    else if f == b'.'
    then dot
    else if f == b'#'
    then sharp
    else if f == b'0'
    then zero_flag
    else if (leb b'1' f && leb f b'9') || f == b'-'
    then number
    else if f == b'l'
    then long_flag
    else if f == b't' || f == b'z'
    then size_flag
    else if f == b'd'
    then decimal
    else if f == b'u'
    then unsigned
    else if f == b'x'
    then hex
    else if f == b'p'
    then pointer
    else if f == b's'
    then string
    else other

-- `props` and `nlong` after a '%'.
pub record Spec : Type 0 where
  pub props : Strprops
  pub nlong : ℕ

abbrev pub initial : Spec
initial = record {
  props = record { pad = b' '; npad = pos 0; alternate = false; precision = negsuc 0 };
  nlong = 0;
}

-- Where the loop of `vsnprintf` stands: outside a conversion, or at `morefmt` inside one.
pub data Mode : Type 0 where
  plain : Mode
  inside : Spec → Mode

-- `*s.buffer = 0;`: the object, and `s.added`.
unfoldable pub terminate : Pstream → Result (List ℕ × ℕ)
terminate s = elim s.buffer [ [] ↦ fault | x ∷ rest ↦ ok (s.written ++ (0 ∷ rest), s.added) ]

module _ (long_bits : ℕ) where
  -- The bits of the type that `nlong` selects: `int`, `long` or `long long`.
  abbrev pub arg_bits : ℕ → ℕ
  arg_bits zero = 32
  arg_bits (suc zero) = long_bits
  arg_bits (suc (suc n)) = 64

  -- A conversion that writes: the stream, and the arguments left.
  unfoldable pub convert : Case → ℕ → Spec → List Arg → Pstream → Result (Pstream × List Arg)
  convert percent f spec args s = do t ← addchar b'%' s; ok (t, args)
  convert char f spec args s = do (w, rest) ← word_arg args; t ← addchar (w % 2 ^ 8) s; ok (t, rest)
  convert decimal f spec args s = do
    (w, rest) ← word_arg args
    t ← print_int long_bits (signed (arg_bits spec.nlong) w) 10 spec.props s
    ok (t, rest)
  convert unsigned f spec args s = do
    (w, rest) ← word_arg args
    t ← print_unsigned long_bits (w % 2 ^ arg_bits spec.nlong) 10 spec.props s
    ok (t, rest)
  convert hex f spec args s = do
    (w, rest) ← word_arg args
    t ← print_unsigned long_bits (w % 2 ^ arg_bits spec.nlong) 16 spec.props s
    ok (t, rest)
  convert pointer f spec args s = do
    (w, rest) ← word_arg args
    t ← print_unsigned long_bits (w % 2 ^ long_bits) 16 (record spec.props { alternate = true }) s
    ok (t, rest)
  convert string f spec args s = elim spec.nlong [
    | zero ↦ (do (o, rest) ← text_arg args; t ← print_str o spec.props s; ok (t, rest))
    | suc n ↦ (do (o, rest) ← wide_arg args; t ← print_wstring o spec.props s; ok (t, rest))
  ]
  convert _ f spec args s = do t ← addchar f s; ok (t, args)

  -- The `switch`, where `fmt` is what follows the character `f`. `next skip` goes on with the loop,
  -- where `skip` is how many characters of `fmt` a call has moved over.
  unfoldable pub morefmt :
      (ℕ → Mode → List Arg → Pstream → Result Pstream)
      → Case
      → ℕ
      → List ℕ
      → Spec
      → List Arg
      → Pstream
      → Result Pstream
  unfolding convert fmtnum get_int
  morefmt next end f fmt spec args s = ok s
  morefmt next dot f fmt spec args s = do
    (n, len, rest) ← get_int fmt args
    let props : Strprops = record spec.props { pad = b' '; precision = n }
    next len (inside (record spec { props = props })) rest s
  morefmt next sharp f fmt spec args s =
      let props : Strprops = record spec.props { alternate = true } in
      next 0 (inside (record spec { props = props })) args s
  morefmt next zero_flag f fmt spec args s = do
    (n, len) ← fmtnum long_bits fmt
    let props : Strprops = record spec.props { pad = b'0'; npad = n }
    next len (inside (record spec { props = props })) args s
  morefmt next number f fmt spec args s = do
    (n, len) ← fmtnum long_bits (f ∷ fmt)
    let props : Strprops = record spec.props { npad = n }
    next (len - 1) (inside (record spec { props = props })) args s
  morefmt next long_flag f fmt spec args s =
      next 0 (inside (record spec { nlong = spec.nlong + 1 })) args s
  morefmt next size_flag f fmt spec args s = next 0 (inside (record spec { nlong = 1 })) args s
  morefmt next c f fmt spec args s = do (t, rest) ← convert c f spec args s; next 0 plain rest t

  unfoldable pub format_loop : List ℕ → ℕ → Mode → List Arg → Pstream → Result Pstream
  unfolding classify morefmt
  format_loop [] skip mode args s = fault
  format_loop (f ∷ fmt) (suc skip) mode args s = format_loop fmt skip mode args s
  format_loop (f ∷ fmt) zero plain args s =
      if f == 0
      then ok s
      else if f == b'%'
      then format_loop fmt 0 (inside initial) args s
      else (do t ← addchar f s; format_loop fmt 0 plain args t)
  format_loop (f ∷ fmt) zero (inside spec) args s =
      morefmt (format_loop fmt) (classify f) f fmt spec args s

  unfoldable pub vsnprintf : List ℕ → ℕ → List ℕ → List Arg → Result (List ℕ × ℕ)
  unfolding format_loop terminate
  vsnprintf buf size fmt args = do
    s ←
        format_loop fmt 0 plain args
          (record { written = []; buffer = buf; remain = pos size -ℤ pos 1; added = 0 })
    terminate s
