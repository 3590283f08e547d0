-- ===== src/Printf/Number.antt =====
-- lib/printf.c: `print_int` and `print_unsigned`.
-- The local array `buf` is the characters from its start to `p`; it holds `cap` of them.
use kvm_unit_tests.Base.{
  ℕ, zero, suc, ◌+◌, ◌-◌, ◌*◌, ◌/◌, ◌%◌, ◌^◌, false, ◌&&◌, ◌||◌, List, [], ◌∷◌, ◌++◌, ltb, leb,
  ◌==◌, if◌then◌else◌, Result, ok, fault, ◌>>=◌, in_object, length, get_elem?, get_or, set,
}
use kvm_unit_tests.Base.Int.{ℤ, pos, negsuc, pos_part, neg_part, ◌-ℤ◌}
use kvm_unit_tests.Printf.{Pstream, Strprops, addchar, print_str, is_pos, is_neg}

-- "0123456789abcdef"
abbrev pub digits : List ℕ
digits =
    b'0' ∷ b'1' ∷ b'2' ∷ b'3' ∷ b'4' ∷ b'5' ∷ b'6' ∷ b'7' ∷ b'8' ∷ b'9' ∷ b'a' ∷ b'b' ∷ b'c' ∷ b'd'
    ∷ b'e' ∷ b'f' ∷ []

-- `*p++ = c`
unfoldable pub push : ℕ → ℕ → List ℕ → Result (List ℕ)
push cap c buf = if ltb (length buf) cap then ok (buf ++ (c ∷ [])) else fault

-- `while (n)`: at most 64 rounds, for a base from 2 on.
unfoldable pub number_loop : ℕ → ℕ → ℕ → ℕ → List ℕ → Result (List ℕ)
unfolding push
number_loop zero cap base n buf = if n == 0 then ok buf else fault
number_loop (suc fuel) cap base n buf = if n == 0 then ok buf else (do
  c ← in_object (get_elem? digits (n % base))
  b ← push cap c buf
  number_loop fuel cap base (n / base) b)

-- `while (p == buf || (p - buf < props.precision)) *p++ = '0';` After `cap` rounds `buf` is full.
unfoldable pub zeros_loop : ℕ → ℕ → ℤ → List ℕ → Result (List ℕ)
unfolding push
zeros_loop zero cap precision buf = fault
zeros_loop (suc fuel) cap precision buf =
    if length buf == 0 || is_pos (precision -ℤ pos (length buf))
    then (do b ← push cap b'0' buf; zeros_loop fuel cap precision b)
    else ok buf

-- The loop that reverses `buf`: `n` rounds, from `i` on.
unfoldable pub swap_loop : ℕ → ℕ → List ℕ → List ℕ
swap_loop zero i buf = buf
swap_loop (suc n) i buf =
    let j = length buf - 1 - i in
    let tmp = get_or buf i 0 in swap_loop n (i + 1) (set (set buf i (get_or buf j 0)) j tmp)

-- `*p = 0;` with the call of `print_str`.
unfoldable pub print_buf : ℕ → List ℕ → Strprops → Pstream → Result Pstream
unfolding push swap_loop
print_buf cap buf props ps = do
  let rev = swap_loop (length buf / 2) 0 buf
  text ← push cap 0 rev
  print_str text props ps

-- `-n`, which overflows for the least `long long`.
unfoldable pub magnitude : ℤ → Result ℕ
magnitude n =
    if is_neg n
    then (if leb (2 ^ 63) (neg_part n) then fault else ok (neg_part n))
    else ok (pos_part n)

module _ (long_bits : ℕ) where
  unfoldable pub print_int : ℤ → ℕ → Strprops → Pstream → Result Pstream
  unfolding magnitude number_loop zeros_loop push print_buf
  print_int n base props ps = do
    let cap = long_bits / 8 * 3 + 2
    m ← magnitude n
    b ← number_loop 64 cap base m []
    z ← zeros_loop (cap + 1) cap props.precision b
    signed ← (if is_neg n then push cap b'-' z else ok z)
    print_buf cap signed (record props { precision = negsuc 0 }) ps

  -- `if (props.alternate && base == 16)`: the prefix "0x", before the padding with '0' or in `buf`.
  unfoldable pub prefix :
      ℕ → ℕ → List ℕ → Strprops → Pstream → Result (Pstream × (List ℕ × Strprops))
  unfolding push
  prefix cap base buf props ps =
      if props.alternate && base == 16
      then (if props.pad == b'0'
          then (do
            q ← addchar b'0' ps
            r ← addchar b'x' q
            let npad : ℤ = pos (pos_part props.npad - 2)
            ok (r, (buf, (if is_pos props.npad then record props { npad = npad } else props))))
          else (do b ← push cap b'x' buf; c ← push cap b'0' b; ok (ps, (c, props))))
      else ok (ps, (buf, props))

  unfoldable pub print_unsigned : ℕ → ℕ → Strprops → Pstream → Result Pstream
  unfolding number_loop zeros_loop prefix print_buf
  print_unsigned n base props ps = do
    let cap = long_bits / 8 * 3 + 3
    b ← number_loop 64 cap base n []
    let shown : Strprops = if length b == 0 then record props { alternate = false } else props
    z ← zeros_loop (cap + 1) cap shown.precision b
    (q, (buf, props')) ← prefix cap base z (record shown { precision = negsuc 0 }) ps
    print_buf cap buf props' q
