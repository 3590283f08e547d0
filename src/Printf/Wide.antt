-- ===== src/Printf/Wide.antt =====
-- lib/printf.c: UTF-16 texts.
-- A pointer to 16-bit units is the list of those from it to the object's end.
use kvm_unit_tests.Base.{
  ℕ, zero, suc, ◌+◌, ◌-◌, ◌*◌, ◌%◌, ◌^◌, true, false, ◌&&◌, ◌||◌, List, [], ◌∷◌, ◌++◌, ltb, leb,
  ◌==◌, if◌then◌else◌, Result, ok, fault, ◌>>=◌, in_object, u8, u32, u64, sub64, ◌>>>◌, length,
  get_elem?, set, bit_and, bit_or,
}
use kvm_unit_tests.Base.Int.{ℤ, pos_part, neg_part}
use kvm_unit_tests.Printf.{Pstream, Strprops, addchar}

-- The second unit of a pair, after the high surrogate `c0`.
low_surrogate : ℕ → List ℕ → Result (ℕ × List ℕ)
low_surrogate c0 [] = fault
low_surrogate c0 (c1 ∷ s) =
    if bit_and c1 0xfc00 == 0xdc00
    then ok (u32 (0x10000 + 2 ^ 32 - (0xd800 * 2 ^ 10 + 0xdc00) + c0 * 2 ^ 10 + c1), s)
    else ok (0xfffd, c1 ∷ s)

unfoldable pub utf16_to_utf32 : List ℕ → Result (ℕ × List ℕ)
unfolding low_surrogate
utf16_to_utf32 [] = fault
utf16_to_utf32 (c0 ∷ s) =
    if bit_and c0 0xf800 == 0xd800
    then (if bit_and c0 0x0400 == 0 then low_surrogate c0 s else ok (0xfffd, s))
    else ok (c0, s)

abbrev pub from : ℕ → ℕ → ℕ
from least c = if leb least c then 1 else 0

-- `utf16s_utf8nlen`, whose loop has counted `len` bytes.
unfoldable pub utf8nlen_loop : List ℕ → ℕ → ℕ → Result ℕ
utf8nlen_loop [] maxlen len = if ltb len maxlen then fault else ok len
utf8nlen_loop (c0 ∷ []) maxlen len =
    let clen = 1 + from 0x80 c0 + from 0x800 c0 in
    if leb maxlen len || c0 == 0 || ltb maxlen (len + clen)
    then ok len
    else if bit_and c0 0xfc00 == 0xd800 && len + clen == maxlen
    then ok len
    else if ltb (len + clen) maxlen
    then fault
    else ok (len + clen)
utf8nlen_loop (c0 ∷ c1 ∷ s) maxlen len =
    let clen = 1 + from 0x80 c0 + from 0x800 c0 in
    let pair = bit_and c0 0xfc00 == 0xd800 && bit_and c1 0xfc00 == 0xdc00 in
    let rest =
      if pair
      then utf8nlen_loop s maxlen (len + clen + 1)
      else utf8nlen_loop (c1 ∷ s) maxlen (len + clen) in
    if leb maxlen len || c0 == 0 || ltb maxlen (len + clen)
    then ok len
    else if bit_and c0 0xfc00 == 0xd800 && len + clen == maxlen
    then ok len
    else rest

unfoldable pub utf16s_utf8nlen : List ℕ → ℕ → Result ℕ
unfolding utf8nlen_loop
utf16s_utf8nlen s16 maxlen = utf8nlen_loop s16 maxlen 0

-- `*q = v` for a `q` into the object, at an offset from its start.
poke : ℕ → ℕ → Pstream → Result Pstream
poke i v p =
    if ltb i (length p.written)
    then ok (record p { written = set p.written i (u8 v) })
    else if ltb (i - length p.written) (length p.buffer)
    then ok (record p { buffer = set p.buffer (i - length p.written) (u8 v) })
    else fault

peek : ℕ → Pstream → Result ℕ
peek i p = in_object (get_elem? (p.written ++ p.buffer) i)

-- The `clen` trailing octets, in reverse order: what is left of `c32`.
trailing : ℕ → ℕ → ℕ → Pstream → Result (ℕ × Pstream)
unfolding poke
trailing zero s8 c32 p = ok (c32, p)
trailing (suc clen) s8 c32 p = do
  q ← poke (s8 + suc clen) (bit_or 0x80 (bit_and c32 0x3f)) p
  trailing clen s8 (c32 >>> 6) q

-- The octets of a character at `s8 = p->buffer - p->added + pos`, which may lie before the object;
-- `p` is the stream after the `addchar` that follows the assignment of `s8`.
octets : ℕ → ℕ → ℕ → Pstream → Result Pstream
unfolding poke peek trailing
octets clen end_offset c32 p = if ltb end_offset p.added then fault else (do
  let s8 = end_offset - p.added
  q ← poke s8 ((0xf00 >>> 1) >>> clen) p
  (high, r) ← trailing clen s8 c32 q
  lead ← peek s8 r
  poke s8 (bit_or lead high) r)

-- The loop of `print_wstring`, where `at` is `pos`. A round reads one unit at least.
unfoldable pub wstring_loop : ℕ → ℕ → ℕ → ℕ → List ℕ → Pstream → Result Pstream
unfolding utf16_to_utf32 octets
wstring_loop zero size len at ws p = if len == 0 then ok p else fault
wstring_loop (suc fuel) size len at ws p = elim (len == 0) [
  | true ↦ ok p
  | false ↦ (do
    (c32, ws') ← utf16_to_utf32 ws
    elim (ltb c32 0x80) [
      | true ↦ (do q ← addchar c32 p; wstring_loop fuel size (len - 1) at ws' q)
      | false ↦ (do
        let clen = 1 + from 0x800 c32 + from 0x10000 c32
        q ← addchar 0 p
        r ←
            (if leb size (at + clen)
              then ok q
              else octets clen (length p.written + at + (q.added - p.added)) c32 q)
        wstring_loop fuel size (sub64 (len - 1) clen) (at + clen) ws' r)
    ])
]

-- `(size_t) n` of an `int`.
abbrev pub to_size : ℤ → ℕ
to_size n = (pos_part n + 2 ^ 64 - neg_part n) % 2 ^ 64

unfoldable pub print_wstring : List ℕ → Strprops → Pstream → Result Pstream
unfolding utf16s_utf8nlen wstring_loop
print_wstring s props p = do
  len ← utf16s_utf8nlen s (to_size props.precision)
  wstring_loop (length s) (u64 (to_size p.remain + 1)) len 0 s p
