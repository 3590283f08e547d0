-- ===== src/Printf.antt =====
-- lib/printf.c: the stream that the conversions write to, and `print_str`.
-- `p->buffer` moves forward through one object: the bytes before it, and those from it to the
-- object's end. A write at [] is past the end.
pub mod Number
pub mod Reverse
pub mod Wide
pub mod Format
pub mod Binary
pub mod Stream
pub mod Bounds
pub mod Writers
pub mod Args
pub mod Truncate
pub mod Digits
pub mod Shown
pub mod Read
use kvm_unit_tests.Base.{
  ℕ, zero, suc, ◌+◌, Bool, true, false, List, [], ◌∷◌, ◌++◌, ltb, ◌==◌, if◌then◌else◌, Result, ok,
  fault, ◌>>=◌,
}
use kvm_unit_tests.Base.Int.{ℤ, pos, negsuc, pos_part, neg_part, ◌-ℤ◌, is_zero}
use kvm_unit_tests.CString.{strlen}

-- `pstream_t`. `added` is an int in the source, for texts of less than 2^31 characters.
pub record Pstream : Type 0 where
  pub written : List ℕ
  pub buffer : List ℕ
  pub remain : ℤ
  pub added : ℕ

-- `strprops_t`
pub record Strprops : Type 0 where
  pub pad : ℕ
  pub npad : ℤ
  pub alternate : Bool
  pub precision : ℤ

-- `*p->buffer++ = c; --p->remain;`
put_char : List ℕ → ℕ → Pstream → Result Pstream
put_char [] c p = fault
put_char (x ∷ rest) c p = ok (record p {
  written = p.written ++ (c ∷ []);
  buffer = rest;
  remain = p.remain -ℤ pos 1;
  added = p.added + 1;
})

unfoldable pub addchar : ℕ → Pstream → Result Pstream
unfolding put_char
addchar c p =
    if is_zero p.remain then ok (record p { added = p.added + 1 }) else put_char p.buffer c p

-- `addchar(p, c)`, `n` times.
unfoldable pub pad_loop : ℕ → ℕ → Pstream → Result Pstream
pad_loop zero c p = ok p
pad_loop (suc n) c p = do q ← addchar c p; pad_loop n c q

-- `while (*s && props.precision--)`
unfoldable pub str_loop : List ℕ → ℤ → Pstream → Result Pstream
str_loop [] precision p = fault
str_loop (c ∷ s) precision p =
    if c == 0
    then ok p
    else if is_zero precision
    then ok p
    else (do q ← addchar c p; str_loop s (precision -ℤ pos 1) q)

abbrev pub is_pos : ℤ → Bool
is_pos a = ltb (neg_part a) (pos_part a)

abbrev pub is_neg : ℤ → Bool
is_neg a = ltb (pos_part a) (neg_part a)

-- `if (npad > 0)`: the padding before the text.
unfoldable pub pad_left : List ℕ → ℤ → ℕ → Pstream → Result (Pstream × ℤ)
pad_left s npad pad p =
    if is_pos npad
    then (do
      len ← strlen s
      let short = npad -ℤ pos len
      q ← pad_loop (pos_part short) pad p
      ok (q, (if is_pos short then pos 0 else short)))
    else ok (p, npad)

-- `if (npad < 0)`: the padding after the text, for the sum `npad + strlen(s_orig)`.
unfoldable pub pad_right : List ℕ → ℤ → Pstream → Result Pstream
pad_right s npad p =
    if is_neg npad
    then (do len ← strlen s; pad_loop (neg_part (npad -ℤ (pos 0 -ℤ pos len))) b' ' p)
    else ok p

unfoldable pub print_str : List ℕ → Strprops → Pstream → Result Pstream
print_str s props p = do
  (q, npad) ← pad_left s props.npad props.pad p
  r ← str_loop s props.precision q
  pad_right s npad r
