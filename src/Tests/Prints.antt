-- ===== src/Tests/Prints.antt =====
-- lib/printf.c: formatted texts.
use kvm_unit_tests.Base.{
  false, ℕ, ◌-◌, ◌^◌, ◌≡◌, refl, List, [], ◌∷◌, arith, replicate, Result, ok, fault, ◌>>=◌,
}
use kvm_unit_tests.Base.Int.{pos, negsuc}
use kvm_unit_tests.CString.{strlen}
use kvm_unit_tests.Ctype.{isspace}
use kvm_unit_tests.Strtol.{
  strtoll, strtol, strtoll_impl, atol, skip_space, read_sign, read_base, digit, digit_loop,
}
use kvm_unit_tests.Printf.{
  Pstream, Strprops, addchar, print_str, pad_left, pad_right, str_loop, pad_loop,
}
use kvm_unit_tests.Printf.Number.{
  number_loop, print_unsigned, print_int, magnitude, push, zeros_loop, print_buf, swap_loop,
}
use kvm_unit_tests.Printf.Binary.{binstr, binstr_loop}
use kvm_unit_tests.Printf.Wide.{
  print_wstring, utf16s_utf8nlen, utf8nlen_loop, wstring_loop, utf16_to_utf32,
}
use kvm_unit_tests.Printf.Format.{
  vsnprintf, format_loop, classify, morefmt, convert, fmtnum, fmtnum_len, terminate, word, wide,
}
use kvm_unit_tests.Printf.Stream.{emit, print_str-emit}
use kvm_unit_tests.Printf.Truncate.{truncated, vsnprintf_lem}
use kvm_unit_tests.Printf.Digits.{ten, digit_text}
use kvm_unit_tests.Printf.Shown.{print_unsigned_overrun}
use kvm_unit_tests.Printf.Read.{format_ld, vsnprintf-strtoll}

abbrev room : List ℕ
room = replicate 12 7

-- "%05d|"
abbrev zero_padded : List ℕ
zero_padded = b'%' ∷ b'0' ∷ b'5' ∷ b'd' ∷ b'|' ∷ 0 ∷ []

-- "00-42|": the padding stands before the sign.
zero_padded_run :
    vsnprintf 64 room 12 zero_padded (word (2 ^ 32 - 42) ∷ [])
    ≡ ok (b'0' ∷ b'0' ∷ b'-' ∷ b'4' ∷ b'2' ∷ b'|' ∷ 0 ∷ 7 ∷ 7 ∷ 7 ∷ 7 ∷ 7 ∷ [], 6)
unfolding vsnprintf format_loop classify morefmt convert fmtnum fmtnum_len atol strtol strtoll_impl
    skip_space read_sign read_base digit_loop digit isspace print_int magnitude number_loop push
    zeros_loop print_buf swap_loop print_str pad_left pad_right str_loop pad_loop addchar terminate
    strlen
zero_padded_run = refl

-- "%ls" of "aé" in 16-bit units: the octets of 'é' take the place of the 'a'.
wide_run :
    vsnprintf 64 room 12 (b'%' ∷ b'l' ∷ b's' ∷ 0 ∷ []) (wide (b'a' ∷ 0xe9 ∷ 0 ∷ []) ∷ [])
    ≡ ok (0xc3 ∷ 0xa9 ∷ 0 ∷ 7 ∷ 7 ∷ 7 ∷ 7 ∷ 7 ∷ 7 ∷ 7 ∷ 7 ∷ 7 ∷ [], 2)
unfolding vsnprintf format_loop classify morefmt convert print_wstring utf16s_utf8nlen utf8nlen_loop
    wstring_loop utf16_to_utf32 addchar terminate
wide_run = refl

-- The bits of 5, in groups of four.
binstr_run : binstr 8 5 ≡ ok (b'0' ∷ b'0' ∷ b'0' ∷ b'0' ∷ 39 ∷ b'0' ∷ b'1' ∷ b'0' ∷ b'1' ∷ 0 ∷ [])
unfolding binstr binstr_loop
binstr_run = refl

vsnprintf_lem_example :
    (t : Result (List ℕ)) × (vsnprintf 64 room 12 zero_padded (word 42 ∷ [])
      ≡ (t >>= λ y. ok (truncated 11 room y)))
    × (vsnprintf 64 room 3 zero_padded (word 42 ∷ []) ≡ (t >>= λ y. ok (truncated 2 room y)))
vsnprintf_lem_example =
    vsnprintf_lem 64 zero_padded (word 42 ∷ []) room room 11 2 tt (omega arith) (omega arith)

vsnprintf-strtoll_example :
    (out : List ℕ) × (vsnprintf 64 room 12 format_ld (word (2 ^ 64 - 42) ∷ []) ≡ ok (out, 3))
    × (strtoll 64 out 10 ≡ ok (2 ^ 64 - 42, 3))
unfolding digit_text
vsnprintf-strtoll_example =
    vsnprintf-strtoll (negsuc 41) room 11 (omega arith) (omega arith) (omega arith)

-- A stream at the start of `room`.
abbrev start : Pstream
start = record { written = []; buffer = room; remain = pos 11; added = 0 }

abbrev padded_5 : Strprops
padded_5 = record { pad = b' '; npad = pos 5; alternate = false; precision = pos 2 }

-- "%5.2s" of "abc"
print_str-emit_example :
    print_str (b'a' ∷ b'b' ∷ b'c' ∷ 0 ∷ []) padded_5 start
    ≡ emit (b' ' ∷ b' ' ∷ b'a' ∷ b'b' ∷ []) start
print_str-emit_example =
    print_str-emit (b'a' ∷ b'b' ∷ b'c' ∷ []) []
      ((λ e. omega arith), ((λ e. omega arith), ((λ e. omega arith), tt))) padded_5 start

-- "%llu" of 10^15 where `long` has 32 bits.
print_unsigned_overrun_example : print_unsigned 32 (10 ^ 15) 10 padded_5 start ≡ fault
print_unsigned_overrun_example =
    print_unsigned_overrun ten (10 ^ 15) 32 padded_5 start (omega arith)
