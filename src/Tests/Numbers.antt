-- ===== src/Tests/Numbers.antt =====
-- lib/string.c, lib/util.c, lib/bitops.h: numbers read from text, and their highest bits.
use kvm_unit_tests.Base.{
  ℕ, ◌+◌, ◌^◌, ◌-◌, ◌≤◌, ◌<◌, ◌≡◌, refl, inl, true, List, [], ◌∷◌, none, some, arith, ok, aborted,
}
use kvm_unit_tests.Ctype.{isspace}
use kvm_unit_tests.Bitops.{fls, get_order, is_power_of_2}
use kvm_unit_tests.Bitops.Fls.{fls_lem}
use kvm_unit_tests.CString.{strchr}
use kvm_unit_tests.Strtol.{
  strtoll_impl, strtol, parse_keyval, digit, skip_space, read_sign, read_base, after_zero,
  digit_loop,
}
use kvm_unit_tests.Strtol.Spelled.{strtoll_lem}

-- " -42"
abbrev minus_42 : List ℕ
minus_42 = b' ' ∷ b'-' ∷ b'4' ∷ b'2' ∷ 0 ∷ []

strtol_runs :
    (strtol 64 minus_42 10 ≡ ok (2 ^ 64 - 42, 4))
    × (strtol 64 (b'0' ∷ b'x' ∷ b'1' ∷ b'F' ∷ b'g' ∷ 0 ∷ []) 0 ≡ ok (31, 4))
    × (strtol 64 (b'0' ∷ b'1' ∷ b'7' ∷ 0 ∷ []) 0 ≡ ok (15, 3))
    × (strtol 64 (b'1' ∷ 0 ∷ []) 1 ≡ aborted)
unfolding strtol strtoll_impl skip_space read_sign read_base after_zero digit_loop digit isspace
strtol_runs = (refl, refl, refl, refl)

-- "n=5"
parse_keyval_runs :
    (parse_keyval 64 (b'n' ∷ b'=' ∷ b'5' ∷ 0 ∷ []) ≡ ok (some (1, 5)))
    × (parse_keyval 64 (b'n' ∷ 0 ∷ []) ≡ ok none)
unfolding parse_keyval strtol strtoll_impl skip_space read_sign read_base after_zero digit_loop
    digit isspace strchr
parse_keyval_runs = (refl, refl)

strtoll_lem_example :
    (42 < 2 ^ 63 → strtoll_impl 64 minus_42 10 true true ≡ ok (2 ^ 64 - 42, 4))
    × (2 ^ 63 ≤ 42 → strtoll_impl 64 minus_42 10 true true ≡ aborted)
strtoll_lem_example =
    strtoll_lem 64 true true 10 (b' ' ∷ []) (b'2' ∷ []) (2 ∷ []) [] (some true) b'4' 4 0
      (omega arith) (omega arith) (omega arith) (omega arith) (inl refl, tt)
      ((omega arith, inl (omega arith, refl)), ((omega arith, inl (omega arith, refl)), tt))
      (inl refl)

fls_runs : (fls 1 ≡ 0) × (fls 0x1234 ≡ 12) × (get_order 5 ≡ 3) × (get_order 8 ≡ 3)
unfolding fls get_order is_power_of_2
fls_runs = (refl, refl, refl, refl)

fls_lem_example : (2 ^ fls 0x1234 ≤ 0x1234) × (0x1234 < 2 ^ (fls 0x1234 + 1))
fls_lem_example = fls_lem 0x1234 (omega arith) (omega arith)
