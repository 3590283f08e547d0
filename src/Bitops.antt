-- ===== src/Bitops.antt =====
-- lib/bitops.h: `fls`, `is_power_of_2` and `get_order`, for a `long` of 64 bits.
pub mod Fls
use mathlib.Core.Bool.{not}
use kvm_unit_tests.Base.{
  ℕ, ◌+◌, ◌-◌, ◌*◌, ◌^◌, ◌&&◌, Bool, ltb, ◌==◌, if◌then◌else◌, bit_and, u64, Result, ok, fault,
}

-- `if (!(word & (~0ul << (64 - k)))) { num -= k; word <<= k; }`: the mask keeps the `k` top bits.
abbrev pub fls_step : ℕ → ℕ × ℕ → ℕ × ℕ
fls_step k (num, word) =
    if ltb word (2 ^ (64 - k)) then (num - k, u64 (word * 2 ^ k)) else (num, word)

unfoldable pub fls : ℕ → ℕ
fls word =
    let (num, word) = fls_step 2 (fls_step 4 (fls_step 8 (fls_step 16 (fls_step 32 (63, word))))) in
    if ltb word (2 ^ 63) then num - 1 else num

unfoldable pub is_power_of_2 : ℕ → Bool
is_power_of_2 n = not (n == 0) && bit_and n (n - 1) == 0

unfoldable pub get_order : ℕ → ℕ
unfolding fls is_power_of_2
get_order size = if size == 0 then 0 else if is_power_of_2 size then fls size else fls size + 1

-- BIT(nr): a shift by the width of the word or more is undefined.
unfoldable pub bit : ℕ → Result ℕ
bit nr = if ltb nr 64 then ok (2 ^ nr) else fault
