-- ===== src/Printf/Binary.antt =====
-- lib/printf.c: `binstr`.
use kvm_unit_tests.Base.{
  ℕ, zero, suc, ◌+◌, ◌-◌, ◌*◌, ◌/◌, ◌%◌, ◌^◌, List, [], ◌∷◌, ◌++◌, ltb, ◌==◌, if◌then◌else◌, Result,
  ok, fault, ◌>>=◌, ◌>>◌, assert, length, bit_and,
}

-- `*c++ = v`, where `out` is the characters before `c` and the array holds `size` of them.
put : ℕ → ℕ → List ℕ → Result (List ℕ)
put size v out = if ltb (length out) size then ok (out ++ (v ∷ [])) else fault

-- The loop with `k` rounds left of `n`.
unfoldable pub binstr_loop : ℕ → ℕ → ℕ → ℕ → List ℕ → Result (List ℕ)
unfolding put
binstr_loop zero size n x out = fault
binstr_loop (suc k) size n x out = do
  let i = n - suc k
  let digit = if bit_and x (2 ^ (n - i - 1)) == 0 then b'0' else b'1'
  next ← put size digit out
  elim k [
    | zero ↦ put size 0 next
    | suc j ↦ (do
      spaced ← (if (i + 1) % 4 == 0 then put size 39 next else ok next)
      binstr_loop k size n x spaced)
  ]

-- `sizeof(unsigned long) * 8 + sizeof(unsigned long) * 2`
abbrev pub binstr_size : ℕ → ℕ
binstr_size long_bits = long_bits / 8 * 8 + long_bits / 8 * 2

unfoldable pub binstr : ℕ → ℕ → Result (List ℕ)
unfolding binstr_loop
binstr long_bits x = do
  let n = long_bits / 8 * 8
  out ← binstr_loop n (binstr_size long_bits) n x []
  assert (length out == binstr_size long_bits)
  ok out
