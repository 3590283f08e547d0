-- ===== src/Bitops/Fls.antt =====
-- lib/bitops.h: `fls` is the index of the highest bit that is set.
use native.Mathlib.Nat.{
  add-zero, add-suc, pow-suc, mul_assoc, mul-lt-mul_of_pos_right, mul-le-mul_right, one-le-pow,
}
use kvm_unit_tests.Base.{
  ℕ, zero, suc, ◌+◌, ◌-◌, ◌*◌, ◌^◌, ◌≤◌, ◌<◌, ◌≡◌, refl, sym, ◌∙◌, ap, Bool-cases, inl, inr, arith,
  ltb, ltb→lt, if◌then◌else◌, u64,
}
use kvm_unit_tests.Bitops.{fls_step, fls}

-- The word has been shifted by `63 - num`, and its highest bit is among the top `k`.
pub record IsShifted (w k : ℕ) (s : ℕ × ℕ) : Type 0 where
  pub shift : ℕ
  pub bound : shift + k ≤ 64
  pub num_eq : s.0 ≡ 63 - shift
  pub word_eq : s.1 ≡ w * 2 ^ shift
  pub below : s.1 < 2 ^ 64
  pub high : 2 ^ (64 - k) ≤ s.1

two_pow-add : (a b : ℕ) → 2 ^ (a + b) ≡ 2 ^ a * 2 ^ b
two_pow-add a zero = rw (add-zero a) (omega arith)
two_pow-add a (suc b) =
    ap (λ n. 2 ^ n) (add-suc a b)
    ∙ pow-suc 2 (a + b)
    ∙ ap (λ n. n * 2) (two_pow-add a b)
    ∙ mul_assoc (2 ^ a) (2 ^ b) 2
    ∙ ap (λ n. 2 ^ a * n) (sym (pow-suc 2 b))

shift_more : (w e k : ℕ) → w * 2 ^ e * 2 ^ k ≡ w * 2 ^ (e + k)
shift_more w e k = mul_assoc w (2 ^ e) (2 ^ k) ∙ ap (λ t. w * t) (sym (two_pow-add e k))

pow_join : (a b c : ℕ) → a + b ≡ c → 2 ^ a * 2 ^ b ≡ 2 ^ c
pow_join a b c e = sym (two_pow-add a b) ∙ ap (λ n. 2 ^ n) e

fls_step-IsShifted :
    (w k : ℕ) (s : ℕ × ℕ) → 1 ≤ k → k ≤ 32 → IsShifted w (k + k) s → IsShifted w k (fls_step k s)
fls_step-IsShifted w k (num, word) pos le h = elim (Bool-cases (ltb word (2 ^ (64 - k)))) [
  | inl low ↦
      let lt = ltb→lt word (2 ^ (64 - k)) low in
      let whole : 2 ^ (64 - k) * 2 ^ k ≡ 2 ^ 64 = pow_join (64 - k) k 64 (omega arith) in
      let half : 2 ^ (64 - (k + k)) * 2 ^ k ≡ 2 ^ (64 - k) =
        pow_join (64 - (k + k)) k (64 - k) (omega arith) in
      let small : word * 2 ^ k < 2 ^ 64 =
        omega (arith, mul-lt-mul_of_pos_right lt (one-le-pow k 2 (omega arith)), whole) in
      let big : 2 ^ (64 - k) ≤ word * 2 ^ k =
        omega (arith, mul-le-mul_right (2 ^ k) h.high, half) in
      let fits : u64 (word * 2 ^ k) ≡ word * 2 ^ k = omega (arith, small) in
      rw (low, fits)
        (record {
          shift = h.shift + k;
          bound = omega (arith, h.bound);
          num_eq = omega (arith, h.num_eq);
          word_eq = ap (λ t. t * 2 ^ k) h.word_eq ∙ shift_more w h.shift k;
          below = small;
          high = big;
        })
  | inr done ↦ rw done (record {
    shift = h.shift;
    bound = omega (arith, h.bound);
    num_eq = h.num_eq;
    word_eq = h.word_eq;
    below = h.below;
    high = ground arith;
  })
]

cancel_shift :
    (w e r : ℕ)
    → 2 ^ (r + e) ≤ w * 2 ^ e
    → w * 2 ^ e < 2 ^ (r + 1 + e)
    → (2 ^ r ≤ w) × (w < 2 ^ (r + 1))
cancel_shift w e r lo hi =
    let pos = one-le-pow e 2 (omega arith) in
    let low = two_pow-add r e in
    let top = two_pow-add (r + 1) e in
    (
      elim (Bool-cases (ltb w (2 ^ r))) [
        | inl less ↦
            absurd (omega (arith, mul-lt-mul_of_pos_right (ltb→lt w (2 ^ r) less) pos, low, lo))
        | inr more ↦ ground arith
      ],
      elim (Bool-cases (ltb w (2 ^ (r + 1)))) [
        | inl less ↦ ltb→lt w (2 ^ (r + 1)) less
        | inr more ↦
            let le : 2 ^ (r + 1) ≤ w = ground arith in
            absurd (omega (arith, mul-le-mul_right (2 ^ e) le, top, hi))
      ],
    )

last_step :
    (w num word : ℕ)
    → IsShifted w 2 (num, word)
    → let r = if ltb word (2 ^ 63) then num - 1 else num in (2 ^ r ≤ w) × (w < 2 ^ (r + 1))
last_step w num word h = elim (Bool-cases (ltb word (2 ^ 63))) [
  | inl low ↦
      let lt = ltb→lt word (2 ^ 63) low in
      let r : num - 1 ≡ 62 - h.shift = omega (arith, h.num_eq, h.bound) in
      let e : 62 - h.shift + h.shift ≡ 62 = omega (arith, h.bound) in
      let e' : 62 - h.shift + 1 + h.shift ≡ 63 = omega (arith, h.bound) in
      rw (low, r)
        (cancel_shift w h.shift (62 - h.shift) (rw (e, sym h.word_eq) h.high)
          (rw (e', sym h.word_eq) lt))
  | inr high ↦
      let ge : 2 ^ 63 ≤ word = ground arith in
      let r : num ≡ 63 - h.shift = h.num_eq in
      let e : 63 - h.shift + h.shift ≡ 63 = omega (arith, h.bound) in
      let e' : 63 - h.shift + 1 + h.shift ≡ 64 = omega (arith, h.bound) in
      rw (high, r)
        (cancel_shift w h.shift (63 - h.shift) (rw (e, sym h.word_eq) ge)
          (rw (e', sym h.word_eq) h.below))
]

-- `fls` of a word other than 0 is the index of its highest bit.
pub fls_lem : (w : ℕ) → 0 < w → w < 2 ^ 64 → (2 ^ fls w ≤ w) × (w < 2 ^ (fls w + 1))
unfolding fls
fls_lem w pos small =
    let s0 : IsShifted w 64 (63, w) = record {
      shift = 0;
      bound = omega arith;
      num_eq = refl;
      word_eq = omega arith;
      below = small;
      high = omega arith;
    } in
    let s32 = fls_step-IsShifted w 32 (63, w) (omega arith) (omega arith) s0 in
    let s16 = fls_step-IsShifted w 16 _ (omega arith) (omega arith) s32 in
    let s8 = fls_step-IsShifted w 8 _ (omega arith) (omega arith) s16 in
    let s4 = fls_step-IsShifted w 4 _ (omega arith) (omega arith) s8 in
    let s2 = fls_step-IsShifted w 2 _ (omega arith) (omega arith) s4 in last_step w _ _ s2
