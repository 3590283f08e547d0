-- ===== src/Rand/Stream.antt =====
-- lib/rand.c: the sequence of the words that `prng32` returns.
use mathlib.Core.Path.{subst}
use native.Mathlib.Nat.{add-zero, zero-add}
use kvm_unit_tests.Base.{
  ℕ, zero, suc, ◌+◌, ◌/◌, ◌%◌, ◌^◌, [], ◌∷◌, ◌≤◌, ◌<◌, ◌≡◌, refl, ap, ◌∙◌, sym, Bool-cases, inl,
  inr, arith, ok, Result, ◌>>=◌, ltb, lt→ltb, ltb→lt, get_or,
}
use kvm_unit_tests.Rand.{Hash, words, PrngState, sha256_hash, prng_init, prng_scramble, prng32}

-- The hash of the words of a hash, `n` times.
abbrev pub hash_after : ℕ → Hash → Hash
hash_after zero h = h
hash_after (suc n) h = hash_after n (sha256_hash (words h))

-- Word `i` of the words of `h`, of the words of the hash of `h`, and so on.
abbrev pub stream : Hash → ℕ → ℕ
stream h i = get_or (words (hash_after (i / 8) h)) (i % 8) 0

-- The word that call `n` returns, after the calls before it.
abbrev pub call : ℕ → PrngState → Result (ℕ × PrngState)
call zero s = prng32 s
call (suc n) s = do (_, s') ← prng32 s; call n s'

prng32_next :
    (h : Hash) (r : ℕ)
    → r < 8
    → prng32 (record { hash = h; next_word = r })
      ≡ ok (get_or (words h) r 0, record { hash = h; next_word = r + 1 })
unfolding prng32
prng32_next h r lt = rw (lt→ltb r 8 lt) refl

abbrev scrambled : Hash → Hash
scrambled h = sha256_hash (words h)

scramble_lem :
    (h : Hash) (r : ℕ)
    → prng_scramble (record { hash = h; next_word = r })
      ≡ record { hash = scrambled h; next_word = 0 }
unfolding prng_scramble
scramble_lem h r = refl

prng32_again :
    (h : Hash)
    → prng32 (record { hash = h; next_word = 8 })
      ≡ ok (get_or (words (scrambled h)) 0 0, record { hash = scrambled h; next_word = 1 })
unfolding prng32
prng32_again h = rw (scramble_lem h 8) refl

stream-next_hash : (h : Hash) (n : ℕ) → stream h (8 + n) ≡ stream (scrambled h) n
stream-next_hash h n =
    let q : (8 + n) / 8 ≡ suc (n / 8) = omega arith in
    let r : (8 + n) % 8 ≡ n % 8 = omega arith in rw (q, r) refl

stream-first : (h : Hash) (r : ℕ) → r < 8 → stream h r ≡ get_or (words h) r 0
stream-first h r lt =
    let q : r / 8 ≡ 0 = omega arith in let m : r % 8 ≡ r = omega arith in rw (q, m) refl

call_after_eight :
    (n : ℕ) (h : Hash) (s : PrngState)
    → call n (record { hash = scrambled h; next_word = 1 }) ≡ ok (stream (scrambled h) (1 + n), s)
    → call (suc n) (record { hash = h; next_word = 8 }) ≡ ok (stream h (8 + suc n), s)
call_after_eight n h s e =
    let i : 8 + suc n ≡ 8 + (1 + n) = omega arith in
    rw (prng32_again h, i, stream-next_hash h (1 + n)) e

-- Where `r` words of the hash of the state have been used, call `n` gives word `r + n`.
call_from :
    (n : ℕ) (h : Hash) (r : ℕ)
    → r ≤ 8
    → (s : PrngState) × (call n (record { hash = h; next_word = r }) ≡ ok (stream h (r + n), s))
call_from zero h r le = elim (Bool-cases (ltb r 8)) [
  | inl more ↦
      let lt = ltb→lt r 8 more in
      (
        record { hash = h; next_word = r + 1 },
        rw (prng32_next h r lt, add-zero r, stream-first h r lt) refl,
      )
  | inr done ↦
      let e : r ≡ 8 = ground arith in
      (
        record { hash = scrambled h; next_word = 1 },
        rw (e, prng32_again h, stream-next_hash h 0) refl,
      )
]
call_from (suc n) h r le = elim (Bool-cases (ltb r 8)) [
  | inl more ↦
      let lt = ltb→lt r 8 more in
      let (s, e) = call_from n h (r + 1) (omega arith) in
      let i : r + suc n ≡ r + 1 + n = omega arith in (s, rw (prng32_next h r lt, i) e)
  | inr done ↦
      let e8 : r ≡ 8 = ground arith in
      let (s, e) = call_from n (scrambled h) 1 (omega arith) in
      (
        s,
        subst
            (λ r. call (suc n) (record { hash = h; next_word = r }) ≡ ok (stream h (r + suc n), s))
            (sym e8) (call_after_eight n h s e),
      )
]

-- After `prng_init` with a seed of 64 bits, call `n` of `prng32` returns: no call recurses more than
-- once. It returns word `n` of the words of the hash that `sha256_hash` computes of the upper and
-- the lower half of the seed, of the hash of that hash, and so on.
pub call-stream :
    (n seed : ℕ)
    → seed < 2 ^ 64
    → (s : PrngState) × (call n (prng_init seed)
        ≡ ok (stream (sha256_hash (seed / 2 ^ 32 ∷ seed % 2 ^ 32 ∷ [])) n, s))
unfolding prng_init
call-stream n seed h =
    let first : Hash = sha256_hash (seed / 2 ^ 32 ∷ seed % 2 ^ 32 ∷ []) in
    let (s, e) = call_from n first 0 (omega arith) in
    (s, e ∙ ap (λ i. ok (stream first i, s)) (zero-add n))
