-- ===== src/Rand.antt =====
-- lib/rand.c: SHA-256 of a single chunk, and the pseudo random numbers that are drawn from it.
-- An array of words is a list, and a hash is a record of its eight words, which the source indexes
-- by A to H. Every index is in range.
pub mod Stream
use kvm_unit_tests.Base.{
  ℕ, zero, suc, ◌+◌, ◌-◌, ◌*◌, ◌/◌, ◌^◌, Bool, true, false, List, [], ◌∷◌, ◌++◌, ltb, if◌then◌else◌,
  Result, ok, fault, ◌>>=◌, u32, bit_and, bit_or, bit_xor, get_or, set, length, replicate,
}

pub record Hash : Type 0 where
  pub a : ℕ
  pub b : ℕ
  pub c : ℕ
  pub d : ℕ
  pub e : ℕ
  pub f : ℕ
  pub g : ℕ
  pub h : ℕ

-- INITAL_HASH
abbrev pub initial_hash : Hash
initial_hash = record {
  a = 0x6a09e667;
  b = 0xbb67ae85;
  c = 0x3c6ef372;
  d = 0xa54ff53a;
  e = 0x510e527f;
  f = 0x9b05688c;
  g = 0x1f83d9ab;
  h = 0x5be0cd19;
}

-- K
abbrev pub constants : List ℕ
constants =
    0x428a2f98 ∷ 0x71374491 ∷ 0xb5c0fbcf ∷ 0xe9b5dba5 ∷ 0x3956c25b ∷ 0x59f111f1 ∷ 0x923f82a4
    ∷ 0xab1c5ed5 ∷ 0xd807aa98 ∷ 0x12835b01 ∷ 0x243185be ∷ 0x550c7dc3 ∷ 0x72be5d74 ∷ 0x80deb1fe
    ∷ 0x9bdc06a7 ∷ 0xc19bf174 ∷ 0xe49b69c1 ∷ 0xefbe4786 ∷ 0x0fc19dc6 ∷ 0x240ca1cc ∷ 0x2de92c6f
    ∷ 0x4a7484aa ∷ 0x5cb0a9dc ∷ 0x76f988da ∷ 0x983e5152 ∷ 0xa831c66d ∷ 0xb00327c8 ∷ 0xbf597fc7
    ∷ 0xc6e00bf3 ∷ 0xd5a79147 ∷ 0x06ca6351 ∷ 0x14292967 ∷ 0x27b70a85 ∷ 0x2e1b2138 ∷ 0x4d2c6dfc
    ∷ 0x53380d13 ∷ 0x650a7354 ∷ 0x766a0abb ∷ 0x81c2c92e ∷ 0x92722c85 ∷ 0xa2bfe8a1 ∷ 0xa81a664b
    ∷ 0xc24b8b70 ∷ 0xc76c51a3 ∷ 0xd192e819 ∷ 0xd6990624 ∷ 0xf40e3585 ∷ 0x106aa070 ∷ 0x19a4c116
    ∷ 0x1e376c08 ∷ 0x2748774c ∷ 0x34b0bcb5 ∷ 0x391c0cb3 ∷ 0x4ed8aa4a ∷ 0x5b9cca4f ∷ 0x682e6ff3
    ∷ 0x748f82ee ∷ 0x78a5636f ∷ 0x84c87814 ∷ 0x8cc70208 ∷ 0x90befffa ∷ 0xa4506ceb ∷ 0xbef9a3f7
    ∷ 0xc67178f2 ∷ []

unfoldable pub ch : ℕ → ℕ → ℕ → ℕ
ch x y z = bit_xor (bit_and x y) (bit_and (2 ^ 32 - 1 - x) z)

unfoldable pub maj : ℕ → ℕ → ℕ → ℕ
maj x y z = bit_xor (bit_xor (bit_and x y) (bit_and x z)) (bit_and y z)

unfoldable pub rot : ℕ → ℕ → ℕ
rot value count = bit_or (value / 2 ^ count) (u32 (value * 2 ^ (32 - count)))

unfoldable pub upper_sig0 : ℕ → ℕ
unfolding rot
upper_sig0 x = bit_xor (bit_xor (rot x 2) (rot x 13)) (rot x 22)

unfoldable pub upper_sig1 : ℕ → ℕ
unfolding rot
upper_sig1 x = bit_xor (bit_xor (rot x 6) (rot x 11)) (rot x 25)

unfoldable pub lower_sig0 : ℕ → ℕ
unfolding rot
lower_sig0 x = bit_xor (bit_xor (rot x 7) (rot x 18)) (x / 2 ^ 3)

unfoldable pub lower_sig1 : ℕ → ℕ
unfolding rot
lower_sig1 x = bit_xor (bit_xor (rot x 17) (rot x 19)) (x / 2 ^ 10)

-- `for (int i = 16; i < 64; i++)`: `w` up to `i`, and the rounds left.
unfoldable pub extend_loop : ℕ → ℕ → List ℕ → List ℕ
unfolding lower_sig0 lower_sig1
extend_loop zero i w = w
extend_loop (suc left) i w =
    let next = u32 (
      lower_sig1 (get_or w (i - 2) 0)
      + get_or w (i - 7) 0
      + lower_sig0 (get_or w (i - 15) 0)
      + get_or w (i - 16) 0) in
    extend_loop left (i + 1) (w ++ (next ∷ []))

-- One round on `w_hash`, for `K[i]` and `w[i]`.
unfoldable pub round : ℕ → ℕ → Hash → Hash
unfolding upper_sig0 upper_sig1 ch maj
round k w s =
    let t1 = u32 (s.h + upper_sig1 s.e + ch s.e s.f s.g + k + w) in
    let t2 = u32 (upper_sig0 s.a + maj s.a s.b s.c) in
    record {
      a = u32 (t1 + t2);
      b = s.a;
      c = s.b;
      d = s.c;
      e = u32 (s.d + t1);
      f = s.e;
      g = s.f;
      h = s.g;
    }

-- The 64 rounds, on `K` and `w` from `i` on.
unfoldable pub round_loop : List ℕ → List ℕ → Hash → Hash
unfolding round
round_loop [] ws s = s
round_loop (k ∷ ks) [] s = s
round_loop (k ∷ ks) (w ∷ ws) s = round_loop ks ws (round k w s)

unfoldable pub sha256_chunk : List ℕ → Hash → Hash
unfolding extend_loop round_loop
sha256_chunk chunk hash =
    let s = round_loop constants (extend_loop 48 16 chunk) hash in
    record {
      a = u32 (hash.a + s.a);
      b = u32 (hash.b + s.b);
      c = u32 (hash.c + s.c);
      d = u32 (hash.d + s.d);
      e = u32 (hash.e + s.e);
      f = u32 (hash.f + s.f);
      g = u32 (hash.g + s.g);
      h = u32 (hash.h + s.h);
    }

-- `memcpy(chunk, input, sizeof(*input))`
unfoldable pub copy_words : List ℕ → List ℕ → List ℕ
copy_words [] chunk = chunk
copy_words (x ∷ input) [] = []
copy_words (x ∷ input) (y ∷ chunk) = x ∷ copy_words input chunk

-- `sha256_hash` of at most 13 words.
unfoldable pub sha256_hash : List ℕ → Hash
unfolding sha256_chunk copy_words
sha256_hash input =
    let n = length input in
    let chunk = replicate 15 0 ++ (u32 (n * 4 * 8) ∷ []) in
    sha256_chunk (set (copy_words input chunk) n (2 ^ 31)) initial_hash

-- `prng_state`
pub record PrngState : Type 0 where
  pub hash : Hash
  pub next_word : ℕ

unfoldable pub prng_init : ℕ → PrngState
unfolding sha256_hash
prng_init seed = record { hash = sha256_hash (seed / 2 ^ 32 ∷ u32 seed ∷ []); next_word = 0 }

abbrev pub words : Hash → List ℕ
words h = h.a ∷ h.b ∷ h.c ∷ h.d ∷ h.e ∷ h.f ∷ h.g ∷ h.h ∷ []

unfoldable pub prng_scramble : PrngState → PrngState
unfolding sha256_hash
prng_scramble state = record { hash = sha256_hash (words state.hash); next_word = 0 }

-- `prng32`, which calls itself after a scramble.
unfoldable pub prng32_loop : ℕ → PrngState → Result (ℕ × PrngState)
prng32_loop zero state = fault
prng32_loop (suc fuel) state =
    let again = prng32_loop fuel (prng_scramble state) in
    if ltb state.next_word 8
    then ok (
      get_or (words state.hash) state.next_word 0,
      record state { next_word = state.next_word + 1 },
    )
    else again

unfoldable pub prng32 : PrngState → Result (ℕ × PrngState)
unfolding prng32_loop
prng32 state = prng32_loop 2 state

unfoldable pub prng64 : PrngState → Result (ℕ × PrngState)
unfolding prng32
prng64 state = do
  (high, state) ← prng32 state
  (low, state) ← prng32 state
  ok (bit_or (high * 2 ^ 32) low, state)
