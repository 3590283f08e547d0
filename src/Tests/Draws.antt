-- ===== src/Tests/Draws.antt =====
-- lib/rand.c: known hashes, and the first words of a seed.
use kvm_unit_tests.Base.{◌+◌, ◌^◌, ◌≡◌, refl, [], ◌∷◌, arith, ok}
use kvm_unit_tests.Rand.{
  words, PrngState, sha256_hash, sha256_chunk, extend_loop, round_loop, round, copy_words, ch, maj,
  rot, upper_sig0, upper_sig1, lower_sig0, lower_sig1, prng_init,
}
use kvm_unit_tests.Rand.Stream.{call, stream, call-stream}

-- The hash of eight zero bytes.
sha256_hash_runs :
    words (sha256_hash (0 ∷ 0 ∷ []))
    ≡ 0xaf5570f5 ∷ 0xa1810b7a ∷ 0xf78caf4b ∷ 0xc70a660f ∷ 0x0df51e42 ∷ 0xbaf91d4d ∷ 0xe5b2328d
      ∷ 0xe0e83dfc ∷ []
unfolding sha256_hash sha256_chunk extend_loop round_loop round copy_words ch maj rot upper_sig0
    upper_sig1 lower_sig0 lower_sig1
sha256_hash_runs = refl

-- The hash of the text "abcd".
sha256_hash_abcd :
    words (sha256_hash (0x61626364 ∷ []))
    ≡ 0x88d4266f ∷ 0xd4e6338d ∷ 0x13b845fc ∷ 0xf289579d ∷ 0x209c8978 ∷ 0x23b9217d ∷ 0xa3e16193
      ∷ 0x6f031589 ∷ []
unfolding sha256_hash sha256_chunk extend_loop round_loop round copy_words ch maj rot upper_sig0
    upper_sig1 lower_sig0 lower_sig1
sha256_hash_abcd = refl

call-stream_example :
    (s : PrngState) × (call 20 (prng_init (2 ^ 32 + 7))
      ≡ ok (stream (sha256_hash (1 ∷ 7 ∷ [])) 20, s))
call-stream_example = call-stream 20 (2 ^ 32 + 7) (omega arith)
