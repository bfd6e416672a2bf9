-- ===== src/Tests/Digest.antt =====
-- The digest at a concrete message.
use emu_sa80535_n.Base.{ℕ, zero, suc, ◌<◌, ◌≡◌, List, [], ◌∷◌, ◌++◌, refl, arith}
use emu_sa80535_n.Base.Tables.{values}
use emu_sa80535_n.Sha.{
  Context, sha256_hex, sha256_init, sha256_update, sha256_final, finish_blocks, spill_block,
  pad_zeros, store_length, store_digest, hex_bytes, sha256_transform, load_words, extend_words,
  rounds, working, add_working, entry,
}
use emu_sa80535_n.Sha.Stream.{sha256_update-append}
use emu_sa80535_n.Sha.Padding.{padding, zeros, big_endian}
use emu_sa80535_n.Sha.Standard.{
  hash, compress, drop, steps, schedule, next_word, first_hash, root_fractions, root_fraction, root,
}
use emu_sa80535_n.Sha.Reference.{reference, padded, bytes_of}
use emu_sa80535_n.Sha.Hex.{hex_text, sha256_hex-reference}

abbrev stale : Context
stale = record { state = λ i. 7; bit_count = 512; block = λ i. i; used = 5 }

abbrev message : List ℕ
message = b'a' ∷ b'b' ∷ b'c' ∷ []

-- The first and the last digits for the message `abc` are those of the standard.
first_digits :
    values (sha256_hex stale (λ i. 0) message (λ i. 0)) 0 8
    ≡ b'b' ∷ b'a' ∷ b'7' ∷ b'8' ∷ b'1' ∷ b'6' ∷ b'b' ∷ b'f' ∷ []
unfolding sha256_hex sha256_init sha256_update sha256_final finish_blocks spill_block pad_zeros
    store_length store_digest hex_bytes sha256_transform load_words extend_words rounds working
    add_working entry
first_digits = refl

message-lt : (k : ℕ) → entry message k < 256
unfolding entry
message-lt zero = omega arith
message-lt (suc zero) = omega arith
message-lt (suc (suc zero)) = omega arith
message-lt (suc (suc (suc k))) = omega arith

-- The digest of `abc` as FIPS 180-4 prints it.
reference_abc :
    reference message
    ≡ 0xba ∷ 0x78 ∷ 0x16 ∷ 0xbf ∷ 0x8f ∷ 0x01 ∷ 0xcf ∷ 0xea ∷ 0x41 ∷ 0x41 ∷ 0x40 ∷ 0xde ∷ 0x5d
      ∷ 0xae ∷ 0x22 ∷ 0x23 ∷ 0xb0 ∷ 0x03 ∷ 0x61 ∷ 0xa3 ∷ 0x96 ∷ 0x17 ∷ 0x7a ∷ 0x9c ∷ 0xb4 ∷ 0x10
      ∷ 0xff ∷ 0x61 ∷ 0xf2 ∷ 0x00 ∷ 0x15 ∷ 0xad ∷ []
unfolding reference padded padding zeros big_endian bytes_of hash compress drop steps schedule
    next_word entry first_hash root_fractions root_fraction root
reference_abc = refl

sha256_hex-reference_example :
    values (sha256_hex stale (λ i. 0) message (λ i. 0)) 0 65
    ≡ hex_text (reference message) ++ (0 ∷ [])
sha256_hex-reference_example = sha256_hex-reference stale (λ i. 0) message (λ i. 0) message-lt

sha256_update-append_example :
    sha256_update (sha256_update stale message) (b'd' ∷ [])
    ≡ sha256_update stale (message ++ (b'd' ∷ []))
sha256_update-append_example = sha256_update-append stale message (b'd' ∷ []) (omega arith)
