-- ===== src/Sha.antt =====
-- The digest of emu_sha_internal.c, which names images and checkpoints.
pub mod Stream
pub mod Blocks
pub mod Padding
pub mod Standard
pub mod Constants
pub mod Words
pub mod Schedule
pub mod Compress
pub mod Reference
pub mod Hex
use emu_sa80535_n.Base.{
  ℕ, zero, suc, ◌+◌, ◌-◌, ◌*◌, ◌/◌, ◌%◌, ◌^◌, min, List, [], ◌∷◌, ltb, ◌==◌, if◌then◌else◌, u8, u32,
  u64, ◌<<<◌, ◌>>>◌, bit_and, bit_or, bit_xor, update, length,
}

-- `struct sha256_context`.
pub record Context : Type 0 where
  pub state : ℕ → ℕ
  pub bit_count : ℕ
  pub block : ℕ → ℕ
  pub used : ℕ

-- The place `i` of a static table.
unfoldable pub entry : List ℕ → ℕ → ℕ
entry [] i = 0
entry (x ∷ xs) zero = x
entry (x ∷ xs) (suc i) = entry xs i

abbrev pub constants : List ℕ
constants =
    0x428a2f98 ∷ 0x71374491 ∷ 0xb5c0fbcf ∷ 0xe9b5dba5 ∷ 0x3956c25b ∷ 0x59f111f1 ∷ 0x923f82a4
    ∷ 0xab1c5ed5 ∷ 0xd807aa98 ∷ 0x12835b01 ∷ 0x243185be ∷ 0x550c7dc3 ∷ 0x72be5d74 ∷ 0x80deb1fe
    ∷ 0x9bdc06a7 ∷ 0xc19bf174 ∷ 0xe49b69c1 ∷ 0xefbe4786 ∷ 0x0fc19dc6 ∷ 0x240ca1cc ∷ 0x2de92c6f
    ∷ 0x4a7484aa ∷ 0x5cb0a9dc ∷ 0x76f988da ∷ 0x983e5152 ∷ 0xa831c66d ∷ 0xb00327c8 ∷ 0xbf597fc7
    ∷ 0xc6e00bf3 ∷ 0xd5a79147 ∷ 0x06ca6351 ∷ 0x14292967 ∷ 0x27b70a85 ∷ 0x2e1b2138 ∷ 0x4d2c6dfc
    ∷ 0x53380d13 ∷ 0x650a7354 ∷ 0x766a0abb ∷ 0x81c2c92e ∷ 0x92722c85 ∷ 0xa2bfe8a1 ∷ 0xa81a664b
    ∷ 0xc24b8b70 ∷ 0xc76c51a3 ∷ 0xd192e819 ∷ 0xd6990624 ∷ 0xf40e3585 ∷ 0x106aa070 ∷ 0x19a4c116
    ∷ 0x1e376c08 ∷ 0x2748774c ∷ 0x34b0bcb5 ∷ 0x391c0cb3 ∷ 0x4ed8aa4a ∷ 0x5b9cca4f ∷ 0x682e6ff3
    ∷ 0x748f82ee ∷ 0x78a5636f ∷ 0x84c87814 ∷ 0x8cc70208 ∷ 0x90befffa ∷ 0xa4506ceb ∷ 0xbef9a3f7
    ∷ 0xc67178f2 ∷ []

unfoldable pub rotate_right : ℕ → ℕ → ℕ
rotate_right v n = bit_or (v >>> n) (u32 (v <<< (32 - n)))

-- The first loop of `sha256_transform`: `n` words from the place `i` on, from four bytes each.
unfoldable pub load_words : ℕ → ℕ → (ℕ → ℕ) → (ℕ → ℕ) → ℕ → ℕ
load_words i zero block words = words
load_words i (suc n) block words =
    let word =
      bit_or
        (bit_or (bit_or (u32 (block (i * 4) <<< 24)) (block (i * 4 + 1) <<< 16))
          (block (i * 4 + 2) <<< 8))
        (block (i * 4 + 3)) in
    load_words (i + 1) n block (update words i word)

-- The second loop: `n` words from the place `i` on, from those before them.
unfoldable pub extend_words : ℕ → ℕ → (ℕ → ℕ) → ℕ → ℕ
unfolding rotate_right
extend_words i zero words = words
extend_words i (suc n) words =
    let u = words (i - 15) in
    let v = words (i - 2) in
    let s0 = bit_xor (bit_xor (rotate_right u 7) (rotate_right u 18)) (u >>> 3) in
    let s1 = bit_xor (bit_xor (rotate_right v 17) (rotate_right v 19)) (v >>> 10) in
    extend_words (i + 1) n (update words i (u32 (words (i - 16) + s0 + words (i - 7) + s1)))

-- The working variables of `sha256_transform`.
pub record Working : Type 0 where
  pub a : ℕ
  pub b : ℕ
  pub c : ℕ
  pub d : ℕ
  pub e : ℕ
  pub f : ℕ
  pub g : ℕ
  pub h : ℕ

-- One pass of the third loop.
unfoldable pub round : ℕ → ℕ → Working → Working
unfolding rotate_right entry
round i word v =
    let s1 = bit_xor (bit_xor (rotate_right v.e 6) (rotate_right v.e 11)) (rotate_right v.e 25) in
    let choice = bit_xor (bit_and v.e v.f) (bit_and (2 ^ 32 - 1 - v.e) v.g) in
    let temp1 = u32 (v.h + s1 + choice + entry constants i + word) in
    let s0 = bit_xor (bit_xor (rotate_right v.a 2) (rotate_right v.a 13)) (rotate_right v.a 22) in
    let majority = bit_xor (bit_xor (bit_and v.a v.b) (bit_and v.a v.c)) (bit_and v.b v.c) in
    let temp2 = u32 (s0 + majority) in
    record {
      a = u32 (temp1 + temp2);
      b = v.a;
      c = v.b;
      d = v.c;
      e = u32 (v.d + temp1);
      f = v.e;
      g = v.f;
      h = v.g;
    }

-- The third loop: `n` passes from the place `i` on.
unfoldable pub rounds : ℕ → ℕ → (ℕ → ℕ) → Working → Working
unfolding round
rounds i zero words v = v
rounds i (suc n) words v = rounds (i + 1) n words (round i (words i) v)

unfoldable pub working : (ℕ → ℕ) → Working
working s = record { a = s 0; b = s 1; c = s 2; d = s 3; e = s 4; f = s 5; g = s 6; h = s 7 }

unfoldable pub add_working : Working → (ℕ → ℕ) → ℕ → ℕ
add_working v s =
    let s0 = update s 0 (u32 (s 0 + v.a)) in
    let s1 = update s0 1 (u32 (s 1 + v.b)) in
    let s2 = update s1 2 (u32 (s 2 + v.c)) in
    let s3 = update s2 3 (u32 (s 3 + v.d)) in
    let s4 = update s3 4 (u32 (s 4 + v.e)) in
    let s5 = update s4 5 (u32 (s 5 + v.f)) in
    let s6 = update s5 6 (u32 (s 6 + v.g)) in update s6 7 (u32 (s 7 + v.h))

-- `sha256_transform` on the chaining state, which is all that it changes.
unfoldable pub sha256_transform : (ℕ → ℕ) → (ℕ → ℕ) → ℕ → ℕ
sha256_transform state block =
    let words = extend_words 16 48 (load_words 0 16 block (λ i. 0)) in
    add_working (rounds 0 64 words (working state)) state

abbrev pub initial : List ℕ
initial =
    0x6a09e667 ∷ 0xbb67ae85 ∷ 0x3c6ef372 ∷ 0xa54ff53a ∷ 0x510e527f ∷ 0x9b05688c ∷ 0x1f83d9ab
    ∷ 0x5be0cd19 ∷ []

unfoldable pub sha256_init : Context → Context
unfolding entry
sha256_init x = record x { state = entry initial; bit_count = 0; used = 0 }

-- `memcpy(block + at, bytes, n)`, where the data have `n` bytes at least.
unfoldable pub copy_bytes : ℕ → ℕ → List ℕ → (ℕ → ℕ) → ℕ → ℕ
copy_bytes at zero bytes block = block
copy_bytes at (suc n) [] block = block
copy_bytes at (suc n) (x ∷ xs) block = copy_bytes (at + 1) n xs (update block at x)

-- `bytes += n`.
unfoldable pub skip : ℕ → List ℕ → List ℕ
skip zero bytes = bytes
skip (suc n) [] = []
skip (suc n) (x ∷ xs) = skip n xs

-- What follows a copy: a full block is digested.
unfoldable pub flush_block : Context → Context
unfolding sha256_transform
flush_block x =
    if x.used == 64
    then record x {
      state = sha256_transform x.state x.block;
      bit_count = u64 (x.bit_count + 512);
      used = 0;
    }
    else x

-- The loop of `sha256_update`, on fuel.
unfoldable pub update_chunks : ℕ → Context → List ℕ → Context
unfolding copy_bytes skip flush_block
update_chunks zero x bytes = x
update_chunks (suc fuel) x [] = x
update_chunks (suc fuel) x (b ∷ bs) =
    let n = min (suc (length bs)) (64 - x.used) in
    update_chunks fuel
      (flush_block (record x { block = copy_bytes x.used n (b ∷ bs) x.block; used = x.used + n }))
      (skip n (b ∷ bs))

unfoldable pub sha256_update : Context → List ℕ → Context
unfolding update_chunks
sha256_update x bytes = update_chunks (length bytes) x bytes

-- The loops `while (used < limit) block[used++] = 0`, on the number of passes.
unfoldable pub pad_zeros : ℕ → Context → Context
pad_zeros zero x = x
pad_zeros (suc n) x = pad_zeros n (record x { block = update x.block x.used 0; used = x.used + 1 })

-- The loop that stores the length: `n` bytes from the byte `i` on.
unfoldable pub store_length : ℕ → ℕ → ℕ → (ℕ → ℕ) → ℕ → ℕ
store_length i zero total block = block
store_length i (suc n) total block =
    store_length (i + 1) n total (update block (63 - i) (u8 (total >>> (i * 8))))

-- The last loop: `n` words from the place `i` on.
unfoldable pub store_digest : ℕ → ℕ → (ℕ → ℕ) → (ℕ → ℕ) → ℕ → ℕ
store_digest i zero state digest = digest
store_digest i (suc n) state digest =
    let w = state i in
    let d0 = update digest (i * 4) (u8 (w >>> 24)) in
    let d1 = update d0 (i * 4 + 1) (u8 (w >>> 16)) in
    let d2 = update d1 (i * 4 + 2) (u8 (w >>> 8)) in
    store_digest (i + 1) n state (update d2 (i * 4 + 3) (u8 w))

-- The branch for a block without room for the length.
unfoldable pub spill_block : Context → Context
spill_block x =
    let y = pad_zeros (64 - x.used) x in
    if ltb 56 x.used then record y { state = sha256_transform y.state y.block; used = 0 } else x

-- The padding of `sha256_final`, and the last block.
unfoldable pub finish_blocks : Context → Context
finish_blocks x =
    let total_bits = u64 (x.bit_count + x.used * 8) in
    let marked = record x { block = update x.block x.used 0x80; used = x.used + 1 } in
    let room = spill_block marked in
    let padded = pad_zeros (56 - room.used) room in
    let whole = record padded { block = store_length 0 8 total_bits padded.block } in
    record whole { state = sha256_transform whole.state whole.block }

-- `sha256_final`: the digest and the context afterwards.
unfoldable pub sha256_final : Context → (ℕ → ℕ) → (ℕ → ℕ) × Context
sha256_final x digest = let y = finish_blocks x in (store_digest 0 8 y.state digest, y)

abbrev pub digits : List ℕ
digits =
    b'0' ∷ b'1' ∷ b'2' ∷ b'3' ∷ b'4' ∷ b'5' ∷ b'6' ∷ b'7' ∷ b'8' ∷ b'9' ∷ b'a' ∷ b'b' ∷ b'c' ∷ b'd'
    ∷ b'e' ∷ b'f' ∷ []

-- The loop of `sha256_hex`: `n` bytes from the place `i` on.
unfoldable pub hex_bytes : ℕ → ℕ → (ℕ → ℕ) → (ℕ → ℕ) → ℕ → ℕ
unfolding entry
hex_bytes i zero digest hex = hex
hex_bytes i (suc n) digest hex =
    let h0 = update hex (i * 2) (entry digits (digest i >>> 4)) in
    hex_bytes (i + 1) n digest (update h0 (i * 2 + 1) (entry digits (bit_and (digest i) 0x0f)))

-- `sha256_hex`, from what the local variables hold before they are set.
unfoldable pub sha256_hex : Context → (ℕ → ℕ) → List ℕ → (ℕ → ℕ) → ℕ → ℕ
sha256_hex context digest bytes hex =
    let d = (sha256_final (sha256_update (sha256_init context) bytes) digest).0 in
    update (hex_bytes 0 32 d hex) 64 0
