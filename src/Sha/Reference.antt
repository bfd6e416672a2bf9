-- ===== src/Sha/Reference.antt =====
-- The digest against the standard on a whole message: the message is padded and cut into blocks of
-- 64 bytes, which are digested in turn (emu_sha_internal.c).
use emu_sa80535_n.Base.{
  ℕ, zero, suc, ◌+◌, ◌-◌, ◌*◌, ◌/◌, ◌%◌, ◌^◌, ◌<◌, ◌≡◌, ◌≢◌, List, [], ◌∷◌, ◌++◌, ◌==◌, u64, update,
  length, length-append, refl, sym, ap, ◌∙◌, arith, if_either,
}
use emu_sa80535_n.Base.Tables.{values}
use emu_sa80535_n.Sha.{
  Context, Working, working, entry, initial, sha256_init, sha256_update, sha256_final, flush_block,
  finish_blocks, store_digest,
}
use emu_sa80535_n.Sha.Standard.{hash, first_hash}
use emu_sa80535_n.Sha.Constants.{initial-first_hash}
use emu_sa80535_n.Sha.Compress.{hash_blocks-hash}
use emu_sa80535_n.Sha.Stream.{feed, put_byte, feed-append, feed-lt, sha256_update-feed}
use emu_sa80535_n.Sha.Blocks.{hash_blocks, feed-hash_blocks}
use emu_sa80535_n.Sha.Padding.{zeros, big_endian, padding, finish_blocks-feed}

-- The bytes of `n` words from the word `i` on.
unfoldable pub word_bytes : ℕ → ℕ → (ℕ → ℕ) → List ℕ
word_bytes i zero state = []
word_bytes i (suc n) state = big_endian 4 (state i) ++ word_bytes (i + 1) n state

-- The message with the byte 0x80, zeros up to the last 8 bytes of a block, and its length in bits.
unfoldable pub padded : List ℕ → List ℕ
padded m = m ++ padding (length m % 64) (u64 (length m * 8))

-- The bytes of a hash value.
unfoldable pub bytes_of : Working → List ℕ
bytes_of v =
    big_endian 4 v.a
    ++ (big_endian 4 v.b
        ++ (big_endian 4 v.c
            ++ (big_endian 4 v.d
                ++ (big_endian 4 v.e
                    ++ (big_endian 4 v.f ++ (big_endian 4 v.g ++ big_endian 4 v.h))))))

-- The digest of a message, as FIPS 180-4 defines it.
unfoldable pub reference : List ℕ → List ℕ
reference m = bytes_of (hash (length (padded m) / 64) first_hash (padded m))

entry-append :
    (a b : List ℕ)
    → ((k : ℕ) → entry a k < 256)
    → ((k : ℕ) → entry b k < 256)
    → (k : ℕ) → entry (a ++ b) k < 256
unfolding entry
entry-append [] b ha hb k = hb k
entry-append (x ∷ a) b ha hb zero = ha 0
entry-append (x ∷ a) b ha hb (suc k) = entry-append a b (λ j. ha (suc j)) hb k

entry-zeros : (n k : ℕ) → entry (zeros n) k < 256
unfolding entry zeros
entry-zeros zero k = omega arith
entry-zeros (suc n) zero = omega arith
entry-zeros (suc n) (suc k) = entry-zeros n k

entry-big_endian : (n v k : ℕ) → entry (big_endian n v) k < 256
unfolding entry big_endian
entry-big_endian zero v k = omega arith
entry-big_endian (suc n) v zero = omega arith
entry-big_endian (suc n) v (suc k) = entry-big_endian n v k

entry-padding : (used bits k : ℕ) → entry (padding used bits) k < 256
unfolding entry padding
entry-padding used bits zero = omega arith
entry-padding used bits (suc k) =
    entry-append (zeros ((119 - used) % 64)) (big_endian 8 bits) (entry-zeros ((119 - used) % 64))
      (entry-big_endian 8 bits) k

entry-padded : (m : List ℕ) → ((k : ℕ) → entry m k < 256) → (k : ℕ) → entry (padded m) k < 256
unfolding padded
entry-padded m small =
    entry-append m (padding (length m % 64) (u64 (length m * 8))) small
      (entry-padding (length m % 64) (u64 (length m * 8)))

length-zeros : (n : ℕ) → length (zeros n) ≡ n
unfolding zeros
length-zeros zero = refl
length-zeros (suc n) = omega (arith, length-zeros n)

length-big_endian : (v : ℕ) → length (big_endian 8 v) ≡ 8
unfolding big_endian
length-big_endian v = refl

length-padded : (m : List ℕ) → length (padded m) % 64 ≡ 0
unfolding padded padding
length-padded m =
    let z = (119 - length m % 64) % 64 in
    let v = u64 (length m * 8) in
    omega (
      arith,
      length-append m (0x80 ∷ (zeros z ++ big_endian 8 v)),
      length-append (zeros z) (big_endian 8 v),
      length-zeros z,
      length-big_endian v,
    )

-- What the count of bits and the place in the block say of the length so far.
put_byte-used : (x : Context) (b : ℕ) → x.used < 64 → (put_byte x b).used ≡ (x.used + 1) % 64
unfolding flush_block
put_byte-used x b h =
    let y : Context = record x { block = update x.block x.used b; used = x.used + 1 } in
    if_either (λ (t : Context). t.used ≡ (x.used + 1) % 64) (y.used == 64) _ y
      (λ full. let e : x.used + 1 ≡ 64 = ground arith in omega arith)
      (λ room. let ne : x.used + 1 ≢ 64 = ground arith in omega arith)

put_byte-bits :
    (x : Context) (b : ℕ)
    → ((put_byte x b).bit_count + (put_byte x b).used * 8) % 2 ^ 64
      ≡ (x.bit_count + x.used * 8 + 8) % 2 ^ 64
unfolding flush_block
put_byte-bits x b =
    let y : Context = record x { block = update x.block x.used b; used = x.used + 1 } in
    if_either
      (λ (t : Context).
        (t.bit_count + t.used * 8) % 2 ^ 64 ≡ (x.bit_count + x.used * 8 + 8) % 2 ^ 64)
      (y.used == 64) _ y (λ full. let e : x.used + 1 ≡ 64 = ground arith in omega arith)
      (λ room. omega arith)

feed-used : (x : Context) (m : List ℕ) → x.used < 64 → (feed x m).used ≡ (x.used + length m) % 64
feed-used x [] h = omega arith
feed-used x (b ∷ m) h =
    let lt : (put_byte x b).used < 64 = feed-lt x (b ∷ []) h in
    omega (arith, put_byte-used x b h, feed-used (put_byte x b) m lt)

feed-bits :
    (x : Context) (m : List ℕ)
    → ((feed x m).bit_count + (feed x m).used * 8) % 2 ^ 64
      ≡ (x.bit_count + x.used * 8 + length m * 8) % 2 ^ 64
feed-bits x [] = omega arith
feed-bits x (b ∷ m) = omega (arith, put_byte-bits x b, feed-bits (put_byte x b) m)

store_digest-values : (s d : ℕ → ℕ) → values (store_digest 0 8 s d) 0 32 ≡ word_bytes 0 8 s
unfolding store_digest word_bytes big_endian
store_digest-values s d =
    let one : (w : ℕ) → w / 1 ≡ w = λ w. omega arith in
    rw (one (s 0), one (s 1), one (s 2), one (s 3), one (s 4), one (s 5), one (s 6), one (s 7)) refl

-- The state after the last block is that of the padded message digested block by block.
finish_blocks-hash_blocks :
    (x : Context) (m : List ℕ)
    → (finish_blocks (sha256_update (sha256_init x) m)).state
      ≡ hash_blocks (length (padded m) / 64) (entry initial) (padded m)
unfolding padded sha256_init
finish_blocks-hash_blocks x m =
    let start : Context = record x { state = entry initial; bit_count = 0; used = 0 } in
    let y = feed start m in
    let used : y.used ≡ length m % 64 = omega (arith, feed-used start m (omega arith)) in
    let bits : u64 (y.bit_count + y.used * 8) ≡ u64 (length m * 8) =
      omega (arith, feed-bits start m) in
    let p = padding (length m % 64) (u64 (length m * 8)) in
    rw
      (
        sha256_update-feed start m (omega arith),
        finish_blocks-feed y (feed-lt start m (omega arith)),
        bits,
        used,
        sym (feed-append start m p),
      )
      (feed-hash_blocks (length (m ++ p) / 64) start (m ++ p) refl (omega (arith, length-padded m)))

-- The 32 bytes that `sha256_final` stores are those of the state after the last block.
pub sha256_final-word_bytes :
    (x : Context) (digest : ℕ → ℕ) (m : List ℕ)
    → values (sha256_final (sha256_update (sha256_init x) m) digest).0 0 32
      ≡ word_bytes 0 8 (hash_blocks (length (padded m) / 64) (entry initial) (padded m))
unfolding sha256_final
sha256_final-word_bytes x digest m =
    rw (sym (finish_blocks-hash_blocks x m))
      (store_digest-values (finish_blocks (sha256_update (sha256_init x) m)).state digest)

word_bytes-bytes_of : (s : ℕ → ℕ) → word_bytes 0 8 s ≡ bytes_of (working s)
unfolding word_bytes bytes_of working big_endian
word_bytes-bytes_of s = refl

initial-lt : (entry initial 0 < 2 ^ 32) × (entry initial 4 < 2 ^ 32)
unfolding entry
initial-lt = (omega arith, omega arith)

-- They are the digest that the standard defines.
pub sha256_final-reference :
    (x : Context) (digest : ℕ → ℕ) (m : List ℕ)
    → ((k : ℕ) → entry m k < 256)
    → values (sha256_final (sha256_update (sha256_init x) m) digest).0 0 32 ≡ reference m
unfolding reference
sha256_final-reference x digest m small =
    let p = padded m in
    let n = length p / 64 in
    sha256_final-word_bytes x digest m
    ∙ word_bytes-bytes_of (hash_blocks n (entry initial) p)
    ∙ ap (λ (v : Working). bytes_of v)
        (hash_blocks-hash n (entry initial) p (entry-padded m small) initial-lt.0 initial-lt.1)
    ∙ ap (λ (v : Working). bytes_of (hash n v p)) initial-first_hash
