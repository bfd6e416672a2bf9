-- ===== src/Sha/Padding.antt =====
-- The padding of `sha256_final` as bytes of a message (emu_sha_internal.c).
use emu_sa80535_n.Base.{
  ℕ, zero, suc, ◌+◌, ◌-◌, ◌*◌, ◌%◌, ◌<◌, ◌≤◌, ◌≡◌, List, [], ◌∷◌, ◌++◌, ltb, ◌==◌, u8, u64, ◌>>>◌,
  update, update_ne, refl, sym, ap, ◌∙◌, true, false, arith, inl, inr, length, Bool-cases,
}
use emu_sa80535_n.Sha.{
  Context, sha256_transform, flush_block, copy_bytes, skip, pad_zeros, store_length, spill_block,
  finish_blocks,
}
use emu_sa80535_n.Base.Tables.{values, values_at}
use emu_sa80535_n.Sha.Stream.{feed, feed-chunk, chunk}
use emu_sa80535_n.Sha.Blocks.{sha256_transform-congr, copy_bytes-below}

unfoldable pub zeros : ℕ → List ℕ
zeros zero = []
zeros (suc n) = 0 ∷ zeros n

-- The `n` low bytes of a number, the highest first.
unfoldable pub big_endian : ℕ → ℕ → List ℕ
big_endian zero v = []
big_endian (suc n) v = u8 (v >>> (n * 8)) ∷ big_endian n v

-- What is added to a message whose last block holds `used` bytes and whose length is `bits`.
unfoldable pub padding : ℕ → ℕ → List ℕ
padding used bits = 0x80 ∷ (zeros ((119 - used) % 64) ++ big_endian 8 bits)

zeros-append : (a b : ℕ) (r : List ℕ) → zeros (a + b) ++ r ≡ zeros a ++ (zeros b ++ r)
unfolding zeros
zeros-append zero b r = let e : 0 + b ≡ b = omega arith in rw e refl
zeros-append (suc a) b r =
    let e : suc a + b ≡ suc (a + b) = omega arith in
    rw e (ap (λ (t : List ℕ). 0 ∷ t) (zeros-append a b r))

flush_block-room : (x : Context) → x.used < 64 → flush_block x ≡ x
flush_block-room x h =
    let room : (x.used == 64) ≡ false = ground arith in unfold flush_block in rw room refl

flush_block-full :
    (x : Context)
    → x.used ≡ 64
    → flush_block x ≡ (record x {
      state = sha256_transform x.state x.block;
      bit_count = u64 (x.bit_count + 512);
      used = 0;
    })
flush_block-full x h =
    let full : (x.used == 64) ≡ true = ground arith in unfold flush_block in rw full refl

pad_zeros-used : (n : ℕ) (x : Context) → (pad_zeros n x).used ≡ x.used + n
unfolding pad_zeros
pad_zeros-used zero x = omega arith
pad_zeros-used (suc n) x =
    omega
      (arith, pad_zeros-used n (record x { block = update x.block x.used 0; used = x.used + 1 }))

-- Padding with zeros does not look at the count of bits.
pad_zeros-bit_count :
    (n k : ℕ) (x : Context)
    → pad_zeros n (record x { bit_count = k }) ≡ (record (pad_zeros n x) { bit_count = k })
unfolding pad_zeros
pad_zeros-bit_count zero k x = refl
pad_zeros-bit_count (suc n) k x =
    pad_zeros-bit_count n k (record x { block = update x.block x.used 0; used = x.used + 1 })

feed-zeros :
    (n : ℕ) (x : Context) (r : List ℕ)
    → x.used + n ≤ 64
    → feed (flush_block x) (zeros n ++ r) ≡ feed (flush_block (pad_zeros n x)) r
unfolding zeros pad_zeros
feed-zeros zero x r h = refl
feed-zeros (suc n) x r h =
    rw (flush_block-room x (omega arith)) (
      feed-zeros n (record x { block = update x.block x.used 0; used = x.used + 1 }) r
        (omega arith))

store_length-below :
    (n i total : ℕ) (f : ℕ → ℕ) (k : ℕ) → k < 56 → i + n ≤ 8 → store_length i n total f k ≡ f k
unfolding store_length
store_length-below zero i total f k h le = refl
store_length-below (suc n) i total f k h le =
    store_length-below n (i + 1) total _ k h (omega arith)
    ∙ update_ne f (63 - i) k (u8 (total >>> (i * 8))) (omega arith)

store_length-values :
    (total : ℕ) (f : ℕ → ℕ)
    → values (copy_bytes 56 8 (big_endian 8 total) f) 56 8 ≡ values (store_length 0 8 total f) 56 8
unfolding copy_bytes big_endian store_length
store_length-values total f = refl

store_length-eq :
    (total : ℕ) (f : ℕ → ℕ) (k : ℕ)
    → k < 64
    → copy_bytes 56 8 (big_endian 8 total) f k ≡ store_length 0 8 total f k
store_length-eq total f k h = elim (Bool-cases (ltb k 56)) [
  | inl low ↦
      let lt : k < 56 = ground arith in
      copy_bytes-below 8 56 (big_endian 8 total) f k lt
      ∙ sym (store_length-below 8 0 total f k lt (omega arith))
  | inr high ↦
      let e : k ≡ 56 + (k - 56) = ground arith in
      rw e (
        values_at (copy_bytes 56 8 (big_endian 8 total) f) (store_length 0 8 total f) 8 56 (k - 56)
          (store_length-values total f) (omega arith))
]

-- The last block of `finish_blocks`.
abbrev last_block : Context → ℕ → ℕ → ℕ
last_block x total = sha256_transform x.state (store_length 0 8 total x.block)

feed-big_endian :
    (x : Context) (total : ℕ)
    → x.used ≡ 56
    → (feed x (big_endian 8 total)).state ≡ last_block x total
feed-big_endian x total h =
    let b = u8 (total >>> 56) in
    let bs = big_endian 7 total in
    let split : big_endian 8 total ≡ b ∷ bs = unfold big_endian in refl in
    let filled = chunk x 8 (b ∷ bs) in
    let none_left : skip 7 bs ≡ [] = unfold skip in unfold big_endian in refl in
    let enough : 7 ≤ length bs = unfold big_endian in omega arith in
    let fed : feed (flush_block filled) [] ≡ feed x (b ∷ bs) =
      ap (λ r. feed (flush_block filled) r) (sym none_left)
      ∙ feed-chunk 7 x b bs enough (omega arith) in
    rw (split, sym fed, flush_block-full filled (omega arith))
      (sha256_transform-congr x.state filled.block (store_length 0 8 total x.block)
        (λ k lt. rw (h, sym split) (store_length-eq total x.block k lt)))

feed-tail :
    (x : Context) (total : ℕ)
    → x.used ≤ 56
    → (feed (flush_block x) (zeros (56 - x.used) ++ big_endian 8 total)).state
      ≡ last_block (pad_zeros (56 - x.used) x) total
feed-tail x total h =
    let y = pad_zeros (56 - x.used) x in
    let used : y.used ≡ 56 = omega (arith, pad_zeros-used (56 - x.used) x) in
    rw
      (
        feed-zeros (56 - x.used) x (big_endian 8 total) (omega arith),
        flush_block-room y (omega arith),
      )
      (feed-big_endian y total used)

abbrev mark : Context → Context
mark x = record x { block = update x.block x.used 0x80; used = x.used + 1 }

finish_blocks-last :
    (x y : Context)
    → spill_block (mark x) ≡ y
    → (finish_blocks x).state
      ≡ last_block (pad_zeros (56 - y.used) y) (u64 (x.bit_count + x.used * 8))
unfolding finish_blocks
finish_blocks-last x y e = rw e refl

-- The state that `finish_blocks` leaves is that of the context fed with the padding.
pub finish_blocks-feed :
    (x : Context)
    → x.used < 64
    → (finish_blocks x).state ≡ (feed x (padding x.used (u64 (x.bit_count + x.used * 8)))).state
unfolding padding
finish_blocks-feed x h =
    let total = u64 (x.bit_count + x.used * 8) in
    let y = mark x in
    let p = pad_zeros (64 - y.used) y in
    let used : p.used ≡ 64 = omega (arith, pad_zeros-used (64 - y.used) y) in
    let room : Context = record p { state = sha256_transform p.state p.block; used = 0 } in
    let counted : Context = record room { bit_count = u64 (p.bit_count + 512) } in
    elim (Bool-cases (ltb 56 (x.used + 1))) [
      | inl spill ↦
          let more : 56 < x.used + 1 = ground arith in
          let e : (119 - x.used) % 64 ≡ 64 - y.used + 56 = omega arith in
          let spilled : spill_block y ≡ room = unfold spill_block in rw spill refl in
          rw
            (
              finish_blocks-last x room spilled,
              e,
              zeros-append (64 - y.used) 56 (big_endian 8 total),
              feed-zeros (64 - y.used) y (zeros 56 ++ big_endian 8 total) (omega arith),
              flush_block-full p used,
              sym (flush_block-room counted (omega arith)),
              feed-tail counted total (omega arith),
              pad_zeros-bit_count 56 (u64 (p.bit_count + 512)) room,
            )
            refl
      | inr fits ↦
          let less : x.used + 1 ≤ 56 = ground arith in
          let e : (119 - x.used) % 64 ≡ 56 - y.used = omega arith in
          let stays : spill_block y ≡ y = unfold spill_block in rw fits refl in
          rw (finish_blocks-last x y stays, e, feed-tail y total less) refl
    ]
