-- ===== src/Sha/Stream.antt =====
-- Updates of the digest in chunks (`sha256_update` of emu_sha_internal.c).
use emu_sa80535_n.Base.{
  ℕ, zero, suc, ◌+◌, ◌-◌, ◌<◌, ◌≤◌, ◌≡◌, List, [], ◌∷◌, ◌++◌, min, ◌≢◌, ◌==◌, if_either, u64,
  update, length, refl, ◌∙◌, false, arith,
}
use emu_sa80535_n.Sha.{
  Context, sha256_transform, flush_block, copy_bytes, skip, update_chunks, sha256_update,
}

-- The context after `n` bytes are copied into the block.
abbrev pub chunk : Context → ℕ → List ℕ → Context
chunk x n bytes = record x { block = copy_bytes x.used n bytes x.block; used = x.used + n }

-- One byte at a time.
abbrev pub put_byte : Context → ℕ → Context
put_byte x b = flush_block (record x { block = update x.block x.used b; used = x.used + 1 })

abbrev pub feed : Context → List ℕ → Context
feed x [] = x
feed x (b ∷ bs) = feed (put_byte x b) bs

pub feed-append : (x : Context) (a b : List ℕ) → feed x (a ++ b) ≡ feed (feed x a) b
feed-append x [] b = refl
feed-append x (c ∷ a) b = feed-append (put_byte x c) a b

pub flush_block-lt : (x : Context) → x.used ≤ 64 → (flush_block x).used < 64
unfolding flush_block
flush_block-lt x h =
    if_either (λ (y : Context). y.used < 64) (x.used == 64)
      (record x {
        state = sha256_transform x.state x.block;
        bit_count = u64 (x.bit_count + 512);
        used = 0;
      })
      x (λ full. omega arith) (λ room. let ne : x.used ≢ 64 = ground arith in omega arith)

pub feed-lt : (x : Context) (a : List ℕ) → x.used < 64 → (feed x a).used < 64
feed-lt x [] h = h
feed-lt x (b ∷ a) h =
    feed-lt (put_byte x b) a (
      flush_block-lt (record x { block = update x.block x.used b; used = x.used + 1 })
        (omega arith))

length-skip : (n : ℕ) (bs : List ℕ) → length (skip n bs) ≤ length bs
unfolding skip
length-skip zero bs = omega arith
length-skip (suc n) [] = omega arith
length-skip (suc n) (b ∷ bs) = omega (arith, length-skip n bs)

pub feed-chunk :
    (n : ℕ) (x : Context) (b : ℕ) (bs : List ℕ)
    → n ≤ length bs
    → x.used + suc n ≤ 64
    → feed (flush_block (chunk x (suc n) (b ∷ bs))) (skip n bs) ≡ feed x (b ∷ bs)
unfolding copy_bytes skip
feed-chunk zero x b bs h k = refl
feed-chunk (suc n) x b [] h k = absurd (omega arith)
feed-chunk (suc n) x b (c ∷ cs) h k =
    let y : Context = record x { block = update x.block x.used b; used = x.used + 1 } in
    let room : (x.used + 1 == 64) ≡ false = ground arith in
    let same : put_byte x b ≡ y = unfold flush_block in rw room refl in
    let e : x.used + suc (suc n) ≡ x.used + 1 + suc n = omega arith in
    rw (e, same) (feed-chunk n y c cs (omega arith) (omega arith))

update_chunks-feed :
    (fuel : ℕ) (x : Context) (bs : List ℕ)
    → length bs ≤ fuel
    → x.used < 64
    → update_chunks fuel x bs ≡ feed x bs
unfolding update_chunks
update_chunks-feed zero x [] h k = refl
update_chunks-feed zero x (b ∷ bs) h k = absurd (omega arith)
update_chunks-feed (suc fuel) x [] h k = refl
update_chunks-feed (suc fuel) x (b ∷ bs) h k =
    let m = min (length bs) (63 - x.used) in
    let e : min (suc (length bs)) (64 - x.used) ≡ suc m = omega arith in
    let y = flush_block (chunk x (suc m) (b ∷ bs)) in
    let left : update_chunks fuel y (skip m bs) ≡ feed y (skip m bs) =
      update_chunks-feed fuel y (skip m bs) (omega (arith, length-skip m bs))
        (flush_block-lt (chunk x (suc m) (b ∷ bs)) (omega arith)) in
    rw e (unfold skip in (left ∙ feed-chunk m x b bs (omega arith) (omega arith)))

pub sha256_update-feed : (x : Context) (bs : List ℕ) → x.used < 64 → sha256_update x bs ≡ feed x bs
unfolding sha256_update
sha256_update-feed x bs h = update_chunks-feed (length bs) x bs (omega arith) h

-- Where the block is not full, an update with one text and then with another leaves the context of
-- one update with both, so that the digest does not depend on the chunks that a caller reads.
pub sha256_update-append :
    (x : Context) (a b : List ℕ)
    → x.used < 64
    → sha256_update (sha256_update x a) b ≡ sha256_update x (a ++ b)
sha256_update-append x a b h =
    rw (sha256_update-feed x a h, sha256_update-feed x (a ++ b) h, feed-append x a b)
      (sha256_update-feed (feed x a) b (feed-lt x a h))
