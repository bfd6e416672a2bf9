-- ===== src/Sha/Blocks.antt =====
-- The digest of whole blocks (`sha256_transform` and `sha256_update` of emu_sha_internal.c).
use emu_sa80535_n.Base.{
  ℕ, zero, suc, ◌+◌, ◌-◌, ◌*◌, ◌<◌, ◌≤◌, ◌≡◌, List, [], ◌∷◌, ◌==◌, u64, update, update_self,
  update_ne, length, refl, sym, ap, ◌∙◌, true, arith,
}
use emu_sa80535_n.Sha.{Context, entry, sha256_transform, load_words, copy_bytes, skip, flush_block}
use emu_sa80535_n.Sha.Stream.{feed, feed-chunk, chunk}

-- A message digested block by block: `n` blocks from the chaining state `s`.
unfoldable pub hash_blocks : ℕ → (ℕ → ℕ) → List ℕ → ℕ → ℕ
hash_blocks zero s m = s
hash_blocks (suc n) s m = hash_blocks n (sha256_transform s (entry m)) (skip 64 m)

load_words-congr :
    (n i : ℕ) (b c w : ℕ → ℕ)
    → ((k : ℕ) → k < 64 → b k ≡ c k)
    → i + n ≤ 16
    → load_words i n b w ≡ load_words i n c w
unfolding load_words
load_words-congr zero i b c w same h = refl
load_words-congr (suc n) i b c w same h =
    rw
      (
        same (i * 4) (omega arith),
        same (i * 4 + 1) (omega arith),
        same (i * 4 + 2) (omega arith),
        same (i * 4 + 3) (omega arith),
      )
      (load_words-congr n (i + 1) b c _ same (omega arith))

-- The digest of a block reads the 64 bytes of the block alone.
pub sha256_transform-congr :
    (s b c : ℕ → ℕ) → ((k : ℕ) → k < 64 → b k ≡ c k) → sha256_transform s b ≡ sha256_transform s c
unfolding sha256_transform
sha256_transform-congr s b c same = rw (load_words-congr 16 0 b c (λ i. 0) same (omega arith)) refl

pub copy_bytes-below :
    (n at : ℕ) (bs : List ℕ) (f : ℕ → ℕ) (k : ℕ) → k < at → copy_bytes at n bs f k ≡ f k
unfolding copy_bytes
copy_bytes-below zero at bs f k h = refl
copy_bytes-below (suc n) at [] f k h = refl
copy_bytes-below (suc n) at (b ∷ bs) f k h =
    copy_bytes-below n (at + 1) bs (update f at b) k (omega arith)
    ∙ update_ne f at k b (omega arith)

copy_bytes-entry :
    (n at : ℕ) (bs : List ℕ) (f : ℕ → ℕ) (k : ℕ)
    → k < n
    → n ≤ length bs
    → copy_bytes at n bs f (at + k) ≡ entry bs k
unfolding copy_bytes entry
copy_bytes-entry zero at bs f k h le = absurd (omega arith)
copy_bytes-entry (suc n) at [] f k h le = absurd (omega arith)
copy_bytes-entry (suc n) at (b ∷ bs) f zero h le =
    let e : at + 0 ≡ at = omega arith in
    rw e (copy_bytes-below n (at + 1) bs (update f at b) at (omega arith) ∙ update_self f at b)
copy_bytes-entry (suc n) at (b ∷ bs) f (suc k) h le =
    let e : at + suc k ≡ at + 1 + k = omega arith in
    rw e (copy_bytes-entry n (at + 1) bs (update f at b) k (omega arith) (omega arith))

length-skip_eq : (n : ℕ) (bs : List ℕ) → length (skip n bs) ≡ length bs - n
unfolding skip
length-skip_eq zero bs = omega arith
length-skip_eq (suc n) [] = omega arith
length-skip_eq (suc n) (b ∷ bs) = omega (arith, length-skip_eq n bs)

-- Feeding whole blocks to a context with an empty block digests them one by one.
pub feed-hash_blocks :
    (n : ℕ) (x : Context) (m : List ℕ)
    → x.used ≡ 0
    → length m ≡ n * 64
    → (feed x m).state ≡ hash_blocks n x.state m
unfolding hash_blocks
feed-hash_blocks zero x [] empty h = refl
feed-hash_blocks zero x (b ∷ bs) empty h = absurd (omega arith)
feed-hash_blocks (suc n) x [] empty h = absurd (omega arith)
feed-hash_blocks (suc n) x (b ∷ bs) empty h =
    let filled = chunk x 64 (b ∷ bs) in
    let next : Context = record filled {
      state = sha256_transform x.state filled.block;
      bit_count = u64 (x.bit_count + 512);
      used = 0;
    } in
    let full : (x.used + 64 == 64) ≡ true = ground arith in
    let flushed : flush_block filled ≡ next = unfold flush_block in rw full refl in
    let at_start : (k : ℕ) → k < 64 → filled.block k ≡ entry (b ∷ bs) k = λ k lt.
      let e : x.used + k ≡ k = omega arith in
      ap (λ (t : ℕ). filled.block t) (sym e)
      ∙ copy_bytes-entry 64 x.used (b ∷ bs) x.block k lt (omega arith) in
    let whole : feed x (b ∷ bs) ≡ feed next (skip 63 bs) =
      sym (feed-chunk 63 x b bs (omega arith) (omega arith))
      ∙ ap (λ y. feed y (skip 63 bs)) flushed in
    let skipped : skip 64 (b ∷ bs) ≡ skip 63 bs = unfold skip in refl in
    let rest = feed-hash_blocks n next (skip 63 bs) refl (omega (arith, length-skip_eq 63 bs)) in
    rw (whole, skipped, sym (sha256_transform-congr x.state filled.block (entry (b ∷ bs)) at_start))
      rest
