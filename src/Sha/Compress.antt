-- ===== src/Sha/Compress.antt =====
-- `sha256_transform` against the compression function of the standard (emu_sha_internal.c).
use emu_sa80535_n.Base.{
  ℕ, zero, suc, ◌+◌, ◌^◌, ◌<◌, ◌≡◌, List, [], ◌∷◌, u32, refl, sym, ap, ◌∙◌, arith,
}
use emu_sa80535_n.Base.Tables.{values}
use emu_sa80535_n.Sha.{
  Working, entry, constants, round, rounds, working, add_working, sha256_transform, load_words,
  extend_words, skip,
}
use emu_sa80535_n.Sha.Standard.{
  step, steps, sum_of, compress, hash, drop, root_fractions, primes, schedule, block_word,
  big_sigma0, big_sigma1, ch, maj,
}
use emu_sa80535_n.Sha.Constants.{constants-root_fractions}
use emu_sa80535_n.Sha.Words.{
  rotate_2, rotate_6, rotate_11, rotate_13, rotate_22, rotate_25, load_words-block_word,
  load_words-lt,
}
use emu_sa80535_n.Sha.Schedule.{extend_words-schedule}
use emu_sa80535_n.Sha.Blocks.{hash_blocks}

round-step :
    (i word : ℕ) (v : Working)
    → v.a < 2 ^ 32
    → v.e < 2 ^ 32
    → round i word v ≡ step (entry constants i) word v
unfolding round
round-step i word v ha he =
    let t1 = v.h + big_sigma1 v.e + ch v.e v.f v.g + entry constants i + word in
    let t2 = big_sigma0 v.a + maj v.a v.b v.c in
    let sum : u32 (u32 t1 + u32 t2) ≡ u32 (t1 + t2) = omega arith in
    let carried : u32 (v.d + u32 t1) ≡ u32 (v.d + t1) = omega arith in
    rw
      (
        rotate_2 v.a ha,
        rotate_13 v.a ha,
        rotate_22 v.a ha,
        rotate_6 v.e he,
        rotate_11 v.e he,
        rotate_25 v.e he,
        sum,
        carried,
      )
      refl

rounds-steps :
    (n i : ℕ) (words : ℕ → ℕ) (v : Working)
    → v.a < 2 ^ 32
    → v.e < 2 ^ 32
    → rounds i n words v ≡ steps (values (entry constants) i n) (values words i n) v
unfolding rounds steps
rounds-steps zero i words v ha he = refl
rounds-steps (suc n) i words v ha he = rw (round-step i (words i) v ha he) (
    rounds-steps n (i + 1) words (step (entry constants i) (words i) v) (omega arith) (omega arith))

constants-values : values (entry constants) 0 64 ≡ root_fractions 3 primes
unfolding entry
constants-values = constants-root_fractions

working-add_working : (v : Working) (s : ℕ → ℕ) → working (add_working v s) ≡ sum_of (working s) v
unfolding working add_working
working-add_working v s = refl

-- A block of bytes is digested as the standard says.
pub sha256_transform-compress :
    (s : ℕ → ℕ) (m : List ℕ)
    → ((k : ℕ) → entry m k < 256)
    → s 0 < 2 ^ 32
    → s 4 < 2 ^ 32
    → working (sha256_transform s (entry m)) ≡ compress (working s) m
sha256_transform-compress s m small h0 h4 =
    let loaded = load_words 0 16 (entry m) (λ i. 0) in
    let words = extend_words 16 48 loaded in
    let scheduled : values words 0 64 ≡ schedule 48 (values (block_word m) 0 16) =
      extend_words-schedule loaded (load_words-lt 16 0 m (λ i. 0) small (λ k. omega arith))
      ∙ ap (λ (t : List ℕ). schedule 48 t) (load_words-block_word 16 0 m (λ i. 0) small) in
    let ha : (working s).a < 2 ^ 32 = unfold working in h0 in
    let he : (working s).e < 2 ^ 32 = unfold working in h4 in
    unfold sha256_transform in
    unfold compress in
    working-add_working (rounds 0 64 words (working s)) s
    ∙ ap (λ (v : Working). sum_of (working s) v) (rounds-steps 64 0 words (working s) ha he)
    ∙ ap (λ (t : List ℕ). sum_of (working s) (steps t (values words 0 64) (working s)))
        constants-values
    ∙ ap (λ (t : List ℕ). sum_of (working s) (steps (root_fractions 3 primes) t (working s)))
        scheduled

sha256_transform-lt :
    (s b : ℕ → ℕ) → (sha256_transform s b 0 < 2 ^ 32) × (sha256_transform s b 4 < 2 ^ 32)
unfolding sha256_transform add_working
sha256_transform-lt s b = (omega arith, omega arith)

skip-drop : (n : ℕ) (m : List ℕ) → skip n m ≡ drop n m
unfolding skip drop
skip-drop zero m = refl
skip-drop (suc n) [] = refl
skip-drop (suc n) (b ∷ m) = skip-drop n m

entry-drop : (n : ℕ) (m : List ℕ) → ((k : ℕ) → entry m k < 256) → (k : ℕ) → entry (drop n m) k < 256
unfolding drop entry
entry-drop zero m small = small
entry-drop (suc n) [] small = small
entry-drop (suc n) (b ∷ m) small = entry-drop n m (λ k. small (suc k))

-- Blocks of bytes are digested as the standard says.
pub hash_blocks-hash :
    (n : ℕ) (s : ℕ → ℕ) (m : List ℕ)
    → ((k : ℕ) → entry m k < 256)
    → s 0 < 2 ^ 32
    → s 4 < 2 ^ 32
    → working (hash_blocks n s m) ≡ hash n (working s) m
unfolding hash_blocks hash
hash_blocks-hash zero s m small h0 h4 = refl
hash_blocks-hash (suc n) s m small h0 h4 =
    let next = sha256_transform s (entry m) in
    let lt = sha256_transform-lt s (entry m) in
    rw (skip-drop 64 m, sym (sha256_transform-compress s m small h0 h4))
      (hash_blocks-hash n next (drop 64 m) (entry-drop 64 m small) lt.0 lt.1)
