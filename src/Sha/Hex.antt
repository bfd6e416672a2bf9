-- ===== src/Sha/Hex.antt =====
-- The digest as text (`sha256_hex` of emu_sha_internal.c).
use emu_sa80535_n.Base.{
  ℕ, zero, suc, ◌+◌, ◌-◌, ◌*◌, ◌/◌, ◌%◌, ◌<◌, ◌≡◌, List, [], ◌∷◌, ◌++◌, ltb, if◌then◌else◌, update,
  update_ne, update_self, refl, sym, ap, ◌∙◌, arith, bit_and, length,
}
use emu_sa80535_n.Base.Bits.{bit_and_mask}
use emu_sa80535_n.Base.Tables.{values, values_at, values-snoc, values-congr}
use emu_sa80535_n.Sha.{
  Context, entry, digits, initial, hex_bytes, sha256_hex, sha256_init, sha256_update, sha256_final,
}
use emu_sa80535_n.Sha.Words.{entry-values}
use emu_sa80535_n.Sha.Blocks.{hash_blocks}
use emu_sa80535_n.Sha.Padding.{big_endian}
use emu_sa80535_n.Sha.Reference.{
  word_bytes, reference, padded, sha256_final-word_bytes, sha256_final-reference,
}

-- The hexadecimal digit of a value, in lower case.
unfoldable pub hex_digit : ℕ → ℕ
hex_digit v = if ltb v 10 then b'0' + v else b'a' + (v - 10)

-- Two digits for each byte, the high one first.
unfoldable pub hex_text : List ℕ → List ℕ
hex_text [] = []
hex_text (b ∷ bs) = hex_digit (b / 16) ∷ (hex_digit (b % 16) ∷ hex_text bs)

entry-hex_digit : (v : ℕ) → v < 16 → entry digits v ≡ hex_digit v
unfolding hex_digit entry
entry-hex_digit v h =
    let e : 0 + v ≡ v = omega arith in
    ap (λ (t : ℕ). entry digits t) (sym e)
    ∙ values_at (entry digits) hex_digit 16 0 v refl h
    ∙ ap (λ (t : ℕ). hex_digit t) e

hex_bytes-below : (n i : ℕ) (d f : ℕ → ℕ) (k : ℕ) → k < i * 2 → hex_bytes i n d f k ≡ f k
unfolding hex_bytes
hex_bytes-below zero i d f k h = refl
hex_bytes-below (suc n) i d f k h =
    hex_bytes-below n (i + 1) d _ k (omega arith)
    ∙ update_ne (update f (i * 2) (entry digits (d i / 16))) (i * 2 + 1) k _ (omega arith)
    ∙ update_ne f (i * 2) k (entry digits (d i / 16)) (omega arith)

values-pair :
    (f : ℕ → ℕ) (n i : ℕ)
    → values f (i * 2) (suc n * 2) ≡ f (i * 2) ∷ (f (i * 2 + 1) ∷ values f ((i + 1) * 2) (n * 2))
values-pair f n i =
    let two : suc n * 2 ≡ suc (suc (n * 2)) = omega arith in
    let next : (i + 1) * 2 ≡ i * 2 + 1 + 1 = omega arith in rw (two, next) refl

-- The digits that `hex_bytes` stores for bytes.
hex_bytes-hex_text :
    (n i : ℕ) (d f : ℕ → ℕ)
    → ((k : ℕ) → k < i + n → d k < 256)
    → values (hex_bytes i n d f) (i * 2) (n * 2) ≡ hex_text (values d i n)
unfolding hex_text
hex_bytes-hex_text zero i d f small = refl
hex_bytes-hex_text (suc n) i d f small =
    let byte : d i < 256 = small i (omega arith) in
    let low : bit_and (d i) 0x0f ≡ d i % 16 = bit_and_mask 4 (d i) in
    let g = update f (i * 2) (entry digits (d i / 16)) in
    let h = update g (i * 2 + 1) (entry digits (bit_and (d i) 0x0f)) in
    let whole : hex_bytes i (suc n) d f ≡ hex_bytes (i + 1) n d h = unfold hex_bytes in refl in
    let first : hex_bytes (i + 1) n d h (i * 2) ≡ hex_digit (d i / 16) =
      hex_bytes-below n (i + 1) d h (i * 2) (omega arith)
      ∙ update_ne g (i * 2 + 1) (i * 2) _ (omega arith)
      ∙ update_self f (i * 2) _
      ∙ entry-hex_digit (d i / 16) (omega arith) in
    let second : hex_bytes (i + 1) n d h (i * 2 + 1) ≡ hex_digit (d i % 16) =
      hex_bytes-below n (i + 1) d h (i * 2 + 1) (omega arith)
      ∙ update_self g (i * 2 + 1) _
      ∙ ap (λ (t : ℕ). entry digits t) low
      ∙ entry-hex_digit (d i % 16) (omega arith) in
    let rest = hex_bytes-hex_text n (i + 1) d h (λ k lt. small k (omega arith)) in
    rw (whole, values-pair (hex_bytes (i + 1) n d h) n i, first, second, rest) refl

entry-word_bytes : (n i : ℕ) (s : ℕ → ℕ) (k : ℕ) → entry (word_bytes i n s) k < 256
unfolding entry word_bytes big_endian
entry-word_bytes zero i s k = omega arith
entry-word_bytes (suc n) i s zero = omega arith
entry-word_bytes (suc n) i s (suc zero) = omega arith
entry-word_bytes (suc n) i s (suc (suc zero)) = omega arith
entry-word_bytes (suc n) i s (suc (suc (suc zero))) = omega arith
entry-word_bytes (suc n) i s (suc (suc (suc (suc k)))) = entry-word_bytes n (i + 1) s k

-- What `sha256_final` stores are bytes.
sha256_final-lt :
    (x : Context) (digest : ℕ → ℕ) (m : List ℕ) (k : ℕ)
    → k < 32
    → (sha256_final (sha256_update (sha256_init x) m) digest).0 k < 256
sha256_final-lt x digest m k lt =
    let d = (sha256_final (sha256_update (sha256_init x) m) digest).0 in
    let state = hash_blocks (length (padded m) / 64) (entry initial) (padded m) in
    let at : entry (word_bytes 0 8 state) k ≡ d k =
      ap (λ (r : List ℕ). entry r k) (sym (sha256_final-word_bytes x digest m))
      ∙ entry-values d 32 0 k lt
      ∙ ap (λ (t : ℕ). d t) (omega arith) in
    omega (arith, entry-word_bytes 8 0 state k)

-- For a message of bytes, the 65 characters that `sha256_hex` leaves are the 64 lower-case
-- hexadecimal digits of the digest that FIPS 180-4 defines (where a length above 64 bits counts by its
-- low 64 bits), each byte's high digit first, and a NUL, whatever the context and the arrays held
-- before.
pub sha256_hex-reference :
    (x : Context) (digest : ℕ → ℕ) (m : List ℕ) (hex : ℕ → ℕ)
    → ((k : ℕ) → entry m k < 256)
    → values (sha256_hex x digest m hex) 0 65 ≡ hex_text (reference m) ++ (0 ∷ [])
sha256_hex-reference x digest m hex small =
    let d = (sha256_final (sha256_update (sha256_init x) m) digest).0 in
    let text = hex_bytes 0 32 d hex in
    let whole : sha256_hex x digest m hex ≡ update text 64 0 = unfold sha256_hex in refl in
    let kept : values (update text 64 0) 0 64 ≡ values text 0 64 =
      values-congr (update text 64 0) text 64 0 (λ k lt. update_ne text 64 k 0 (omega arith)) in
    let digits_of : values text 0 64 ≡ hex_text (values d 0 32) =
      hex_bytes-hex_text 32 0 d hex (λ k lt. sha256_final-lt x digest m k (omega arith)) in
    rw whole (
      values-snoc (update text 64 0) 64 0
      ∙ ap (λ (t : List ℕ). t ++ (0 ∷ [])) (kept ∙ digits_of)
      ∙ ap (λ (t : List ℕ). hex_text t ++ (0 ∷ [])) (sha256_final-reference x digest m small))
