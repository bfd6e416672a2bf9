-- ===== src/Debug/Decode/Total.antt =====
-- Where `emu_decode_window` gives a window (emu_decode_internal.c).
use emu_sa80535_n.Base.{
  ℕ, zero, suc, ◌+◌, ◌-◌, ◌*◌, ◌<◌, ◌≤◌, ◌≡◌, Bool, true, false, not, ◌&&◌, ◌||◌, ltb, ◌==◌,
  if◌then◌else◌, List, [], ◌∷◌, ◌++◌, length, inl, inr, Bool-cases, arith, refl,
}
use emu_sa80535_n.Base.Int.{ℤ, pos, negsuc, pos_part, neg_part}
use emu_sa80535_n.Debug.Decode.{
  Decoder, Decoded, Cache, Outcome, done, and_then, decode_at, decode_record, step_back, walk_back,
  skip_forward, fill_window, window_start, decode_window, learn, max_instructions, offset_valid,
  code_size,
}
use emu_sa80535_n.Debug.Decode.Sound.{IsLink, IsCache}

-- Every instruction is one to three bytes long.
unfoldable pub IsShort : Decoder → Type 0
IsShort decoder = (a : ℕ) → (1 ≤ (decoder a).0) × ((decoder a).0 ≤ 3)

-- The outcome is a result with a property.
abbrev Gives {ℓ} : {A : Type ℓ} → (A → Type 0) → Outcome A → Type ℓ
Gives {A = A} P o = (a : A) × (o ≡ done a) × P a

and_then-Gives {ℓ κ} :
    {A : Type ℓ} {B : Type κ} (P : A → Type 0) (Q : B → Type 0) (o : Outcome A) (f : A → Outcome B)
    → Gives P o
    → ((a : A) → P a → Gives Q (f a))
    → Gives Q (and_then o f)
and_then-Gives P Q o f (a, e, p) k = rw e (k a p)

module _ (decoder : Decoder) (short : IsShort decoder) where
  decode_record-Gives :
      (a : ℕ)
      → a + (decoder a).0 ≤ code_size
      → Gives (λ r. r.size ≡ (decoder a).0) (decode_record decoder a)
  unfolding decode_record IsShort
  decode_record-Gives a h =
      let size = (decoder a).0 in
      let lower = (short a).0 in
      let good : (ltb 0xffff a || (size == 0 || ltb code_size (a + size))) ≡ false = ground arith in
      (record { address = a; size = size; valid = true; text = (decoder a).1 }, rw good refl, refl)

  skip_forward-Gives :
      (n cursor : ℕ)
      → cursor + n * 3 < code_size
      → Gives (λ a. a ≤ cursor + n * 3) (skip_forward decoder cursor n)
  unfolding skip_forward IsShort
  skip_forward-Gives zero cursor h = (cursor, refl, omega arith)
  skip_forward-Gives (suc n) cursor h =
      and_then-Gives (λ r. r.size ≡ (decoder cursor).0) _ (decode_record decoder cursor) _
        (decode_record-Gives cursor (omega (arith, (short cursor).1)))
        (λ r size.
          let upper = (short cursor).1 in
          let next = cursor + r.size in
          let inside : ltb 0xffff next ≡ false = ground arith in
          let rest = skip_forward-Gives n next (omega arith) in
          let bound : rest.0 ≤ cursor + suc n * 3 = omega (arith, rest.2) in
          (rest.0, rw inside (rest.1), bound))

  fill_window-Gives :
      (n cursor : ℕ)
      → cursor + n * 3 ≤ code_size
      → Gives (λ w. length w.0 ≡ n) (fill_window decoder cursor n)
  unfolding fill_window IsShort
  fill_window-Gives zero cursor h = (([], []), refl, refl)
  fill_window-Gives (suc n) cursor h =
      and_then-Gives (λ r. r.size ≡ (decoder cursor).0) _ (decode_record decoder cursor) _
        (decode_record-Gives cursor (omega (arith, (short cursor).1)))
        (λ r size.
          let upper = (short cursor).1 in
          let next = cursor + r.size in
          let inside : (not (n == 0) && ltb 0xffff next) ≡ false = ground arith in
          rw inside (
            and_then-Gives (λ w. length w.0 ≡ n) (λ w. length w.0 ≡ suc n)
              (fill_window decoder next n) _ (fill_window-Gives n next (omega arith))
              (λ w len. (_, refl, omega arith))))

  step_back-Gives :
      (cache : Cache) (cursor : ℕ) (known : Bool)
      → IsCache decoder cache
      → 3 ≤ cursor
      → cursor < code_size
      → Gives (λ s. (cursor ≤ s.0 + 3) × (s.0 < cursor)) (step_back decoder cache cursor known)
  unfolding step_back IsCache IsLink IsShort
  step_back-Gives cache cursor known sound low high =
      elim (Bool-cases (known && cache.known cursor)) [
        | inl both ↦
            let before = cache.predecessor cursor in
            let is_known : cache.known cursor ≡ true = ground arith in
            let link = (sound cursor is_known).2 in
            let lower = (short before).0 in
            let upper = (short before).1 in
            rw both (
              and_then-Gives (λ r. r.size ≡ (decoder before).0) _ (decode_record decoder before) _
                (decode_record-Gives before (omega arith))
                (λ r size. ((before, true, r), refl, (omega arith, omega arith))))
        | inr other ↦
            let some : (cursor == 0) ≡ false = ground arith in
            rw (other, some) (_, refl, (omega arith, omega arith))
      ]

  walk_back-Gives :
      (cache : Cache) (keep n cursor : ℕ) (known : Bool) (temporary : List Decoded)
      → IsCache decoder cache
      → n * 3 ≤ cursor
      → cursor < code_size
      → Gives (λ rs. Unit {0}) (walk_back decoder cache keep cursor known n temporary)
  unfolding walk_back
  walk_back-Gives cache keep zero cursor known temporary sound low high = (temporary, refl, tt)
  walk_back-Gives cache keep (suc n) cursor known temporary sound low high =
      and_then-Gives (λ s. (cursor ≤ s.0 + 3) × (s.0 < cursor)) (λ rs. Unit {0})
        (step_back decoder cache cursor known) _
        (step_back-Gives cache cursor known sound (omega arith) high)
        (λ s near.
          walk_back-Gives cache keep n s.0 s.1 (if ltb n keep then s.2 ∷ temporary else temporary)
            sound (omega (arith, near.0)) (omega (arith, near.1)))

  window_start-Gives :
      (cache : Cache) (base : ℕ) (offset : ℤ) (count : ℕ)
      → IsCache decoder cache
      → neg_part offset * 3 ≤ base
      → base + pos_part offset * 3 < code_size
      → Gives
          (λ s. s.1 ≤ base + pos_part offset * 3)
          (window_start decoder cache true base offset count)
  unfolding window_start
  window_start-Gives cache base (pos n) count sound low high =
      and_then-Gives (λ a. a ≤ base + n * 3) _ (skip_forward decoder base n) _
        (skip_forward-Gives n base high) (λ a le. (([], a), refl, le))
  window_start-Gives cache base (negsuc n) count sound low high =
      and_then-Gives (λ rs. Unit {0}) _ (walk_back decoder cache _ base true (suc n) []) _
        (walk_back-Gives cache _ (suc n) base true [] sound low (omega arith))
        (λ rs one. ((rs, base), refl, omega arith))

-- Where every instruction is one to three bytes long, memory can be had, the cache is sound, the
-- offsets and the count are in their bounds, and three bytes for each instruction, before the base
-- and from it on, are inside the code memory, a window is given.
pub decode_window-returns :
    (dec : ℕ → Decoder) (code : ℕ → ℕ) (cache : Cache) (reference : ℕ)
    (byte_offset instruction_offset : ℤ) (count base : ℕ)
    → IsShort (decode_at dec code)
    → IsCache (decode_at dec code) cache
    → reference + pos_part byte_offset ≡ base + neg_part byte_offset
    → offset_valid byte_offset ≡ true
    → offset_valid instruction_offset ≡ true
    → 0 < count
    → count ≤ max_instructions
    → neg_part instruction_offset * 3 ≤ base
    → base + (pos_part instruction_offset + count) * 3 ≤ code_size
    → (w : List Decoded × Cache) × (decode_window dec code true cache reference byte_offset
          instruction_offset count
        ≡ done w)
unfolding decode_window
decode_window-returns dec code cache reference byte_offset instruction_offset count base short sound
      at valid in_bounds some few low high =
    let decoder = decode_at dec code in
    let e : reference + pos_part byte_offset - neg_part byte_offset ≡ base = omega arith in
    let counted : (count == 0) ≡ false = ground arith in
    let bounded : ltb max_instructions count ≡ false = ground arith in
    let above : ltb (reference + pos_part byte_offset) (neg_part byte_offset) ≡ false =
      ground arith in
    let below : ltb 0xffff base ≡ false = ground arith in
    let given =
      and_then-Gives (λ s. s.1 ≤ base + pos_part instruction_offset * 3) (λ w. Unit {0})
        (window_start decoder cache true base instruction_offset count)
        (λ s.
          and_then (fill_window decoder s.1 (count - length s.0))
            (λ w. done (s.0 ++ w.0, learn cache w.1)))
        (window_start-Gives decoder short cache base instruction_offset count sound low
          (omega arith))
        (λ s le.
          and_then-Gives (λ w. length w.0 ≡ count - length s.0) (λ w. Unit {0})
            (fill_window decoder s.1 (count - length s.0)) _
            (fill_window-Gives decoder short (count - length s.0) s.1 (omega arith))
            (λ w len. (_, refl, tt))) in
    rw (e, counted, bounded, valid, in_bounds, above, below) ((given.0, given.1))
