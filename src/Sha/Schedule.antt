-- ===== src/Sha/Schedule.antt =====
-- The message schedule of `sha256_transform` against the standard (emu_sha_internal.c).
use emu_sa80535_n.Base.{
  ℕ, zero, suc, ◌+◌, ◌-◌, ◌/◌, ◌%◌, ◌^◌, ◌<◌, ◌≤◌, ◌≡◌, ◌≢◌, List, [], ◌∷◌, ◌++◌, u32, bit_xor,
  update, update_ne, update_self, refl, sym, ap, ◌∙◌, arith, ◌==◌, inl, inr, Bool-cases,
}
use emu_sa80535_n.Base.Tables.{values, values-snoc}
use emu_sa80535_n.Sha.{rotate_right, extend_words, entry}
use emu_sa80535_n.Sha.Standard.{small_sigma0, small_sigma1, next_word, schedule}
use emu_sa80535_n.Sha.Words.{rotate_7, rotate_17, rotate_18, rotate_19, update-lt, entry-values}

-- The word that `extend_words` stores at the place `i`.
abbrev stored : (ℕ → ℕ) → ℕ → ℕ
stored w i =
    let u = w (i - 15) in
    let v = w (i - 2) in
    let s0 = bit_xor (bit_xor (rotate_right u 7) (rotate_right u 18)) (u / 2 ^ 3) in
    let s1 = bit_xor (bit_xor (rotate_right v 17) (rotate_right v 19)) (v / 2 ^ 10) in
    u32 (w (i - 16) + s0 + w (i - 7) + s1)

extend_words-kept : (n i : ℕ) (w : ℕ → ℕ) (k : ℕ) → k < i → extend_words i n w k ≡ w k
unfolding extend_words
extend_words-kept zero i w k h = refl
extend_words-kept (suc n) i w k h =
    extend_words-kept n (i + 1) _ k (omega arith) ∙ update_ne w i k _ (omega arith)

extend_words-suc :
    (n i : ℕ) (w : ℕ → ℕ)
    → extend_words i (suc n) w ≡ extend_words (i + 1) n (update w i (stored w i))
unfolding extend_words
extend_words-suc n i w = refl

-- The place `i` is not written again, and neither are those that it was computed from.
extend_words-here :
    (n i : ℕ) (w : ℕ → ℕ)
    → 16 ≤ i
    → extend_words i (suc n) w i ≡ stored (extend_words i (suc n) w) i
extend_words-here n i w h =
    rw
      (
        extend_words-kept (suc n) i w (i - 15) (omega arith),
        extend_words-kept (suc n) i w (i - 2) (omega arith),
        extend_words-kept (suc n) i w (i - 16) (omega arith),
        extend_words-kept (suc n) i w (i - 7) (omega arith),
        extend_words-suc n i w,
        extend_words-kept n (i + 1) (update w i (stored w i)) i (omega arith),
      )
      (update_self w i (stored w i))

extend_words-stored :
    (n i : ℕ) (w : ℕ → ℕ) (k : ℕ)
    → 16 ≤ i
    → i ≤ k
    → k < i + n
    → extend_words i n w k ≡ stored (extend_words i n w) k
extend_words-stored zero i w k h le lt = absurd (omega arith)
extend_words-stored (suc n) i w k h le lt = elim (Bool-cases (k == i)) [
  | inl here ↦ let e : k ≡ i = ground arith in rw e (extend_words-here n i w h)
  | inr later ↦
      let ne : k ≢ i = ground arith in
      rw (extend_words-suc n i w) (
        extend_words-stored n (i + 1) (update w i (stored w i)) k (omega arith) (omega arith)
          (omega arith))
]

pub extend_words-lt :
    (n i : ℕ) (w : ℕ → ℕ) → ((k : ℕ) → w k < 2 ^ 32) → (k : ℕ) → extend_words i n w k < 2 ^ 32
unfolding extend_words
extend_words-lt zero i w small = small
extend_words-lt (suc n) i w small =
    extend_words-lt n (i + 1) _ (update-lt w i (stored w i) (omega arith) small)

next_word-values :
    (w : ℕ → ℕ) (i : ℕ)
    → next_word (values w i 16)
      ≡ (small_sigma1 (w (i + 14)) + w (i + 9) + small_sigma0 (w (i + 1)) + w i) % 2 ^ 32
next_word-values w i =
    let e : i + 0 ≡ i = omega arith in
    let e0 : entry (values w i 16) 0 ≡ w i =
      entry-values w 16 i 0 (omega arith) ∙ ap (λ (t : ℕ). w t) e in
    let e1 = entry-values w 16 i 1 (omega arith) in
    let e9 = entry-values w 16 i 9 (omega arith) in
    let e14 = entry-values w 16 i 14 (omega arith) in
    unfold next_word in
    (ap
        (λ (t : ℕ).
          (small_sigma1 (entry (values w i 16) 14)
            + entry (values w i 16) 9
            + small_sigma0 (entry (values w i 16) 1)
            + t)
          % 2 ^ 32)
        e0
      ∙ ap
          (λ (t : ℕ).
            (small_sigma1 (entry (values w i 16) 14)
              + entry (values w i 16) 9
              + small_sigma0 t
              + w i)
            % 2 ^ 32)
          e1
      ∙ ap
          (λ (t : ℕ).
            (small_sigma1 (entry (values w i 16) 14) + t + small_sigma0 (w (i + 1)) + w i) % 2 ^ 32)
          e9
      ∙ ap (λ (t : ℕ). (small_sigma1 t + w (i + 9) + small_sigma0 (w (i + 1)) + w i) % 2 ^ 32) e14)

-- Sixteen words of a function, and the one after them.
stored-next_word :
    (w : ℕ → ℕ) (i : ℕ)
    → w (i + 1) < 2 ^ 32
    → w (i + 14) < 2 ^ 32
    → stored w (i + 16) ≡ next_word (values w i 16)
stored-next_word w i hu hv =
    let e15 : i + 16 - 15 ≡ i + 1 = omega arith in
    let e2 : i + 16 - 2 ≡ i + 14 = omega arith in
    let e16 : i + 16 - 16 ≡ i = omega arith in
    let e7 : i + 16 - 7 ≡ i + 9 = omega arith in
    rw
      (
        e15,
        e2,
        e16,
        e7,
        rotate_7 (w (i + 1)) hu,
        rotate_18 (w (i + 1)) hu,
        rotate_17 (w (i + 14)) hv,
        rotate_19 (w (i + 14)) hv,
        next_word-values w i,
      )
      (omega arith)

-- Words that follow the recurrence are the schedule of the first sixteen.
schedule-values :
    (n i : ℕ) (w : ℕ → ℕ)
    → ((k : ℕ) → i ≤ k → k < i + n → w (k + 16) ≡ next_word (values w k 16))
    → schedule n (values w i 16) ≡ values w i (n + 16)
unfolding schedule
schedule-values zero i w follows = refl
schedule-values (suc n) i w follows =
    let next : w (i + 16) ≡ next_word (values w i 16) = follows i (omega arith) (omega arith) in
    let e : i + 16 ≡ i + 1 + 15 = omega arith in
    let grown : values w (i + 1) 15 ++ (next_word (values w i 16) ∷ []) ≡ values w (i + 1) 16 =
      ap (λ (t : ℕ). values w (i + 1) 15 ++ (t ∷ [])) (sym next ∙ ap (λ (t : ℕ). w t) e)
      ∙ sym (values-snoc w 15 (i + 1)) in
    let count : suc n + 16 ≡ suc (n + 16) = omega arith in
    rw count (
      ap (λ (t : List ℕ). w i ∷ schedule n t) grown
      ∙ ap (λ (t : List ℕ). w i ∷ t)
          (schedule-values n (i + 1) w (λ k le lt. follows k (omega arith) (omega arith))))

-- The 64 words of a block are the schedule of its first sixteen.
pub extend_words-schedule :
    (w : ℕ → ℕ)
    → ((k : ℕ) → w k < 2 ^ 32)
    → values (extend_words 16 48 w) 0 64 ≡ schedule 48 (values w 0 16)
extend_words-schedule w small =
    let all = extend_words 16 48 w in
    let below : (k : ℕ) → all k < 2 ^ 32 = extend_words-lt 48 16 w small in
    let first : values all 0 16 ≡ values w 0 16 =
      rw
        (
          extend_words-kept 48 16 w 0 (omega arith),
          extend_words-kept 48 16 w 1 (omega arith),
          extend_words-kept 48 16 w 2 (omega arith),
          extend_words-kept 48 16 w 3 (omega arith),
          extend_words-kept 48 16 w 4 (omega arith),
          extend_words-kept 48 16 w 5 (omega arith),
          extend_words-kept 48 16 w 6 (omega arith),
          extend_words-kept 48 16 w 7 (omega arith),
          extend_words-kept 48 16 w 8 (omega arith),
          extend_words-kept 48 16 w 9 (omega arith),
          extend_words-kept 48 16 w 10 (omega arith),
          extend_words-kept 48 16 w 11 (omega arith),
          extend_words-kept 48 16 w 12 (omega arith),
          extend_words-kept 48 16 w 13 (omega arith),
          extend_words-kept 48 16 w 14 (omega arith),
          extend_words-kept 48 16 w 15 (omega arith),
        )
        refl in
    rw (sym first) (
      sym (
        schedule-values 48 0 all (λ k le lt.
          extend_words-stored 48 16 w (k + 16) (omega arith) (omega arith) (omega arith)
          ∙ stored-next_word all k (below (k + 1)) (below (k + 14)))))
