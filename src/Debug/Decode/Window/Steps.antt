-- ===== src/Debug/Decode/Window/Steps.antt =====
-- The loops of `emu_decode_window` (emu_decode_internal.c).
use emu_sa80535_n.Base.{
  take, take-nil, subst, length, ℕ, zero, suc, ◌+◌, ◌-◌, ◌≤◌, ◌≡◌, ◌≢◌, Bool, true, false, not,
  ◌&&◌, ◌||◌, ltb, ◌==◌, if◌then◌else◌, List, [], ◌∷◌, length, inl, inr, Bool-cases, if_either,
  arith, refl, sym,
}
use emu_sa80535_n.Debug.Decode.{
  Decoder, Decoded, Cache, Outcome, done, failed, range, and_then, invalid_record, decode_record,
  step_back, walk_back, skip_forward, fill_window, code_size,
}
use emu_sa80535_n.Debug.Decode.Sound.{IsLink, IsLinks, IsCache}
use emu_sa80535_n.Debug.Decode.Window.{OnDone, OnDone-failed, IsDecoded, IsRun, advance}

pub OnDone-and_then {ℓ κ μ ν} :
    {A : Type ℓ} {B : Type κ} (P : A → Type μ) (Q : B → Type ν) (o : Outcome A) (f : A → Outcome B)
    → OnDone P o
    → ((a : A) → P a → OnDone Q (f a))
    → OnDone Q (and_then o f)
unfolding OnDone
OnDone-and_then P Q (done a) f h k = k a h
OnDone-and_then P Q (failed s) f h k = tt

pub OnDone-done {ℓ κ} : {A : Type ℓ} (P : A → Type κ) (a : A) → P a → OnDone P (done a)
unfolding OnDone
OnDone-done P a h = h

OnDone-map {ℓ κ μ} :
    {A : Type ℓ} (P : A → Type κ) (Q : A → Type μ) (o : Outcome A)
    → OnDone P o
    → ((a : A) → P a → Q a)
    → OnDone Q o
unfolding OnDone
OnDone-map P Q (done a) h k = k a h
OnDone-map P Q (failed s) h k = tt

-- The record that the decoder gives at an address.
abbrev pub IsRead : Decoder → ℕ → Decoded → Type 0
IsRead decoder a r =
    (r.address ≡ a)
    × (r.size ≡ (decoder a).0)
    × (r.size ≢ 0)
    × (a + r.size ≤ code_size)
    × IsDecoded decoder r

pub decode_record-IsRead :
    (decoder : Decoder) (a : ℕ) → OnDone (IsRead decoder a) (decode_record decoder a)
unfolding decode_record IsDecoded
decode_record-IsRead decoder a =
    let size = (decoder a).0 in
    let r : Decoded = record { address = a; size = size; valid = true; text = (decoder a).1 } in
    if_either (OnDone (IsRead decoder a)) (ltb 0xffff a || (size == 0 || ltb code_size (a + size)))
      (failed range) (done r) (λ bad. OnDone-failed (IsRead decoder a) range)
      (λ good.
        let ne : size ≢ 0 = ground arith in
        let le : a + size ≤ code_size = ground arith in
        OnDone-done (IsRead decoder a) r (refl, refl, ne, le, inl (refl, refl, ne, le)))

-- The record before the cursor, and the cursor at its address.
abbrev IsBefore : Decoder → ℕ → ℕ × Bool × Decoded → Type 0
IsBefore decoder cursor s = (s.2.address ≡ s.0) × (s.0 + s.2.size ≡ cursor) × IsDecoded decoder s.2

step_back-IsBefore :
    (decoder : Decoder) (cache : Cache) (cursor : ℕ) (known : Bool)
    → IsCache decoder cache
    → OnDone (IsBefore decoder cursor) (step_back decoder cache cursor known)
unfolding step_back IsCache IsLink
step_back-IsBefore decoder cache cursor known sound =
    let before = cache.predecessor cursor in
    let unknown : ℕ × Bool × Decoded = (cursor - 1, false, invalid_record (cursor - 1)) in
    let stays : OnDone (IsBefore decoder cursor)
        (if cursor == 0 then failed range else done unknown) =
      if_either (OnDone (IsBefore decoder cursor)) (cursor == 0) (failed range) (done unknown)
        (λ none. OnDone-failed (IsBefore decoder cursor) range)
        (λ some.
          let ne : cursor ≢ 0 = ground arith in
          let size : cursor - 1 + 1 ≡ cursor = omega arith in
          OnDone-done (IsBefore decoder cursor) unknown (
            unfold invalid_record in refl,
            unfold invalid_record in size,
            unfold IsDecoded in unfold invalid_record in inr refl,
          )) in
    if_either (OnDone (IsBefore decoder cursor)) (known && cache.known cursor)
      (and_then (decode_record decoder before) (λ r. done (before, true, r)))
      (if cursor == 0 then failed range else done unknown)
      (λ both.
        OnDone-and_then (IsRead decoder before) (IsBefore decoder cursor)
          (decode_record decoder before) (λ r. done (before, true, r))
          (decode_record-IsRead decoder before)
          (λ r read.
            let is_known : cache.known cursor ≡ true = ground arith in
            OnDone-done (IsBefore decoder cursor) (before, true, r)
              (read.0, rw (read.1) ((sound cursor is_known).2), read.4)))
      (λ other. stays)

-- Exactly `n` records up to the base, of which the first `keep` are given.
abbrev pub IsGone : Decoder → ℕ → ℕ → ℕ → List Decoded → Type 0
IsGone decoder base n keep rs =
    (a : ℕ) × (whole : List Decoded) × IsRun decoder a whole base
    × (length whole ≡ n)
    × (rs ≡ take keep whole)

take_step :
    (n keep : ℕ) (r : Decoded) (past : List Decoded)
    → (if ltb n keep then r ∷ take (keep - suc n) past else take (keep - suc n) past)
      ≡ take (keep - n) (r ∷ past)
take_step n keep r past = elim (Bool-cases (ltb n keep)) [
  | inl taken ↦ let e : keep - n ≡ suc (keep - suc n) = ground arith in rw (taken, e) refl
  | inr dropped ↦
      let none_left : keep - n ≡ 0 = ground arith in
      let none_next : keep - suc n ≡ 0 = ground arith in rw (dropped, none_left, none_next) refl
]

-- Going `n` instructions back from the records of `past`.
walk_back-past :
    (decoder : Decoder) (cache : Cache) (keep base n : ℕ) (cursor : ℕ) (known : Bool)
    (past : List Decoded)
    → IsCache decoder cache
    → IsRun decoder cursor past base
    → OnDone
        (IsGone decoder base (length past + n) keep)
        (walk_back decoder cache keep cursor known n (take (keep - n) past))
unfolding walk_back
walk_back-past decoder cache keep base zero cursor known past sound run =
    let all : keep - 0 ≡ keep = omega arith in
    OnDone-done (IsGone decoder base (length past + 0) keep) (take (keep - 0) past)
      (cursor, past, run, omega arith, rw all refl)
walk_back-past decoder cache keep base (suc n) cursor known past sound run =
    OnDone-and_then (IsBefore decoder cursor) (IsGone decoder base (length past + suc n) keep)
      (step_back decoder cache cursor known) _ (step_back-IsBefore decoder cache cursor known sound)
      (λ s before.
        let longer : IsRun decoder s.0 (s.2 ∷ past) base =
          unfold IsRun in (before.0, before.2, rw (before.1) run) in
        let e : length past + suc n ≡ length (s.2 ∷ past) + n = omega arith in
        rw (take_step n keep (s.2) past, e)
          (walk_back-past decoder cache keep base n s.0 s.1 (s.2 ∷ past) sound longer))

pub walk_back-IsGone :
    (decoder : Decoder) (cache : Cache) (keep n : ℕ) (cursor : ℕ) (known : Bool)
    → IsCache decoder cache
    → OnDone (IsGone decoder cursor n keep) (walk_back decoder cache keep cursor known n [])
walk_back-IsGone decoder cache keep n cursor known sound =
    let e : 0 + n ≡ n = omega arith in
    subst
      (λ (k : ℕ).
        OnDone (IsGone decoder cursor k keep) (walk_back decoder cache keep cursor known n []))
      e
      (subst
        (λ t.
          OnDone (IsGone decoder cursor (0 + n) keep)
            (walk_back decoder cache keep cursor known n t))
        (take-nil (keep - n))
        (walk_back-past decoder cache keep cursor n cursor known [] sound (unfold IsRun in refl)))

pub skip_forward-advance :
    (decoder : Decoder) (n cursor : ℕ)
    → OnDone (λ a. a ≡ advance decoder n cursor) (skip_forward decoder cursor n)
unfolding skip_forward advance
skip_forward-advance decoder zero cursor = OnDone-done _ cursor refl
skip_forward-advance decoder (suc n) cursor =
    OnDone-and_then (IsRead decoder cursor) _ (decode_record decoder cursor) _
      (decode_record-IsRead decoder cursor)
      (λ r read.
        let next = cursor + r.size in
        let e : cursor + (decoder cursor).0 ≡ next = omega (arith, read.1) in
        if_either (OnDone (λ a. a ≡ advance decoder (suc n) cursor)) (ltb 0xffff next)
          (failed range) (skip_forward decoder next n) (λ far. OnDone-failed _ range)
          (λ near. rw e (skip_forward-advance decoder n next)))

-- A run of `n` records from the cursor on, with links beside it.
abbrev pub IsFilled : Decoder → ℕ → ℕ → List Decoded × List (ℕ × ℕ) → Type 0
IsFilled decoder cursor n w =
    (b : ℕ) × IsRun decoder cursor w.0 b × (length w.0 ≡ n) × IsLinks decoder w.1

fill_step :
    (decoder : Decoder) (n cursor : ℕ) (r : Decoded) (w : List Decoded × List (ℕ × ℕ))
    → IsRead decoder cursor r
    → IsFilled decoder (cursor + r.size) n w
    → IsFilled decoder cursor (suc n) (
        (r ∷ w.0, if ltb (cursor + r.size) code_size then (cursor + r.size, cursor) ∷ w.1 else w.1))
unfolding IsRun IsLinks IsLink
fill_step decoder n cursor r w read filled =
    let next = cursor + r.size in
    let links : IsLinks decoder (if ltb next code_size then (next, cursor) ∷ w.1 else w.1) =
      if_either (IsLinks decoder) (ltb next code_size) ((next, cursor) ∷ w.1) w.1
        (λ inside. ((ground arith, rw (sym (read.1)) (read.2), omega (arith, read.1)), filled.3))
        (λ outside. filled.3) in
    (filled.0, (read.0, read.4, filled.1), omega (arith, filled.2), links)

-- The records of the window from a cursor on, and the pairs that are staged beside them.
pub fill_window-IsRun :
    (decoder : Decoder) (n cursor : ℕ)
    → OnDone (IsFilled decoder cursor n) (fill_window decoder cursor n)
unfolding fill_window
fill_window-IsRun decoder zero cursor =
    OnDone-done (IsFilled decoder cursor 0) ([], [])
      (cursor, unfold IsRun in refl, refl, unfold IsLinks in tt)
fill_window-IsRun decoder (suc n) cursor =
    OnDone-and_then (IsRead decoder cursor) _ (decode_record decoder cursor) _
      (decode_record-IsRead decoder cursor)
      (λ r read.
        let next = cursor + r.size in
        let more = fill_window decoder next n in
        if_either (OnDone (IsFilled decoder cursor (suc n))) (not (n == 0) && ltb 0xffff next)
          (failed range)
          (and_then more
            (λ w. done (r ∷ w.0, if ltb next code_size then (next, cursor) ∷ w.1 else w.1)))
          (λ far. OnDone-failed _ range)
          (λ near.
            OnDone-and_then (IsFilled decoder next n) (IsFilled decoder cursor (suc n)) more _
              (fill_window-IsRun decoder n next)
              (λ w filled.
                OnDone-done (IsFilled decoder cursor (suc n)) _
                  (fill_step decoder n cursor r w read filled))))
