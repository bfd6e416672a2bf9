-- ===== src/Debug/Outcome/Append.antt =====
-- What an outcome adds to the ring, and what it pushes out.
use emu_sa80535_n.Base.{
  ℕ, ◌+◌, ◌-◌, ◌^◌, ◌≤◌, ◌<◌, ◌≡◌, ◌≢◌, ◌⊎◌, inl, inr, ◌∙◌, refl, ap, sym, subst, Bool, true, false,
  ◌||◌, arith, ltb, ◌==◌, max, if◌then◌else◌, if_either,
}
use emu_sa80535_n.Debug.Event.{Observation}
use emu_sa80535_n.Debug.Outcome.{
  Ring, TraceRecord, Status, ok, exhausted, loss, blank, record_at, ring_insert, ring_drop,
  note_loss, outcome_append,
}
use emu_sa80535_n.Debug.Outcome.Noted.{event_count, event_sequence, first_of, noted_pair}
use emu_sa80535_n.Debug.Outcome.Retained.{
  reach, IsRetained, ring_insert-old, ring_insert-new, ring_insert-counts, ring_insert-IsRetained,
  ring_drop-counts, ring_drop-record_at, ring_drop-IsRetained,
}

-- The records pushed out, and the numbers used.
abbrev pub dropped : Ring → ℕ
dropped r = if r.count == 1024 then 2 else 0

abbrev pub used : Ring → ℕ
used r = if r.count == 1024 then 2 else 1

pub record IsAppended (o : Observation) (r after : Ring) : Type 0 where
  pub retained : IsRetained after
  pub kept : (i : ℕ) → dropped r + i < r.count → record_at after i ≡ record_at r (dropped r + i)
  pub newest :
      record_at after (r.count + used r - dropped r - 1)
      ≡ record (blank o.generation) { event = o; record_sequence = reach r + used r - 1 }
  pub size : after.count ≡ r.count + used r - dropped r
  pub reached : reach after ≡ reach r + used r

event_of : Observation → TraceRecord
event_of o = record (blank o.generation) { event = o }

room-IsAppended :
    (o : Observation) (r : Ring)
    → IsRetained r
    → r.count < 1024
    → r.next_sequence ≢ 0
    → IsAppended o r (ring_insert (event_of o) r)
room-IsAppended o r h room ne =
    let k = ring_insert-counts (event_of o) r ne h.range in
    let none_dropped : dropped r ≡ 0 = ground arith in
    let one_used : used r ≡ 1 = ground arith in
    record {
      retained = ring_insert-IsRetained (event_of o) r h room ne;
      kept = rw none_dropped (λ i lt.
          let same : 0 + i ≡ i = omega arith in
          rw same (ring_insert-old (event_of o) r i h.head_small room (omega arith)));
      newest =
          let place : r.count + used r - dropped r - 1 ≡ r.count = omega arith in
          let number : reach r + used r - 1 ≡ r.next_sequence = omega (arith, k) in
          rw (place, number) (unfold event_of in ring_insert-new (event_of o) r);
      size = omega (arith, k);
      reached = omega (arith, k);
    }

-- The ring after the two oldest are noted in a loss record.
reported : TraceRecord → Ring → Ring
reported v r = ring_insert v (ring_drop (ring_drop r))

record IsReported (v : TraceRecord) (r m : Ring) : Type 0 where
  retained : IsRetained m
  size : m.count ≡ 1023
  number : m.next_sequence ≡ r.next_sequence + 1
  reached : reach m ≡ reach r + 1
  kept : (i : ℕ) → i < 1022 → record_at m i ≡ record_at r (i + 2)
  noted : record_at m 1022 ≡ record v { record_sequence = r.next_sequence }

dropped_twice :
    (r : Ring)
    → r.count ≡ 1024
    → IsRetained r
    → IsRetained (ring_drop (ring_drop r))
      × ((ring_drop (ring_drop r)).count ≡ 1022)
      × ((ring_drop (ring_drop r)).next_sequence ≡ r.next_sequence)
      × (reach (ring_drop (ring_drop r)) ≡ reach r)
dropped_twice r full h =
    let a = ring_drop-counts r in
    let b = ring_drop-counts (ring_drop r) in
    (
      ring_drop-IsRetained (ring_drop r) (ring_drop-IsRetained r h (omega arith))
          (omega (arith, a)),
      omega (arith, a, b),
      omega (arith, a, b),
      omega (arith, a, b),
    )

insert-number :
    (v : TraceRecord) (r : Ring)
    → r.next_sequence < 2 ^ 64 - 1
    → (ring_insert v r).next_sequence ≡ r.next_sequence + 1
unfolding ring_insert
insert-number v r lt = omega arith

reported-IsReported :
    (v : TraceRecord) (r : Ring)
    → IsRetained r
    → r.count ≡ 1024
    → r.next_sequence ≢ 0
    → r.next_sequence < 2 ^ 64 - 1
    → IsReported v r (reported v r)
unfolding reported
reported-IsReported v r h full ne more =
    let two = ring_drop (ring_drop r) in
    let (retained, count, next, same) = dropped_twice r full h in
    let ne' : two.next_sequence ≢ 0 = λ e. ne (sym next ∙ e) in
    let small = retained.range in
    let k = ring_insert-counts v two ne' retained.range in
    record {
      retained = ring_insert-IsRetained v two retained (omega (arith, count)) ne';
      size = omega (arith, k, count);
      number = omega (arith, insert-number v two (omega (arith, next)), next);
      reached = omega (arith, k, same);
      kept = λ i lt.
          let places : i + 1 + 1 ≡ i + 2 = omega arith in
          ring_insert-old v two i retained.head_small (omega (arith, count)) (omega (arith, count))
          ∙ ring_drop-record_at (ring_drop r) i
          ∙ ring_drop-record_at r (i + 1)
          ∙ ap (record_at r) places;
      noted =
          subst
            (λ n.
              record_at (ring_insert v two) n ≡ record v { record_sequence = two.next_sequence })
            count (ring_insert-new v two)
          ∙ ap (λ (n : ℕ). record v { record_sequence = n }) next;
    }

full-IsAppended :
    (o : Observation) (v : TraceRecord) (r m : Ring)
    → r.count ≡ 1024
    → IsReported v r m
    → IsAppended o r (ring_insert (event_of o) m)
full-IsAppended o v r m full h =
    let two_dropped : dropped r ≡ 2 = ground arith in
    let two_used : used r ≡ 2 = ground arith in
    let size = h.size in
    let number = h.number in
    let ne : m.next_sequence ≢ 0 = λ e. absurd (omega arith) in
    let k = ring_insert-counts (event_of o) m ne h.retained.range in
    record {
      retained = ring_insert-IsRetained (event_of o) m h.retained (omega arith) ne;
      kept = rw two_dropped (λ i lt.
          let place : i + 2 ≡ 2 + i = omega arith in
          ring_insert-old (event_of o) m i h.retained.head_small (omega arith) (omega arith)
          ∙ h.kept i (omega arith)
          ∙ ap (record_at r) place);
      newest =
          let place : r.count + used r - dropped r - 1 ≡ m.count = omega arith in
          let last : reach r + used r - 1 ≡ m.next_sequence = omega (arith, k, h.reached) in
          rw (place, last) (unfold event_of in ring_insert-new (event_of o) m);
      size = omega (arith, k);
      reached = omega (arith, k, h.reached);
    }

-- The answer to an outcome: the status and the ring.
abbrev pub IsAnswer : Observation → Ring → Status × Ring → Type 0
IsAnswer o r answer =
    ((answer ≡ (exhausted, r)) × (2 ^ 64 < reach r + used r))
    ⊎ ((answer.0 ≡ ok) × (reach r + used r ≤ 2 ^ 64) × IsAppended o r answer.1)

-- The test that refuses an outcome.
abbrev refuses : Ring → Bool
refuses r =
    r.next_sequence == 0
    || ltb (0xffffffffffffffff - r.next_sequence) ((if r.count == 1024 then 2 else 1) - 1)

refused : (r : Ring) → IsRetained r → refuses r ≡ true → 2 ^ 64 < reach r + used r
refused r h e = let range = h.range in ground arith

accepted : (r : Ring) → IsRetained r → refuses r ≡ false → reach r + used r ≤ 2 ^ 64
accepted r h e = let range = h.range in ground arith

accepted_numbers :
    (r : Ring)
    → refuses r ≡ false
    → (r.next_sequence ≢ 0) × ((r.count == 1024) ≡ true → r.next_sequence < 2 ^ 64 - 1)
accepted_numbers r e = (λ z. ground arith, λ f. ground arith)

-- What the loop over the two oldest records notes.
abbrev lost_pair : Observation → Ring → TraceRecord
lost_pair o r =
    note_loss (record_at r 1)
      (note_loss (record_at r 0) (record (blank o.generation) { kind = loss }))

-- On a ring whose records have consecutive numbers up to the last one given, an outcome is refused
-- exactly when the 64-bit counter has too few numbers left, and then the ring is as it was;
-- otherwise it becomes the newest record under the next number, all records are kept but the two
-- oldest of a full ring, and the numbers stay consecutive.
pub outcome_append-IsAppended :
    (o : Observation) (r : Ring) → IsRetained r → IsAnswer o r (outcome_append r o)
unfolding outcome_append event_of reported
outcome_append-IsAppended o r h =
    let full = r.count == 1024 in
    if_either (IsAnswer o r)
      (r.next_sequence == 0
        || ltb (0xffffffffffffffff - r.next_sequence) ((if full then 2 else 1) - 1))
      _ _ (λ e. inl (refl, refused r h e))
      (λ e. inr (
        refl,
        accepted r h e,
        if_either (λ (m : Ring). IsAppended o r (ring_insert (event_of o) m)) full _ _
            (λ f.
              let numbers = accepted_numbers r e in
              full-IsAppended o (lost_pair o r) r _ (ground arith)
                (reported-IsReported (lost_pair o r) r h (ground arith) numbers.0 (numbers.1 f)))
            (λ f. room-IsAppended o r h (ground (arith, h.count_small)) (accepted_numbers r e).0),
      ))

not_refused :
    (b : Bool) (r m : Ring)
    → (if◌then◌else◌ {A = Status × Ring} b (exhausted, r) (ok, m)).0 ≡ ok
    → b ≡ false
not_refused true r m h = cc
not_refused false r m h = refl

answer_full :
    (o : Observation) (r : Ring)
    → (r.count == 1024) ≡ true
    → (outcome_append r o).0 ≡ ok
    → (refuses r ≡ false)
      × ((outcome_append r o).1 ≡ ring_insert (event_of o) (reported (lost_pair o r) r))
unfolding outcome_append event_of reported
answer_full o r full h = let e = not_refused (refuses r) r _ h in (e, rw (e, full) refl)

-- A full ring with consecutive numbers that accepts an append notes the two records that it pushes
-- out in the record before the newest, under the number that comes next: how many of them are events,
-- and the least and the greatest of the numbers of those events, where a number 0 counts as none.
pub outcome_append-loss :
    (o : Observation) (r : Ring)
    → IsRetained r
    → r.count ≡ 1024
    → (outcome_append r o).0 ≡ ok
    → record_at (outcome_append r o).1 1022 ≡ record (blank o.generation) {
      kind = loss;
      count = event_count (record_at r 0) + event_count (record_at r 1);
      record_sequence = reach r;
      first_source_sequence =
          first_of (event_sequence (record_at r 0)) (event_sequence (record_at r 1));
      last_source_sequence = max (event_sequence (record_at r 0)) (event_sequence (record_at r 1));
    }
outcome_append-loss o r h full answered =
    let (allowed, same) = answer_full o r (ground arith) answered in
    let v = lost_pair o r in
    let numbers = accepted_numbers r allowed in
    let told = reported-IsReported v r h full numbers.0 (numbers.1 (ground arith)) in
    let size = told.size in
    let next = told.number in
    let ne : (reported v r).next_sequence ≢ 0 = λ z. absurd (omega arith) in
    let last = ring_insert-counts v r numbers.0 h.range in
    let old =
      ring_insert-old (event_of o) (reported v r) 1022 told.retained.head_small (omega arith)
        (omega arith) in
    let number : r.next_sequence ≡ reach r = omega (arith, last) in
    ap (λ (m : Ring). record_at m 1022) same
    ∙ old
    ∙ told.noted
    ∙ ap (λ (t : TraceRecord). record t { record_sequence = r.next_sequence })
        (noted_pair (record_at r 0) (record_at r 1) (record (blank o.generation) { kind = loss })
          refl refl refl)
    ∙ ap
        (λ (n : ℕ). record (blank o.generation) {
          kind = loss;
          count = event_count (record_at r 0) + event_count (record_at r 1);
          record_sequence = n;
          first_source_sequence =
              first_of (event_sequence (record_at r 0)) (event_sequence (record_at r 1));
          last_source_sequence =
              max (event_sequence (record_at r 0)) (event_sequence (record_at r 1));
        })
        number
