-- ===== src/Debug/Outcome/Noted.antt =====
-- What a loss record says of the records that it stands for (emu_outcome_internal.c).
use emu_sa80535_n.Base.{
  ℕ, ◌+◌, ◌-◌, ◌≤◌, ◌≡◌, ◌∙◌, refl, ap, Bool, true, false, ◌||◌, arith, ltb, ◌==◌, min, max, not,
  ◌&&◌, if◌then◌else◌,
}
use emu_sa80535_n.Debug.Outcome.{TraceRecord, is_event, note_loss}

-- The own number of a record that is an event; 0 for another kind.
abbrev pub event_sequence : TraceRecord → ℕ
event_sequence t = if is_event t.kind then t.event.sequence else 0

abbrev pub event_count : TraceRecord → ℕ
event_count t = if is_event t.kind then 1 else 0

-- The lesser of two numbers of which 0 is none.
abbrev pub first_of : ℕ → ℕ → ℕ
first_of a b = if a == 0 then b else if b == 0 then a else min a b

noted_one :
    (a v : TraceRecord)
    → v.count ≤ 1
    → note_loss a v ≡ record v {
      count = v.count + event_count a;
      first_source_sequence = first_of v.first_source_sequence (event_sequence a);
      last_source_sequence = max v.last_source_sequence (event_sequence a);
    }
unfolding note_loss
noted_one a v h =
    let s = event_sequence a in
    rw
      (
        first_noted v.first_source_sequence s,
        last_noted v.last_source_sequence s,
        count_noted v.count (event_count a) h (event_count-le (is_event a.kind)),
      )
      refl
  where
    event_count-le : (b : Bool) → (if◌then◌else◌ {A = ℕ} b 1 0) ≤ 1
    event_count-le true = omega arith
    event_count-le false = omega arith

    first_noted : (f s : ℕ) → (if f == 0 || (not (s == 0) && ltb s f) then s else f) ≡ first_of f s
    first_noted f s = ground arith

    last_noted : (l s : ℕ) → (if ltb l s then s else l) ≡ max l s
    last_noted l s = ground arith

    count_noted :
        (k n : ℕ)
        → k ≤ 1
        → n ≤ 1
        → (if ltb (0xffffffffffffffff - k) n then 0xffffffffffffffff else k + n) ≡ k + n
    count_noted k n hk hn = ground arith

pub noted_pair :
    (a b v : TraceRecord)
    → v.first_source_sequence ≡ 0
    → v.last_source_sequence ≡ 0
    → v.count ≡ 0
    → note_loss b (note_loss a v) ≡ record v {
      count = event_count a + event_count b;
      first_source_sequence = first_of (event_sequence a) (event_sequence b);
      last_source_sequence = max (event_sequence a) (event_sequence b);
    }
noted_pair a b v f l c =
    let count : v.count + event_count a ≡ event_count a = omega arith in
    let last : max v.last_source_sequence (event_sequence a) ≡ event_sequence a = omega arith in
    let first : first_of v.first_source_sequence (event_sequence a) ≡ event_sequence a =
      rw f refl in
    let one : event_count a ≤ 1 = ground arith in
    let w : TraceRecord = record v {
      count = event_count a;
      first_source_sequence = event_sequence a;
      last_source_sequence = event_sequence a;
    } in
    let noted : note_loss a v ≡ w = noted_one a v (omega arith) ∙ rw (count, first, last) refl in
    ap (note_loss b) noted ∙ noted_one b w one
