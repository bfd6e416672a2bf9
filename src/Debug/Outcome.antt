-- ===== src/Debug/Outcome.antt =====
-- The ring of retained outcomes of emu_outcome_internal.c, and the pages that a client pulls.
pub mod Retained
pub mod Noted
pub mod Append
use emu_sa80535_n.Base.{
  ℕ, zero, suc, ◌+◌, ◌-◌, ◌%◌, ◌^◌, Bool, true, false, not, ◌&&◌, ◌||◌, List, [], ◌∷◌, ltb, leb,
  ◌==◌, if◌then◌else◌, u32, u64, update,
}
use emu_sa80535_n.Debug.Event.{Observation}

abbrev pub capacity : ℕ
capacity = 1024

abbrev pub u64_max : ℕ
u64_max = 0xffffffffffffffff

-- The values of `emuif_status` that the ring uses.
pub data Status : Type 0 where
  ok invalid version capacity_short exhausted : Status

-- `EMUIF_RECORD_*`.
pub data RecordKind : Type 0 where
  event_record suppression loss sink : RecordKind

-- The fields of `struct emuif_trace_record` that the ring sets; the others are 0.
pub record TraceRecord : Type 0 where
  pub epoch : ℕ
  pub record_sequence : ℕ
  pub generation : ℕ
  pub first_source_sequence : ℕ
  pub last_source_sequence : ℕ
  pub count : ℕ
  pub kind : RecordKind
  pub event : Observation

-- `struct emu_outcome_ring`.
pub record Ring : Type 0 where
  pub records : ℕ → TraceRecord
  pub next_sequence : ℕ
  pub overwritten : ℕ
  pub head : ℕ
  pub count : ℕ

abbrev pub no_observation : Observation
no_observation = record { kind = 0; status = 0; space = 0; sequence = 0; generation = 0 }

-- `INIT(v)`, with epoch 1 and a generation.
abbrev pub blank : ℕ → TraceRecord
blank generation = record {
  epoch = 1;
  record_sequence = 0;
  generation = generation;
  first_source_sequence = 0;
  last_source_sequence = 0;
  count = 0;
  kind = event_record;
  event = no_observation;
}

-- The ring is cleared and its first sequence number is 1.
unfoldable pub outcome_init : Ring
outcome_init = record {
  records = λ _. record (blank 0) { epoch = 0 };
  next_sequence = 1;
  overwritten = 0;
  head = 0;
  count = 0;
}

-- The record at place `i` from the oldest on.
abbrev pub record_at : Ring → ℕ → TraceRecord
record_at r i = r.records ((r.head + i) % capacity)

-- The static `insert`.
unfoldable pub ring_insert : TraceRecord → Ring → Ring
ring_insert v r = record r {
  records =
      update r.records ((r.head + r.count) % capacity)
        (record v { record_sequence = r.next_sequence });
  next_sequence = u64 (r.next_sequence + 1);
  count = r.count + 1;
}

-- One round of the loop that takes the oldest record off and notes it in the loss record.
abbrev pub is_event : RecordKind → Bool
is_event event_record = true
is_event _ = false

unfoldable pub note_loss : TraceRecord → TraceRecord → TraceRecord
note_loss old v =
    let source = if is_event old.kind then old.event.sequence else 0 in
    let one : ℕ = if is_event old.kind then 1 else 0 in
    let take_first =
      v.first_source_sequence == 0 || (not (source == 0) && ltb source v.first_source_sequence) in
    record v {
      first_source_sequence = if take_first then source else v.first_source_sequence;
      last_source_sequence =
          if ltb v.last_source_sequence source then source else v.last_source_sequence;
      count = if ltb (u64_max - v.count) one then u64_max else v.count + one;
    }

unfoldable pub ring_drop : Ring → Ring
ring_drop r = record r {
  head = (r.head + 1) % capacity;
  count = r.count - 1;
  overwritten = if r.overwritten == u64_max then u64_max else r.overwritten + 1;
}

-- `emu_outcome_append`.
unfoldable pub outcome_append : Ring → Observation → Status × Ring
unfolding ring_insert note_loss ring_drop
outcome_append r o =
    let full = r.count == capacity in
    let needed : ℕ = if full then 2 else 1 in
    let lost =
      note_loss (record_at r 1)
        (note_loss (record_at r 0) (record (blank o.generation) { kind = loss })) in
    let made = if full then ring_insert lost (ring_drop (ring_drop r)) else r in
    if r.next_sequence == 0 || ltb (u64_max - r.next_sequence) (needed - 1)
    then (exhausted, r)
    else (ok, ring_insert (record (blank o.generation) { event = o }) made)
