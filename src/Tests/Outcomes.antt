-- ===== src/Tests/Outcomes.antt =====
-- A full ring of outcomes and a page of it.
use emu_sa80535_n.Base.{ℕ, ◌+◌, ◌≡◌, refl, true, false, [], arith, if◌then◌else◌, ltb}
use emu_sa80535_n.Debug.Event.{Observation}
use emu_sa80535_n.Debug.Outcome.{
  Ring, TraceRecord, loss, blank, no_observation, record_at, outcome_append,
}
use emu_sa80535_n.Debug.Outcome.Retained.{IsRetained}
use emu_sa80535_n.Debug.Outcome.Append.{IsAnswer, outcome_append-IsAppended, outcome_append-loss}
use emu_sa80535_n.Debug.Page.{Sizes, Prefix, Request, Slot, Page, CursorState}

abbrev event_number : ℕ → TraceRecord
event_number n = record (blank 1) {
  record_sequence = n;
  event = record no_observation { sequence = n };
}

-- A ring that has just become full, with the events 1 to 1024.
abbrev full_ring : Ring
full_ring = record {
  records = λ k. event_number (k + 1);
  next_sequence = 1025;
  overwritten = 0;
  head = 0;
  count = 1024;
}

full_ring-IsRetained : IsRetained full_ring
full_ring-IsRetained = record {
  head_small = omega arith;
  count_small = omega arith;
  range = omega arith;
  started = omega arith;
  numbered = λ i lt. omega arith;
}

abbrev access : Observation
access = record no_observation { kind = 5; sequence = 2000; generation = 1 }

outcome_append-IsAppended_example : IsAnswer access full_ring (outcome_append full_ring access)
outcome_append-IsAppended_example = outcome_append-IsAppended access full_ring full_ring-IsRetained

outcome_append-loss_example :
    record_at (outcome_append full_ring access).1 1022 ≡ record (blank 1) {
      kind = loss;
      count = 2;
      record_sequence = 1025;
      first_source_sequence = 1;
      last_source_sequence = 2;
    }
unfolding outcome_append
outcome_append-loss_example = outcome_append-loss access full_ring full_ring-IsRetained refl refl

abbrev sizes : Sizes
sizes = record { request = 80; page = 200; trace_record = 500; observation = 400; value = 24 }

abbrev sized_as : ℕ → Prefix
sized_as n = record { struct_size = n; api_version = 1; flags = 0 }

-- A session id of 32 digits.
abbrev session : ℕ → ℕ
session k = if ltb k 32 then 0x61 else 0

-- Three records after number 10.
abbrev request : Request
request = record {
  prefix = sized_as 80;
  session_id = session;
  reserved = [];
  destination_id = 0;
  max_records = 3;
  epoch = 1;
  after_record_sequence = 10;
}

abbrev empty_slot : Slot
empty_slot = record {
  prefix = sized_as 500;
  event_prefix = sized_as 400;
  old_value_prefix = sized_as 24;
  new_value_prefix = sized_as 24;
  reserved = [];
  content = event_number 0;
}

abbrev page : Page
page = record {
  prefix = sized_as 200;
  session_id = λ _. 0;
  reserved = [];
  destination_id = 0;
  cursor_state = CursorState.current;
  epoch = 0;
  requested_after = 0;
  oldest = 0;
  newest = 0;
  first = 0;
  last = 0;
  next_after = 0;
  overwritten = 0;
  dropped = 0;
  lost_before_page = 0;
  remaining = 0;
  more = false;
  written = 0;
  required = 0;
  has_records = true;
  records = λ _. empty_slot;
  element_size = 500;
  capacity = 4;
}
