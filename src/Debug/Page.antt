-- ===== src/Debug/Page.antt =====
-- A page of retained outcomes: `emu_outcome_page` of emu_outcome_internal.c. The sizes of the
-- structures depend on the compiler and are a parameter; pointers other than that of the records
-- are valid.
pub mod Cursor
use emu_sa80535_n.Base.{
  ℕ, zero, suc, ◌+◌, ◌-◌, ◌%◌, ◌^◌, Bool, true, false, not, ◌&&◌, ◌||◌, List, [], ◌∷◌, ltb, leb,
  ◌==◌, if◌then◌else◌, u32, update,
}
use emu_sa80535_n.Debug.Outcome.{
  TraceRecord, Ring, Status, ok, invalid, version, capacity_short, exhausted, record_at,
}

pub record Sizes : Type 0 where
  pub request : ℕ
  pub page : ℕ
  pub trace_record : ℕ
  pub observation : ℕ
  pub value : ℕ

-- `EMUIF_PREFIX`: the first fields of every structure of the interface.
pub record Prefix : Type 0 where
  pub struct_size : ℕ
  pub api_version : ℕ
  pub flags : ℕ

-- `struct emuif_trace_page_request`.
pub record Request : Type 0 where
  pub prefix : Prefix
  pub session_id : ℕ → ℕ
  pub reserved : List ℕ
  pub destination_id : ℕ
  pub max_records : ℕ
  pub epoch : ℕ
  pub after_record_sequence : ℕ

-- An element of the caller's array: its prefixes, the fields that must be 0, and the record.
pub record Slot : Type 0 where
  pub prefix : Prefix
  pub event_prefix : Prefix
  pub old_value_prefix : Prefix
  pub new_value_prefix : Prefix
  pub reserved : List ℕ
  pub content : TraceRecord

pub data CursorState : Type 0 where
  current expired ahead wrong_session wrong_epoch : CursorState

-- `struct emuif_trace_page`.
pub record Page : Type 0 where
  pub prefix : Prefix
  pub session_id : ℕ → ℕ
  pub reserved : List ℕ
  pub destination_id : ℕ
  pub cursor_state : CursorState
  pub epoch : ℕ
  pub requested_after : ℕ
  pub oldest : ℕ
  pub newest : ℕ
  pub first : ℕ
  pub last : ℕ
  pub next_after : ℕ
  pub overwritten : ℕ
  pub dropped : ℕ
  pub lost_before_page : ℕ
  pub remaining : ℕ
  pub more : Bool
  pub written : ℕ
  pub required : ℕ
  pub has_records : Bool
  pub records : ℕ → Slot
  pub element_size : ℕ
  pub capacity : ℕ

-- The static `zero` on the bytes of a reserved field.
unfoldable pub all_zero : List ℕ → Bool
all_zero [] = true
all_zero (x ∷ xs) = x == 0 && all_zero xs

unfoldable pub sized : Prefix → ℕ → Status
sized p n =
    if ltb p.struct_size 8
    then invalid
    else if not (p.api_version == 1)
    then version
    else if ltb p.struct_size n || not (p.flags == 0)
    then invalid
    else ok

-- A failed check returns its status at once.
abbrev pub first_failure : Status → Status → Status
first_failure ok next = next
first_failure invalid next = invalid
first_failure version next = version
first_failure capacity_short next = capacity_short
first_failure exhausted next = exhausted

unfoldable pub is_hex : ℕ → Bool
is_hex c = (leb b'0' c && leb c b'9') || (leb b'a' c && leb c b'f')

-- The loop over the 32 digits.
unfoldable pub all_hex : ℕ → (ℕ → ℕ) → Bool
unfolding is_hex
all_hex zero id = true
all_hex (suc n) id = is_hex (id n) && all_hex n id

-- `memchr(id, 0, n)`.
unfoldable pub has_nul : ℕ → (ℕ → ℕ) → Bool
has_nul zero id = false
has_nul (suc n) id = id n == 0 || has_nul n id

-- `strcmp` is 0: the strings agree up to a NUL, which stands within `n` bytes.
unfoldable pub same_text : ℕ → ℕ → (ℕ → ℕ) → (ℕ → ℕ) → Bool
same_text zero i a b = true
same_text (suc n) i a b =
    let rest = same_text n (i + 1) a b in
    if not (a i == b i) then false else if a i == 0 then true else rest

-- The checks of the request and of the page.
unfoldable pub page_request_checks : Sizes → Request → Page → Status
unfolding sized all_zero all_hex has_nul
page_request_checks sizes q out = first_failure (sized q.prefix sizes.request) (
    first_failure (sized out.prefix sizes.page) (
      if not (q.destination_id == 0)
        || (ltb 16 q.max_records
            || (q.epoch == 0
                || (not (all_zero q.reserved)
                    || (not (all_zero out.reserved)
                        || (not (has_nul 33 q.session_id)
                            || (not (out.capacity == 0)
                                && (not out.has_records
                                    || ltb out.element_size sizes.trace_record)))))))
      then invalid
      else if not (all_hex 32 q.session_id)
      then invalid
      else if not (q.session_id 32 == 0)
      then invalid
      else ok))

unfoldable pub slot_checks : Sizes → Page → Slot → Status
unfolding sized all_zero
slot_checks sizes p s = first_failure (sized s.prefix sizes.trace_record) (
    first_failure
      (if ltb p.element_size s.prefix.struct_size || not (all_zero s.reserved) then invalid else ok)
      (first_failure (sized s.event_prefix sizes.observation) (
        first_failure (sized s.old_value_prefix sizes.value)
          (sized s.new_value_prefix sizes.value))))

-- The loop over the slots from `i` on.
unfoldable pub slots_checks : Sizes → Page → ℕ → ℕ → Status
unfolding slot_checks
slots_checks sizes p i zero = ok
slots_checks sizes p i (suc n) =
    first_failure (slot_checks sizes p (p.records i)) (slots_checks sizes p (i + 1) n)

-- The loop that copies `n` records from the place `offset + i` on; the sizes of a slot stay.
unfoldable pub copy_records : Ring → ℕ → ℕ → ℕ → (ℕ → Slot) → ℕ → Slot
copy_records r offset i zero slots = slots
copy_records r offset i (suc n) slots =
    copy_records r offset (i + 1) n
      (update slots i (record (slots i) { content = record_at r (offset + i) }))

-- The page with what is known before the cursor is judged.
unfoldable pub page_start : Ring → (ℕ → ℕ) → Request → Page → Page
page_start r session q out = record out {
  session_id = session;
  destination_id = 0;
  cursor_state = CursorState.current;
  epoch = 1;
  requested_after = q.after_record_sequence;
  oldest = if r.count == 0 then 0 else (record_at r 0).record_sequence;
  newest = if r.count == 0 then 0 else (record_at r (r.count - 1)).record_sequence;
  first = 0;
  last = 0;
  next_after = q.after_record_sequence;
  overwritten = r.overwritten;
  dropped = 0;
  lost_before_page = 0;
  remaining = 0;
  more = false;
  written = 0;
  required = 0;
}

unfoldable pub cursor_of : (ℕ → ℕ) → Request → Page → CursorState
unfolding same_text
cursor_of session q p =
    if not (same_text 33 0 q.session_id session)
    then CursorState.wrong_session
    else if not (q.epoch == 1)
    then CursorState.wrong_epoch
    else if ltb p.newest q.after_record_sequence
    then CursorState.ahead
    else CursorState.current

-- The page once its place in the ring is known.
unfoldable pub page_fill : Sizes → Ring → ℕ → Request → Page → Page → Status × Page
unfolding slots_checks copy_records
page_fill sizes r offset q p out =
    let available = r.count - offset in
    let required = if ltb available q.max_records then available else q.max_records in
    let short = record p {
      required = required;
      remaining = available;
      more = not (available == 0);
    } in
    let checked = slots_checks sizes p 0 required in
    let left = available - required in
    let last_written = (record_at r (offset + required - 1)).record_sequence in
    let full = record p {
      required = required;
      records = copy_records r offset 0 required p.records;
      written = required;
      remaining = left;
      more = not (left == 0);
      first = if required == 0 then p.first else (record_at r offset).record_sequence;
      last = if required == 0 then p.last else last_written;
      next_after = if required == 0 then p.next_after else last_written;
    } in
    if ltb out.capacity required
    then (capacity_short, short)
    else elim checked [ ok ↦ (ok, full) | failed ↦ (failed, out) ]

unfoldable pub page_from : Sizes → Ring → Request → Page → Page → Status × Page
unfolding page_fill
page_from sizes r q p out =
    let after = q.after_record_sequence in
    if not (p.oldest == 0) && ltb after (p.oldest - 1)
    then page_fill sizes r 0 q
        (record p { cursor_state = CursorState.expired; lost_before_page = p.oldest - after - 1 })
        out
    else page_fill sizes r
        (if not (r.count == 0) && leb p.oldest after then u32 (after - p.oldest + 1) else 0) q p out

-- The early returns: a failed check leaves the page as it was, and a cursor that is not current
-- gives a page without records.
unfoldable pub page_answer :
    Status → CursorState → Sizes → Ring → Request → Page → Page → Status × Page
unfolding page_from
page_answer checked cursor sizes r q p out = elim checked [
  | ok ↦ elim cursor [
    | CursorState.current ↦ page_from sizes r q p out
    | other ↦ (ok, record p { cursor_state = other })
  ]
  | failed ↦ (failed, out)
]

-- `emu_outcome_page`: the status and the page afterwards.
unfoldable pub outcome_page : Sizes → Ring → (ℕ → ℕ) → Request → Page → Status × Page
outcome_page sizes r session q out =
    let p = page_start r session q out in
    page_answer (page_request_checks sizes q out) (cursor_of session q p) sizes r q p out
