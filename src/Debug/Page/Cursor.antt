-- ===== src/Debug/Page/Cursor.antt =====
-- A page continues where its cursor stands, and says what it could not show.
use emu_sa80535_n.Base.{ℕ, ◌+◌, ◌-◌, ◌≤◌, ◌<◌, ◌≡◌, min, max, ltb, ◌==◌, if◌then◌else◌}
use emu_sa80535_n.Debug.Outcome.{Ring, Status, ok, record_at}
use emu_sa80535_n.Debug.Outcome.Retained.{reach}
use emu_sa80535_n.Debug.Page.{Sizes, Request, Slot, Page, slot_checks}

copied : Ring → ℕ → ℕ → (ℕ → Slot) → Slot
copied r offset i slots = record (slots i) { content = record_at r (offset + i) }

-- The page of a ring from the place `offset` on.
pub record IsFilled (r : Ring) (q : Request) (offset : ℕ) (before p : Page) : Type 0 where
  pub size : p.written ≡ min q.max_records (r.count - offset)
  pub left : p.remaining + p.written ≡ r.count - offset
  pub contents : (i : ℕ) → i < p.written → (p.records i).content ≡ record_at r (offset + i)
  pub next : p.next_after ≡ (
      if p.written == 0
      then before.next_after
      else (record_at r (offset + p.written - 1)).record_sequence)
  pub lost : p.lost_before_page ≡ before.lost_before_page

-- A page that is answered with `ok` is filled.
abbrev IsAnswer : Ring → Request → ℕ → Page → Status × Page → Type 0
IsAnswer r q offset before answer = answer.0 ≡ ok → IsFilled r q offset before answer.1

abbrev required_of : Ring → ℕ → Request → ℕ
required_of r offset q =
    if ltb (r.count - offset) q.max_records then r.count - offset else q.max_records

-- Slots that pass the checks, as many as the request asks for.
abbrev pub HasRoom : Sizes → Request → Page → ℕ → Type 0
HasRoom sizes q p capacity =
    (q.max_records ≤ capacity)
    × ((i : ℕ) → i < q.max_records → slot_checks sizes p (p.records i) ≡ ok)

-- The number before the first one shown: that of the cursor, or, where the records after it are
-- gone, the one before the oldest record.
abbrev pub start_of : Ring → Request → ℕ
start_of r q = max q.after_record_sequence (reach r - r.count - 1)

pub record IsContinued (r : Ring) (q : Request) (p : Page) : Type 0 where
  pub size : p.written ≡ min q.max_records (reach r - 1 - start_of r q)
  pub numbers :
      (i : ℕ) → i < p.written → (p.records i).content.record_sequence ≡ start_of r q + 1 + i
  pub next :
      p.next_after ≡ (if p.written == 0 then q.after_record_sequence else start_of r q + p.written)
  pub left : p.remaining + p.written + start_of r q + 1 ≡ reach r
  pub lost : p.lost_before_page + q.after_record_sequence ≡ start_of r q

abbrev IsPageAnswer : Ring → Request → Status × Page → Type 0
IsPageAnswer r q answer = (answer.0 ≡ ok) × IsContinued r q answer.1
