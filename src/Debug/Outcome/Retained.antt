-- ===== src/Debug/Outcome/Retained.antt =====
-- The retained records carry consecutive numbers, and the newest are kept.
use emu_sa80535_n.Base.{
  ℕ, ◌+◌, ◌-◌, ◌%◌, ◌^◌, ◌≤◌, ◌<◌, ◌≡◌, ◌≢◌, inl, inr, refl, ap, arith, ◌==◌, if◌then◌else◌,
  update_self, update_ne, Bool-cases,
}
use emu_sa80535_n.Debug.Outcome.{Ring, TraceRecord, record_at, ring_insert, ring_drop}

-- The number that follows the last one given; 2 ^ 64 once the counter has wrapped to 0.
abbrev pub reach : Ring → ℕ
reach r = if r.next_sequence == 0 then 2 ^ 64 else r.next_sequence

-- The records from the oldest on have the numbers just below `reach`, without a gap.
pub record IsRetained (r : Ring) : Type 0 where
  pub head_small : r.head < 1024
  pub count_small : r.count ≤ 1024
  pub range : r.next_sequence < 2 ^ 64
  pub started : r.count < reach r
  pub numbered : (i : ℕ) → i < r.count → (record_at r i).record_sequence + r.count ≡ reach r + i

pub ring_insert-old :
    (v : TraceRecord) (r : Ring) (i : ℕ)
    → r.head < 1024
    → r.count < 1024
    → i < r.count
    → record_at (ring_insert v r) i ≡ record_at r i
unfolding ring_insert
ring_insert-old v r i h n lt =
    update_ne r.records ((r.head + r.count) % 1024) ((r.head + i) % 1024)
      (record v { record_sequence = r.next_sequence }) (λ e. absurd (omega arith))

pub ring_insert-new :
    (v : TraceRecord) (r : Ring)
    → record_at (ring_insert v r) r.count ≡ record v { record_sequence = r.next_sequence }
unfolding ring_insert
ring_insert-new v r =
    update_self r.records ((r.head + r.count) % 1024)
      (record v { record_sequence = r.next_sequence })

pub ring_insert-counts :
    (v : TraceRecord) (r : Ring)
    → r.next_sequence ≢ 0
    → r.next_sequence < 2 ^ 64
    → (reach (ring_insert v r) ≡ reach r + 1)
      × (reach r ≡ r.next_sequence)
      × ((ring_insert v r).head ≡ r.head)
      × ((ring_insert v r).count ≡ r.count + 1)
      × ((ring_insert v r).next_sequence < 2 ^ 64)
unfolding ring_insert
ring_insert-counts v r ne lt = (ground arith, ground arith, refl, refl, omega arith)

ring_insert-numbered :
    (v : TraceRecord) (r : Ring)
    → IsRetained r
    → r.count < 1024
    → r.next_sequence ≢ 0
    → (i : ℕ) → i < (ring_insert v r).count
    → (record_at (ring_insert v r) i).record_sequence + (ring_insert v r).count
      ≡ reach (ring_insert v r) + i
ring_insert-numbered v r h room ne i lt =
    let k = ring_insert-counts v r ne h.range in
    elim (Bool-cases (i == r.count)) [
      | inl last ↦
          let at : i ≡ r.count = ground arith in
          let number : (record_at (ring_insert v r) i).record_sequence ≡ r.next_sequence =
            rw at (ap (λ (t : TraceRecord). t.record_sequence) (ring_insert-new v r)) in
          omega (arith, k)
      | inr old ↦
          let below : i < r.count = ground (arith, k) in
          let number =
            ap (λ (t : TraceRecord). t.record_sequence)
              (ring_insert-old v r i h.head_small room below) in
          omega (arith, k, number, h.numbered i below)
    ]

pub ring_insert-IsRetained :
    (v : TraceRecord) (r : Ring)
    → IsRetained r
    → r.count < 1024
    → r.next_sequence ≢ 0
    → IsRetained (ring_insert v r)
ring_insert-IsRetained v r h room ne =
    let k = ring_insert-counts v r ne h.range in
    let started = h.started in
    let small = h.head_small in
    record {
      head_small = omega (arith, k);
      count_small = omega (arith, k);
      range = omega (arith, k);
      started = omega (arith, k);
      numbered = ring_insert-numbered v r h room ne;
    }

pub ring_drop-record_at : (r : Ring) (i : ℕ) → record_at (ring_drop r) i ≡ record_at r (i + 1)
unfolding ring_drop
ring_drop-record_at r i = ap r.records (omega arith)

pub ring_drop-IsRetained : (r : Ring) → IsRetained r → 0 < r.count → IsRetained (ring_drop r)
unfolding ring_drop
ring_drop-IsRetained r h some_left =
    let started = h.started in
    let small = h.count_small in
    record {
      head_small = omega arith;
      count_small = omega arith;
      range = h.range;
      started = omega arith;
      numbered = λ i lt.
          let moved = ap (λ (t : TraceRecord). t.record_sequence) (ring_drop-record_at r i) in
          unfold ring_drop in omega (arith, moved, h.numbered (i + 1) (omega arith));
    }

pub ring_drop-counts :
    (r : Ring)
    → ((ring_drop r).count ≡ r.count - 1)
      × ((ring_drop r).next_sequence ≡ r.next_sequence)
      × (reach (ring_drop r) ≡ reach r)
unfolding ring_drop
ring_drop-counts r = (refl, refl, refl)
