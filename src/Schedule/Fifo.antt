-- ===== src/Schedule/Fifo.antt =====
-- The ring of scheduled events as a list in order of time.
use emu_sa80535_n.Base.{
  ℕ, zero, suc, ◌+◌, ◌-◌, ◌%◌, ◌≤◌, ◌<◌, ◌≡◌, ◌≢◌, false, List, [], ◌∷◌, ◌++◌, arith, ltb, leb,
  ◌==◌, ◌&&◌, ◌||◌, not, if◌then◌else◌, inl, inr, refl, sym, ap, subst, ◌∙◌, Bool-cases, update,
  update_self, u8,
}
use emu_sa80535_n.Cpu.{ScheduleEvent, Ports}
use emu_sa80535_n.Schedule.{enqueue, slot, schedule_capacity}

-- The events that stand in `n` slots of a ring from `head` on.
unfoldable pub queued : (ℕ → ScheduleEvent) → ℕ → ℕ → List ScheduleEvent
queued f head zero = []
queued f head (suc n) = f head ∷ queued f ((head + 1) % 64) n

-- The abstract queue of a state.
abbrev pub events : Ports → List ScheduleEvent
events p = queued p.schedule p.schedule_head p.schedule_count

-- The ring is within its bounds.
abbrev pub IsRing : Ports → Type 0
IsRing p = (p.schedule_head < 64) × (p.schedule_count ≤ 64)

-- Events in order of their time.
unfoldable pub IsOrdered : List ScheduleEvent → Type 0
IsOrdered [] = 0 ≤ 0
IsOrdered (x ∷ []) = 0 ≤ 0
IsOrdered (x ∷ y ∷ rest) = (x.machine_cycle ≤ y.machine_cycle) × IsOrdered (y ∷ rest)

queued-snoc :
    (f : ℕ → ScheduleEvent) (head n : ℕ)
    → head < 64
    → queued f head (suc n) ≡ queued f head n ++ (f ((head + n) % 64) ∷ [])
unfolding queued
queued-snoc f head zero h = ap (λ k. f k ∷ []) (omega arith)
queued-snoc f head (suc n) h =
    let last : ((head + 1) % 64 + n) % 64 ≡ (head + suc n) % 64 = omega arith in
    ap (λ l. f head ∷ l)
      (queued-snoc f ((head + 1) % 64) n (omega arith)
        ∙ ap (λ k. queued f ((head + 1) % 64) n ++ (f k ∷ [])) last)

queued-update :
    (f : ℕ → ScheduleEvent) (s : ℕ) (e : ScheduleEvent) (head n : ℕ)
    → head < 64
    → ((k : ℕ) → k < n → (head + k) % 64 ≢ s)
    → queued (update f s e) head n ≡ queued f head n
unfolding queued
queued-update f s e head zero h away = refl
queued-update f s e head (suc n) h away =
    let first : (head == s) ≡ false = ground (arith, away 0 (omega arith)) in
    let rest =
      queued-update f s e ((head + 1) % 64) n (omega arith)
        (λ k lt same. away (suc k) (omega arith) (omega arith)) in
    rw (first, rest) refl

IsOrdered-snoc :
    (l : List ScheduleEvent) (a b : ScheduleEvent)
    → IsOrdered (l ++ (a ∷ []))
    → a.machine_cycle ≤ b.machine_cycle
    → IsOrdered ((l ++ (a ∷ [])) ++ (b ∷ []))
unfolding IsOrdered
IsOrdered-snoc [] a b h le = (le, omega arith)
IsOrdered-snoc (x ∷ []) a b (xa, h) le = (xa, (le, omega arith))
IsOrdered-snoc (x ∷ y ∷ rest) a b (xy, h) le = (xy, IsOrdered-snoc (y ∷ rest) a b h le)

appended : ScheduleEvent → Ports → Ports
appended event p = record p {
  schedule = update p.schedule (slot p p.schedule_count) event;
  schedule_count = u8 (p.schedule_count + 1);
}

appended-events :
    (event : ScheduleEvent) (p : Ports)
    → p.schedule_head < 64
    → p.schedule_count < 64
    → events (appended event p) ≡ events p ++ (event ∷ [])
unfolding appended
appended-events event p h n =
    let f = p.schedule in
    let head = p.schedule_head in
    let count = p.schedule_count in
    let s = (head + count) % 64 in
    let count' : u8 (count + 1) ≡ suc count = omega arith in
    let s' : u8 s ≡ s = omega arith in
    rw (count', s')
      (queued-snoc (update f s event) head count h
        ∙ rw
            (queued-update f s event head count h (λ k lt same. omega arith), update_self f s event)
            refl)

appended-IsOrdered :
    (event : ScheduleEvent) (f : ℕ → ScheduleEvent) (head n : ℕ)
    → head < 64
    → IsOrdered (queued f head n)
    → ((m : ℕ) → n ≡ suc m → (f ((head + m) % 64)).machine_cycle ≤ event.machine_cycle)
    → IsOrdered (queued f head n ++ (event ∷ []))
unfolding queued
appended-IsOrdered event f head zero h ordered late = unfold IsOrdered in omega arith
appended-IsOrdered event f head (suc m) h ordered late =
    let e = queued-snoc f head m h in
    subst (λ l. IsOrdered (l ++ (event ∷ []))) (sym e)
      (IsOrdered-snoc (queued f head m) (f ((head + m) % 64)) event (subst IsOrdered e ordered)
        (late m refl))

-- The entry of a future event: refused where the ring is full or an event after it is queued, and
-- nothing changes; else it becomes the last of the queue. The order of the times is kept.
pub enqueue-events :
    (event : ScheduleEvent) (p : Ports)
    → IsRing p
    → IsOrdered (events p)
    → let (accepted, q) = enqueue event p in
      IsRing q
      × IsOrdered (events q)
      × (events q ≡ (if accepted then events p ++ (event ∷ []) else events p))
      × (accepted ≡ (
          ltb p.schedule_count 64
          && (p.schedule_count == 0
              || leb
                  (p.schedule ((p.schedule_head + p.schedule_count - 1) % 64)).machine_cycle
                  event.machine_cycle)))
unfolding enqueue appended
enqueue-events event p (h, n) ordered =
    let count = p.schedule_count in
    let last = (p.schedule_head + count - 1) % 64 in
    let last' : u8 last ≡ last = omega arith in
    rw last'
      (elim (Bool-cases
        (not (count == 0) && ltb event.machine_cycle (p.schedule last).machine_cycle)) [
          | inl refused ↦ rw refused ((h, n), ordered, refl, ground arith)
          | inr timely ↦ elim (Bool-cases (leb schedule_capacity count)) [
            | inl full ↦ rw (timely, full) ((h, n), ordered, refl, ground arith)
            | inr space ↦
                let grown = appended-events event p h (ground arith) in
                let late : (m : ℕ)
                    → count ≡ suc m
                    → (p.schedule ((p.schedule_head + m) % 64)).machine_cycle
                      ≤ event.machine_cycle =
                  λ m e.
                    let at : p.schedule ((p.schedule_head + m) % 64) ≡ p.schedule last =
                      ap (λ k. p.schedule (k % 64)) (omega arith) in
                    ground (arith, ap (λ (x : ScheduleEvent). x.machine_cycle) at) in
                let sorted =
                  appended-IsOrdered event p.schedule p.schedule_head count h ordered late in
                rw (timely, space)
                  ((h, ground arith), subst IsOrdered (sym grown) sorted, grown, ground arith)
          ]
        ])
