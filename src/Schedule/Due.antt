-- ===== src/Schedule/Due.antt =====
-- What becomes due leaves the queue, in order, and nothing else does.
use emu_sa80535_n.Base.{
  ℕ, zero, suc, ◌+◌, ◌-◌, ◌%◌, ◌≤◌, ◌<◌, ◌≡◌, Bool, true, false, Option, none, some, List, [], ◌∷◌,
  arith, ltb, ◌==◌, if◌then◌else◌, inl, inr, refl, sym, ap, subst, ◌∙◌, Bool-cases, update, u8,
  compl, bit_and, bit_or,
}
use emu_sa80535_n.Cpu.{
  Cpu, Host, Variant, ScheduleEvent, Ports, ScheduleAction, drive, release, is_sab,
}
use emu_sa80535_n.Pins.{external_pin, port_index}
use emu_sa80535_n.External.{
  external_sample_port, port_drive, port_release, external_drive, external_release,
}
use emu_sa80535_n.External.Frame.{View, external_sample_port-view}
use emu_sa80535_n.Schedule.{
  apply_action, external_apply_event, apply_due, external_apply_scheduled, schedule_capacity,
  set_ports,
}
use emu_sa80535_n.Schedule.Fifo.{queued, events, IsRing}

-- The variant, the time with the pending cycles, and the queue.
abbrev pub Timing : Type 0
Timing = (Variant × ℕ × ℕ) × ((ℕ → ScheduleEvent) × ℕ × ℕ)

abbrev pub timing : Cpu → Timing
timing c = (
  (c.variant, c.machine_cycle_count, c.tick_delay),
  (c.ports.schedule, c.ports.schedule_head, c.ports.schedule_count),
)

external_sample_port-timing :
    (host : Host) (port : ℕ) (c : Cpu) → timing (external_sample_port host port c) ≡ timing c
external_sample_port-timing host port c =
    ap (λ (v : View). (v.0, v.1)) (external_sample_port-view host port c)

module _ (host : Host) where
  port_drive-timing :
      (port mask levels : ℕ) (c : Cpu) → timing (port_drive host port mask levels c).1 ≡ timing c
  unfolding port_drive
  port_drive-timing port mask levels c = go (port_index c port)
    where
      stored : ℕ → Cpu
      stored i =
          let p : Ports = c.ports in
          record c {
            ports = record p {
              external_levels =
                  update p.external_levels i
                    (bit_or (bit_and (p.external_levels i) (compl mask)) (bit_and levels mask));
              external_mask = update p.external_mask i (bit_or (p.external_mask i) mask);
            };
          }

      go :
          (o : Option ℕ)
          → timing
              (elim o as (λ _. Bool × Cpu) [
                | none ↦ (false, c)
                | some i ↦ (true, external_sample_port host port (stored i))
              ]).1
            ≡ timing c
      go none = refl
      go (some i) = external_sample_port-timing host port (stored i)

  port_release-timing :
      (port mask : ℕ) (c : Cpu) → timing (port_release host port mask c).1 ≡ timing c
  unfolding port_release
  port_release-timing port mask c = go (port_index c port)
    where
      stored : ℕ → Cpu
      stored i =
          let p : Ports = c.ports in
          record c {
            ports = record p {
              external_mask = update p.external_mask i (bit_and (p.external_mask i) (compl mask));
              external_levels =
                  update p.external_levels i (bit_and (p.external_levels i) (compl mask));
            };
          }

      go :
          (o : Option ℕ)
          → timing
              (elim o as (λ _. Bool × Cpu) [
                | none ↦ (false, c)
                | some i ↦ (true, external_sample_port host port (stored i))
              ]).1
            ≡ timing c
      go none = refl
      go (some i) = external_sample_port-timing host port (stored i)

  external_drive-timing :
      (source : ℕ) (level : Bool) (c : Cpu)
      → timing (external_drive host source level c).1 ≡ timing c
  unfolding external_drive
  external_drive-timing source level c = go (is_sab c.variant) (external_pin source)
    where
      go :
          (b : Bool) (o : Option (ℕ × ℕ))
          → timing
              (if b
                then elim o as (λ _. Bool × Cpu) [
                  | none ↦ (false, c)
                  | some x ↦ port_drive host x.0 x.1 (if level then x.1 else 0) c
                ]
                else (false, c)).1
            ≡ timing c
      go false o = refl
      go true none = refl
      go true (some x) = port_drive-timing x.0 x.1 (if level then x.1 else 0) c

  external_release-timing :
      (source : ℕ) (c : Cpu) → timing (external_release host source c).1 ≡ timing c
  unfolding external_release
  external_release-timing source c = go (is_sab c.variant) (external_pin source)
    where
      go :
          (b : Bool) (o : Option (ℕ × ℕ))
          → timing
              (if b
                then elim o as (λ _. Bool × Cpu) [
                  | none ↦ (false, c)
                  | some x ↦ port_release host x.0 x.1 c
                ]
                else (false, c)).1
            ≡ timing c
      go false o = refl
      go true none = refl
      go true (some x) = port_release-timing x.0 x.1 c

  pub external_apply_event-timing :
      (e : ScheduleEvent) (c : Cpu) → timing (external_apply_event host e c).1 ≡ timing c
  unfolding external_apply_event
  external_apply_event-timing e c = go e.action
    where
      go : (a : ScheduleAction) → timing (apply_action host a e c).1 ≡ timing c
      go drive = external_drive-timing e.source e.level c
      go release = external_release-timing e.source c

-- What is left of a queue once the events up to `now` have happened.
unfoldable pub drop_due : ℕ → List ScheduleEvent → List ScheduleEvent
drop_due now [] = []
drop_due now (x ∷ rest) = if ltb now x.machine_cycle then x ∷ rest else drop_due now rest

-- The queue after a round, by cases on the queue before it.
events-suc :
    (f : ℕ → ScheduleEvent) (head count : ℕ)
    → 0 < count
    → queued f head count ≡ f head ∷ queued f ((head + 1) % 64) (count - 1)
unfolding queued
events-suc f head zero h = absurd (omega arith)
events-suc f head (suc m) h = let e : suc m - 1 ≡ m = omega arith in rw e refl

events-zero : (f : ℕ → ScheduleEvent) (head count : ℕ) → count ≡ 0 → queued f head count ≡ []
unfolding queued
events-zero f head count e = ap (λ n. queued f head n) e

drop_due-zero : (now : ℕ) (l : List ScheduleEvent) → l ≡ [] → l ≡ drop_due now l
unfolding drop_due
drop_due-zero now l e = subst (λ k. k ≡ drop_due now k) (sym e) refl

drop_due-later :
    (now : ℕ) (l : List ScheduleEvent) (x : ScheduleEvent) (rest : List ScheduleEvent)
    → l ≡ x ∷ rest
    → ltb now x.machine_cycle ≡ true
    → l ≡ drop_due now l
unfolding drop_due
drop_due-later now l x rest e later = subst (λ k. k ≡ drop_due now k) (sym e) (rw later refl)

drop_due-now :
    (now : ℕ) (l : List ScheduleEvent) (x : ScheduleEvent) (rest : List ScheduleEvent)
    → l ≡ x ∷ rest
    → ltb now x.machine_cycle ≡ false
    → drop_due now rest ≡ drop_due now l
unfolding drop_due
drop_due-now now l x rest e due =
    subst (λ k. drop_due now rest ≡ drop_due now k) (sym e) (rw due refl)

abbrev IsDrained : Cpu → Cpu → Type 0
IsDrained c d =
    (events d.ports ≡ drop_due c.machine_cycle_count (events c.ports))
    × IsRing d.ports
    × (d.machine_cycle_count ≡ c.machine_cycle_count)

module _ (host : Host) where
  popped : Cpu → Cpu
  popped c =
      let p : Ports = c.ports in
      set_ports
        (record p {
          schedule_head = u8 ((p.schedule_head + 1) % schedule_capacity);
          schedule_count = p.schedule_count - 1;
        })
        c

  apply_due-IsDrained :
      (fuel : ℕ) (c : Cpu)
      → is_sab c.variant ≡ true
      → IsRing c.ports
      → c.ports.schedule_count ≤ fuel
      → IsDrained c (apply_due host fuel c)
  unfolding apply_due popped
  apply_due-IsDrained zero c sab ring enough = (
    drop_due-zero c.machine_cycle_count (events c.ports)
        (events-zero c.ports.schedule c.ports.schedule_head c.ports.schedule_count (omega arith)),
    ring,
    refl,
  )
  apply_due-IsDrained (suc fuel) c sab (h, n) enough =
      let p : Ports = c.ports in
      let event = p.schedule p.schedule_head in
      let next = (external_apply_event host event (popped c)).1 in
      let same : timing next ≡ timing (popped c) =
        external_apply_event-timing host event (popped c) in
      let now = c.machine_cycle_count in
      let head' : u8 ((p.schedule_head + 1) % 64) ≡ (p.schedule_head + 1) % 64 = omega arith in
      let queue : events next.ports
          ≡ queued p.schedule ((p.schedule_head + 1) % 64) (p.schedule_count - 1) =
        ap (λ (t : Timing). queued t.1.0 t.1.1 t.1.2) same
        ∙ ap (λ k. queued p.schedule k (p.schedule_count - 1)) head' in
      let count' : next.ports.schedule_count ≡ p.schedule_count - 1 =
        ap (λ (t : Timing). t.1.2) same in
      let place : next.ports.schedule_head ≡ u8 ((p.schedule_head + 1) % 64) =
        ap (λ (t : Timing). t.1.1) same in
      let time : next.machine_cycle_count ≡ now = ap (λ (t : Timing). t.0.1) same in
      let (left, ring, clock) =
        apply_due-IsDrained fuel next (ap (λ (t : Timing). is_sab t.0.0) same ∙ sab)
          (omega arith, omega arith) (omega arith) in
      elim (Bool-cases (p.schedule_count == 0)) [
        | inl empty ↦
            rw (sab, empty)
              (
                drop_due-zero now (events p)
                    (events-zero p.schedule p.schedule_head p.schedule_count (ground arith)),
                (h, n),
                refl,
              )
        | inr some_left ↦
            let split = events-suc p.schedule p.schedule_head p.schedule_count (ground arith) in
            elim (Bool-cases (ltb now event.machine_cycle)) [
              | inl later ↦
                  rw (sab, some_left, later)
                    (drop_due-later now (events p) event _ split later, (h, n), refl)
              | inr due ↦
                  rw (sab, some_left, due)
                    (
                      left
                          ∙ ap (λ k. drop_due k (events next.ports)) time
                          ∙ ap (λ l. drop_due now l) queue
                          ∙ drop_due-now now (events p) event _ split due,
                      ring,
                      clock ∙ time,
                    )
            ]
      ]

  -- On a SAB80535 the round that starts a machine cycle takes exactly the events that are due off
  -- the front of the queue, whatever they do to the pins; those that stay are in their order.
  pub external_apply_scheduled-events :
      (c : Cpu)
      → is_sab c.variant ≡ true
      → IsRing c.ports
      → let d = external_apply_scheduled host c in
        (events d.ports ≡ drop_due c.machine_cycle_count (events c.ports)) × IsRing d.ports
  unfolding external_apply_scheduled
  external_apply_scheduled-events c sab ring =
      let c1 = apply_due host c.ports.schedule_count c in
      let (left, (h, n), _) = apply_due-IsDrained c.ports.schedule_count c sab ring (omega arith) in
      elim (Bool-cases (c1.ports.schedule_count == 0)) [
        | inl empty ↦
            let none_left : c1.ports.schedule_count ≡ 0 = ground arith in
            rw empty (
              events-zero c1.ports.schedule 0 c1.ports.schedule_count none_left
                  ∙ sym (
                      events-zero c1.ports.schedule c1.ports.schedule_head c1.ports.schedule_count
                        none_left)
                  ∙ left,
              (omega arith, n),
            )
        | inr some_left ↦ rw some_left (left, (h, n))
      ]
