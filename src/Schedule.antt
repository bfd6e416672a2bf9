-- ===== src/Schedule.antt =====
-- The bounded queue of external stimuli in core.c: a ring of 64 events in order of their time.
pub mod Fifo
pub mod Due
use emu_sa80535_n.Base.{ℕ, zero, suc, ◌+◌, ◌-◌, ◌%◌, Bool, true, false}
use emu_sa80535_n.Base.{◌==◌, ltb, leb, ◌||◌, ◌&&◌, not, if◌then◌else◌, u8, update}
use emu_sa80535_n.Cpu.{Cpu, Ports, ScheduleEvent, ScheduleAction, drive, release, Host, is_sab}
use emu_sa80535_n.Pins.{external_source_count}
use emu_sa80535_n.External.{external_drive, external_release}

abbrev pub schedule_capacity : ℕ
schedule_capacity = 64

abbrev pub set_ports : Ports → Cpu → Cpu
set_ports p c = record c { ports = p }

-- The slot `k` places behind the head.
abbrev pub slot : Ports → ℕ → ℕ
slot p k = u8 ((p.schedule_head + k) % schedule_capacity)

-- The entry that `em8051_sab_external_schedule` makes when the event lies in the future.
unfoldable pub enqueue : ScheduleEvent → Ports → Bool × Ports
enqueue event p =
    let full = leb schedule_capacity p.schedule_count in
    let last = u8 ((p.schedule_head + p.schedule_count - 1) % schedule_capacity) in
    let early = ltb event.machine_cycle (p.schedule last).machine_cycle in
    if not (p.schedule_count == 0) && early then (false, p) else if full then (false, p) else (
      true,
      record p {
        schedule = update p.schedule (slot p p.schedule_count) event;
        schedule_count = u8 (p.schedule_count + 1);
      },
    )

module _ (host : Host) where
  abbrev pub apply_action : ScheduleAction → ScheduleEvent → Cpu → Bool × Cpu
  apply_action drive event c = external_drive host event.source event.level c
  apply_action release event c = external_release host event.source c

  -- `sab_external_apply_event`.
  unfoldable pub external_apply_event : ScheduleEvent → Cpu → Bool × Cpu
  external_apply_event event c = apply_action event.action event c

  -- `em8051_sab_external_schedule`.
  unfoldable pub external_schedule : ScheduleEvent → Cpu → Bool × Cpu
  unfolding external_apply_event enqueue
  external_schedule event c =
      let (accepted, p) = enqueue event c.ports in
      if not (is_sab c.variant)
        || leb external_source_count event.source
        || ltb event.machine_cycle c.machine_cycle_count
      then (false, c)
      else if event.machine_cycle == c.machine_cycle_count
      then external_apply_event event c
      else (accepted, set_ports p c)

  -- `em8051_sab_external_clear_schedule`.
  unfoldable pub external_clear_schedule : Cpu → Cpu
  external_clear_schedule c =
      let p : Ports = c.ports in
      if is_sab c.variant
      then set_ports (record p { schedule_head = 0; schedule_count = 0 }) c
      else c

  -- The loop of `sab_external_apply_scheduled`. Each round takes one event off the queue, and an
  -- event changes neither the queue nor the time, so the number of queued events is enough fuel.
  unfoldable pub apply_due : ℕ → Cpu → Cpu
  apply_due zero c = c
  apply_due (suc fuel) c =
      let p : Ports = c.ports in
      let event = p.schedule p.schedule_head in
      let popped =
        set_ports
          (record p {
            schedule_head = u8 ((p.schedule_head + 1) % schedule_capacity);
            schedule_count = p.schedule_count - 1;
          })
          c in
      let rest = apply_due fuel (external_apply_event event popped).1 in
      if not (is_sab c.variant && not (p.schedule_count == 0))
      then c
      else if ltb c.machine_cycle_count event.machine_cycle
      then c
      else rest

  -- `sab_external_apply_scheduled`.
  unfoldable pub external_apply_scheduled : Cpu → Cpu
  unfolding apply_due
  external_apply_scheduled c =
      let c1 = apply_due c.ports.schedule_count c in
      let p : Ports = c1.ports in
      if p.schedule_count == 0 then set_ports (record p { schedule_head = 0 }) c1 else c1

-- `em8051_sab_external_scheduled_count`.
unfoldable pub external_scheduled_count : Cpu → ℕ
external_scheduled_count c = if is_sab c.variant then c.ports.schedule_count else 0
