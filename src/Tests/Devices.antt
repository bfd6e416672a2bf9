-- ===== src/Tests/Devices.antt =====
-- The theorems on the ports, the schedule, the timers, the UART and the converter, at concrete
-- states.
use emu_sa80535_n.Base.{
  ℕ, suc, ◌+◌, ◌-◌, ◌*◌, ◌/◌, ◌<◌, ◌≡◌, ◌==◌, arith, refl, true, some, update, if◌then◌else◌, [],
  ◌∷◌, ◌++◌, min,
}
use emu_sa80535_n.Base.Bits.{bit}
use emu_sa80535_n.Cpu.{Cpu, Ports, ScheduleEvent}
use emu_sa80535_n.Cpu.Regs.{
  reg_tmod, reg_tcon, reg_tl0, reg_th0, reg_sbuf, reg_scon, reg_p3, sfr_index, sfr_p1, sfr_dapr,
}
use emu_sa80535_n.Pins.{port_get_pins, port_index}
use emu_sa80535_n.External.{port_drive}
use emu_sa80535_n.External.Drive.{port_drive-pins}
use emu_sa80535_n.Schedule.{enqueue, external_apply_scheduled}
use emu_sa80535_n.Schedule.Fifo.{queued, events, IsRing, IsOrdered, enqueue-events}
use emu_sa80535_n.Schedule.Due.{drop_due, external_apply_scheduled-events}
use emu_sa80535_n.Timers.{timer0_tick, timer_runs, serial_tx}
use emu_sa80535_n.Timers.Serial.{serial_tx-level}
use emu_sa80535_n.Timers.Count.{value0, timer0_tick-counts}
use emu_sa80535_n.Uart.{uart_divider_step, uart_rx_boundary}
use emu_sa80535_n.Uart.Divider.{phase_after, uart_divider_step-period}
use emu_sa80535_n.Uart.Receive.{IsReceived, is_taken, uart_rx_boundary-IsReceived}
use emu_sa80535_n.Uart.Transmit.{IsSending, boundaries, uart_tx_boundary-IsSending}
use emu_sa80535_n.Adc.{adc_convert, adc_references_valid}
use emu_sa80535_n.Adc.Convert.{adc_convert_lem}
use emu_sa80535_n.Adc.Cycle.{IsConverting, IsConverted, ticks, adc_tick-IsConverted}
use emu_sa80535_n.Tests.Machine.{
  bare_host, machine, machine_with, quiet_ports, quiet_uart, quiet_adc, quiet_classic, no_event,
  zeros,
}

-- The latch of P1 is 0xff; its two lowest pins are driven, low and high.
abbrev driven_ports : Ports
driven_ports = record quiet_ports {
  external_mask = update zeros 0 0x03;
  external_levels = update zeros 0 0x02;
}

abbrev driven : Cpu
driven = record (machine_with (sfr_index sfr_p1) 0xff) { ports = driven_ports }

driven-index : port_index driven sfr_p1 ≡ some 0
unfolding port_index
driven-index = refl

driven-pins : port_get_pins driven sfr_p1 ≡ some 0xfe
unfolding port_get_pins
driven-pins = refl

port_drive-pins_example :
    let (done, d) = port_drive bare_host sfr_p1 0x06 0x04 driven in
    (done ≡ true)
    × (after : ℕ) × (port_get_pins d sfr_p1 ≡ some after)
    × ((k : ℕ)
        → k < 8
        → bit after k ≡ (if bit 0x06 k == 1 then min (bit 0xff k) (bit 0x04 k) else bit 0xfe k))
port_drive-pins_example =
    port_drive-pins bare_host driven sfr_p1 0 0x06 0xfe driven-index driven-pins (omega arith)
      (omega arith) 0x04

-- Two events, at 40 and at 90, in the last slot of the ring and the first.
abbrev event_at : ℕ → ScheduleEvent
event_at time = record no_event { machine_cycle = time }

abbrev two_events : Ports
two_events = record quiet_ports {
  schedule = update (update (λ _. no_event) 63 (event_at 40)) 0 (event_at 90);
  schedule_head = 63;
  schedule_count = 2;
}

two_events-IsOrdered : IsOrdered (events two_events)
unfolding IsOrdered queued
two_events-IsOrdered = (omega arith, omega arith)

enqueue-events_example :
    let (accepted, q) = enqueue (event_at 95) two_events in
    IsRing q
    × IsOrdered (events q)
    × (events q ≡ (if accepted then events two_events ++ (event_at 95 ∷ []) else events two_events))
    × (accepted ≡ true)
enqueue-events_example =
    enqueue-events (event_at 95) two_events (omega arith, omega arith) two_events-IsOrdered

-- At cycle 40 the first of the two is due.
abbrev scheduled : Cpu
scheduled = record (machine_with (sfr_index sfr_p1) 0xff) { ports = two_events }

external_apply_scheduled-events_example :
    let d = external_apply_scheduled bare_host scheduled in
    (events d.ports ≡ drop_due 40 (events two_events)) × IsRing d.ports
external_apply_scheduled-events_example =
    external_apply_scheduled-events bare_host scheduled refl (omega arith, omega arith)

-- Timer 0 runs in mode 1 and is about to wrap.
abbrev wrapping : Cpu
wrapping =
    machine
      (update (update (update (update zeros reg_tmod 0x01) reg_tcon 0x10) reg_tl0 0xff) reg_th0
        0xff)
      zeros

wrapping-runs : timer_runs wrapping 0x08 0x10 0x04 ≡ true
unfolding timer_runs
wrapping-runs = refl

timer0_tick-counts_example :
    let d = timer0_tick bare_host wrapping in
    (value0 d ≡ 0) × ((i : ℕ) → i < 8 → bit (d.sfr reg_tcon) i ≡ (if i == 5 then 1 else bit 0x10 i))
timer0_tick-counts_example =
    timer0_tick-counts bare_host wrapping wrapping-runs refl (omega arith) (omega arith)
      (omega arith)

-- Three bits of 0x50 are left; the next one is clear.
abbrev shifting : Cpu
shifting = record (machine_with reg_sbuf 0x50) {
  classic = record quiet_classic { serial_out_remaining_bits = 4 };
}

serial_tx-level_example : bit ((serial_tx bare_host shifting).sfr reg_p3) 1 ≡ 1
serial_tx-level_example = serial_tx-level bare_host shifting (omega arith) (omega arith)

uart_divider_step-period_example : (uart_divider_step (phase_after 30 17 true) true).1 ≡ true
uart_divider_step-period_example = uart_divider_step-period 30 17 true (omega arith)

-- The receiver is at its ninth boundary with a frame whose ninth bit is set.
abbrev receiving : Cpu
receiving = record (machine_with reg_scon 0xf0) {
  uart = record quiet_uart {
    rx_active = true;
    rx_bit_index = 9;
    rx_pending_data = 0x41;
    rx_pending_ninth = true;
  };
}

uart_rx_boundary-IsReceived_example :
    IsReceived
      (is_taken (receiving.sfr reg_scon) receiving.uart.rx_pending_ninth)
      receiving
      (uart_rx_boundary bare_host 41 receiving)
uart_rx_boundary-IsReceived_example =
    uart_rx_boundary-IsReceived bare_host 41 receiving refl (omega arith)

-- A frame is pending.
abbrev sending : Cpu
sending = record (machine_with reg_scon 0xd8) {
  uart = record quiet_uart { tx_pending = true; tx_pending_data = 0x35; tx_pending_ninth = true };
}

uart_tx_boundary-IsSending_example :
    IsSending (λ k. 41 + k) 10 sending (boundaries bare_host (λ k. 41 + k) 10 sending)
uart_tx_boundary-IsSending_example =
    uart_tx_boundary-IsSending bare_host (λ k. 41 + k) 10 sending (omega arith) refl refl

sample_references : adc_references_valid 0xc4 ≡ true
unfolding adc_references_valid
sample_references = refl

adc_convert_lem_example :
    adc_convert 30000 0xc4 ≡ (16 * 30000 - 65535 * 4) * 256 / (65535 * 12 - 65535 * 4)
adc_convert_lem_example = adc_convert_lem 30000 0xc4 (omega arith) (omega arith) sample_references

-- A conversion of channel 0 is armed.
abbrev converting : Cpu
converting = record (machine_with (sfr_index sfr_dapr) 0xc4) {
  adc = record quiet_adc { inputs = λ _. 30000; armed = true };
}

adc_tick-IsConverted_example :
    ((k : ℕ) → k < 14 → IsConverting (suc k) converting (ticks bare_host (suc k) converting))
    × IsConverted converting (ticks bare_host 15 converting)
adc_tick-IsConverted_example = adc_tick-IsConverted bare_host converting refl refl refl
