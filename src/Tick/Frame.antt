-- ===== src/Tick/Frame.antt =====
-- The peripherals leave the pending cycles of an instruction alone.
use emu_sa80535_n.Base.{
  ℕ, zero, suc, ◌+◌, ◌-◌, ◌%◌, ◌≡◌, Bool, true, false, if◌then◌else◌, not, ◌||◌, ◌&&◌, refl, ap,
  ◌∙◌, arith, ltb, ◌==◌, u8, u64, has,
}
use emu_sa80535_n.Base.{bit_and, bit_or, compl, u16, ◌<<<◌, ◌>>>◌}
use emu_sa80535_n.Cpu.Regs.{
  reg_pcon, reg_tmod, reg_tcon, reg_scon, reg_tl0, reg_th0, reg_tl1, reg_th1, sfr_index, sfr_t2con,
  sfr_tl2, sfr_th2, sfr_ircon, sfr_addat,
}
use emu_sa80535_n.Cpu.Masks.{
  pcon_smod, tcon_tf0, tcon_tf1, tmod_m0_1, tmod_m1_1, tmod_ct_1, tmod_gate_1, tcon_tr1, scon_sm1,
  t2con_t2i0, t2con_t2i1, t2con_t2r1, t2con_t2ps, ircon_tf2, ircon_iadc,
}
use emu_sa80535_n.Cpu.{Adc, irq_write, set_sfr}
use emu_sa80535_n.Cpu.{
  Uart, Cpu, Host, Timer, timer0, timer1, timer2, is_sab, execution_aborted, Ports,
}
use emu_sa80535_n.Uart.{
  uart_mode3, uart_divider_step, set_uart, uart_tx_start, uart_tx_boundary, uart_rx_boundary,
  uart_timer1_overflow,
}
use emu_sa80535_n.IrqSync.{irq_sync, maintain_level_requests}
use emu_sa80535_n.External.Frame.{View, irq_sync-view, maintain_level_requests-view}
use emu_sa80535_n.Adc.{set_adc, adc_set_busy, adc_convert, adc_tick, adc_begin, adc_finish}
use emu_sa80535_n.Schedule.{
  apply_due, external_apply_event, external_apply_scheduled, set_ports, schedule_capacity,
}
use emu_sa80535_n.Schedule.Due.{Timing, external_apply_event-timing}
use emu_sa80535_n.Tick.{advance_machine_cycle}
use emu_sa80535_n.Timers.{
  count5, count8, timer_runs, timer0_mode3, raise_tf1, raise_tcon, count_overflow,
  timer_overflow_emit, mode3_tick, timer0_tick, timer1_count, serial_tx, timer1_tick, timer_tick,
  timer2_tick,
}

-- Both branches of a conditional have the same pending cycles.
if-delay :
    (n : ℕ) (b : Bool) (x y : Cpu)
    → x.tick_delay ≡ n
    → y.tick_delay ≡ n
    → (if b then x else y).tick_delay ≡ n
if-delay n true x y e f = e
if-delay n false x y e f = f

irq_sync-delay : (c : Cpu) → (irq_sync c).tick_delay ≡ c.tick_delay
irq_sync-delay c = ap (λ (v : View). v.0.2) (irq_sync-view c)

mode3_tick-delay : (c : Cpu) → (mode3_tick c).tick_delay ≡ c.tick_delay
unfolding mode3_tick
mode3_tick-delay c = ground arith

module _ (host : Host) where
  uart_tx_start-delay : (k : ℕ) (c : Cpu) → (uart_tx_start host k c).tick_delay ≡ c.tick_delay
  unfolding uart_tx_start
  uart_tx_start-delay k c = refl

  uart_tx_boundary-delay : (k : ℕ) (c : Cpu) → (uart_tx_boundary host k c).tick_delay ≡ c.tick_delay
  unfolding uart_tx_boundary
  uart_tx_boundary-delay k c = ground arith

  uart_rx_boundary-delay : (k : ℕ) (c : Cpu) → (uart_rx_boundary host k c).tick_delay ≡ c.tick_delay
  unfolding uart_rx_boundary
  uart_rx_boundary-delay k c = ground arith

  serial_tx-delay : (c : Cpu) → (serial_tx host c).tick_delay ≡ c.tick_delay
  unfolding serial_tx
  serial_tx-delay c = ground arith

  uart_timer1_overflow-delay : (c : Cpu) → (uart_timer1_overflow host c).tick_delay ≡ c.tick_delay
  unfolding uart_timer1_overflow
  uart_timer1_overflow-delay c =
      let smod = has (c.sfr reg_pcon) pcon_smod in
      let cycle = u64 (c.machine_cycle_count + 1) in
      let u : Uart = c.uart in
      let tx = uart_divider_step u.divider_phase smod in
      let c1 = set_uart (record u { divider_phase = tx.0 }) c in
      let c2 = if tx.1 then uart_tx_boundary host cycle c1 else c1 in
      let v : Uart = c2.uart in
      let rx = uart_divider_step v.rx_divider_phase smod in
      let c3 = set_uart (record v { rx_divider_phase = rx.0 }) c2 in
      let sent : c2.tick_delay ≡ c.tick_delay =
        if-delay c.tick_delay tx.1 _ c1 (uart_tx_boundary-delay cycle c1) refl in
      if-delay c.tick_delay (not (uart_mode3 c)) c _ refl (
        if-delay c.tick_delay (execution_aborted c2) c2 _ sent (
          if-delay c.tick_delay v.rx_active _ c2
            (if-delay c.tick_delay rx.1 _ c3 (uart_rx_boundary-delay cycle c3 ∙ sent) sent) sent))

  timer_overflow_emit-delay :
      (t : Timer) (c : Cpu) → (timer_overflow_emit host t c).tick_delay ≡ c.tick_delay
  unfolding timer_overflow_emit
  timer_overflow_emit-delay timer0 c = ground arith
  timer_overflow_emit-delay timer1 c =
      let c1 = count_overflow timer1 c in
      let c2 = if is_sab c1.variant then uart_timer1_overflow host c1 else c1 in
      let sent : c2.tick_delay ≡ c.tick_delay =
        if-delay c.tick_delay (is_sab c1.variant) _ c1 (uart_timer1_overflow-delay c1) refl in
      if-delay c.tick_delay (execution_aborted c2) c2 _ sent sent
  timer_overflow_emit-delay timer2 c = ground arith

  timer0_tick-delay : (c : Cpu) → (timer0_tick host c).tick_delay ≡ c.tick_delay
  unfolding timer0_tick
  timer0_tick-delay c =
      let low8 = (count8 reg_tl0 c).1 in
      let high8 = (count8 reg_th0 low8).1 in
      ground (arith, timer_overflow_emit-delay timer0 (raise_tcon tcon_tf0 high8))

  raise_tf1-delay : (c : Cpu) → (raise_tf1 host c).tick_delay ≡ c.tick_delay
  raise_tf1-delay c = if-delay c.tick_delay (timer0_mode3 c) c (raise_tcon tcon_tf1 c) refl refl

  timer1_count-delay : (c : Cpu) → (timer1_count host c).tick_delay ≡ c.tick_delay
  unfolding timer1_count
  timer1_count-delay c =
      let n = c.tick_delay in
      let mode = bit_and (c.sfr reg_tmod) (bit_or tmod_m0_1 tmod_m1_1) in
      let (over5, low5) = count5 reg_tl1 c in
      let (high_over5, high5) = count8 reg_th1 low5 in
      let (over8, low8) = count8 reg_tl1 c in
      let (high_over8, high8) = count8 reg_th1 low8 in
      let reloaded = set_sfr reg_tl1 (low8.sfr reg_th1) low8 in
      let emitted = timer_overflow_emit host timer1 (raise_tcon tcon_tf1 reloaded) in
      let carry5 = if high_over5 then raise_tf1 host high5 else high5 in
      let carry8 = if high_over8 then raise_tf1 host high8 else high8 in
      let wrapped = if timer0_mode3 reloaded then reloaded else emitted in
      let count5_delay =
        if-delay n high_over5 (raise_tf1 host high5) high5 (raise_tf1-delay high5) refl in
      let count8_delay =
        if-delay n high_over8 (raise_tf1 host high8) high8 (raise_tf1-delay high8) refl in
      let wrapped_delay =
        if-delay n (timer0_mode3 reloaded) reloaded emitted refl
          (timer_overflow_emit-delay timer1 (raise_tcon tcon_tf1 reloaded)) in
      if-delay n (mode == 0) (if not over5 then low5 else carry5) _
        (if-delay n (not over5) low5 carry5 refl count5_delay)
        (if-delay n (mode == tmod_m0_1) (if not over8 then low8 else carry8) _
          (if-delay n (not over8) low8 carry8 refl count8_delay)
          (if-delay n (mode == tmod_m1_1) (if not over8 then low8 else wrapped) c
            (if-delay n (not over8) low8 wrapped refl wrapped_delay) refl))

  timer1_tick-delay : (c : Cpu) → (timer1_tick host c).tick_delay ≡ c.tick_delay
  unfolding timer1_tick
  timer1_tick-delay c =
      let n = c.tick_delay in
      let c1 = timer1_count host c in
      let c2 = serial_tx host c1 in
      let sent = set_sfr reg_tcon (bit_and (c2.sfr reg_tcon) (compl tcon_tf1)) c2 in
      let shortcut =
        not (is_sab c1.variant)
        && has (c1.sfr reg_tcon) tcon_tf1
        && has (c1.sfr reg_scon) scon_sm1 in
      let counted = timer1_count-delay c in
      if-delay n (not (timer_runs c tmod_gate_1 tcon_tr1 tmod_ct_1)) c _ refl
        (if-delay n shortcut sent c1 (serial_tx-delay c1 ∙ counted) counted)

  timer_tick-delay : (c : Cpu) → (timer_tick host c).tick_delay ≡ c.tick_delay
  unfolding timer_tick
  timer_tick-delay c =
      let c1 = timer0_tick host (mode3_tick c) in
      let e : c1.tick_delay ≡ c.tick_delay =
        timer0_tick-delay (mode3_tick c) ∙ mode3_tick-delay c in
      if-delay c.tick_delay (execution_aborted c1) c1 _ e (timer1_tick-delay c1 ∙ e)

  timer2_tick-delay : (c : Cpu) → (timer2_tick host c).tick_delay ≡ c.tick_delay
  unfolding timer2_tick
  timer2_tick-delay c =
      let n = c.tick_delay in
      let t2con = c.sfr (sfr_index sfr_t2con) in
      let tl2 = sfr_index sfr_tl2 in
      let th2 = sfr_index sfr_th2 in
      let ircon = sfr_index sfr_ircon in
      let value = u16 (bit_or (c.sfr th2 <<< 8) (c.sfr tl2) + 1) in
      let counted = set_sfr th2 (u8 (value >>> 8)) (set_sfr tl2 (bit_and value 0xff) c) in
      let flagged = irq_write ircon (bit_or (counted.sfr ircon) ircon_tf2) counted in
      let emitted = timer_overflow_emit host timer2 flagged in
      let sent = timer_overflow_emit-delay timer2 flagged in
      let answered = if execution_aborted emitted then emitted else irq_sync emitted in
      let on_time = has t2con t2con_t2ps && has (u64 (c.machine_cycle_count + 1)) 1 in
      if-delay n (not (is_sab c.variant)) c _ refl (
        if-delay n (not (bit_and t2con (bit_or t2con_t2i1 t2con_t2i0) == t2con_t2i0)) c _ refl (
          if-delay n (has t2con t2con_t2r1) c _ refl (
            if-delay n on_time c _ refl (
              if-delay n (value == 0) answered counted
                (if-delay n (execution_aborted emitted) emitted (irq_sync emitted) sent
                  (irq_sync-delay emitted ∙ sent))
                refl))))

  adc_begin-delay : (cycle : ℕ) (c : Cpu) → (adc_begin host cycle c).tick_delay ≡ c.tick_delay
  unfolding adc_begin
  adc_begin-delay cycle c = refl

  adc_finish-delay : (cycle : ℕ) (c : Cpu) → (adc_finish host cycle c).tick_delay ≡ c.tick_delay
  unfolding adc_finish
  adc_finish-delay cycle c =
      let a : Adc = c.adc in
      let stored = set_sfr (sfr_index sfr_addat) (adc_convert a.latched_input a.latched_dapr) c in
      let c1 = if a.reference_valid then stored else c in
      let c2 = adc_set_busy false (set_adc (record a { active = false }) c1) in
      let flagged =
        irq_write (sfr_index sfr_ircon) (bit_or (c2.sfr (sfr_index sfr_ircon)) ircon_iadc) c2 in
      irq_sync-delay flagged ∙ if-delay c.tick_delay a.reference_valid stored c refl refl

  adc_tick-delay : (c : Cpu) → (adc_tick host c).tick_delay ≡ c.tick_delay
  unfolding adc_tick
  adc_tick-delay c =
      let n = c.tick_delay in
      let a : Adc = c.adc in
      let cycle = u64 (c.machine_cycle_count + 1) in
      let counted = set_adc (record a { cycles = u8 (a.cycles + 1) }) c in
      if-delay n (not (is_sab c.variant) || a.start_pending) c _ refl (
        if-delay n a.armed (adc_begin host cycle c) _ (adc_begin-delay cycle c) (
          if-delay n (not a.active) c _ refl (
            if-delay n (ltb (u8 (a.cycles + 1)) 15) counted (adc_finish host cycle counted) refl
              (adc_finish-delay cycle counted))))

  apply_due-delay : (fuel : ℕ) (c : Cpu) → (apply_due host fuel c).tick_delay ≡ c.tick_delay
  unfolding apply_due
  apply_due-delay zero c = refl
  apply_due-delay (suc fuel) c =
      let p : Ports = c.ports in
      let event = p.schedule p.schedule_head in
      let popped =
        set_ports
          (record p {
            schedule_head = u8 ((p.schedule_head + 1) % schedule_capacity);
            schedule_count = p.schedule_count - 1;
          })
          c in
      let next = (external_apply_event host event popped).1 in
      let applied = ap (λ (t : Timing). t.0.2) (external_apply_event-timing host event popped) in
      if-delay c.tick_delay (not (is_sab c.variant && not (p.schedule_count == 0))) c _ refl (
        if-delay c.tick_delay (ltb c.machine_cycle_count event.machine_cycle) c
          (apply_due host fuel next) refl (apply_due-delay fuel next ∙ applied))

  external_apply_scheduled-delay :
      (c : Cpu) → (external_apply_scheduled host c).tick_delay ≡ c.tick_delay
  unfolding external_apply_scheduled
  external_apply_scheduled-delay c =
      let c1 = apply_due host c.ports.schedule_count c in
      let p : Ports = c1.ports in
      let applied = apply_due-delay c.ports.schedule_count c in
      if-delay c.tick_delay (p.schedule_count == 0) (set_ports (record p { schedule_head = 0 }) c1)
        c1 applied applied

  pub advance_machine_cycle-delay :
      (c : Cpu) → (advance_machine_cycle host c).tick_delay ≡ c.tick_delay
  unfolding advance_machine_cycle
  advance_machine_cycle-delay c =
      let n = c.tick_delay in
      let c1 = timer_tick host c in
      let c2 = timer2_tick host c1 in
      let c3 = adc_tick host c2 in
      let c4 = record c3 { machine_cycle_count = u64 (c3.machine_cycle_count + 1) } in
      let e1 : c1.tick_delay ≡ n = timer_tick-delay c in
      let e2 : c2.tick_delay ≡ n = timer2_tick-delay c1 ∙ e1 in
      let e3 : c3.tick_delay ≡ n = adc_tick-delay c2 ∙ e2 in
      let applied = external_apply_scheduled host c4 in
      let e5 : (maintain_level_requests applied).tick_delay ≡ n =
        ap (λ (v : View). v.0.2) (maintain_level_requests-view applied)
        ∙ external_apply_scheduled-delay c4
        ∙ e3 in
      if-delay n (execution_aborted c) c _ refl (
        if-delay n (execution_aborted c1) c1 _ e1 (
          if-delay n (execution_aborted c2) c2 _ e2
            (if-delay n (execution_aborted c3) c3 (maintain_level_requests applied) e3 e5)))
