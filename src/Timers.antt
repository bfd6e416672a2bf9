-- ===== src/Timers.antt =====
-- The timers of core.c: Timer 0 and 1 of every variant, the classic serial shortcut, and Timer 2 of
-- the SAB80535.
pub mod Count
pub mod Serial
use emu_sa80535_n.Base.{ℕ, ◌+◌, ◌-◌, ◌*◌, ◌/◌, ◌%◌, Bool, true, false, bit_and, bit_or}
use emu_sa80535_n.Base.{◌==◌, ltb, ◌&&◌, ◌||◌, not, if◌then◌else◌, compl, u8, u16, u64, has}
use emu_sa80535_n.Base.{◌<<<◌, ◌>>>◌, update}
use emu_sa80535_n.Cpu.Regs.{
  reg_tmod, reg_tcon, reg_tl0, reg_th0, reg_tl1, reg_th1, reg_sbuf, reg_scon, reg_p3, reg_ie,
  sfr_index, sfr_t2con, sfr_tl2, sfr_th2, sfr_ircon,
}
use emu_sa80535_n.Cpu.Masks.{
  tmod_m0_0, tmod_m1_0, tmod_ct_0, tmod_gate_0, tmod_m0_1, tmod_m1_1, tmod_ct_1, tmod_gate_1,
  tcon_tr0, tcon_tf0, tcon_tr1, tcon_tf1, scon_sm1, ie_es, t2con_t2i0, t2con_t2i1, t2con_t2r1,
  t2con_t2ps, ircon_tf2,
}
use emu_sa80535_n.Cpu.{Cpu, Classic, Host, Timer, timer0, timer1, timer2, is_sab}
use emu_sa80535_n.Cpu.{execution_aborted, set_sfr, irq_write, notify, overflowed}
use emu_sa80535_n.IrqSync.{irq_sync}
use emu_sa80535_n.Uart.{uart_timer1_overflow}

abbrev pub is_timer1 : Timer → Bool
is_timer1 timer1 = true
is_timer1 _ = false

abbrev pub low_register : Timer → ℕ
low_register timer0 = reg_tl0
low_register timer1 = reg_tl1
low_register timer2 = sfr_index sfr_tl2

abbrev pub high_register : Timer → ℕ
high_register timer0 = reg_th0
high_register timer1 = reg_th1
high_register timer2 = sfr_index sfr_th2

-- `mTimerOverflowCount[aTimer]++`.
abbrev pub count_overflow : Timer → Cpu → Cpu
count_overflow timer0 c = record c {
  timer_overflow_count = elim [
    | timer0 ↦ u64 (c.timer_overflow_count timer0 + 1)
    | timer1 ↦ c.timer_overflow_count timer1
    | timer2 ↦ c.timer_overflow_count timer2
  ];
}
count_overflow timer1 c = record c {
  timer_overflow_count = elim [
    | timer0 ↦ c.timer_overflow_count timer0
    | timer1 ↦ u64 (c.timer_overflow_count timer1 + 1)
    | timer2 ↦ c.timer_overflow_count timer2
  ];
}
count_overflow timer2 c = record c {
  timer_overflow_count = elim [
    | timer0 ↦ c.timer_overflow_count timer0
    | timer1 ↦ c.timer_overflow_count timer1
    | timer2 ↦ u64 (c.timer_overflow_count timer2 + 1)
  ];
}

-- `TCON |= mask`, reported for the completed cycle.
abbrev pub raise_tcon : ℕ → Cpu → Cpu
raise_tcon mask c = irq_write reg_tcon (bit_or (c.sfr reg_tcon) mask) c

-- The timer is enabled by its run bit, is not gated, and counts machine cycles.
unfoldable pub timer_runs : Cpu → ℕ → ℕ → ℕ → Bool
timer_runs c gate run counter =
    not (has (c.sfr reg_tmod) gate)
    && has (c.sfr reg_tcon) run
    && not (has (c.sfr reg_tmod) counter)

-- One count of an 8-bit register: the CPU with the new value, and whether it overflowed.
abbrev pub count8 : ℕ → Cpu → Bool × Cpu
count8 register c = let v = c.sfr register + 1 in (ltb 0xff v, set_sfr register (bit_and v 0xff) c)

-- One count of the lower five bits of a register, its upper bits kept.
abbrev pub count5 : ℕ → Cpu → Bool × Cpu
count5 register c =
    let v = bit_and (c.sfr register) 0x1f + 1 in
    (
      ltb 0x1f v,
      set_sfr register (bit_or (bit_and (c.sfr register) (compl 0x1f)) (bit_and v 0x1f)) c,
    )

-- Timer 0 is in mode 3.
abbrev pub timer0_mode3 : Cpu → Bool
timer0_mode3 c = bit_and (c.sfr reg_tmod) (bit_or tmod_m0_0 tmod_m1_0) == bit_or tmod_m0_0 tmod_m1_0

-- The first block of `timer_tick`: two 8-bit timers in TL0 and TH0.
unfoldable pub mode3_tick : Cpu → Cpu
unfolding timer_runs
mode3_tick c =
    let (low_over, low) = count8 reg_tl0 c in
    let c1 =
      if timer_runs c tmod_gate_0 tcon_tr0 tmod_ct_0
      then if low_over then raise_tcon tcon_tf0 low else low
      else c in
    let (high_over, high) = count8 reg_th0 c1 in
    if not (timer0_mode3 c)
    then c
    else if timer_runs c1 tmod_gate_1 tcon_tr1 tmod_ct_1
    then if high_over then raise_tcon tcon_tf1 high else high
    else c1

module _ (host : Host) where
  -- `timer_overflow_emit`.
  unfoldable pub timer_overflow_emit : Timer → Cpu → Cpu
  unfolding uart_timer1_overflow
  timer_overflow_emit timer c =
      let c1 = count_overflow timer c in
      let c2 = if is_timer1 timer && is_sab c1.variant then uart_timer1_overflow host c1 else c1 in
      if execution_aborted c2
      then c2
      else notify host
          (overflowed timer (u64 (c2.machine_cycle_count + 1)) (c2.sfr (low_register timer))
            (c2.sfr (high_register timer)))
          c2

  -- The block of `timer_tick` for Timer 0.
  unfoldable pub timer0_tick : Cpu → Cpu
  unfolding timer_runs timer_overflow_emit
  timer0_tick c =
      let mode = bit_and (c.sfr reg_tmod) (bit_or tmod_m0_0 tmod_m1_0) in
      let (over5, low5) = count5 reg_tl0 c in
      let (high_over5, high5) = count8 reg_th0 low5 in
      let (over8, low8) = count8 reg_tl0 c in
      let (high_over8, high8) = count8 reg_th0 low8 in
      if not (timer_runs c tmod_gate_0 tcon_tr0 tmod_ct_0)
      then c
      else if mode == 0
      then if not over5 then low5 else if high_over5 then raise_tcon tcon_tf0 high5 else high5
      else if mode == tmod_m0_0
      then if not over8
        then low8
        else if high_over8
        then timer_overflow_emit timer0 (raise_tcon tcon_tf0 high8)
        else high8
      else if mode == tmod_m1_0
      then if over8 then raise_tcon tcon_tf0 (set_sfr reg_tl0 (low8.sfr reg_th0) low8) else low8
      else c

  -- TF1 is left alone while Timer 0 is in mode 3.
  abbrev pub raise_tf1 : Cpu → Cpu
  raise_tf1 c = if timer0_mode3 c then c else raise_tcon tcon_tf1 c

  -- The mode switch of the block for Timer 1.
  unfoldable pub timer1_count : Cpu → Cpu
  unfolding timer_overflow_emit
  timer1_count c =
      let mode = bit_and (c.sfr reg_tmod) (bit_or tmod_m0_1 tmod_m1_1) in
      let (over5, low5) = count5 reg_tl1 c in
      let (high_over5, high5) = count8 reg_th1 low5 in
      let (over8, low8) = count8 reg_tl1 c in
      let (high_over8, high8) = count8 reg_th1 low8 in
      let reloaded = set_sfr reg_tl1 (low8.sfr reg_th1) low8 in
      if mode == 0
      then if not over5 then low5 else if high_over5 then raise_tf1 high5 else high5
      else if mode == tmod_m0_1
      then if not over8 then low8 else if high_over8 then raise_tf1 high8 else high8
      else if mode == tmod_m1_1
      then if not over8
        then low8
        else if timer0_mode3 reloaded
        then reloaded
        else timer_overflow_emit timer1 (raise_tcon tcon_tf1 reloaded)
      else c

  -- `serial_tx`.
  unfoldable pub serial_tx : Cpu → Cpu
  serial_tx c =
      let k : Classic = c.classic in
      let remaining = k.serial_out_remaining_bits - 1 in
      let sbuf = c.sfr reg_sbuf in
      let tx_bit = not (sbuf >>> remaining == 0) in
      let p3 = bit_and (c.sfr reg_p3) (compl 2) in
      let c1 =
        set_sfr reg_p3 (if tx_bit then bit_or p3 2 else p3)
          (record c { classic = record k { serial_out_remaining_bits = remaining } }) in
      let done = record k {
        serial_out_remaining_bits = remaining;
        serial_out = update k.serial_out k.serial_out_idx sbuf;
        serial_out_idx = (k.serial_out_idx + 1) % 18;
        serial_interrupt_trigger = has (c.sfr reg_ie) ie_es || k.serial_interrupt_trigger;
      } in
      if k.serial_out_remaining_bits == 0
      then c
      else if remaining == 0
      then set_sfr reg_scon (bit_or (c1.sfr reg_scon) 2) (record c1 { classic = done })
      else c1

  -- The block of `timer_tick` for Timer 1, with the serial shortcut of the classic variants.
  unfoldable pub timer1_tick : Cpu → Cpu
  unfolding timer_runs timer1_count serial_tx
  timer1_tick c =
      let c1 = timer1_count c in
      let c2 = serial_tx c1 in
      if not (timer_runs c tmod_gate_1 tcon_tr1 tmod_ct_1)
      then c
      else if not (is_sab c1.variant)
          && has (c1.sfr reg_tcon) tcon_tf1
          && has (c1.sfr reg_scon) scon_sm1
      then set_sfr reg_tcon (bit_and (c2.sfr reg_tcon) (compl tcon_tf1)) c2
      else c1

  -- `timer_tick`.
  unfoldable pub timer_tick : Cpu → Cpu
  unfolding mode3_tick timer0_tick timer1_tick
  timer_tick c =
      let c1 = timer0_tick (mode3_tick c) in if execution_aborted c1 then c1 else timer1_tick c1

  -- `sab_timer2_tick`.
  unfoldable pub timer2_tick : Cpu → Cpu
  unfolding timer_overflow_emit irq_sync
  timer2_tick c =
      let t2con = c.sfr (sfr_index sfr_t2con) in
      let tl2 = sfr_index sfr_tl2 in
      let th2 = sfr_index sfr_th2 in
      let ircon = sfr_index sfr_ircon in
      let completed_cycle = u64 (c.machine_cycle_count + 1) in
      let value = u16 (bit_or (c.sfr th2 <<< 8) (c.sfr tl2) + 1) in
      let counted = set_sfr th2 (u8 (value >>> 8)) (set_sfr tl2 (bit_and value 0xff) c) in
      let flagged = irq_write ircon (bit_or (counted.sfr ircon) ircon_tf2) counted in
      let emitted = timer_overflow_emit timer2 flagged in
      if not (is_sab c.variant)
      then c
      else if not (bit_and t2con (bit_or t2con_t2i1 t2con_t2i0) == t2con_t2i0)
      then c
      else if has t2con t2con_t2r1
      then c
      else if has t2con t2con_t2ps && has completed_cycle 1
      then c
      else if value == 0
      then if execution_aborted emitted then emitted else irq_sync emitted
      else counted
