-- ===== src/Uart.antt =====
-- The SAB80535 mode-3 UART of core.c. The observation facts `EMU_RAW_*` go to the attachment that
-- is null here.
pub mod Divider
pub mod Receive
pub mod Transmit
use emu_sa80535_n.Base.{ℕ, ◌+◌, ◌-◌, ◌%◌, Bool, true, false, bit_and, bit_or}
use emu_sa80535_n.Base.{◌==◌, ltb, leb, ◌&&◌, ◌||◌, not, if◌then◌else◌, compl, u8, u64, has, ◌>>>◌}
use emu_sa80535_n.Cpu.Regs.{reg_scon, reg_sbuf, reg_pcon, sfr_index, sfr_adcon}
use emu_sa80535_n.Cpu.Masks.{
  scon_ri, scon_ti, scon_rb8, scon_tb8, scon_ren, scon_sm2, scon_sm1, scon_sm0, pcon_smod, adcon_bd,
}
use emu_sa80535_n.Cpu.{Cpu, Uart, Host, is_sab, execution_aborted, set_sfr, irq_write, notify}
use emu_sa80535_n.Cpu.{UartTrace, tx_start, tx_bit, tx_stop, tx_end, rx_start, rx_accept, rx_drop}
use emu_sa80535_n.Cpu.{rx_end, uart}

-- `sab_uart_mode3`.
unfoldable pub uart_mode3 : Cpu → Bool
uart_mode3 c =
    is_sab c.variant
    && (bit_and (c.sfr reg_scon) (bit_or scon_sm0 scon_sm1) == bit_or scon_sm0 scon_sm1)
    && not (has (c.sfr (sfr_index sfr_adcon)) adcon_bd)

-- `sab_uart_divider_step`: the new phase, and whether a bit boundary is reached.
unfoldable pub uart_divider_step : ℕ → Bool → ℕ × Bool
uart_divider_step phase smod =
    let next = u8 (bit_and (phase + 1) 0x1f) in (next, next == 0 || smod && next == 16)

-- `sab_uart_tx_bit_value`.
unfoldable pub uart_tx_bit_value : Uart → ℕ → Bool
uart_tx_bit_value u bit_index =
    if bit_index == 0
    then false
    else if leb bit_index 8
    then has (u.tx_data >>> (bit_index - 1)) 1
    else if bit_index == 9
    then u.tx_ninth
    else true

abbrev pub set_uart : Uart → Cpu → Cpu
set_uart u c = record c { uart = u }

module _ (host : Host) where
  -- `sab_uart_trace_emit`.
  abbrev pub uart_trace_emit : UartTrace → ℕ → ℕ → Bool → ℕ → Bool → Cpu → Cpu
  uart_trace_emit event cycle value ninth bit_index bit_value c =
      notify host (uart event cycle c.pc value ninth bit_index bit_value) c

  -- `sab_uart_tx_start`.
  unfoldable pub uart_tx_start : ℕ → Cpu → Cpu
  uart_tx_start cycle c =
      let u : Uart = c.uart in
      uart_trace_emit tx_start cycle u.tx_pending_data u.tx_pending_ninth 0 false (
        set_uart
          (record u {
            tx_data = u.tx_pending_data;
            tx_ninth = u.tx_pending_ninth;
            tx_pending = false;
            tx_active = true;
            tx_bit_index = 0;
          })
          c)

  -- `sab_uart_tx_boundary`.
  unfoldable pub uart_tx_boundary : ℕ → Cpu → Cpu
  unfolding uart_tx_start uart_tx_bit_value
  uart_tx_boundary cycle c =
      let u : Uart = c.uart in
      let next = u8 (u.tx_bit_index + 1) in
      let ended = uart_trace_emit tx_end cycle u.tx_data u.tx_ninth 10 true c in
      let v : Uart = ended.uart in
      let idle = set_uart (record v { tx_active = false }) ended in
      if not u.tx_active
      then if u.tx_pending then uart_tx_start cycle c else c
      else if ltb u.tx_bit_index 9
      then uart_trace_emit tx_bit cycle u.tx_data u.tx_ninth next (uart_tx_bit_value u next)
          (set_uart (record u { tx_bit_index = next }) c)
      else if u.tx_bit_index == 9
      then uart_trace_emit tx_stop cycle u.tx_data u.tx_ninth 10 true (
          irq_write reg_scon (bit_or (c.sfr reg_scon) scon_ti)
            (set_uart (record u { tx_bit_index = 10 }) c))
      else if execution_aborted ended
      then ended
      else if u.tx_pending
      then uart_tx_start cycle idle
      else idle

  -- The frame is taken: `RI` is clear, and `SM2` is clear or the ninth bit is set.
  abbrev pub uart_rx_accepts : Cpu → Bool
  uart_rx_accepts c =
      not (has (c.sfr reg_scon) scon_ri)
      && (not (has (c.sfr reg_scon) scon_sm2) || c.uart.rx_pending_ninth)

  -- The stores of an accepted frame.
  unfoldable pub uart_rx_store : Cpu → Cpu
  uart_rx_store c =
      let u : Uart = c.uart in
      let c1 =
        set_sfr reg_sbuf u.rx_pending_data
          (set_uart (record u { rx_data = u.rx_pending_data }) c) in
      let c2 = set_sfr reg_scon (bit_and (c1.sfr reg_scon) (compl scon_rb8)) c1 in
      let c3 =
        if u.rx_pending_ninth
        then set_sfr reg_scon (bit_or (c2.sfr reg_scon) scon_rb8) c2
        else c2 in
      irq_write reg_scon (bit_or (c3.sfr reg_scon) scon_ri) c3

  -- `sab_uart_rx_boundary`.
  unfoldable pub uart_rx_boundary : ℕ → Cpu → Cpu
  unfolding uart_rx_store
  uart_rx_boundary cycle c =
      let u : Uart = c.uart in
      let next = u8 (u.rx_bit_index + 1) in
      let c1 = set_uart (record u { rx_bit_index = next }) c in
      let value = u.rx_pending_data in
      let ninth = u.rx_pending_ninth in
      if next == 10
      then if uart_rx_accepts c1
        then uart_trace_emit rx_accept cycle value ninth 10 true (uart_rx_store c1)
        else uart_trace_emit rx_drop cycle value ninth 10 true c1
      else if next == 11
      then uart_trace_emit rx_end cycle value ninth 10 true
          (set_uart (record u { rx_bit_index = next; rx_active = false }) c)
      else c1

  -- `sab_uart_timer1_overflow`.
  unfoldable pub uart_timer1_overflow : Cpu → Cpu
  unfolding uart_mode3 uart_divider_step uart_tx_boundary uart_rx_boundary
  uart_timer1_overflow c =
      let smod = has (c.sfr reg_pcon) pcon_smod in
      let completed_cycle = u64 (c.machine_cycle_count + 1) in
      let u : Uart = c.uart in
      let (phase, tx_due) = uart_divider_step u.divider_phase smod in
      let c1 = set_uart (record u { divider_phase = phase }) c in
      let c2 = if tx_due then uart_tx_boundary completed_cycle c1 else c1 in
      let v : Uart = c2.uart in
      let (rx_phase, rx_due) = uart_divider_step v.rx_divider_phase smod in
      let c3 = set_uart (record v { rx_divider_phase = rx_phase }) c2 in
      if not (uart_mode3 c)
      then c
      else if execution_aborted c2
      then c2
      else if v.rx_active
      then if rx_due then uart_rx_boundary completed_cycle c3 else c3
      else c2

  -- `em8051_sab_uart_inject_rx_frame`.
  unfoldable pub uart_inject_rx_frame : ℕ → Bool → Cpu → Bool × Cpu
  unfolding uart_mode3
  uart_inject_rx_frame value ninth c =
      let u : Uart = c.uart in
      if not (uart_mode3 c) || not (has (c.sfr reg_scon) scon_ren) || u.rx_active
      then (false, c)
      else (
        true,
        uart_trace_emit rx_start c.machine_cycle_count value ninth 0 false (
            set_uart
              (record u {
                rx_pending_data = value;
                rx_pending_ninth = ninth;
                rx_divider_phase = 0;
                rx_bit_index = 0;
                rx_active = true;
              })
              c),
      )

-- `sab_uart_sbuf_write`.
unfoldable pub uart_sbuf_write : ℕ → Cpu → Cpu
unfolding uart_mode3
uart_sbuf_write value c =
    let u : Uart = c.uart in
    if not (uart_mode3 c)
    then c
    else set_uart
        (record u {
          tx_pending_data = value;
          tx_pending_ninth = has (c.sfr reg_scon) scon_tb8;
          tx_pending = true;
        })
        c
