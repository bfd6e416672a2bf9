-- ===== src/Sfr.antt =====
-- The special function register gateways of core.c, through which opcodes and hosts read and write
-- registers, and the host's request switch of the interrupt controller.
use emu_sa80535_n.Base.{ℕ, ◌+◌, ◌-◌, Bool, true, false, none, some, bit_and, bit_or}
use emu_sa80535_n.Base.{◌==◌, ltb, leb, ◌&&◌, ◌||◌, not, if◌then◌else◌, compl, u8, u16, ◌<<<◌}
use emu_sa80535_n.Cpu.Regs.{
  reg_tcon, reg_scon, reg_sbuf, sfr_index, sfr_adcon, sfr_dapr, sfr_ien0, sfr_ien1, sfr_ip0,
  sfr_ip1, sfr_ircon,
}
use emu_sa80535_n.Cpu.Masks.{
  tcon_ie0, tcon_ie1, tcon_tf0, tcon_tf1, scon_ri, scon_ti, ircon_tf2, ircon_exf2, ircon_iadc,
  adcon_bsy,
}
use emu_sa80535_n.Cpu.{Cpu, Host, is_sab, execution_aborted, set_sfr, irq_write, trace_emit}
use emu_sa80535_n.Cpu.{TraceType, request}
use emu_sa80535_n.Pins.{port_index, port_get_latch, port_get_pins}
use emu_sa80535_n.IrqSync.{
  irq_sync, irq_priority, irq_arm_inhibit, irq_trace_emit, irq_source_count,
}
use emu_sa80535_n.External.{external_sample_port}
use emu_sa80535_n.Uart.{uart_sbuf_write}
use emu_sa80535_n.Adc.{adc_request_start, adc_finish_sfr_transaction}

abbrev sbuf_address : ℕ
sbuf_address = reg_sbuf + 0x80

-- What a register reads as where no host callback answers.
unfoldable pub sfr_default : Cpu → ℕ → ℕ
unfolding port_get_pins
sfr_default c address =
    if is_sab c.variant && address == sbuf_address
    then c.uart.rx_data
    else elim (port_get_pins c address) [ none ↦ c.sfr (sfr_index address) | some pins ↦ pins ]

-- The four registers whose write delays the next arbitration.
abbrev pub is_irq_control : ℕ → Bool
is_irq_control address =
    address == sfr_ien0 || address == sfr_ien1 || address == sfr_ip0 || address == sfr_ip1

module _ (host : Host) where
  -- `em8051_sfr_read`. On the SAB80535 a callback answers for SBUF too, before the receive data.
  unfoldable pub sfr_read : ℕ → Cpu → ℕ × Cpu
  unfolding sfr_default
  sfr_read address c =
      if ltb address 0x80 then (0xff, c) else elim (host.sfrread (sfr_index address)) [
        | none ↦ (sfr_default c address, c)
        | some callback ↦ callback c address
      ]

  -- `em8051_sfr_rmw_read`.
  unfoldable pub sfr_rmw_read : ℕ → Cpu → ℕ × Cpu
  unfolding sfr_read port_get_latch
  sfr_rmw_read address c =
      if ltb address 0x80
      then (0xff, c)
      else elim (port_get_latch c address) [ none ↦ sfr_read address c | some latch ↦ (latch, c) ]

  -- The branch of `em8051_sfr_write` for SBUF of the SAB80535.
  unfoldable pub sfr_write_sbuf : ℕ → Cpu → Cpu
  unfolding uart_sbuf_write adc_finish_sfr_transaction
  sfr_write_sbuf value c =
      let presented =
        host.sfrwrite reg_sbuf (set_sfr reg_sbuf value (uart_sbuf_write value c)) sbuf_address in
      if execution_aborted c
      then c
      else if execution_aborted presented
      then presented
      else adc_finish_sfr_transaction (
          trace_emit host TraceType.sfr_write sbuf_address value
            (set_sfr reg_sbuf presented.uart.rx_data presented))

  -- The rest of `em8051_sfr_write`.
  unfoldable pub sfr_write_other : ℕ → ℕ → Cpu → Cpu
  unfolding adc_request_start port_index external_sample_port irq_arm_inhibit
  sfr_write_other address value c =
      let sab = is_sab c.variant in
      let index = sfr_index address in
      let c1 = irq_write index value c in
      let c2 = if sab && address == sfr_dapr then adc_request_start c1 else c1 in
      let c3 = host.sfrwrite index c2 address in
      let c4 : Cpu = elim (port_index c3 address) [
        | none ↦ c3
        | some _ ↦ external_sample_port host address c3
      ] in
      let c5 = trace_emit host TraceType.sfr_write address value c4 in
      let c6 = if is_sab c5.variant && is_irq_control address then irq_arm_inhibit c5 else c5 in
      if execution_aborted c3 then c3 else adc_finish_sfr_transaction c6

  -- `em8051_sfr_write`. A write of ADCON cannot change the busy flag.
  unfoldable pub sfr_write : ℕ → ℕ → Cpu → Cpu
  unfolding sfr_write_sbuf sfr_write_other
  sfr_write address value c =
      let sab = is_sab c.variant in
      let c1 = if sab then record c { sfr_write_depth = u16 (c.sfr_write_depth + 1) } else c in
      let masked = bit_or (bit_and value (compl adcon_bsy)) (if c.adc.busy then adcon_bsy else 0) in
      let value' = if sab && address == sfr_adcon then masked else value in
      if ltb address 0x80
      then c
      else if sab && address == sbuf_address
      then sfr_write_sbuf value' c1
      else sfr_write_other address value' c1

-- The register and the mask of a source in `em8051_sab_irq_set_pending`.
unfoldable pub irq_request_sfr : ℕ → ℕ × ℕ
irq_request_sfr source =
    let ircon = sfr_index sfr_ircon in
    if source == 0
    then (reg_tcon, tcon_ie0)
    else if source == 1
    then (reg_tcon, tcon_tf0)
    else if source == 2
    then (reg_tcon, tcon_ie1)
    else if source == 3
    then (reg_tcon, tcon_tf1)
    else if source == 4
    then (reg_scon, bit_or scon_ri scon_ti)
    else if source == 5
    then (ircon, bit_or ircon_tf2 ircon_exf2)
    else if source == 6
    then (ircon, ircon_iadc)
    else (ircon, u8 (1 <<< (source - 6)))

-- The store of `em8051_sab_irq_set_pending`.
unfoldable pub irq_store_request : ℕ → Bool → Cpu → Cpu
unfolding irq_request_sfr
irq_store_request source pending c =
    let (index, mask) = irq_request_sfr source in
    let asserted = if source == 4 then scon_ri else if source == 5 then ircon_tf2 else mask in
    if pending
    then irq_write index (bit_or (c.sfr index) asserted) c
    else set_sfr index (bit_and (c.sfr index) (compl mask)) c

-- `em8051_sab_irq_set_pending`.
unfoldable pub irq_set_pending : Host → ℕ → Bool → Cpu → Bool × Cpu
unfolding irq_store_request irq_sync irq_priority
irq_set_pending host source pending c =
    let c1 = irq_sync (irq_store_request source pending c) in
    if not (is_sab c.variant) || leb irq_source_count source then (false, c) else (
      true,
      irq_trace_emit host request source (irq_priority c1 source) pending c1.irq.pending c1,
    )
