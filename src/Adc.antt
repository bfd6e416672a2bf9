-- ===== src/Adc.antt =====
-- The SAB80535 analogue converter of core.c: a conversion is armed by a write of DAPR and takes
-- fifteen machine cycles.
pub mod Convert
pub mod Cycle
use emu_sa80535_n.Base.{ℕ, ◌+◌, ◌-◌, ◌*◌, ◌/◌, ◌%◌, Bool, true, false, bit_and, bit_or}
use emu_sa80535_n.Base.{
  ◌==◌, ltb, leb, ◌&&◌, ◌||◌, not, if◌then◌else◌, compl, u8, u16, u32, u64, has, ◌>>>◌, update,
}
use emu_sa80535_n.Cpu.Regs.{sfr_index, sfr_adcon, sfr_ircon, sfr_dapr, sfr_addat}
use emu_sa80535_n.Cpu.Masks.{ircon_iadc, adcon_bsy, adcon_mx, adcon_adm}
use emu_sa80535_n.Cpu.{Cpu, Adc, Host, is_sab, set_sfr, irq_write, notify, AdcTrace, start, restart}
use emu_sa80535_n.Cpu.{complete, adc}
use emu_sa80535_n.IrqSync.{irq_sync}

abbrev pub adc_channel_count : ℕ
adc_channel_count = 8

abbrev pub set_adc : Adc → Cpu → Cpu
set_adc a c = record c { adc = a }

-- `sab_adc_set_busy`.
unfoldable pub adc_set_busy : Bool → Cpu → Cpu
adc_set_busy busy c =
    let a : Adc = c.adc in
    let adcon = c.sfr (sfr_index sfr_adcon) in
    set_sfr (sfr_index sfr_adcon)
      (if busy then bit_or adcon adcon_bsy else bit_and adcon (compl adcon_bsy))
      (set_adc (record a { busy = busy }) c)

-- The upper reference in sixteenths; 0 stands for 16.
abbrev pub upper_reference : ℕ → ℕ
upper_reference dapr = if dapr >>> 4 == 0 then 16 else dapr >>> 4

-- `sab_adc_references_valid`. Where `upper < lower` the difference is not taken.
unfoldable pub adc_references_valid : ℕ → Bool
adc_references_valid dapr =
    let lower = bit_and dapr 0x0f in
    let upper_nibble = dapr >>> 4 in
    let upper = upper_reference dapr in
    if ltb 12 lower || not (upper_nibble == 0) && ltb upper_nibble 4 || ltb upper lower
    then false
    else leb 4 (u8 (upper - lower))

-- `sab_adc_convert`. The products are taken in `uint32_t`.
unfoldable pub adc_convert : ℕ → ℕ → ℕ
adc_convert input dapr =
    let lower = bit_and dapr 0x0f in
    let upper = upper_reference dapr in
    let scaled_input = u32 (16 * input) in
    let lower_endpoint = u32 (65535 * lower) in
    let upper_endpoint = u32 (65535 * upper) in
    let numerator = u32 ((scaled_input - lower_endpoint) * 256) in
    let denominator = u32 (65535 * (upper - lower)) in
    let result = numerator / denominator in
    if leb scaled_input lower_endpoint
    then 0
    else if leb upper_endpoint scaled_input
    then 0xff
    else u8 (if ltb 0xff result then 0xff else result)

-- `sab_adc_request_start`.
unfoldable pub adc_request_start : Cpu → Cpu
adc_request_start c =
    let a : Adc = c.adc in
    set_adc
      (record a {
        arm_restart = if not a.start_pending then a.active || a.armed else a.arm_restart;
        active = false;
        armed = false;
        cycles = 0;
        start_pending = true;
      })
      c

-- `sab_adc_finish_sfr_transaction`.
unfoldable pub adc_finish_sfr_transaction : Cpu → Cpu
unfolding adc_set_busy
adc_finish_sfr_transaction c =
    let depth = if not (c.sfr_write_depth == 0) then c.sfr_write_depth - 1 else c.sfr_write_depth in
    let c1 = adc_set_busy c.adc.busy (record c { sfr_write_depth = depth }) in
    let a : Adc = c1.adc in
    if not (is_sab c.variant)
    then c
    else if depth == 0 && a.start_pending
    then set_adc (record a { start_pending = false; armed = true }) c1
    else c1

-- `em8051_sab_adc_set_input`.
unfoldable pub adc_set_input : ℕ → ℕ → Cpu → Bool × Cpu
adc_set_input channel input c =
    let a : Adc = c.adc in
    if not (is_sab c.variant) || leb adc_channel_count channel
    then (false, c)
    else (true, set_adc (record a { inputs = update a.inputs channel input }) c)

-- The values that a conversion samples when it starts.
unfoldable pub adc_latch : Cpu → Adc
unfolding adc_references_valid
adc_latch c =
    let a : Adc = c.adc in
    let adcon = c.sfr (sfr_index sfr_adcon) in
    let dapr = c.sfr (sfr_index sfr_dapr) in
    let channel = u8 (bit_and adcon adcon_mx) in
    record a {
      latched_channel = channel;
      latched_dapr = dapr;
      latched_input = a.inputs channel;
      reference_valid = adc_references_valid dapr;
      continuous_requested = has adcon adcon_adm;
      armed = false;
      active = true;
      cycles = 1;
    }

module _ (host : Host) where
  -- `sab_adc_trace_emit`.
  abbrev pub adc_trace_emit : AdcTrace → ℕ → Cpu → Cpu
  adc_trace_emit event cycle c =
      notify host
        (adc event cycle c.adc.latched_channel c.adc.latched_dapr c.adc.latched_input
          (c.sfr (sfr_index sfr_addat)) c.adc.busy (has (c.sfr (sfr_index sfr_ircon)) ircon_iadc)
          c.adc.reference_valid c.adc.continuous_requested)
        c

  -- The first cycle of a conversion.
  unfoldable pub adc_begin : ℕ → Cpu → Cpu
  unfolding adc_latch adc_set_busy
  adc_begin cycle c =
      let c1 =
        adc_trace_emit (if c.adc.arm_restart then restart else start) cycle
          (adc_set_busy true (set_adc (adc_latch c) c)) in
      let a : Adc = c1.adc in set_adc (record a { arm_restart = false }) c1

  -- The last cycle of a conversion.
  unfoldable pub adc_finish : ℕ → Cpu → Cpu
  unfolding adc_convert adc_set_busy
  adc_finish cycle c =
      let a : Adc = c.adc in
      let c1 =
        if a.reference_valid
        then set_sfr (sfr_index sfr_addat) (adc_convert a.latched_input a.latched_dapr) c
        else c in
      let c2 = adc_set_busy false (set_adc (record a { active = false }) c1) in
      adc_trace_emit complete cycle (
        irq_sync
          (irq_write (sfr_index sfr_ircon) (bit_or (c2.sfr (sfr_index sfr_ircon)) ircon_iadc) c2))

  -- `sab_adc_tick`.
  unfoldable pub adc_tick : Cpu → Cpu
  unfolding adc_begin adc_finish
  adc_tick c =
      let a : Adc = c.adc in
      let cycle = u64 (c.machine_cycle_count + 1) in
      let counted = set_adc (record a { cycles = u8 (a.cycles + 1) }) c in
      if not (is_sab c.variant) || a.start_pending
      then c
      else if a.armed
      then adc_begin cycle c
      else if not a.active
      then c
      else if ltb (u8 (a.cycles + 1)) 15
      then counted
      else adc_finish cycle counted
