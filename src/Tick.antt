-- ===== src/Tick.antt =====
-- The machine cycle of core.c: what advances in every cycle, and the start of an opcode or of an
-- interrupt when no cycle of the one before is left.
pub mod Parity
pub mod Frame
use emu_sa80535_n.Base.{ℕ, ◌+◌, ◌-◌, ◌*◌, ◌/◌, ◌%◌, Bool, true, false, bit_and, bit_or, bit_xor}
use emu_sa80535_n.Base.{◌==◌, ◌&&◌, not, if◌then◌else◌, compl, u8, u64, has, ◌>>>◌}
use emu_sa80535_n.Cpu.Regs.{reg_acc, reg_psw, reg_pcon}
use emu_sa80535_n.Cpu.Masks.{psw_p}
use emu_sa80535_n.Cpu.{Cpu, SabIrq, Host, TraceType, is_sab, execution_aborted, set_sfr, trace_emit}
use emu_sa80535_n.Memory.{Handler, opcode}
use emu_sa80535_n.IrqSync.{maintain_level_requests, set_irq}
use emu_sa80535_n.Schedule.{external_apply_scheduled}
use emu_sa80535_n.Timers.{timer_tick, timer2_tick}
use emu_sa80535_n.Adc.{adc_tick}
use emu_sa80535_n.ClassicIrq.{handle_interrupts}

-- The parity of a byte, as the end of `tick` computes it.
unfoldable pub parity : ℕ → ℕ
parity a = let v = bit_and (bit_xor a (a >>> 4)) 0xf in bit_and (0x6996 >>> v) 1

unfoldable pub update_parity : Cpu → Cpu
unfolding parity
update_parity c =
    set_sfr reg_psw
      (bit_or (bit_and (c.sfr reg_psw) (compl psw_p)) (parity (c.sfr reg_acc) * psw_p)) c

module _ (host : Host) where
  -- `advance_machine_cycle`.
  unfoldable pub advance_machine_cycle : Cpu → Cpu
  unfolding timer_tick timer2_tick adc_tick external_apply_scheduled maintain_level_requests
  advance_machine_cycle c =
      let c1 = timer_tick host c in
      let c2 = timer2_tick host c1 in
      let c3 = adc_tick host c2 in
      let c4 = record c3 { machine_cycle_count = u64 (c3.machine_cycle_count + 1) } in
      if execution_aborted c
      then c
      else if execution_aborted c1
      then c1
      else if execution_aborted c2
      then c2
      else if execution_aborted c3
      then c3
      else maintain_level_requests (external_apply_scheduled host c4)

  -- The opcode of `tick`, `op` being the array of handlers: the CPU afterwards, and whether `tick`
  -- goes on to the end of the cycle.
  unfoldable pub execute_opcode : (ℕ → Handler) → Cpu → Bool × Cpu
  execute_opcode op c =
      let code = opcode c in
      let begun =
        trace_emit host TraceType.instruction c.pc code
          (record c { trace_pc = c.pc; in_instruction = true }) in
      let (delay, after) = op code begun in
      let ended = record after { tick_delay = u8 delay; in_instruction = false } in
      let counted = record ended { instruction_count = u64 (ended.instruction_count + 1) } in
      let q : SabIrq = counted.irq in
      let released =
        set_irq (record q { inhibit_instructions = q.inhibit_instructions - 1 }) counted in
      if execution_aborted begun
      then (false, record begun { in_instruction = false })
      else if execution_aborted ended
      then (false, ended)
      else (
        true,
        if is_sab counted.variant && not (q.inhibit_instructions == 0) then released else counted,
      )

  -- `tick`: whether an opcode was executed, and the CPU afterwards.
  unfoldable pub tick : (ℕ → Handler) → Cpu → Bool × Cpu
  unfolding handle_interrupts execute_opcode
  tick op c =
      let pending = record c { tick_delay = c.tick_delay - 1 } in
      let (entered, c1) = handle_interrupts host c in
      let idle = has (c1.sfr reg_pcon) 0x01 in
      let (completed, c2) = execute_opcode op c1 in
      if execution_aborted c
      then (false, c)
      else if not (c.tick_delay == 0)
      then (false, advance_machine_cycle pending)
      else if has (c.sfr reg_pcon) 0x02
      then (false, c)
      else if not entered
      then (false, advance_machine_cycle c1)
      else if execution_aborted c1
      then (false, c1)
      else if not (c1.tick_delay == 0)
      then (false, advance_machine_cycle c1)
      else if idle
      then (false, advance_machine_cycle (update_parity c1))
      else if not completed
      then (false, c2)
      else (true, advance_machine_cycle (update_parity c2))
