-- ===== src/Ops/Movx.antt =====
-- MOVX of opcodes.c: external memory, or the host's callbacks in its place.
pub mod External
use emu_sa80535_n.Base.{ℕ, none, some, bit_and}
use emu_sa80535_n.Base.{if◌then◌else◌, update}
use emu_sa80535_n.Cpu.Regs.{reg_p1}
use emu_sa80535_n.Cpu.{Cpu, Host, MovxContext, Direction, TraceType, movx, notify, trace_emit}
use emu_sa80535_n.Cpu.{execution_aborted}
use emu_sa80535_n.Memory.{Handler, acc, dptr, indir_rx_address, set_acc, advance}

-- `movx_context_capture`.
abbrev pub movx_context_capture : Cpu → ℕ → Direction → ℕ → MovxContext
movx_context_capture c address direction value = record {
  machine_cycle = c.machine_cycle_count;
  pc = c.pc;
  address = address;
  direction = direction;
  value = value;
  p1_latch = c.sfr reg_p1;
}

-- `EXTDATA`.
abbrev pub ext_index : Cpu → ℕ → ℕ
ext_index c address = bit_and address c.ext_data_max_idx

module _ (host : Host) where
  -- `movx_context_emit` and the trace record, then the step to the next opcode.
  abbrev pub movx_done : MovxContext → ℕ → TraceType → Cpu → ℕ × Cpu
  movx_done context value type c = (
    1,
    advance 1 (
        trace_emit host type context.address (acc c)
          (notify host (movx (record context { value = value })) c)),
  )

  -- The common body of `movx_a_indir_dptr` and `movx_a_indir_rx`.
  unfoldable pub movx_read_from : ℕ → Handler
  movx_read_from address c =
      let context = movx_context_capture c address Direction.read (acc c) in
      elim host.xread [
        | some callback ↦
            let (result, c1) = callback c address in
            let c2 = set_acc result c1 in
            if execution_aborted c1
            then (0, c1)
            else movx_done context result TraceType.movx_read c2
        | none ↦ elim c.ext_data [
          | some ext ↦
              let value = ext (ext_index c address) in
              movx_done context value TraceType.movx_read (set_acc value c)
          | none ↦ movx_done context (acc c) TraceType.unsupported_movx_read c
        ]
      ]

  -- The common body of `movx_indir_dptr_a` and `movx_indir_rx_a`.
  unfoldable pub movx_write_to : ℕ → Handler
  movx_write_to address c =
      let context = movx_context_capture c address Direction.write (acc c) in
      elim host.xwrite [
        | some callback ↦
            let c1 = callback c address (acc c) in
            if execution_aborted c1
            then (0, c1)
            else movx_done context context.value TraceType.movx_write c1
        | none ↦ elim c.ext_data [
          | some ext ↦
              movx_done context context.value TraceType.movx_write
                (record c { ext_data = some (update ext (ext_index c address) (acc c)) })
          | none ↦ movx_done context context.value TraceType.unsupported_movx_write c
        ]
      ]

  unfoldable pub movx_a_indir_dptr : Handler
  unfolding movx_read_from
  movx_a_indir_dptr c = movx_read_from (dptr c) c

  unfoldable pub movx_a_indir_rx : Handler
  unfolding movx_read_from
  movx_a_indir_rx c = movx_read_from (indir_rx_address c) c

  unfoldable pub movx_indir_dptr_a : Handler
  unfolding movx_write_to
  movx_indir_dptr_a c = movx_write_to (dptr c) c

  unfoldable pub movx_indir_rx_a : Handler
  unfolding movx_write_to
  movx_indir_rx_a c = movx_write_to (indir_rx_address c) c
