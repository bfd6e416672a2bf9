-- ===== src/Lib.antt =====
-- The processor core of the emuSA80535-N emulator: an 8051, an 8052 and a SAB80535.
--
-- The program's core is core.c (machine cycles, interrupts, timers, the UART, the converter, ports,
-- run control, reset) and opcodes.c (the instructions). A caller runs `tick` once a machine cycle;
-- it serves interrupts, executes an opcode through the array `op` when no cycle of the one before is
-- pending, and advances the peripherals. Instructions reach registers through the gateway
-- `em8051_sfr_read` and `em8051_sfr_write`, which calls the peripherals back.
--
-- Cpu models `struct em8051` of lib/include/emusa80535/emu8051.h: Cpu.State has the state, a record
-- for each peripheral, Cpu.Regs and Cpu.Masks the register numbers and masks, Cpu.Hooks the
-- callbacks. Every function of the code is a function from the state to the state, with its result
-- first where it has one; names are those of the code without the prefixes `em8051_` and `sab_`.
--   Pins, External: virtual ports and external interrupt inputs (core.c)
--   Schedule: the queue of external stimuli (core.c)
--   IrqSync, IrqService: the Siemens interrupt controller (core.c)
--   ClassicIrq: the classic interrupt controller (core.c)
--   Uart, Adc, Timers: the peripherals (core.c)
--   Sfr: the register gateway (core.c)
--   Memory: addressing, fetch and the stack (opcodes.c)
--   Ops: the instructions, by kind (opcodes.c)
--   Dispatch: `op_setptrs` and `do_op` (opcodes.c)
--   Tick, Run, Reset: the machine cycle, run control and reset (core.c)
--   Disasm: the decoders of instructions as text, by kind, their array, and the decoding of
--     captured bytes (disasm.c)
--   Debug.Event, Debug.Watch, Debug.Table, Debug.Bus: events, watches and their match, and the
--     observers (emu_debug_event.c and lib/include/emusa80535/emu_debug_event.h)
--   Debug.Outcome, Debug.Page: the ring of outcomes and the pages that a client pulls
--     (emu_outcome_internal.c)
--   Debug.Decode: windows of decoded instructions and the cache of predecessors
--     (emu_decode_internal.c)
--   Sha: the digest of images (emu_sha_internal.c); Sha.Standard has the definitions of FIPS 180-4
--     that it is compared with, with the tables computed from the roots of primes
--   Hex: the loader of Intel HEX files (emu.c)
-- Modules below a component hold the proofs on it. Base has the names that all share, the
-- comparisons, arrays and bits of numbers; Tests has concrete states and runs.
--
-- Numbers are natural numbers with the casts of C written out (`u8`, `u16`, `u32`, `u64`); a fixed
-- array is a function of its index; a subtraction that may go below zero in C is offset by a power
-- of two that the following mask removes. Callbacks of the host are functions of the record Host;
-- an observer may change the caller's own fault flag alone, since it is handed a constant record,
-- and the records are logged in `notices`. The abort predicate reads that flag.
--
-- Loops over a fixed range are unrolled or by structural recursion. `apply_due` runs on the number
-- of queued events, which is enough since every round takes one off and none adds any. `drain` and
-- `run_loop` take fuel from the caller and return nothing where it is used up; for `drain` one round
-- more than there are pending cycles is enough. `update_chunks` of the digest runs on the number of
-- bytes, of which every round takes one at least; `load_records` on two more than the characters of
-- the file, since a record takes some or meets the end.
--
-- In the debugger an array that comes with a count is the list of its elements, a status that is a
-- failure is a value, and the sizes of structures, which depend on the compiler, are a parameter, as
-- are whether `calloc` gives memory and the array of decoders in Debug.Decode. A format string of
-- `sprintf` is the list of its pieces; a text is the list of its character codes without the NUL.
-- A window is decoded with the disassembler by `Disasm.disassemble` in the place of that array.
--
-- Not modelled: the private observation attachment, which is null here, so that the facts
-- `EMU_RAW_*` are dropped and `emu_cpu_irq_write` is the store alone; a null code memory; an upper
-- memory other than the CPU's own; the symbol `__8052__`, which the Makefile does not define; the
-- texts of outcomes in JSON; the commands and the trace of the debugger, its server and sessions
-- (emu_debug.c, emu_debug_trace.c, emu_debug_runtime.c, emu_debug_server.c, emu_session.c), the
-- copy of state in and out for a client (emu_cpu_facade.c), the JSON reader and the trace files
-- (emu_json_internal.c, emu_trace_internal.c), the raw loader (binary_loader.c), the runtime host
-- (runtime/) and the terminal interface (the rest of emu.c, mainview.c, popups.c, options.c, memeditor.c,
-- logicboard.c), which surround the core.
pub mod Base
pub mod Cpu
pub mod Pins
pub mod IrqSync
pub mod External
pub mod Schedule
pub mod Uart
pub mod Adc
pub mod Sfr
pub mod Memory
pub mod IrqService
pub mod ClassicIrq
pub mod Timers
pub mod Ops
pub mod Dispatch
pub mod Tick
pub mod Run
pub mod Reset
pub mod Debug
pub mod Sha
pub mod Disasm
pub mod Hex
mod Tests
