-- ===== src/Run.antt =====
-- The run control of core.c: ticks until a stop condition holds, with the reason of the stop.
pub mod Drain
use emu_sa80535_n.Base.{ℕ, zero, suc, ◌+◌, ◌-◌, ◌^◌, Bool, false, Option, none, some}
use emu_sa80535_n.Base.{◌==◌, leb, ◌&&◌, not, if◌then◌else◌, u64, has}
use emu_sa80535_n.Cpu.Regs.{reg_pcon}
use emu_sa80535_n.Cpu.{Cpu, Exception, Host, execution_aborted}
use emu_sa80535_n.Memory.{Handler}
use emu_sa80535_n.Tick.{tick}

pub data StopReason : Type 0 where
  instruction_limit breakpoint target_pc exception halt aborted : StopReason

pub record RunResult : Type 0 where
  pub reason : StopReason
  pub instructions : ℕ
  pub machine_cycles : ℕ
  pub pc : ℕ
  pub exception_code : Option Exception

-- `fill_run_result`. Differences of `uint64_t` wrap; `none` stands for the code -1.
unfoldable pub fill_run_result : Cpu → StopReason → ℕ → ℕ → RunResult
fill_run_result c reason start_instructions start_cycles = record {
  reason = reason;
  instructions = u64 (c.instruction_count + 2 ^ 64 - start_instructions);
  machine_cycles = u64 (c.machine_cycle_count + 2 ^ 64 - start_cycles);
  pc = c.pc;
  exception_code = if c.exception_raised then c.last_exception else none;
}

-- The stop conditions of `run_control` at a completed cycle, in the order of the code.
unfoldable pub stop_reason : Option ℕ → ℕ → ℕ → Cpu → Option StopReason
stop_reason target max_instructions start_instructions c =
    let at_target : Bool = elim target [ none ↦ false | some pc ↦ c.pc == pc ] in
    if execution_aborted c
    then some aborted
    else if c.exception_raised
    then some exception
    else if at_target
    then some target_pc
    else if c.breakpoint_enabled && c.pc == c.breakpoint
    then some breakpoint
    else if has (c.sfr reg_pcon) 0x03
    then some halt
    else if leb max_instructions (u64 (c.instruction_count + 2 ^ 64 - start_instructions))
    then some instruction_limit
    else none

-- `mExceptionRaised = false; mLastException = -1`.
abbrev clear_exception : Cpu → Cpu
clear_exception c = record c { exception_raised = false; last_exception = none }

-- `em8051_set_breakpoint`.
unfoldable pub set_breakpoint : ℕ → Bool → Cpu → Cpu
set_breakpoint pc enabled c = record c { breakpoint = pc; breakpoint_enabled = enabled }

module _ (host : Host) (op : ℕ → Handler) where
  -- The inner loop: ticks until no cycle is pending or the host aborts. A pending tick takes one
  -- cycle off `tick_delay` before anything else happens.
  unfoldable pub drain : ℕ → Cpu → Option Cpu
  drain zero c = none
  drain (suc fuel) c =
      let rest = drain fuel (tick host op c).1 in
      if not (c.tick_delay == 0) && not (execution_aborted c) then rest else some c

  -- The outer loop. `none` is a run that is still going when the fuel is used up.
  unfoldable pub run_loop : ℕ → Option ℕ → ℕ → ℕ → Cpu → Option (StopReason × Cpu)
  run_loop zero target limit start c = none
  run_loop (suc fuel) target limit start c =
      let drained = drain fuel c in
      elim drained [
        | none ↦ none
        | some c1 ↦ elim (stop_reason target limit start c1) [
          | some reason ↦ some (reason, c1)
          | none ↦ run_loop fuel target limit start (tick host op c1).1
        ]
      ]

  -- `run_control`.
  unfoldable pub run_control : ℕ → Option ℕ → ℕ → Cpu → Option (RunResult × Cpu)
  unfolding run_loop
  run_control fuel target limit c =
      elim (run_loop fuel target limit c.instruction_count (clear_exception c)) [
        | none ↦ none
        | some (reason, c1) ↦
            some (fill_run_result c1 reason c.instruction_count c.machine_cycle_count, c1)
      ]

  -- `em8051_run`, `em8051_step_instruction` and `em8051_run_until_pc`.
  unfoldable pub run : ℕ → ℕ → Cpu → Option (RunResult × Cpu)
  run fuel limit c = run_control fuel none limit c

  unfoldable pub step_instruction : ℕ → Cpu → Option (RunResult × Cpu)
  step_instruction fuel c = run fuel 1 c

  unfoldable pub run_until_pc : ℕ → ℕ → ℕ → Cpu → Option (RunResult × Cpu)
  run_until_pc fuel target limit c = run_control fuel (some target) limit c
