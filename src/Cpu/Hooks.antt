-- ===== src/Cpu/Hooks.antt =====
-- What a host installs in the CPU, and the calls that reach it: the abort predicate, exceptions
-- and the observers (core.c). The private attachment `mObservation` is null.
use emu_sa80535_n.Base.{ℕ, Bool, true, false, Option, some, ◌∷◌, ◌&&◌, if◌then◌else◌, update, u8}
use emu_sa80535_n.Cpu.State.{Cpu, Exception, Notice, Variant, sab80535, TraceType, traced}

-- The callbacks. `except` and `sfrwrite` do nothing where the pointer is null, so a null pointer is
-- the identity; where the code does something else instead, it is `none`. An observer is handed an
-- immutable record and may only change the caller's own state, which is `user_fault` here.
pub record Host : Type 0 where
  pub except : Cpu → Exception → Cpu
  pub sfrread : ℕ → Option (Cpu → ℕ → ℕ × Cpu)
  pub sfrwrite : ℕ → Cpu → ℕ → Cpu
  pub xread : Option (Cpu → ℕ → ℕ × Cpu)
  pub xwrite : Option (Cpu → ℕ → ℕ → Cpu)
  pub observe : Notice → Bool → Bool

abbrev pub is_sab : Variant → Bool
is_sab sab80535 = true
is_sab _ = false

-- `em8051_execution_aborted`: the predicate is installed and reads a fault.
abbrev pub execution_aborted : Cpu → Bool
execution_aborted c = c.execution_abort && c.user_fault

abbrev pub set_sfr : ℕ → ℕ → Cpu → Cpu
set_sfr index value c = record c { sfr = update c.sfr index value }

-- `emu_cpu_irq_write`, with no observation attached: the store alone.
abbrev pub irq_write : ℕ → ℕ → Cpu → Cpu
irq_write index value c = set_sfr index (u8 value) c

abbrev pub set_pc : ℕ → Cpu → Cpu
set_pc value c = record c { pc = value }

module _ (host : Host) where
  abbrev pub notify : Notice → Cpu → Cpu
  notify n c = record c { notices = n ∷ c.notices; user_fault = host.observe n c.user_fault }

  -- `em8051_raise_exception`.
  abbrev pub raise_exception : Exception → Cpu → Cpu
  raise_exception code c =
      host.except (record c { exception_raised = true; last_exception = some code }) code

  -- The program counter that a record reports.
  abbrev pub trace_emit : TraceType → ℕ → ℕ → Cpu → Cpu
  trace_emit type address value c =
      if execution_aborted c
      then c
      else notify
          (traced type c.machine_cycle_count (if c.in_instruction then c.trace_pc else c.pc) address
            value)
          c
