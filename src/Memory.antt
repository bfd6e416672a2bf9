-- ===== src/Memory.antt =====
-- Memory accesses of opcodes.c: direct and indirect addresses, the fetch of an instruction's bytes,
-- the register banks and the stack.
pub mod Stack
use emu_sa80535_n.Base.{ℕ, ◌+◌, ◌-◌, ◌*◌, ◌/◌, ◌%◌, Bool, true, false, Option, none, some, bit_and}
use emu_sa80535_n.Base.{bit_or, ◌==◌, ltb, ◌&&◌, not, if◌then◌else◌, u8, u16, update, ◌<<<◌, ◌>>>◌}
use emu_sa80535_n.Cpu.Regs.{reg_acc, reg_psw, reg_sp, reg_dph, reg_dpl, sfr_index}
use emu_sa80535_n.Cpu.Masks.{psw_rs0, psw_rs1, psw_c}
use emu_sa80535_n.Cpu.{Cpu, Host, set_sfr, raise_exception, stack}
use emu_sa80535_n.Sfr.{sfr_read, sfr_rmw_read, sfr_write}

-- A handler returns the ticks to delay and the new state.
abbrev pub Handler : Type 0
Handler = Cpu → ℕ × Cpu

abbrev pub bad_value : ℕ
bad_value = 0x77

-- `ACC`, `PSW`, `DPTR`, `CODEMEM`, `OPCODE` and `OPERAND1`, `OPERAND2`.
abbrev pub acc : Cpu → ℕ
acc c = c.sfr reg_acc

abbrev pub psw : Cpu → ℕ
psw c = c.sfr reg_psw

abbrev pub dptr : Cpu → ℕ
dptr c = bit_or (c.sfr reg_dph <<< 8) (c.sfr reg_dpl)

abbrev pub code_at : Cpu → ℕ → ℕ
code_at c x = c.code_mem (bit_and x c.code_mem_max_idx)

abbrev pub opcode : Cpu → ℕ
opcode c = code_at c c.pc

abbrev pub operand : Cpu → ℕ → ℕ
operand c offset = code_at c (c.pc + offset)

-- `PSW_BANK`, `RX_ADDRESS`, `INDIR_RX_ADDRESS` and `CARRY`.
abbrev pub psw_bank : Cpu → ℕ
psw_bank c = bit_and (psw c) (bit_or psw_rs0 psw_rs1) >>> 3

abbrev pub rx_address : Cpu → ℕ
rx_address c = bit_and (opcode c) 7 + 8 * psw_bank c

abbrev pub indir_rx_address : Cpu → ℕ
indir_rx_address c = c.lower_data (bit_and (opcode c) 1 + 8 * psw_bank c)

abbrev pub carry : Cpu → ℕ
carry c = bit_and (psw c) psw_c >>> 7

abbrev pub set_acc : ℕ → Cpu → Cpu
set_acc value c = set_sfr reg_acc value c

abbrev pub set_psw : ℕ → Cpu → Cpu
set_psw value c = set_sfr reg_psw value c

abbrev pub set_lower : ℕ → ℕ → Cpu → Cpu
set_lower address value c = record c { lower_data = update c.lower_data address value }

-- `PC += n`.
abbrev pub advance : ℕ → Cpu → Cpu
advance n c = record c { pc = u16 (c.pc + n) }

-- `(signed char)x` modulo 2 ^ 16, and `PC += (signed char)x + n`.
abbrev pub sign_extend : ℕ → ℕ
sign_extend x = if ltb x 0x80 then x else x + 0xff00

abbrev pub branch : ℕ → ℕ → Cpu → Cpu
branch offset n c = record c { pc = u16 (c.pc + sign_extend offset + n) }

unfoldable pub read_mem_indir : Cpu → ℕ → ℕ
read_mem_indir c address =
    if ltb 0x7f address
    then if c.upper_data then c.owned_upper_data (address - 0x80) else bad_value
    else c.lower_data address

unfoldable pub write_mem_indir : ℕ → ℕ → Cpu → Cpu
write_mem_indir address value c =
    if ltb 0x7f address
    then if c.upper_data
      then record c { owned_upper_data = update c.owned_upper_data (address - 0x80) value }
      else c
    else set_lower address value c

module _ (host : Host) where
  unfoldable pub read_mem : ℕ → Cpu → ℕ × Cpu
  unfolding sfr_read
  read_mem address c =
      if ltb 0x7f address then sfr_read host address c else (c.lower_data address, c)

  -- The observation around a read of SBUF goes to the null attachment.
  unfoldable pub read_mem_rmw : ℕ → Cpu → ℕ × Cpu
  unfolding sfr_rmw_read
  read_mem_rmw address c =
      if ltb 0x7f address then sfr_rmw_read host address c else (c.lower_data address, c)

  unfoldable pub write_mem : ℕ → ℕ → Cpu → Cpu
  unfolding sfr_write
  write_mem address value c =
      if ltb 0x7f address then sfr_write host address value c else set_lower address value c

  unfoldable pub push_to_stack : ℕ → Cpu → Bool × Cpu
  unfolding write_mem_indir
  push_to_stack value c =
      let sp = u8 (c.sfr reg_sp + 1) in
      let c1 = set_sfr reg_sp sp c in
      let c2 = write_mem_indir sp value c1 in
      if ltb 0x7f sp && not c.upper_data
      then (false, raise_exception host stack c1)
      else if sp == 0
      then (false, raise_exception host stack c2)
      else (true, c2)

  -- `none` is a failure, which leaves the caller's variable alone.
  unfoldable pub pop_from_stack : Cpu → Option ℕ × Cpu
  unfolding read_mem_indir
  pop_from_stack c =
      let sp = c.sfr reg_sp in
      let c1 = set_sfr reg_sp (u8 (sp + 255)) c in
      if ltb 0x7f sp && not c.upper_data
      then (none, raise_exception host stack c)
      else if u8 (sp + 255) == 0xff
      then (none, raise_exception host stack c1)
      else (some (read_mem_indir c sp), c1)
