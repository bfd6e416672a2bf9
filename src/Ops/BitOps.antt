-- ===== src/Ops/BitOps.antt =====
-- Opcodes of opcodes.c on one bit of a bit-addressable register or of the RAM at 20 to 2F.
pub mod Ram
use emu_sa80535_n.Base.{ℕ, ◌+◌, ◌*◌, Bool, bit_and, bit_or, bit_xor}
use emu_sa80535_n.Base.{ltb, if◌then◌else◌, compl, u8, has, ◌<<<◌, ◌>>>◌}
use emu_sa80535_n.Cpu.Regs.{sfr_index}
use emu_sa80535_n.Cpu.Masks.{psw_c}
use emu_sa80535_n.Cpu.{Cpu, Host, execution_aborted}
use emu_sa80535_n.Sfr.{sfr_read, sfr_write}
use emu_sa80535_n.Memory.{Handler, psw, carry, operand, set_psw, set_lower, advance, branch}

-- `bitmask`, the register of a bit address above 7F, and the RAM byte of one below 80.
abbrev pub bitmask : ℕ → ℕ
bitmask address = u8 (1 <<< bit_and address 7)

abbrev pub bit_register : ℕ → ℕ
bit_register address = bit_and address 0xf8

abbrev pub bit_byte : ℕ → ℕ
bit_byte address = u8 ((address >>> 3) + 0x20)

-- `PSW = (PSW & ~PSWMASK_C) | (PSWMASK_C * value)`.
abbrev pub put_carry : ℕ → Cpu → Cpu
put_carry value c = set_psw (bit_or (bit_and (psw c) (compl psw_c)) (psw_c * value)) c

module _ (host : Host) where
  -- `value & bitmask` at a bit address: through the register gateway, or from RAM.
  unfoldable pub read_bit : ℕ → Cpu → Bool × Cpu
  unfolding sfr_read
  read_bit address c =
      let (value, c1) = sfr_read host (bit_register address) c in
      if ltb 0x7f address
      then (has value (bitmask address), c1)
      else (has (c.lower_data (bit_byte address)) (bitmask address), c)

  unfoldable pub orl_c_bitaddr : Handler
  unfolding read_bit
  orl_c_bitaddr c =
      let (value, c1) = read_bit (operand c 1) c in
      (1, advance 2 (put_carry (if value then 1 else carry c) c1))

  unfoldable pub anl_c_bitaddr : Handler
  unfolding read_bit
  anl_c_bitaddr c =
      let (value, c1) = read_bit (operand c 1) c in
      (0, advance 2 (put_carry (if value then carry c else 0) c1))

  unfoldable pub orl_c_compl_bitaddr : Handler
  unfolding read_bit
  orl_c_compl_bitaddr c =
      let (value, c1) = read_bit (operand c 1) c in
      (0, advance 2 (put_carry (if value then carry c else 1) c1))

  unfoldable pub anl_c_compl_bitaddr : Handler
  unfolding read_bit
  anl_c_compl_bitaddr c =
      let (value, c1) = read_bit (operand c 1) c in
      (0, advance 2 (put_carry (if value then 0 else carry c) c1))

  unfoldable pub mov_c_bitaddr : Handler
  unfolding read_bit
  mov_c_bitaddr c =
      let (value, c1) = read_bit (operand c 1) c in
      (0, advance 2 (put_carry (if value then 1 else 0) c1))

  -- A write of one bit: `change old` is stored, the old value being a register's latch or RAM.
  unfoldable pub change_bit : ℕ → (ℕ → ℕ) → ℕ → Handler
  unfolding sfr_write
  change_bit ticks change address c =
      let register = bit_register address in
      let byte = bit_byte address in
      let c1 = sfr_write host register (change (c.sfr (sfr_index register))) c in
      if ltb 0x7f address
      then if execution_aborted c1 then (0, c1) else (ticks, advance 2 c1)
      else (ticks, advance 2 (set_lower byte (change (c.lower_data byte)) c))

  unfoldable pub mov_bitaddr_c : Handler
  unfolding change_bit
  mov_bitaddr_c c =
      let address = operand c 1 in
      let bit_c = carry c <<< bit_and address 7 in
      change_bit 1 (λ x. bit_or (bit_and x (compl (bitmask address))) bit_c) address c

  unfoldable pub cpl_bitaddr : Handler
  unfolding change_bit
  cpl_bitaddr c =
      let address = operand c 1 in change_bit 0 (λ x. bit_xor x (bitmask address)) address c

  unfoldable pub clr_bitaddr : Handler
  unfolding change_bit
  clr_bitaddr c =
      let address = operand c 1 in change_bit 0 (λ x. bit_and x (compl (bitmask address))) address c

  unfoldable pub setb_bitaddr : Handler
  unfolding change_bit
  setb_bitaddr c =
      let address = operand c 1 in change_bit 0 (λ x. bit_or x (bitmask address)) address c

  -- The offset is fetched after the bit is read.
  unfoldable pub jb_bitaddr_offset : Handler
  unfolding read_bit
  jb_bitaddr_offset c =
      let (value, c1) = read_bit (operand c 1) c in
      (1, if value then branch (operand c1 2) 3 c1 else advance 3 c1)

  unfoldable pub jnb_bitaddr_offset : Handler
  unfolding read_bit
  jnb_bitaddr_offset c =
      let (value, c1) = read_bit (operand c 1) c in
      (1, if value then advance 3 c1 else branch (operand c1 2) 3 c1)

  -- The test reads a register's latch.
  unfoldable pub jbc_bitaddr_offset : Handler
  unfolding sfr_write
  jbc_bitaddr_offset c =
      let address = operand c 1 in
      let register = bit_register address in
      let byte = bit_byte address in
      let latch = c.sfr (sfr_index register) in
      let ram = c.lower_data byte in
      let c1 = sfr_write host register (bit_and latch (compl (bitmask address))) c in
      let c2 = set_lower byte (bit_and ram (compl (bitmask address))) c in
      if ltb 0x7f address
      then if has latch (bitmask address)
        then if execution_aborted c1 then (0, c1) else (1, branch (operand c1 2) 3 c1)
        else (1, advance 3 c)
      else if has ram (bitmask address)
      then (1, branch (operand c2 2) 3 c2)
      else (1, advance 3 c)
