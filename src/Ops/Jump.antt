-- ===== src/Ops/Jump.antt =====
-- Jumps of opcodes.c other than calls and the jumps on a bit address.
use emu_sa80535_n.Base.{ℕ, ◌+◌, bit_and, bit_or}
use emu_sa80535_n.Base.{◌==◌, if◌then◌else◌, u8, u16, has, ◌<<<◌}
use emu_sa80535_n.Cpu.Masks.{psw_c}
use emu_sa80535_n.Cpu.{Cpu, Host, set_pc, execution_aborted}
use emu_sa80535_n.Memory.{
  Handler, acc, psw, dptr, opcode, operand, rx_address, indir_rx_address, set_lower, advance,
  branch, read_mem, read_mem_rmw, write_mem, read_mem_indir,
}
use emu_sa80535_n.Ops.Flags.{compare_carry}

-- The target of AJMP and ACALL: the page of the next instruction and eleven bits of the code.
unfoldable pub page_address : Cpu → ℕ
page_address c =
    u16 (bit_or (bit_or (bit_and (c.pc + 2) 0xf800) (operand c 1)) (bit_and (opcode c) 0xe0 <<< 3))

unfoldable pub ajmp_offset : Handler
unfolding page_address
ajmp_offset c = (1, set_pc (page_address c) c)

unfoldable pub ljmp_address : Handler
ljmp_address c = (1, set_pc (u16 (bit_or (operand c 1 <<< 8) (operand c 2))) c)

unfoldable pub sjmp_offset : Handler
sjmp_offset c = (1, branch (operand c 1) 2 c)

unfoldable pub jmp_indir_a_dptr : Handler
jmp_indir_a_dptr c = (1, set_pc (u16 (dptr c + acc c)) c)

unfoldable pub jc_offset : Handler
jc_offset c = (1, if has (psw c) psw_c then branch (operand c 1) 2 c else advance 2 c)

unfoldable pub jnc_offset : Handler
jnc_offset c = (1, if has (psw c) psw_c then advance 2 c else branch (operand c 1) 2 c)

unfoldable pub jz_offset : Handler
jz_offset c = (1, if acc c == 0 then branch (operand c 1) 2 c else advance 2 c)

unfoldable pub jnz_offset : Handler
jnz_offset c = (1, if acc c == 0 then advance 2 c else branch (operand c 1) 2 c)

-- Sets the carry, and jumps where the values differ; the offset is the third byte.
unfoldable pub compare_jump : ℕ → ℕ → Cpu → Cpu
compare_jump value1 value2 c =
    let c1 = compare_carry value1 value2 c in
    if value1 == value2 then advance 3 c1 else branch (operand c1 2) 3 c1

unfoldable pub cjne_a_imm_offset : Handler
unfolding compare_jump
cjne_a_imm_offset c = (1, compare_jump (acc c) (operand c 1) c)

unfoldable pub cjne_indir_rx_imm_offset : Handler
unfolding compare_jump
cjne_indir_rx_imm_offset c =
    (1, compare_jump (read_mem_indir c (indir_rx_address c)) (operand c 1) c)

unfoldable pub cjne_rx_imm_offset : Handler
unfolding compare_jump
cjne_rx_imm_offset c = (1, compare_jump (c.lower_data (rx_address c)) (operand c 1) c)

-- The register is looked up once, and counts down before the test.
unfoldable pub djnz_rx_offset : Handler
djnz_rx_offset c =
    let rx = rx_address c in
    let value = u8 (c.lower_data rx + 255) in
    let c1 = set_lower rx value c in
    (1, if value == 0 then advance 2 c1 else branch (operand c1 1) 2 c1)

module _ (host : Host) where
  unfoldable pub cjne_a_mem_offset : Handler
  unfolding read_mem compare_jump
  cjne_a_mem_offset c =
      let (value, c1) = read_mem host (operand c 1) c in (1, compare_jump (acc c1) value c1)

  unfoldable pub djnz_mem_offset : Handler
  unfolding read_mem_rmw write_mem
  djnz_mem_offset c =
      let address = operand c 1 in
      let (old, c1) = read_mem_rmw host address c in
      let value = u8 (old + 255) in
      let c2 = write_mem host address value c1 in
      if execution_aborted c2
      then (0, c2)
      else (1, if value == 0 then advance 3 c2 else branch (operand c2 2) 3 c2)
