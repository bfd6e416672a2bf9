-- ===== src/Ops/Move.antt =====
-- Data moves of opcodes.c, MOVX excepted.
use emu_sa80535_n.Base.{◌+◌, bit_and, bit_or}
use emu_sa80535_n.Base.{◌==◌, if◌then◌else◌, u16}
use emu_sa80535_n.Cpu.Regs.{reg_acc, reg_dph, reg_dpl}
use emu_sa80535_n.Cpu.{Host, set_sfr, execution_aborted, raise_exception, acc_to_a}
use emu_sa80535_n.Memory.{
  Handler, acc, dptr, code_at, operand, rx_address, indir_rx_address, set_acc, set_lower, advance,
  read_mem, write_mem, read_mem_indir, write_mem_indir,
}

unfoldable pub mov_a_imm : Handler
mov_a_imm c = (0, advance 2 (set_acc (operand c 1) c))

unfoldable pub mov_indir_rx_imm : Handler
mov_indir_rx_imm c = (0, advance 2 (write_mem_indir (indir_rx_address c) (operand c 1) c))

unfoldable pub movc_a_indir_a_pc : Handler
movc_a_indir_a_pc c = (0, advance 1 (set_acc (code_at c (u16 (c.pc + 1 + acc c))) c))

unfoldable pub movc_a_indir_a_dptr : Handler
movc_a_indir_a_dptr c = (1, advance 1 (set_acc (code_at c (u16 (dptr c + acc c))) c))

unfoldable pub mov_dptr_imm : Handler
mov_dptr_imm c =
    let c1 = set_sfr reg_dph (operand c 1) c in (1, advance 3 (set_sfr reg_dpl (operand c1 2) c1))

unfoldable pub mov_a_indir_rx : Handler
mov_a_indir_rx c = (0, advance 1 (set_acc (read_mem_indir c (indir_rx_address c)) c))

unfoldable pub mov_indir_rx_a : Handler
mov_indir_rx_a c = (0, advance 1 (write_mem_indir (indir_rx_address c) (acc c) c))

unfoldable pub mov_rx_imm : Handler
mov_rx_imm c = (0, advance 2 (set_lower (rx_address c) (operand c 1) c))

unfoldable pub mov_a_rx : Handler
mov_a_rx c = (0, advance 1 (set_acc (c.lower_data (rx_address c)) c))

unfoldable pub mov_rx_a : Handler
mov_rx_a c = (0, advance 1 (set_lower (rx_address c) (acc c) c))

unfoldable pub xch_a_indir_rx : Handler
xch_a_indir_rx c =
    let address = indir_rx_address c in
    let value = read_mem_indir c address in
    (0, advance 1 (set_acc value (write_mem_indir address (acc c) c)))

unfoldable pub xch_a_rx : Handler
xch_a_rx c =
    let rx = rx_address c in
    let a = acc c in (0, advance 1 (set_lower rx a (set_acc (c.lower_data rx) c)))

unfoldable pub xchd_a_indir_rx : Handler
xchd_a_indir_rx c =
    let address = indir_rx_address c in
    let value = read_mem_indir c address in
    let c1 = set_acc (bit_or (bit_and (acc c) 0xf0) (bit_and value 0x0f)) c in
    let value' = bit_or (bit_and value 0xf0) (bit_and (acc c1) 0x0f) in
    (0, advance 1 (write_mem_indir address value' c1))

module _ (host : Host) where
  unfoldable pub mov_mem_imm : Handler
  unfolding write_mem
  mov_mem_imm c =
      let c1 = write_mem host (operand c 1) (operand c 2) c in
      if execution_aborted c1 then (0, c1) else (1, advance 3 c1)

  unfoldable pub mov_mem_mem : Handler
  unfolding read_mem write_mem
  mov_mem_mem c =
      let (value, c1) = read_mem host (operand c 1) c in
      let c2 = write_mem host (operand c 2) value c1 in
      if execution_aborted c2 then (0, c2) else (1, advance 3 c2)

  unfoldable pub mov_mem_indir_rx : Handler
  unfolding write_mem
  mov_mem_indir_rx c =
      let value = read_mem_indir c (indir_rx_address c) in
      let c1 = write_mem host (operand c 1) value c in
      if execution_aborted c1 then (0, c1) else (1, advance 2 c1)

  unfoldable pub mov_indir_rx_mem : Handler
  unfolding read_mem
  mov_indir_rx_mem c =
      let address_to = indir_rx_address c in
      let (value, c1) = read_mem host (operand c 1) c in
      (1, advance 2 (write_mem_indir address_to value c1))

  unfoldable pub xch_a_mem : Handler
  unfolding read_mem write_mem
  xch_a_mem c =
      let address = operand c 1 in
      let (value, c1) = read_mem host address c in
      let c2 = write_mem host address (acc c1) c1 in
      (0, if execution_aborted c2 then c2 else advance 2 (set_acc value c2))

  unfoldable pub mov_a_mem : Handler
  unfolding read_mem
  mov_a_mem c =
      let address = operand c 1 in
      let (value, c1) = read_mem host address c in
      let c2 = if reg_acc + 0x80 == address then raise_exception host acc_to_a c1 else c1 in
      (0, if execution_aborted c2 then c2 else advance 2 (set_acc value c2))

  unfoldable pub mov_mem_a : Handler
  unfolding write_mem
  mov_mem_a c =
      let c1 = write_mem host (operand c 1) (acc c) c in
      (0, if execution_aborted c1 then c1 else advance 2 c1)

  unfoldable pub mov_mem_rx : Handler
  unfolding write_mem
  mov_mem_rx c =
      let c1 = write_mem host (operand c 1) (c.lower_data (rx_address c)) c in
      if execution_aborted c1 then (0, c1) else (1, advance 2 c1)

  unfoldable pub mov_rx_mem : Handler
  unfolding read_mem
  mov_rx_mem c =
      let rx = rx_address c in
      let (value, c1) = read_mem host (operand c 1) c in (1, advance 2 (set_lower rx value c1))
