-- ===== src/Ops/Logic.antt =====
-- Logical opcodes of opcodes.c on bytes.
use emu_sa80535_n.Base.{bit_and, bit_or, bit_xor}
use emu_sa80535_n.Base.{ltb, if◌then◌else◌}
use emu_sa80535_n.Cpu.Regs.{sfr_index}
use emu_sa80535_n.Cpu.{Host, execution_aborted}
use emu_sa80535_n.Sfr.{sfr_write}
use emu_sa80535_n.Memory.{
  Handler, acc, operand, rx_address, indir_rx_address, set_acc, set_lower, advance, read_mem,
  read_mem_rmw, write_mem, read_mem_indir,
}

unfoldable pub orl_a_imm : Handler
orl_a_imm c = (0, advance 2 (set_acc (bit_or (acc c) (operand c 1)) c))

unfoldable pub orl_a_indir_rx : Handler
orl_a_indir_rx c =
    (0, advance 1 (set_acc (bit_or (acc c) (read_mem_indir c (indir_rx_address c))) c))

unfoldable pub orl_a_rx : Handler
orl_a_rx c = (0, advance 1 (set_acc (bit_or (acc c) (c.lower_data (rx_address c))) c))

unfoldable pub anl_a_imm : Handler
anl_a_imm c = (0, advance 2 (set_acc (bit_and (acc c) (operand c 1)) c))

unfoldable pub anl_a_indir_rx : Handler
anl_a_indir_rx c =
    (0, advance 1 (set_acc (bit_and (acc c) (read_mem_indir c (indir_rx_address c))) c))

unfoldable pub anl_a_rx : Handler
anl_a_rx c = (0, advance 1 (set_acc (bit_and (acc c) (c.lower_data (rx_address c))) c))

unfoldable pub xrl_a_imm : Handler
xrl_a_imm c = (0, advance 2 (set_acc (bit_xor (acc c) (operand c 1)) c))

unfoldable pub xrl_a_indir_rx : Handler
xrl_a_indir_rx c =
    (0, advance 1 (set_acc (bit_xor (acc c) (read_mem_indir c (indir_rx_address c))) c))

unfoldable pub xrl_a_rx : Handler
xrl_a_rx c = (0, advance 1 (set_acc (bit_xor (acc c) (c.lower_data (rx_address c))) c))

module _ (host : Host) where
  unfoldable pub orl_mem_a : Handler
  unfolding read_mem_rmw write_mem
  orl_mem_a c =
      let address = operand c 1 in
      let (value, c1) = read_mem_rmw host address c in
      let c2 = write_mem host address (bit_or value (acc c1)) c1 in
      (0, if execution_aborted c2 then c2 else advance 2 c2)

  unfoldable pub orl_mem_imm : Handler
  unfolding read_mem_rmw write_mem
  orl_mem_imm c =
      let address = operand c 1 in
      let (value, c1) = read_mem_rmw host address c in
      let c2 = write_mem host address (bit_or value (operand c1 2)) c1 in
      if execution_aborted c2 then (0, c2) else (1, advance 3 c2)

  unfoldable pub orl_a_mem : Handler
  unfolding read_mem
  orl_a_mem c =
      let (value, c1) = read_mem host (operand c 1) c in
      (0, advance 2 (set_acc (bit_or (acc c1) value) c1))

  -- `anl_mem_a` and `xrl_mem_a` read a register's latch themselves.
  unfoldable pub anl_mem_a : Handler
  unfolding sfr_write
  anl_mem_a c =
      let address = operand c 1 in
      let value = bit_and (c.sfr (sfr_index address)) (acc c) in
      let c1 = sfr_write host address value c in
      if ltb 0x7f address
      then (0, if execution_aborted c1 then c1 else advance 2 c1)
      else (0, advance 2 (set_lower address (bit_and (c.lower_data address) (acc c)) c))

  unfoldable pub anl_mem_imm : Handler
  unfolding read_mem_rmw write_mem
  anl_mem_imm c =
      let address = operand c 1 in
      let (value, c1) = read_mem_rmw host address c in
      let c2 = write_mem host address (bit_and value (operand c1 2)) c1 in
      if execution_aborted c2 then (0, c2) else (1, advance 3 c2)

  unfoldable pub anl_a_mem : Handler
  unfolding read_mem
  anl_a_mem c =
      let (value, c1) = read_mem host (operand c 1) c in
      (0, advance 2 (set_acc (bit_and (acc c1) value) c1))

  unfoldable pub xrl_mem_a : Handler
  unfolding sfr_write
  xrl_mem_a c =
      let address = operand c 1 in
      let value = bit_xor (c.sfr (sfr_index address)) (acc c) in
      let c1 = sfr_write host address value c in
      if ltb 0x7f address
      then (0, if execution_aborted c1 then c1 else advance 2 c1)
      else (0, advance 2 (set_lower address (bit_xor (c.lower_data address) (acc c)) c))

  unfoldable pub xrl_mem_imm : Handler
  unfolding read_mem_rmw write_mem
  xrl_mem_imm c =
      let address = operand c 1 in
      let (value, c1) = read_mem_rmw host address c in
      let c2 = write_mem host address (bit_xor value (operand c1 2)) c1 in
      if execution_aborted c2 then (0, c2) else (1, advance 3 c2)

  unfoldable pub xrl_a_mem : Handler
  unfolding read_mem
  xrl_a_mem c =
      let (value, c1) = read_mem host (operand c 1) c in
      (0, advance 2 (set_acc (bit_xor (acc c1) value) c1))
