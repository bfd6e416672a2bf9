-- ===== src/Ops/Arith.antt =====
-- Arithmetic opcodes of opcodes.c.
pub mod AddSub
pub mod MulDiv
pub mod Decimal
use emu_sa80535_n.Base.{ℕ, ◌+◌, ◌-◌, ◌*◌, ◌/◌, ◌%◌, Bool, true, false, bit_and, bit_or}
use emu_sa80535_n.Base.{◌==◌, ltb, ◌||◌, not, if◌then◌else◌, compl, u8, u16, has, ◌>>>◌}
use emu_sa80535_n.Cpu.Regs.{reg_b, reg_dpl, reg_dph}
use emu_sa80535_n.Cpu.Masks.{psw_c, psw_ac, psw_ov}
use emu_sa80535_n.Cpu.{Cpu, Host, set_sfr, execution_aborted}
use emu_sa80535_n.Memory.{
  Handler, acc, psw, operand, carry, rx_address, indir_rx_address, set_acc, set_psw, set_lower,
  advance, read_mem, read_mem_rmw, write_mem, read_mem_indir, write_mem_indir,
}
use emu_sa80535_n.Ops.Flags.{add_solve_flags, sub_solve_flags}

unfoldable pub inc_a : Handler
inc_a c = (0, advance 1 (set_acc (u8 (acc c + 1)) c))

unfoldable pub dec_a : Handler
dec_a c = (0, advance 1 (set_acc (u8 (acc c + 255)) c))

unfoldable pub inc_indir_rx : Handler
inc_indir_rx c =
    let address = indir_rx_address c in
    (0, advance 1 (write_mem_indir address (u8 (read_mem_indir c address + 1)) c))

unfoldable pub dec_indir_rx : Handler
dec_indir_rx c =
    let address = indir_rx_address c in
    (0, advance 1 (write_mem_indir address (u8 (read_mem_indir c address + 255)) c))

unfoldable pub inc_rx : Handler
inc_rx c = let rx = rx_address c in (0, advance 1 (set_lower rx (u8 (c.lower_data rx + 1)) c))

unfoldable pub dec_rx : Handler
dec_rx c = let rx = rx_address c in (0, advance 1 (set_lower rx (u8 (c.lower_data rx + 255)) c))

unfoldable pub inc_dptr : Handler
inc_dptr c =
    let low = u8 (c.sfr reg_dpl + 1) in
    let c1 = set_sfr reg_dpl low c in
    let c2 = set_sfr reg_dph (u8 (c1.sfr reg_dph + 1)) c1 in
    (1, advance 1 (if low == 0 then c2 else c1))

-- `add_solve_flags(ACC, value, carry); ACC += value + carry`.
unfoldable pub add_to_acc : ℕ → ℕ → Cpu → Cpu
add_to_acc value carryin c =
    let c1 = add_solve_flags (acc c) value carryin c in set_acc (u8 (acc c1 + value + carryin)) c1

unfoldable pub add_a_imm : Handler
add_a_imm c = (0, advance 2 (add_to_acc (operand c 1) 0 c))

unfoldable pub add_a_indir_rx : Handler
add_a_indir_rx c = (0, advance 1 (add_to_acc (read_mem_indir c (indir_rx_address c)) 0 c))

unfoldable pub addc_a_imm : Handler
addc_a_imm c = (0, advance 2 (add_to_acc (operand c 1) (carry c) c))

unfoldable pub addc_a_indir_rx : Handler
addc_a_indir_rx c = (0, advance 1 (add_to_acc (read_mem_indir c (indir_rx_address c)) (carry c) c))

-- The register forms hand the operands to `add_solve_flags` the other way round.
unfoldable pub add_rx_to_acc : ℕ → Cpu → Cpu
add_rx_to_acc carryin c =
    let value = c.lower_data (rx_address c) in
    let c1 = add_solve_flags value (acc c) carryin c in set_acc (u8 (acc c1 + value + carryin)) c1

unfoldable pub add_a_rx : Handler
add_a_rx c = (0, advance 1 (add_rx_to_acc 0 c))

unfoldable pub addc_a_rx : Handler
addc_a_rx c = (0, advance 1 (add_rx_to_acc (carry c) c))

-- `sub_solve_flags(ACC, value, carry); ACC -= value + carry`.
unfoldable pub sub_from_acc : ℕ → ℕ → Cpu → Cpu
sub_from_acc value carryin c =
    let c1 = sub_solve_flags (acc c) value carryin c in
    set_acc (u8 (acc c1 + 512 - value - carryin)) c1

unfoldable pub subb_a_imm : Handler
subb_a_imm c = (0, advance 2 (sub_from_acc (operand c 1) (carry c) c))

unfoldable pub subb_a_indir_rx : Handler
subb_a_indir_rx c =
    (0, advance 1 (sub_from_acc (read_mem_indir c (indir_rx_address c)) (carry c) c))

unfoldable pub subb_a_rx : Handler
subb_a_rx c = (0, advance 1 (sub_from_acc (c.lower_data (rx_address c)) (carry c) c))

unfoldable pub mul_ab : Handler
mul_ab c =
    let res = u16 (acc c * c.sfr reg_b) in
    let c1 = set_sfr reg_b (u8 (res >>> 8)) (set_acc (bit_and res 0xff) c) in
    let c2 = set_psw (bit_and (psw c1) (compl (bit_or psw_c psw_ov))) c1 in
    let c3 = set_psw (bit_or (psw c2) psw_ov) c2 in
    (3, advance 1 (if c2.sfr reg_b == 0 then c2 else c3))

unfoldable pub div_ab : Handler
div_ab c =
    let a = acc c in
    let b = c.sfr reg_b in
    let c1 = set_psw (bit_and (psw c) (compl (bit_or psw_c psw_ov))) c in
    let divided = set_sfr reg_b (a % b) (set_acc (a / b) c1) in
    let undefined = set_sfr reg_b b (set_acc a (set_psw (bit_or (psw c1) psw_ov) c1)) in
    (3, advance 1 (if b == 0 then undefined else divided))

unfoldable pub da_a : Handler
da_a c =
    let r0 = acc c in
    let r1 = if ltb 9 (bit_and r0 0xf) || has (psw c) psw_ac then u16 (r0 + 0x6) else r0 in
    let r2 = if ltb 0x90 (bit_and r1 0xff0) || has (psw c) psw_c then u16 (r1 + 0x60) else r1 in
    let c1 = if ltb 0x99 r2 then set_psw (bit_or (psw c) psw_c) c else c in
    (0, advance 1 (set_acc (u8 r2) c1))

module _ (host : Host) where
  unfoldable pub inc_mem : Handler
  unfolding read_mem_rmw write_mem
  inc_mem c =
      let address = operand c 1 in
      let (value, c1) = read_mem_rmw host address c in
      let c2 = write_mem host address (u8 (value + 1)) c1 in
      (0, if execution_aborted c2 then c2 else advance 2 c2)

  unfoldable pub dec_mem : Handler
  unfolding read_mem_rmw write_mem
  dec_mem c =
      let address = operand c 1 in
      let (value, c1) = read_mem_rmw host address c in
      let c2 = write_mem host address (u8 (value + 255)) c1 in
      (0, if execution_aborted c2 then c2 else advance 2 c2)

  unfoldable pub add_a_mem : Handler
  unfolding read_mem
  add_a_mem c =
      let (value, c1) = read_mem host (operand c 1) c in (0, advance 2 (add_to_acc value 0 c1))

  -- The carry is read before the operand.
  unfoldable pub addc_a_mem : Handler
  unfolding read_mem
  addc_a_mem c =
      let (value, c1) = read_mem host (operand c 1) c in
      (0, advance 2 (add_to_acc value (carry c) c1))

  unfoldable pub subb_a_mem : Handler
  unfolding read_mem
  subb_a_mem c =
      let (value, c1) = read_mem host (operand c 1) c in
      (0, advance 2 (sub_from_acc value (carry c) c1))
