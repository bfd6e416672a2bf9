-- ===== src/Ops/Rotate.antt =====
-- Opcodes of opcodes.c on the accumulator or the carry alone.
pub mod Inverse
pub mod Carry
use emu_sa80535_n.Base.{ℕ, ◌+◌, ◌-◌, ◌*◌, ◌/◌, ◌%◌, Bool, true, false, bit_and, bit_or, bit_xor}
use emu_sa80535_n.Base.{◌==◌, not, if◌then◌else◌, compl, u8, ◌<<<◌, ◌>>>◌}
use emu_sa80535_n.Cpu.Masks.{psw_c}
use emu_sa80535_n.Cpu.{Cpu, Host, execution_aborted, raise_exception, illegal_opcode}
use emu_sa80535_n.Memory.{Handler, acc, psw, carry, opcode, set_acc, set_psw, advance}
use emu_sa80535_n.Ops.Flags.{set_carry, clear_carry}

-- `PSW = (PSW & ~PSWMASK_C) | (value << PSW_C)`.
abbrev pub store_carry : ℕ → Cpu → Cpu
store_carry value c = set_psw (bit_or (bit_and (psw c) (compl psw_c)) (value <<< 7)) c

unfoldable pub rr_a : Handler
rr_a c = (0, advance 1 (set_acc (u8 (bit_or (acc c >>> 1) (acc c <<< 7))) c))

unfoldable pub rl_a : Handler
rl_a c = (0, advance 1 (set_acc (u8 (bit_or (acc c <<< 1) (acc c >>> 7))) c))

unfoldable pub rrc_a : Handler
rrc_a c =
    let newc = bit_and (acc c) 1 in
    (0, advance 1 (store_carry newc (set_acc (u8 (bit_or (acc c >>> 1) (carry c <<< 7))) c)))

unfoldable pub rlc_a : Handler
rlc_a c =
    let new_carry = acc c >>> 7 in
    (0, advance 1 (store_carry new_carry (set_acc (u8 (bit_or (acc c <<< 1) (carry c))) c)))

unfoldable pub swap_a : Handler
swap_a c = (0, advance 1 (set_acc (u8 (bit_or (acc c <<< 4) (acc c >>> 4))) c))

unfoldable pub clr_a : Handler
clr_a c = (0, advance 1 (set_acc 0 c))

unfoldable pub cpl_a : Handler
cpl_a c = (0, advance 1 (set_acc (compl (acc c)) c))

unfoldable pub cpl_c : Handler
cpl_c c = (0, advance 1 (set_psw (bit_xor (psw c) psw_c) c))

unfoldable pub clr_c : Handler
clr_c c = (0, advance 1 (clear_carry c))

unfoldable pub setb_c : Handler
setb_c c = (0, advance 1 (set_carry c))

-- The reserved opcode is decoded as `nop` too, and raises.
unfoldable pub nop : Host → Handler
nop host c =
    let c1 = if opcode c == 0 then c else raise_exception host illegal_opcode c in
    (0, if execution_aborted c1 then c1 else advance 1 c1)
