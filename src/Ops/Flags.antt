-- ===== src/Ops/Flags.antt =====
-- The flags of additions and subtractions, and of comparisons, in opcodes.c.
pub mod Sums
pub mod Store
use emu_sa80535_n.Base.{ℕ, ◌+◌, ◌-◌, ◌*◌, ◌/◌, ◌%◌, Bool, true, false, bit_and, bit_or}
use emu_sa80535_n.Base.{◌==◌, ltb, not, if◌then◌else◌, compl, ◌<<<◌, ◌>>>◌}
use emu_sa80535_n.Cpu.Masks.{psw_c, psw_ac, psw_ov}
use emu_sa80535_n.Cpu.{Cpu}
use emu_sa80535_n.Memory.{psw, set_psw}

-- `!=` of two flags, which is their `^`.
abbrev differs : ℕ → ℕ → ℕ
differs a b = (a + b) % 2

-- The store of both flag functions: C, AC and OV, the other bits kept.
unfoldable pub store_flags : ℕ → ℕ → ℕ → Cpu → Cpu
store_flags c ac ov cpu =
    set_psw
      (bit_or
        (bit_or (bit_or (bit_and (psw cpu) (compl (bit_or (bit_or psw_c psw_ac) psw_ov))) (c <<< 7))
          (ac <<< 6))
        (ov <<< 2))
      cpu

-- The three flags of an addition. `carryin` is 0 or 1, and a `bool` is 0 or 1 after its conversion.
unfoldable pub add_carry : ℕ → ℕ → ℕ → ℕ
add_carry value1 value2 carryin = (bit_and value1 255 + bit_and value2 255 + carryin) >>> 8

unfoldable pub add_auxcarry : ℕ → ℕ → ℕ → ℕ
add_auxcarry value1 value2 carryin = (bit_and value1 7 + bit_and value2 7 + carryin) >>> 3

unfoldable pub add_overflow : ℕ → ℕ → ℕ → ℕ
unfolding add_carry
add_overflow value1 value2 carryin =
    differs ((bit_and value1 127 + bit_and value2 127 + carryin) >>> 7)
      (add_carry value1 value2 carryin)

unfoldable pub add_solve_flags : ℕ → ℕ → ℕ → Cpu → Cpu
add_solve_flags value1 value2 carryin cpu =
    store_flags (add_carry value1 value2 carryin) (add_auxcarry value1 value2 carryin)
      (add_overflow value1 value2 carryin) cpu

-- Bit `k` of the `int` `a - b - carryin`, as an arithmetic shift reads it; 2 ^ 16 keeps the
-- difference from going below 0 and leaves these bits as they are.
abbrev difference_bit : ℕ → ℕ → ℕ → ℕ → ℕ
difference_bit a b carryin k = bit_and ((a + 65536 - b - carryin) >>> k) 1

unfoldable pub sub_carry : ℕ → ℕ → ℕ → ℕ
sub_carry value1 value2 carryin = difference_bit (bit_and value1 255) (bit_and value2 255) carryin 8

unfoldable pub sub_auxcarry : ℕ → ℕ → ℕ → ℕ
sub_auxcarry value1 value2 carryin = difference_bit (bit_and value1 7) (bit_and value2 7) carryin 3

unfoldable pub sub_overflow : ℕ → ℕ → ℕ → ℕ
unfolding sub_carry
sub_overflow value1 value2 carryin =
    differs (difference_bit (bit_and value1 127) (bit_and value2 127) carryin 7)
      (sub_carry value1 value2 carryin)

unfoldable pub sub_solve_flags : ℕ → ℕ → ℕ → Cpu → Cpu
sub_solve_flags value1 value2 carryin cpu =
    store_flags (sub_carry value1 value2 carryin) (sub_auxcarry value1 value2 carryin)
      (sub_overflow value1 value2 carryin) cpu

-- `PSW |= PSWMASK_C` and `PSW &= ~PSWMASK_C`.
abbrev pub set_carry : Cpu → Cpu
set_carry c = set_psw (bit_or (psw c) psw_c) c

abbrev pub clear_carry : Cpu → Cpu
clear_carry c = set_psw (bit_and (psw c) (compl psw_c)) c

-- The carry of a comparison: set where the first value is the smaller.
abbrev pub compare_carry : ℕ → ℕ → Cpu → Cpu
compare_carry value1 value2 c = if ltb value1 value2 then set_carry c else clear_carry c
