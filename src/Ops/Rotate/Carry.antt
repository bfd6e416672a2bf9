-- ===== src/Ops/Rotate/Carry.antt =====
-- The rotations of the accumulator through the carry undo each other.
use emu_sa80535_n.Base.{ℕ, ◌+◌, ◌*◌, ◌/◌, ◌%◌, ◌<◌, ◌≡◌, arith, bit_and, bit_or}
use emu_sa80535_n.Base.Bits.{bit_and_mask, bit_or-above, bit_or-join, flag_at, bit}
use emu_sa80535_n.Cpu.{Cpu}
use emu_sa80535_n.Memory.{acc, psw}
use emu_sa80535_n.Ops.Rotate.{rlc_a, rrc_a}

carry_digit : (p : ℕ) → p < 256 → bit_and p 128 / 128 ≡ p / 128
unfolding bit
carry_digit p h = omega (arith, flag_at 7 p)

replaced_carry : (p b : ℕ) → bit_or (bit_and p 127) (b * 128) ≡ p % 128 + b * 128
replaced_carry p b = omega (arith, bit_and_mask 7 p, bit_or-above 7 (bit_and p 127) b)

acc-rrc_a : (c : Cpu) → acc c < 256 → psw c < 256 → acc (rrc_a c).1 ≡ acc c / 2 + psw c / 128 * 128
unfolding rrc_a
acc-rrc_a c h p =
    omega (arith, carry_digit (psw c) p, bit_or-above 7 (acc c / 2) (bit_and (psw c) 128 / 128))

psw-rrc_a : (c : Cpu) → psw (rrc_a c).1 ≡ psw c % 128 + acc c % 2 * 128
unfolding rrc_a
psw-rrc_a c = omega (arith, bit_and_mask 1 (acc c), replaced_carry (psw c) (bit_and (acc c) 1))

acc-rlc_a : (c : Cpu) → acc c < 256 → psw c < 256 → acc (rlc_a c).1 ≡ acc c * 2 % 256 + psw c / 128
unfolding rlc_a
acc-rlc_a c h p =
    omega (arith, carry_digit (psw c) p, bit_or-join 1 (acc c) (bit_and (psw c) 128 / 128))

psw-rlc_a : (c : Cpu) → psw (rlc_a c).1 ≡ psw c % 128 + acc c / 128 * 128
unfolding rlc_a
psw-rlc_a c = replaced_carry (psw c) (acc c / 128)

-- RRC and then RLC, in one order or the other, leaves the accumulator and all of PSW, the carry
-- included, as they were.
pub rlc_a-rrc_a :
    (c : Cpu)
    → acc c < 256
    → psw c < 256
    → (acc (rlc_a (rrc_a c).1).1 ≡ acc c)
      × (psw (rlc_a (rrc_a c).1).1 ≡ psw c)
      × (acc (rrc_a (rlc_a c).1).1 ≡ acc c)
      × (psw (rrc_a (rlc_a c).1).1 ≡ psw c)
rlc_a-rrc_a c h p =
    let right = acc-rrc_a c h p in
    let right_psw = psw-rrc_a c in
    let left = acc-rlc_a c h p in
    let left_psw = psw-rlc_a c in
    (
      omega (arith, right, right_psw, acc-rlc_a (rrc_a c).1),
      omega (arith, right, right_psw, psw-rlc_a (rrc_a c).1),
      omega (arith, left, left_psw, acc-rrc_a (rlc_a c).1),
      omega (arith, left, left_psw, psw-rrc_a (rlc_a c).1),
    )
