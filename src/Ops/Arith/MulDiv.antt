-- ===== src/Ops/Arith/MulDiv.antt =====
-- MUL AB and DIV AB.
use emu_sa80535_n.Base.{
  ℕ, ◌+◌, ◌*◌, ◌%◌, ◌<◌, ◌≡◌, ◌≢◌, bit_and, bit_or, arith, ltb, to_int, ap, max, ◌∙◌,
}
use emu_sa80535_n.Base.Bits.{bit, bit-bit_and, bit-bit_or, bit_and_mask, bit-lt}
use emu_sa80535_n.Cpu.Regs.{reg_b}
use emu_sa80535_n.Cpu.{Cpu}
use emu_sa80535_n.Memory.{acc, psw}
use emu_sa80535_n.Ops.Arith.{mul_ab, div_ab}

-- PSW with C and OV cleared, and with OV set again.
cleared_flags :
    (p : ℕ)
    → (bit (bit_and p 0x7b) 7 ≡ 0)
      × (bit (bit_and p 0x7b) 2 ≡ 0)
      × (bit (bit_or (bit_and p 0x7b) 0x04) 7 ≡ 0)
      × (bit (bit_or (bit_and p 0x7b) 0x04) 2 ≡ 1)
unfolding bit
cleared_flags p = (
  bit-bit_and p 0x7b 7 ∙ omega arith,
  bit-bit_and p 0x7b 2 ∙ omega arith,
  bit-bit_or (bit_and p 0x7b) 0x04 7 ∙ ap (λ (t : ℕ). max t 0) (bit-bit_and p 0x7b 7) ∙ omega arith,
  bit-bit_or (bit_and p 0x7b) 0x04 2 ∙ omega (arith, bit-lt (bit_and p 0x7b) 2),
)

product-lt : (a b : ℕ) → a < 256 → b < 256 → a * b < 65536
product-lt a b ha hb = grind arith

-- B:A is the exact product, C is cleared, and OV says that the product exceeds a byte.
pub mul_ab_lem :
    (c : Cpu)
    → acc c < 256
    → c.sfr reg_b < 256
    → let d = (mul_ab c).1 in
      (acc d + 256 * d.sfr reg_b ≡ acc c * c.sfr reg_b)
      × (bit (psw d) 7 ≡ 0)
      × (bit (psw d) 2 ≡ to_int (ltb 255 (acc c * c.sfr reg_b)))
unfolding mul_ab
mul_ab_lem c ha hb = (
  ground (arith, product-lt (acc c) (c.sfr reg_b), bit_and_mask 8 (acc c * c.sfr reg_b % 65536)),
  ground (arith, cleared_flags (psw c)),
  ground (arith, cleared_flags (psw c), product-lt (acc c) (c.sfr reg_b)),
)

-- A nonzero divisor leaves the quotient in A and the remainder in B, and clears C and OV.
pub div_ab_lem :
    (c : Cpu)
    → c.sfr reg_b ≢ 0
    → let d = (div_ab c).1 in
      (acc d * c.sfr reg_b + d.sfr reg_b ≡ acc c)
      × (d.sfr reg_b < c.sfr reg_b)
      × (bit (psw d) 7 ≡ 0)
      × (bit (psw d) 2 ≡ 0)
unfolding div_ab
div_ab_lem c h = (
  ground arith,
  ground arith,
  ground (arith, cleared_flags (psw c)),
  ground (arith, cleared_flags (psw c)),
)

-- A zero divisor leaves both operands as they are, clears C and sets OV.
pub div_ab-zero :
    (c : Cpu)
    → c.sfr reg_b ≡ 0
    → let d = (div_ab c).1 in
      (acc d ≡ acc c) × (d.sfr reg_b ≡ 0) × (bit (psw d) 7 ≡ 0) × (bit (psw d) 2 ≡ 1)
unfolding div_ab
div_ab-zero c h = (
  ground arith,
  ground arith,
  ground (arith, cleared_flags (psw c)),
  ground (arith, cleared_flags (psw c)),
)
