-- ===== src/Ops/Arith/Decimal.antt =====
-- DA A after an addition of packed decimal digits.
use emu_sa80535_n.Base.{
  ℕ, ◌+◌, ◌*◌, ◌/◌, ◌%◌, ◌<◌, ◌≡◌, bit_and, bit_or, arith, ltb, leb, ◌||◌, if◌then◌else◌, ◌∙◌,
}
use emu_sa80535_n.Base.Bits.{bit, bit-bit_or, bit-lt, bit_and_mask, has_pow}
use emu_sa80535_n.Base.Bits.Step.{bit_and_step}
use emu_sa80535_n.Cpu.{Cpu}
use emu_sa80535_n.Memory.{acc, psw}
use emu_sa80535_n.Ops.Arith.{da_a, add_to_acc}
use emu_sa80535_n.Ops.Flags.{add_solve_flags, add_carry, add_auxcarry, add_overflow}
use emu_sa80535_n.Ops.Flags.Sums.{add_carry-eq, add_auxcarry-eq, add_overflow-eq}
use emu_sa80535_n.Ops.Flags.Store.{store_flags-bit}
use emu_sa80535_n.Ops.Arith.AddSub.{store_flags-acc}

high_digits : (r : ℕ) → r < 4096 → bit_and r 0xff0 ≡ r / 16 * 16
high_digits r h = omega (
  arith,
  bit_and_step r 0xff0,
  bit_and_step (r / 2) 0x7f8,
  bit_and_step (r / 2 / 2) 0x3fc,
  bit_and_step (r / 2 / 2 / 2) 0x1fe,
  bit_and_mask 8 (r / 2 / 2 / 2 / 2),
)

carry_set : (p : ℕ) → bit (bit_or p 0x80) 7 ≡ 1
unfolding bit
carry_set p = bit-bit_or p 0x80 7 ∙ omega arith

-- With the carry and the true half carry of a sum of two packed decimal numbers in C and AC, DA A
-- leaves the two low decimal digits of the sum, and C exactly where there is a third.
pub da_a_decimal :
    (x1 x0 y1 y0 k : ℕ) (c : Cpu)
    → x1 < 10
    → x0 < 10
    → y1 < 10
    → y0 < 10
    → k < 2
    → acc c ≡ (16 * x1 + x0 + (16 * y1 + y0) + k) % 256
    → bit (psw c) 7 ≡ (16 * x1 + x0 + (16 * y1 + y0) + k) / 256
    → bit (psw c) 6 ≡ (x0 + y0 + k) / 16
    → let d = (da_a c).1 in
      let sum = 10 * x1 + x0 + (10 * y1 + y0) + k in
      (acc d ≡ 16 * (sum / 10 % 10) + sum % 10) × (bit (psw d) 7 ≡ sum / 100)
unfolding da_a
da_a_decimal x1 x0 y1 y0 k c h1 h2 h3 h4 h5 ha hc hac = (
  ground (
    arith,
    has_pow 7 (psw c),
    has_pow 6 (psw c),
    bit_and_mask 4 (acc c),
    high_digits (acc c),
    high_digits ((acc c + 6) % 65536),
  ),
  ground (
    arith,
    has_pow 7 (psw c),
    has_pow 6 (psw c),
    bit_and_mask 4 (acc c),
    high_digits (acc c),
    high_digits ((acc c + 6) % 65536),
    carry_set (psw c),
  ),
)

adjust_small :
    (d : Cpu)
    → acc d < 20
    → bit (psw d) 7 ≡ 0
    → acc (da_a d).1 ≡ (if leb 1 (bit (psw d) 6) || ltb 9 (acc d % 16) then acc d + 6 else acc d)
unfolding da_a
adjust_small d h h7 = ground (
  arith,
  has_pow 7 (psw d),
  has_pow 6 (psw d),
  bit-lt (psw d) 6,
  bit_and_mask 4 (acc d),
  high_digits (acc d),
  high_digits ((acc d + 6) % 65536),
)

add_digits :
    (x y : ℕ) (c : Cpu)
    → x < 10
    → y < 10
    → acc c ≡ x
    → (bit (psw (add_to_acc y 0 c)) 6 ≡ (x % 8 + y % 8) / 8)
      × (bit (psw (add_to_acc y 0 c)) 7 ≡ 0)
      × (acc (add_to_acc y 0 c) ≡ x + y)
unfolding add_to_acc add_solve_flags
add_digits x y c hx hy hc =
    let e1 = add_carry-eq (acc c) y 0 in
    let e2 = add_auxcarry-eq (acc c) y 0 in
    let e3 = add_overflow-eq (acc c) y 0 in
    let flags = λ (i : ℕ) (lt : i < 8).
      store_flags-bit (add_carry (acc c) y 0) (add_auxcarry (acc c) y 0) (add_overflow (acc c) y 0)
        i c (omega (arith, e1)) (omega (arith, e2)) (ground (arith, e3)) lt in
    (
      ground (arith, flags 6 (omega arith), e2),
      ground (arith, flags 7 (omega arith), e1),
      omega (
        arith,
        store_flags-acc (add_carry (acc c) y 0) (add_auxcarry (acc c) y 0)
            (add_overflow (acc c) y 0) c,
      ),
    )

-- Adding two decimal digits without a carry and then adjusting gives their sum plus six as soon as
-- the low three bits of the digits carry, or the sum is one of the six that are no digit, and the
-- plain sum elsewhere: the half carry of the addition is the one out of bit 2.
pub da_a-add_to_acc :
    (x y : ℕ) (c : Cpu)
    → x < 10
    → y < 10
    → acc c ≡ x
    → acc (da_a (add_to_acc y 0 c)).1
      ≡ (if leb 8 (x % 8 + y % 8) || ltb 9 ((x + y) % 16) then x + y + 6 else x + y)
da_a-add_to_acc x y c hx hy hc =
    let sums = add_digits x y c hx hy hc in ground (arith, sums, adjust_small (add_to_acc y 0 c))
