-- ===== src/Ops/Flags/Sums.antt =====
-- The flags of ADD, ADDC and SUBB as arithmetic on bytes.
use emu_sa80535_n.Base.{ℕ, ◌+◌, ◌-◌, ◌/◌, ◌%◌, ◌<◌, ◌≡◌, bit_and, arith, ltb}
use emu_sa80535_n.Base.{to_int, ◌||◌, ◌^◌}
use emu_sa80535_n.Base.Bits.{bit_and_mask}
use emu_sa80535_n.Ops.Flags.{
  add_carry, add_auxcarry, add_overflow, sub_carry, sub_auxcarry, sub_overflow,
}

-- The two's complement value of a byte, plus 128.
abbrev pub biased : ℕ → ℕ
biased x = (x + 128) % 256

module _ (a b k : ℕ) (ha : a < 256) (hb : b < 256) (hk : k < 2) where
  pub add_carry-eq : add_carry a b k ≡ (a + b + k) / 256
  unfolding add_carry
  add_carry-eq = omega (arith, bit_and_mask 8 a, bit_and_mask 8 b)

  pub add_auxcarry-eq : add_auxcarry a b k ≡ (a % 8 + b % 8 + k) / 8
  unfolding add_auxcarry
  add_auxcarry-eq = omega (arith, bit_and_mask 3 a, bit_and_mask 3 b)

  -- The signed sum is below -128 or above 127.
  pub add_overflow-eq :
      add_overflow a b k
      ≡ to_int (ltb (biased a + biased b + k) 128 || ltb 383 (biased a + biased b + k))
  unfolding add_overflow add_carry
  add_overflow-eq =
      ground (arith, bit_and_mask 7 a, bit_and_mask 7 b, bit_and_mask 8 a, bit_and_mask 8 b)

  pub sub_carry-eq : sub_carry a b k ≡ to_int (ltb a (b + k))
  unfolding sub_carry
  sub_carry-eq = ground (
    arith,
    bit_and_mask 8 a,
    bit_and_mask 8 b,
    bit_and_mask 1 ((bit_and a 255 + 65536 - bit_and b 255 - k) / 2 ^ 8),
  )

  -- The signed difference is below -128 or above 127.
  pub sub_overflow-eq :
      sub_overflow a b k
      ≡ to_int (ltb (biased a + 128) (biased b + k) || ltb (biased b + k + 127) (biased a))
  unfolding sub_overflow sub_carry
  sub_overflow-eq = ground (
    arith,
    bit_and_mask 8 a,
    bit_and_mask 8 b,
    bit_and_mask 7 a,
    bit_and_mask 7 b,
    bit_and_mask 1 ((bit_and a 255 + 65536 - bit_and b 255 - k) / 2 ^ 8),
    bit_and_mask 1 ((bit_and a 127 + 65536 - bit_and b 127 - k) / 2 ^ 7),
  )

-- A bit of a difference is 0 or 1.
pub sub_auxcarry-lt : (a b k : ℕ) → sub_auxcarry a b k < 2
unfolding sub_auxcarry
sub_auxcarry-lt a b k =
    ground (arith, bit_and_mask 1 ((bit_and a 7 + 65536 - bit_and b 7 - k) / 2 ^ 3))
