-- ===== src/Ops/Rotate/Inverse.antt =====
-- The rotations of the accumulator undo each other.
use emu_sa80535_n.Base.{◌+◌, ◌*◌, ◌/◌, ◌%◌, ◌<◌, ◌≡◌, arith}
use emu_sa80535_n.Base.Bits.{bit_or-above, bit_or-join}
use emu_sa80535_n.Cpu.{Cpu}
use emu_sa80535_n.Memory.{acc}
use emu_sa80535_n.Ops.Rotate.{rl_a, rr_a, swap_a}

acc-rr_a : (c : Cpu) → acc c < 256 → acc (rr_a c).1 ≡ acc c / 2 + acc c % 2 * 128
unfolding rr_a
acc-rr_a c h = omega (arith, bit_or-above 7 (acc c / 2) (acc c))

acc-rl_a : (c : Cpu) → acc c < 256 → acc (rl_a c).1 ≡ acc c * 2 % 256 + acc c / 128
unfolding rl_a
acc-rl_a c h = omega (arith, bit_or-join 1 (acc c) (acc c / 128))

acc-swap_a : (c : Cpu) → acc c < 256 → acc (swap_a c).1 ≡ acc c % 16 * 16 + acc c / 16
unfolding swap_a
acc-swap_a c h = omega (arith, bit_or-join 4 (acc c) (acc c / 16))

-- RR and then RL, in one order or the other, leaves the accumulator as it was, and SWAP is four
-- rotations to the left.
pub rl_a-rr_a :
    (c : Cpu)
    → acc c < 256
    → (acc (rl_a (rr_a c).1).1 ≡ acc c)
      × (acc (rr_a (rl_a c).1).1 ≡ acc c)
      × (acc (swap_a c).1 ≡ acc (rl_a (rl_a (rl_a (rl_a c).1).1).1).1)
rl_a-rr_a c h =
    let left = acc-rl_a c h in
    let two = acc-rl_a (rl_a c).1 in
    let three = acc-rl_a (rl_a (rl_a c).1).1 in
    let four = acc-rl_a (rl_a (rl_a (rl_a c).1).1).1 in
    (
      omega (arith, acc-rr_a c h, acc-rl_a (rr_a c).1),
      omega (arith, left, acc-rr_a (rl_a c).1),
      omega (arith, acc-swap_a c h, left, two, three, four),
    )
