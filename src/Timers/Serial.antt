-- ===== src/Timers/Serial.antt =====
-- The serial shortcut of the classic variants.
use emu_sa80535_n.Base.{
  ℕ, ◌-◌, ◌/◌, ◌^◌, ◌<◌, ◌≡◌, arith, refl, ◌∙◌, Bool, true, false, not, if◌then◌else◌, ◌==◌,
  bit_and, bit_or, compl, leb, to_int, ap, Bool-cases, inl, inr,
}
use native.Mathlib.Nat.{div-lt_iff_lt-mul, one-le-pow}
use emu_sa80535_n.Base.Bits.{bit, bit-bit_and, bit-bit_or, bit-compl, bit-lt, bit_pow}
use emu_sa80535_n.Cpu.{Cpu, Host}
use emu_sa80535_n.Cpu.Regs.{reg_sbuf, reg_p3}
use emu_sa80535_n.Timers.{serial_tx}

txd : ℕ → Bool → ℕ
txd p3 level = let low = bit_and p3 (compl 2) in if level then bit_or low 2 else low

txd-bit : (p3 : ℕ) (level : Bool) → p3 < 256 → bit (txd p3 level) 1 ≡ to_int level
unfolding txd
txd-bit p3 true h =
    ground
      (arith, bit-bit_or (bit_and p3 (compl 2)) 2 1, bit_pow 1 1, bit-lt (bit_and p3 (compl 2)) 1)
txd-bit p3 false h = ground (
  arith,
  bit-bit_and p3 (compl 2) 1,
  bit-compl 8 2 1 (omega arith) (omega arith),
  bit_pow 1 1,
  bit-lt p3 1,
)

shifted-leb : (s k : ℕ) → not (s / 2 ^ k == 0) ≡ leb (2 ^ k) s
shifted-leb s k =
    let iff = div-lt_iff_lt-mul {k = 2 ^ k} {x = s} {y = 1} (one-le-pow k 2 (omega arith)) in
    ground (arith, iff)

module _ (host : Host) (c : Cpu) where
  serial_tx-p3 :
      0 < c.classic.serial_out_remaining_bits
      → (serial_tx host c).sfr reg_p3
        ≡ txd
            (c.sfr reg_p3)
            (not (c.sfr reg_sbuf / 2 ^ (c.classic.serial_out_remaining_bits - 1) == 0))
  unfolding serial_tx txd
  serial_tx-p3 left =
      let some_left : (c.classic.serial_out_remaining_bits == 0) ≡ false = ground arith in
      elim (Bool-cases (c.classic.serial_out_remaining_bits - 1 == 0)) [
        | inl last ↦ rw (some_left, last) refl
        | inr more ↦ rw (some_left, more) refl
      ]

  -- While a frame is shifted out, TXD is high exactly while SBUF, shifted down by the number of bits
  -- that are left, is not zero, which is not the bit that is due: it is high from the first one of
  -- the byte on.
  pub serial_tx-level :
      0 < c.classic.serial_out_remaining_bits
      → c.sfr reg_p3 < 256
      → bit ((serial_tx host c).sfr reg_p3) 1
        ≡ to_int (leb (2 ^ (c.classic.serial_out_remaining_bits - 1)) (c.sfr reg_sbuf))
  serial_tx-level left h =
      let k = c.classic.serial_out_remaining_bits - 1 in
      ap (λ x. bit x 1) (serial_tx-p3 left)
      ∙ txd-bit (c.sfr reg_p3) (not (c.sfr reg_sbuf / 2 ^ k == 0)) h
      ∙ ap to_int (shifted-leb (c.sfr reg_sbuf) k)
