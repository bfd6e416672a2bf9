-- ===== src/Ops/BitOps/Ram.antt =====
-- The opcodes that write one bit, at the bit addresses of the RAM.
use emu_sa80535_n.Base.{
  ℕ, zero, suc, ◌-◌, ◌*◌, ◌%◌, ◌^◌, ◌<◌, ◌≡◌, ◌∙◌, ap, arith, bit_and, bit_or, bit_xor, u8, compl,
  ◌==◌, if◌then◌else◌, ltb,
}
use emu_sa80535_n.Base.{false, update_self}
use emu_sa80535_n.Base.Bits.{
  bit, bit-lt, bit-bit_and, bit-bit_or, bit-bit_xor, bit_pow, bit-compl, bit_flag, bit_and_mask,
  flag_at,
}
use emu_sa80535_n.Cpu.{Cpu, Host}
use emu_sa80535_n.Memory.{psw, carry, operand}
use emu_sa80535_n.Ops.BitOps.{
  bitmask, bit_byte, change_bit, mov_bitaddr_c, cpl_bitaddr, clr_bitaddr, setb_bitaddr,
}

mask_power : (k : ℕ) → k < 8 → (u8 (1 * 2 ^ k) ≡ 2 ^ k) × (2 ^ k < 256)
mask_power zero h = omega arith
mask_power (suc zero) h = omega arith
mask_power (suc (suc zero)) h = omega arith
mask_power (suc (suc (suc zero))) h = omega arith
mask_power (suc (suc (suc (suc zero)))) h = omega arith
mask_power (suc (suc (suc (suc (suc zero))))) h = omega arith
mask_power (suc (suc (suc (suc (suc (suc zero)))))) h = omega arith
mask_power (suc (suc (suc (suc (suc (suc (suc zero))))))) h = omega arith
mask_power (suc (suc (suc (suc (suc (suc (suc (suc k)))))))) h = absurd (omega arith)

bitmask-power : (a : ℕ) → (bitmask a ≡ 2 ^ (a % 8)) × (bitmask a < 256)
bitmask-power a =
    let low : bit_and a 7 ≡ a % 8 = bit_and_mask 3 a in
    rw low (let p = mask_power (a % 8) (omega arith) in (p.0, rw p.0 p.1))

bit-bitmask : (a i : ℕ) → bit (bitmask a) i ≡ (if i == a % 8 then 1 else 0)
bit-bitmask a i = rw (bitmask-power a).0 (ground (arith, bit_pow (a % 8) i))

bit-kept : (a i : ℕ) → i < 8 → bit (compl (bitmask a)) i ≡ (if i == a % 8 then 0 else 1)
bit-kept a i h = ground (arith, bit-compl 8 (bitmask a) i (bitmask-power a).1 h, bit-bitmask a i)

carry-flag : (c : Cpu) → carry c ≡ bit (psw c) 7
carry-flag c = flag_at 7 (psw c)

moved :
    (a b x i : ℕ)
    → b < 2
    → i < 8
    → bit (bit_or (bit_and x (compl (bitmask a))) (b * 2 ^ (bit_and a 7))) i
      ≡ (if i == a % 8 then b else bit x i)
moved a b x i hb hi =
    let low : bit_and a 7 ≡ a % 8 = bit_and_mask 3 a in
    rw (low, bit-bit_or, bit-bit_and)
      (ground (arith, bit-kept a i hi, bit_flag b (a % 8) i hb, bit-lt x i))

cleared :
    (a x i : ℕ)
    → i < 8
    → bit (bit_and x (compl (bitmask a))) i ≡ (if i == a % 8 then 0 else bit x i)
cleared a x i hi = rw bit-bit_and (ground (arith, bit-kept a i hi, bit-lt x i))

set : (a x i : ℕ) → bit (bit_or x (bitmask a)) i ≡ (if i == a % 8 then 1 else bit x i)
set a x i = rw bit-bit_or (ground (arith, bit-bitmask a i, bit-lt x i))

flipped :
    (a x i : ℕ) → bit (bit_xor x (bitmask a)) i ≡ (if i == a % 8 then 1 - bit x i else bit x i)
flipped a x i = rw bit-bit_xor (ground (arith, bit-bitmask a i, bit-lt x i))

module _ (host : Host) where
  change_bit-ram :
      (ticks : ℕ) (change : ℕ → ℕ) (a : ℕ) (c : Cpu)
      → a < 128
      → (change_bit host ticks change a c).1.lower_data (bit_byte a)
        ≡ change (c.lower_data (bit_byte a))
  unfolding change_bit
  change_bit-ram ticks change a c h =
      let in_ram : ltb 0x7f a ≡ false = ground arith in
      rw in_ram (update_self c.lower_data (bit_byte a) (change (c.lower_data (bit_byte a))))

  -- At a bit address below 80, MOV bit,C stores the carry in the addressed bit of its RAM byte,
  -- SETB a one and CLR a zero, CPL the other value, and each keeps the seven other bits.
  pub write_bit-ram :
      (c : Cpu) (i : ℕ)
      → operand c 1 < 128
      → i < 8
      → (bit ((mov_bitaddr_c host c).1.lower_data (bit_byte (operand c 1))) i ≡ (
          if i == operand c 1 % 8
          then bit (psw c) 7
          else bit (c.lower_data (bit_byte (operand c 1))) i))
        × (bit ((setb_bitaddr host c).1.lower_data (bit_byte (operand c 1))) i
            ≡ (if i == operand c 1 % 8 then 1 else bit (c.lower_data (bit_byte (operand c 1))) i))
        × (bit ((clr_bitaddr host c).1.lower_data (bit_byte (operand c 1))) i
            ≡ (if i == operand c 1 % 8 then 0 else bit (c.lower_data (bit_byte (operand c 1))) i))
        × (bit ((cpl_bitaddr host c).1.lower_data (bit_byte (operand c 1))) i ≡ (
            if i == operand c 1 % 8
            then 1 - bit (c.lower_data (bit_byte (operand c 1))) i
            else bit (c.lower_data (bit_byte (operand c 1))) i))
  unfolding mov_bitaddr_c setb_bitaddr clr_bitaddr cpl_bitaddr
  write_bit-ram c i ha hi =
      let a = operand c 1 in
      let x = c.lower_data (bit_byte a) in
      (
        ap (λ v. bit v i)
              (change_bit-ram 1
                (λ y. bit_or (bit_and y (compl (bitmask a))) (carry c * 2 ^ bit_and a 7)) a c ha)
            ∙ ap (λ b. bit (bit_or (bit_and x (compl (bitmask a))) (b * 2 ^ bit_and a 7)) i)
                (carry-flag c)
            ∙ moved a (bit (psw c) 7) x i (bit-lt (psw c) 7) hi,
        ap (λ v. bit v i) (change_bit-ram 0 (λ y. bit_or y (bitmask a)) a c ha) ∙ set a x i,
        ap (λ v. bit v i) (change_bit-ram 0 (λ y. bit_and y (compl (bitmask a))) a c ha)
            ∙ cleared a x i hi,
        ap (λ v. bit v i) (change_bit-ram 0 (λ y. bit_xor y (bitmask a)) a c ha) ∙ flipped a x i,
      )
