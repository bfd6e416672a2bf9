-- ===== src/Tick/Parity.antt =====
-- The parity flag.
use emu_sa80535_n.Base.{
  ℕ, zero, suc, ◌+◌, ◌*◌, ◌/◌, ◌%◌, ◌<◌, ◌≡◌, arith, refl, bit_and, bit_or, compl, if◌then◌else◌,
  ◌==◌, ◌∙◌, ap,
}
use emu_sa80535_n.Base.Bits.{bit, bit-bit_and, bit-bit_or, bit-compl, bit-lt, bit_pow, bit_flag}
use emu_sa80535_n.Base.Tables.{values, values_at}
use emu_sa80535_n.Cpu.{Cpu}
use emu_sa80535_n.Memory.{acc, psw}
use emu_sa80535_n.Tick.{parity, update_parity}

-- The number of ones among the `n` lowest bits.
abbrev pub ones : ℕ → ℕ → ℕ
ones zero x = 0
ones (suc n) x = x % 2 + ones n (x / 2)

parity_table : values parity 0 256 ≡ values (λ x. ones 8 x % 2) 0 256
unfolding parity
parity_table = refl

parity-ones : (x : ℕ) → x < 256 → parity x ≡ ones 8 x % 2
parity-ones x h =
    let e : 0 + x ≡ x = omega arith in
    rw e at (values_at parity (λ k. ones 8 k % 2) 256 0 x parity_table h)

flag_bit :
    (p x i : ℕ)
    → p < 256
    → x < 2
    → i < 8
    → bit (bit_or (bit_and p (compl 1)) (x * 1)) i ≡ (if i == 0 then x else bit p i)
flag_bit p x i hp hx hi = ground (
  arith,
  bit-bit_or (bit_and p (compl 1)) (x * 1) i,
  bit-bit_and p (compl 1) i,
  bit-compl 8 1 i (omega arith) hi,
  bit_pow 0 i,
  bit_flag x 0 i hx,
  bit-lt p i,
)

-- At the end of a cycle that starts an instruction, bit 0 of PSW says whether the accumulator has an
-- odd number of ones, and the other bits of PSW are as they were.
pub update_parity_lem :
    (c : Cpu) (i : ℕ)
    → acc c < 256
    → psw c < 256
    → i < 8
    → bit (psw (update_parity c)) i ≡ (if i == 0 then ones 8 (acc c) % 2 else bit (psw c) i)
unfolding update_parity
update_parity_lem c i ha hp hi =
    let e = parity-ones (acc c) ha in
    let flag = flag_bit (psw c) (parity (acc c)) i hp (omega (arith, e)) hi in
    flag ∙ ap (λ x. if i == 0 then x else bit (psw c) i) e
