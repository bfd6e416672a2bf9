-- ===== src/Ops/Flags/Store.antt =====
-- What a store of the arithmetic flags leaves in PSW, bit by bit.
use emu_sa80535_n.Base.{ℕ, zero, suc, ◌<◌, ◌≡◌, min, arith, ◌==◌}
use emu_sa80535_n.Base.{if◌then◌else◌}
use emu_sa80535_n.Base.Bits.{bit, bit-lt, bit-bit_and, bit-bit_or, bit_flag}
use emu_sa80535_n.Cpu.{Cpu}
use emu_sa80535_n.Memory.{psw}
use emu_sa80535_n.Ops.Flags.{store_flags}

-- The bits of PSW that an addition leaves alone: all but C, AC and OV.
kept_bit :
    (b i : ℕ)
    → b < 2
    → i < 8
    → min b (bit 0x3b i) ≡ (if i == 7 then 0 else if i == 6 then 0 else if i == 2 then 0 else b)
unfolding bit
kept_bit b zero l h = ground arith
kept_bit b (suc zero) l h = ground arith
kept_bit b (suc (suc zero)) l h = ground arith
kept_bit b (suc (suc (suc zero))) l h = ground arith
kept_bit b (suc (suc (suc (suc zero)))) l h = ground arith
kept_bit b (suc (suc (suc (suc (suc zero))))) l h = ground arith
kept_bit b (suc (suc (suc (suc (suc (suc zero)))))) l h = ground arith
kept_bit b (suc (suc (suc (suc (suc (suc (suc zero))))))) l h = ground arith
kept_bit b (suc (suc (suc (suc (suc (suc (suc (suc i)))))))) l h = absurd (omega arith)

-- Bits 7, 6 and 2 are the flags, and the others are kept.
pub store_flags-bit :
    (c ac ov i : ℕ) (cpu : Cpu)
    → c < 2
    → ac < 2
    → ov < 2
    → i < 8
    → bit (psw (store_flags c ac ov cpu)) i
      ≡ (if i == 7 then c else if i == 6 then ac else if i == 2 then ov else bit (psw cpu) i)
unfolding store_flags
store_flags-bit c ac ov i cpu hc hac hov hi =
    simp (bit-bit_or, bit-bit_and)
      (ground (
        arith,
        kept_bit (bit (psw cpu) i) i (bit-lt (psw cpu) i),
        bit_flag c 7 i,
        bit_flag ac 6 i,
        bit_flag ov 2 i,
        bit-lt (psw cpu) i,
      ))
