-- ===== src/Disasm.antt =====
-- The disassembler, disasm.c.
pub mod Text
pub mod Arith
pub mod Bits
pub mod Move
pub mod Logic
pub mod Flow
pub mod Table
pub mod Sizes
pub mod Evidence
use emu_sa80535_n.Base.{
  ℕ, zero, suc, ◌+◌, List, [], ◌||◌, ltb, leb, ◌==◌, if◌then◌else◌, bit_and, update, take,
}
use emu_sa80535_n.Cpu.{Variant}
use emu_sa80535_n.Disasm.Text.{Decoder, fetch, print}

-- The call of a decoder on a code memory: the size that it returns and the text.
unfoldable pub disassemble : Decoder → Variant → (ℕ → ℕ) → ℕ → ℕ → ℕ × List ℕ
disassemble decoder variant code max_idx position =
    let d = decoder (fetch variant code max_idx position) in (d.0, print d.1)

-- The loop that puts `n` captured bytes from the byte `i` on into the circular view.
unfoldable pub capture_code : ℕ → ℕ → ℕ → (ℕ → ℕ) → (ℕ → ℕ) → ℕ → ℕ
capture_code i zero pc bytes code = code
capture_code i (suc n) pc bytes code =
    capture_code (i + 1) n pc bytes (update code (bit_and (pc + i) 3) (bytes i))

-- `em8051_decode_captured`, with the CPU's array `dec` and its variant; `strncpy` copies up to 96
-- characters.
unfoldable pub decode_captured : (ℕ → Decoder) → Variant → ℕ → (ℕ → ℕ) → ℕ → ℕ × List ℕ
unfolding disassemble capture_code
decode_captured dec variant pc bytes count =
    let code = capture_code 0 count pc bytes (λ i. 0) in
    let d = disassemble (dec (bytes 0)) variant code 3 pc in
    if count == 0 || ltb 3 count then (0, []) else (d.0, if leb d.0 count then take 96 d.1 else [])
