-- ===== src/Tests/Listing.antt =====
-- The disassembler at a concrete memory.
use emu_sa80535_n.Base.{
  ℕ, ◌+◌, ◌<◌, ◌≤◌, ◌≡◌, ◌==◌, true, false, List, [], length, leb, refl, arith, if◌then◌else◌,
  if_either, bit_and,
}
use emu_sa80535_n.Base.Int.{pos, negsuc}
use emu_sa80535_n.Cpu.{Variant}
use emu_sa80535_n.Debug.Decode.{Cache, Decoded, done, decode_at, decode_window, offset_valid}
use emu_sa80535_n.Debug.Decode.Sound.{IsCache}
use emu_sa80535_n.Debug.Decode.Total.{decode_window-returns}
use emu_sa80535_n.Disasm.{disassemble, decode_captured}
use emu_sa80535_n.Disasm.Text.{Decoder, codes, print, print_piece, mem_memonic, bitaddr_memonic}
use emu_sa80535_n.Disasm.Table.{disasm_setptrs}
use emu_sa80535_n.Disasm.Evidence.{disassemble-IsShort, disassemble_lem, decode_captured_lem}

abbrev no_decoder : ℕ → Decoder
no_decoder op f = (0, [])

-- MOV IEN0, #0x5a at 0x10.
abbrev memory : ℕ → ℕ
memory a = if a == 0x10 then 0x75 else if a == 0x11 then 0xa8 else if a == 0x12 then 0x5a else 0

memory-lt : (a : ℕ) → memory a < 256
memory-lt a =
    if_either (λ (n : ℕ). n < 256) (a == 0x10) 0x75 _ (λ yes. omega arith)
      (λ no.
        if_either (λ (n : ℕ). n < 256) (a == 0x11) 0xa8 _ (λ yes. omega arith)
          (λ no.
            if_either (λ (n : ℕ). n < 256) (a == 0x12) 0x5a 0 (λ yes. omega arith)
              (λ no. omega arith)))

listing :
    disassemble (disasm_setptrs no_decoder 0x75) Variant.sab80535 memory 0xffff 0x10
    ≡ (3, codes "MOV   IEN0, #5Ah")
unfolding disassemble disasm_setptrs print print_piece mem_memonic bitaddr_memonic
listing = refl

disassemble_lem_example :
    (1 ≤ (disassemble (disasm_setptrs no_decoder 0x75) Variant.sab80535 memory 0xffff 0x10).0)
    × ((disassemble (disasm_setptrs no_decoder 0x75) Variant.sab80535 memory 0xffff 0x10).0 ≤ 3)
    × (length (disassemble (disasm_setptrs no_decoder 0x75) Variant.sab80535 memory 0xffff 0x10).1
        ≤ 30)
disassemble_lem_example =
    disassemble_lem no_decoder Variant.sab80535 memory 0xffff 0x10 0x75 refl (omega arith)

abbrev captured : ℕ → ℕ
captured i = memory (bit_and (0x10 + i) 0xffff)

decode_captured_lem_example :
    decode_captured (disasm_setptrs no_decoder) Variant.sab80535 0x10 captured 2 ≡ (
      (disassemble (disasm_setptrs no_decoder 0x75) Variant.sab80535 memory 0xffff 0x10).0,
      if leb (disassemble (disasm_setptrs no_decoder 0x75) Variant.sab80535 memory 0xffff 0x10).0 2
          then (disassemble (disasm_setptrs no_decoder 0x75) Variant.sab80535 memory 0xffff 0x10).1
          else [],
    )
decode_captured_lem_example =
    decode_captured_lem no_decoder Variant.sab80535 memory 0xffff 0x10 captured 2 (omega arith)
      (omega arith) (omega arith) (λ i lt. refl)

abbrev empty : Cache
empty = record { predecessor = λ a. 0; known = λ a. false }

abbrev listing_of : ℕ → ℕ → ℕ × List ℕ
listing_of op = disassemble (disasm_setptrs no_decoder op) Variant.sab80535 memory 0xffff

empty-IsCache : IsCache (decode_at listing_of memory) empty
unfolding IsCache
empty-IsCache a h = absurd (ground arith)

decode_window-returns_example :
    (w : List Decoded × Cache) × (decode_window listing_of memory true empty 0x13
        (pos 0)
        (negsuc 1)
        2
      ≡ done w)
decode_window-returns_example =
    decode_window-returns listing_of memory empty 0x13 (pos 0) (negsuc 1) 2 0x13
      (disassemble-IsShort no_decoder Variant.sab80535 memory 0xffff memory-lt) empty-IsCache refl
      (unfold offset_valid in refl) (unfold offset_valid in refl) (omega arith) (omega arith)
      (omega arith) (omega arith)
