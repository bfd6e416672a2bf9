-- ===== src/Disasm/Flow.antt =====
-- The decoders of jumps, calls and returns (disasm.c).
use emu_sa80535_n.Base.{[], ◌∷◌, bit_and, bit_or, ◌<<<◌, ◌+◌, not, ◌==◌, if◌then◌else◌}
use emu_sa80535_n.Disasm.Text.{Decoder, literal, hex2, hex4, int, offset, mem}

abbrev pub disasm_ajmp_offset : Decoder
disasm_ajmp_offset f = (
  2,
  literal "AJMP  #"
      ∷ hex4 (
          bit_or (bit_or (bit_and (f.position + 2) 0xf800) f.operand1)
            (bit_and f.opcode 0xe0 <<< 3))
      ∷ literal "h"
      ∷ [],
)

abbrev pub disasm_ljmp_address : Decoder
disasm_ljmp_address f =
    (3, literal "LJMP  #" ∷ hex4 (bit_or (f.operand1 <<< 8) f.operand2) ∷ literal "h" ∷ [])

abbrev pub disasm_acall_offset : Decoder
disasm_acall_offset f = (
  2,
  literal "ACALL "
      ∷ hex4 (
          bit_or (bit_or (bit_and (f.position + 2) 0xf800) f.operand1)
            (bit_and f.opcode 0xe0 <<< 3))
      ∷ literal "h"
      ∷ [],
)

abbrev pub disasm_lcall_address : Decoder
disasm_lcall_address f =
    (3, literal "LCALL #" ∷ hex4 (bit_or (f.operand1 <<< 8) f.operand2) ∷ literal "h" ∷ [])

abbrev pub disasm_ret : Decoder
disasm_ret f = (1, literal "RET" ∷ [])

abbrev pub disasm_reti : Decoder
disasm_reti f = (1, literal "RETI" ∷ [])

abbrev pub disasm_jc_offset : Decoder
disasm_jc_offset f = (2, literal "JC    #" ∷ offset f.operand1 ∷ [])

abbrev pub disasm_jnc_offset : Decoder
disasm_jnc_offset f = (2, literal "JNC   #" ∷ offset f.operand1 ∷ [])

abbrev pub disasm_jz_offset : Decoder
disasm_jz_offset f = (2, literal "JZ    #" ∷ offset f.operand1 ∷ [])

abbrev pub disasm_jnz_offset : Decoder
disasm_jnz_offset f = (2, literal "JNZ   #" ∷ offset f.operand1 ∷ [])

abbrev pub disasm_jmp_indir_a_dptr : Decoder
disasm_jmp_indir_a_dptr f = (1, literal "JMP   @A+DPTR" ∷ [])

abbrev pub disasm_sjmp_offset : Decoder
disasm_sjmp_offset f = (2, literal "SJMP  #" ∷ offset f.operand1 ∷ [])

abbrev pub disasm_cjne_a_imm_offset : Decoder
disasm_cjne_a_imm_offset f =
    (3, literal "CJNE  A, #" ∷ hex2 f.operand1 ∷ literal "h, #" ∷ offset f.operand2 ∷ [])

abbrev pub disasm_cjne_a_mem_offset : Decoder
disasm_cjne_a_mem_offset f =
    (3, literal "CJNE  A, " ∷ mem f.variant f.operand1 ∷ literal ", #" ∷ offset f.operand2 ∷ [])

abbrev pub disasm_cjne_indir_rx_imm_offset : Decoder
disasm_cjne_indir_rx_imm_offset f = (
  3,
  literal "CJNE  @R"
      ∷ int (bit_and f.opcode 1)
      ∷ literal ", #"
      ∷ hex2 f.operand1
      ∷ literal "h, #"
      ∷ offset f.operand2
      ∷ [],
)

abbrev pub disasm_djnz_mem_offset : Decoder
disasm_djnz_mem_offset f =
    (3, literal "DJNZ  " ∷ mem f.variant f.operand1 ∷ literal ", #" ∷ offset f.operand2 ∷ [])

abbrev pub disasm_nop : Decoder
disasm_nop f = (1, if not (f.opcode == 0) then literal "??UNKNOWN" ∷ [] else literal "NOP" ∷ [])

abbrev pub disasm_cjne_rx_imm_offset : Decoder
disasm_cjne_rx_imm_offset f = (
  3,
  literal "CJNE  R"
      ∷ int (bit_and f.opcode 7)
      ∷ literal ", #"
      ∷ hex2 f.operand1
      ∷ literal "h, #"
      ∷ offset f.operand2
      ∷ [],
)

abbrev pub disasm_djnz_rx_offset : Decoder
disasm_djnz_rx_offset f =
    (2, literal "DJNZ  R" ∷ int (bit_and f.opcode 7) ∷ literal ", #" ∷ offset f.operand1 ∷ [])
