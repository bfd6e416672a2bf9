-- ===== src/Disasm/Arith.antt =====
-- The decoders of arithmetic (disasm.c).
use emu_sa80535_n.Base.{[], ◌∷◌, bit_and}
use emu_sa80535_n.Disasm.Text.{Decoder, literal, hex2, int, mem}

abbrev pub disasm_inc_a : Decoder
disasm_inc_a f = (1, literal "INC   A" ∷ [])

abbrev pub disasm_inc_mem : Decoder
disasm_inc_mem f = (2, literal "INC   " ∷ mem f.variant f.operand1 ∷ [])

abbrev pub disasm_inc_indir_rx : Decoder
disasm_inc_indir_rx f = (1, literal "INC   @R" ∷ int (bit_and f.opcode 1) ∷ [])

abbrev pub disasm_dec_a : Decoder
disasm_dec_a f = (1, literal "DEC   A" ∷ [])

abbrev pub disasm_dec_mem : Decoder
disasm_dec_mem f = (2, literal "DEC   " ∷ mem f.variant f.operand1 ∷ [])

abbrev pub disasm_dec_indir_rx : Decoder
disasm_dec_indir_rx f = (1, literal "DEC   @R" ∷ int (bit_and f.opcode 1) ∷ [])

abbrev pub disasm_add_a_imm : Decoder
disasm_add_a_imm f = (2, literal "ADD   A, #" ∷ hex2 f.operand1 ∷ literal "h" ∷ [])

abbrev pub disasm_add_a_mem : Decoder
disasm_add_a_mem f = (2, literal "ADD   A, " ∷ mem f.variant f.operand1 ∷ [])

abbrev pub disasm_add_a_indir_rx : Decoder
disasm_add_a_indir_rx f = (1, literal "ADD   A, @R" ∷ int (bit_and f.opcode 1) ∷ [])

abbrev pub disasm_addc_a_imm : Decoder
disasm_addc_a_imm f = (2, literal "ADDC  A, #" ∷ hex2 f.operand1 ∷ literal "h" ∷ [])

abbrev pub disasm_addc_a_mem : Decoder
disasm_addc_a_mem f = (2, literal "ADDC  A, " ∷ mem f.variant f.operand1 ∷ [])

abbrev pub disasm_addc_a_indir_rx : Decoder
disasm_addc_a_indir_rx f = (1, literal "ADDC  A, @R" ∷ int (bit_and f.opcode 1) ∷ [])

abbrev pub disasm_div_ab : Decoder
disasm_div_ab f = (1, literal "DIV   AB" ∷ [])

abbrev pub disasm_subb_a_imm : Decoder
disasm_subb_a_imm f = (2, literal "SUBB  A, #" ∷ hex2 f.operand1 ∷ literal "h" ∷ [])

abbrev pub disasm_subb_a_mem : Decoder
disasm_subb_a_mem f = (2, literal "SUBB  A, " ∷ mem f.variant f.operand1 ∷ [])

abbrev pub disasm_subb_a_indir_rx : Decoder
disasm_subb_a_indir_rx f = (1, literal "SUBB  A, @R" ∷ int (bit_and f.opcode 1) ∷ [])

abbrev pub disasm_inc_dptr : Decoder
disasm_inc_dptr f = (1, literal "INC   DPTR" ∷ [])

abbrev pub disasm_mul_ab : Decoder
disasm_mul_ab f = (1, literal "MUL   AB" ∷ [])

abbrev pub disasm_da_a : Decoder
disasm_da_a f = (1, literal "DA    A" ∷ [])

abbrev pub disasm_inc_rx : Decoder
disasm_inc_rx f = (1, literal "INC   R" ∷ int (bit_and f.opcode 7) ∷ [])

abbrev pub disasm_dec_rx : Decoder
disasm_dec_rx f = (1, literal "DEC   R" ∷ int (bit_and f.opcode 7) ∷ [])

abbrev pub disasm_add_a_rx : Decoder
disasm_add_a_rx f = (1, literal "ADD   A, R" ∷ int (bit_and f.opcode 7) ∷ [])

abbrev pub disasm_addc_a_rx : Decoder
disasm_addc_a_rx f = (1, literal "ADDC  A, R" ∷ int (bit_and f.opcode 7) ∷ [])

abbrev pub disasm_subb_a_rx : Decoder
disasm_subb_a_rx f = (1, literal "SUBB  A, R" ∷ int (bit_and f.opcode 7) ∷ [])
