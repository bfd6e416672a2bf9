-- ===== src/Disasm/Bits.antt =====
-- The decoders of operations on bits (disasm.c).
use emu_sa80535_n.Base.{[], ◌∷◌}
use emu_sa80535_n.Disasm.Text.{Decoder, literal, offset, bit}

abbrev pub disasm_jbc_bitaddr_offset : Decoder
disasm_jbc_bitaddr_offset f =
    (3, literal "JBC   " ∷ bit f.variant f.operand1 ∷ literal ", #" ∷ offset f.operand2 ∷ [])

abbrev pub disasm_jb_bitaddr_offset : Decoder
disasm_jb_bitaddr_offset f =
    (3, literal "JB   " ∷ bit f.variant f.operand1 ∷ literal ", #" ∷ offset f.operand2 ∷ [])

abbrev pub disasm_jnb_bitaddr_offset : Decoder
disasm_jnb_bitaddr_offset f =
    (3, literal "JNB   " ∷ bit f.variant f.operand1 ∷ literal ", #" ∷ offset f.operand2 ∷ [])

abbrev pub disasm_orl_c_bitaddr : Decoder
disasm_orl_c_bitaddr f = (2, literal "ORL   C, " ∷ bit f.variant f.operand1 ∷ [])

abbrev pub disasm_anl_c_bitaddr : Decoder
disasm_anl_c_bitaddr f = (2, literal "ANL   C, " ∷ bit f.variant f.operand1 ∷ [])

abbrev pub disasm_mov_bitaddr_c : Decoder
disasm_mov_bitaddr_c f = (2, literal "MOV   " ∷ bit f.variant f.operand1 ∷ literal ", C" ∷ [])

abbrev pub disasm_orl_c_compl_bitaddr : Decoder
disasm_orl_c_compl_bitaddr f = (2, literal "ORL   C, /" ∷ bit f.variant f.operand1 ∷ [])

abbrev pub disasm_mov_c_bitaddr : Decoder
disasm_mov_c_bitaddr f = (2, literal "MOV   C, " ∷ bit f.variant f.operand1 ∷ [])

abbrev pub disasm_anl_c_compl_bitaddr : Decoder
disasm_anl_c_compl_bitaddr f = (2, literal "ANL   C, /" ∷ bit f.variant f.operand1 ∷ [])

abbrev pub disasm_cpl_bitaddr : Decoder
disasm_cpl_bitaddr f = (2, literal "CPL   " ∷ bit f.variant f.operand1 ∷ [])

abbrev pub disasm_cpl_c : Decoder
disasm_cpl_c f = (1, literal "CPL   C" ∷ [])

abbrev pub disasm_clr_bitaddr : Decoder
disasm_clr_bitaddr f = (2, literal "CLR   " ∷ bit f.variant f.operand1 ∷ [])

abbrev pub disasm_clr_c : Decoder
disasm_clr_c f = (1, literal "CLR   C" ∷ [])

abbrev pub disasm_setb_bitaddr : Decoder
disasm_setb_bitaddr f = (2, literal "SETB  " ∷ bit f.variant f.operand1 ∷ [])

abbrev pub disasm_setb_c : Decoder
disasm_setb_c f = (1, literal "SETB  C" ∷ [])
