-- ===== src/Disasm/Logic.antt =====
-- The decoders of logic and rotations (disasm.c).
use emu_sa80535_n.Base.{[], ◌∷◌, bit_and}
use emu_sa80535_n.Disasm.Text.{Decoder, literal, hex2, int, mem}

abbrev pub disasm_rr_a : Decoder
disasm_rr_a f = (1, literal "RR    A" ∷ [])

abbrev pub disasm_rrc_a : Decoder
disasm_rrc_a f = (1, literal "RRC   A" ∷ [])

abbrev pub disasm_rl_a : Decoder
disasm_rl_a f = (1, literal "RL    A" ∷ [])

abbrev pub disasm_rlc_a : Decoder
disasm_rlc_a f = (1, literal "RLC   A" ∷ [])

abbrev pub disasm_orl_mem_a : Decoder
disasm_orl_mem_a f = (2, literal "ORL   " ∷ mem f.variant f.operand1 ∷ literal ", A" ∷ [])

abbrev pub disasm_orl_mem_imm : Decoder
disasm_orl_mem_imm f = (
  3,
  literal "ORL   " ∷ mem f.variant f.operand1 ∷ literal ", #" ∷ hex2 f.operand2 ∷ literal "h" ∷ [],
)

abbrev pub disasm_orl_a_imm : Decoder
disasm_orl_a_imm f = (2, literal "ORL   A, #" ∷ hex2 f.operand1 ∷ literal "h" ∷ [])

abbrev pub disasm_orl_a_mem : Decoder
disasm_orl_a_mem f = (2, literal "ORL   A, " ∷ mem f.variant f.operand1 ∷ [])

abbrev pub disasm_orl_a_indir_rx : Decoder
disasm_orl_a_indir_rx f = (1, literal "ORL   A, @R" ∷ int (bit_and f.opcode 1) ∷ [])

abbrev pub disasm_anl_mem_a : Decoder
disasm_anl_mem_a f = (2, literal "ANL   " ∷ mem f.variant f.operand1 ∷ literal ", A" ∷ [])

abbrev pub disasm_anl_mem_imm : Decoder
disasm_anl_mem_imm f = (
  3,
  literal "ANL   " ∷ mem f.variant f.operand1 ∷ literal ", #" ∷ hex2 f.operand2 ∷ literal "h" ∷ [],
)

abbrev pub disasm_anl_a_imm : Decoder
disasm_anl_a_imm f = (2, literal "ANL   A, #" ∷ hex2 f.operand1 ∷ literal "h" ∷ [])

abbrev pub disasm_anl_a_mem : Decoder
disasm_anl_a_mem f = (2, literal "ANL   A, " ∷ mem f.variant f.operand1 ∷ [])

abbrev pub disasm_anl_a_indir_rx : Decoder
disasm_anl_a_indir_rx f = (1, literal "ANL   A, @R" ∷ int (bit_and f.opcode 1) ∷ [])

abbrev pub disasm_xrl_mem_a : Decoder
disasm_xrl_mem_a f = (2, literal "XRL   " ∷ mem f.variant f.operand1 ∷ literal ", A" ∷ [])

abbrev pub disasm_xrl_mem_imm : Decoder
disasm_xrl_mem_imm f = (
  3,
  literal "XRL   " ∷ mem f.variant f.operand1 ∷ literal ", #" ∷ hex2 f.operand2 ∷ literal "h" ∷ [],
)

abbrev pub disasm_xrl_a_imm : Decoder
disasm_xrl_a_imm f = (2, literal "XRL   A, #" ∷ hex2 f.operand1 ∷ literal "h" ∷ [])

abbrev pub disasm_xrl_a_mem : Decoder
disasm_xrl_a_mem f = (2, literal "XRL   A, " ∷ mem f.variant f.operand1 ∷ [])

abbrev pub disasm_xrl_a_indir_rx : Decoder
disasm_xrl_a_indir_rx f = (1, literal "XRL   A, @R" ∷ int (bit_and f.opcode 1) ∷ [])

abbrev pub disasm_swap_a : Decoder
disasm_swap_a f = (1, literal "SWAP  A" ∷ [])

abbrev pub disasm_clr_a : Decoder
disasm_clr_a f = (1, literal "CLR   A" ∷ [])

abbrev pub disasm_cpl_a : Decoder
disasm_cpl_a f = (1, literal "CPL   A" ∷ [])

abbrev pub disasm_orl_a_rx : Decoder
disasm_orl_a_rx f = (1, literal "ORL   A, R" ∷ int (bit_and f.opcode 7) ∷ [])

abbrev pub disasm_anl_a_rx : Decoder
disasm_anl_a_rx f = (1, literal "ANL   A, R" ∷ int (bit_and f.opcode 7) ∷ [])

abbrev pub disasm_xrl_a_rx : Decoder
disasm_xrl_a_rx f = (1, literal "XRL   A, R" ∷ int (bit_and f.opcode 7) ∷ [])
