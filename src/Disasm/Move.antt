-- ===== src/Disasm/Move.antt =====
-- The decoders of moves, the stack and exchanges (disasm.c).
use emu_sa80535_n.Base.{[], ◌∷◌, bit_and}
use emu_sa80535_n.Disasm.Text.{Decoder, literal, hex2, int, mem}

abbrev pub disasm_mov_a_imm : Decoder
disasm_mov_a_imm f = (2, literal "MOV   A, #" ∷ hex2 f.operand1 ∷ literal "h" ∷ [])

abbrev pub disasm_mov_mem_imm : Decoder
disasm_mov_mem_imm f = (
  3,
  literal "MOV   " ∷ mem f.variant f.operand1 ∷ literal ", #" ∷ hex2 f.operand2 ∷ literal "h" ∷ [],
)

abbrev pub disasm_mov_indir_rx_imm : Decoder
disasm_mov_indir_rx_imm f = (
  2,
  literal "MOV   @R"
      ∷ int (bit_and f.opcode 1)
      ∷ literal ", #"
      ∷ hex2 f.operand1
      ∷ literal "h"
      ∷ [],
)

abbrev pub disasm_movc_a_indir_a_pc : Decoder
disasm_movc_a_indir_a_pc f = (1, literal "MOVC  A, @A+PC" ∷ [])

abbrev pub disasm_mov_mem_mem : Decoder
disasm_mov_mem_mem f =
    (3, literal "MOV   " ∷ mem f.variant f.operand2 ∷ literal ", " ∷ mem f.variant f.operand1 ∷ [])

abbrev pub disasm_mov_mem_indir_rx : Decoder
disasm_mov_mem_indir_rx f = (
  2,
  literal "MOV   " ∷ mem f.variant f.operand1 ∷ literal ", @R" ∷ int (bit_and f.opcode 1) ∷ [],
)

abbrev pub disasm_mov_dptr_imm : Decoder
disasm_mov_dptr_imm f =
    (3, literal "MOV   DPTR, #0" ∷ hex2 f.operand1 ∷ hex2 f.operand2 ∷ literal "h" ∷ [])

abbrev pub disasm_movc_a_indir_a_dptr : Decoder
disasm_movc_a_indir_a_dptr f = (1, literal "MOVC  A, @A+DPTR" ∷ [])

abbrev pub disasm_mov_indir_rx_mem : Decoder
disasm_mov_indir_rx_mem f = (
  2,
  literal "MOV   @R" ∷ int (bit_and f.opcode 1) ∷ literal ", " ∷ mem f.variant f.operand1 ∷ [],
)

abbrev pub disasm_push_mem : Decoder
disasm_push_mem f = (2, literal "PUSH  " ∷ mem f.variant f.operand1 ∷ [])

abbrev pub disasm_xch_a_mem : Decoder
disasm_xch_a_mem f = (2, literal "XCH   A, " ∷ mem f.variant f.operand1 ∷ [])

abbrev pub disasm_xch_a_indir_rx : Decoder
disasm_xch_a_indir_rx f = (1, literal "XCH   A, @R" ∷ int (bit_and f.opcode 1) ∷ [])

abbrev pub disasm_pop_mem : Decoder
disasm_pop_mem f = (2, literal "POP   " ∷ mem f.variant f.operand1 ∷ [])

abbrev pub disasm_xchd_a_indir_rx : Decoder
disasm_xchd_a_indir_rx f = (1, literal "XCHD  A, @R" ∷ int (bit_and f.opcode 1) ∷ [])

abbrev pub disasm_movx_a_indir_dptr : Decoder
disasm_movx_a_indir_dptr f = (1, literal "MOVX  A, @DPTR" ∷ [])

abbrev pub disasm_movx_a_indir_rx : Decoder
disasm_movx_a_indir_rx f = (1, literal "MOVX  A, @R" ∷ int (bit_and f.opcode 1) ∷ [])

abbrev pub disasm_mov_a_mem : Decoder
disasm_mov_a_mem f = (2, literal "MOV   A, " ∷ mem f.variant f.operand1 ∷ [])

abbrev pub disasm_mov_a_indir_rx : Decoder
disasm_mov_a_indir_rx f = (1, literal "MOV   A, @R" ∷ int (bit_and f.opcode 1) ∷ [])

abbrev pub disasm_movx_indir_dptr_a : Decoder
disasm_movx_indir_dptr_a f = (1, literal "MOVX  @DPTR, A" ∷ [])

abbrev pub disasm_movx_indir_rx_a : Decoder
disasm_movx_indir_rx_a f = (1, literal "MOVX  @R" ∷ int (bit_and f.opcode 1) ∷ literal ", A" ∷ [])

abbrev pub disasm_mov_mem_a : Decoder
disasm_mov_mem_a f = (2, literal "MOV   " ∷ mem f.variant f.operand1 ∷ literal ", A" ∷ [])

abbrev pub disasm_mov_indir_rx_a : Decoder
disasm_mov_indir_rx_a f = (1, literal "MOV   @R" ∷ int (bit_and f.opcode 1) ∷ literal ", A" ∷ [])

abbrev pub disasm_mov_rx_imm : Decoder
disasm_mov_rx_imm f = (
  2,
  literal "MOV   R" ∷ int (bit_and f.opcode 7) ∷ literal ", #" ∷ hex2 f.operand1 ∷ literal "h" ∷ [],
)

abbrev pub disasm_mov_mem_rx : Decoder
disasm_mov_mem_rx f =
    (2, literal "MOV   " ∷ mem f.variant f.operand1 ∷ literal ", R" ∷ int (bit_and f.opcode 7) ∷ [])

abbrev pub disasm_mov_rx_mem : Decoder
disasm_mov_rx_mem f =
    (2, literal "MOV   R" ∷ int (bit_and f.opcode 7) ∷ literal ", " ∷ mem f.variant f.operand1 ∷ [])

abbrev pub disasm_xch_a_rx : Decoder
disasm_xch_a_rx f = (1, literal "XCH   A, R" ∷ int (bit_and f.opcode 7) ∷ [])

abbrev pub disasm_mov_a_rx : Decoder
disasm_mov_a_rx f = (1, literal "MOV   A, R" ∷ int (bit_and f.opcode 7) ∷ [])

abbrev pub disasm_mov_rx_a : Decoder
disasm_mov_rx_a f = (1, literal "MOV   R" ∷ int (bit_and f.opcode 7) ∷ literal ", A" ∷ [])
