-- ===== src/Disasm/Table.antt =====
-- `disasm_setptrs` of disasm.c: the array of decoders.
use emu_sa80535_n.Base.{ℕ, zero, suc, ◌+◌, List, [], ◌∷◌, update}
use emu_sa80535_n.Disasm.Text.{Decoder}
use emu_sa80535_n.Disasm.Arith.{
  disasm_inc_a, disasm_inc_mem, disasm_inc_indir_rx, disasm_dec_a, disasm_dec_mem,
  disasm_dec_indir_rx, disasm_add_a_imm, disasm_add_a_mem, disasm_add_a_indir_rx, disasm_addc_a_imm,
  disasm_addc_a_mem, disasm_addc_a_indir_rx, disasm_div_ab, disasm_subb_a_imm, disasm_subb_a_mem,
  disasm_subb_a_indir_rx, disasm_inc_dptr, disasm_mul_ab, disasm_da_a, disasm_inc_rx, disasm_dec_rx,
  disasm_add_a_rx, disasm_addc_a_rx, disasm_subb_a_rx,
}
use emu_sa80535_n.Disasm.Bits.{
  disasm_jbc_bitaddr_offset, disasm_jb_bitaddr_offset, disasm_jnb_bitaddr_offset,
  disasm_orl_c_bitaddr, disasm_anl_c_bitaddr, disasm_mov_bitaddr_c, disasm_orl_c_compl_bitaddr,
  disasm_mov_c_bitaddr, disasm_anl_c_compl_bitaddr, disasm_cpl_bitaddr, disasm_cpl_c,
  disasm_clr_bitaddr, disasm_clr_c, disasm_setb_bitaddr, disasm_setb_c,
}
use emu_sa80535_n.Disasm.Flow.{
  disasm_ajmp_offset, disasm_ljmp_address, disasm_acall_offset, disasm_lcall_address, disasm_ret,
  disasm_reti, disasm_jc_offset, disasm_jnc_offset, disasm_jz_offset, disasm_jnz_offset,
  disasm_jmp_indir_a_dptr, disasm_sjmp_offset, disasm_cjne_a_imm_offset, disasm_cjne_a_mem_offset,
  disasm_cjne_indir_rx_imm_offset, disasm_djnz_mem_offset, disasm_nop, disasm_cjne_rx_imm_offset,
  disasm_djnz_rx_offset,
}
use emu_sa80535_n.Disasm.Logic.{
  disasm_rr_a, disasm_rrc_a, disasm_rl_a, disasm_rlc_a, disasm_orl_mem_a, disasm_orl_mem_imm,
  disasm_orl_a_imm, disasm_orl_a_mem, disasm_orl_a_indir_rx, disasm_anl_mem_a, disasm_anl_mem_imm,
  disasm_anl_a_imm, disasm_anl_a_mem, disasm_anl_a_indir_rx, disasm_xrl_mem_a, disasm_xrl_mem_imm,
  disasm_xrl_a_imm, disasm_xrl_a_mem, disasm_xrl_a_indir_rx, disasm_swap_a, disasm_clr_a,
  disasm_cpl_a, disasm_orl_a_rx, disasm_anl_a_rx, disasm_xrl_a_rx,
}
use emu_sa80535_n.Disasm.Move.{
  disasm_mov_a_imm, disasm_mov_mem_imm, disasm_mov_indir_rx_imm, disasm_movc_a_indir_a_pc,
  disasm_mov_mem_mem, disasm_mov_mem_indir_rx, disasm_mov_dptr_imm, disasm_movc_a_indir_a_dptr,
  disasm_mov_indir_rx_mem, disasm_push_mem, disasm_xch_a_mem, disasm_xch_a_indir_rx, disasm_pop_mem,
  disasm_xchd_a_indir_rx, disasm_movx_a_indir_dptr, disasm_movx_a_indir_rx, disasm_mov_a_mem,
  disasm_mov_a_indir_rx, disasm_movx_indir_dptr_a, disasm_movx_indir_rx_a, disasm_mov_mem_a,
  disasm_mov_indir_rx_a, disasm_mov_rx_imm, disasm_mov_mem_rx, disasm_mov_rx_mem, disasm_xch_a_rx,
  disasm_mov_a_rx, disasm_mov_rx_a,
}

-- Stores into the array, in the order of the list.
abbrev store_decoders : List (ℕ × Decoder) → (ℕ → Decoder) → ℕ → Decoder
store_decoders [] dec = dec
store_decoders ((index, decoder) ∷ rest) dec = store_decoders rest (update dec index decoder)

-- The loop body for one `i`.
abbrev rx_decoders : ℕ → List (ℕ × Decoder)
rx_decoders i =
    (0x08 + i, disasm_inc_rx)
    ∷ (0x18 + i, disasm_dec_rx)
    ∷ (0x28 + i, disasm_add_a_rx)
    ∷ (0x38 + i, disasm_addc_a_rx)
    ∷ (0x48 + i, disasm_orl_a_rx)
    ∷ (0x58 + i, disasm_anl_a_rx)
    ∷ (0x68 + i, disasm_xrl_a_rx)
    ∷ (0x78 + i, disasm_mov_rx_imm)
    ∷ (0x88 + i, disasm_mov_mem_rx)
    ∷ (0x98 + i, disasm_subb_a_rx)
    ∷ (0xa8 + i, disasm_mov_rx_mem)
    ∷ (0xb8 + i, disasm_cjne_rx_imm_offset)
    ∷ (0xc8 + i, disasm_xch_a_rx)
    ∷ (0xd8 + i, disasm_djnz_rx_offset)
    ∷ (0xe8 + i, disasm_mov_a_rx)
    ∷ (0xf8 + i, disasm_mov_rx_a)
    ∷ []

-- The loop over `i`, `n` passes from `i` on.
abbrev store_rx_decoders : ℕ → ℕ → (ℕ → Decoder) → ℕ → Decoder
store_rx_decoders i zero dec = dec
store_rx_decoders i (suc n) dec = store_rx_decoders (i + 1) n (store_decoders (rx_decoders i) dec)

-- The stores after the loop.
abbrev single_decoders : List (ℕ × Decoder)
single_decoders =
    (0x00, disasm_nop)
    ∷ (0x01, disasm_ajmp_offset)
    ∷ (0x02, disasm_ljmp_address)
    ∷ (0x03, disasm_rr_a)
    ∷ (0x04, disasm_inc_a)
    ∷ (0x05, disasm_inc_mem)
    ∷ (0x06, disasm_inc_indir_rx)
    ∷ (0x07, disasm_inc_indir_rx)
    ∷ (0x10, disasm_jbc_bitaddr_offset)
    ∷ (0x11, disasm_acall_offset)
    ∷ (0x12, disasm_lcall_address)
    ∷ (0x13, disasm_rrc_a)
    ∷ (0x14, disasm_dec_a)
    ∷ (0x15, disasm_dec_mem)
    ∷ (0x16, disasm_dec_indir_rx)
    ∷ (0x17, disasm_dec_indir_rx)
    ∷ (0x20, disasm_jb_bitaddr_offset)
    ∷ (0x21, disasm_ajmp_offset)
    ∷ (0x22, disasm_ret)
    ∷ (0x23, disasm_rl_a)
    ∷ (0x24, disasm_add_a_imm)
    ∷ (0x25, disasm_add_a_mem)
    ∷ (0x26, disasm_add_a_indir_rx)
    ∷ (0x27, disasm_add_a_indir_rx)
    ∷ (0x30, disasm_jnb_bitaddr_offset)
    ∷ (0x31, disasm_acall_offset)
    ∷ (0x32, disasm_reti)
    ∷ (0x33, disasm_rlc_a)
    ∷ (0x34, disasm_addc_a_imm)
    ∷ (0x35, disasm_addc_a_mem)
    ∷ (0x36, disasm_addc_a_indir_rx)
    ∷ (0x37, disasm_addc_a_indir_rx)
    ∷ (0x40, disasm_jc_offset)
    ∷ (0x41, disasm_ajmp_offset)
    ∷ (0x42, disasm_orl_mem_a)
    ∷ (0x43, disasm_orl_mem_imm)
    ∷ (0x44, disasm_orl_a_imm)
    ∷ (0x45, disasm_orl_a_mem)
    ∷ (0x46, disasm_orl_a_indir_rx)
    ∷ (0x47, disasm_orl_a_indir_rx)
    ∷ (0x50, disasm_jnc_offset)
    ∷ (0x51, disasm_acall_offset)
    ∷ (0x52, disasm_anl_mem_a)
    ∷ (0x53, disasm_anl_mem_imm)
    ∷ (0x54, disasm_anl_a_imm)
    ∷ (0x55, disasm_anl_a_mem)
    ∷ (0x56, disasm_anl_a_indir_rx)
    ∷ (0x57, disasm_anl_a_indir_rx)
    ∷ (0x60, disasm_jz_offset)
    ∷ (0x61, disasm_ajmp_offset)
    ∷ (0x62, disasm_xrl_mem_a)
    ∷ (0x63, disasm_xrl_mem_imm)
    ∷ (0x64, disasm_xrl_a_imm)
    ∷ (0x65, disasm_xrl_a_mem)
    ∷ (0x66, disasm_xrl_a_indir_rx)
    ∷ (0x67, disasm_xrl_a_indir_rx)
    ∷ (0x70, disasm_jnz_offset)
    ∷ (0x71, disasm_acall_offset)
    ∷ (0x72, disasm_orl_c_bitaddr)
    ∷ (0x73, disasm_jmp_indir_a_dptr)
    ∷ (0x74, disasm_mov_a_imm)
    ∷ (0x75, disasm_mov_mem_imm)
    ∷ (0x76, disasm_mov_indir_rx_imm)
    ∷ (0x77, disasm_mov_indir_rx_imm)
    ∷ (0x80, disasm_sjmp_offset)
    ∷ (0x81, disasm_ajmp_offset)
    ∷ (0x82, disasm_anl_c_bitaddr)
    ∷ (0x83, disasm_movc_a_indir_a_pc)
    ∷ (0x84, disasm_div_ab)
    ∷ (0x85, disasm_mov_mem_mem)
    ∷ (0x86, disasm_mov_mem_indir_rx)
    ∷ (0x87, disasm_mov_mem_indir_rx)
    ∷ (0x90, disasm_mov_dptr_imm)
    ∷ (0x91, disasm_acall_offset)
    ∷ (0x92, disasm_mov_bitaddr_c)
    ∷ (0x93, disasm_movc_a_indir_a_dptr)
    ∷ (0x94, disasm_subb_a_imm)
    ∷ (0x95, disasm_subb_a_mem)
    ∷ (0x96, disasm_subb_a_indir_rx)
    ∷ (0x97, disasm_subb_a_indir_rx)
    ∷ (0xa0, disasm_orl_c_compl_bitaddr)
    ∷ (0xa1, disasm_ajmp_offset)
    ∷ (0xa2, disasm_mov_c_bitaddr)
    ∷ (0xa3, disasm_inc_dptr)
    ∷ (0xa4, disasm_mul_ab)
    ∷ (0xa5, disasm_nop)
    ∷ (0xa6, disasm_mov_indir_rx_mem)
    ∷ (0xa7, disasm_mov_indir_rx_mem)
    ∷ (0xb0, disasm_anl_c_compl_bitaddr)
    ∷ (0xb1, disasm_acall_offset)
    ∷ (0xb2, disasm_cpl_bitaddr)
    ∷ (0xb3, disasm_cpl_c)
    ∷ (0xb4, disasm_cjne_a_imm_offset)
    ∷ (0xb5, disasm_cjne_a_mem_offset)
    ∷ (0xb6, disasm_cjne_indir_rx_imm_offset)
    ∷ (0xb7, disasm_cjne_indir_rx_imm_offset)
    ∷ (0xc0, disasm_push_mem)
    ∷ (0xc1, disasm_ajmp_offset)
    ∷ (0xc2, disasm_clr_bitaddr)
    ∷ (0xc3, disasm_clr_c)
    ∷ (0xc4, disasm_swap_a)
    ∷ (0xc5, disasm_xch_a_mem)
    ∷ (0xc6, disasm_xch_a_indir_rx)
    ∷ (0xc7, disasm_xch_a_indir_rx)
    ∷ (0xd0, disasm_pop_mem)
    ∷ (0xd1, disasm_acall_offset)
    ∷ (0xd2, disasm_setb_bitaddr)
    ∷ (0xd3, disasm_setb_c)
    ∷ (0xd4, disasm_da_a)
    ∷ (0xd5, disasm_djnz_mem_offset)
    ∷ (0xd6, disasm_xchd_a_indir_rx)
    ∷ (0xd7, disasm_xchd_a_indir_rx)
    ∷ (0xe0, disasm_movx_a_indir_dptr)
    ∷ (0xe1, disasm_ajmp_offset)
    ∷ (0xe2, disasm_movx_a_indir_rx)
    ∷ (0xe3, disasm_movx_a_indir_rx)
    ∷ (0xe4, disasm_clr_a)
    ∷ (0xe5, disasm_mov_a_mem)
    ∷ (0xe6, disasm_mov_a_indir_rx)
    ∷ (0xe7, disasm_mov_a_indir_rx)
    ∷ (0xf0, disasm_movx_indir_dptr_a)
    ∷ (0xf1, disasm_acall_offset)
    ∷ (0xf2, disasm_movx_indir_rx_a)
    ∷ (0xf3, disasm_movx_indir_rx_a)
    ∷ (0xf4, disasm_cpl_a)
    ∷ (0xf5, disasm_mov_mem_a)
    ∷ (0xf6, disasm_mov_indir_rx_a)
    ∷ (0xf7, disasm_mov_indir_rx_a)
    ∷ []

-- The array afterwards, from the one before.
unfoldable pub disasm_setptrs : (ℕ → Decoder) → ℕ → Decoder
disasm_setptrs dec = store_decoders single_decoders (store_rx_decoders 0 8 dec)
