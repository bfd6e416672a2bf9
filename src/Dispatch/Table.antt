-- ===== src/Dispatch/Table.antt =====
-- `op_setptrs` of opcodes.c: the array of function pointers that `tick` calls through.
use emu_sa80535_n.Base.{ℕ, zero, suc, ◌+◌, List, [], ◌∷◌, update}
use emu_sa80535_n.Cpu.{Host}
use emu_sa80535_n.Memory.{Handler}
use emu_sa80535_n.Ops.Arith.{
  add_a_imm, add_a_indir_rx, add_a_mem, add_a_rx, addc_a_imm, addc_a_indir_rx, addc_a_mem,
  addc_a_rx, da_a, dec_a, dec_indir_rx, dec_mem, dec_rx, div_ab, inc_a, inc_dptr, inc_indir_rx,
  inc_mem, inc_rx, mul_ab, subb_a_imm, subb_a_indir_rx, subb_a_mem, subb_a_rx,
}
use emu_sa80535_n.Ops.BitOps.{
  anl_c_bitaddr, anl_c_compl_bitaddr, clr_bitaddr, cpl_bitaddr, jb_bitaddr_offset,
  jbc_bitaddr_offset, jnb_bitaddr_offset, mov_bitaddr_c, mov_c_bitaddr, orl_c_bitaddr,
  orl_c_compl_bitaddr, setb_bitaddr,
}
use emu_sa80535_n.Ops.Call.{acall_offset, lcall_address, pop_mem, push_mem, ret, reti}
use emu_sa80535_n.Ops.Jump.{
  ajmp_offset, cjne_a_imm_offset, cjne_a_mem_offset, cjne_indir_rx_imm_offset, cjne_rx_imm_offset,
  djnz_mem_offset, djnz_rx_offset, jc_offset, jmp_indir_a_dptr, jnc_offset, jnz_offset, jz_offset,
  ljmp_address, sjmp_offset,
}
use emu_sa80535_n.Ops.Logic.{
  anl_a_imm, anl_a_indir_rx, anl_a_mem, anl_a_rx, anl_mem_a, anl_mem_imm, orl_a_imm, orl_a_indir_rx,
  orl_a_mem, orl_a_rx, orl_mem_a, orl_mem_imm, xrl_a_imm, xrl_a_indir_rx, xrl_a_mem, xrl_a_rx,
  xrl_mem_a, xrl_mem_imm,
}
use emu_sa80535_n.Ops.Move.{
  mov_a_imm, mov_a_indir_rx, mov_a_mem, mov_a_rx, mov_dptr_imm, mov_indir_rx_a, mov_indir_rx_imm,
  mov_indir_rx_mem, mov_mem_a, mov_mem_imm, mov_mem_indir_rx, mov_mem_mem, mov_mem_rx, mov_rx_a,
  mov_rx_imm, mov_rx_mem, movc_a_indir_a_dptr, movc_a_indir_a_pc, xch_a_indir_rx, xch_a_mem,
  xch_a_rx, xchd_a_indir_rx,
}
use emu_sa80535_n.Ops.Movx.{movx_a_indir_dptr, movx_a_indir_rx, movx_indir_dptr_a, movx_indir_rx_a}
use emu_sa80535_n.Ops.Rotate.{
  clr_a, clr_c, cpl_a, cpl_c, nop, rl_a, rlc_a, rr_a, rrc_a, setb_c, swap_a,
}

-- Stores into the array, in the order of the list.
abbrev pub store_all : List (ℕ × Handler) → (ℕ → Handler) → ℕ → Handler
store_all [] op = op
store_all ((index, handler) ∷ rest) op = store_all rest (update op index handler)

module _ (host : Host) where
  -- The loop body for one `i`.
  abbrev rx_stores : ℕ → List (ℕ × Handler)
  rx_stores i =
      (0x08 + i, inc_rx)
      ∷ (0x18 + i, dec_rx)
      ∷ (0x28 + i, add_a_rx)
      ∷ (0x38 + i, addc_a_rx)
      ∷ (0x48 + i, orl_a_rx)
      ∷ (0x58 + i, anl_a_rx)
      ∷ (0x68 + i, xrl_a_rx)
      ∷ (0x78 + i, mov_rx_imm)
      ∷ (0x88 + i, mov_mem_rx host)
      ∷ (0x98 + i, subb_a_rx)
      ∷ (0xa8 + i, mov_rx_mem host)
      ∷ (0xb8 + i, cjne_rx_imm_offset)
      ∷ (0xc8 + i, xch_a_rx)
      ∷ (0xd8 + i, djnz_rx_offset)
      ∷ (0xe8 + i, mov_a_rx)
      ∷ (0xf8 + i, mov_rx_a)
      ∷ []

  -- The stores after the loop.
  abbrev single_stores : List (ℕ × Handler)
  single_stores =
      (0x00, nop host)
      ∷ (0x01, ajmp_offset)
      ∷ (0x02, ljmp_address)
      ∷ (0x03, rr_a)
      ∷ (0x04, inc_a)
      ∷ (0x05, inc_mem host)
      ∷ (0x06, inc_indir_rx)
      ∷ (0x07, inc_indir_rx)
      ∷ (0x10, jbc_bitaddr_offset host)
      ∷ (0x11, acall_offset host)
      ∷ (0x12, lcall_address host)
      ∷ (0x13, rrc_a)
      ∷ (0x14, dec_a)
      ∷ (0x15, dec_mem host)
      ∷ (0x16, dec_indir_rx)
      ∷ (0x17, dec_indir_rx)
      ∷ (0x20, jb_bitaddr_offset host)
      ∷ (0x21, ajmp_offset)
      ∷ (0x22, ret host)
      ∷ (0x23, rl_a)
      ∷ (0x24, add_a_imm)
      ∷ (0x25, add_a_mem host)
      ∷ (0x26, add_a_indir_rx)
      ∷ (0x27, add_a_indir_rx)
      ∷ (0x30, jnb_bitaddr_offset host)
      ∷ (0x31, acall_offset host)
      ∷ (0x32, reti host)
      ∷ (0x33, rlc_a)
      ∷ (0x34, addc_a_imm)
      ∷ (0x35, addc_a_mem host)
      ∷ (0x36, addc_a_indir_rx)
      ∷ (0x37, addc_a_indir_rx)
      ∷ (0x40, jc_offset)
      ∷ (0x41, ajmp_offset)
      ∷ (0x42, orl_mem_a host)
      ∷ (0x43, orl_mem_imm host)
      ∷ (0x44, orl_a_imm)
      ∷ (0x45, orl_a_mem host)
      ∷ (0x46, orl_a_indir_rx)
      ∷ (0x47, orl_a_indir_rx)
      ∷ (0x50, jnc_offset)
      ∷ (0x51, acall_offset host)
      ∷ (0x52, anl_mem_a host)
      ∷ (0x53, anl_mem_imm host)
      ∷ (0x54, anl_a_imm)
      ∷ (0x55, anl_a_mem host)
      ∷ (0x56, anl_a_indir_rx)
      ∷ (0x57, anl_a_indir_rx)
      ∷ (0x60, jz_offset)
      ∷ (0x61, ajmp_offset)
      ∷ (0x62, xrl_mem_a host)
      ∷ (0x63, xrl_mem_imm host)
      ∷ (0x64, xrl_a_imm)
      ∷ (0x65, xrl_a_mem host)
      ∷ (0x66, xrl_a_indir_rx)
      ∷ (0x67, xrl_a_indir_rx)
      ∷ (0x70, jnz_offset)
      ∷ (0x71, acall_offset host)
      ∷ (0x72, orl_c_bitaddr host)
      ∷ (0x73, jmp_indir_a_dptr)
      ∷ (0x74, mov_a_imm)
      ∷ (0x75, mov_mem_imm host)
      ∷ (0x76, mov_indir_rx_imm)
      ∷ (0x77, mov_indir_rx_imm)
      ∷ (0x80, sjmp_offset)
      ∷ (0x81, ajmp_offset)
      ∷ (0x82, anl_c_bitaddr host)
      ∷ (0x83, movc_a_indir_a_pc)
      ∷ (0x84, div_ab)
      ∷ (0x85, mov_mem_mem host)
      ∷ (0x86, mov_mem_indir_rx host)
      ∷ (0x87, mov_mem_indir_rx host)
      ∷ (0x90, mov_dptr_imm)
      ∷ (0x91, acall_offset host)
      ∷ (0x92, mov_bitaddr_c host)
      ∷ (0x93, movc_a_indir_a_dptr)
      ∷ (0x94, subb_a_imm)
      ∷ (0x95, subb_a_mem host)
      ∷ (0x96, subb_a_indir_rx)
      ∷ (0x97, subb_a_indir_rx)
      ∷ (0xa0, orl_c_compl_bitaddr host)
      ∷ (0xa1, ajmp_offset)
      ∷ (0xa2, mov_c_bitaddr host)
      ∷ (0xa3, inc_dptr)
      ∷ (0xa4, mul_ab)
      ∷ (0xa5, nop host)
      ∷ (0xa6, mov_indir_rx_mem host)
      ∷ (0xa7, mov_indir_rx_mem host)
      ∷ (0xb0, anl_c_compl_bitaddr host)
      ∷ (0xb1, acall_offset host)
      ∷ (0xb2, cpl_bitaddr host)
      ∷ (0xb3, cpl_c)
      ∷ (0xb4, cjne_a_imm_offset)
      ∷ (0xb5, cjne_a_mem_offset host)
      ∷ (0xb6, cjne_indir_rx_imm_offset)
      ∷ (0xb7, cjne_indir_rx_imm_offset)
      ∷ (0xc0, push_mem host)
      ∷ (0xc1, ajmp_offset)
      ∷ (0xc2, clr_bitaddr host)
      ∷ (0xc3, clr_c)
      ∷ (0xc4, swap_a)
      ∷ (0xc5, xch_a_mem host)
      ∷ (0xc6, xch_a_indir_rx)
      ∷ (0xc7, xch_a_indir_rx)
      ∷ (0xd0, pop_mem host)
      ∷ (0xd1, acall_offset host)
      ∷ (0xd2, setb_bitaddr host)
      ∷ (0xd3, setb_c)
      ∷ (0xd4, da_a)
      ∷ (0xd5, djnz_mem_offset host)
      ∷ (0xd6, xchd_a_indir_rx)
      ∷ (0xd7, xchd_a_indir_rx)
      ∷ (0xe0, movx_a_indir_dptr host)
      ∷ (0xe1, ajmp_offset)
      ∷ (0xe2, movx_a_indir_rx host)
      ∷ (0xe3, movx_a_indir_rx host)
      ∷ (0xe4, clr_a)
      ∷ (0xe5, mov_a_mem host)
      ∷ (0xe6, mov_a_indir_rx)
      ∷ (0xe7, mov_a_indir_rx)
      ∷ (0xf0, movx_indir_dptr_a host)
      ∷ (0xf1, acall_offset host)
      ∷ (0xf2, movx_indir_rx_a host)
      ∷ (0xf3, movx_indir_rx_a host)
      ∷ (0xf4, cpl_a)
      ∷ (0xf5, mov_mem_a host)
      ∷ (0xf6, mov_indir_rx_a)
      ∷ (0xf7, mov_indir_rx_a)
      ∷ []

  -- The loop, with `n` rounds left from round `i`.
  abbrev rx_loop : ℕ → ℕ → (ℕ → Handler) → ℕ → Handler
  rx_loop zero i op = op
  rx_loop (suc n) i op = rx_loop n (i + 1) (store_all (rx_stores i) op)

  -- `op_setptrs`: the array afterwards, from what it held before.
  unfoldable pub op_setptrs : (ℕ → Handler) → ℕ → Handler
  op_setptrs op = store_all single_stores (rx_loop 8 0 op)
