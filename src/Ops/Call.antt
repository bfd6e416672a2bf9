-- ===== src/Ops/Call.antt =====
-- Opcodes of opcodes.c on the stack: calls, returns, PUSH and POP.
pub mod Returns
use emu_sa80535_n.Base.{
  ℕ, ◌+◌, ◌-◌, ◌/◌, ◌*◌, Bool, true, false, Option, none, some, bit_and, bit_or,
}
use emu_sa80535_n.Base.{◌==◌, ltb, ◌&&◌, not, if◌then◌else◌, compl, u8, u16, has, to_int}
use emu_sa80535_n.Base.{◌<<<◌, ◌>>>◌}
use emu_sa80535_n.Cpu.Regs.{reg_acc, reg_psw, reg_sp}
use emu_sa80535_n.Cpu.{Cpu, Classic, Host, Exception, is_sab, execution_aborted, set_pc}
use emu_sa80535_n.Cpu.{raise_exception, iret_acc_mismatch, iret_sp_mismatch, iret_psw_mismatch}
use emu_sa80535_n.Memory.{
  Handler, operand, advance, read_mem, write_mem, push_to_stack, pop_from_stack,
}
use emu_sa80535_n.IrqService.{irq_reti, psw_checked, raise_if}
use emu_sa80535_n.Ops.Jump.{page_address}

-- `(high << 8) | low`.
abbrev pub word : ℕ → ℕ → ℕ
word high low = u16 (bit_or (high <<< 8) low)

module _ (host : Host) where
  -- Both bytes of a return address, low byte first; false as soon as the stack fails.
  unfoldable pub push_return : ℕ → Cpu → Bool × Cpu
  unfolding push_to_stack
  push_return return_pc c =
      let (low_done, c1) = push_to_stack host (bit_and return_pc 0xff) c in
      let (high_done, c2) = push_to_stack host (u8 (return_pc >>> 8)) c1 in
      if low_done then (high_done, c2) else (false, c1)

  unfoldable pub acall_offset : Handler
  unfolding push_return page_address
  acall_offset c =
      let (done, c1) = push_return (c.pc + 2) c in
      (1, if done then set_pc (page_address c) c1 else c1)

  unfoldable pub lcall_address : Handler
  unfolding push_return
  lcall_address c =
      let (done, c1) = push_return (c.pc + 3) c in
      (1, if done then set_pc (word (operand c1 1) (operand c1 2)) c1 else c1)

  -- Both bytes of a return address, high byte first.
  unfoldable pub pop_return : Cpu → Option ℕ × Cpu
  unfolding pop_from_stack
  pop_return c =
      let (high, c1) = pop_from_stack host c in
      let (low, c2) = pop_from_stack host c1 in
      elim high [
        | none ↦ (none, c1)
        | some h ↦ elim low [ none ↦ (none, c2) | some l ↦ (some (word h l), c2) ]
      ]

  unfoldable pub ret : Handler
  unfolding pop_return
  ret c = let (target, c1) = pop_return c in (1, elim target [ none ↦ c1 | some pc ↦ set_pc pc c1 ])

  -- The checks of the classic controller's return, abandoned as soon as the host aborts.
  unfoldable pub classic_reti_checks : ℕ → ℕ → Cpu → Cpu
  classic_reti_checks hi original_sp c =
      let c1 = raise_if host (not (c.classic.int_a hi == c.sfr reg_acc)) iret_acc_mismatch c in
      let c2 = raise_if host (not (c1.classic.int_sp hi == original_sp)) iret_sp_mismatch c1 in
      let kept =
        bit_and (c2.classic.int_psw hi) psw_checked == bit_and (c2.sfr reg_psw) psw_checked in
      if execution_aborted c1
      then c1
      else if execution_aborted c2
      then c2
      else raise_if host (not kept) iret_psw_mismatch c2

  -- The level that a classic return ends.
  unfoldable pub classic_release : Cpu → Cpu
  classic_release c =
      let k : Classic = c.classic in
      let active = k.interrupt_active in
      record c {
        classic = record k {
          interrupt_active = if has active 2 then bit_and active (compl 2) else 0;
        };
      }

  unfoldable pub reti : Handler
  unfolding pop_return irq_reti classic_reti_checks classic_release
  reti c =
      let original_sp = c.sfr reg_sp in
      let (target, c1) = pop_return c in
      let active = c1.classic.interrupt_active in
      let sab = irq_reti host original_sp c1 in
      let checked = classic_reti_checks (if ltb 1 active then 1 else 0) original_sp c1 in
      elim target [
        | none ↦ (1, c1)
        | some pc ↦
            if is_sab c1.variant
            then if execution_aborted sab then (0, sab) else (1, set_pc pc sab)
            else if active == 0
            then (1, set_pc pc c1)
            else if execution_aborted checked
            then (0, checked)
            else (1, set_pc pc (classic_release checked))
      ]

  unfoldable pub push_mem : Handler
  unfolding read_mem push_to_stack
  push_mem c =
      let (value, c1) = read_mem host (operand c 1) c in
      let (done, c2) = push_to_stack host value c1 in (1, if done then advance 2 c2 else c2)

  unfoldable pub pop_mem : Handler
  unfolding pop_from_stack write_mem
  pop_mem c =
      let address = operand c 1 in
      let (popped, c1) = pop_from_stack host c in
      elim popped [
        | none ↦ (1, c1)
        | some value ↦
            let c2 = write_mem host address value c1 in
            if execution_aborted c2 then (0, c2) else (1, advance 2 c2)
      ]
