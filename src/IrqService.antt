-- ===== src/IrqService.antt =====
-- Interrupt service of core.c: the Siemens controller's arbitration, entry and return, and the
-- entry of the classic two-level controller.
pub mod Select
pub mod Nesting
pub mod Callback
pub mod Service
use emu_sa80535_n.Base.{ℕ, zero, suc, ◌+◌, ◌-◌, ◌/◌, ◌%◌, Bool, true, false, Option, none, some}
use emu_sa80535_n.Base.{bit_and, bit_or, ◌==◌, ltb, leb, ◌&&◌, ◌||◌, not, if◌then◌else◌, compl, u8}
use emu_sa80535_n.Base.{has, to_int, ◌<<<◌, ◌>>>◌, update}
use emu_sa80535_n.Cpu.Regs.{
  reg_acc, reg_psw, reg_sp, reg_pcon, reg_tcon, reg_ie, reg_ip, sfr_index, sfr_ien0, sfr_ien1,
  sfr_ircon,
}
use emu_sa80535_n.Cpu.Masks.{
  psw_ov, psw_rs0, psw_rs1, psw_ac, psw_c, ie_ea, ie_et2, ie_ex0, ie_et0, ie_ex1, ie_et1, ie_es,
  ien1_exen2, ircon_tf2, ircon_exf2, tcon_it0, tcon_it1, tcon_ie0, tcon_ie1, tcon_tf0, tcon_tf1,
  ip_px0, ip_pt0, ip_px1, ip_pt1, ip_ps,
}
use emu_sa80535_n.Cpu.{Cpu, SabIrq, Classic, Host, Exception, is_sab, execution_aborted, set_sfr}
use emu_sa80535_n.Cpu.{set_pc, raise_exception, iret_acc_mismatch, iret_sp_mismatch}
use emu_sa80535_n.Cpu.{iret_psw_mismatch, IrqTrace}
use emu_sa80535_n.IrqSync.{
  irq_sync, irq_priority, irq_arm_inhibit, irq_trace_emit, irq_bit, set_irq,
}
use emu_sa80535_n.Memory.{push_to_stack}

-- `gSABIrqVectors`.
unfoldable pub irq_vector : ℕ → ℕ
irq_vector source =
    if source == 0
    then 0x0003
    else if source == 1
    then 0x000b
    else if source == 2
    then 0x0013
    else if source == 3
    then 0x001b
    else if source == 4
    then 0x0023
    else if source == 5
    then 0x002b
    else if source == 6
    then 0x0043
    else if source == 7
    then 0x004b
    else if source == 8
    then 0x0053
    else if source == 9
    then 0x005b
    else if source == 10
    then 0x0063
    else 0x006b

-- `sab_irq_timer2_is_enabled`.
unfoldable pub irq_timer2_is_enabled : Cpu → Bool
irq_timer2_is_enabled c =
    let ien0 = c.sfr (sfr_index sfr_ien0) in
    let ien1 = c.sfr (sfr_index sfr_ien1) in
    let ircon = c.sfr (sfr_index sfr_ircon) in
    has ircon ircon_tf2 && has ien0 ie_et2 || has ircon ircon_exf2 && has ien1 ien1_exen2

-- `sab_irq_auto_clear`.
unfoldable pub irq_auto_clear : ℕ → Cpu → Cpu
irq_auto_clear source c =
    let tcon = c.sfr reg_tcon in
    let ircon = sfr_index sfr_ircon in
    if source == 0
    then if has tcon tcon_it0 then set_sfr reg_tcon (bit_and tcon (compl tcon_ie0)) c else c
    else if source == 1
    then set_sfr reg_tcon (bit_and tcon (compl tcon_tf0)) c
    else if source == 2
    then if has tcon tcon_it1 then set_sfr reg_tcon (bit_and tcon (compl tcon_ie1)) c else c
    else if source == 3
    then set_sfr reg_tcon (bit_and tcon (compl tcon_tf1)) c
    else if leb 7 source && leb source 11
    then set_sfr ircon (bit_and (c.sfr ircon) (compl (1 <<< (source - 6)))) c
    else c

-- The tests of one round of the arbitration loop that do not look at priorities.
unfoldable pub irq_is_candidate : Cpu → ℕ → Bool
unfolding irq_timer2_is_enabled
irq_is_candidate c source =
    has c.irq.pending (irq_bit source)
    && has c.irq.enabled (irq_bit source)
    && not (has c.irq.in_service (irq_bit source))
    && not (source == 5 && not (irq_timer2_is_enabled c))

-- One round of the loop: the best source so far with its priority, and the next source.
unfoldable pub irq_consider : Cpu → Option (ℕ × ℕ) → ℕ → Option (ℕ × ℕ)
unfolding irq_is_candidate irq_priority
irq_consider c selected source =
    let priority = irq_priority c source in
    let depth = c.irq.depth in
    let current = c.irq.priority_stack (depth - 1) in
    if not (irq_is_candidate c source)
    then selected
    else if not (depth == 0) && leb priority current
    then selected
    else elim selected [
      | none ↦ some (source, priority)
      | some (best, best_priority) ↦
          if ltb best_priority priority then some (source, priority) else some (best, best_priority)
    ]

-- The loop over the first `n` sources.
unfoldable pub irq_select : Cpu → ℕ → Option (ℕ × ℕ)
irq_select c zero = none
irq_select c (suc n) = irq_consider c (irq_select c n) n

-- The bits of PSW that a service routine must keep.
abbrev pub psw_checked : ℕ
psw_checked = bit_or psw_ov (bit_or psw_rs0 (bit_or psw_rs1 (bit_or psw_ac psw_c)))

module _ (host : Host) where
  -- The state changes of `handle_sab_interrupts` once both bytes of PC are pushed.
  unfoldable pub irq_enter : ℕ → ℕ → Cpu → Cpu
  unfolding irq_vector
  irq_enter source priority c =
      let q : SabIrq = c.irq in
      let depth = q.depth in
      let c1 = set_sfr reg_pcon (bit_and (c.sfr reg_pcon) (compl 0x01)) c in
      set_irq
        (record q {
          source_stack = update q.source_stack depth source;
          priority_stack = update q.priority_stack depth priority;
          saved_acc = update q.saved_acc depth (c1.sfr reg_acc);
          saved_psw = update q.saved_psw depth (c1.sfr reg_psw);
          saved_sp = update q.saved_sp depth (c1.sfr reg_sp);
          depth = u8 (depth + 1);
          in_service = bit_or q.in_service (irq_bit source);
        })
        (record c1 { pc = irq_vector source; tick_delay = 1 })

  -- Entry into a selected source; false where the stack fails.
  unfoldable pub irq_accept : ℕ → ℕ → Cpu → Bool × Cpu
  unfolding irq_enter irq_auto_clear irq_sync
  irq_accept source priority c =
      let (low_done, c1) = push_to_stack host (bit_and c.pc 0xff) c in
      let (high_done, c2) = push_to_stack host (u8 (c1.pc >>> 8)) c1 in
      let c3 = irq_sync (irq_auto_clear source (irq_enter source priority c2)) in
      if not low_done
      then (false, c1)
      else if not high_done
      then (false, c2)
      else (true, irq_trace_emit host IrqTrace.accept source priority true c.irq.pending c3)

  -- `handle_sab_interrupts`.
  unfoldable pub handle_sab_interrupts : Cpu → Bool × Cpu
  unfolding irq_accept irq_select
  handle_sab_interrupts c =
      let c1 = irq_sync c in
      if not (c1.irq.inhibit_instructions == 0)
      then (true, c1)
      else if not (has (c1.sfr (sfr_index sfr_ien0)) ie_ea)
      then (true, c1)
      else elim (irq_select c1 12) [
        | none ↦ (true, c1)
        | some (source, priority) ↦
            if leb 4 c1.irq.depth then (true, c1) else irq_accept source priority c1
      ]

  abbrev pub raise_if : Bool → Exception → Cpu → Cpu
  raise_if test code c = if test then raise_exception host code c else c

  -- The three checks of a return: the first and second, then the third. A return is abandoned as
  -- soon as the host aborts.
  unfoldable pub irq_reti_checks : ℕ → ℕ → Cpu → Cpu
  irq_reti_checks index original_sp c =
      let c1 = raise_if (not (c.irq.saved_acc index == c.sfr reg_acc)) iret_acc_mismatch c in
      let c2 = raise_if (not (c1.irq.saved_sp index == original_sp)) iret_sp_mismatch c1 in
      let kept =
        bit_and (c2.irq.saved_psw index) psw_checked == bit_and (c2.sfr reg_psw) psw_checked in
      if execution_aborted c1
      then c1
      else if execution_aborted c2
      then c2
      else raise_if (not kept) iret_psw_mismatch c2

  -- The release of the innermost service.
  unfoldable pub irq_release : ℕ → ℕ → ℕ → Cpu → Cpu
  unfolding irq_sync
  irq_release index source priority c =
      let q : SabIrq = c.irq in
      let c1 = irq_sync (
        set_irq
          (record q { depth = index; in_service = bit_and q.in_service (65535 - irq_bit source) })
          c) in
      irq_trace_emit host IrqTrace.release source priority false c1.irq.pending c1

  -- `em8051_sab_irq_reti`.
  unfoldable pub irq_reti : ℕ → Cpu → Cpu
  unfolding irq_reti_checks irq_release irq_arm_inhibit
  irq_reti original_sp c =
      let index = u8 (c.irq.depth - 1) in
      let source = c.irq.source_stack index in
      let priority = c.irq.priority_stack index in
      let checked = irq_reti_checks index original_sp c in
      if not (is_sab c.variant)
      then c
      else if c.irq.depth == 0
      then irq_arm_inhibit c
      else if execution_aborted checked
      then checked
      else irq_arm_inhibit (irq_release index source priority checked)
