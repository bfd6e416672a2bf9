-- ===== src/ClassicIrq.antt =====
-- The two-level interrupt controller of the classic variants in core.c (built without `__8052__`),
-- and the entry point that picks the controller of the variant.
use emu_sa80535_n.Base.{ℕ, Bool, true, false, Option, none, some, bit_and, bit_or}
use emu_sa80535_n.Base.{◌==◌, ltb, ◌&&◌, ◌||◌, not, if◌then◌else◌, compl, u8, has, to_int, ◌>>>◌}
use emu_sa80535_n.Base.{update}
use emu_sa80535_n.Cpu.Regs.{reg_acc, reg_psw, reg_sp, reg_pcon, reg_tcon, reg_ie, reg_ip}
use emu_sa80535_n.Cpu.Masks.{
  ie_ea, ie_ex0, ie_et0, ie_ex1, ie_et1, ie_es, tcon_ie0, tcon_ie1, tcon_tf0, tcon_tf1, ip_px0,
  ip_pt0, ip_px1, ip_pt1, ip_ps,
}
use emu_sa80535_n.Cpu.{Cpu, Classic, Host, is_sab, set_sfr}
use emu_sa80535_n.Memory.{push_to_stack}
use emu_sa80535_n.IrqService.{handle_sab_interrupts}

-- `dest_ip` (`none` for -1), `hi` and `lo`.
pub record Choice : Type 0 where
  pub dest : Option ℕ
  pub hi : Bool
  pub lo : Bool

abbrev pub no_choice : Choice
no_choice = record { dest = none; hi = false; lo = false }

-- One source of `handle_interrupts`: it is asked for, its vector, and its priority bit is set.
unfoldable pub choose : Bool → ℕ → Bool → Choice → Choice
choose asked vector high s =
    if asked && not s.hi
    then record { dest = if high || not s.lo then some vector else s.dest; hi = high; lo = true }
    else s

-- The five sources in polling order.
unfoldable pub classic_choice : Cpu → Choice
unfolding choose
classic_choice c =
    let ie = c.sfr reg_ie in
    let ip = c.sfr reg_ip in
    let tcon = c.sfr reg_tcon in
    if has ie ie_ea
    then choose (has ie ie_es && c.classic.serial_interrupt_trigger) 0x23 (has ip ip_ps) (
        choose (has ie ie_et1 && has tcon tcon_tf1) 0x1b (has ip ip_pt1) (
          choose (has ie ie_ex1 && has tcon tcon_ie1) 0x13 (has ip ip_px1) (
            choose (has ie ie_et0 && has tcon tcon_tf0) 0x0b (has ip ip_pt0)
              (choose (has ie ie_ex0 && has tcon tcon_ie0) 0x03 (has ip ip_px0) no_choice))))
    else no_choice

-- The flag that entry into a service clears.
unfoldable pub classic_clear : ℕ → Cpu → Cpu
classic_clear dest c =
    let tcon = c.sfr reg_tcon in
    let k : Classic = c.classic in
    if dest == 0x0b
    then set_sfr reg_tcon (bit_and tcon (compl tcon_tf0)) c
    else if dest == 0x1b
    then set_sfr reg_tcon (bit_and tcon (compl tcon_tf1)) c
    else if dest == 0x23
    then record c { classic = record k { serial_interrupt_trigger = false } }
    else c

-- The state changes of an entry once both bytes of PC are pushed.
unfoldable pub classic_enter : ℕ → Bool → Cpu → Cpu
unfolding classic_clear
classic_enter dest hi c =
    let c1 = set_sfr reg_pcon (bit_and (c.sfr reg_pcon) (compl 0x01)) c in
    let c2 = classic_clear dest (record c1 { pc = dest; tick_delay = 1 }) in
    let k : Classic = c2.classic in
    let level = to_int hi in
    record c2 {
      classic = record k {
        interrupt_active = if hi then bit_or k.interrupt_active 2 else 1;
        int_a = update k.int_a level (c2.sfr reg_acc);
        int_psw = update k.int_psw level (c2.sfr reg_psw);
        int_sp = update k.int_sp level (c2.sfr reg_sp);
      };
    }

module _ (host : Host) where
  -- The classic part of `handle_interrupts`.
  unfoldable pub handle_classic_interrupts : Cpu → Bool × Cpu
  unfolding classic_choice classic_enter push_to_stack
  handle_classic_interrupts c =
      let choice = classic_choice c in
      let active = c.classic.interrupt_active in
      let (low_done, c1) = push_to_stack host (bit_and c.pc 0xff) c in
      let (high_done, c2) = push_to_stack host (u8 (c1.pc >>> 8)) c1 in
      if ltb 1 active then (true, c) else elim choice.dest [
        | none ↦ (true, c)
        | some dest ↦
            if active == 1 && not choice.hi
            then (true, c)
            else if not low_done
            then (false, c1)
            else if not high_done
            then (false, c2)
            else (true, classic_enter dest choice.hi c2)
      ]

  -- `handle_interrupts`.
  unfoldable pub handle_interrupts : Cpu → Bool × Cpu
  unfolding handle_classic_interrupts
  handle_interrupts c =
      if is_sab c.variant then handle_sab_interrupts host c else handle_classic_interrupts c
