-- ===== src/IrqSync.antt =====
-- The Siemens interrupt controller's request side in core.c: level-held requests and the cached
-- pending and enabled masks.
use emu_sa80535_n.Base.{ℕ, ◌-◌, Bool, none, some, List, [], ◌∷◌, bit_and, bit_or}
use emu_sa80535_n.Base.{◌==◌, ltb, ◌||◌, not, if◌then◌else◌, compl, u8, ◌<<<◌, has}
use emu_sa80535_n.Cpu.Regs.{
  reg_tcon, reg_scon, sfr_index, sfr_ien0, sfr_ien1, sfr_ircon, sfr_p3, sfr_ip0, sfr_ip1,
}
use emu_sa80535_n.Cpu.Masks.{
  tcon_it0, tcon_it1, tcon_ie0, tcon_ie1, tcon_tf0, tcon_tf1, scon_ri, scon_ti, ircon_tf2,
  ircon_exf2, ircon_iadc, ircon_iex2, ircon_iex3, ircon_iex4, ircon_iex5, ircon_iex6, ie_et2,
  ien1_exen2, ie_ea,
}
use emu_sa80535_n.Cpu.{Cpu, Ports, SabIrq, Host, is_sab, set_sfr, irq_write, notify, IrqTrace, irq}
use emu_sa80535_n.Pins.{external_sample_bit, port_get_pins}

abbrev pub set_level_asserted : ℕ → Cpu → Cpu
set_level_asserted value c =
    let p : Ports = c.ports in record c { ports = record p { level_asserted = value } }

-- One round of the loop of `sab_external_maintain_level_requests`, for INT0 or INT1.
unfoldable pub maintain_level_request : ℕ → ℕ → Cpu → Cpu
unfolding external_sample_bit
maintain_level_request pins source c =
    let pin_mask = if source == 0 then 0x04 else 0x08 in
    let mode_mask = if source == 0 then tcon_it0 else tcon_it1 in
    let request_mask = if source == 0 then tcon_ie0 else tcon_ie1 in
    let sample_bit = external_sample_bit source in
    let asserted = c.ports.level_asserted in
    if has (c.sfr reg_tcon) mode_mask
    then set_level_asserted (bit_and asserted (compl sample_bit)) c
    else if not (has pins pin_mask)
    then set_level_asserted (bit_or asserted sample_bit)
        (irq_write reg_tcon (bit_or (c.sfr reg_tcon) request_mask) c)
    else if has asserted sample_bit
    then set_level_asserted (bit_and asserted (compl sample_bit))
        (set_sfr reg_tcon (bit_and (c.sfr reg_tcon) (compl request_mask)) c)
    else c

-- `sab_external_maintain_level_requests`.
unfoldable pub maintain_level_requests : Cpu → Cpu
unfolding port_get_pins maintain_level_request
maintain_level_requests c =
    if is_sab c.variant
    then elim (port_get_pins c sfr_p3) [
      | none ↦ c
      | some pins ↦ maintain_level_request pins 1 (maintain_level_request pins 0 c)
    ]
    else c

-- Interrupt sources in polling order.
abbrev pub irq_source_count : ℕ
irq_source_count = 12

-- `SAB_IRQ_BIT`.
abbrev pub irq_bit : ℕ → ℕ
irq_bit source = 1 <<< source

-- The bits that a chain of `if (...) mask |= SAB_IRQ_BIT(...)` collects.
abbrev pub collect : List (Bool × ℕ) → ℕ → ℕ
collect [] mask = mask
collect ((test, source) ∷ rest) mask =
    collect rest (if test then bit_or mask (irq_bit source) else mask)

-- The request flags that `sab_irq_sync` reads.
unfoldable pub pending_of : Cpu → ℕ
pending_of c =
    let tcon = c.sfr reg_tcon in
    let scon = c.sfr reg_scon in
    let ircon = c.sfr (sfr_index sfr_ircon) in
    collect
      ((has tcon tcon_ie0, 0)
        ∷ (has tcon tcon_tf0, 1)
        ∷ (has tcon tcon_ie1, 2)
        ∷ (has tcon tcon_tf1, 3)
        ∷ (has scon (bit_or scon_ri scon_ti), 4)
        ∷ (has ircon (bit_or ircon_tf2 ircon_exf2), 5)
        ∷ (has ircon ircon_iadc, 6)
        ∷ (has ircon ircon_iex2, 7)
        ∷ (has ircon ircon_iex3, 8)
        ∷ (has ircon ircon_iex4, 9)
        ∷ (has ircon ircon_iex5, 10)
        ∷ (has ircon ircon_iex6, 11)
        ∷ [])
      0

-- The enable flags that `sab_irq_sync` reads.
unfoldable pub enabled_of : Cpu → ℕ
enabled_of c =
    let ien0 = c.sfr (sfr_index sfr_ien0) in
    let ien1 = c.sfr (sfr_index sfr_ien1) in
    collect
      ((has ien0 (u8 (1 <<< 0)), 0)
        ∷ (has ien0 (u8 (1 <<< 1)), 1)
        ∷ (has ien0 (u8 (1 <<< 2)), 2)
        ∷ (has ien0 (u8 (1 <<< 3)), 3)
        ∷ (has ien0 (u8 (1 <<< 4)), 4)
        ∷ (has ien0 ie_et2 || has ien1 ien1_exen2, 5)
        ∷ (has ien1 (u8 (1 <<< 0)), 6)
        ∷ (has ien1 (u8 (1 <<< 1)), 7)
        ∷ (has ien1 (u8 (1 <<< 2)), 8)
        ∷ (has ien1 (u8 (1 <<< 3)), 9)
        ∷ (has ien1 (u8 (1 <<< 4)), 10)
        ∷ (has ien1 (u8 (1 <<< 5)), 11)
        ∷ [])
      0

abbrev pub set_irq : SabIrq → Cpu → Cpu
set_irq q c = record c { irq = q }

-- `sab_irq_sync`. The enable registers and the request flags other than those of INT0 and INT1 are
-- read before the level requests are maintained, which changes none of them.
unfoldable pub irq_sync : Cpu → Cpu
irq_sync c =
    let c1 = maintain_level_requests c in
    let q : SabIrq = c1.irq in
    set_irq (record q { pending = pending_of c1; enabled = enabled_of c1 }) c1

-- `sab_irq_priority`: the level of a source, from the bits of its pair in IP0 and IP1.
unfoldable pub irq_priority : Cpu → ℕ → ℕ
irq_priority c source =
    let pair = if ltb source 6 then source else source - 6 in
    let bit = u8 (1 <<< pair) in
    bit_or (if has (c.sfr (sfr_index sfr_ip0)) bit then 1 else 0)
      (if has (c.sfr (sfr_index sfr_ip1)) bit then 2 else 0)

-- `sab_irq_arm_inhibit`.
unfoldable pub irq_arm_inhibit : Cpu → Cpu
irq_arm_inhibit c =
    let q : SabIrq = c.irq in
    set_irq (record q { inhibit_instructions = if c.in_instruction then 2 else 1 }) c

-- `sab_irq_trace_emit`.
abbrev pub irq_trace_emit : Host → IrqTrace → ℕ → ℕ → Bool → ℕ → Cpu → Cpu
irq_trace_emit host event source priority asserted snapshot c =
    notify host
      (irq event c.machine_cycle_count (if c.in_instruction then c.trace_pc else c.pc) source
        priority asserted (has (c.sfr (sfr_index sfr_ien0)) ie_ea) snapshot c.irq.enabled
        c.irq.in_service c.irq.depth)
      c
