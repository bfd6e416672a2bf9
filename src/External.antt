-- ===== src/External.antt =====
-- The external interrupt inputs and virtual ports of core.c: what a change of a pin does, driving
-- and releasing pins, and the bounded schedule of future stimuli.
pub mod Frame
pub mod Drive
use emu_sa80535_n.Base.{
  ℕ, zero, suc, ◌+◌, ◌-◌, ◌%◌, Bool, true, false, Option, none, some, List, [], ◌∷◌,
}
use emu_sa80535_n.Base.{
  bit_and, bit_or, ◌==◌, ltb, leb, ◌&&◌, ◌||◌, not, if◌then◌else◌, compl, u8, has, update,
}
use emu_sa80535_n.Cpu.Regs.{reg_tcon, sfr_index, sfr_t2con}
use emu_sa80535_n.Cpu.Masks.{tcon_it0, tcon_it1, t2con_i2fr, t2con_i3fr}
use emu_sa80535_n.Cpu.{Cpu, Ports, ScheduleEvent, ScheduleAction, drive, release, Host, is_sab}
use emu_sa80535_n.Cpu.{set_sfr, irq_write, notify, external, ExternalTrigger}
use emu_sa80535_n.Cpu.{non_qualifying, falling_edge, rising_edge, low_level_assert, level_release}
use emu_sa80535_n.Pins.{external_pin, external_sample_bit, external_request_sfr, port_index}
use emu_sa80535_n.Pins.{port_get_pins}
use emu_sa80535_n.IrqSync.{irq_sync, set_level_asserted}

-- `sab_external_request_is_set`.
unfoldable pub external_request_is_set : Cpu → ℕ → Bool
unfolding external_request_sfr
external_request_is_set c source = elim (external_request_sfr source) [
  | none ↦ false
  | some (index, mask) ↦ has (c.sfr index) mask
]

-- How `sab_external_observe_change` classifies a change: the trigger, whether it raises the
-- request, and the CPU after the level bookkeeping of INT0 and INT1.
abbrev pub Change : Type 0
Change = ExternalTrigger × Bool × Cpu

-- INT0 and INT1, in edge mode and in level mode.
unfoldable pub observe_int01 : Cpu → ℕ → Bool → Bool → ℕ → ℕ → Change
unfolding external_sample_bit
observe_int01 c source old_level new_level index mask =
    let mode_mask = if source == 0 then tcon_it0 else tcon_it1 in
    let sample_bit = external_sample_bit source in
    let asserted = c.ports.level_asserted in
    if has (c.sfr reg_tcon) mode_mask
    then if old_level && not new_level then (falling_edge, true, c) else (non_qualifying, false, c)
    else if not new_level
    then (low_level_assert, true, set_level_asserted (bit_or asserted sample_bit) c)
    else (
      level_release,
      false,
      set_level_asserted (bit_and asserted (compl sample_bit)) (
          if has asserted sample_bit
          then set_sfr index (bit_and (c.sfr index) (compl mask)) c
          else c),
    )

-- INT2 and INT3, on the edge that T2CON selects.
unfoldable pub observe_int23 : Cpu → ℕ → Bool → Bool → Change
observe_int23 c source old_level new_level =
    let selection_mask = if source == 2 then t2con_i2fr else t2con_i3fr in
    if has (c.sfr (sfr_index sfr_t2con)) selection_mask
    then if not old_level && new_level then (rising_edge, true, c) else (non_qualifying, false, c)
    else if old_level && not new_level
    then (falling_edge, true, c)
    else (non_qualifying, false, c)

-- INT4 to INT6, on the rising edge.
unfoldable pub observe_int456 : Cpu → Bool → Bool → Change
observe_int456 c old_level new_level =
    if not old_level && new_level then (rising_edge, true, c) else (non_qualifying, false, c)

unfoldable pub classify_change : Cpu → ℕ → Bool → Bool → ℕ → ℕ → Change
unfolding observe_int01 observe_int23 observe_int456
classify_change c source old_level new_level index mask =
    if source == 0 || source == 1
    then observe_int01 c source old_level new_level index mask
    else if source == 2 || source == 3
    then observe_int23 c source old_level new_level
    else observe_int456 c old_level new_level

abbrev pub set_sampled_levels : ℕ → Cpu → Cpu
set_sampled_levels value c =
    let p : Ports = c.ports in record c { ports = record p { sampled_levels = value } }

module _ (host : Host) where
  -- `sab_external_observe_change`.
  unfoldable pub external_observe_change : ℕ → Bool → Bool → Cpu → Cpu
  unfolding external_request_sfr external_request_is_set classify_change
  external_observe_change source old_level new_level c = elim (external_request_sfr source) [
    | none ↦ c
    | some (index, mask) ↦
        let (trigger, qualifying, c1) = classify_change c source old_level new_level index mask in
        let c2 = if qualifying then irq_write index (bit_or (c1.sfr index) mask) c1 else c1 in
        let c3 = irq_sync c2 in
        notify host
          (external c3.machine_cycle_count source old_level new_level trigger
            (external_request_is_set c3 source))
          c3
  ]

  -- One round of the loop of `sab_external_sample_port`.
  unfoldable pub sample_source : ℕ → ℕ → ℕ → Cpu → Cpu
  unfolding external_pin external_sample_bit
  sample_source port pins source c = elim (external_pin source) [
    | none ↦ c
    | some (source_port, pin_mask) ↦
        let sample_bit = external_sample_bit source in
        let sampled = c.ports.sampled_levels in
        let old_level = has sampled sample_bit in
        let new_level = has pins pin_mask in
        if not (source_port == port)
        then c
        else if old_level && new_level || not old_level && not new_level
        then c
        else external_observe_change source old_level new_level (
            set_sampled_levels
              (if new_level then bit_or sampled sample_bit else bit_and sampled (compl sample_bit))
              c)
  ]

  abbrev pub sample_sources : ℕ → ℕ → List ℕ → Cpu → Cpu
  sample_sources port pins [] c = c
  sample_sources port pins (source ∷ rest) c =
      sample_sources port pins rest (sample_source port pins source c)

  -- `sab_external_sample_port`: the pins are read once, before the loop.
  unfoldable pub external_sample_port : ℕ → Cpu → Cpu
  unfolding port_get_pins
  external_sample_port port c =
      if is_sab c.variant
      then elim (port_get_pins c port) [
        | none ↦ c
        | some pins ↦ sample_sources port pins (0 ∷ 1 ∷ 2 ∷ 3 ∷ 4 ∷ 5 ∷ 6 ∷ []) c
      ]
      else c

  -- `em8051_sab_port_drive`.
  unfoldable pub port_drive : ℕ → ℕ → ℕ → Cpu → Bool × Cpu
  unfolding port_index
  port_drive port mask levels c = elim (port_index c port) [
    | none ↦ (false, c)
    | some index ↦
        let p : Ports = c.ports in
        let level = bit_or (bit_and (p.external_levels index) (compl mask)) (bit_and levels mask) in
        let driven = bit_or (p.external_mask index) mask in
        (
          true,
          external_sample_port port (record c {
            ports = record p {
              external_levels = update p.external_levels index level;
              external_mask = update p.external_mask index driven;
            };
          }),
        )
  ]

  -- `em8051_sab_port_release`.
  unfoldable pub port_release : ℕ → ℕ → Cpu → Bool × Cpu
  unfolding port_index
  port_release port mask c = elim (port_index c port) [
    | none ↦ (false, c)
    | some index ↦
        let p : Ports = c.ports in
        let driven = bit_and (p.external_mask index) (compl mask) in
        let level = bit_and (p.external_levels index) (compl mask) in
        (
          true,
          external_sample_port port (record c {
            ports = record p {
              external_mask = update p.external_mask index driven;
              external_levels = update p.external_levels index level;
            };
          }),
        )
  ]

  -- `em8051_sab_external_drive`.
  unfoldable pub external_drive : ℕ → Bool → Cpu → Bool × Cpu
  unfolding external_pin
  external_drive source level c =
      if is_sab c.variant
      then elim (external_pin source) [
        | none ↦ (false, c)
        | some (port, mask) ↦ port_drive port mask (if level then mask else 0) c
      ]
      else (false, c)

  -- `em8051_sab_external_release`.
  unfoldable pub external_release : ℕ → Cpu → Bool × Cpu
  unfolding external_pin
  external_release source c =
      if is_sab c.variant
      then elim (external_pin source) [
        | none ↦ (false, c)
        | some (port, mask) ↦ port_release port mask c
      ]
      else (false, c)
