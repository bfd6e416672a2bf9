-- ===== src/Pins.antt =====
-- The virtual port pins and the external interrupt inputs of core.c: which pin and which request
-- flag an input has, and the level that a pin resolves to.
use emu_sa80535_n.Base.{ℕ, ◌-◌, Option, none, some, bit_and, bit_or}
use emu_sa80535_n.Base.{◌==◌, leb, ◌&&◌, if◌then◌else◌, compl, u8, ◌<<<◌}
use emu_sa80535_n.Cpu.Regs.{reg_tcon, sfr_ircon, sfr_index, sfr_p1, sfr_p3, sfr_p4, sfr_p5}
use emu_sa80535_n.Cpu.Masks.{tcon_ie0, tcon_ie1, ircon_iex2}
use emu_sa80535_n.Cpu.{Cpu, is_sab}

-- The inputs INT0 to INT6 are numbered from 0.
abbrev pub external_source_count : ℕ
external_source_count = 7

-- `sab_external_pin`: the port and the mask of an input.
unfoldable pub external_pin : ℕ → Option (ℕ × ℕ)
external_pin source =
    if source == 0
    then some (sfr_p3, 0x04)
    else if source == 1
    then some (sfr_p3, 0x08)
    else if source == 2
    then some (sfr_p1, 0x10)
    else if source == 3
    then some (sfr_p1, 0x01)
    else if source == 4
    then some (sfr_p1, 0x02)
    else if source == 5
    then some (sfr_p1, 0x04)
    else if source == 6
    then some (sfr_p1, 0x08)
    else none

-- `sab_external_sample_bit`.
unfoldable pub external_sample_bit : ℕ → ℕ
external_sample_bit source = u8 (1 <<< source)

-- `sab_external_request_sfr`: the register index and the mask of an input's request flag.
unfoldable pub external_request_sfr : ℕ → Option (ℕ × ℕ)
external_request_sfr source =
    if source == 0
    then some (reg_tcon, tcon_ie0)
    else if source == 1
    then some (reg_tcon, tcon_ie1)
    else if leb 2 source && leb source 6
    then some (sfr_index sfr_ircon, u8 (ircon_iex2 <<< (source - 2)))
    else none

-- `sab_port_index`.
unfoldable pub port_index : Cpu → ℕ → Option ℕ
port_index c port =
    if is_sab c.variant
    then if port == sfr_p1
      then some 0
      else if port == sfr_p3
      then some 1
      else if port == sfr_p4
      then some 2
      else if port == sfr_p5
      then some 3
      else none
    else none

-- `em8051_sab_port_get_latch`.
unfoldable pub port_get_latch : Cpu → ℕ → Option ℕ
unfolding port_index
port_get_latch c port = elim (port_index c port) [
  | none ↦ none
  | some _ ↦ some (c.sfr (sfr_index port))
]

-- A pin is low where the latch is low, or where it is driven low from outside.
abbrev pub resolve : ℕ → ℕ → ℕ → ℕ
resolve latch mask levels = bit_and latch (bit_or (compl mask) levels)

-- `em8051_sab_port_get_pins`.
unfoldable pub port_get_pins : Cpu → ℕ → Option ℕ
unfolding port_index
port_get_pins c port = elim (port_index c port) [
  | none ↦ none
  | some index ↦ some (
      resolve (c.sfr (sfr_index port)) (c.ports.external_mask index)
        (c.ports.external_levels index))
]
