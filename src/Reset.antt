-- ===== src/Reset.antt =====
-- Reset and variants of core.c.
pub mod Ram
use emu_sa80535_n.Base.{
  ℕ, zero, suc, ◌+◌, ◌-◌, ◌*◌, ◌/◌, ◌%◌, Bool, true, false, Option, none, some,
}
use emu_sa80535_n.Base.{
  bit_or, bit_xor, ◌==◌, leb, not, if◌then◌else◌, u8, u32, ◌<<<◌, ◌>>>◌, update, List, [],
}
use emu_sa80535_n.Cpu.Regs.{
  reg_sp, reg_p0, reg_p1, reg_p2, reg_p3, reg_pcon, reg_sbuf, sfr_index, sfr_p4, sfr_p5, sfr_p6,
}
use emu_sa80535_n.Cpu.{
  Cpu, Variant, v8051, v8052, sab80535, ScheduleEvent, ScheduleAction, Ports, Adc, SabIrq, Uart,
  Classic, is_sab, set_sfr,
}

-- `reset_random`: the next state, which is also the value.
unfoldable pub reset_random : ℕ → ℕ
reset_random seed =
    let s0 = if seed == 0 then 0x6d2b79f5 else seed in
    let s1 = bit_xor s0 (u32 (s0 <<< 13)) in
    let s2 = bit_xor s1 (s1 >>> 17) in bit_xor s2 (u32 (s2 <<< 5))

-- The fields of `gVariants` that the core uses.
unfoldable pub default_oscillator_hz : Variant → ℕ
default_oscillator_hz v8051 = 12000000
default_oscillator_hz v8052 = 12000000
default_oscillator_hz sab80535 = 11059200

unfoldable pub has_upper_iram : Variant → Bool
has_upper_iram v8051 = false
has_upper_iram v8052 = true
has_upper_iram sab80535 = true

-- The state after `n` calls of `reset_random`.
unfoldable pub random_after : ℕ → ℕ → ℕ
random_after seed zero = seed
random_after seed (suc n) = reset_random (random_after seed n)

-- The loop that fills an array with the next `size` values.
unfoldable pub random_fill : ℕ → ℕ → (ℕ → ℕ) → ℕ → ℕ
random_fill seed zero memory = memory
random_fill seed (suc size) memory =
    update (random_fill seed size memory) size (u8 (random_after seed (suc size)))

-- `memset(memory, 0, size)`.
unfoldable pub clear_to : ℕ → (ℕ → ℕ) → ℕ → ℕ
clear_to size memory j = if leb size j then memory j else 0

-- `em8051_set_reset_seed`.
unfoldable pub set_reset_seed : ℕ → Cpu → Cpu
set_reset_seed seed c = record c { reset_seed = seed; reset_seed_configured = true }

abbrev no_event : ScheduleEvent
no_event = record { machine_cycle = 0; source = 0; action = ScheduleAction.drive; level = false }

abbrev reset_ports : Ports
reset_ports = record {
  external_mask = λ _. 0;
  external_levels = λ _. 0;
  sampled_levels = 0x7f;
  level_asserted = 0;
  schedule = λ _. no_event;
  schedule_head = 0;
  schedule_count = 0;
}

abbrev reset_adc : Adc
reset_adc = record {
  inputs = λ _. 0;
  latched_input = 0;
  latched_channel = 0;
  latched_dapr = 0;
  cycles = 0;
  start_pending = false;
  arm_restart = false;
  armed = false;
  active = false;
  busy = false;
  reference_valid = false;
  continuous_requested = false;
}

abbrev reset_irq : SabIrq
reset_irq = record {
  pending = 0;
  enabled = 0;
  in_service = 0;
  depth = 0;
  source_stack = λ _. 0;
  priority_stack = λ _. 0;
  saved_acc = λ _. 0;
  saved_psw = λ _. 0;
  saved_sp = λ _. 0;
  inhibit_instructions = 0;
}

abbrev reset_uart : ℕ → Uart
reset_uart sbuf = record {
  divider_phase = 0;
  rx_divider_phase = 0;
  rx_data = sbuf;
  tx_pending_data = 0;
  tx_data = 0;
  tx_bit_index = 0;
  rx_pending_data = 0;
  rx_bit_index = 0;
  tx_pending_ninth = false;
  tx_ninth = false;
  tx_pending = false;
  tx_active = false;
  rx_pending_ninth = false;
  rx_active = false;
}

-- The register array after a reset, from the value that SBUF is given by a cold one.
unfoldable pub reset_sfr : Variant → Option ℕ → ℕ → ℕ
reset_sfr variant cold =
    let warm =
      update
        (update (update (update (update (λ _. 0) reg_sp 7) reg_p0 0xff) reg_p1 0xff) reg_p2 0xff)
        reg_p3 0xff in
    let ports =
      if is_sab variant
      then update (update (update warm (sfr_index sfr_p4) 0xff) (sfr_index sfr_p5) 0xff)
          (sfr_index sfr_p6) 0xff
      else warm in
    elim cold [ none ↦ ports | some sbuf ↦ update (update ports reg_pcon (1 <<< 4)) reg_sbuf sbuf ]

-- The number of random bytes that a cold reset draws before the one for SBUF.
abbrev ram_size : Bool → ℕ
ram_size upper = if upper then 256 else 128

-- The memories that a cold reset wipes.
unfoldable pub wipe_memory : Cpu → Cpu
unfolding random_fill random_after
wipe_memory c =
    let size : ℕ = 128 in
    let seed = c.reset_seed in
    record c {
      code_mem = clear_to (c.code_mem_max_idx + 1) c.code_mem;
      ext_data = elim c.ext_data [
        | none ↦ none
        | some ext ↦ some (clear_to (c.ext_data_max_idx + 1) ext)
      ];
      lower_data =
          if c.reset_seed_configured
          then random_fill seed size c.lower_data
          else clear_to size c.lower_data;
      owned_upper_data =
          if not c.upper_data
          then c.owned_upper_data
          else if c.reset_seed_configured
          then random_fill (random_after seed size) size c.owned_upper_data
          else clear_to size c.owned_upper_data;
    }

-- `reset`. `rand` is the C library's random number, used where no seed was configured; the handler
-- array that `op_setptrs` builds is an argument of `tick` here.
unfoldable pub reset : ℕ → Bool → Cpu → Cpu
unfolding wipe_memory reset_sfr random_after has_upper_iram default_oscillator_hz
reset rand wipe c =
    let upper = if has_upper_iram c.variant then true else c.upper_data in
    let based = record c {
      oscillator_hz =
          if c.oscillator_hz == 0 then default_oscillator_hz c.variant else c.oscillator_hz;
      upper_data = upper;
    } in
    let wiped = if wipe then wipe_memory based else based in
    let sbuf = u8 (
      if c.reset_seed_configured then random_after c.reset_seed (suc (ram_size upper)) else rand) in
    let sfr = reset_sfr c.variant (if wipe then some sbuf else none) in
    let k : Classic = c.classic in
    record wiped {
      sfr = sfr;
      ports = reset_ports;
      adc = reset_adc;
      sfr_write_depth = 0;
      pc = 0;
      tick_delay = 0;
      irq = reset_irq;
      timer_overflow_count = λ _. 0;
      uart = reset_uart (sfr reg_sbuf);
      instruction_count = 0;
      machine_cycle_count = 0;
      exception_raised = false;
      last_exception = none;
      in_instruction = false;
      breakpoint_enabled = false;
      classic = record k {
        interrupt_active = 0;
        serial_interrupt_trigger = false;
        serial_out_remaining_bits = 0;
      };
    }

-- `em8051_init_variant`, for a variant in range.
unfoldable pub init_variant : ℕ → Variant → Cpu → Cpu
unfolding reset set_reset_seed has_upper_iram default_oscillator_hz
init_variant rand variant c = reset rand true (
    set_reset_seed 0x80535 (record c {
      variant = variant;
      oscillator_hz = default_oscillator_hz variant;
      upper_data = has_upper_iram variant;
    }))
