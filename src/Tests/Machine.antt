-- ===== src/Tests/Machine.antt =====
-- A processor in a known state, and a host without callbacks.
use emu_sa80535_n.Base.{ℕ, false, true, none, [], update}
use emu_sa80535_n.Cpu.{
  Cpu, Host, Ports, Adc, SabIrq, Uart, Classic, ScheduleEvent, ScheduleAction, sab80535,
}

abbrev pub bare_host : Host
bare_host = record {
  except = λ c e. c;
  sfrread = λ _. none;
  sfrwrite = λ _ c _. c;
  xread = none;
  xwrite = none;
  observe = λ _ fault. fault;
}

abbrev pub no_event : ScheduleEvent
no_event = record { machine_cycle = 0; source = 0; action = ScheduleAction.release; level = false }

abbrev pub quiet_ports : Ports
quiet_ports = record {
  external_mask = λ _. 0;
  external_levels = λ _. 0;
  sampled_levels = 0x7f;
  level_asserted = 0;
  schedule = λ _. no_event;
  schedule_head = 0;
  schedule_count = 0;
}

abbrev pub quiet_adc : Adc
quiet_adc = record {
  inputs = λ _. 0;
  latched_input = 0;
  latched_channel = 0;
  latched_dapr = 0;
  cycles = 0;
  start_pending = false;
  arm_restart = false;
  armed = false;
  active = false;
  busy = false;
  reference_valid = false;
  continuous_requested = false;
}

abbrev pub quiet_irq : SabIrq
quiet_irq = record {
  pending = 0;
  enabled = 0;
  in_service = 0;
  depth = 0;
  source_stack = λ _. 0;
  priority_stack = λ _. 0;
  saved_acc = λ _. 0;
  saved_psw = λ _. 0;
  saved_sp = λ _. 0;
  inhibit_instructions = 0;
}

abbrev pub quiet_uart : Uart
quiet_uart = record {
  divider_phase = 0;
  rx_divider_phase = 0;
  rx_data = 0;
  tx_pending_data = 0;
  tx_data = 0;
  tx_bit_index = 0;
  rx_pending_data = 0;
  rx_bit_index = 0;
  tx_pending_ninth = false;
  tx_ninth = false;
  tx_pending = false;
  tx_active = false;
  rx_pending_ninth = false;
  rx_active = false;
}

abbrev pub quiet_classic : Classic
quiet_classic = record {
  interrupt_active = 0;
  int_a = λ _. 0;
  int_psw = λ _. 0;
  int_sp = λ _. 0;
  serial_out = λ _. 0;
  serial_out_idx = 0;
  serial_out_remaining_bits = 0;
  serial_interrupt_trigger = false;
}

-- A SAB80535 with the registers `sfr` and code memory `code`, and nothing under way.
abbrev pub machine : (ℕ → ℕ) → (ℕ → ℕ) → Cpu
machine sfr code = record {
  code_mem = code;
  code_mem_max_idx = 0xffff;
  ext_data = none;
  ext_data_max_idx = 0xffff;
  lower_data = λ _. 0;
  upper_data = true;
  owned_upper_data = λ _. 0;
  sfr = sfr;
  pc = 0x100;
  tick_delay = 0;
  variant = sab80535;
  oscillator_hz = 11059200;
  reset_seed = 0x80535;
  reset_seed_configured = true;
  instruction_count = 0;
  machine_cycle_count = 40;
  timer_overflow_count = λ _. 0;
  breakpoint_enabled = false;
  breakpoint = 0;
  exception_raised = false;
  last_exception = none;
  trace_pc = 0;
  in_instruction = false;
  sfr_write_depth = 0;
  ports = quiet_ports;
  adc = quiet_adc;
  irq = quiet_irq;
  uart = quiet_uart;
  classic = quiet_classic;
  execution_abort = false;
  user_fault = false;
  notices = [];
}

abbrev pub zeros : ℕ → ℕ
zeros _ = 0

-- The same, with one register set.
abbrev pub machine_with : ℕ → ℕ → Cpu
machine_with register value = machine (update zeros register value) zeros
