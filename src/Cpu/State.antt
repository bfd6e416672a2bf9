-- ===== src/Cpu/State.antt =====
-- `struct em8051`, with a record for each peripheral, and the records that observers are handed.
-- Numbers are the values of the C fields; a fixed array is a function of its index.
use emu_sa80535_n.Base.{ℕ, Bool, Option, List}

pub data Variant : Type 0 where
  v8051 v8052 sab80535 : Variant

pub data Exception : Type 0 where
  stack acc_to_a iret_psw_mismatch iret_sp_mismatch iret_acc_mismatch illegal_opcode : Exception

pub data TraceType : Type 0 where
  instruction sfr_write movx_read movx_write unsupported_movx_read unsupported_movx_write :
      TraceType

pub data IrqTrace : Type 0 where
  request accept release : IrqTrace

pub data UartTrace : Type 0 where
  tx_start tx_bit tx_stop tx_end rx_start rx_accept rx_drop rx_end : UartTrace

pub data ExternalTrigger : Type 0 where
  non_qualifying falling_edge rising_edge low_level_assert level_release : ExternalTrigger

pub data AdcTrace : Type 0 where
  start restart complete : AdcTrace

pub data Timer : Type 0 where
  timer0 timer1 timer2 : Timer

pub data Direction : Type 0 where
  read write : Direction

pub data ScheduleAction : Type 0 where
  drive release : ScheduleAction

pub record ScheduleEvent : Type 0 where
  pub machine_cycle : ℕ
  pub source : ℕ
  pub action : ScheduleAction
  pub level : Bool

pub record MovxContext : Type 0 where
  pub machine_cycle : ℕ
  pub pc : ℕ
  pub address : ℕ
  pub direction : Direction
  pub value : ℕ
  pub p1_latch : ℕ

-- A record that the CPU hands to an observer.
pub data Notice : Type 0 where
  traced : (type : TraceType) (machine_cycle pc address value : ℕ) → Notice
  irq :
      (event : IrqTrace) (machine_cycle pc source priority : ℕ) (asserted global_enabled : Bool)
      (pending_mask enabled_mask in_service_mask in_service_depth : ℕ)
      → Notice
  overflowed : (timer : Timer) (machine_cycle tl th : ℕ) → Notice
  uart :
      (event : UartTrace) (machine_cycle pc value : ℕ) (ninth_bit : Bool) (bit_index : ℕ)
      (bit_value : Bool)
      → Notice
  movx : MovxContext → Notice
  external :
      (machine_cycle source : ℕ) (old_level new_level : Bool) (trigger : ExternalTrigger)
      (request_pending : Bool)
      → Notice
  adc :
      (event : AdcTrace) (machine_cycle channel dapr normalized_input addat : ℕ)
      (busy iadc references_valid continuous_requested : Bool)
      → Notice

-- The external side of the four virtual ports, and the interrupt inputs sampled from their pins.
pub record Ports : Type 0 where
  pub external_mask : ℕ → ℕ
  pub external_levels : ℕ → ℕ
  pub sampled_levels : ℕ
  pub level_asserted : ℕ
  pub schedule : ℕ → ScheduleEvent
  pub schedule_head : ℕ
  pub schedule_count : ℕ

pub record Adc : Type 0 where
  pub inputs : ℕ → ℕ
  pub latched_input : ℕ
  pub latched_channel : ℕ
  pub latched_dapr : ℕ
  pub cycles : ℕ
  pub start_pending : Bool
  pub arm_restart : Bool
  pub armed : Bool
  pub active : Bool
  pub busy : Bool
  pub reference_valid : Bool
  pub continuous_requested : Bool

-- The Siemens interrupt controller. The stacks have four entries.
pub record SabIrq : Type 0 where
  pub pending : ℕ
  pub enabled : ℕ
  pub in_service : ℕ
  pub depth : ℕ
  pub source_stack : ℕ → ℕ
  pub priority_stack : ℕ → ℕ
  pub saved_acc : ℕ → ℕ
  pub saved_psw : ℕ → ℕ
  pub saved_sp : ℕ → ℕ
  pub inhibit_instructions : ℕ

pub record Uart : Type 0 where
  pub divider_phase : ℕ
  pub rx_divider_phase : ℕ
  pub rx_data : ℕ
  pub tx_pending_data : ℕ
  pub tx_data : ℕ
  pub tx_bit_index : ℕ
  pub rx_pending_data : ℕ
  pub rx_bit_index : ℕ
  pub tx_pending_ninth : Bool
  pub tx_ninth : Bool
  pub tx_pending : Bool
  pub tx_active : Bool
  pub rx_pending_ninth : Bool
  pub rx_active : Bool

-- The two-level interrupt state and the serial shortcut of the classic variants.
pub record Classic : Type 0 where
  pub interrupt_active : ℕ
  pub int_a : ℕ → ℕ
  pub int_psw : ℕ → ℕ
  pub int_sp : ℕ → ℕ
  pub serial_out : ℕ → ℕ
  pub serial_out_idx : ℕ
  pub serial_out_remaining_bits : ℕ
  pub serial_interrupt_trigger : Bool

-- `upper_data` says that the pointer `mUpperData` is set; it then points to `owned_upper_data`, as
-- `em8051_init_variant` leaves it. `ext_data` is `none` for a null pointer. `user_fault` is the
-- caller-owned state that the abort predicate reads. `notices` are the records handed out so far,
-- the latest first.
pub record Cpu : Type 0 where
  pub code_mem : ℕ → ℕ
  pub code_mem_max_idx : ℕ
  pub ext_data : Option (ℕ → ℕ)
  pub ext_data_max_idx : ℕ
  pub lower_data : ℕ → ℕ
  pub upper_data : Bool
  pub owned_upper_data : ℕ → ℕ
  pub sfr : ℕ → ℕ
  pub pc : ℕ
  pub tick_delay : ℕ
  pub variant : Variant
  pub oscillator_hz : ℕ
  pub reset_seed : ℕ
  pub reset_seed_configured : Bool
  pub instruction_count : ℕ
  pub machine_cycle_count : ℕ
  pub timer_overflow_count : Timer → ℕ
  pub breakpoint_enabled : Bool
  pub breakpoint : ℕ
  pub exception_raised : Bool
  pub last_exception : Option Exception
  pub trace_pc : ℕ
  pub in_instruction : Bool
  pub sfr_write_depth : ℕ
  pub ports : Ports
  pub adc : Adc
  pub irq : SabIrq
  pub uart : Uart
  pub classic : Classic
  pub execution_abort : Bool
  pub user_fault : Bool
  pub notices : List Notice
