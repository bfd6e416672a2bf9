-- ===== src/Tests/Core.antt =====
-- The theorems on instructions, the stack, interrupts and reset, at concrete states.
use emu_sa80535_n.Base.{
  inr, ℕ, ◌+◌, ◌*◌, ◌%◌, ◌<◌, ◌≡◌, ◌≢◌, arith, inl, refl, true, false, some, update, if◌then◌else◌,
  ◌||◌, ◌==◌,
}
use emu_sa80535_n.Base.Bits.{bit}
use emu_sa80535_n.Cpu.{Cpu, SabIrq, execution_aborted}
use emu_sa80535_n.Cpu.Regs.{reg_psw, reg_acc, reg_b, reg_sp, reg_tcon, sfr_index, sfr_ien0, sfr_ip0}
use emu_sa80535_n.Run.{drain}
use emu_sa80535_n.Run.Drain.{drain_returns}
use emu_sa80535_n.Memory.{Handler, acc, psw, opcode, read_mem_indir, push_to_stack, pop_from_stack}
use emu_sa80535_n.Memory.Stack.{pop_from_stack-push_to_stack}
use emu_sa80535_n.IrqService.{irq_select, handle_sab_interrupts, irq_reti}
use emu_sa80535_n.IrqService.Select.{IsBest, irq_select-IsBest}
use emu_sa80535_n.IrqService.Nesting.{IsNested}
use emu_sa80535_n.IrqService.Service.{handle_sab_interrupts-IsNested, irq_reti-IsNested}
use emu_sa80535_n.Dispatch.Table.{op_setptrs}
use emu_sa80535_n.Dispatch.Switch.{do_op}
use emu_sa80535_n.Dispatch.Agree.{op_setptrs-do_op}
use emu_sa80535_n.Ops.Call.{ret, lcall_address, acall_offset}
use emu_sa80535_n.Ops.Call.Returns.{ret-call}
use emu_sa80535_n.Ops.Arith.{add_to_acc, sub_from_acc, div_ab, da_a}
use emu_sa80535_n.Ops.Arith.AddSub.{
  add_to_acc_lem, sub_from_acc_lem, sum_overflows, difference_overflows,
}
use emu_sa80535_n.Ops.Arith.MulDiv.{div_ab_lem, div_ab-zero}
use emu_sa80535_n.Ops.Arith.Decimal.{da_a-add_to_acc}
use emu_sa80535_n.Ops.Movx.{movx_read_from, movx_write_to}
use emu_sa80535_n.Ops.Movx.External.{movx_read_from-movx_write_to}
use emu_sa80535_n.Reset.{reset, has_upper_iram}
use emu_sa80535_n.Reset.Ram.{reset_lem, with_memory}
use emu_sa80535_n.Tests.Machine.{bare_host, machine, machine_with, quiet_irq, zeros}

-- Timer 0 is being served at level 0; Timer 1, at level 1, asks for service.
abbrev serving : SabIrq
serving = record quiet_irq {
  depth = 1;
  in_service = 2;
  source_stack = λ _. 1;
  priority_stack = λ _. 0;
  saved_sp = λ _. 0x30;
}

abbrev serving_sfr : ℕ → ℕ
serving_sfr =
    update
      (update (update (update zeros (sfr_index sfr_ien0) 0x8a) reg_tcon 0x80) (sfr_index sfr_ip0)
        0x08)
      reg_sp 0x30

abbrev served : Cpu
served = record (machine serving_sfr zeros) { irq = serving }

served-IsNested : IsNested served.irq
unfolding bit
served-IsNested = (
  omega arith,
  omega arith,
  λ i lt. omega arith,
  λ i lt. absurd (omega arith),
  λ i lt. (omega arith, refl),
  λ i j l1 l2. absurd (omega arith),
)

handle_sab_interrupts-IsNested_example : IsNested (handle_sab_interrupts bare_host served).1.irq
handle_sab_interrupts-IsNested_example =
    handle_sab_interrupts-IsNested bare_host served (inr (omega arith, inr (omega arith)))
      served-IsNested

irq_reti-IsNested_example : IsNested (irq_reti bare_host 0x30 served).irq
irq_reti-IsNested_example =
    irq_reti-IsNested bare_host 0x30 served (inr (refl, refl, refl)) served-IsNested

-- The requests of both timers are latched.
abbrev requested : Cpu
requested = record (machine serving_sfr zeros) {
  irq = record serving { pending = 10; enabled = 10 };
}

irq_select-IsBest_example : IsBest requested 12 (irq_select requested 12)
irq_select-IsBest_example = irq_select-IsBest requested 12

abbrev adding : Cpu
adding = machine (update (update zeros reg_acc 0x27) reg_sp 0x07) (λ _. 0x24)

op_setptrs-do_op_example :
    op_setptrs bare_host (λ _ c. (0, c)) (opcode adding) adding ≡ do_op bare_host adding
op_setptrs-do_op_example = op_setptrs-do_op bare_host (λ _ c. (0, c)) adding (omega arith)

pop_from_stack-push_to_stack_example :
    let (done, d) = push_to_stack bare_host 0x5a adding in
    let (popped, e) = pop_from_stack bare_host d in
    (done ≡ true)
    × (d.sfr reg_sp ≡ adding.sfr reg_sp + 1)
    × ((a : ℕ) → a ≢ adding.sfr reg_sp + 1 → read_mem_indir d a ≡ read_mem_indir adding a)
    × (popped ≡ some 0x5a)
    × (e.sfr reg_sp ≡ adding.sfr reg_sp)
pop_from_stack-push_to_stack_example =
    pop_from_stack-push_to_stack bare_host 0x5a adding (omega arith) (inl (omega arith))

ret-call_example :
    let after_lcall = (ret bare_host (lcall_address bare_host adding).1).1 in
    let after_acall = (ret bare_host (acall_offset bare_host adding).1).1 in
    (after_lcall.pc ≡ (adding.pc + 3) % 65536)
    × (after_lcall.sfr reg_sp ≡ adding.sfr reg_sp)
    × (after_acall.pc ≡ (adding.pc + 2) % 65536)
    × (after_acall.sfr reg_sp ≡ adding.sfr reg_sp)
ret-call_example = ret-call bare_host adding (omega arith) (inl (omega arith)) (inl (omega arith))

add_to_acc_lem_example :
    let d = add_to_acc 0xe5 1 adding in
    (acc d + 256 * bit (psw d) 7 ≡ 0x27 + 0xe5 + 1)
    × (bit (psw d) 2 ≡ sum_overflows 0x27 0xe5 1)
    × ((i : ℕ) → i < 8 → i ≢ 7 → i ≢ 6 → i ≢ 2 → bit (psw d) i ≡ bit (psw adding) i)
add_to_acc_lem_example = add_to_acc_lem 0xe5 1 adding (omega arith) (omega arith) (omega arith)

sub_from_acc_lem_example :
    let d = sub_from_acc 0xe5 1 adding in
    (acc d + 0xe5 + 1 ≡ 0x27 + 256 * bit (psw d) 7)
    × (bit (psw d) 2 ≡ difference_overflows 0x27 0xe5 1)
    × ((i : ℕ) → i < 8 → i ≢ 7 → i ≢ 6 → i ≢ 2 → bit (psw d) i ≡ bit (psw adding) i)
sub_from_acc_lem_example = sub_from_acc_lem 0xe5 1 adding (omega arith) (omega arith) (omega arith)

-- A holds 200 and B holds 7.
abbrev factors : Cpu
factors = machine (update (update zeros reg_acc 200) reg_b 7) zeros

div_ab_lem_example :
    let d = (div_ab factors).1 in
    (acc d * 7 + d.sfr reg_b ≡ 200) × (d.sfr reg_b < 7) × (bit (psw d) 7 ≡ 0) × (bit (psw d) 2 ≡ 0)
div_ab_lem_example = div_ab_lem factors (omega arith)

div_ab-zero_example :
    let d = (div_ab (machine_with reg_acc 200)).1 in
    (acc d ≡ 200) × (d.sfr reg_b ≡ 0) × (bit (psw d) 7 ≡ 0) × (bit (psw d) 2 ≡ 1)
div_ab-zero_example = div_ab-zero (machine_with reg_acc 200) refl

-- The binary sum of the packed decimals 58 and 67, with the half carry clear.
abbrev decimal_sum : Cpu
decimal_sum = machine_with reg_acc 0xbf

decimal_sum-flags : (bit (psw decimal_sum) 7 ≡ 0) × (bit (psw decimal_sum) 6 ≡ 0)
unfolding bit
decimal_sum-flags = (refl, refl)

-- 4 and 4.
da_a-add_to_acc_example : acc (da_a (add_to_acc 4 0 (machine_with reg_acc 4))).1 ≡ 14
da_a-add_to_acc_example =
    da_a-add_to_acc 4 4 (machine_with reg_acc 4) (omega arith) (omega arith) refl

-- The carry is set, and the instruction at 0 addresses bit 0 of the byte at 20.
abbrev with_carry : Cpu
with_carry = machine_with reg_psw 128

abbrev with_external : Cpu
with_external = record (machine_with reg_acc 90) { ext_data = some zeros }

movx_read_from-movx_write_to_example :
    (acc (movx_read_from bare_host 0x1234 (movx_write_to bare_host 0x1234 with_external).1).1 ≡ 90)
    × ((movx_write_to bare_host 0x1234 with_external).1.sfr ≡ with_external.sfr)
movx_read_from-movx_write_to_example =
    movx_read_from-movx_write_to bare_host 0x1234 0x1234 with_external zeros refl refl refl

reset_lem_example :
    let d = reset 5 true factors in
    let other = reset 5 true (with_memory (λ _. 1) (λ _. 2) (λ _. 3) factors) in
    let kept = reset 5 false factors in
    ((i : ℕ) → i < 128 → other.lower_data i ≡ d.lower_data i)
    × ((i : ℕ)
        → i < 128
        → other.owned_upper_data i ≡ (
            if has_upper_iram factors.variant || factors.upper_data
            then d.owned_upper_data i
            else 3))
    × ((i : ℕ) → i < 0x10000 → other.code_mem i ≡ d.code_mem i)
    × (kept.lower_data ≡ factors.lower_data)
    × (kept.owned_upper_data ≡ factors.owned_upper_data)
    × (kept.code_mem ≡ factors.code_mem)
reset_lem_example = reset_lem 5 factors (λ _. 1) (λ _. 2) (λ _. 3)

-- Two cycles of an instruction are pending.
abbrev busy_machine : Cpu
busy_machine = record (machine_with reg_acc 0) { tick_delay = 2 }

abbrev nothing_to_do : ℕ → Handler
nothing_to_do code c = (0, c)

drain_returns_example :
    (d : Cpu) × (drain bare_host nothing_to_do 3 busy_machine ≡ some d)
    × ((d.tick_delay == 0 || execution_aborted d) ≡ true)
drain_returns_example = drain_returns bare_host nothing_to_do 3 busy_machine (omega arith)
