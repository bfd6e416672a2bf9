-- ===== src/Uart/Divider.antt =====
-- The divider of Timer 1 overflows that clocks both halves of the UART.
use emu_sa80535_n.Base.{
  ℕ, zero, suc, ◌+◌, ◌%◌, ◌<◌, ◌≡◌, Bool, true, false, ◌==◌, if◌then◌else◌, arith,
}
use emu_sa80535_n.Base.Bits.{bit_and_mask}
use emu_sa80535_n.Uart.{uart_divider_step}

-- The phase after `n` overflows.
abbrev pub phase_after : ℕ → ℕ → Bool → ℕ
phase_after zero phase smod = phase
phase_after (suc n) phase smod = (uart_divider_step (phase_after n phase smod) smod).0

step-eq :
    (phase : ℕ) (smod : Bool)
    → phase < 32
    → ((uart_divider_step phase smod).0 ≡ (phase + 1) % 32)
      × ((uart_divider_step phase smod).1 ≡ ((phase + 1) % (if smod then 16 else 32) == 0))
unfolding uart_divider_step
step-eq phase true h = ground (arith, bit_and_mask 5 (phase + 1))
step-eq phase false h = ground (arith, bit_and_mask 5 (phase + 1))

phase_after-eq :
    (n phase : ℕ) (smod : Bool) → phase < 32 → phase_after n phase smod ≡ (phase + n) % 32
phase_after-eq zero phase smod h = omega arith
phase_after-eq (suc n) phase smod h = omega (
  arith,
  phase_after-eq n phase smod h,
  step-eq (phase_after n phase smod) smod (omega (arith, phase_after-eq n phase smod h)),
)

-- Every thirty-second overflow is a bit boundary, or every sixteenth where SMOD is set: the step
-- after `n` overflows is due exactly where the count of overflows since phase 0 is a multiple.
pub uart_divider_step-period :
    (n phase : ℕ) (smod : Bool)
    → phase < 32
    → (uart_divider_step (phase_after n phase smod) smod).1
      ≡ ((phase + n + 1) % (if smod then 16 else 32) == 0)
uart_divider_step-period n phase true h =
    ground (arith, phase_after-eq n phase true h, step-eq (phase_after n phase true) true)
uart_divider_step-period n phase false h =
    ground (arith, phase_after-eq n phase false h, step-eq (phase_after n phase false) false)
