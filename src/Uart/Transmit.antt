-- ===== src/Uart/Transmit.antt =====
-- The frame that the transmitter puts on the line.
use emu_sa80535_n.Base.{
  ℕ, zero, suc, ◌+◌, ◌-◌, ◌/◌, ◌≤◌, ◌<◌, ◌≡◌, ◌^◌, Bool, true, false, ◌==◌, not, if◌then◌else◌,
  arith, bit_or, u8, refl, ap, subst, sym, ◌∙◌, Bool-cases, inl, inr, ltb, List, ◌∷◌,
}
use native.Mathlib.Nat.{pow-suc, div-div-eq-div-mul}
use emu_sa80535_n.Base.Bits.{bit, has_pow}
use emu_sa80535_n.Cpu.{
  Cpu, Host, Notice, Uart, uart, tx_start, tx_bit, tx_stop, tx_end, execution_aborted, irq_write,
}
use emu_sa80535_n.Cpu.Regs.{reg_scon}
use emu_sa80535_n.Cpu.Masks.{scon_ti}
use emu_sa80535_n.Uart.{
  uart_tx_boundary, uart_tx_start, uart_tx_bit_value, uart_trace_emit, set_uart,
}

-- The bit at a place of a frame: a low start bit, the data from the lowest bit up, the ninth bit and
-- a high stop bit.
abbrev pub frame_bit : ℕ → Bool → ℕ → Bool
frame_bit byte ninth i =
    if i == 0
    then false
    else if i == 9
    then ninth
    else if i == 10
    then true
    else bit byte (i - 1) == 1

bit-shift : (x k : ℕ) → bit (x / 2 ^ k) 0 ≡ bit x k
unfolding bit
bit-shift x zero = omega arith
bit-shift x (suc k) =
    let e : x / 2 ^ suc k ≡ x / 2 / 2 ^ k =
      ap (λ m. x / m) (omega (arith, pow-suc 2 k)) ∙ sym (div-div-eq-div-mul x 2 (2 ^ k)) in
    rw e (bit-shift (x / 2) k)

uart_tx_bit_value-frame_bit :
    (u : Uart) (i : ℕ) → i ≤ 10 → uart_tx_bit_value u i ≡ frame_bit u.tx_data u.tx_ninth i
unfolding uart_tx_bit_value
uart_tx_bit_value-frame_bit u i le =
    ground (arith, has_pow 0 (u.tx_data / 2 ^ (i - 1)), bit-shift u.tx_data (i - 1))

module _ (host : Host) (cycle : ℕ) (c : Cpu) where
  -- `uart_tx_boundary` with its tests as arguments.
  boundary : Bool → Bool → ℕ → Cpu
  boundary active pending index =
      let u : Uart = c.uart in
      let next = u8 (index + 1) in
      let ended = uart_trace_emit host tx_end cycle u.tx_data u.tx_ninth 10 true c in
      let v : Uart = ended.uart in
      let idle = set_uart (record v { tx_active = false }) ended in
      if not active
      then if pending then uart_tx_start host cycle c else c
      else if ltb index 9
      then uart_trace_emit host tx_bit cycle u.tx_data u.tx_ninth next (uart_tx_bit_value u next)
          (set_uart (record u { tx_bit_index = next }) c)
      else if index == 9
      then uart_trace_emit host tx_stop cycle u.tx_data u.tx_ninth 10 true (
          irq_write reg_scon (bit_or (c.sfr reg_scon) scon_ti)
            (set_uart (record u { tx_bit_index = 10 }) c))
      else if execution_aborted ended
      then ended
      else if pending
      then uart_tx_start host cycle idle
      else idle

  uart_tx_boundary-boundary :
      uart_tx_boundary host cycle c
      ≡ boundary c.uart.tx_active c.uart.tx_pending c.uart.tx_bit_index
  unfolding uart_tx_boundary boundary
  uart_tx_boundary-boundary = refl

  boundary-eq :
      (active pending : Bool) (index : ℕ)
      → c.uart.tx_active ≡ active
      → c.uart.tx_pending ≡ pending
      → c.uart.tx_bit_index ≡ index
      → uart_tx_boundary host cycle c ≡ boundary active pending index
  boundary-eq active pending index e1 e2 e3 =
      uart_tx_boundary-boundary
      ∙ ap (λ a. boundary a c.uart.tx_pending c.uart.tx_bit_index) e1
      ∙ ap (λ p. boundary active p c.uart.tx_bit_index) e2
      ∙ ap (λ i. boundary active pending i) e3

  -- The states after a start, a bit and a stop.
  sent_bit : ℕ → Cpu
  sent_bit index =
      let u : Uart = c.uart in
      uart_trace_emit host tx_bit cycle u.tx_data u.tx_ninth (suc index)
        (frame_bit u.tx_data u.tx_ninth (suc index))
        (set_uart (record u { tx_bit_index = suc index }) c)

  sent_stop : Cpu
  sent_stop =
      let u : Uart = c.uart in
      uart_trace_emit host tx_stop cycle u.tx_data u.tx_ninth 10 true (
        irq_write reg_scon (bit_or (c.sfr reg_scon) scon_ti)
          (set_uart (record u { tx_bit_index = 10 }) c))

  boundary-bit : (index : ℕ) → index < 9 → boundary true false index ≡ sent_bit index
  unfolding boundary sent_bit
  boundary-bit index h =
      let next : u8 (index + 1) ≡ suc index = omega arith in
      let early : ltb index 9 ≡ true = ground arith in
      rw (early, next)
        (ap
          (λ (b : Bool).
            uart_trace_emit host tx_bit cycle c.uart.tx_data c.uart.tx_ninth (suc index) b
              (set_uart (let u : Uart = c.uart in record u { tx_bit_index = suc index }) c))
          (uart_tx_bit_value-frame_bit c.uart (suc index) (omega arith)))

  boundary-stop : boundary true false 9 ≡ sent_stop
  unfolding boundary sent_stop
  boundary-stop = refl

  boundary-start : boundary false true c.uart.tx_bit_index ≡ uart_tx_start host cycle c
  unfolding boundary
  boundary-start = refl

-- The records of the first `k` bits after the start.
abbrev pub line_log : (ℕ → ℕ) → ℕ → ℕ → Bool → ℕ → List Notice → List Notice
line_log cycles pc byte ninth zero earlier =
    uart tx_start (cycles 0) pc byte ninth 0 false ∷ earlier
line_log cycles pc byte ninth (suc k) earlier =
    uart (if k == 9 then tx_stop else tx_bit) (cycles (suc k)) pc byte ninth (suc k)
      (frame_bit byte ninth (suc k))
    ∷ line_log cycles pc byte ninth k earlier

-- The transmitter after bit `k` of the frame that was pending in `c`.
abbrev pub IsSending : (ℕ → ℕ) → ℕ → Cpu → Cpu → Type 0
IsSending cycles k c d =
    (d.uart.tx_active ≡ true)
    × (d.uart.tx_pending ≡ false)
    × (d.uart.tx_bit_index ≡ k)
    × (d.uart.tx_data ≡ c.uart.tx_pending_data)
    × (d.uart.tx_ninth ≡ c.uart.tx_pending_ninth)
    × (d.pc ≡ c.pc)
    × (d.sfr reg_scon ≡ (if k == 10 then u8 (bit_or (c.sfr reg_scon) scon_ti) else c.sfr reg_scon))
    × (d.notices ≡ line_log cycles c.pc c.uart.tx_pending_data c.uart.tx_pending_ninth k c.notices)

-- The state after the boundary `k` and those before it.
abbrev pub boundaries : Host → (ℕ → ℕ) → ℕ → Cpu → Cpu
boundaries host cycles zero c = uart_tx_boundary host (cycles 0) c
boundaries host cycles (suc k) c =
    uart_tx_boundary host (cycles (suc k)) (boundaries host cycles k c)

sent_bit-IsSending :
    (host : Host) (cycles : ℕ → ℕ) (k : ℕ) (c d : Cpu)
    → k < 9
    → IsSending cycles k c d
    → IsSending cycles (suc k) c (sent_bit host (cycles (suc k)) d k)
unfolding sent_bit
sent_bit-IsSending host cycles k c d h (active, pending, index, byte, ninth, pc, scon, log) =
    let e1 : (k == 10) ≡ false = ground arith in
    let e2 : (suc k == 10) ≡ false = ground arith in
    let e3 : (k == 9) ≡ false = ground arith in
    (
      active,
      pending,
      refl,
      byte,
      ninth,
      pc,
      rw e2 (rw e1 at scon),
      rw (e3, pc, byte, ninth, log) refl,
    )

sent_stop-IsSending :
    (host : Host) (cycles : ℕ → ℕ) (c d : Cpu)
    → IsSending cycles 9 c d
    → IsSending cycles 10 c (sent_stop host (cycles 10) d)
unfolding sent_stop
sent_stop-IsSending host cycles c d (active, pending, index, byte, ninth, pc, scon, log) = (
  active,
  pending,
  refl,
  byte,
  ninth,
  pc,
  ap (λ v. u8 (bit_or v scon_ti)) scon,
  rw (pc, byte, ninth, log) refl,
)

start-IsSending :
    (host : Host) (cycles : ℕ → ℕ) (c : Cpu)
    → IsSending cycles 0 c (uart_tx_start host (cycles 0) c)
unfolding uart_tx_start
start-IsSending host cycles c = (refl, refl, refl, refl, refl, refl, refl, refl)

ninth-IsSending :
    (host : Host) (cycles : ℕ → ℕ) (c d : Cpu)
    → IsSending cycles 9 c d
    → IsSending cycles 10 c (uart_tx_boundary host (cycles 10) d)
ninth-IsSending host cycles c d before =
    let e = boundary-eq host (cycles 10) d true false 9 before.0 before.1 before.2 in
    subst (λ (x : Cpu). IsSending cycles 10 c x) (sym (e ∙ boundary-stop host (cycles 10) d))
      (sent_stop-IsSending host cycles c d before)

-- An idle transmitter with a frame pending sends the start bit at the next boundary and then, one a
-- boundary, the eight data bits from the lowest up, the ninth bit and the stop bit; the observer
-- sees just these, and TI is set at the stop bit and not before it.
pub uart_tx_boundary-IsSending :
    (host : Host) (cycles : ℕ → ℕ) (k : ℕ) (c : Cpu)
    → k ≤ 10
    → c.uart.tx_active ≡ false
    → c.uart.tx_pending ≡ true
    → IsSending cycles k c (boundaries host cycles k c)
uart_tx_boundary-IsSending host cycles zero c le idle pending =
    let e = boundary-eq host (cycles 0) c false true c.uart.tx_bit_index idle pending refl in
    subst (λ (d : Cpu). IsSending cycles 0 c d) (sym (e ∙ boundary-start host (cycles 0) c))
      (start-IsSending host cycles c)
uart_tx_boundary-IsSending host cycles (suc k) c le idle pending =
    let d = boundaries host cycles k c in
    let before = uart_tx_boundary-IsSending host cycles k c (omega arith) idle pending in
    let e = boundary-eq host (cycles (suc k)) d true false k before.0 before.1 before.2 in
    elim (Bool-cases (k == 9)) [
      | inl last ↦
          let nine : k ≡ 9 = ground arith in
          subst
            (λ m.
              (x : Cpu)
              → IsSending cycles m c x
              → IsSending cycles (suc m) c (uart_tx_boundary host (cycles (suc m)) x))
            (sym nine) (ninth-IsSending host cycles c) d before
      | inr ne ↦
          subst (λ (x : Cpu). IsSending cycles (suc k) c x)
            (sym (e ∙ boundary-bit host (cycles (suc k)) d k (ground arith)))
            (sent_bit-IsSending host cycles k c d (ground arith) before)
    ]
