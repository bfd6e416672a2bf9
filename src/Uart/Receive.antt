-- ===== src/Uart/Receive.antt =====
-- The boundary at which a received frame is taken or dropped.
use emu_sa80535_n.Base.{
  ℕ, ◌+◌, ◌<◌, ◌≡◌, ◌^◌, Bool, true, false, ◌==◌, not, ◌&&◌, ◌||◌, has, if◌then◌else◌, to_int,
  arith, bit_and, bit_or, compl, u8, refl, ap, subst, sym, ◌∙◌,
}
use emu_sa80535_n.Base.Bits.{
  bit, bit-bit_and, bit-bit_or, bit-compl, bit-lt, bit_or-lt, bit_and-le, bit_pow, has_pow,
}
use emu_sa80535_n.Cpu.{Cpu, Host, Uart, rx_accept, rx_drop, rx_end}
use emu_sa80535_n.Cpu.Regs.{reg_scon, reg_sbuf}
use emu_sa80535_n.Cpu.Masks.{scon_ri, scon_rb8, scon_sm2}
use emu_sa80535_n.Uart.{uart_rx_boundary, uart_rx_store, uart_rx_accepts, set_uart, uart_trace_emit}

-- SCON with RI set and RB8 from the ninth bit.
store_scon : ℕ → Bool → ℕ
store_scon scon ninth =
    let cleared = bit_and scon (compl scon_rb8) in
    u8 (bit_or (if ninth then bit_or cleared scon_rb8 else cleared) scon_ri)

mask_bit : (m i : ℕ) → bit (2 ^ m) i ≡ to_int (i == m)
mask_bit m i = bit_pow m i

store_scon-bit :
    (scon : ℕ) (ninth : Bool) (i : ℕ)
    → scon < 256
    → i < 8
    → bit (store_scon scon ninth) i
      ≡ (if i == 0 then 1 else if i == 2 then to_int ninth else bit scon i)
unfolding store_scon
store_scon-bit scon true i h lt =
    let cleared = bit_and scon (compl scon_rb8) in
    let w = bit_or (bit_or cleared scon_rb8) scon_ri in
    let small : w < 256 =
      bit_or-lt 8 (bit_or cleared scon_rb8) scon_ri
        (bit_or-lt 8 cleared scon_rb8 (omega (arith, bit_and-le scon (compl scon_rb8)))
          (omega arith))
        (omega arith) in
    let e : u8 w ≡ w = omega arith in
    rw e (
      ground (
        arith,
        bit-bit_or (bit_or cleared scon_rb8) scon_ri i,
        bit-bit_or cleared scon_rb8 i,
        bit-bit_and scon (compl scon_rb8) i,
        bit-compl 8 scon_rb8 i (omega arith) lt,
        bit_pow 0 i,
        bit_pow 2 i,
        bit-lt scon i,
      ))
store_scon-bit scon false i h lt =
    let cleared = bit_and scon (compl scon_rb8) in
    let w = bit_or cleared scon_ri in
    let small : w < 256 =
      bit_or-lt 8 cleared scon_ri (omega (arith, bit_and-le scon (compl scon_rb8))) (omega arith) in
    let e : u8 w ≡ w = omega arith in
    rw e (
      ground (
        arith,
        bit-bit_or cleared scon_ri i,
        bit-bit_and scon (compl scon_rb8) i,
        bit-compl 8 scon_rb8 i (omega arith) lt,
        bit_pow 0 i,
        bit_pow 2 i,
        bit-lt scon i,
      ))

-- Whether a frame is taken: RI (bit 0) is clear, and SM2 (bit 5) is clear or the ninth bit set.
abbrev pub is_taken : ℕ → Bool → Bool
is_taken scon ninth = bit scon 0 == 0 && (bit scon 5 == 0 || ninth)

-- What the boundary leaves of a frame that is taken, and of one that is not.
abbrev pub IsReceived : Bool → Cpu → Cpu → Type 0
IsReceived taken c d =
    (d.uart.rx_data ≡ (if taken then c.uart.rx_pending_data else c.uart.rx_data))
    × (d.sfr reg_sbuf ≡ (if taken then c.uart.rx_pending_data else c.sfr reg_sbuf))
    × ((i : ℕ)
        → i < 8
        → bit (d.sfr reg_scon) i ≡ (
            if not taken
            then bit (c.sfr reg_scon) i
            else if i == 0
            then 1
            else if i == 2
            then to_int c.uart.rx_pending_ninth
            else bit (c.sfr reg_scon) i))
    × (d.uart.rx_active ≡ c.uart.rx_active)
    × (d.uart.rx_bit_index ≡ 10)

module _ (host : Host) (cycle : ℕ) (c : Cpu) where
  counted : ℕ → Cpu
  counted next = let u : Uart = c.uart in set_uart (record u { rx_bit_index = next }) c

  -- `uart_rx_boundary` with the new index and the decision as arguments.
  boundary : ℕ → Bool → Cpu
  boundary next taken =
      let u : Uart = c.uart in
      if next == 10
      then if taken
        then uart_trace_emit host rx_accept cycle u.rx_pending_data u.rx_pending_ninth 10 true
            (uart_rx_store host (counted next))
        else uart_trace_emit host rx_drop cycle u.rx_pending_data u.rx_pending_ninth 10 true
            (counted next)
      else if next == 11
      then uart_trace_emit host rx_end cycle u.rx_pending_data u.rx_pending_ninth 10 true
          (set_uart (record u { rx_bit_index = next; rx_active = false }) c)
      else counted next

  uart_rx_boundary-boundary :
      uart_rx_boundary host cycle c
      ≡ boundary (u8 (c.uart.rx_bit_index + 1)) (uart_rx_accepts host c)
  unfolding uart_rx_boundary boundary counted
  uart_rx_boundary-boundary = refl

  accepts-is_taken : uart_rx_accepts host c ≡ is_taken (c.sfr reg_scon) c.uart.rx_pending_ninth
  accepts-is_taken =
      let ri : has (c.sfr reg_scon) scon_ri ≡ (bit (c.sfr reg_scon) 0 == 1) =
        has_pow 0 (c.sfr reg_scon) in
      let sm2 : has (c.sfr reg_scon) scon_sm2 ≡ (bit (c.sfr reg_scon) 5 == 1) =
        has_pow 5 (c.sfr reg_scon) in
      ground (arith, ri, sm2, bit-lt (c.sfr reg_scon) 0, bit-lt (c.sfr reg_scon) 5)

  uart_rx_store-sfr :
      (ninth : Bool)
      → c.uart.rx_pending_ninth ≡ ninth
      → ((uart_rx_store host (counted 10)).sfr reg_scon ≡ store_scon (c.sfr reg_scon) ninth)
        × ((uart_rx_store host (counted 10)).sfr reg_sbuf ≡ c.uart.rx_pending_data)
        × ((uart_rx_store host (counted 10)).uart.rx_data ≡ c.uart.rx_pending_data)
        × ((uart_rx_store host (counted 10)).uart.rx_active ≡ c.uart.rx_active)
        × ((uart_rx_store host (counted 10)).uart.rx_bit_index ≡ 10)
  unfolding uart_rx_store counted store_scon
  uart_rx_store-sfr true e = rw e (refl, refl, refl, refl, refl)
  uart_rx_store-sfr false e = rw e (refl, refl, refl, refl, refl)

  boundary-IsReceived :
      c.sfr reg_scon < 256 → (taken : Bool) → IsReceived taken c (boundary 10 taken)
  unfolding boundary
  boundary-IsReceived scon true =
      let (e1, e2, e3, e4, e5) = uart_rx_store-sfr c.uart.rx_pending_ninth refl in
      (
        e3,
        e2,
        λ i lt.
            ap (λ w. bit w i) e1
            ∙ store_scon-bit (c.sfr reg_scon) c.uart.rx_pending_ninth i scon lt,
        e4,
        e5,
      )
  boundary-IsReceived scon false = unfold counted in (refl, refl, λ i lt. refl, refl, refl)

  -- At the tenth boundary of a frame, if RI is clear and SM2 is clear or the ninth bit set, the frame
  -- is in SBUF and in the receive buffer, RI is set, RB8 is the ninth bit, and the other bits of SCON
  -- are kept; otherwise the frame is dropped and changes none of them. Either way the receiver stays
  -- active up to the next boundary.
  pub uart_rx_boundary-IsReceived :
      c.uart.rx_bit_index ≡ 9
      → c.sfr reg_scon < 256
      → IsReceived
          (is_taken (c.sfr reg_scon) c.uart.rx_pending_ninth)
          c
          (uart_rx_boundary host cycle c)
  uart_rx_boundary-IsReceived index scon =
      let taken = is_taken (c.sfr reg_scon) c.uart.rx_pending_ninth in
      let next : u8 (c.uart.rx_bit_index + 1) ≡ 10 = omega arith in
      let e =
        uart_rx_boundary-boundary
        ∙ ap (λ n. boundary n (uart_rx_accepts host c)) next
        ∙ ap (boundary 10) accepts-is_taken in
      subst (λ (d : Cpu). IsReceived taken c d) (sym e) (boundary-IsReceived scon taken)
