-- ===== src/Timers/Count.antt =====
-- Timer 0 as a 16-bit counter.
use emu_sa80535_n.Base.{
  ℕ, ◌+◌, ◌*◌, ◌%◌, ◌<◌, ◌≡◌, ◌^◌, arith, refl, sym, ap, subst, ◌∙◌, bit_and, bit_or, u8, Bool,
  true, not, if◌then◌else◌, ◌==◌, ltb, Bool-cases, inl, inr,
}
use emu_sa80535_n.Base.Bits.{bit, bit-bit_or, bit-lt, bit_pow, bit_and_mask, bit_or-lt}
use emu_sa80535_n.Cpu.{Cpu, Host, timer0, set_sfr, irq_write}
use emu_sa80535_n.Cpu.Regs.{reg_tmod, reg_tcon, reg_tl0, reg_th0}
use emu_sa80535_n.Cpu.Masks.{tmod_m0_0, tmod_m1_0, tmod_gate_0, tmod_ct_0, tcon_tr0, tcon_tf0}
use emu_sa80535_n.Timers.{timer_runs, timer0_tick, timer_overflow_emit, count8, count5}

-- The value of the counter.
abbrev pub value0 : Cpu → ℕ
value0 c = 256 * c.sfr reg_th0 + c.sfr reg_tl0

timer_overflow_emit-sfr :
    (host : Host) (c : Cpu) (i : ℕ) → (timer_overflow_emit host timer0 c).sfr i ≡ c.sfr i
unfolding timer_overflow_emit
timer_overflow_emit-sfr host c i = ground arith

module _ (host : Host) (c : Cpu) where
  low : Cpu
  low = set_sfr reg_tl0 (bit_and (c.sfr reg_tl0 + 1) 0xff) c

  high : Cpu
  high = set_sfr reg_th0 (bit_and (c.sfr reg_th0 + 1) 0xff) low

  wrapped : Cpu
  wrapped =
      timer_overflow_emit host timer0
        (irq_write reg_tcon (bit_or (high.sfr reg_tcon) tcon_tf0) high)

  -- Mode 1 with its two carries as arguments.
  counted : Bool → Bool → Cpu
  counted over8 high_over8 = if not over8 then low else if high_over8 then wrapped else high

  -- `timer0_tick` with the first two of its tests as arguments.
  ticked : Bool → ℕ → Cpu
  ticked runs mode =
      let (over5, low5) = count5 reg_tl0 c in
      let (high_over5, high5) = count8 reg_th0 low5 in
      if not runs
      then c
      else if mode == 0
      then if not over5
        then low5
        else if high_over5
        then irq_write reg_tcon (bit_or (high5.sfr reg_tcon) tcon_tf0) high5
        else high5
      else if mode == tmod_m0_0
      then counted (ltb 0xff (c.sfr reg_tl0 + 1)) (ltb 0xff (low.sfr reg_th0 + 1))
      else if mode == tmod_m1_0
      then if ltb 0xff (c.sfr reg_tl0 + 1)
        then irq_write reg_tcon
            (bit_or ((set_sfr reg_tl0 (low.sfr reg_th0) low).sfr reg_tcon) tcon_tf0)
            (set_sfr reg_tl0 (low.sfr reg_th0) low)
        else low
      else c

  timer0_tick-ticked :
      timer0_tick host c
      ≡ ticked
          (timer_runs c tmod_gate_0 tcon_tr0 tmod_ct_0)
          (bit_and (c.sfr reg_tmod) (bit_or tmod_m0_0 tmod_m1_0))
  unfolding timer0_tick ticked counted wrapped high low
  timer0_tick-ticked = refl

  -- The counter after a cycle: one more, modulo 2 ^ 16, and TF0 set where it passed 0 again.
  IsCounted : Cpu → Type 0
  IsCounted d =
      (value0 d ≡ (value0 c + 1) % 2 ^ 16)
      × ((i : ℕ)
          → i < 8
          → bit (d.sfr reg_tcon) i ≡ (
              if i == 5
              then if value0 c == 65535 then 1 else bit (c.sfr reg_tcon) 5
              else bit (c.sfr reg_tcon) i))

  counted-IsCounted :
      c.sfr reg_tl0 < 256
      → c.sfr reg_th0 < 256
      → c.sfr reg_tcon < 256
      → IsCounted (counted (ltb 0xff (c.sfr reg_tl0 + 1)) (ltb 0xff (low.sfr reg_th0 + 1)))
  unfolding counted low high wrapped IsCounted
  counted-IsCounted hl hh ht = elim (Bool-cases (ltb 0xff (c.sfr reg_tl0 + 1))) [
    | inr within ↦
        rw within (ground (arith, bit_and_mask 8 (c.sfr reg_tl0 + 1)), λ i lt. ground arith)
    | inl over ↦ elim (Bool-cases (ltb 0xff (c.sfr reg_th0 + 1))) [
      | inr within ↦
          rw (over, within)
            (
              ground
                  (arith, bit_and_mask 8 (c.sfr reg_tl0 + 1), bit_and_mask 8 (c.sfr reg_th0 + 1)),
              λ i lt. ground arith,
            )
      | inl high_over ↦
          let tcon = c.sfr reg_tcon in
          let raised = irq_write reg_tcon (bit_or (high.sfr reg_tcon) tcon_tf0) high in
          let same = timer_overflow_emit-sfr host raised in
          let small : u8 (bit_or tcon tcon_tf0) ≡ bit_or tcon tcon_tf0 =
            omega (arith, bit_or-lt 8 tcon tcon_tf0 ht (omega arith)) in
          rw (over, high_over)
            (
              ground (
                arith,
                same reg_th0,
                same reg_tl0,
                bit_and_mask 8 (c.sfr reg_tl0 + 1),
                bit_and_mask 8 (c.sfr reg_th0 + 1),
              ),
              λ i lt.
                  ap (λ x. bit x i) (same reg_tcon ∙ small)
                  ∙ ground (arith, bit-bit_or tcon tcon_tf0 i, bit_pow 5 i, bit-lt tcon i),
            )
    ]
  ]

  -- While Timer 0 runs in mode 1 on machine cycles, TH0 and TL0 are one 16-bit counter: a cycle adds
  -- one modulo 2 ^ 16, TF0 is set exactly in the cycle that wraps and kept in every other, and the
  -- other bits of TCON are kept.
  pub timer0_tick-counts :
      timer_runs c tmod_gate_0 tcon_tr0 tmod_ct_0 ≡ true
      → bit_and (c.sfr reg_tmod) (bit_or tmod_m0_0 tmod_m1_0) ≡ tmod_m0_0
      → c.sfr reg_tl0 < 256
      → c.sfr reg_th0 < 256
      → c.sfr reg_tcon < 256
      → let d = timer0_tick host c in
        (value0 d ≡ (value0 c + 1) % 2 ^ 16)
        × ((i : ℕ)
            → i < 8
            → bit (d.sfr reg_tcon) i ≡ (
                if i == 5
                then if value0 c == 65535 then 1 else bit (c.sfr reg_tcon) 5
                else bit (c.sfr reg_tcon) i))
  unfolding ticked IsCounted
  timer0_tick-counts runs mode hl hh ht =
      let e =
        timer0_tick-ticked
        ∙ ap (λ b. ticked b (bit_and (c.sfr reg_tmod) (bit_or tmod_m0_0 tmod_m1_0))) runs
        ∙ ap (λ m. ticked true m) mode in
      subst (λ (d : Cpu). IsCounted d) (sym e) (counted-IsCounted hl hh ht)
