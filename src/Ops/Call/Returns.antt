-- ===== src/Ops/Call/Returns.antt =====
-- A call and the RET that follows it.
use emu_sa80535_n.Base.{
  ℕ, ◌+◌, ◌-◌, ◌/◌, ◌%◌, ◌<◌, ◌≡◌, Bool, true, Option, none, some, arith, bit_and, ap, subst, ◌∙◌,
  refl, u8, if◌then◌else◌,
}
use emu_sa80535_n.Base.Bits.{bit_and_mask, bit_or-join}
use emu_sa80535_n.Cpu.{Cpu, Host, set_sfr, set_pc}
use emu_sa80535_n.Cpu.Regs.{reg_sp}
use emu_sa80535_n.Memory.{read_mem_indir, pop_from_stack, operand}
use emu_sa80535_n.Memory.Stack.{
  IsBacked, stored, stored-sp, stored-pc, stored-upper, stored-set_pc, push_to_stack-stored,
  read_mem_indir-stored, pop_from_stack-some,
}
use emu_sa80535_n.Ops.Call.{push_return, pop_return, acall_offset, lcall_address, ret, word}
use emu_sa80535_n.Ops.Jump.{page_address}

-- The second half of `pop_return`, and the whole of it, on what the pops returned.
after_low : ℕ → Option ℕ × Cpu → Option ℕ × Cpu
after_low h y = elim y.0 [ none ↦ (none, y.1) | some l ↦ (some (word h l), y.1) ]

after_high : Host → Option ℕ × Cpu → Option ℕ × Cpu
after_high host x = elim x.0 [ none ↦ (none, x.1) | some h ↦ after_low h (pop_from_stack host x.1) ]

pop_return-some :
    (host : Host) (c d e : Cpu) (h l : ℕ)
    → pop_from_stack host c ≡ (some h, d)
    → pop_from_stack host d ≡ (some l, e)
    → pop_return host c ≡ (some (word h l), e)
unfolding pop_return after_low after_high
pop_return-some host c d e h l e1 e2 = ap (after_high host) e1 ∙ ap (after_low h) e2

module _ (host : Host) (r : ℕ) (c : Cpu) (hsp : c.sfr reg_sp < 254)
    (low : IsBacked (c.sfr reg_sp + 1) c) (high : IsBacked (c.sfr reg_sp + 2) c) where
  pushed : Cpu
  pushed = stored (u8 (r / 256)) (stored (bit_and r 0xff) c)

  first_top : (stored (bit_and r 0xff) c).sfr reg_sp ≡ c.sfr reg_sp + 1
  first_top = stored-sp (bit_and r 0xff) c

  high' : IsBacked ((stored (bit_and r 0xff) c).sfr reg_sp + 1) (stored (bit_and r 0xff) c)
  high' =
      let e : c.sfr reg_sp + 1 + 1 ≡ c.sfr reg_sp + 2 = omega arith in
      rw (first_top, stored-upper (bit_and r 0xff) c, e) high

  push_return-pushed : push_return host r c ≡ (true, pushed)
  unfolding push_return pushed
  push_return-pushed =
      rw
        (
          push_to_stack-stored (bit_and r 0xff) c host (omega arith) low,
          push_to_stack-stored (u8 (r / 256)) (stored (bit_and r 0xff) c) host
              (omega (arith, first_top)) high',
        )
        refl

  -- What is left after the first pop.
  half : Cpu
  half = set_sfr reg_sp (pushed.sfr reg_sp - 1) pushed

  top : pushed.sfr reg_sp ≡ c.sfr reg_sp + 2
  unfolding pushed
  top = omega (arith, stored-sp (u8 (r / 256)) (stored (bit_and r 0xff) c), first_top)

  half-sp : half.sfr reg_sp ≡ c.sfr reg_sp + 1
  unfolding half
  half-sp = omega (arith, top)

  pushed-IsBacked : IsBacked (pushed.sfr reg_sp) pushed
  unfolding pushed
  pushed-IsBacked =
      rw
        (
          top,
          stored-upper (u8 (r / 256)) (stored (bit_and r 0xff) c),
          stored-upper (bit_and r 0xff) c,
        )
        high

  half-IsBacked : IsBacked (half.sfr reg_sp) half
  unfolding half pushed
  half-IsBacked =
      rw
        (
          half-sp,
          stored-upper (u8 (r / 256)) (stored (bit_and r 0xff) c),
          stored-upper (bit_and r 0xff) c,
        )
        low

  pop_return-pushed : pop_return host pushed ≡ (
    some (word (read_mem_indir pushed (pushed.sfr reg_sp)) (read_mem_indir half (half.sfr reg_sp))),
    set_sfr reg_sp (half.sfr reg_sp - 1) half,
  )
  unfolding half
  pop_return-pushed =
      pop_return-some host pushed half (set_sfr reg_sp (half.sfr reg_sp - 1) half)
        (read_mem_indir pushed (pushed.sfr reg_sp)) (read_mem_indir half (half.sfr reg_sp))
        (pop_from_stack-some host pushed (omega (arith, top)) (omega (arith, top)) pushed-IsBacked)
        (pop_from_stack-some host half (omega (arith, half-sp)) (omega (arith, half-sp))
          half-IsBacked)

  read_high : read_mem_indir pushed (pushed.sfr reg_sp) ≡ r / 256 % 256
  unfolding pushed
  read_high = ground (
    arith,
    first_top,
    top,
    read_mem_indir-stored (u8 (r / 256)) (stored (bit_and r 0xff) c) high' (pushed.sfr reg_sp),
  )

  half-read : (a : ℕ) → read_mem_indir half a ≡ read_mem_indir pushed a
  unfolding half read_mem_indir
  half-read a = refl

  lower_read : (a : ℕ) → a ≡ c.sfr reg_sp + 1 → read_mem_indir pushed a ≡ r % 256
  unfolding pushed
  lower_read a e = ground (
    arith,
    first_top,
    bit_and_mask 8 r,
    read_mem_indir-stored (u8 (r / 256)) (stored (bit_and r 0xff) c) high' a,
    read_mem_indir-stored (bit_and r 0xff) c low a,
  )

  read_low : read_mem_indir half (half.sfr reg_sp) ≡ r % 256
  read_low = half-read (half.sfr reg_sp) ∙ lower_read (half.sfr reg_sp) half-sp

  word-split : word (r / 256 % 256) (r % 256) ≡ r % 65536
  word-split = omega (arith, bit_or-join 8 (r / 256 % 256) (r % 256))

  pushed-pc : pushed.pc ≡ c.pc
  unfolding pushed
  pushed-pc = stored-pc (u8 (r / 256)) (stored (bit_and r 0xff) c) ∙ stored-pc (bit_and r 0xff) c

  -- A return address that was pushed is popped again.
  pub pop_return-push_return :
      let (done, d) = push_return host r c in
      let (target, e) = pop_return host d in
      (done ≡ true)
      × (d.pc ≡ c.pc)
      × (d.sfr reg_sp ≡ c.sfr reg_sp + 2)
      × (target ≡ some (r % 65536))
      × (e.sfr reg_sp ≡ c.sfr reg_sp)
  pop_return-push_return =
      rw (push_return-pushed, pop_return-pushed, read_high, read_low)
        (refl, pushed-pc, top, ap (λ t. some t) word-split, omega (arith, half-sp))

-- RET and LCALL on what `pop_return` and `push_return` hand over.
ret-target :
    (host : Host) (c d : Cpu) (t : ℕ)
    → pop_return host c ≡ (some t, d)
    → ret host c ≡ (1, set_pc t d)
unfolding ret
ret-target host c d t e =
    ap (λ (x : Option ℕ × Cpu). (1, elim x.0 [ none ↦ x.1 | some pc ↦ set_pc pc x.1 ])) e

lcall_address-done :
    (host : Host) (c d : Cpu)
    → push_return host (c.pc + 3) c ≡ (true, d)
    → lcall_address host c ≡ (1, set_pc (word (operand d 1) (operand d 2)) d)
unfolding lcall_address
lcall_address-done host c d e =
    ap
      (λ (x : Bool × Cpu).
        (1, if x.0 then set_pc (word (operand x.1 1) (operand x.1 2)) x.1 else x.1))
      e

acall_offset-done :
    (host : Host) (c d : Cpu)
    → push_return host (c.pc + 2) c ≡ (true, d)
    → acall_offset host c ≡ (1, set_pc (page_address c) d)
unfolding acall_offset
acall_offset-done host c d e =
    ap (λ (x : Bool × Cpu). (1, if x.0 then set_pc (page_address c) x.1 else x.1)) e

module _ (host : Host) (c : Cpu) (hsp : c.sfr reg_sp < 254) (low : IsBacked (c.sfr reg_sp + 1) c)
    (high : IsBacked (c.sfr reg_sp + 2) c) where
  pushed-set_pc :
      (r t : ℕ) → pushed host r (set_pc t c) hsp low high ≡ set_pc t (pushed host r c hsp low high)
  unfolding pushed
  pushed-set_pc r t =
      ap (λ (x : Cpu). stored (u8 (r / 256)) x) (stored-set_pc (bit_and r 0xff) t c)
      ∙ stored-set_pc (u8 (r / 256)) t (stored (bit_and r 0xff) c)

  abbrev ReturnsTo : ℕ → Cpu → Type 0
  ReturnsTo r d =
      ((ret host d).0 ≡ 1)
      × ((ret host d).1.pc ≡ r % 65536)
      × ((ret host d).1.sfr reg_sp ≡ c.sfr reg_sp)

  ret-pushed : (r t : ℕ) → ReturnsTo r (pushed host r (set_pc t c) hsp low high)
  unfolding half
  ret-pushed r t =
      let p = pushed host r (set_pc t c) hsp low high in
      let h = half host r (set_pc t c) hsp low high in
      let e : ret host p ≡ (1, set_pc (r % 65536) (set_sfr reg_sp (h.sfr reg_sp - 1) h)) =
        ret-target host p (set_sfr reg_sp (h.sfr reg_sp - 1) h) (r % 65536) (
          rw
            (
              pop_return-pushed host r (set_pc t c) hsp low high,
              read_high host r (set_pc t c) hsp low high,
              read_low host r (set_pc t c) hsp low high,
              word-split host r (set_pc t c) hsp low high,
            )
            refl) in
      rw e (refl, refl, omega (arith, half-sp host r (set_pc t c) hsp low high))

  ret-set_pc : (r t : ℕ) → ReturnsTo r (set_pc t (pushed host r c hsp low high))
  ret-set_pc r t = subst (λ (x : Cpu). ReturnsTo r x) (pushed-set_pc r t) (ret-pushed r t)

  -- A call with room on the stack and the RET after it come back to the instruction that follows
  -- the call, with SP as it was.
  pub ret-call :
      let after_lcall = (ret host (lcall_address host c).1).1 in
      let after_acall = (ret host (acall_offset host c).1).1 in
      (after_lcall.pc ≡ (c.pc + 3) % 65536)
      × (after_lcall.sfr reg_sp ≡ c.sfr reg_sp)
      × (after_acall.pc ≡ (c.pc + 2) % 65536)
      × (after_acall.sfr reg_sp ≡ c.sfr reg_sp)
  ret-call =
      rw
        (
          lcall_address-done host c (pushed host (c.pc + 3) c hsp low high)
              (push_return-pushed host (c.pc + 3) c hsp low high),
          acall_offset-done host c (pushed host (c.pc + 2) c hsp low high)
              (push_return-pushed host (c.pc + 2) c hsp low high),
        )
        (
          (ret-set_pc (c.pc + 3) (
              word (operand (pushed host (c.pc + 3) c hsp low high) 1)
                (operand (pushed host (c.pc + 3) c hsp low high) 2))).1,
          (ret-set_pc (c.pc + 3) (
              word (operand (pushed host (c.pc + 3) c hsp low high) 1)
                (operand (pushed host (c.pc + 3) c hsp low high) 2))).2,
          (ret-set_pc (c.pc + 2) (page_address c)).1,
          (ret-set_pc (c.pc + 2) (page_address c)).2,
        )
