-- ===== src/IrqService/Service.antt =====
-- Every entry into a service and every return from one keeps the nesting of services.
use emu_sa80535_n.Base.{
  ℕ, ◌-◌, ◌^◌, ◌<◌, ◌≡◌, ◌≢◌, ◌⊎◌, Bool, true, false, Option, none, some, arith, ltb, leb, ◌==◌,
  ◌&&◌, ◌||◌, not, if◌then◌else◌, inl, inr, refl, sym, ap, subst, ◌∙◌, Bool-cases, bit_and, u8,
  ◌>>>◌, has,
}
use emu_sa80535_n.Base.Bits.{bit, bit-bit_and, bit_and-le, bit-compl, has_pow, bit-lt}
use emu_sa80535_n.Cpu.{Cpu, SabIrq, Host, is_sab, execution_aborted}
use emu_sa80535_n.Cpu.Regs.{reg_acc, reg_psw, reg_sp, sfr_index, sfr_ien0}
use emu_sa80535_n.Cpu.Masks.{ie_ea}
use emu_sa80535_n.IrqSync.{set_irq, irq_priority, irq_sync, irq_bit, irq_arm_inhibit}
use emu_sa80535_n.IrqService.{
  irq_is_candidate, irq_timer2_is_enabled, irq_select, irq_enter, irq_auto_clear, irq_accept,
  handle_sab_interrupts, irq_release, irq_reti_checks, irq_reti,
}
use emu_sa80535_n.IrqService.Select.{irq_select-IsBest, IsBest, is_eligible}
use emu_sa80535_n.IrqService.Nesting.{
  IsNested, Outranks, entered, entered-IsNested, irq_sync-IsNested, irq_priority-lt, irq_bit-bit,
  irq_bit-lt, irq_sync-IsSameStack,
}
use emu_sa80535_n.IrqService.Callback.{
  KeepsIrq, HasRoom, IsBalanced, if-irq, if_pair-irq, irq_auto_clear-irq, push_to_stack-irq,
  irq_reti_checks-irq,
}
use emu_sa80535_n.Memory.{push_to_stack}

candidate-free : (a b f d : Bool) → (a && b && not f && d) ≡ true → f ≡ false
candidate-free true true true d h = absurd (cc h)
candidate-free a b false d h = refl
candidate-free false b true d h = absurd (cc h)
candidate-free true false true d h = absurd (cc h)

both : (a b : Bool) → (a && b) ≡ true → (a ≡ true) × (b ≡ true)
both true b h = (refl, h)
both false b h = absurd (cc h)

candidate-not_serviced :
    (c : Cpu) (s : ℕ) → irq_is_candidate c s ≡ true → bit c.irq.in_service s ≡ 0
unfolding irq_is_candidate
candidate-not_serviced c s h =
    let free : has c.irq.in_service (irq_bit s) ≡ false =
      candidate-free (has c.irq.pending (irq_bit s)) (has c.irq.enabled (irq_bit s))
        (has c.irq.in_service (irq_bit s)) (not (s == 5 && not (irq_timer2_is_enabled c))) h in
    let e : irq_bit s ≡ 2 ^ s = omega arith in
    ground (
      arith,
      has_pow s c.irq.in_service,
      bit-lt c.irq.in_service s,
      ap (λ (m : ℕ). has c.irq.in_service m) e,
    )

-- What an eligible source outranks.
eligible-Outranks :
    (c : Cpu) (s : ℕ)
    → is_eligible c s ≡ true
    → (bit c.irq.in_service s ≡ 0) × Outranks (irq_priority c s) c.irq
eligible-Outranks c s h =
    let depth = c.irq.depth in
    let current = c.irq.priority_stack (depth - 1) in
    let (candidate, above) =
      both (irq_is_candidate c s) (depth == 0 || ltb current (irq_priority c s)) h in
    (candidate-not_serviced c s candidate, outranks depth current (irq_priority c s) above)
  where
    outranks : (d k p : ℕ) → (d == 0 || ltb k p) ≡ true → (d ≡ 0) ⊎ (k < p)
    outranks d k p h = elim (Bool-cases (d == 0)) [
      | inl e ↦ inl (ground arith)
      | inr ne ↦ inr (ground arith)
    ]

-- The controller after the innermost service is released.
released : SabIrq → SabIrq
released q = record q {
  depth = u8 (q.depth - 1);
  in_service = bit_and q.in_service (65535 - irq_bit (q.source_stack (u8 (q.depth - 1))));
}

bit-cleared :
    (x s i : ℕ) → s < 12 → i < 16 → i ≢ s → bit (bit_and x (65535 - irq_bit s)) i ≡ bit x i
bit-cleared x s i hs hi ne = ground (
  arith,
  bit-bit_and x (65535 - irq_bit s) i,
  bit-compl 16 (irq_bit s) i (irq_bit-lt s hs) hi,
  irq_bit-bit s i,
  bit-lt x i,
)

released-IsNested : (q : SabIrq) → 0 < q.depth → IsNested q → IsNested (released q)
unfolding released
released-IsNested q pos (d, w, below, rise, src, apart) =
    let top : u8 (q.depth - 1) ≡ q.depth - 1 = omega arith in
    let last = src (q.depth - 1) (omega arith) in
    rw top (
      omega arith,
      omega (arith, bit_and-le q.in_service (65535 - irq_bit (q.source_stack (q.depth - 1)))),
      λ i lt. below i (omega arith),
      λ i lt. rise i (omega arith),
      λ i lt.
          let here = src i (omega arith) in
          (
            here.0,
            bit-cleared q.in_service (q.source_stack (q.depth - 1)) (q.source_stack i) last.0
                  (omega arith) (apart i (q.depth - 1) lt (omega arith))
                ∙ here.1,
          ),
      λ i j lt lt'. apart i j lt (omega arith),
    )

module _ (host : Host) where
  irq_enter-IsNested :
      (s p : ℕ) (c : Cpu)
      → s < 12
      → p < 4
      → bit c.irq.in_service s ≡ 0
      → Outranks p c.irq
      → IsNested c.irq
      → IsNested (irq_enter host s p c).irq
  unfolding irq_enter entered
  irq_enter-IsNested s p c hs hp free out h =
      entered-IsNested s p (c.sfr reg_acc) (c.sfr reg_psw) (c.sfr reg_sp) c.irq hs free hp out h

  irq_accept-IsNested :
      (s : ℕ) (c : Cpu)
      → s < 12
      → is_eligible c s ≡ true
      → KeepsIrq host ⊎ HasRoom 2 c
      → IsNested c.irq
      → IsNested (irq_accept host s (irq_priority c s) c).1.irq
  unfolding irq_accept
  irq_accept-IsNested s c hs el room h =
      let p = irq_priority c s in
      let low = push_to_stack host (bit_and c.pc 0xff) c in
      let high = push_to_stack host (u8 (low.1.pc >>> 8)) low.1 in
      let first = push_to_stack-irq host (bit_and c.pc 0xff) 1 c room in
      let e1 : low.1.irq ≡ c.irq = first.0 in
      let e2 : high.1.irq ≡ c.irq =
        (push_to_stack-irq host (u8 (low.1.pc >>> 8)) 0 low.1 (first.1)).0 ∙ e1 in
      let (free, above) = eligible-Outranks c s el in
      if_pair-irq IsNested (not low.0) _ _ (subst IsNested (sym e1) h) (
        if_pair-irq IsNested (not high.0) _ _ (subst IsNested (sym e2) h) (
          irq_sync-IsNested (irq_auto_clear s (irq_enter host s p high.1)) (
            subst IsNested (sym (irq_auto_clear-irq s (irq_enter host s p high.1))) (
              irq_enter-IsNested s p high.1 hs (irq_priority-lt c s)
                (subst (λ q. bit q.in_service s ≡ 0) (sym e2) free)
                (subst (λ q. Outranks p q) (sym e2) above) (subst IsNested (sym e2) h)))))

  enter_chosen : Cpu → Option (ℕ × ℕ) → Bool × Cpu
  enter_chosen c o = elim o [
    | none ↦ (true, c)
    | some (source, priority) ↦
        if leb 4 c.irq.depth then (true, c) else irq_accept host source priority c
  ]

  chosen-IsNested :
      (c : Cpu) (o : Option (ℕ × ℕ))
      → IsBest c 12 o
      → KeepsIrq host ⊎ HasRoom 2 c
      → IsNested c.irq
      → IsNested (enter_chosen c o).1.irq
  unfolding enter_chosen
  chosen-IsNested c none best room h = h
  chosen-IsNested c (some (s, p)) (lt, el, e, _, _) room h =
      if_pair-irq IsNested (leb 4 c.irq.depth) _ _ h (
        subst (λ p'. IsNested (irq_accept host s p' c).1.irq) (sym e)
          (irq_accept-IsNested s c lt el room h))

  release-IsNested :
      (p : ℕ) (c d : Cpu)
      → d.irq ≡ c.irq
      → 0 < c.irq.depth
      → IsNested c.irq
      → let index = u8 (c.irq.depth - 1) in
        IsNested (irq_arm_inhibit (irq_release host index (c.irq.source_stack index) p d)).irq
  unfolding irq_release irq_arm_inhibit released
  release-IsNested p c d e pos h =
      let index = u8 (c.irq.depth - 1) in
      let left = λ (q : SabIrq). record q {
        depth = index;
        in_service = bit_and q.in_service (65535 - irq_bit (c.irq.source_stack index));
      } in
      irq_sync-IsNested (set_irq (left d.irq) d)
        (subst (λ (q : SabIrq). IsNested (left q)) (sym e) (released-IsNested c.irq pos h))

  -- Whatever is pending, an interrupt round keeps the nesting of services, provided that the stack
  -- has room for the two bytes of the return address (then the host's exception handler is not
  -- called) or that the handler leaves the interrupt controller as it is.
  pub handle_sab_interrupts-IsNested :
      (c : Cpu)
      → KeepsIrq host ⊎ HasRoom 2 c
      → IsNested c.irq
      → IsNested (handle_sab_interrupts host c).1.irq
  unfolding handle_sab_interrupts enter_chosen
  handle_sab_interrupts-IsNested c room h =
      let c1 = irq_sync c in
      let h1 = irq_sync-IsNested c h in
      if_pair-irq IsNested (not (c1.irq.inhibit_instructions == 0)) _ _ h1 (
        if_pair-irq IsNested (not (has (c1.sfr (sfr_index sfr_ien0)) ie_ea)) _ _ h1 (
          chosen-IsNested c1 (irq_select c1 12) (irq_select-IsBest c1 12) (room_after_sync c room)
            h1))
    where
      room_after_sync :
          (c : Cpu) → KeepsIrq host ⊎ HasRoom 2 c → KeepsIrq host ⊎ HasRoom 2 (irq_sync c)
      room_after_sync c (inl keep) = inl keep
      room_after_sync c (inr (low, bank)) =
          let same = irq_sync-IsSameStack c in
          inr (
            omega (arith, same.0),
            elim bank [
              | inl upper ↦ inl (same.1 ∙ upper)
              | inr below ↦ inr (omega (arith, same.0))
            ],
          )

  -- A return keeps the nesting of services, provided that ACC, SP and PSW are what they were on entry
  -- (then the host's exception handler is not called) or that the handler leaves the interrupt
  -- controller as it is.
  pub irq_reti-IsNested :
      (sp : ℕ) (c : Cpu)
      → KeepsIrq host ⊎ IsBalanced sp c
      → IsNested c.irq
      → IsNested (irq_reti host sp c).irq
  unfolding irq_reti irq_arm_inhibit
  irq_reti-IsNested sp c balanced h =
      let index = u8 (c.irq.depth - 1) in
      let checked = irq_reti_checks host index sp c in
      let e : checked.irq ≡ c.irq = irq_reti_checks-irq host sp c balanced in
      if-irq IsNested (not (is_sab c.variant)) _ _ h (elim (Bool-cases (c.irq.depth == 0)) [
        | inl zero_depth ↦ rw zero_depth h
        | inr ne ↦ rw ne (
            if-irq IsNested (execution_aborted checked) _ _ (subst IsNested (sym e) h)
              (release-IsNested (c.irq.priority_stack index) c checked e (ground arith) h))
      ])
