-- ===== src/IrqService/Callback.antt =====
-- What an entry and a return leave of the interrupt controller, and when they call the host's
-- exception handler (core.c, opcodes.c).
use emu_sa80535_n.Base.{
  ℕ, suc, ==_iff, ◌+◌, ◌-◌, ◌<◌, ◌≡◌, ◌⊎◌, Bool, true, false, some, arith, ltb, ◌==◌, ◌&&◌, not,
  if◌then◌else◌, inl, inr, refl, ap, ◌∙◌, bit_and, u8,
}
use emu_sa80535_n.Cpu.{
  set_sfr, iret_acc_mismatch, iret_sp_mismatch, iret_psw_mismatch, Cpu, SabIrq, Host, Exception,
  stack, execution_aborted,
}
use emu_sa80535_n.Cpu.Regs.{reg_acc, reg_psw, reg_sp}
use emu_sa80535_n.IrqService.{irq_auto_clear, irq_reti_checks, psw_checked, raise_if}
use emu_sa80535_n.Memory.{push_to_stack, write_mem_indir}

-- An exception handler that leaves the interrupt controller alone, as the absent one does.
abbrev pub KeepsIrq : Host → Type 0
KeepsIrq host = (c : Cpu) (e : Exception) → (host.except c e).irq ≡ c.irq

write_mem_indir-irq : (a v : ℕ) (c : Cpu) → (write_mem_indir a v c).irq ≡ c.irq
unfolding write_mem_indir
write_mem_indir-irq a v c = ground arith

pub irq_auto_clear-irq : (s : ℕ) (c : Cpu) → (irq_auto_clear s c).irq ≡ c.irq
unfolding irq_auto_clear
irq_auto_clear-irq s c = ground arith

-- The controller after a test, where both outcomes leave the same one.
pub if-irq :
    (P : SabIrq → Type 0) (b : Bool) (x y : Cpu) → P x.irq → P y.irq → P (if b then x else y).irq
if-irq P true x y e f = e
if-irq P false x y e f = f

pub if_pair-irq :
    (P : SabIrq → Type 0) (b : Bool) (x y : Bool × Cpu)
    → P x.1.irq
    → P y.1.irq
    → P (if b then x else y).1.irq
if_pair-irq P true x y e f = e
if_pair-irq P false x y e f = f

-- A stack that takes `n` more bytes without an exception.
abbrev pub HasRoom : ℕ → Cpu → Type 0
HasRoom n c = (c.sfr reg_sp + n < 256) × ((c.upper_data ≡ true) ⊎ (c.sfr reg_sp + n < 128))

-- ACC, SP and PSW are what they were when the innermost service was entered.
abbrev pub IsBalanced : ℕ → Cpu → Type 0
IsBalanced sp c =
    (c.irq.saved_acc (u8 (c.irq.depth - 1)) ≡ c.sfr reg_acc)
    × (c.irq.saved_sp (u8 (c.irq.depth - 1)) ≡ sp)
    × (c.irq.saved_psw (u8 (c.irq.depth - 1)) ≡ c.sfr reg_psw)

write_mem_indir-stack :
    (a v : ℕ) (c : Cpu)
    → ((write_mem_indir a v c).sfr reg_sp ≡ c.sfr reg_sp)
      × ((write_mem_indir a v c).upper_data ≡ c.upper_data)
unfolding write_mem_indir
write_mem_indir-stack a v c = (ground arith, ground arith)

module _ (host : Host) where
  -- With room for it, a push succeeds and leaves the controller alone.
  push_to_stack-room :
      (v n : ℕ) (c : Cpu)
      → HasRoom (suc n) c
      → ((push_to_stack host v c).1.irq ≡ c.irq) × HasRoom n (push_to_stack host v c).1
  unfolding push_to_stack
  push_to_stack-room v n c (low, bank) =
      let sp = u8 (c.sfr reg_sp + 1) in
      let next : sp ≡ c.sfr reg_sp + 1 = omega arith in
      let c1 = set_sfr reg_sp sp c in
      let c2 = write_mem_indir sp v c1 in
      let kept = write_mem_indir-stack sp v c1 in
      let fits : (ltb 0x7f sp && not c.upper_data) ≡ false = elim bank [
        | inl upper ↦ ground arith
        | inr below ↦ ground arith
      ] in
      let more : (sp == 0) ≡ false = ground arith in
      let at : c2.sfr reg_sp ≡ c.sfr reg_sp + 1 = kept.0 ∙ next in
      rw (fits, more)
        (
          write_mem_indir-irq sp v c1,
          (
            omega (arith, at),
            elim bank [ inl upper ↦ inl (kept.1 ∙ upper) | inr below ↦ inr (omega (arith, at)) ],
          ),
        )

  push_to_stack-keeps : (v : ℕ) (c : Cpu) → KeepsIrq host → (push_to_stack host v c).1.irq ≡ c.irq
  unfolding push_to_stack
  push_to_stack-keeps v c keep =
      let sp = u8 (c.sfr reg_sp + 1) in
      let c1 = set_sfr reg_sp sp c in
      let c2 = write_mem_indir sp v c1 in
      let e = write_mem_indir-irq sp v c1 in
      if_pair-irq (λ q. q ≡ c.irq) (ltb 0x7f sp && not c.upper_data) _ _
        (keep (record c1 { exception_raised = true; last_exception = some stack }) stack)
        (if_pair-irq (λ q. q ≡ c.irq) (sp == 0) _ _
          (keep (record c2 { exception_raised = true; last_exception = some stack }) stack ∙ e) e)

  -- What a push needs to leave the controller alone.
  pub push_to_stack-irq :
      (v n : ℕ) (c : Cpu)
      → KeepsIrq host ⊎ HasRoom (suc n) c
      → ((push_to_stack host v c).1.irq ≡ c.irq)
        × (KeepsIrq host ⊎ HasRoom n (push_to_stack host v c).1)
  push_to_stack-irq v n c (inl keep) = (push_to_stack-keeps v c keep, inl keep)
  push_to_stack-irq v n c (inr room) =
      let pushed = push_to_stack-room v n c room in (pushed.0, inr (pushed.1))

  raise_if-irq :
      (b : Bool) (e : Exception) (c : Cpu) → KeepsIrq host → (raise_if host b e c).irq ≡ c.irq
  raise_if-irq b e c keep =
      if-irq (λ q. q ≡ c.irq) b _ _
        (keep (record c { exception_raised = true; last_exception = some e }) e) refl

  irq_reti_checks-keeps :
      (i sp : ℕ) (c : Cpu) → KeepsIrq host → (irq_reti_checks host i sp c).irq ≡ c.irq
  unfolding irq_reti_checks
  irq_reti_checks-keeps i sp c keep =
      let c1 = raise_if host (not (c.irq.saved_acc i == c.sfr reg_acc)) iret_acc_mismatch c in
      let c2 = raise_if host (not (c1.irq.saved_sp i == sp)) iret_sp_mismatch c1 in
      let kept = bit_and (c2.irq.saved_psw i) psw_checked == bit_and (c2.sfr reg_psw) psw_checked in
      let e1 : c1.irq ≡ c.irq =
        raise_if-irq (not (c.irq.saved_acc i == c.sfr reg_acc)) iret_acc_mismatch c keep in
      let e2 : c2.irq ≡ c.irq =
        raise_if-irq (not (c1.irq.saved_sp i == sp)) iret_sp_mismatch c1 keep ∙ e1 in
      if-irq (λ q. q ≡ c.irq) (execution_aborted c1) _ _ e1
        (if-irq (λ q. q ≡ c.irq) (execution_aborted c2) _ _ e2
          (raise_if-irq (not kept) iret_psw_mismatch c2 keep ∙ e2))

  irq_reti_checks-balanced :
      (sp : ℕ) (c : Cpu) → IsBalanced sp c → irq_reti_checks host (u8 (c.irq.depth - 1)) sp c ≡ c
  unfolding irq_reti_checks
  irq_reti_checks-balanced sp c (acc, stack_pointer, psw) =
      let i = u8 (c.irq.depth - 1) in
      let a : (c.irq.saved_acc i == c.sfr reg_acc) ≡ true = (==_iff _ _).1 acc in
      let s : (c.irq.saved_sp i == sp) ≡ true = (==_iff _ _).1 stack_pointer in
      let p : (bit_and (c.irq.saved_psw i) psw_checked == bit_and (c.sfr reg_psw) psw_checked)
          ≡ true =
        (==_iff _ _).1 (ap (λ (n : ℕ). bit_and n psw_checked) psw) in
      rw (a, s, p) (if_same (execution_aborted c) c)
    where
      if_same : (b : Bool) (d : Cpu) → (if b then d else (if b then d else d)) ≡ d
      if_same true d = refl
      if_same false d = refl

  pub irq_reti_checks-irq :
      (sp : ℕ) (c : Cpu)
      → KeepsIrq host ⊎ IsBalanced sp c
      → (irq_reti_checks host (u8 (c.irq.depth - 1)) sp c).irq ≡ c.irq
  irq_reti_checks-irq sp c (inl keep) = irq_reti_checks-keeps (u8 (c.irq.depth - 1)) sp c keep
  irq_reti_checks-irq sp c (inr balanced) =
      ap (λ (d : Cpu). d.irq) (irq_reti_checks-balanced sp c balanced)
