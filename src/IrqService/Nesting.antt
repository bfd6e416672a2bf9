-- ===== src/IrqService/Nesting.antt =====
-- The nesting of interrupt services: an invariant of the controller's stacks.
use emu_sa80535_n.Base.{
  ℕ, suc, ◌+◌, ◌-◌, ◌*◌, ◌^◌, ◌≤◌, ◌<◌, ◌≡◌, ◌≢◌, ◌⊎◌, Bool, true, false, Option, none, some, arith,
  ltb, ◌==◌, if◌then◌else◌, inl, inr, refl, sym, ap, subst, ◌∙◌, Bool-cases, if_either, update,
  bit_or, u8, has, to_int,
}
use emu_sa80535_n.Base.Bits.{bit, bit-bit_or, bit_or-lt, bit_pow, bit-lt}
use emu_sa80535_n.Cpu.{Cpu, SabIrq}
use emu_sa80535_n.IrqSync.{
  irq_priority, irq_sync, irq_bit, maintain_level_requests, maintain_level_request,
}
use emu_sa80535_n.Cpu.{is_sab}
use emu_sa80535_n.Cpu.Regs.{reg_sp, sfr_index, sfr_ip0, sfr_ip1, sfr_p3}
use emu_sa80535_n.Pins.{port_get_pins}
use native.Mathlib.Nat.{pow-le-pow_right}

-- At most four services are nested, of distinct sources that are marked as in service, each of a
-- higher priority than the one it interrupted.
abbrev pub IsNested : SabIrq → Type 0
IsNested q =
    (q.depth ≤ 4)
    × (q.in_service < 2 ^ 16)
    × ((i : ℕ) → i < q.depth → q.priority_stack i < 4)
    × ((i : ℕ) → suc i < q.depth → q.priority_stack i < q.priority_stack (suc i))
    × ((i : ℕ) → i < q.depth → (q.source_stack i < 12) × (bit q.in_service (q.source_stack i) ≡ 1))
    × ((i j : ℕ) → i < j → j < q.depth → q.source_stack i ≢ q.source_stack j)

two_bits-lt : (a b : Bool) → bit_or (if a then 1 else 0) (if b then 2 else 0) < 4
two_bits-lt true true = omega arith
two_bits-lt true false = omega arith
two_bits-lt false true = omega arith
two_bits-lt false false = omega arith

pub irq_priority-lt : (c : Cpu) (source : ℕ) → irq_priority c source < 4
unfolding irq_priority
irq_priority-lt c source =
    let bit = u8 (1 * 2 ^ (if ltb source 6 then source else source - 6)) in
    two_bits-lt (has (c.sfr (sfr_index sfr_ip0)) bit) (has (c.sfr (sfr_index sfr_ip1)) bit)

-- A priority that rises above the innermost service.
abbrev pub Outranks : ℕ → SabIrq → Type 0
Outranks p q = (q.depth ≡ 0) ⊎ (q.priority_stack (q.depth - 1) < p)

top-eq : (f : ℕ → ℕ) (n m : ℕ) → n ≡ m → f (n - 1) ≡ f (m - 1)
top-eq f n m e = ap (λ k. f (k - 1)) e

-- Strictly rising priorities below four leave room for four services alone, so a source that may
-- interrupt always finds a free entry.
room_for_service : (q : SabIrq) (p : ℕ) → IsNested q → p < 4 → Outranks p q → q.depth < 4
room_for_service q p h hp (inl e) = omega arith
room_for_service q p (d, _, below, rise, _, _) hp (inr above) = elim (Bool-cases (q.depth == 4)) [
  | inl e ↦
      let full : q.depth ≡ 4 = ground arith in
      absurd (
        omega (
          arith,
          rise 0 (omega arith),
          rise 1 (omega arith),
          rise 2 (omega arith),
          top-eq q.priority_stack q.depth 4 full,
        ))
  | inr ne ↦ ground arith
]

maintain_level_request-irq :
    (pins source : ℕ) (c : Cpu) → (maintain_level_request pins source c).irq ≡ c.irq
unfolding maintain_level_request
maintain_level_request-irq pins source c = ground arith

maintain_level_requests-irq : (c : Cpu) → (maintain_level_requests c).irq ≡ c.irq
unfolding maintain_level_requests
maintain_level_requests-irq c =
    let first = maintain_level_request-irq in go (is_sab c.variant) (port_get_pins c sfr_p3)
  where
    go :
        (b : Bool) (o : Option ℕ)
        → (if b
            then elim o [
              | none ↦ c
              | some pins ↦ maintain_level_request pins 1 (maintain_level_request pins 0 c)
            ]
            else c).irq
          ≡ c.irq
    go false o = refl
    go true none = refl
    go true (some pins) =
        maintain_level_request-irq pins 1 (maintain_level_request pins 0 c)
        ∙ maintain_level_request-irq pins 0 c

-- What a push reads: SP, and whether there is an upper memory.
abbrev pub IsSameStack : Cpu → Cpu → Type 0
IsSameStack c d = (d.sfr reg_sp ≡ c.sfr reg_sp) × (d.upper_data ≡ c.upper_data)

maintain_level_request-IsSameStack :
    (pins source : ℕ) (c : Cpu) → IsSameStack c (maintain_level_request pins source c)
unfolding maintain_level_request
maintain_level_request-IsSameStack pins source c = (ground arith, ground arith)

maintain_level_requests-IsSameStack : (c : Cpu) → IsSameStack c (maintain_level_requests c)
unfolding maintain_level_requests
maintain_level_requests-IsSameStack c =
    if_either (IsSameStack c) (is_sab c.variant) _ c (λ sab. of_pins (port_get_pins c sfr_p3))
      (λ classic. (refl, refl))
  where
    of_pins :
        (o : Option ℕ)
        → IsSameStack c (elim o [
          | none ↦ c
          | some pins ↦ maintain_level_request pins 1 (maintain_level_request pins 0 c)
        ])
    of_pins none = (refl, refl)
    of_pins (some pins) =
        let first = maintain_level_request-IsSameStack pins 0 c in
        let second = maintain_level_request-IsSameStack pins 1 (maintain_level_request pins 0 c) in
        (second.0 ∙ first.0, second.1 ∙ first.1)

pub irq_sync-IsSameStack : (c : Cpu) → IsSameStack c (irq_sync c)
unfolding irq_sync
irq_sync-IsSameStack c = maintain_level_requests-IsSameStack c

pub irq_sync-IsNested : (c : Cpu) → IsNested c.irq → IsNested (irq_sync c).irq
unfolding irq_sync
irq_sync-IsNested c h = subst (λ (q : SabIrq). IsNested q) (sym (maintain_level_requests-irq c)) h

-- The controller after an entry.
unfoldable pub entered : ℕ → ℕ → ℕ → ℕ → ℕ → SabIrq → SabIrq
entered source priority a p sp q = record q {
  source_stack = update q.source_stack q.depth source;
  priority_stack = update q.priority_stack q.depth priority;
  saved_acc = update q.saved_acc q.depth a;
  saved_psw = update q.saved_psw q.depth p;
  saved_sp = update q.saved_sp q.depth sp;
  depth = u8 (q.depth + 1);
  in_service = bit_or q.in_service (irq_bit source);
}

pub irq_bit-lt : (s : ℕ) → s < 12 → irq_bit s < 2 ^ 16
irq_bit-lt s h =
    omega (arith, pow-le-pow_right {n = 2} (omega arith) {i = s} {j = 11} (omega arith))

pub irq_bit-bit : (s i : ℕ) → bit (irq_bit s) i ≡ to_int (i == s)
irq_bit-bit s i = let e : 1 * 2 ^ s ≡ 2 ^ s = omega arith in rw e (bit_pow s i)

update-rises :
    (f : ℕ → ℕ) (d p : ℕ)
    → ((i : ℕ) → suc i < d → f i < f (suc i))
    → (d ≡ 0) ⊎ (f (d - 1) < p)
    → (i : ℕ) → suc i < suc d
    → update f d p i < update f d p (suc i)
update-rises f d p rise (inl e) i lt = absurd (omega arith)
update-rises f d p rise (inr above) i lt = elim (Bool-cases (suc i == d)) [
  | inl e ↦
      let last : suc i ≡ d = ground arith in
      let at : f i ≡ f (d - 1) = ap f (omega arith) in ground (arith, at)
  | inr ne ↦ ground (arith, rise i)
]

pub entered-IsNested :
    (source priority a p sp : ℕ) (q : SabIrq)
    → source < 12
    → bit q.in_service source ≡ 0
    → priority < 4
    → Outranks priority q
    → IsNested q
    → IsNested (entered source priority a p sp q)
unfolding entered
entered-IsNested source priority a p sp q hs hb hp out nested =
    let room = room_for_service q priority nested hp out in
    let (d, w, below, rise, src, apart) = nested in
    (
      omega arith,
      bit_or-lt 16 q.in_service (irq_bit source) w (irq_bit-lt source hs),
      λ i lt. ground (arith, below i),
      λ i lt. update-rises q.priority_stack q.depth priority rise out i (omega arith),
      λ i lt. elim (Bool-cases (i == q.depth)) [
        | inl e ↦ rw e (
          hs,
          ground (
            arith,
            bit-bit_or q.in_service (irq_bit source) source,
            irq_bit-bit source source,
            bit-lt q.in_service source,
          ),
        )
        | inr ne ↦
            let s = q.source_stack i in
            let lower : i < q.depth = ground arith in
            rw ne (
              (src i lower).0,
              ground (
                arith,
                bit-bit_or q.in_service (irq_bit source) s,
                irq_bit-bit source s,
                src i lower,
              ),
            )
      ],
      λ i j l1 l2. elim (Bool-cases (j == q.depth)) [
        | inl e ↦
            let ne : (i == q.depth) ≡ false = ground arith in
            rw (e, ne)
              (λ same.
                absurd (omega (arith, src i (ground arith), ap (λ s. bit q.in_service s) same)))
        | inr ne ↦
            let ne2 : (i == q.depth) ≡ false = ground arith in
            rw (ne, ne2) (apart i j l1 (ground arith))
      ],
    )
