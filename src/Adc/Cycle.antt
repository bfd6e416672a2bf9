-- ===== src/Adc/Cycle.antt =====
-- A conversion from its start to its end.
use emu_sa80535_n.Base.{
  ℕ, zero, suc, ◌+◌, ◌<◌, ◌≡◌, ◌≢◌, Bool, true, false, Option, none, some, ◌||◌, not, if◌then◌else◌,
  arith, bit_and, bit_or, u8, u64, has, compl, ltb, refl, ◌∙◌, ap, sym, subst,
}
use emu_sa80535_n.Base.Bits.{bit, has_pow, bit-bit_and, bit-compl, bit_pow}
use emu_sa80535_n.Base.Bits.Step.{bit_or_step}
use emu_sa80535_n.Cpu.{set_sfr, Cpu, Host, Adc, is_sab, irq_write}
use emu_sa80535_n.Cpu.Regs.{reg_tcon, sfr_index, sfr_adcon, sfr_dapr, sfr_addat, sfr_ircon, sfr_p3}
use emu_sa80535_n.Cpu.Masks.{adcon_mx, adcon_bsy, ircon_iadc}
use emu_sa80535_n.Pins.{port_get_pins}
use emu_sa80535_n.IrqSync.{irq_sync, maintain_level_request, maintain_level_requests}
use emu_sa80535_n.Adc.{
  adc_tick, adc_begin, adc_finish, adc_latch, adc_set_busy, adc_convert, adc_references_valid,
  set_adc,
}

-- What the synchronisation of requests leaves alone.
maintain_level_request-keeps :
    (pins source i : ℕ) (c : Cpu)
    → i ≢ reg_tcon
    → let d = maintain_level_request pins source c in
      (d.sfr i ≡ c.sfr i) × (d.adc ≡ c.adc) × (d.variant ≡ c.variant)
unfolding maintain_level_request
maintain_level_request-keeps pins source i c ne = ground arith

irq_sync-keeps :
    (i : ℕ) (c : Cpu)
    → i ≢ reg_tcon
    → let d = irq_sync c in (d.sfr i ≡ c.sfr i) × (d.adc ≡ c.adc) × (d.variant ≡ c.variant)
unfolding irq_sync maintain_level_requests
irq_sync-keeps i c ne = go (is_sab c.variant) (port_get_pins c sfr_p3)
  where
    Same : Cpu → Type 0
    Same d = (d.sfr i ≡ c.sfr i) × (d.adc ≡ c.adc) × (d.variant ≡ c.variant)

    go :
        (b : Bool) (o : Option ℕ)
        → Same (
            if b
            then elim o [
              | none ↦ c
              | some pins ↦ maintain_level_request pins 1 (maintain_level_request pins 0 c)
            ]
            else c)
    go false o = (refl, refl, refl)
    go true none = (refl, refl, refl)
    go true (some pins) =
        let first = maintain_level_request-keeps pins 0 i c ne in
        let second = maintain_level_request-keeps pins 1 i (maintain_level_request pins 0 c) ne in
        (second.0 ∙ first.0, second.1 ∙ first.1, second.2 ∙ first.2)

module _ (host : Host) where
  -- `adc_tick` with its tests as arguments.
  ticked : Bool → Bool → Bool → ℕ → Cpu → Cpu
  ticked skipped armed active cycles c =
      let a : Adc = c.adc in
      let cycle = u64 (c.machine_cycle_count + 1) in
      let counted = set_adc (record a { cycles = cycles }) c in
      if skipped
      then c
      else if armed
      then adc_begin host cycle c
      else if not active
      then c
      else if ltb cycles 15
      then counted
      else adc_finish host cycle counted

  adc_tick-ticked :
      (c : Cpu)
      → adc_tick host c
        ≡ ticked
            (not (is_sab c.variant) || c.adc.start_pending)
            c.adc.armed
            c.adc.active
            (u8 (c.adc.cycles + 1))
            c
  unfolding adc_tick ticked
  adc_tick-ticked c = refl

  abbrev pub ticks : ℕ → Cpu → Cpu
  ticks zero c = c
  ticks (suc n) c = adc_tick host (ticks n c)

abbrev pub channel : Cpu → ℕ
channel c = u8 (bit_and (c.sfr (sfr_index sfr_adcon)) adcon_mx)

-- The converter in cycle `k` of the conversion that was armed in `c`.
abbrev pub IsConverting : ℕ → Cpu → Cpu → Type 0
IsConverting k c d =
    let dapr = c.sfr (sfr_index sfr_dapr) in
    (is_sab d.variant ≡ true)
    × (d.adc.start_pending ≡ false)
    × (d.adc.armed ≡ false)
    × (d.adc.active ≡ true)
    × (d.adc.cycles ≡ k)
    × (d.adc.busy ≡ true)
    × (d.adc.latched_input ≡ c.adc.inputs (channel c))
    × (d.adc.latched_dapr ≡ dapr)
    × (d.adc.reference_valid ≡ adc_references_valid dapr)
    × (d.sfr (sfr_index sfr_addat) ≡ c.sfr (sfr_index sfr_addat))

-- The converter after the conversion that was armed in `c`.
abbrev pub IsConverted : Cpu → Cpu → Type 0
IsConverted c d =
    let dapr = c.sfr (sfr_index sfr_dapr) in
    (d.adc.active ≡ false)
    × (d.adc.busy ≡ false)
    × (has (d.sfr (sfr_index sfr_adcon)) adcon_bsy ≡ false)
    × (has (d.sfr (sfr_index sfr_ircon)) ircon_iadc ≡ true)
    × (d.sfr (sfr_index sfr_addat) ≡ (
        if adc_references_valid dapr
        then adc_convert (c.adc.inputs (channel c)) dapr
        else c.sfr (sfr_index sfr_addat)))

bsy-cleared : (x : ℕ) → has (bit_and x (compl adcon_bsy)) adcon_bsy ≡ false
bsy-cleared x = ground (
  arith,
  has_pow 4 (bit_and x (compl adcon_bsy)),
  bit-bit_and x (compl adcon_bsy) 4,
  bit-compl 8 adcon_bsy 4 (omega arith) (omega arith),
  bit_pow 4 4,
)

iadc-set : (x : ℕ) → has (u8 (bit_or x ircon_iadc)) ircon_iadc ≡ true
unfolding bit
iadc-set x = ground (arith, has_pow 0 (u8 (bit_or x 1)), bit_or_step x 1)

adc_begin-IsConverting :
    (host : Host) (cycle : ℕ) (c : Cpu)
    → is_sab c.variant ≡ true
    → c.adc.start_pending ≡ false
    → IsConverting 1 c (adc_begin host cycle c)
unfolding adc_begin adc_latch adc_set_busy
adc_begin-IsConverting host cycle c sab pending =
    (sab, pending, refl, refl, refl, refl, refl, refl, refl, refl)

-- The state of `adc_finish` before the synchronisation of requests.
finished : Bool → Cpu → Cpu
finished valid d =
    let a : Adc = d.adc in
    let c1 =
      if valid
      then set_sfr (sfr_index sfr_addat) (adc_convert a.latched_input a.latched_dapr) d
      else d in
    let c2 = adc_set_busy false (set_adc (record a { active = false }) c1) in
    irq_write (sfr_index sfr_ircon) (bit_or (c2.sfr (sfr_index sfr_ircon)) ircon_iadc) c2

finished-facts :
    (valid : Bool) (d : Cpu)
    → ((finished valid d).adc.active ≡ false)
      × ((finished valid d).adc.busy ≡ false)
      × ((finished valid d).sfr (sfr_index sfr_adcon)
          ≡ bit_and (d.sfr (sfr_index sfr_adcon)) (compl adcon_bsy))
      × ((finished valid d).sfr (sfr_index sfr_ircon)
          ≡ u8 (bit_or (d.sfr (sfr_index sfr_ircon)) ircon_iadc))
      × ((finished valid d).sfr (sfr_index sfr_addat) ≡ (
          if valid
          then adc_convert d.adc.latched_input d.adc.latched_dapr
          else d.sfr (sfr_index sfr_addat)))
unfolding finished adc_set_busy
finished-facts true d = (refl, refl, refl, refl, refl)
finished-facts false d = (refl, refl, refl, refl, refl)

module _ (host : Host) (cycle : ℕ) (c d : Cpu) where
  adc_finish-sfr :
      (i : ℕ)
      → (adc_finish host cycle d).sfr i ≡ (irq_sync (finished d.adc.reference_valid d)).sfr i
  unfolding adc_finish finished
  adc_finish-sfr i = refl

  adc_finish-adc : (adc_finish host cycle d).adc ≡ (irq_sync (finished d.adc.reference_valid d)).adc
  unfolding adc_finish finished
  adc_finish-adc = refl

  adc_finish-IsConverted :
      (d.adc.latched_input ≡ c.adc.inputs (channel c))
      → (d.adc.latched_dapr ≡ c.sfr (sfr_index sfr_dapr))
      → (d.adc.reference_valid ≡ adc_references_valid (c.sfr (sfr_index sfr_dapr)))
      → (d.sfr (sfr_index sfr_addat) ≡ c.sfr (sfr_index sfr_addat))
      → IsConverted c (adc_finish host cycle d)
  adc_finish-IsConverted input dapr valid old =
      let f = finished d.adc.reference_valid d in
      let (active, busy, adcon, ircon, addat) = finished-facts d.adc.reference_valid d in
      let keeps = λ (i : ℕ) (ne : i ≢ reg_tcon). adc_finish-sfr i ∙ (irq_sync-keeps i f ne).0 in
      let same = adc_finish-adc ∙ (irq_sync-keeps 0 f (omega arith)).1 in
      (
        ap (λ (a : Adc). a.active) same ∙ active,
        ap (λ (a : Adc). a.busy) same ∙ busy,
        ap (λ x. has x adcon_bsy) (keeps (sfr_index sfr_adcon) (omega arith) ∙ adcon)
            ∙ bsy-cleared (d.sfr (sfr_index sfr_adcon)),
        ap (λ x. has x ircon_iadc) (keeps (sfr_index sfr_ircon) (omega arith) ∙ ircon)
            ∙ iadc-set (d.sfr (sfr_index sfr_ircon)),
        keeps (sfr_index sfr_addat) (omega arith) ∙ addat ∙ rw (valid, input, dapr, old) refl,
      )

module _ (host : Host) (c : Cpu) (sab : is_sab c.variant ≡ true)
    (quiet : c.adc.start_pending ≡ false) (armed : c.adc.armed ≡ true) where
  first-IsConverting : IsConverting 1 c (ticks host 1 c)
  unfolding ticked
  first-IsConverting =
      let begun = adc_begin host (u64 (c.machine_cycle_count + 1)) c in
      let body : ticked host (not (is_sab c.variant) || c.adc.start_pending) c.adc.armed
            c.adc.active (u8 (c.adc.cycles + 1)) c
          ≡ begun =
        rw (sab, quiet, armed) refl in
      subst (λ (d : Cpu). IsConverting 1 c d) (sym (adc_tick-ticked host c ∙ body))
        (adc_begin-IsConverting host (u64 (c.machine_cycle_count + 1)) c sab quiet)

  -- For the first fourteen cycles the converter is busy with the input and the references that it
  -- sampled in the first of them, and the result register is as it was.
  adc_tick-IsConverting : (k : ℕ) → k < 14 → IsConverting (suc k) c (ticks host (suc k) c)
  unfolding ticked
  adc_tick-IsConverting zero lt = first-IsConverting
  adc_tick-IsConverting (suc k) lt =
      let d = ticks host (suc k) c in
      let (s, q, a, v, n, b, input, dapr, valid, old) = adc_tick-IsConverting k (omega arith) in
      let next : u8 (d.adc.cycles + 1) ≡ suc (suc k) = omega arith in
      let early : ltb (suc (suc k)) 15 ≡ true = ground arith in
      let counted = set_adc (let x : Adc = d.adc in record x { cycles = suc (suc k) }) d in
      let body : ticked host (not (is_sab d.variant) || d.adc.start_pending) d.adc.armed
            d.adc.active (u8 (d.adc.cycles + 1)) d
          ≡ counted =
        rw (s, q, a, v, next, early) refl in
      subst (λ (x : Cpu). IsConverting (suc (suc k)) c x) (sym (adc_tick-ticked host d ∙ body))
        (s, q, a, v, refl, b, input, dapr, valid, old)

  -- An armed conversion is busy for fourteen cycles, with the result register as it was, and the
  -- fifteenth ends it: BSY is cleared, IADC requests an interrupt, and ADDAT is the value of the
  -- input and the references that were sampled at the start, or as it was where they are not valid.
  pub adc_tick-IsConverted :
      ((k : ℕ) → k < 14 → IsConverting (suc k) c (ticks host (suc k) c))
      × IsConverted c (ticks host 15 c)
  unfolding ticked
  adc_tick-IsConverted =
      let d = ticks host 14 c in
      let (s, q, a, v, n, b, input, dapr, valid, old) = adc_tick-IsConverting 13 (omega arith) in
      let counted = set_adc (let x : Adc = d.adc in record x { cycles = 15 }) d in
      let next : u8 (d.adc.cycles + 1) ≡ 15 = omega arith in
      let body : ticked host (not (is_sab d.variant) || d.adc.start_pending) d.adc.armed
            d.adc.active (u8 (d.adc.cycles + 1)) d
          ≡ adc_finish host (u64 (d.machine_cycle_count + 1)) counted =
        rw (s, q, a, v, next) refl in
      (
        adc_tick-IsConverting,
        subst (λ (x : Cpu). IsConverted c x) (sym (adc_tick-ticked host d ∙ body))
            (adc_finish-IsConverted host (u64 (d.machine_cycle_count + 1)) c counted input dapr
              valid old),
      )
