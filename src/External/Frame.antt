-- ===== src/External/Frame.antt =====
-- What sampling a port leaves alone: the schedule, the time, the pending cycles, the pins' drivers and the latches.
use emu_sa80535_n.Base.{
  ℕ, ◌-◌, ◌≡◌, ◌⊎◌, Bool, true, false, Option, none, some, List, [], ◌∷◌, arith, leb, ◌==◌, ◌&&◌,
  ◌||◌, not, if◌then◌else◌, inl, inr, refl, sym, subst, ◌∙◌, bit_and, bit_or, u8, compl, has, ◌<<<◌,
}
use emu_sa80535_n.Cpu.{
  notify, external, Cpu, Host, Variant, ScheduleEvent, is_sab, set_sfr, irq_write,
}
use emu_sa80535_n.Cpu.Regs.{reg_tcon, sfr_index, sfr_ircon, sfr_p1, sfr_p3, sfr_p4, sfr_p5}
use emu_sa80535_n.Cpu.Masks.{ircon_iex2, tcon_ie0, tcon_ie1}
use emu_sa80535_n.Pins.{external_pin, external_request_sfr, port_get_pins, external_sample_bit}
use emu_sa80535_n.IrqSync.{irq_sync, maintain_level_requests, maintain_level_request}
use emu_sa80535_n.External.{
  Change, observe_int01, observe_int23, observe_int456, classify_change, external_observe_change,
  external_request_is_set, sample_source, sample_sources, external_sample_port, set_sampled_levels,
}

-- The part of the state that sampling must not touch.
abbrev pub View : Type 0
View = (Variant × ℕ × ℕ) × ((ℕ → ScheduleEvent) × ℕ × ℕ) × ((ℕ → ℕ) × (ℕ → ℕ)) × (ℕ × ℕ × ℕ × ℕ)

abbrev pub view : Cpu → View
view c = (
  (c.variant, c.machine_cycle_count, c.tick_delay),
  (c.ports.schedule, c.ports.schedule_head, c.ports.schedule_count),
  (c.ports.external_mask, c.ports.external_levels),
  (
    c.sfr (sfr_index sfr_p1),
    c.sfr (sfr_index sfr_p3),
    c.sfr (sfr_index sfr_p4),
    c.sfr (sfr_index sfr_p5),
  ),
)

if-view :
    (v : View) (b : Bool) (x y : Cpu) → view x ≡ v → view y ≡ v → view (if b then x else y) ≡ v
if-view v true x y e f = e
if-view v false x y e f = f

if_change-view :
    (v : View) (b : Bool) (x y : Change)
    → view x.2 ≡ v
    → view y.2 ≡ v
    → view (if b then x else y).2 ≡ v
if_change-view v true x y e f = e
if_change-view v false x y e f = f

maintain_level_request-view :
    (pins source : ℕ) (c : Cpu) → view (maintain_level_request pins source c) ≡ view c
unfolding maintain_level_request
maintain_level_request-view pins source c = ground arith

-- A register that holds requests of external inputs.
IsRequestSfr : ℕ → Type 0
IsRequestSfr index = (index ≡ reg_tcon) ⊎ (index ≡ sfr_index sfr_ircon)

set_sfr-view : (index v : ℕ) (c : Cpu) → IsRequestSfr index → view (set_sfr index v c) ≡ view c
unfolding IsRequestSfr
set_sfr-view index v c (inl e) = subst (λ k. view (set_sfr k v c) ≡ view c) (sym e) refl
set_sfr-view index v c (inr e) = subst (λ k. view (set_sfr k v c) ≡ view c) (sym e) refl

pub maintain_level_requests-view : (c : Cpu) → view (maintain_level_requests c) ≡ view c
unfolding maintain_level_requests
maintain_level_requests-view c = go (is_sab c.variant) (port_get_pins c sfr_p3)
  where
    go :
        (b : Bool) (o : Option ℕ)
        → view (
            if b
            then elim o [
              | none ↦ c
              | some pins ↦ maintain_level_request pins 1 (maintain_level_request pins 0 c)
            ]
            else c)
          ≡ view c
    go false o = refl
    go true none = refl
    go true (some pins) =
        maintain_level_request-view pins 1 (maintain_level_request pins 0 c)
        ∙ maintain_level_request-view pins 0 c

pub irq_sync-view : (c : Cpu) → view (irq_sync c) ≡ view c
unfolding irq_sync
irq_sync-view c = maintain_level_requests-view c

observe_int01-view :
    (c : Cpu) (source : ℕ) (old_level new_level : Bool) (index mask : ℕ)
    → IsRequestSfr index
    → view (observe_int01 c source old_level new_level index mask).2 ≡ view c
unfolding observe_int01
observe_int01-view c source old_level new_level index mask h =
    let kept = set_sfr-view index (bit_and (c.sfr index) (compl mask)) c h in ground (arith, kept)

observe_int23-view :
    (c : Cpu) (source : ℕ) (old_level new_level : Bool)
    → view (observe_int23 c source old_level new_level).2 ≡ view c
unfolding observe_int23
observe_int23-view c source old_level new_level = ground arith

observe_int456-view :
    (c : Cpu) (old_level new_level : Bool) → view (observe_int456 c old_level new_level).2 ≡ view c
unfolding observe_int456
observe_int456-view c old_level new_level = ground arith

classify_change-view :
    (c : Cpu) (source : ℕ) (old_level new_level : Bool) (index mask : ℕ)
    → IsRequestSfr index
    → view (classify_change c source old_level new_level index mask).2 ≡ view c
unfolding classify_change
classify_change-view c source old_level new_level index mask h =
    choose (source == 0 || source == 1) (source == 2 || source == 3)
      (observe_int01 c source old_level new_level index mask)
      (observe_int23 c source old_level new_level) (observe_int456 c old_level new_level)
      (observe_int01-view c source old_level new_level index mask h)
      (observe_int23-view c source old_level new_level) (observe_int456-view c old_level new_level)
  where
    choose :
        (a b : Bool) (x y z : Change)
        → view x.2 ≡ view c
        → view y.2 ≡ view c
        → view z.2 ≡ view c
        → view (if a then x else if b then y else z).2 ≡ view c
    choose true b x y z e f g = e
    choose false true x y z e f g = f
    choose false false x y z e f g = g

module _ (host : Host) (source : ℕ) (old_level new_level : Bool) (c : Cpu) where
  -- What `external_observe_change` does once it has the request flag.
  observed : ℕ × ℕ → Cpu
  observed x =
      let (trigger, qualifying, c1) = classify_change c source old_level new_level x.0 x.1 in
      let c2 = if qualifying then irq_write x.0 (bit_or (c1.sfr x.0) x.1) c1 else c1 in
      let c3 = irq_sync c2 in
      notify host
        (external c3.machine_cycle_count source old_level new_level trigger
          (external_request_is_set c3 source))
        c3

  observed-view : (x : ℕ × ℕ) → IsRequestSfr x.0 → view (observed x) ≡ view c
  unfolding observed
  observed-view x h =
      let change = classify_change c source old_level new_level x.0 x.1 in
      let c1 = change.2 in
      let e1 : view c1 ≡ view c = classify_change-view c source old_level new_level x.0 x.1 h in
      let raised = irq_write x.0 (bit_or (c1.sfr x.0) x.1) c1 in
      let e2 : view raised ≡ view c = set_sfr-view x.0 (u8 (bit_or (c1.sfr x.0) x.1)) c1 h ∙ e1 in
      irq_sync-view (if change.1 then raised else c1) ∙ if-view (view c) change.1 raised c1 e2 e1

  external_observe_change-view :
      view (external_observe_change host source old_level new_level c) ≡ view c
  unfolding external_observe_change external_request_sfr observed IsRequestSfr
  external_observe_change-view =
      go (source == 0) (source == 1) (leb 2 source && leb source 6)
        (u8 (ircon_iex2 <<< (source - 2)))
    where
      go :
          (a b d : Bool) (m : ℕ)
          → view
              (elim (if a
                then some (reg_tcon, tcon_ie0)
                else if b
                then some (reg_tcon, tcon_ie1)
                else if d
                then some (sfr_index sfr_ircon, m)
                else none) [ none ↦ c | some x ↦ observed x ])
            ≡ view c
      go true b d m = observed-view (reg_tcon, tcon_ie0) (inl refl)
      go false true d m = observed-view (reg_tcon, tcon_ie1) (inl refl)
      go false false true m = observed-view (sfr_index sfr_ircon, m) (inr refl)
      go false false false m = refl

module _ (host : Host) where
  -- What `sample_source` does once it has the pin.
  sampled : ℕ → ℕ → ℕ → Cpu → ℕ × ℕ → Cpu
  sampled port pins source c x =
      let sample_bit = external_sample_bit source in
      let levels = c.ports.sampled_levels in
      let old_level = has levels sample_bit in
      let new_level = has pins x.1 in
      if not (x.0 == port)
      then c
      else if old_level && new_level || not old_level && not new_level
      then c
      else external_observe_change host source old_level new_level (
          set_sampled_levels
            (if new_level then bit_or levels sample_bit else bit_and levels (compl sample_bit)) c)

  sampled-view :
      (port pins source : ℕ) (c : Cpu) (x : ℕ × ℕ) → view (sampled port pins source c x) ≡ view c
  unfolding sampled
  sampled-view port pins source c x =
      let sample_bit = external_sample_bit source in
      let levels = c.ports.sampled_levels in
      let old_level = has levels sample_bit in
      let new_level = has pins x.1 in
      let next =
        set_sampled_levels
          (if new_level then bit_or levels sample_bit else bit_and levels (compl sample_bit)) c in
      let changed = external_observe_change host source old_level new_level next in
      let e : view changed ≡ view c =
        external_observe_change-view host source old_level new_level next in
      let same = old_level && new_level || not old_level && not new_level in
      if-view (view c) (not (x.0 == port)) c (if same then c else changed) refl
        (if-view (view c) same c changed refl e)

  sample_source-view :
      (port pins source : ℕ) (c : Cpu) → view (sample_source host port pins source c) ≡ view c
  unfolding sample_source sampled
  sample_source-view port pins source c = go (external_pin source)
    where
      go :
          (o : Option (ℕ × ℕ))
          → view (elim o [ none ↦ c | some x ↦ sampled port pins source c x ]) ≡ view c
      go none = refl
      go (some x) = sampled-view port pins source c x

  sample_sources-view :
      (port pins : ℕ) (sources : List ℕ) (c : Cpu)
      → view (sample_sources host port pins sources c) ≡ view c
  sample_sources-view port pins [] c = refl
  sample_sources-view port pins (s ∷ rest) c =
      sample_sources-view port pins rest (sample_source host port pins s c)
      ∙ sample_source-view port pins s c

  pub external_sample_port-view :
      (port : ℕ) (c : Cpu) → view (external_sample_port host port c) ≡ view c
  unfolding external_sample_port
  external_sample_port-view port c = go (is_sab c.variant) (port_get_pins c port)
    where
      sources : List ℕ
      sources = 0 ∷ 1 ∷ 2 ∷ 3 ∷ 4 ∷ 5 ∷ 6 ∷ []

      go :
          (b : Bool) (o : Option ℕ)
          → view (
              if b
              then elim o [ none ↦ c | some pins ↦ sample_sources host port pins sources c ]
              else c)
            ≡ view c
      go false o = refl
      go true none = refl
      go true (some pins) = sample_sources-view port pins sources c
