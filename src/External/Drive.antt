-- ===== src/External/Drive.antt =====
-- Driving and releasing the pins of a port from outside.
use emu_sa80535_n.Base.{
  ℕ, ◌-◌, ◌<◌, ◌≡◌, Bool, true, false, Option, none, some, arith, ◌==◌, if◌then◌else◌, refl, sym,
  ap, ◌∙◌, update, update_self, bit_and, bit_or, compl, min, max,
}
use emu_sa80535_n.Base.Bits.{bit, bit-bit_and, bit-bit_or, bit-compl, bit-lt, bit_or-lt, bit_and-le}
use emu_sa80535_n.Cpu.{Cpu, Host, Ports, is_sab}
use emu_sa80535_n.Cpu.Regs.{sfr_index, sfr_p1, sfr_p3, sfr_p4, sfr_p5}
use emu_sa80535_n.Pins.{port_index, port_get_pins, resolve}
use emu_sa80535_n.External.{port_drive, port_release, external_sample_port}
use emu_sa80535_n.External.Frame.{View, view, external_sample_port-view}

-- The pins that a view shows: those of each port of a SAB80535.
pins_of : View → ℕ → Option ℕ
pins_of v port =
    let (machine, _, (mask, levels), (p1, p3, p4, p5)) = v in
    if is_sab machine.0
    then if port == sfr_p1
      then some (resolve p1 (mask 0) (levels 0))
      else if port == sfr_p3
      then some (resolve p3 (mask 1) (levels 1))
      else if port == sfr_p4
      then some (resolve p4 (mask 2) (levels 2))
      else if port == sfr_p5
      then some (resolve p5 (mask 3) (levels 3))
      else none
    else none

port_get_pins-pins_of : (c : Cpu) (port : ℕ) → port_get_pins c port ≡ pins_of (view c) port
unfolding port_get_pins pins_of
port_get_pins-pins_of c port = ground arith

resolve-bit :
    (latch mask levels k : ℕ)
    → mask < 256
    → k < 8
    → bit (resolve latch mask levels) k ≡ min (bit latch k) (max (1 - bit mask k) (bit levels k))
resolve-bit latch mask levels k h lt = omega (
  arith,
  bit-bit_and latch (bit_or (compl mask) levels) k,
  bit-bit_or (compl mask) levels k,
  bit-compl 8 mask k h lt,
)

-- A pin that is driven is the wired AND of its latch and the level, the others are as before.
driven-bit :
    (latch m l mask levels k : ℕ)
    → m < 256
    → mask < 256
    → k < 8
    → bit (resolve latch (bit_or m mask) (bit_or (bit_and l (compl mask)) (bit_and levels mask))) k
      ≡ (if bit mask k == 1 then min (bit latch k) (bit levels k) else bit (resolve latch m l) k)
driven-bit latch m l mask levels k hm hmask lt = ground (
  arith,
  resolve-bit latch (bit_or m mask) (bit_or (bit_and l (compl mask)) (bit_and levels mask)) k
      (bit_or-lt 8 m mask hm hmask) lt,
  resolve-bit latch m l k hm lt,
  bit-bit_or m mask k,
  bit-bit_or (bit_and l (compl mask)) (bit_and levels mask) k,
  bit-bit_and l (compl mask) k,
  bit-bit_and levels mask k,
  bit-compl 8 mask k hmask lt,
  bit-lt mask k,
  bit-lt m k,
  bit-lt l k,
  bit-lt levels k,
  bit-lt latch k,
)

-- Sampling a port leaves the pins of every port as they are.
external_sample_port-pins :
    (host : Host) (sampled port : ℕ) (c : Cpu)
    → port_get_pins (external_sample_port host sampled c) port ≡ port_get_pins c port
external_sample_port-pins host sampled port c =
    port_get_pins-pins_of (external_sample_port host sampled c) port
    ∙ ap (λ (v : View). pins_of v port) (external_sample_port-view host sampled c)
    ∙ sym (port_get_pins-pins_of c port)

-- The pins of a state in which other drivers and levels stand at one index.
unfoldable pub with_drivers : ℕ → ℕ → ℕ → Cpu → Cpu
with_drivers index mask levels c =
    let p : Ports = c.ports in
    record c {
      ports = record p {
        external_levels = update p.external_levels index levels;
        external_mask = update p.external_mask index mask;
      };
    }

pins_at : Cpu → ℕ → Option ℕ → Option ℕ
pins_at c port o = elim o [
  | none ↦ none
  | some index ↦ some (
      resolve (c.sfr (sfr_index port)) (c.ports.external_mask index)
        (c.ports.external_levels index))
]

port_get_pins-at :
    (c : Cpu) (port index : ℕ)
    → port_index c port ≡ some index
    → port_get_pins c port
      ≡ some (
          resolve
            (c.sfr (sfr_index port))
            (c.ports.external_mask index)
            (c.ports.external_levels index))
unfolding port_get_pins pins_at
port_get_pins-at c port index e = ap (λ o. pins_at c port o) e

with_drivers-pins :
    (host : Host) (c : Cpu) (port index mask levels : ℕ)
    → port_index c port ≡ some index
    → port_get_pins (external_sample_port host port (with_drivers index mask levels c)) port
      ≡ some (resolve (c.sfr (sfr_index port)) mask levels)
unfolding with_drivers port_index
with_drivers-pins host c port index mask levels e =
    external_sample_port-pins host port port (with_drivers index mask levels c)
    ∙ port_get_pins-at (with_drivers index mask levels c) port index e
    ∙ rw
        (
          update_self c.ports.external_mask index mask,
          update_self c.ports.external_levels index levels,
        )
        refl

module _ (host : Host) (c : Cpu) (port index mask : ℕ)
    (valid : port_index c port ≡ some index) where
  pub port_drive-at :
      (levels : ℕ)
      → port_drive host port mask levels c ≡ (
        true,
        external_sample_port host port (
            with_drivers index
              (bit_or (c.ports.external_mask index) mask)
              (bit_or (bit_and (c.ports.external_levels index) (compl mask)) (bit_and levels mask))
              c),
      )
  unfolding port_drive with_drivers
  port_drive-at levels =
      ap
        (λ (o : Option ℕ). elim o as (λ _. Bool × Cpu) [
          | none ↦ (false, c)
          | some i ↦ (
            true,
            external_sample_port host port (
                with_drivers i (bit_or (c.ports.external_mask i) mask)
                  (bit_or (bit_and (c.ports.external_levels i) (compl mask)) (bit_and levels mask))
                  c),
          )
        ])
        valid

  pub port_release-at : port_release host port mask c ≡ (
    true,
    external_sample_port host port (
        with_drivers index
          (bit_and (c.ports.external_mask index) (compl mask))
          (bit_and (c.ports.external_levels index) (compl mask))
          c),
  )
  unfolding port_release with_drivers
  port_release-at =
      ap
        (λ (o : Option ℕ). elim o as (λ _. Bool × Cpu) [
          | none ↦ (false, c)
          | some i ↦ (
            true,
            external_sample_port host port (
                with_drivers i (bit_and (c.ports.external_mask i) (compl mask))
                  (bit_and (c.ports.external_levels i) (compl mask)) c),
          )
        ])
        valid

released-bit :
    (latch m l mask k : ℕ)
    → m < 256
    → mask < 256
    → k < 8
    → bit (resolve latch (bit_and m (compl mask)) (bit_and l (compl mask))) k
      ≡ (if bit mask k == 1 then bit latch k else bit (resolve latch m l) k)
released-bit latch m l mask k hm hmask lt = ground (
  arith,
  resolve-bit latch (bit_and m (compl mask)) (bit_and l (compl mask)) k
      (omega (arith, bit_and-le m (compl mask))) lt,
  resolve-bit latch m l k hm lt,
  bit-bit_and m (compl mask) k,
  bit-bit_and l (compl mask) k,
  bit-compl 8 mask k hmask lt,
  bit-lt mask k,
  bit-lt m k,
  bit-lt l k,
  bit-lt latch k,
)

some-inj : {a b : ℕ} → (some a ≡ some b) → a ≡ b
some-inj {a} {b} e = ap (λ (o : Option ℕ). elim o as (λ _. ℕ) [ none ↦ a | some x ↦ x ]) e

module _ (host : Host) (c : Cpu) (port index mask before : ℕ)
    (valid : port_index c port ≡ some index) (pins : port_get_pins c port ≡ some before)
    (drivers : c.ports.external_mask index < 256) (byte : mask < 256) where
  before-eq :
      before
      ≡ resolve
          (c.sfr (sfr_index port))
          (c.ports.external_mask index)
          (c.ports.external_levels index)
  before-eq = some-inj (sym pins ∙ port_get_pins-at c port index valid)

  -- After a drive, each pin that is named in the mask is the AND of the port's latch and the level
  -- that is driven, and each other pin is as before.
  pub port_drive-pins :
      (levels : ℕ)
      → let (done, d) = port_drive host port mask levels c in
        (done ≡ true)
        × (after : ℕ) × (port_get_pins d port ≡ some after)
        × ((k : ℕ)
            → k < 8
            → bit after k ≡ (
                if bit mask k == 1
                then min (bit (c.sfr (sfr_index port)) k) (bit levels k)
                else bit before k))
  port_drive-pins levels = rw (port_drive-at host c port index mask valid levels) (
    refl,
    resolve (c.sfr (sfr_index port)) (bit_or (c.ports.external_mask index) mask)
        (bit_or (bit_and (c.ports.external_levels index) (compl mask)) (bit_and levels mask)),
    with_drivers-pins host c port index (bit_or (c.ports.external_mask index) mask)
        (bit_or (bit_and (c.ports.external_levels index) (compl mask)) (bit_and levels mask)) valid,
    λ k lt. rw before-eq (
        driven-bit (c.sfr (sfr_index port)) (c.ports.external_mask index)
          (c.ports.external_levels index) mask levels k drivers byte lt),
  )

  -- After a release, each pin that is named in the mask shows the port's latch, and each other pin
  -- is as before.
  pub port_release-pins :
      let (done, d) = port_release host port mask c in
      (done ≡ true)
      × (after : ℕ) × (port_get_pins d port ≡ some after)
      × ((k : ℕ)
          → k < 8
          → bit after k
            ≡ (if bit mask k == 1 then bit (c.sfr (sfr_index port)) k else bit before k))
  port_release-pins = rw (port_release-at host c port index mask valid) (
    refl,
    resolve (c.sfr (sfr_index port)) (bit_and (c.ports.external_mask index) (compl mask))
        (bit_and (c.ports.external_levels index) (compl mask)),
    with_drivers-pins host c port index (bit_and (c.ports.external_mask index) (compl mask))
        (bit_and (c.ports.external_levels index) (compl mask)) valid,
    λ k lt. rw before-eq (
        released-bit (c.sfr (sfr_index port)) (c.ports.external_mask index)
          (c.ports.external_levels index) mask k drivers byte lt),
  )
