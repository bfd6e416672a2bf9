-- ===== src/Adc/Convert.antt =====
-- The value of a conversion and the references it needs.
use emu_sa80535_n.Base.{
  ℕ, ◌+◌, ◌-◌, ◌*◌, ◌/◌, ◌%◌, ◌^◌, ◌≤◌, ◌<◌, ◌≡◌, true, if◌then◌else◌, arith, bit_and, u8, u32, ltb,
  leb, refl, ◌∙◌, ap, sym, Bool-cases, inl, inr,
}
use native.Mathlib.Nat.{div-lt_iff_lt-mul}
use emu_sa80535_n.Base.Bits.{bit_and_mask}
use emu_sa80535_n.Adc.{adc_references_valid, adc_convert, upper_reference}

-- The references lie at least four sixteenths apart exactly where the check accepts them.
pub adc_references_valid_lem :
    (dapr : ℕ) → dapr < 256 → adc_references_valid dapr ≡ leb (dapr % 16 + 4) (upper_reference dapr)
unfolding adc_references_valid
adc_references_valid_lem dapr h = ground (arith, bit_and_mask 4 dapr)

leb-le : (a b : ℕ) → leb a b ≡ true → a ≤ b
leb-le a b h = ground arith

quotient_bound : (n d : ℕ) → n < d → 0 < d → n * 256 / d < 256
quotient_bound n d h pos = (div-lt_iff_lt-mul {k = d} {x = n * 256} {y = 256} pos).1 (omega arith)

-- The body of `adc_convert` on the two references.
convert_between : ℕ → ℕ → ℕ → ℕ
convert_between input lower upper =
    let scaled_input = u32 (16 * input) in
    let lower_endpoint = u32 (65535 * lower) in
    let upper_endpoint = u32 (65535 * upper) in
    let numerator = u32 ((scaled_input - lower_endpoint) * 256) in
    let denominator = u32 (65535 * (upper - lower)) in
    let result = numerator / denominator in
    if leb scaled_input lower_endpoint
    then 0
    else if leb upper_endpoint scaled_input
    then 0xff
    else u8 (if ltb 0xff result then 0xff else result)

convert_between_lem :
    (input lower upper : ℕ)
    → input < 2 ^ 16
    → upper ≤ 16
    → lower + 4 ≤ upper
    → convert_between input lower upper ≡ (
        if leb (16 * input) (65535 * lower)
        then 0
        else if leb (65535 * upper) (16 * input)
        then 255
        else (16 * input - 65535 * lower) * 256 / (65535 * upper - 65535 * lower))
unfolding convert_between
convert_between_lem input lower upper hi hu apart =
    let s : u32 (16 * input) ≡ 16 * input = omega arith in
    let l : u32 (65535 * lower) ≡ 65535 * lower = omega arith in
    let u : u32 (65535 * upper) ≡ 65535 * upper = omega arith in
    let n : u32 ((16 * input - 65535 * lower) * 256) ≡ (16 * input - 65535 * lower) * 256 =
      omega arith in
    let d : u32 (65535 * (upper - lower)) ≡ 65535 * upper - 65535 * lower = omega arith in
    rw (s, l, u, n, d)
      (elim (Bool-cases (leb (16 * input) (65535 * lower))) [
        | inl below ↦ rw below refl
        | inr above ↦ elim (Bool-cases (leb (65535 * upper) (16 * input))) [
          | inl over ↦ rw (above, over) refl
          | inr under ↦
              let q =
                quotient_bound (16 * input - 65535 * lower) (65535 * upper - 65535 * lower)
                  (ground arith) (omega arith) in
              rw (above, under) (ground (arith, q))
        ]
      ])

upper_reference-le : (dapr : ℕ) → dapr < 256 → upper_reference dapr ≤ 16
upper_reference-le dapr h = ground arith

-- Between valid references the result is the input's place between them in 256 steps, rounded down
-- and clamped at both ends: no product wraps, and the quotient needs no clamp of its own.
pub adc_convert_lem :
    (input dapr : ℕ)
    → input < 2 ^ 16
    → dapr < 256
    → adc_references_valid dapr ≡ true
    → let lower = 65535 * (dapr % 16) in
      let upper = 65535 * upper_reference dapr in
      adc_convert input dapr ≡ (
        if leb (16 * input) lower
        then 0
        else if leb upper (16 * input)
        then 255
        else (16 * input - lower) * 256 / (upper - lower))
unfolding adc_convert convert_between
adc_convert_lem input dapr hi hd valid =
    let lower : bit_and dapr 0x0f ≡ dapr % 16 = omega (arith, bit_and_mask 4 dapr) in
    let apart : dapr % 16 + 4 ≤ upper_reference dapr =
      leb-le (dapr % 16 + 4) (upper_reference dapr)
        (sym (adc_references_valid_lem dapr hd) ∙ valid) in
    ap (λ l. convert_between input l (upper_reference dapr)) lower
    ∙ convert_between_lem input (dapr % 16) (upper_reference dapr) hi (upper_reference-le dapr hd)
        apart
