-- ===== src/Base/Bits/Step.antt =====
-- The native operations on bits, by their lowest digit.
use Prim.Native.Nat.{ℕ, zero, suc, ◌+◌, ◌*◌, ◌/◌, ◌%◌, ◌≤◌, ◌<◌, min, max, differ}
use Prim.Native.Nat.{bit_and, bit_or, bit_xor, digits, bitwise}
use Prim.Native.Nat.{bit_and-bitwise, bit_or-bitwise, bit_xor-bitwise}
use mathlib.Core.Path.{◌≡◌, refl, ap, sym, ◌∙◌}
use native.Mathlib.Omega.{arith}

-- An operation that is given on the bits by `f`, and by `rest` where the left side is used up.
module _ (rest : ℕ → ℕ) (f : ℕ → ℕ → ℕ) where
  -- Any fuel that covers the left side does as well as the left side itself.
  spare_fuel :
      (limit fuel a b : ℕ) → a ≤ limit → a ≤ fuel → digits rest f fuel a b ≡ bitwise rest f a b
  spare_fuel limit zero zero b below covers = refl
  spare_fuel limit (suc fuel) zero b below covers = refl
  spare_fuel limit zero (suc a) b below covers = absurd (omega arith)
  spare_fuel zero (suc fuel) (suc a) b below covers = absurd (omega arith)
  spare_fuel (suc limit) (suc fuel) (suc a) b below covers =
      let upper = suc a / 2 in
      let given = spare_fuel limit fuel upper (b / 2) (omega arith) (omega arith) in
      let own = spare_fuel limit a upper (b / 2) (omega arith) (omega arith) in
      ap (λ high. high * 2 + f (suc a % 2) (b % 2)) (given ∙ sym own)

  module _ (op : ℕ → ℕ → ℕ) (meaning : (a b : ℕ) → op a b ≡ bitwise rest f a b) where
    lowest_digit :
        ((b : ℕ) → rest b ≡ rest (b / 2) * 2 + f 0 (b % 2))
        → (a b : ℕ) → op a b ≡ op (a / 2) (b / 2) * 2 + f (a % 2) (b % 2)
    lowest_digit ended zero b = omega (arith, meaning 0 b, meaning 0 (b / 2), ended b)
    lowest_digit ended (suc a) b =
        let upper = suc a / 2 in
        let own = spare_fuel a a upper (b / 2) (omega arith) (omega arith) in
        meaning (suc a) b
        ∙ ap (λ high. high * 2 + f (suc a % 2) (b % 2)) (own ∙ sym (meaning upper (b / 2)))

pub bit_and_step : (x y : ℕ) → bit_and x y ≡ bit_and (x / 2) (y / 2) * 2 + min (x % 2) (y % 2)
bit_and_step = lowest_digit (λ _. 0) min bit_and (λ x y. bit_and-bitwise x y) (λ y. omega arith)

pub bit_or_step : (x y : ℕ) → bit_or x y ≡ bit_or (x / 2) (y / 2) * 2 + max (x % 2) (y % 2)
bit_or_step = lowest_digit (λ y. y) max bit_or (λ x y. bit_or-bitwise x y) (λ y. omega arith)

zero-differ : (d : ℕ) → d < 2 → differ 0 d ≡ d
zero-differ zero h = refl
zero-differ (suc zero) h = refl
zero-differ (suc (suc d)) h = absurd (omega arith)

pub bit_xor_step : (x y : ℕ) → bit_xor x y ≡ bit_xor (x / 2) (y / 2) * 2 + differ (x % 2) (y % 2)
bit_xor_step =
    lowest_digit (λ y. y) differ bit_xor (λ x y. bit_xor-bitwise x y)
      (λ y. omega (arith, zero-differ (y % 2)))

-- On two digits, exclusive or is the sum modulo 2.
differ_sum : (x y : ℕ) → x < 2 → y < 2 → differ x y ≡ (x + y) % 2
differ_sum zero y h k = omega (arith, zero-differ y k)
differ_sum (suc zero) zero h k = refl
differ_sum (suc zero) (suc zero) h k = refl
differ_sum (suc zero) (suc (suc y)) h k = absurd (omega arith)
differ_sum (suc (suc x)) y h k = absurd (omega arith)

pub differ_digits : (x y : ℕ) → differ (x % 2) (y % 2) ≡ (x + y) % 2
differ_digits x y = differ_sum (x % 2) (y % 2) (omega arith) (omega arith) ∙ omega arith
