-- ===== src/Base/Bits.antt =====
-- `&`, `|` and `^` read bit by bit, and the laws of masks that follow.
pub mod Step
use Prim.Native.Nat.{ℕ, zero, suc, ◌+◌, ◌-◌, ◌*◌, ◌/◌, ◌%◌, ◌^◌, ◌≤◌, ◌<◌, min, max}
use Prim.Native.Nat.{bit_and, bit_or, bit_xor, bit_and-bitwise}
use mathlib.Core.Path.{◌≡◌, refl, ap, sym, ◌∙◌}
use mathlib.Core.Bool.{Bool, true, false}
use native.Mathlib.Omega.{arith}
use native.Mathlib.Nat.{pow-suc, one-le-pow, div-add-mod', add-mul-mod_self_right, mod-eq_of_lt}
use emu_sa80535_n.Base.Tests.{◌==◌, has, compl, to_int, if◌then◌else◌}
use Step.{bit_and_step, bit_or_step, bit_xor_step, differ_digits}

-- Bit `i` of a number, 0 or 1.
unfoldable pub bit : ℕ → ℕ → ℕ
bit x zero = x % 2
bit x (suc i) = bit (x / 2) i

pub bit-lt : (x i : ℕ) → bit x i < 2
unfolding bit
bit-lt x zero = omega arith
bit-lt x (suc i) = bit-lt (x / 2) i

bit_and-div : (a b : ℕ) → bit_and a b / 2 ≡ bit_and (a / 2) (b / 2)
bit_and-div a b = omega (arith, bit_and_step a b)

bit_or-div : (a b : ℕ) → bit_or a b / 2 ≡ bit_or (a / 2) (b / 2)
bit_or-div a b = omega (arith, bit_or_step a b)

bit_xor-div : (a b : ℕ) → bit_xor a b / 2 ≡ bit_xor (a / 2) (b / 2)
bit_xor-div a b = omega (arith, bit_xor_step a b, differ_digits a b)

pub bit-bit_and : (a b i : ℕ) → bit (bit_and a b) i ≡ min (bit a i) (bit b i)
unfolding bit
bit-bit_and a b zero = omega (arith, bit_and_step a b)
bit-bit_and a b (suc i) = rw bit_and-div (bit-bit_and (a / 2) (b / 2) i)

pub bit-bit_or : (a b i : ℕ) → bit (bit_or a b) i ≡ max (bit a i) (bit b i)
unfolding bit
bit-bit_or a b zero = omega (arith, bit_or_step a b)
bit-bit_or a b (suc i) = rw bit_or-div (bit-bit_or (a / 2) (b / 2) i)

pub bit-bit_xor : (a b i : ℕ) → bit (bit_xor a b) i ≡ (bit a i + bit b i) % 2
unfolding bit
bit-bit_xor a b zero = omega (arith, bit_xor_step a b, differ_digits a b)
bit-bit_xor a b (suc i) = rw bit_xor-div (bit-bit_xor (a / 2) (b / 2) i)

-- Two numbers below `2 ^ k` with the same bits are equal.
pub bit_ext : (k x y : ℕ) → x < 2 ^ k → y < 2 ^ k → ((i : ℕ) → i < k → bit x i ≡ bit y i) → x ≡ y
bit_ext zero x y hx hy h = omega arith
bit_ext (suc k) x y hx hy h =
    let low : x % 2 ≡ y % 2 = unfold bit in h 0 (omega arith) in
    let high : x / 2 ≡ y / 2 =
      bit_ext k (x / 2) (y / 2) (omega (arith, pow-suc 2 k)) (omega (arith, pow-suc 2 k))
        (λ i lt. unfold bit in h (suc i) (omega arith)) in
    omega arith

zero-bit_and : (b : ℕ) → bit_and 0 b ≡ 0
zero-bit_and b = bit_and-bitwise 0 b

bit_and-le_fuel : (n a b : ℕ) → a ≤ n → (bit_and a b ≤ a) × (bit_and a b ≤ b)
bit_and-le_fuel n zero b h = omega (arith, zero-bit_and b)
bit_and-le_fuel zero (suc a) b h = absurd (omega arith)
bit_and-le_fuel (suc n) (suc a) b h =
    omega (arith, bit_and_step (suc a) b, bit_and-le_fuel n (suc a / 2) (b / 2) (omega arith))

-- A conjunction is at most each of its sides.
pub bit_and-le : (a b : ℕ) → (bit_and a b ≤ a) × (bit_and a b ≤ b)
bit_and-le a b = bit_and-le_fuel a a b (omega arith)

pub bit_or-lt : (k a b : ℕ) → a < 2 ^ k → b < 2 ^ k → bit_or a b < 2 ^ k
bit_or-lt zero zero zero h k = omega arith
bit_or-lt zero zero (suc b) h k = absurd (omega arith)
bit_or-lt zero (suc a) b h k = absurd (omega arith)
bit_or-lt (suc k) a b h l = omega (
  arith,
  pow-suc 2 k,
  bit_or_step a b,
  bit_or-lt k (a / 2) (b / 2) (omega (arith, pow-suc 2 k)) (omega (arith, pow-suc 2 k)),
)

pub bit_xor-lt : (k a b : ℕ) → a < 2 ^ k → b < 2 ^ k → bit_xor a b < 2 ^ k
bit_xor-lt zero zero zero h k = omega arith
bit_xor-lt zero zero (suc b) h k = absurd (omega arith)
bit_xor-lt zero (suc a) b h k = absurd (omega arith)
bit_xor-lt (suc k) a b h l = omega (
  arith,
  pow-suc 2 k,
  bit_xor_step a b,
  differ_digits a b,
  bit_xor-lt k (a / 2) (b / 2) (omega (arith, pow-suc 2 k)) (omega (arith, pow-suc 2 k)),
)

pub bit_and-zero : (a : ℕ) → bit_and a 0 ≡ 0
bit_and-zero a = omega (arith, bit_and-le a 0)

-- `k` low ones, by recursion.
ones : ℕ → ℕ
ones zero = 0
ones (suc k) = ones k * 2 + 1

ones-eq : (k : ℕ) → ones k + 1 ≡ 2 ^ k
unfolding ones
ones-eq zero = refl
ones-eq (suc k) = omega (arith, ones-eq k, pow-suc 2 k)

mod-half : (k a : ℕ) → a / 2 % 2 ^ k * 2 + a % 2 ≡ a % 2 ^ suc k
mod-half k a =
    let x = a / 2 % 2 ^ k * 2 + a % 2 in
    let q = a / 2 / 2 ^ k in
    let small : x < 2 ^ suc k = omega (arith, pow-suc 2 k, one-le-pow k 2) in
    let whole : a ≡ x + q * 2 ^ suc k =
      omega (arith, div-add-mod' (a / 2) (2 ^ k), ap (λ (t : ℕ). q * t) (pow-suc 2 k)) in
    sym (
      ap (λ (t : ℕ). t % 2 ^ suc k) whole
      ∙ add-mul-mod_self_right x q (2 ^ suc k)
      ∙ mod-eq_of_lt small)

bit_and-ones : (k a : ℕ) → bit_and a (ones k) ≡ a % 2 ^ k
unfolding ones
bit_and-ones zero a = omega (arith, bit_and-zero a)
bit_and-ones (suc k) a =
    let half : (ones k * 2 + 1) / 2 ≡ ones k = omega arith in
    rw (bit_and_step a (ones k * 2 + 1), half, bit_and-ones k (a / 2)) (omega (arith, mod-half k a))

-- A mask of `k` low ones is the remainder by `2 ^ k`.
pub bit_and_mask : (k a : ℕ) → bit_and a (2 ^ k - 1) ≡ a % 2 ^ k
bit_and_mask k a = let e : 2 ^ k - 1 ≡ ones k = omega (arith, ones-eq k) in rw e (bit_and-ones k a)

-- Testing one bit by a mask.
bit_and-pow : (k a : ℕ) → bit_and a (2 ^ k) ≡ bit a k * 2 ^ k
unfolding bit
bit_and-pow zero a = omega (arith, bit_and_step a 1, bit_and-zero (a / 2))
bit_and-pow (suc k) a =
    let half : 2 ^ suc k / 2 ≡ 2 ^ k = omega (arith, pow-suc 2 k) in
    rw (bit_and_step a (2 ^ suc k), half, bit_and-pow k (a / 2))
      (omega (arith, pow-suc 2 k, ap (λ (t : ℕ). bit (a / 2) k * t) (pow-suc 2 k)))

pub has_pow : (k a : ℕ) → has a (2 ^ k) ≡ (bit a k == 1)
has_pow k a = ground (arith, bit_and-pow k a, bit-lt a k, one-le-pow k 2)

zero-bit : (i : ℕ) → bit 0 i ≡ 0
unfolding bit
zero-bit zero = refl
zero-bit (suc i) = zero-bit i

pub bit_pow : (k i : ℕ) → bit (2 ^ k) i ≡ to_int (i == k)
unfolding bit
bit_pow zero zero = refl
bit_pow zero (suc i) = ground (arith, zero-bit i)
bit_pow (suc k) zero = ground (arith, pow-suc 2 k)
bit_pow (suc k) (suc i) =
    let e : 2 ^ suc k / 2 ≡ 2 ^ k = omega (arith, pow-suc 2 k) in rw e (ground (arith, bit_pow k i))

-- The bits of a complement.
pub bit-compl : (k x i : ℕ) → x < 2 ^ k → i < k → bit (2 ^ k - 1 - x) i ≡ 1 - bit x i
unfolding bit
bit-compl zero x i h lt = absurd (omega arith)
bit-compl (suc k) x zero h lt = omega (arith, pow-suc 2 k)
bit-compl (suc k) x (suc i) h lt =
    let e : (2 ^ suc k - 1 - x) / 2 ≡ 2 ^ k - 1 - x / 2 = omega (arith, pow-suc 2 k) in
    rw e (bit-compl k (x / 2) i (omega (arith, pow-suc 2 k)) (omega arith))

-- One flag shifted into place.
pub bit_flag : (x k i : ℕ) → x < 2 → bit (x * 2 ^ k) i ≡ (if i == k then x else 0)
bit_flag zero k i h = ground (arith, zero-bit i)
bit_flag (suc zero) k i h =
    let e : 1 * 2 ^ k ≡ 2 ^ k = omega arith in rw e (ground (arith, bit_pow k i))
bit_flag (suc (suc x)) k i h = absurd (omega arith)

-- Reading one flag by a mask and a shift.
pub flag_at : (k x : ℕ) → bit_and x (2 ^ k) / 2 ^ k ≡ bit x k
flag_at k x =
    rw (bit_and-pow k x) (mul-div_cancel_pow (bit x k) (2 ^ k) (one-le-pow k 2 (omega arith)))
  where
    mul-div_cancel_pow : (a m : ℕ) → 1 ≤ m → a * m / m ≡ a
    mul-div_cancel_pow a m h = grind arith

-- A byte has no bit from the eighth on.
pub bit_high : (k x i : ℕ) → x < 2 ^ k → k ≤ i → bit x i ≡ 0
unfolding bit
bit_high zero zero i h le = zero-bit i
bit_high zero (suc x) i h le = absurd (omega arith)
bit_high (suc k) x zero h le = absurd (omega arith)
bit_high (suc k) x (suc i) h le = bit_high k (x / 2) i (omega (arith, pow-suc 2 k)) (omega arith)

zero-bit_or_fuel : (n b : ℕ) → b ≤ n → bit_or 0 b ≡ b
zero-bit_or_fuel n zero h = refl
zero-bit_or_fuel zero (suc b) h = absurd (omega arith)
zero-bit_or_fuel (suc n) (suc b) h =
    omega (arith, bit_or_step 0 (suc b), zero-bit_or_fuel n (suc b / 2) (omega arith))

-- A disjunction with what lies above the `k` low bits is a sum.
pub bit_or-above : (k a b : ℕ) → a < 2 ^ k → bit_or a (b * 2 ^ k) ≡ a + b * 2 ^ k
bit_or-above zero zero b h =
    let e : b * 2 ^ zero ≡ b = omega arith in
    rw (e, zero-bit_or_fuel b b (omega arith)) (omega arith)
bit_or-above zero (suc a) b h = absurd (omega arith)
bit_or-above (suc k) a b h =
    let e : b * 2 ^ suc k ≡ b * 2 ^ k * 2 = omega (arith, ap (λ (t : ℕ). b * t) (pow-suc 2 k)) in
    let half : b * 2 ^ k * 2 / 2 ≡ b * 2 ^ k = omega arith in
    rw
      (
        e,
        bit_or_step a (b * 2 ^ k * 2),
        half,
        bit_or-above k (a / 2) b (omega (arith, pow-suc 2 k)),
      )
      (omega arith)

pub bit_or_comm : (k a b : ℕ) → a < 2 ^ k → b < 2 ^ k → bit_or a b ≡ bit_or b a
bit_or_comm k a b ha hb =
    bit_ext k (bit_or a b) (bit_or b a) (bit_or-lt k a b ha hb) (bit_or-lt k b a hb ha)
      (λ i lt. omega (arith, bit-bit_or a b i, bit-bit_or b a i))

-- `(x << n) | y`, which is a sum where `y` fits below.
pub bit_or-join :
    (n x y : ℕ) → x * 2 ^ n < 2 ^ 16 → y < 2 ^ 16 → y < 2 ^ n → bit_or (x * 2 ^ n) y ≡ x * 2 ^ n + y
bit_or-join n x y hx hy h =
    rw (bit_or_comm 16 (x * 2 ^ n) y hx hy, bit_or-above n y x h) (omega arith)
