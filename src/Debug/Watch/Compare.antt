-- ===== src/Debug/Watch/Compare.antt =====
-- The comparisons of watch conditions are those of the integers that the words stand for.
use Prim.Native.Nat.{compare}
use emu_sa80535_n.Base.{
  ℕ, zero, suc, ◌+◌, ◌-◌, ◌*◌, ◌/◌, ◌%◌, ◌^◌, ◌<◌, ◌≡◌, ◌≢◌, ◌∙◌, ◌⊎◌, inl, inr, ◌||◌, refl, ap,
  sym, subst, ==_iff, Bool, true, false, not, bit_and, ltb, leb, ◌==◌, if◌then◌else◌, has, arith,
}
use native.Mathlib.Nat.{pow-suc, one-le-pow}
use emu_sa80535_n.Base.Bits.{bit, has_pow, bit_and_mask}
use emu_sa80535_n.Base.Int.{ℤ, pos, pos_part, neg_part, compare_ℤ, signed}
use emu_sa80535_n.Debug.Event.{Value, Condition}
use emu_sa80535_n.Debug.Watch.{
  value_width_valid, width_mask, compare_ordering, compare_holds, compare_value,
}

top_bit : (k x : ℕ) → x < 2 ^ suc k → (bit x k == 1) ≡ leb (2 ^ k) x
unfolding bit
top_bit zero x h = ground arith
top_bit (suc k) x h =
    let below : x / 2 < 2 ^ suc k = omega (arith, pow-suc 2 (suc k)) in
    top_bit k (x / 2) below ∙ ground (arith, pow-suc 2 k)

low-lt : (k x : ℕ) → x % 2 ^ suc k < 2 ^ suc k
low-lt k x = grind (arith, one-le-pow (suc k) 2)

-- The sign bit of a word of `k + 1` bits.
has_sign : (k x : ℕ) → has (x % 2 ^ suc k) (1 * 2 ^ k) ≡ leb (2 ^ k) (x % 2 ^ suc k)
has_sign k x =
    let one : 1 * 2 ^ k ≡ 2 ^ k = omega arith in
    rw one (has_pow k (x % 2 ^ suc k) ∙ top_bit k (x % 2 ^ suc k) (low-lt k x))

ordering_signed :
    (s k x y : ℕ)
    → s ≢ 0
    → compare_ordering s (suc k) (x % 2 ^ suc k) (y % 2 ^ suc k)
      ≡ compare_ℤ (signed k x) (signed k y)
unfolding compare_ordering
ordering_signed s k x y ne =
    let power : suc k - 1 ≡ k = omega arith in
    let low_x = low-lt k x in
    let low_y = low-lt k y in rw (power, has_sign k x, has_sign k y) (ground arith)

width_cases :
    (w : ℕ) → value_width_valid w ≡ true → (w ≡ 1) ⊎ (w ≡ 8) ⊎ (w ≡ 16) ⊎ (w ≡ 32) ⊎ (w ≡ 64)
unfolding value_width_valid
width_cases w h = ground arith

width_mask-power :
    (w : ℕ) → value_width_valid w ≡ true → (width_mask w ≡ 2 ^ w - 1) × (w ≡ suc (w - 1))
unfolding width_mask
width_mask-power w h = elim (width_cases w h) [
  | inl e ↦ rw e (omega arith)
  | inr (inl e) ↦ rw e (omega arith)
  | inr (inr (inl e)) ↦ rw e (omega arith)
  | inr (inr (inr (inl e))) ↦ rw e (omega arith)
  | inr (inr (inr (inr e))) ↦ rw e (omega arith)
]

-- The integer that a word of `width` bits stands for.
abbrev pub meaning : ℕ → ℕ → ℕ → ℤ
meaning is_signed width x = if is_signed == 0 then pos (x % 2 ^ width) else signed (width - 1) x

-- The six relations between integers, by the number of the comparison.
abbrev pub related : ℕ → ℤ → ℤ → Bool
related comparison a b =
    let left = pos_part a + neg_part b in
    let right = pos_part b + neg_part a in
    if comparison == 0
    then left == right
    else if comparison == 1
    then not (left == right)
    else if comparison == 2
    then ltb left right
    else if comparison == 3
    then leb left right
    else if comparison == 4
    then ltb right left
    else if comparison == 5
    then leb right left
    else false

holds-related :
    (comparison : ℕ) (a b : ℤ) → compare_holds comparison (compare_ℤ a b) ≡ related comparison a b
unfolding compare_holds
holds-related comparison a b = ground arith

ordering-eq_zero : (w x y : ℕ) → compare_ordering 0 w x y ≡ compare x y
unfolding compare_ordering
ordering-eq_zero w x y = refl

ordering_word :
    (s k x y : ℕ)
    → compare_ordering s (suc k) (x % 2 ^ suc k) (y % 2 ^ suc k)
      ≡ compare_ℤ (meaning s (suc k) x) (meaning s (suc k) y)
ordering_word zero k x y = ordering-eq_zero (suc k) (x % 2 ^ suc k) (y % 2 ^ suc k) ∙ ground arith
ordering_word (suc s) k x y =
    let power : suc k - 1 ≡ k = omega arith in
    let signs : (suc s == 0) ≡ false = ground arith in
    rw (power, signs) (ordering_signed (suc s) k x y (λ e. absurd (omega arith)))

ordering-meaning :
    (s w x y : ℕ)
    → value_width_valid w ≡ true
    → compare_ordering s w (bit_and x (width_mask w)) (bit_and y (width_mask w))
      ≡ compare_ℤ (meaning s w x) (meaning s w y)
ordering-meaning s w x y valid =
    let mask = width_mask-power w valid in
    let low_x : bit_and x (width_mask w) ≡ x % 2 ^ w = rw mask.0 (bit_and_mask w x) in
    let low_y : bit_and y (width_mask w) ≡ y % 2 ^ w = rw mask.0 (bit_and_mask w y) in
    rw (low_x, low_y)
      (subst
        (λ v.
          compare_ordering s v (x % 2 ^ v) (y % 2 ^ v) ≡ compare_ℤ (meaning s v x) (meaning s v y))
        (sym mask.1) (ordering_word s (w - 1) x y))

guards :
    (a b c x y : Bool)
    → (b ≡ true → x ≡ y)
    → (if a || (not b || not c) then false else x)
      ≡ (if a then false else if not b then false else if not c then false else y)
guards true b c x y h = refl
guards false false c x y h = refl
guards false true false x y h = refl
guards false true true x y h = h refl

masked :
    (s w w' x y comparison : ℕ)
    → w ≡ w'
    → value_width_valid w' ≡ true
    → compare_holds comparison
        (compare_ordering s w (bit_and x (width_mask w)) (bit_and y (width_mask w)))
      ≡ related comparison (meaning s w' x) (meaning s w' y)
masked s w w' x y comparison e valid = rw e (
    ap (compare_holds comparison) (ordering-meaning s w' x y valid)
    ∙ holds-related comparison (meaning s w' x) (meaning s w' y))

-- A value meets a condition of a valid width exactly where it is known, has the width and the sign
-- of the condition, and the two words stand for integers in the relation that the comparison names:
-- equal, unequal, less, at most, greater or at least; no other number of a comparison is met.
pub compare_value_lem :
    (v : Value) (c : Condition)
    → value_width_valid c.width ≡ true
    → compare_value v c ≡ (
        if v.known == 0
        then false
        else if not (v.width == c.width)
        then false
        else if not (v.is_signed == c.is_signed)
        then false
        else related c.comparison
            (meaning c.is_signed c.width v.value)
            (meaning c.is_signed c.width c.constant))
unfolding compare_value
compare_value_lem v c valid =
    guards (v.known == 0) (v.width == c.width) (v.is_signed == c.is_signed) _ _ (λ e.
      masked c.is_signed v.width c.width v.value c.constant c.comparison
        ((==_iff v.width c.width).0 e) valid)
