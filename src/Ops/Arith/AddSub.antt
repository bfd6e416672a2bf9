-- ===== src/Ops/Arith/AddSub.antt =====
-- What ADD, ADDC and SUBB leave in the accumulator and in PSW.
use emu_sa80535_n.Base.{ℕ, ◌+◌, ◌*◌, ◌<◌, ◌≡◌, ◌≢◌, arith, ◌||◌, ltb, to_int, refl, ◌∙◌}
use emu_sa80535_n.Base.Bits.{bit}
use emu_sa80535_n.Cpu.{Cpu}
use emu_sa80535_n.Memory.{acc, psw, rx_address}
use emu_sa80535_n.Ops.Flags.{
  add_carry, add_auxcarry, add_overflow, add_solve_flags, sub_carry, sub_auxcarry, sub_overflow,
  sub_solve_flags, store_flags,
}
use emu_sa80535_n.Ops.Flags.Sums.{
  biased, add_carry-eq, add_auxcarry-eq, add_overflow-eq, sub_carry-eq, sub_overflow-eq,
  sub_auxcarry-lt,
}
use emu_sa80535_n.Ops.Flags.Store.{store_flags-bit}
use emu_sa80535_n.Ops.Arith.{add_to_acc, add_rx_to_acc, sub_from_acc}

-- `signed_overflow` of a sum or a difference in biased form.
abbrev pub sum_overflows : ℕ → ℕ → ℕ → ℕ
sum_overflows a b k =
    to_int (ltb (biased a + biased b + k) 128 || ltb 383 (biased a + biased b + k))

abbrev pub difference_overflows : ℕ → ℕ → ℕ → ℕ
difference_overflows a b k =
    to_int (ltb (biased a + 128) (biased b + k) || ltb (biased b + k + 127) (biased a))

pub store_flags-acc : (f g h : ℕ) (c : Cpu) → acc (store_flags f g h c) ≡ acc c
unfolding store_flags
store_flags-acc f g h c = refl

module _ (v k : ℕ) (c : Cpu) (ha : acc c < 256) (hv : v < 256) (hk : k < 2) where
  -- After an addition of the byte `v` and the carry `k`, the accumulator with the carry flag as its
  -- ninth bit is the exact sum, OV says whether the signed sum leaves the range of a byte, and the
  -- bits of PSW other than C, AC and OV are kept.
  pub add_to_acc_lem :
      let d = add_to_acc v k c in
      (acc d + 256 * bit (psw d) 7 ≡ acc c + v + k)
      × (bit (psw d) 2 ≡ sum_overflows (acc c) v k)
      × ((i : ℕ) → i < 8 → i ≢ 7 → i ≢ 6 → i ≢ 2 → bit (psw d) i ≡ bit (psw c) i)
  unfolding add_to_acc add_solve_flags
  add_to_acc_lem =
      let flags = λ (i : ℕ) (lt : i < 8).
        store_flags-bit (add_carry (acc c) v k) (add_auxcarry (acc c) v k)
          (add_overflow (acc c) v k) i c (omega (arith, add_carry-eq (acc c) v k))
          (omega (arith, add_auxcarry-eq (acc c) v k)) (ground (arith, add_overflow-eq (acc c) v k))
          lt in
      (
        ground (
          arith,
          flags 7 (omega arith),
          add_carry-eq (acc c) v k,
          store_flags-acc (add_carry (acc c) v k) (add_auxcarry (acc c) v k)
              (add_overflow (acc c) v k) c,
        ),
        flags 2 (omega arith) ∙ add_overflow-eq (acc c) v k ha hv hk,
        λ i lt n7 n6 n2. ground (arith, flags i lt),
      )

  -- After a subtraction of the byte `v` and the borrow `k`, the carry flag is the borrow of the
  -- exact difference, OV says whether the signed difference leaves the range of a byte, and the
  -- bits of PSW other than C, AC and OV are kept.
  pub sub_from_acc_lem :
      let d = sub_from_acc v k c in
      (acc d + v + k ≡ acc c + 256 * bit (psw d) 7)
      × (bit (psw d) 2 ≡ difference_overflows (acc c) v k)
      × ((i : ℕ) → i < 8 → i ≢ 7 → i ≢ 6 → i ≢ 2 → bit (psw d) i ≡ bit (psw c) i)
  unfolding sub_from_acc sub_solve_flags
  sub_from_acc_lem =
      let flags = λ (i : ℕ) (lt : i < 8).
        store_flags-bit (sub_carry (acc c) v k) (sub_auxcarry (acc c) v k)
          (sub_overflow (acc c) v k) i c (ground (arith, sub_carry-eq (acc c) v k))
          (sub_auxcarry-lt (acc c) v k) (ground (arith, sub_overflow-eq (acc c) v k)) lt in
      (
        ground (
          arith,
          flags 7 (omega arith),
          sub_carry-eq (acc c) v k,
          store_flags-acc (sub_carry (acc c) v k) (sub_auxcarry (acc c) v k)
              (sub_overflow (acc c) v k) c,
        ),
        flags 2 (omega arith) ∙ sub_overflow-eq (acc c) v k ha hv hk,
        λ i lt n7 n6 n2. ground (arith, flags i lt),
      )

flags_comm :
    (a b k : ℕ)
    → (add_carry a b k ≡ add_carry b a k)
      × (add_auxcarry a b k ≡ add_auxcarry b a k)
      × (add_overflow a b k ≡ add_overflow b a k)
unfolding add_carry add_auxcarry add_overflow
flags_comm a b k = (omega arith, omega arith, omega arith)

add_solve_flags_comm : (a b k : ℕ) (c : Cpu) → add_solve_flags a b k c ≡ add_solve_flags b a k c
unfolding add_solve_flags
add_solve_flags_comm a b k c = let (e1, e2, e3) = flags_comm a b k in rw (e1, e2, e3)

-- The register forms of ADD and ADDC, which hand the operands over in the other order, add the same.
pub add_rx_to_acc-add_to_acc :
    (k : ℕ) (c : Cpu) → add_rx_to_acc k c ≡ add_to_acc (c.lower_data (rx_address c)) k c
unfolding add_rx_to_acc add_to_acc
add_rx_to_acc-add_to_acc k c = rw (add_solve_flags_comm (c.lower_data (rx_address c)) (acc c) k c)
