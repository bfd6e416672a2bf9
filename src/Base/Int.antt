-- ===== src/Base/Int.antt =====
-- Signed integers over the native numbers, and their order.
use Prim.Native.Nat.{ℕ, suc, ◌+◌, ◌-◌, ◌%◌, ◌^◌, compare, Ordering}
use emu_sa80535_n.Base.Tests.{leb, if◌then◌else◌}

-- `negsuc n` is -(n + 1).
pub data ℤ : Type 0 where
  pos : ℕ → ℤ
  negsuc : ℕ → ℤ

abbrev pub pos_part : ℤ → ℕ
pos_part (pos n) = n
pos_part (negsuc n) = 0

abbrev pub neg_part : ℤ → ℕ
neg_part (pos n) = 0
neg_part (negsuc n) = suc n

-- The order of two integers.
abbrev pub compare_ℤ : ℤ → ℤ → Ordering
compare_ℤ a b = compare (pos_part a + neg_part b) (pos_part b + neg_part a)

-- The integer that the low `k + 1` bits of a word stand for, in two's complement.
abbrev pub signed : ℕ → ℕ → ℤ
signed k x =
    let low = x % 2 ^ suc k in if leb (2 ^ k) low then negsuc (2 ^ suc k - low - 1) else pos low
