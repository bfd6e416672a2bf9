-- ===== src/Sha/Words.antt =====
-- The rotations and the words of a block of `sha256_transform`, against the standard
-- (emu_sha_internal.c).
use emu_sa80535_n.Base.{
  ℕ, zero, suc, ◌+◌, ◌-◌, ◌*◌, ◌/◌, ◌%◌, ◌^◌, ◌<◌, ◌≡◌, List, u32, bit_or, update, update_ne,
  update_self, refl, ap, ◌∙◌, arith, ◌==◌, if_either,
}
use emu_sa80535_n.Base.Bits.{bit_or-above, bit_or_comm}
use emu_sa80535_n.Base.Tables.{values}
use emu_sa80535_n.Sha.{rotate_right, load_words, entry}
use emu_sa80535_n.Sha.Standard.{rotr, block_word}

rotate_right-rotr :
    (n v : ℕ)
    → v / 2 ^ n < 2 ^ (32 - n)
    → u32 (v * 2 ^ (32 - n)) ≡ v % 2 ^ n * 2 ^ (32 - n)
    → rotate_right v n ≡ rotr n v
unfolding rotate_right
rotate_right-rotr n v h e = rw e (bit_or-above (32 - n) (v / 2 ^ n) (v % 2 ^ n) h)

pub rotate_2 : (v : ℕ) → v < 2 ^ 32 → rotate_right v 2 ≡ rotr 2 v
rotate_2 v h = rotate_right-rotr 2 v (omega arith) (omega arith)

pub rotate_6 : (v : ℕ) → v < 2 ^ 32 → rotate_right v 6 ≡ rotr 6 v
rotate_6 v h = rotate_right-rotr 6 v (omega arith) (omega arith)

pub rotate_7 : (v : ℕ) → v < 2 ^ 32 → rotate_right v 7 ≡ rotr 7 v
rotate_7 v h = rotate_right-rotr 7 v (omega arith) (omega arith)

pub rotate_11 : (v : ℕ) → v < 2 ^ 32 → rotate_right v 11 ≡ rotr 11 v
rotate_11 v h = rotate_right-rotr 11 v (omega arith) (omega arith)

pub rotate_13 : (v : ℕ) → v < 2 ^ 32 → rotate_right v 13 ≡ rotr 13 v
rotate_13 v h = rotate_right-rotr 13 v (omega arith) (omega arith)

pub rotate_17 : (v : ℕ) → v < 2 ^ 32 → rotate_right v 17 ≡ rotr 17 v
rotate_17 v h = rotate_right-rotr 17 v (omega arith) (omega arith)

pub rotate_18 : (v : ℕ) → v < 2 ^ 32 → rotate_right v 18 ≡ rotr 18 v
rotate_18 v h = rotate_right-rotr 18 v (omega arith) (omega arith)

pub rotate_19 : (v : ℕ) → v < 2 ^ 32 → rotate_right v 19 ≡ rotr 19 v
rotate_19 v h = rotate_right-rotr 19 v (omega arith) (omega arith)

pub rotate_22 : (v : ℕ) → v < 2 ^ 32 → rotate_right v 22 ≡ rotr 22 v
rotate_22 v h = rotate_right-rotr 22 v (omega arith) (omega arith)

pub rotate_25 : (v : ℕ) → v < 2 ^ 32 → rotate_right v 25 ≡ rotr 25 v
rotate_25 v h = rotate_right-rotr 25 v (omega arith) (omega arith)

-- `x << n | y` on 32 bits, which is a sum where `y` fits below.
bit_or-below :
    (n x y : ℕ) → x * 2 ^ n < 2 ^ 32 → y < 2 ^ 32 → y < 2 ^ n → bit_or (x * 2 ^ n) y ≡ x * 2 ^ n + y
bit_or-below n x y hx hy h =
    rw (bit_or_comm 32 (x * 2 ^ n) y hx hy, bit_or-above n y x h) (omega arith)

-- Four bytes as `load_words` joins them.
abbrev joined : ℕ → ℕ → ℕ → ℕ → ℕ
joined p q r s = bit_or (bit_or (bit_or (u32 (p * 2 ^ 24)) (q * 2 ^ 16)) (r * 2 ^ 8)) s

joined_lem :
    (p q r s : ℕ)
    → p < 256
    → q < 256
    → r < 256
    → s < 256
    → joined p q r s ≡ p * 2 ^ 24 + q * 2 ^ 16 + r * 2 ^ 8 + s
joined_lem p q r s hp hq hr hs =
    let e0 : u32 (p * 2 ^ 24) ≡ p * 2 ^ 24 = omega arith in
    let j0 : bit_or (p * 2 ^ 24) (q * 2 ^ 16) ≡ p * 2 ^ 24 + q * 2 ^ 16 =
      bit_or-below 24 p (q * 2 ^ 16) (omega arith) (omega arith) (omega arith) in
    let e1 : p * 2 ^ 24 + q * 2 ^ 16 ≡ (p * 2 ^ 8 + q) * 2 ^ 16 = omega arith in
    let j1 : bit_or ((p * 2 ^ 8 + q) * 2 ^ 16) (r * 2 ^ 8) ≡ (p * 2 ^ 8 + q) * 2 ^ 16 + r * 2 ^ 8 =
      bit_or-below 16 (p * 2 ^ 8 + q) (r * 2 ^ 8) (omega arith) (omega arith) (omega arith) in
    let e2 : (p * 2 ^ 8 + q) * 2 ^ 16 + r * 2 ^ 8 ≡ (p * 2 ^ 16 + q * 2 ^ 8 + r) * 2 ^ 8 =
      omega arith in
    let j2 : bit_or ((p * 2 ^ 16 + q * 2 ^ 8 + r) * 2 ^ 8) s
        ≡ (p * 2 ^ 16 + q * 2 ^ 8 + r) * 2 ^ 8 + s =
      bit_or-below 8 (p * 2 ^ 16 + q * 2 ^ 8 + r) s (omega arith) (omega arith) (omega arith) in
    ap (λ t. bit_or (bit_or (bit_or t (q * 2 ^ 16)) (r * 2 ^ 8)) s) e0
    ∙ ap (λ t. bit_or (bit_or t (r * 2 ^ 8)) s) (j0 ∙ e1)
    ∙ ap (λ t. bit_or t s) (j1 ∙ e2)
    ∙ j2
    ∙ omega arith

-- The words that `load_words` stores are those of the block, and the others stay.
load_words-kept : (n i : ℕ) (b w : ℕ → ℕ) (k : ℕ) → k < i → load_words i n b w k ≡ w k
unfolding load_words
load_words-kept zero i b w k h = refl
load_words-kept (suc n) i b w k h =
    load_words-kept n (i + 1) b _ k (omega arith) ∙ update_ne w i k _ (omega arith)

pub load_words-block_word :
    (n i : ℕ) (m : List ℕ) (w : ℕ → ℕ)
    → ((k : ℕ) → entry m k < 256)
    → values (load_words i n (entry m) w) i n ≡ values (block_word m) i n
unfolding load_words
load_words-block_word zero i m w small = refl
load_words-block_word (suc n) i m w small =
    let p = entry m (i * 4) in
    let q = entry m (i * 4 + 1) in
    let r = entry m (i * 4 + 2) in
    let s = entry m (i * 4 + 3) in
    let next = update w i (joined p q r s) in
    let here : load_words (i + 1) n (entry m) next i ≡ block_word m i =
      load_words-kept n (i + 1) (entry m) next i (omega arith)
      ∙ update_self w i (joined p q r s)
      ∙ joined_lem p q r s (small (i * 4)) (small (i * 4 + 1)) (small (i * 4 + 2))
          (small (i * 4 + 3)) in
    rw (here, load_words-block_word n (i + 1) m next small) refl

pub update-lt :
    (w : ℕ → ℕ) (i v : ℕ)
    → v < 2 ^ 32
    → ((k : ℕ) → w k < 2 ^ 32)
    → (k : ℕ) → update w i v k < 2 ^ 32
update-lt w i v h small k =
    if_either (λ (t : ℕ). t < 2 ^ 32) (k == i) v (w k) (λ here. h) (λ other. small k)

pub load_words-lt :
    (n i : ℕ) (m : List ℕ) (w : ℕ → ℕ)
    → ((k : ℕ) → entry m k < 256)
    → ((k : ℕ) → w k < 2 ^ 32)
    → (k : ℕ) → load_words i n (entry m) w k < 2 ^ 32
unfolding load_words
load_words-lt zero i m w small below = below
load_words-lt (suc n) i m w small below =
    let p = entry m (i * 4) in
    let q = entry m (i * 4 + 1) in
    let r = entry m (i * 4 + 2) in
    let s = entry m (i * 4 + 3) in
    let lt : joined p q r s < 2 ^ 32 =
      let hp : p < 256 = small (i * 4) in
      let hq : q < 256 = small (i * 4 + 1) in
      let hr : r < 256 = small (i * 4 + 2) in
      let hs : s < 256 = small (i * 4 + 3) in rw (joined_lem p q r s hp hq hr hs) (omega arith) in
    load_words-lt n (i + 1) m (update w i (joined p q r s)) small
      (update-lt w i (joined p q r s) lt below)

pub entry-values : (f : ℕ → ℕ) (n i k : ℕ) → k < n → entry (values f i n) k ≡ f (i + k)
unfolding entry
entry-values f zero i k h = absurd (omega arith)
entry-values f (suc n) i zero h = let e : i + 0 ≡ i = omega arith in rw e refl
entry-values f (suc n) i (suc k) h =
    let e : i + suc k ≡ i + 1 + k = omega arith in rw e (entry-values f n (i + 1) k (omega arith))
