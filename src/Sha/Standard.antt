-- ===== src/Sha/Standard.antt =====
-- The compression function of SHA-256 as FIPS 180-4 defines it, for the digest of
-- emu_sha_internal.c to be compared with.
use emu_sa80535_n.Base.{
  ℕ, zero, suc, ◌+◌, ◌-◌, ◌*◌, ◌/◌, ◌%◌, ◌^◌, List, [], ◌∷◌, ◌++◌, leb, if◌then◌else◌, bit_and,
  bit_xor,
}
use emu_sa80535_n.Base.Tables.{values}
use emu_sa80535_n.Sha.{Working, entry}

abbrev pub primes : List ℕ
primes =
    2 ∷ 3 ∷ 5 ∷ 7 ∷ 11 ∷ 13 ∷ 17 ∷ 19 ∷ 23 ∷ 29 ∷ 31 ∷ 37 ∷ 41 ∷ 43 ∷ 47 ∷ 53 ∷ 59 ∷ 61 ∷ 67 ∷ 71
    ∷ 73 ∷ 79 ∷ 83 ∷ 89 ∷ 97 ∷ 101 ∷ 103 ∷ 107 ∷ 109 ∷ 113 ∷ 127 ∷ 131 ∷ 137 ∷ 139 ∷ 149 ∷ 151 ∷ 157
    ∷ 163 ∷ 167 ∷ 173 ∷ 179 ∷ 181 ∷ 191 ∷ 193 ∷ 197 ∷ 199 ∷ 211 ∷ 223 ∷ 227 ∷ 229 ∷ 233 ∷ 239 ∷ 241
    ∷ 251 ∷ 257 ∷ 263 ∷ 269 ∷ 271 ∷ 277 ∷ 281 ∷ 283 ∷ 293 ∷ 307 ∷ 311 ∷ []

-- The greatest number whose power is at most the target, of those that agree with `r` above the
-- lowest `k` bits.
unfoldable pub root : ℕ → ℕ → ℕ → ℕ → ℕ
root zero power target r = r
root (suc k) power target r =
    root k power target (if leb ((r + 2 ^ k) ^ power) target then r + 2 ^ k else r)

-- The first 32 bits of the fraction of a square or cube root.
unfoldable pub root_fraction : ℕ → ℕ → ℕ
root_fraction power n = root 37 power (n * 2 ^ (32 * power)) 0 % 2 ^ 32

unfoldable pub root_fractions : ℕ → List ℕ → List ℕ
root_fractions power [] = []
root_fractions power (p ∷ ps) = root_fraction power p ∷ root_fractions power ps

abbrev pub rotr : ℕ → ℕ → ℕ
rotr n x = x / 2 ^ n + x % 2 ^ n * 2 ^ (32 - n)

abbrev pub small_sigma0 : ℕ → ℕ
small_sigma0 x = bit_xor (bit_xor (rotr 7 x) (rotr 18 x)) (x / 2 ^ 3)

abbrev pub small_sigma1 : ℕ → ℕ
small_sigma1 x = bit_xor (bit_xor (rotr 17 x) (rotr 19 x)) (x / 2 ^ 10)

abbrev pub big_sigma0 : ℕ → ℕ
big_sigma0 x = bit_xor (bit_xor (rotr 2 x) (rotr 13 x)) (rotr 22 x)

abbrev pub big_sigma1 : ℕ → ℕ
big_sigma1 x = bit_xor (bit_xor (rotr 6 x) (rotr 11 x)) (rotr 25 x)

abbrev pub ch : ℕ → ℕ → ℕ → ℕ
ch x y z = bit_xor (bit_and x y) (bit_and (2 ^ 32 - 1 - x) z)

abbrev pub maj : ℕ → ℕ → ℕ → ℕ
maj x y z = bit_xor (bit_xor (bit_and x y) (bit_and x z)) (bit_and y z)

-- One step with the constant `k` and the word `w`.
abbrev pub step : ℕ → ℕ → Working → Working
step k w v =
    let t1 = v.h + big_sigma1 v.e + ch v.e v.f v.g + k + w in
    let t2 = big_sigma0 v.a + maj v.a v.b v.c in
    record {
      a = (t1 + t2) % 2 ^ 32;
      b = v.a;
      c = v.b;
      d = v.c;
      e = (v.d + t1) % 2 ^ 32;
      f = v.e;
      g = v.f;
      h = v.g;
    }

unfoldable pub steps : List ℕ → List ℕ → Working → Working
steps [] ws v = v
steps (k ∷ ks) [] v = v
steps (k ∷ ks) (w ∷ ws) v = steps ks ws (step k w v)

-- The word that follows sixteen words.
unfoldable pub next_word : List ℕ → ℕ
next_word ws =
    (small_sigma1 (entry ws 14) + entry ws 9 + small_sigma0 (entry ws 1) + entry ws 0) % 2 ^ 32

-- The message schedule: `n` words are added to those at hand, each from the sixteen before it.
unfoldable pub schedule : ℕ → List ℕ → List ℕ
schedule zero ws = ws
schedule (suc n) [] = []
schedule (suc n) (w ∷ ws) = w ∷ schedule n (ws ++ (next_word (w ∷ ws) ∷ []))

-- The word at the place `j` of a block of bytes.
abbrev pub block_word : List ℕ → ℕ → ℕ
block_word m j =
    entry m (j * 4) * 2 ^ 24
    + entry m (j * 4 + 1) * 2 ^ 16
    + entry m (j * 4 + 2) * 2 ^ 8
    + entry m (j * 4 + 3)

abbrev pub sum_of : Working → Working → Working
sum_of h v = record {
  a = (h.a + v.a) % 2 ^ 32;
  b = (h.b + v.b) % 2 ^ 32;
  c = (h.c + v.c) % 2 ^ 32;
  d = (h.d + v.d) % 2 ^ 32;
  e = (h.e + v.e) % 2 ^ 32;
  f = (h.f + v.f) % 2 ^ 32;
  g = (h.g + v.g) % 2 ^ 32;
  h = (h.h + v.h) % 2 ^ 32;
}

-- The hash value after the block at the front of the message.
unfoldable pub compress : Working → List ℕ → Working
compress h m =
    sum_of h (steps (root_fractions 3 primes) (schedule 48 (values (block_word m) 0 16)) h)

-- The first hash value: the square roots of the first eight primes.
unfoldable pub first_hash : Working
first_hash = record {
  a = root_fraction 2 2;
  b = root_fraction 2 3;
  c = root_fraction 2 5;
  d = root_fraction 2 7;
  e = root_fraction 2 11;
  f = root_fraction 2 13;
  g = root_fraction 2 17;
  h = root_fraction 2 19;
}

unfoldable pub drop : ℕ → List ℕ → List ℕ
drop zero m = m
drop (suc n) [] = []
drop (suc n) (b ∷ bs) = drop n bs

-- The hash value after `n` blocks.
unfoldable pub hash : ℕ → Working → List ℕ → Working
hash zero h m = h
hash (suc n) h m = hash n (compress h m) (drop 64 m)
