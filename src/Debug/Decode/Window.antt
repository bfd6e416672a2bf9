-- ===== src/Debug/Decode/Window.antt =====
-- The window of decoded instructions is a run without gaps (`emu_decode_window` of
-- emu_decode_internal.c).
pub mod Steps
pub mod Whole
use emu_sa80535_n.Base.{
  ℕ, zero, suc, ◌+◌, ◌-◌, ◌<◌, ◌≤◌, ◌≡◌, ◌≢◌, Bool, true, false, ◌⊎◌, List, [], ◌∷◌, ◌++◌, leb,
  if◌then◌else◌, take, length, refl,
}
use emu_sa80535_n.Base.Int.{ℤ, pos, negsuc}
use emu_sa80535_n.Debug.Decode.{
  Decoder, Decoded, Outcome, done, failed, Status, invalid_record, code_size,
}

-- What the result satisfies where it is not a failure.
unfoldable pub OnDone {ℓ κ} : {A : Type ℓ} → (A → Type κ) → Outcome A → Type κ
OnDone P (done a) = P a
OnDone P (failed s) = Unit

-- A record is what the decoder gives at its address, or stands for one byte that is not known to
-- start an instruction.
unfoldable pub IsDecoded : Decoder → Decoded → Type 0
IsDecoded decoder r =
    ((r.valid ≡ true)
      × (decoder r.address ≡ (r.size, r.text))
      × (r.size ≢ 0)
      × (r.address + r.size ≤ code_size))
    ⊎ (r ≡ invalid_record r.address)

-- Records that follow each other in memory from the address `a` to the address `b`.
unfoldable pub IsRun : Decoder → ℕ → List Decoded → ℕ → Type 0
IsRun decoder a [] b = a ≡ b
IsRun decoder a (r ∷ rs) b = (r.address ≡ a) × IsDecoded decoder r × IsRun decoder (a + r.size) rs b

-- The address `n` instructions on.
unfoldable pub advance : Decoder → ℕ → ℕ → ℕ
advance decoder zero a = a
advance decoder (suc n) a = advance decoder n (a + (decoder a).0)

-- Where a window with an offset in instructions stands: it starts that many instructions after the
-- base; or, for an offset back, there are exactly that many records from its start up to the base,
-- of which it shows the first ones, as many as it holds.
unfoldable pub IsPlaced : Decoder → ℕ → ℤ → ℕ → ℕ → List Decoded → Type 0
IsPlaced decoder base (pos n) count first records = first ≡ advance decoder n base
IsPlaced decoder base (negsuc n) count first records =
    (whole : List Decoded) × IsRun decoder first whole base
    × (length whole ≡ suc n)
    × (take (suc n) records ≡ take count whole)

pub OnDone-failed {ℓ κ} : {A : Type ℓ} (P : A → Type κ) (s : Status) → OnDone P (failed s)
unfolding OnDone
OnDone-failed P s = tt

pub IsRun-append :
    (decoder : Decoder) (rs ss : List Decoded) (a b c : ℕ)
    → IsRun decoder a rs b
    → IsRun decoder b ss c
    → IsRun decoder a (rs ++ ss) c
unfolding IsRun
IsRun-append decoder [] ss a b c h k = rw h k
IsRun-append decoder (r ∷ rs) ss a b c (at, decoded, h) k =
    (at, decoded, IsRun-append decoder rs ss (a + r.size) b c h k)

-- The first records of a run are a run.
pub IsRun-take :
    (decoder : Decoder) (n : ℕ) (rs : List Decoded) (a c : ℕ)
    → IsRun decoder a rs c
    → (b : ℕ) × IsRun decoder a (take n rs) b
unfolding IsRun
IsRun-take decoder zero rs a c h = (a, refl)
IsRun-take decoder (suc n) [] a c h = (c, h)
IsRun-take decoder (suc n) (r ∷ rs) a c (at, decoded, h) =
    let rest = IsRun-take decoder n rs (a + r.size) c h in (rest.0, (at, decoded, rest.1))
