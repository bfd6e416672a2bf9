-- ===== src/Debug/Decode/Window/Whole.antt =====
-- `emu_decode_window` as a whole (emu_decode_internal.c).
use emu_sa80535_n.Base.{ℕ, suc, ◌-◌, ◌≡◌, List, ◌++◌, length}
use emu_sa80535_n.Base.Int.{ℤ}
use emu_sa80535_n.Debug.Decode.{
  Decoder, Decoded, Cache, Outcome, done, and_then, fill_window, learn,
}
use emu_sa80535_n.Debug.Decode.Sound.{IsCache}
use emu_sa80535_n.Debug.Decode.Window.{IsRun, IsPlaced}
use emu_sa80535_n.Debug.Decode.Window.Steps.{IsGone}

-- What a window and the cache that comes with it satisfy.
unfoldable pub IsWindow : Decoder → ℕ → ℤ → ℕ → List Decoded × Cache → Type 0
IsWindow decoder base offset count w =
    (first : ℕ) × (last : ℕ) × IsRun decoder first w.0 last
    × IsPlaced decoder base offset count first w.0
    × (length w.0 ≡ count)
    × IsCache decoder w.1

-- The window from the records before it and the place where it goes on.
abbrev rest_of_window : Decoder → Cache → ℕ → List Decoded × ℕ → Outcome (List Decoded × Cache)
rest_of_window decoder cache count s =
    and_then (fill_window decoder s.1 (count - length s.0))
      (λ w. done (s.0 ++ w.0, learn cache w.1))

-- The records before the base, of a window that goes back.
abbrev IsStart : Decoder → ℕ → ℕ → ℕ → List Decoded × ℕ → Type 0
IsStart decoder base n count s = IsGone decoder base (suc n) count s.0 × (s.1 ≡ base)
