-- ===== src/Tests/Windows.antt =====
-- Windows of decoded instructions at a concrete memory.
use emu_sa80535_n.Base.{ℕ, ◌==◌, true, false, List, [], ◌∷◌, if◌then◌else◌, update}
use emu_sa80535_n.Debug.Decode.{Cache, Decoder, Decoded, invalid_record}

-- Opcodes are one byte long, but for the jump at 0x10.
abbrev sizes : ℕ → Decoder
sizes op a = (if op == 2 then 3 else 1, [])

abbrev memory : ℕ → ℕ
memory a = if a == 0x10 then 2 else 0

abbrev empty : Cache
empty = record { predecessor = λ a. 0; known = λ a. false }

-- The jump at 0x10 went on to 0x13.
abbrev seen : Cache
seen = record { predecessor = update (λ a. 0) 0x13 0x10; known = update (λ a. false) 0x13 true }

-- Two instructions before 0x13, of which one is known.
abbrev before_next : List Decoded × Cache
before_next =
    (invalid_record 0x0f ∷ record { address = 0x10; size = 3; valid = true; text = [] } ∷ [], seen)
