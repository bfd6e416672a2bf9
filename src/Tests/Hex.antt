-- ===== src/Tests/Hex.antt =====
-- The loader at a concrete file.
use emu_sa80535_n.Base.{ℕ, ◌≡◌, List, [], ◌∷◌, ◌++◌, some, refl, arith}
use emu_sa80535_n.Base.Int.{ℤ, pos}
use emu_sa80535_n.Disasm.Text.{codes}
use emu_sa80535_n.Hex.{load_obj}
use emu_sa80535_n.Hex.Print.{
  DataRecord, IsRecords, IsBytes, put_records, put_data, put_hex, check_byte, sum, store_records,
}
use emu_sa80535_n.Hex.Load.{load_obj-put_records}
use emu_sa80535_n.Hex.Returns.{load_obj_returns}

abbrev empty : ℕ → ℕ
empty a = 0

-- LJMP 0030h at 0.
abbrev jump : List DataRecord
jump = (0, 0x02 ∷ 0x00 ∷ 0x30 ∷ []) ∷ []

printed : (b':' ∷ put_records jump) ≡ codes ":03000000020030CB" ++ (b'\n' ∷ codes ":00000001FF")
unfolding put_records put_data put_hex check_byte sum
printed = refl

load_obj-put_records_example :
    load_obj (some (b':' ∷ put_records jump)) empty ≡ some (pos 0, store_records jump empty)
load_obj-put_records_example = load_obj-put_records jump empty (
    unfold IsRecords in
    unfold IsBytes in
    (omega arith, omega arith, omega arith, (omega arith, (omega arith, (omega arith, tt))), tt))

load_obj_returns_example : (r : ℤ × (ℕ → ℕ)) × (load_obj (some (codes ":0")) empty ≡ some r)
load_obj_returns_example = load_obj_returns (some (codes ":0")) empty
