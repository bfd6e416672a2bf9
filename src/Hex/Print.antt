-- ===== src/Hex/Print.antt =====
-- The text of an Intel HEX file, as `load_obj` of emu.c reads it.
use emu_sa80535_n.Base.{
  ℕ, suc, ◌+◌, ◌-◌, ◌/◌, ◌%◌, ◌^◌, ◌<◌, ◌≤◌, ◌≡◌, Bool, false, List, [], ◌∷◌, some, u8, u32, update,
  length, refl, ap, ◌∙◌, arith,
}
use emu_sa80535_n.Base.Tables.{values_at}
use emu_sa80535_n.Disasm.Text.{hex_digit}
use emu_sa80535_n.Hex.{File, digit_value, readbyte, strtol_pair, pair_value, load_data}

-- A record of data: its address and its bytes.
abbrev pub DataRecord : Type 0
DataRecord = ℕ × List ℕ

-- A byte as two digits, before a text.
unfoldable pub put_hex : ℕ → List ℕ → List ℕ
put_hex b text = hex_digit (b / 16) ∷ hex_digit (b % 16) ∷ text

unfoldable pub put_data : List ℕ → List ℕ → List ℕ
put_data [] text = text
put_data (b ∷ bs) text = put_hex b (put_data bs text)

unfoldable pub sum : List ℕ → ℕ
sum [] = 0
sum (b ∷ bs) = b + sum bs

-- The byte that makes the sum of a record a multiple of 256.
unfoldable pub check_byte : DataRecord → ℕ
check_byte (address, bytes) =
    (256 - (length bytes + address % 256 + address / 256 + sum bytes) % 256) % 256

-- The records after their colons, and the record that ends the file.
unfoldable pub put_records : List DataRecord → List ℕ
put_records [] = put_hex 0 (put_hex 0 (put_hex 0 (put_hex 1 (put_hex 255 []))))
put_records ((address, bytes) ∷ rs) = put_hex (length bytes) (
    put_hex (address / 256) (
      put_hex (address % 256) (
        put_hex 0 (
          put_data bytes (put_hex (check_byte (address, bytes)) (b'\n' ∷ b':' ∷ put_records rs))))))

-- The memory with the bytes of a record, from the byte `i` on.
unfoldable pub store_bytes : ℕ → ℕ → List ℕ → (ℕ → ℕ) → ℕ → ℕ
store_bytes address i [] mem = mem
store_bytes address i (b ∷ bs) mem = store_bytes address (i + 1) bs (update mem (address + i) b)

unfoldable pub store_records : List DataRecord → (ℕ → ℕ) → ℕ → ℕ
store_records [] mem = mem
store_records ((address, bytes) ∷ rs) mem = store_records rs (store_bytes address 0 bytes mem)

unfoldable pub IsBytes : List ℕ → Type 0
IsBytes [] = Unit
IsBytes (b ∷ bs) = (b < 256) × IsBytes bs

-- Addresses of 16 bits, at most 255 bytes in a record, and all of them within the 64 KiB of code
-- memory.
unfoldable pub IsRecords : List DataRecord → Type 0
IsRecords [] = Unit
IsRecords ((address, bytes) ∷ rs) =
    (address < 65536)
    × (length bytes < 256)
    × (address + length bytes ≤ 65536)
    × IsBytes bytes
    × IsRecords rs

abbrev pub opened : List ℕ → File
opened text = record { rest = text; eof = false }

digit_value-hex_digit : (d : ℕ) → d < 16 → digit_value (hex_digit d) ≡ some d
unfolding digit_value
digit_value-hex_digit d h =
    let e : 0 + d ≡ d = omega arith in
    rw e at (values_at (λ k. digit_value (hex_digit k)) (λ k. some k) 16 0 d refl h)

pub readbyte-put_hex :
    (b : ℕ) (text : List ℕ) (e : Bool)
    → b < 256
    → readbyte (record { rest = put_hex b text; eof = e }) ≡ (b, opened text)
unfolding readbyte put_hex strtol_pair pair_value
readbyte-put_hex b text e h =
    rw (digit_value-hex_digit (b / 16) (omega arith), digit_value-hex_digit (b % 16) (omega arith))
      (ap (λ (n : ℕ). (n, opened text)) (omega arith))

load_data-suc :
    (i n address checksum b : ℕ) (f g : File) (mem : ℕ → ℕ)
    → readbyte f ≡ (b, g)
    → load_data i (suc n) address checksum f mem
      ≡ load_data (i + 1) n address (u32 (checksum + b)) g (update mem (u32 (address + i)) (u8 b))
unfolding load_data
load_data-suc i n address checksum b f g mem e = rw e refl

pub load_data-put_data :
    (bs : List ℕ) (i address checksum : ℕ) (text : List ℕ) (mem : ℕ → ℕ)
    → IsBytes bs
    → address < 65536
    → i + length bs < 256
    → checksum + sum bs < 2 ^ 32
    → load_data i (length bs) address checksum (opened (put_data bs text)) mem
      ≡ (checksum + sum bs, opened text, store_bytes address i bs mem)
unfolding put_data sum store_bytes IsBytes
load_data-put_data [] i address checksum text mem small low short fits =
    let zero_sum : checksum + 0 ≡ checksum = omega arith in unfold load_data in rw zero_sum refl
load_data-put_data (b ∷ bs) i address checksum text mem (small, smalls) low short fits =
    let e1 : i + suc (length bs) ≡ i + 1 + length bs = omega arith in
    let inside : u32 (address + i) ≡ address + i = omega arith in
    let byte : u8 b ≡ b = omega arith in
    let added : u32 (checksum + b) ≡ checksum + b = omega arith in
    let total : checksum + (b + sum bs) ≡ checksum + b + sum bs = omega arith in
    load_data-suc i (length bs) address checksum b (opened (put_hex b (put_data bs text)))
      (opened (put_data bs text)) mem (readbyte-put_hex b (put_data bs text) false small)
    ∙ rw (inside, byte, added, total)
        (load_data-put_data bs (i + 1) address (checksum + b) text (update mem (address + i) b)
          smalls low (omega arith) (omega arith))
