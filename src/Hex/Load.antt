-- ===== src/Hex/Load.antt =====
-- `load_obj` of emu.c on files: it returns, and it loads what a file holds.
use emu_sa80535_n.Base.{
  ℕ, zero, suc, ◌+◌, ◌-◌, ◌*◌, ◌/◌, ◌%◌, ◌^◌, ◌<◌, ◌≤◌, ◌≡◌, true, false, List, [], ◌∷◌, some, ltb,
  ◌==◌, u32, ◌>>>◌, bit_and, bit_or, length, ==_iff, refl, sym, arith,
}
use emu_sa80535_n.Base.Bits.{bit_and_mask, bit_or-above, bit_or_comm}
use emu_sa80535_n.Base.Int.{pos}
use emu_sa80535_n.Hex.{skip_line, read_header, load_records, load_obj}
use emu_sa80535_n.Hex.Print.{
  DataRecord, put_hex, put_data, put_records, check_byte, sum, store_bytes, store_records, IsBytes,
  IsRecords, opened, readbyte-put_hex, load_data-put_data,
}

sum-lt : (bs : List ℕ) → IsBytes bs → sum bs ≤ length bs * 255
unfolding sum IsBytes
sum-lt [] small = omega arith
sum-lt (b ∷ bs) (small, smalls) = omega (arith, sum-lt bs smalls)

check_byte-lt : (r : DataRecord) → check_byte r < 256
unfolding check_byte
check_byte-lt (address, bytes) = omega arith

-- The address from its two bytes.
address-eq : (a : ℕ) → a < 65536 → bit_or (u32 (a / 256 * 2 ^ 8)) (a % 256) ≡ a
address-eq a h =
    let small : u32 (a / 256 * 2 ^ 8) ≡ a / 256 * 2 ^ 8 = omega arith in
    rw
      (
        small,
        bit_or_comm 16 (a / 256 * 2 ^ 8) (a % 256) (omega arith) (omega arith),
        bit_or-above 8 (a % 256) (a / 256) (omega arith),
      )
      (omega arith)

read_header-put :
    (l a t : ℕ) (text : List ℕ)
    → l < 256
    → a < 65536
    → t < 256
    → read_header (opened (put_hex l (put_hex (a / 256) (put_hex (a % 256) (put_hex t text)))))
      ≡ (record { recordlength = l; address = a; recordtype = t; after = opened text })
unfolding read_header
read_header-put l a t text hl ha ht =
    rw
      (
        readbyte-put_hex l (put_hex (a / 256) (put_hex (a % 256) (put_hex t text))) false hl,
        readbyte-put_hex (a / 256) (put_hex (a % 256) (put_hex t text)) false (omega arith),
        readbyte-put_hex (a % 256) (put_hex t text) false (omega arith),
        readbyte-put_hex t text false ht,
        address-eq a ha,
      )
      refl

-- The byte that is expected after the data.
expected-eq :
    (l a s : ℕ)
    → l < 256
    → a < 65536
    → s < 65536
    → bit_and (256 - bit_and (u32 (0 + l + bit_and a 0xff + (a >>> 8)) + s) 0xff) 0xff
      ≡ (256 - (l + a % 256 + a / 256 + s) % 256) % 256
expected-eq l a s hl ha hs =
    let low : bit_and a 0xff ≡ a % 256 = bit_and_mask 8 a in
    let total = u32 (0 + l + a % 256 + a / 256) + s in
    rw (low, bit_and_mask 8 total, bit_and_mask 8 (256 - total % 256)) (omega arith)

skip_line-colon : (text : List ℕ) → skip_line (b'\n' ∷ b':' ∷ text) ≡ opened text
unfolding skip_line
skip_line-colon text = refl

-- A file of records loads with one round of fuel for each record and one more.
load_records-put_records :
    (rs : List DataRecord) (fuel : ℕ) (mem : ℕ → ℕ)
    → IsRecords rs
    → length rs < fuel
    → load_records fuel (opened (put_records rs)) mem ≡ some (pos 0, store_records rs mem)
unfolding load_records put_records store_records IsRecords
load_records-put_records rs zero mem valid h = absurd (omega arith)
load_records-put_records [] (suc fuel) mem valid h =
    let zero_high : 0 / 256 ≡ 0 = refl in
    rw (read_header-put 0 0 1 (put_hex 255 []) (omega arith) (omega arith) (omega arith)) refl
load_records-put_records ((address, bytes) ∷ rs) (suc fuel) mem (low, short, inside, small, valid)
      h =
    let c = check_byte (address, bytes) in
    let tail = b'\n' ∷ b':' ∷ put_records rs in
    let n = length bytes in
    let start = u32 (0 + n + bit_and address 0xff + (address >>> 8)) in
    let passes : ltb n (2 ^ 31) ≡ true = ground arith in
    let le = sum-lt bytes small in
    let last : (c == bit_and (256 - bit_and (start + sum bytes) 0xff) 0xff) ≡ true =
      (==_iff c (bit_and (256 - bit_and (start + sum bytes) 0xff) 0xff)).1
        (unfold check_byte in sym (expected-eq n address (sum bytes) short low (omega arith))) in
    rw
      (
        read_header-put n address 0 (put_data bytes (put_hex c tail)) short low (omega arith),
        passes,
        load_data-put_data bytes 0 address start (put_hex c tail) mem small low (omega arith)
            (omega (arith, bit_and_mask 8 address)),
        readbyte-put_hex c tail false (check_byte-lt (address, bytes)),
        last,
        skip_line-colon (put_records rs),
      )
      (load_records-put_records rs fuel (store_bytes address 0 bytes mem) valid (omega arith))

length-put_data : (bs text : List ℕ) → length text ≤ length (put_data bs text)
unfolding put_data put_hex
length-put_data [] text = omega arith
length-put_data (b ∷ bs) text = omega (arith, length-put_data bs text)

length-put_records : (rs : List DataRecord) → length rs ≤ length (put_records rs)
unfolding put_records put_hex
length-put_records [] = omega arith
length-put_records ((address, bytes) ∷ rs) =
    let tail = put_hex (check_byte (address, bytes)) (b'\n' ∷ b':' ∷ put_records rs) in
    let more : length tail ≤ length (put_data bytes tail) = length-put_data bytes tail in
    let before : length rs ≤ length (put_records rs) = length-put_records rs in omega arith

-- Loading the text of records, each with an address of 16 bits and at most 255 bytes, none of which
-- lies beyond the 64 KiB of code memory, returns 0 and leaves the code memory with the bytes of the records stored at their addresses, in their order.
pub load_obj-put_records :
    (rs : List DataRecord) (mem : ℕ → ℕ)
    → IsRecords rs
    → load_obj (some (b':' ∷ put_records rs)) mem ≡ some (pos 0, store_records rs mem)
unfolding load_obj
load_obj-put_records rs mem valid =
    load_records-put_records rs (length (put_records rs) + 2) mem valid
      (omega (arith, length-put_records rs))
