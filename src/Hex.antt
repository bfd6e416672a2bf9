-- ===== src/Hex.antt =====
-- The loader of Intel HEX files, `readbyte` and `load_obj` of emu.c. An `int` is kept modulo
-- 2 ^ 32; a store goes to the index that the code computes, whatever the size of the memory.
pub mod Print
pub mod Load
pub mod Returns
use emu_sa80535_n.Base.{
  ℕ, zero, suc, ◌+◌, ◌-◌, ◌*◌, ◌%◌, ◌^◌, Bool, true, false, not, ◌&&◌, ◌||◌, List, [], ◌∷◌, Option,
  none, some, ltb, leb, ◌==◌, if◌then◌else◌, u8, u32, bit_and, bit_or, ◌<<<◌, ◌>>>◌, update, length,
}
use emu_sa80535_n.Base.Int.{ℤ, pos, negsuc}

-- An open file: the characters left, and the indicator of the end.
pub record File : Type 0 where
  pub rest : List ℕ
  pub eof : Bool

-- `fgetc`; `none` is EOF.
abbrev pub next_char : List ℕ → Option ℕ × File
next_char [] = (none, record { rest = []; eof = true })
next_char (c ∷ cs) = (some c, record { rest = cs; eof = false })

abbrev pub fgetc : File → Option ℕ × File
fgetc f = next_char f.rest

-- The value of a character as a hexadecimal digit.
unfoldable pub digit_value : ℕ → Option ℕ
digit_value c =
    if leb b'0' c && leb c b'9'
    then some (c - b'0')
    else if leb b'A' c && leb c b'F'
    then some (c - b'A' + 10)
    else if leb b'a' c && leb c b'f'
    then some (c - b'a' + 10)
    else none

-- `isspace`.
abbrev pub is_space : ℕ → Bool
is_space c = c == 32 || (leb 9 c && leb c 13)

-- The number that two characters stand for, of which the first is `a`: white space and a sign may
-- come before a digit.
unfoldable pub pair_value : Option ℕ → Option ℕ → ℕ → ℕ
pair_value (some x) (some y) a = x * 16 + y
pair_value (some x) none a = x
pair_value none (some y) a =
    if a == b'-' then u32 (2 ^ 32 - y) else if a == b'+' || is_space a then y else 0
pair_value none none a = 0

-- `strtol` to the base 16 of a text of two characters.
unfoldable pub strtol_pair : ℕ → ℕ → ℕ
strtol_pair a b = pair_value (digit_value a) (digit_value b) a

-- The character that a `char` holds after `fgetc`.
abbrev pub as_char : Option ℕ → ℕ
as_char none = 255
as_char (some c) = c

unfoldable pub readbyte : File → ℕ × File
readbyte f = let a = fgetc f in let b = fgetc a.1 in (strtol_pair (as_char a.0) (as_char b.0), b.1)

-- The loop over the data of a record: the checksum, the file and the code memory afterwards.
unfoldable pub load_data : ℕ → ℕ → ℕ → ℕ → File → (ℕ → ℕ) → ℕ × File × (ℕ → ℕ)
load_data i zero address checksum f mem = (checksum, f, mem)
load_data i (suc n) address checksum f mem =
    let byte = readbyte f in
    load_data (i + 1) n address (u32 (checksum + byte.0)) byte.1
      (update mem (u32 (address + i)) (u8 byte.0))

-- The loop that skips to the next record.
unfoldable pub skip_line : List ℕ → File
skip_line [] = record { rest = []; eof = true }
skip_line (c ∷ cs) =
    let more = skip_line cs in if c == b':' then record { rest = cs; eof = false } else more

-- The first four bytes of a record.
pub record Header : Type 0 where
  pub recordlength : ℕ
  pub address : ℕ
  pub recordtype : ℕ
  pub after : File

unfoldable pub read_header : File → Header
read_header f =
    let l = readbyte f in
    let h = readbyte l.1 in
    let a = readbyte h.1 in
    let t = readbyte a.1 in
    record {
      recordlength = l.0;
      address = bit_or (u32 (h.0 <<< 8)) a.0;
      recordtype = t.0;
      after = t.1;
    }

-- The loop over the records, on fuel: the result and the code memory.
unfoldable pub load_records : ℕ → File → (ℕ → ℕ) → Option (ℤ × (ℕ → ℕ))
load_records zero f mem = none
load_records (suc fuel) f mem =
    let h = read_header f in
    let start = u32 (h.recordtype + h.recordlength + bit_and h.address 0xff + (h.address >>> 8)) in
    let passes = if ltb h.recordlength (2 ^ 31) then h.recordlength else 0 in
    let loaded = load_data 0 passes h.address start h.after mem in
    let last = readbyte loaded.1 in
    let expected = bit_and (256 - bit_and loaded.0 0xff) 0xff in
    let following = load_records fuel (skip_line last.1.rest) loaded.2 in
    if f.eof
    then some (negsuc 4, mem)
    else if h.recordtype == 1
    then some (pos 0, mem)
    else if not (h.recordtype == 0)
    then some (negsuc 2, mem)
    else if not (last.0 == expected)
    then some (negsuc 3, loaded.2)
    else following

-- After the first character.
abbrev pub load_from : Option ℕ × File → (ℕ → ℕ) → Option (ℤ × (ℕ → ℕ))
load_from (none, f) mem = some (negsuc 1, mem)
load_from (some c, f) mem =
    let all = load_records (length f.rest + 2) f mem in
    if c == b':' then all else some (negsuc 1, mem)

-- `load_obj`, with the text of the file, if it can be opened.
unfoldable pub load_obj : Option (List ℕ) → (ℕ → ℕ) → Option (ℤ × (ℕ → ℕ))
load_obj none mem = some (negsuc 0, mem)
load_obj (some text) mem = load_from (next_char text) mem
