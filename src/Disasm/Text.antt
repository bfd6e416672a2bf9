-- ===== src/Disasm/Text.antt =====
-- The text of the disassembler: what `sprintf` prints in disasm.c, and the names of registers and
-- bits. A format string is the list of its pieces; a text is a list of character codes without the
-- NUL.
use emu_sa80535_n.Base.{
  ℕ, zero, suc, ◌+◌, ◌-◌, ◌/◌, ◌%◌, List, [], ◌∷◌, ◌++◌, bit_and, ◌>>>◌, ltb, ◌==◌, if◌then◌else◌,
}
use Prim.Native.Char.{code}
use Prim.Native.String.{String}
use emu_sa80535_n.Cpu.{Variant}

-- The codes of a text.
abbrev pub codes : String → List ℕ
codes String.[] = []
codes (String.◌∷◌ c s) = code c ∷ codes s

-- A switch over names: that of the first case with the value.
abbrev pub find_name : List (ℕ × String) → List ℕ → ℕ → List ℕ
find_name [] default v = default
find_name ((k, name) ∷ rest) default v =
    let other = find_name rest default v in if v == k then codes name else other

abbrev pub hex_digit : ℕ → ℕ
hex_digit d = if ltb d 10 then b'0' + d else b'A' + d - 10

-- `%02X` of a byte, `%04X` of 16 bits, and `%d` below 1000.
abbrev pub print_hex : ℕ → ℕ → List ℕ
print_hex zero v = []
print_hex (suc n) v = print_hex n (v / 16) ++ (hex_digit (v % 16) ∷ [])

abbrev pub print_int : ℕ → List ℕ
print_int v =
    let last = (b'0' + v % 10) ∷ [] in
    let two = (b'0' + v / 10 % 10) ∷ last in
    if ltb v 10 then last else if ltb v 100 then two else (b'0' + v / 100 % 10) ∷ two

-- `%+d` of a byte as a `signed char`.
abbrev pub print_offset : ℕ → List ℕ
print_offset v = if ltb v 128 then b'+' ∷ print_int v else b'-' ∷ print_int (256 - v)

-- The names of the registers of the SAB80535 at their addresses, and of the 8051, by what they are
-- above 0x80, in the order of the cases.
abbrev pub sab_names : List (ℕ × String)
sab_names =
    (0xa8, "IEN0")
    ∷ (0xa9, "IP0")
    ∷ (0xb8, "IEN1")
    ∷ (0xb9, "IP1")
    ∷ (0xc0, "IRCON")
    ∷ (0xc1, "CCEN")
    ∷ (0xc8, "T2CON")
    ∷ (0xca, "CRCL")
    ∷ (0xcb, "CRCH")
    ∷ (0xcc, "TL2")
    ∷ (0xcd, "TH2")
    ∷ (0xd8, "ADCON")
    ∷ (0xd9, "ADDAT")
    ∷ (0xda, "DAPR")
    ∷ (0xdb, "P6")
    ∷ (0xe8, "P4")
    ∷ (0xf8, "P5")
    ∷ []

abbrev pub register_names : List (ℕ × String)
register_names =
    (0x60, "ACC")
    ∷ (0x70, "B")
    ∷ (0x50, "PSW")
    ∷ (0x01, "SP")
    ∷ (0x02, "DPL")
    ∷ (0x03, "DPH")
    ∷ (0x00, "P0")
    ∷ (0x10, "P1")
    ∷ (0x20, "P2")
    ∷ (0x30, "P3")
    ∷ (0x38, "IP")
    ∷ (0x28, "IE")
    ∷ (0x09, "TMOD")
    ∷ (0x08, "TCON")
    ∷ (0x0c, "TH0")
    ∷ (0x0a, "TL0")
    ∷ (0x0d, "TH1")
    ∷ (0x0b, "TL1")
    ∷ (0x18, "SCON")
    ∷ (0x07, "PCON")
    ∷ (0x19, "SBUF")
    ∷ []

abbrev pub sab_bit_names : List (ℕ × String)
sab_bit_names =
    (0xa8, "IEN0")
    ∷ (0xb8, "IEN1")
    ∷ (0xc0, "IRCON")
    ∷ (0xc8, "T2CON")
    ∷ (0xd8, "ADCON")
    ∷ (0xe8, "P4")
    ∷ (0xf8, "P5")
    ∷ []

abbrev pub register_bit_names : List (ℕ × String)
register_bit_names =
    (0x60, "ACC")
    ∷ (0x70, "B")
    ∷ (0x50, "PSW")
    ∷ (0x01, "SP")
    ∷ (0x02, "DPL")
    ∷ (0x03, "DPH")
    ∷ (0x00, "P0")
    ∷ (0x10, "P1")
    ∷ (0x20, "P2")
    ∷ (0x30, "P3")
    ∷ (0x38, "IP")
    ∷ (0x28, "IE")
    ∷ (0x09, "TMOD")
    ∷ (0x08, "TCON")
    ∷ (0x0c, "TH0")
    ∷ (0x0a, "TL0")
    ∷ (0x0d, "TH1")
    ∷ (0x0b, "TL1")
    ∷ (0x18, "SCON")
    ∷ (0x07, "PCON")
    ∷ []

unfoldable pub mem_memonic : Variant → ℕ → List ℕ
mem_memonic variant v =
    let plain = print_hex 2 v ++ codes "h" in
    let name = find_name register_names plain (v - 0x80) in
    if ltb 0x7f v
    then elim variant [ Variant.sab80535 ↦ find_name sab_names name v | _ ↦ name ]
    else plain

unfoldable pub bitaddr_memonic : Variant → ℕ → List ℕ
bitaddr_memonic variant v =
    let base = bit_and v 0xf8 in
    let name = find_name register_bit_names (print_hex 2 base ++ codes "h") (base - 0x80) in
    let register =
      if ltb 0x7f v
      then elim variant [ Variant.sab80535 ↦ find_name sab_bit_names name base | _ ↦ name ]
      else print_hex 2 (v >>> 3) ++ codes "h" in
    register ++ (codes "." ++ print_int (bit_and v 7))

-- The pieces of a format string with their arguments.
pub data Piece : Type 0 where
  literal : String → Piece
  hex2 hex4 int offset : ℕ → Piece
  mem bit : Variant → ℕ → Piece

unfoldable pub print_piece : Piece → List ℕ
unfolding mem_memonic bitaddr_memonic
print_piece (literal s) = codes s
print_piece (hex2 v) = print_hex 2 v
print_piece (hex4 v) = print_hex 4 v
print_piece (int v) = print_int v
print_piece (offset v) = print_offset v
print_piece (mem variant v) = mem_memonic variant v
print_piece (bit variant v) = bitaddr_memonic variant v

-- `sprintf`.
unfoldable pub print : List Piece → List ℕ
print [] = []
print (p ∷ ps) = print_piece p ++ print ps

-- What a decoder reads: the variant, `aPosition`, and the macros OPCODE, OPERAND1 and OPERAND2.
pub record Fetch : Type 0 where
  pub variant : Variant
  pub position : ℕ
  pub opcode : ℕ
  pub operand1 : ℕ
  pub operand2 : ℕ

-- The macros over a code memory of which `max_idx` is the mask of addresses.
abbrev pub fetch : Variant → (ℕ → ℕ) → ℕ → ℕ → Fetch
fetch variant code max_idx position = record {
  variant = variant;
  position = position;
  opcode = code (bit_and (position + 0) max_idx);
  operand1 = code (bit_and (position + 1) max_idx);
  operand2 = code (bit_and (position + 2) max_idx);
}

-- A decoder: the size that it returns and what it prints.
abbrev pub Decoder : Type 0
Decoder = Fetch → ℕ × List Piece
