-- ===== src/Disasm/Sizes.antt =====
-- The sizes and the texts of the decoders (disasm.c).
use emu_sa80535_n.Base.{
  ℕ, zero, suc, ◌+◌, ◌-◌, ◌/◌, ◌<◌, ◌≤◌, ◌≡◌, Bool, true, List, [], ◌∷◌, ◌++◌, ◌&&◌, ltb, leb, ◌==◌,
  length, length-append, if_either, arith, refl, sym, ap, subst, bit_and, ◌>>>◌,
}
use Prim.Native.String.{String}
use emu_sa80535_n.Base.Tables.{values, values_at}
use emu_sa80535_n.Cpu.{Variant}
use emu_sa80535_n.Disasm.Text.{
  Decoder, Fetch, Piece, literal, hex2, hex4, int, offset, mem, bit, print, print_piece, print_hex,
  print_int, print_offset, mem_memonic, bitaddr_memonic, find_name, codes, sab_names,
  register_names, sab_bit_names, register_bit_names,
}
use emu_sa80535_n.Disasm.Table.{disasm_setptrs}

-- The most characters that a piece takes.
abbrev width : Piece → ℕ
width (literal s) = length (codes s)
width (hex2 v) = 2
width (hex4 v) = 4
width (int v) = 3
width (offset v) = 4
width (mem variant v) = 5
width (bit variant v) = 9

abbrev widths : List Piece → ℕ
widths [] = 0
widths (p ∷ ps) = width p + widths ps

-- All names are short.
abbrev all_short : List (ℕ × String) → Bool
all_short [] = true
all_short ((k, name) ∷ rest) = leb (length (codes name)) 5 && all_short rest

find_name-le :
    (names : List (ℕ × String)) (default : List ℕ) (v : ℕ)
    → all_short names ≡ true
    → length default ≤ 5
    → length (find_name names default v) ≤ 5
find_name-le [] default v h le = le
find_name-le ((k, name) ∷ rest) default v h le =
    if_either (λ (t : List ℕ). length t ≤ 5) (v == k) (codes name) (find_name rest default v)
      (λ here. ground arith) (λ other. find_name-le rest default v (ground arith) le)

length-print_hex : (n v : ℕ) → length (print_hex n v) ≡ n
length-print_hex zero v = refl
length-print_hex (suc n) v =
    omega (arith, length-append (print_hex n (v / 16)) (_ ∷ []), length-print_hex n (v / 16))

length-print_int : (v : ℕ) → length (print_int v) ≤ 3
length-print_int v =
    if_either (λ (t : List ℕ). length t ≤ 3) (ltb v 10) _ _ (λ one. omega arith)
      (λ more.
        if_either (λ (t : List ℕ). length t ≤ 3) (ltb v 100) _ _ (λ two. omega arith)
          (λ three. omega arith))

length-print_offset : (v : ℕ) → length (print_offset v) ≤ 4
length-print_offset v =
    if_either (λ (t : List ℕ). length t ≤ 4) (ltb v 128) _ _
      (λ up. omega (arith, length-print_int v)) (λ down. omega (arith, length-print_int (256 - v)))

plain-le : (v : ℕ) → length (print_hex 2 v ++ codes "h") ≤ 5
plain-le v = omega arith

length-mem_memonic : (variant : Variant) (v : ℕ) → length (mem_memonic variant v) ≤ 5
unfolding mem_memonic
length-mem_memonic variant v =
    let plain = print_hex 2 v ++ codes "h" in
    let name : length (find_name register_names plain (v - 0x80)) ≤ 5 =
      find_name-le register_names plain (v - 0x80) refl (plain-le v) in
    if_either (λ (t : List ℕ). length t ≤ 5) (ltb 0x7f v) _ plain (λ high. of_variant variant name)
      (λ low. plain-le v)
  where
    of_variant :
        (w : Variant)
        → length (find_name register_names (print_hex 2 v ++ codes "h") (v - 0x80)) ≤ 5
        → length (elim w [
          | Variant.sab80535 ↦
              find_name sab_names
                (find_name register_names (print_hex 2 v ++ codes "h") (v - 0x80))
                v
          | _ ↦ find_name register_names (print_hex 2 v ++ codes "h") (v - 0x80)
        ])
          ≤ 5
    of_variant Variant.v8051 name = name
    of_variant Variant.v8052 name = name
    of_variant Variant.sab80535 name = find_name-le sab_names _ v refl name

length-bitaddr_memonic : (variant : Variant) (v : ℕ) → length (bitaddr_memonic variant v) ≤ 9
unfolding bitaddr_memonic
length-bitaddr_memonic variant v =
    let base = bit_and v 0xf8 in
    let default = print_hex 2 base ++ codes "h" in
    let low = print_hex 2 (v >>> 3) ++ codes "h" in
    let tail = codes "." ++ print_int (bit_and v 7) in
    let name : length (find_name register_bit_names default (base - 0x80)) ≤ 5 =
      find_name-le register_bit_names default (base - 0x80) refl (plain-le base) in
    if_either (λ (t : List ℕ). length (t ++ tail) ≤ 9) (ltb 0x7f v) _ low
      (λ high. long_enough _ (of_variant variant name))
      (λ less. long_enough low (plain-le (v >>> 3)))
  where
    long_enough :
        (t : List ℕ) → length t ≤ 5 → length (t ++ (codes "." ++ print_int (bit_and v 7))) ≤ 9
    long_enough t h = omega (
      arith,
      length-append t (codes "." ++ print_int (bit_and v 7)),
      length-print_int (bit_and v 7),
    )

    of_variant :
        (w : Variant)
        → length (
            find_name register_bit_names
              (print_hex 2 (bit_and v 0xf8) ++ codes "h")
              (bit_and v 0xf8 - 0x80))
          ≤ 5
        → length (elim w [
          | Variant.sab80535 ↦
              find_name sab_bit_names
                (find_name register_bit_names
                  (print_hex 2 (bit_and v 0xf8) ++ codes "h")
                  (bit_and v 0xf8 - 0x80))
                (bit_and v 0xf8)
          | _ ↦
              find_name register_bit_names
                (print_hex 2 (bit_and v 0xf8) ++ codes "h")
                (bit_and v 0xf8 - 0x80)
        ])
          ≤ 5
    of_variant Variant.v8051 name = name
    of_variant Variant.v8052 name = name
    of_variant Variant.sab80535 name = find_name-le sab_bit_names _ (bit_and v 0xf8) refl name

length-print_piece : (p : Piece) → length (print_piece p) ≤ width p
length-print_piece (literal s) = unfold print_piece in omega arith
length-print_piece (hex2 v) = unfold print_piece in omega (arith, length-print_hex 2 v)
length-print_piece (hex4 v) = unfold print_piece in omega (arith, length-print_hex 4 v)
length-print_piece (int v) = unfold print_piece in length-print_int v
length-print_piece (offset v) = unfold print_piece in length-print_offset v
length-print_piece (mem variant v) = unfold print_piece in length-mem_memonic variant v
length-print_piece (bit variant v) = unfold print_piece in length-bitaddr_memonic variant v

length-print : (ps : List Piece) → length (print ps) ≤ widths ps
unfolding print
length-print [] = omega arith
length-print (p ∷ ps) =
    omega (arith, length-append (print_piece p) (print ps), length-print_piece p, length-print ps)

module _ (before : ℕ → Decoder) where
  -- What a byte decodes to where it is the opcode that is read.
  abbrev pub decoded : Fetch → ℕ → ℕ × List Piece
  decoded f op = disasm_setptrs before op (record f { opcode = op })

  all_sizes :
      (f : Fetch)
      → values
          (λ op. leb 1 (disasm_setptrs before op f).0 && leb (disasm_setptrs before op f).0 3)
          0
          256
        ≡ values (λ op. true) 0 256
  unfolding disasm_setptrs
  all_sizes f = refl

  all_widths :
      (f : Fetch)
      → values (λ op. leb (widths (decoded f op).1) 30) 0 256 ≡ values (λ op. true) 0 256
  unfolding disasm_setptrs
  all_widths f = refl

  pub size_bounds :
      (op : ℕ) (f : Fetch)
      → op < 256
      → (1 ≤ (disasm_setptrs before op f).0) × ((disasm_setptrs before op f).0 ≤ 3)
  size_bounds op f h =
      let e : 0 + op ≡ op = omega arith in
      let at : (leb 1 (disasm_setptrs before op f).0 && leb (disasm_setptrs before op f).0 3)
          ≡ true =
        rw e at (
          values_at
            (λ k. leb 1 (disasm_setptrs before k f).0 && leb (disasm_setptrs before k f).0 3)
            (λ k. true) 256 0 op (all_sizes f) h) in
      (ground (arith, at), ground (arith, at))

  -- The text of an instruction whose opcode is the one that selects the decoder has at most 30
  -- characters, so that every buffer holds it.
  pub text_bounds :
      (op : ℕ) (f : Fetch)
      → op < 256
      → f.opcode ≡ op
      → length (print (disasm_setptrs before op f).1) ≤ 30
  text_bounds op f h same =
      let e : 0 + op ≡ op = omega arith in
      let own : (record f { opcode = op }) ≡ f =
        ap (λ (k : ℕ). record f { opcode = k }) (sym same) in
      let at : leb (widths (decoded f op).1) 30 ≡ true =
        rw e at (
          values_at (λ k. leb (widths (decoded f k).1) 30) (λ k. true) 256 0 op (all_widths f) h) in
      let le : length (print (decoded f op).1) ≤ 30 =
        ground (arith, at, length-print (decoded f op).1) in
      subst (λ c. length (print (disasm_setptrs before op c).1) ≤ 30) own le
