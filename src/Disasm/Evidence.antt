-- ===== src/Disasm/Evidence.antt =====
-- `em8051_decode_captured` against the decoder on the whole memory (disasm.c).
use emu_sa80535_n.Base.{
  ℕ, zero, suc, ◌+◌, ◌%◌, ◌<◌, ◌≤◌, ◌≡◌, ◌≢◌, true, false, List, [], ◌||◌, ltb, leb, ◌==◌,
  if◌then◌else◌, length, take, take-all, update, update_self, update_ne, bit_and, if_congr,
  Bool-cases, inl, inr, arith, refl, sym, ap, ◌∙◌,
}
use emu_sa80535_n.Base.Bits.{bit_and_mask}
use emu_sa80535_n.Base.Tables.{values, values_at}
use emu_sa80535_n.Cpu.{Variant}
use emu_sa80535_n.Debug.Decode.{decode_at}
use emu_sa80535_n.Debug.Decode.Total.{IsShort}
use emu_sa80535_n.Disasm.{disassemble, capture_code, decode_captured}
use emu_sa80535_n.Disasm.Text.{Decoder, Fetch, fetch, print}
use emu_sa80535_n.Disasm.Table.{disasm_setptrs}
use emu_sa80535_n.Disasm.Sizes.{decoded, size_bounds, text_bounds}

-- What is read of an instruction of `n` bytes.
abbrev cut : ℕ → Fetch → Fetch
cut n f = record f {
  operand1 = if leb 2 n then f.operand1 else 0;
  operand2 = if leb 3 n then f.operand2 else 0;
}

module _ (before : ℕ → Decoder) where
  all_cuts :
      (f : Fetch)
      → values (λ op. decoded before f op) 0 256
        ≡ values (λ op. decoded before (cut (decoded before f op).0 f) op) 0 256
  unfolding disasm_setptrs
  all_cuts f = refl

  -- A decoder reads no more bytes than the size that it returns.
  decode-cut :
      (op : ℕ) (f : Fetch)
      → op < 256
      → f.opcode ≡ op
      → disasm_setptrs before op f ≡ disasm_setptrs before op (cut (disasm_setptrs before op f).0 f)
  decode-cut op f h at =
      let e : 0 + op ≡ op = omega arith in
      let same : (record f { opcode = op }) ≡ f =
        ap (λ (k : ℕ). record f { opcode = k }) (sym at) in
      ap (λ c. disasm_setptrs before op c) (sym same)
      ∙ (rw e at (
          values_at (λ k. decoded before f k) (λ k. decoded before (cut (decoded before f k).0 f) k)
            256 0 op (all_cuts f) h))
      ∙ ap (λ c. disasm_setptrs before op (cut (disasm_setptrs before op c).0 c)) same

  all_lengths :
      (f g : Fetch)
      → values (λ op. (disasm_setptrs before op f).0) 0 256
        ≡ values (λ op. (disasm_setptrs before op g).0) 0 256
  unfolding disasm_setptrs
  all_lengths f g = refl

  -- The size depends on the opcode alone.
  same_length :
      (op : ℕ) (f g : Fetch)
      → op < 256
      → (disasm_setptrs before op f).0 ≡ (disasm_setptrs before op g).0
  same_length op f g h =
      let e : 0 + op ≡ op = omega arith in
      rw e at (
        values_at (λ k. (disasm_setptrs before k f).0) (λ k. (disasm_setptrs before k g).0) 256 0 op
          (all_lengths f g) h)

  -- Two memories with the same bytes of an instruction give the same size and text.
  decode-agrees :
      (op : ℕ) (f g : Fetch)
      → op < 256
      → f.opcode ≡ op
      → g.opcode ≡ op
      → f.variant ≡ g.variant
      → f.position ≡ g.position
      → (2 ≤ (disasm_setptrs before op f).0 → f.operand1 ≡ g.operand1)
      → (3 ≤ (disasm_setptrs before op f).0 → f.operand2 ≡ g.operand2)
      → disasm_setptrs before op f ≡ disasm_setptrs before op g
  decode-agrees op f g h at_f at_g variants positions first second =
      let n = (disasm_setptrs before op f).0 in
      let size : (disasm_setptrs before op g).0 ≡ n = same_length op g f h in
      let one : cut n f ≡ cut n g =
        cut_congr n f g variants positions (at_f ∙ sym at_g) first second in
      decode-cut op f h at_f
      ∙ ap (λ c. disasm_setptrs before op c) one
      ∙ ap (λ (k : ℕ). disasm_setptrs before op (cut k g)) (sym size)
      ∙ sym (decode-cut op g h at_g)
    where
      cut_congr :
          (n : ℕ) (f g : Fetch)
          → f.variant ≡ g.variant
          → f.position ≡ g.position
          → f.opcode ≡ g.opcode
          → (2 ≤ n → f.operand1 ≡ g.operand1)
          → (3 ≤ n → f.operand2 ≡ g.operand2)
          → cut n f ≡ cut n g
      cut_congr n f g variants positions opcodes first second =
          let low : (if leb 2 n then f.operand1 else 0) ≡ (if leb 2 n then g.operand1 else 0) =
            if_congr (leb 2 n) f.operand1 0 g.operand1 0 (λ yes. first (ground arith))
              (λ no. refl) in
          let high : (if leb 3 n then f.operand2 else 0) ≡ (if leb 3 n then g.operand2 else 0) =
            if_congr (leb 3 n) f.operand2 0 g.operand2 0 (λ yes. second (ground arith))
              (λ no. refl) in
          rw (variants, positions, opcodes, low, high) refl

places_differ : (pc i j : ℕ) → i < 4 → j < 4 → i ≢ j → bit_and (pc + i) 3 ≢ bit_and (pc + j) 3
places_differ pc i j h k ne same =
    let at_i : bit_and (pc + i) 3 ≡ (pc + i) % 4 = bit_and_mask 2 (pc + i) in
    let at_j : bit_and (pc + j) 3 ≡ (pc + j) % 4 = bit_and_mask 2 (pc + j) in omega arith

capture_code-below :
    (n i pc : ℕ) (bytes code : ℕ → ℕ) (k : ℕ)
    → k < i
    → i + n ≤ 4
    → capture_code i n pc bytes code (bit_and (pc + k) 3) ≡ code (bit_and (pc + k) 3)
unfolding capture_code
capture_code-below zero i pc bytes code k h le = refl
capture_code-below (suc n) i pc bytes code k h le =
    capture_code-below n (i + 1) pc bytes (update code (bit_and (pc + i) 3) (bytes i)) k
      (omega arith) (omega arith)
    ∙ update_ne code (bit_and (pc + i) 3) (bit_and (pc + k) 3) (bytes i)
        (places_differ pc k i (omega arith) (omega arith) (omega arith))

capture_code-at :
    (n i pc : ℕ) (bytes code : ℕ → ℕ) (k : ℕ)
    → i ≤ k
    → k < i + n
    → i + n ≤ 4
    → capture_code i n pc bytes code (bit_and (pc + k) 3) ≡ bytes k
unfolding capture_code
capture_code-at zero i pc bytes code k low high le = absurd (omega arith)
capture_code-at (suc n) i pc bytes code k low high le =
    let next = update code (bit_and (pc + i) 3) (bytes i) in
    elim (Bool-cases (k == i)) [
      | inl here ↦
          let e : k ≡ i = ground arith in
          rw e (
            capture_code-below n (i + 1) pc bytes next i (omega arith) (omega arith)
            ∙ update_self code (bit_and (pc + i) 3) (bytes i))
      | inr later ↦
          let ne : k ≢ i = ground arith in
          capture_code-at n (i + 1) pc bytes next k (omega arith) (omega arith) (omega arith)
    ]

-- With one to three captured bytes that are those of the code memory at PC, `em8051_decode_captured`
-- returns the size that the disassembler gives on that memory, and its whole text where all bytes
-- of the instruction are captured, and no text where one is missing.
pub decode_captured_lem :
    (before : ℕ → Decoder) (variant : Variant) (code : ℕ → ℕ) (max_idx pc : ℕ) (bytes : ℕ → ℕ)
    (count : ℕ)
    → 0 < count
    → count ≤ 3
    → bytes 0 < 256
    → ((i : ℕ) → i < count → bytes i ≡ code (bit_and (pc + i) max_idx))
    → decode_captured (disasm_setptrs before) variant pc bytes count ≡ (
      (disassemble (disasm_setptrs before (bytes 0)) variant code max_idx pc).0,
      if leb (disassemble (disasm_setptrs before (bytes 0)) variant code max_idx pc).0 count
          then (disassemble (disasm_setptrs before (bytes 0)) variant code max_idx pc).1
          else [],
    )
unfolding decode_captured disassemble
decode_captured_lem before variant code max_idx pc bytes count some few small same =
    let view = capture_code 0 count pc bytes (λ i. 0) in
    let f = fetch variant code max_idx pc in
    let g = fetch variant view 3 pc in
    let at : (k : ℕ) → k < count → view (bit_and (pc + k) 3) ≡ code (bit_and (pc + k) max_idx) =
      λ k lt.
        capture_code-at count 0 pc bytes (λ i. 0) k (omega arith) (omega arith) (omega arith)
        ∙ same k lt in
    let op = bytes 0 in
    let opcode_f : f.opcode ≡ op = sym (same 0 some) in
    let opcode_g : g.opcode ≡ op = at 0 some ∙ opcode_f in
    let size : (disasm_setptrs before op g).0 ≡ (disasm_setptrs before op f).0 =
      same_length before op g f small in
    let room : (count == 0 || ltb 3 count) ≡ false = ground arith in
    let n = (disasm_setptrs before op f).0 in
    let text : leb n count ≡ true
        → take 96 (print (disasm_setptrs before op g).1) ≡ print (disasm_setptrs before op f).1 =
      λ whole.
        let le : n ≤ count = ground arith in
        let agree =
          decode-agrees before op g f small opcode_g opcode_f refl refl
            (λ two. at 1 (omega (arith, size))) (λ three. at 2 (omega (arith, size))) in
        rw agree (take-all 96 _ (omega (arith, text_bounds before op f small opcode_f))) in
    rw (room, size)
      (ap (λ (t : List ℕ). (n, t))
        (if_congr (leb n count) (take 96 (print (disasm_setptrs before op g).1)) []
          (print (disasm_setptrs before op f).1) [] text (λ no. refl)))

-- Over a code memory of bytes every instruction is one to three bytes long, so that the windows of
-- the debugger can rely on it.
pub disassemble-IsShort :
    (before : ℕ → Decoder) (variant : Variant) (code : ℕ → ℕ) (max_idx : ℕ)
    → ((a : ℕ) → code a < 256)
    → IsShort (decode_at (λ op. disassemble (disasm_setptrs before op) variant code max_idx) code)
unfolding IsShort decode_at disassemble
disassemble-IsShort before variant code max_idx small a =
    size_bounds before (code a) (fetch variant code max_idx a) (small a)

-- Where the code memory holds a byte at the address, the disassembler returns a size of one to three
-- and prints at most 30 characters there, so that the text fits into every buffer for it.
pub disassemble_lem :
    (before : ℕ → Decoder) (variant : Variant) (code : ℕ → ℕ) (max_idx position op : ℕ)
    → code (bit_and (position + 0) max_idx) ≡ op
    → op < 256
    → (1 ≤ (disassemble (disasm_setptrs before op) variant code max_idx position).0)
      × ((disassemble (disasm_setptrs before op) variant code max_idx position).0 ≤ 3)
      × (length (disassemble (disasm_setptrs before op) variant code max_idx position).1 ≤ 30)
unfolding disassemble
disassemble_lem before variant code max_idx position op at small =
    let f = fetch variant code max_idx position in
    let size = size_bounds before op f small in (size.0, size.1, text_bounds before op f small at)
