-- ===== src/Debug/Decode.antt =====
-- The window of decoded instructions and the cache of predecessors of emu_decode_internal.c. The
-- decoder of an instruction and whether `calloc` succeeds are parameters; pointers are valid.
pub mod Sound
pub mod Window
pub mod Total
use emu_sa80535_n.Base.{
  ℕ, zero, suc, ◌+◌, ◌-◌, ◌%◌, ◌<◌, Bool, true, false, not, ◌&&◌, ◌||◌, List, [], ◌∷◌, ◌++◌, ltb,
  leb, ◌==◌, if◌then◌else◌, u8, u16, update, length,
}
use emu_sa80535_n.Base.Int.{ℤ, pos, negsuc, pos_part, neg_part}

abbrev pub code_size : ℕ
code_size = 65536

abbrev pub max_instructions : ℕ
max_instructions = 256

-- The values of `enum em8051_debug_status` that a window returns.
pub data Status : Type 0 where
  ok invalid_argument range internal : Status

-- `struct em8051_debug_decoded`.
pub record Decoded : Type 0 where
  pub address : ℕ
  pub size : ℕ
  pub valid : Bool
  pub text : List ℕ

-- `struct emu_decode_cache`.
pub record Cache : Type 0 where
  pub predecessor : ℕ → ℕ
  pub known : ℕ → Bool

unfoldable pub decode_clear : Cache → Cache
decode_clear cache = record cache { known = λ a. false }

-- `emu_decode_completed`, where an instruction at `pc` has gone on to `resulting_pc`.
unfoldable pub decode_completed : Cache → ℕ → ℕ → ℕ → Cache
decode_completed cache pc size resulting_pc =
    let sequential = pc + size in
    if not (size == 0) && (ltb sequential code_size && resulting_pc == sequential)
    then record cache {
      predecessor = update cache.predecessor sequential pc;
      known = update cache.known sequential true;
    }
    else cache

unfoldable pub invalid_record : ℕ → Decoded
invalid_record address = record {
  address = address;
  size = 1;
  valid = false;
  text = b'<' ∷ b'i' ∷ b'n' ∷ b'v' ∷ b'a' ∷ b'l' ∷ b'i' ∷ b'd' ∷ b'>' ∷ [];
}

-- A failure is a status that is not `ok`.
pub data Outcome {ℓ} (A : Type ℓ) : Type ℓ where
  done : A → Outcome A
  failed : Status → Outcome A

abbrev pub and_then {ℓ κ} : {A : Type ℓ} {B : Type κ} → Outcome A → (A → Outcome B) → Outcome B
and_then (done a) f = f a
and_then (failed s) f = failed s

-- What a decoder gives: the size and the text of the instruction at an address.
abbrev pub Decoder : Type 0
Decoder = ℕ → ℕ × List ℕ

-- `emu_decode_at`: the decoder of the array `dec` for the opcode at the address.
unfoldable pub decode_at : (ℕ → Decoder) → (ℕ → ℕ) → Decoder
decode_at dec code address = dec (code address) address

unfoldable pub decode_record : Decoder → ℕ → Outcome Decoded
decode_record decoder address =
    let size = (decoder address).0 in
    let text = (decoder address).1 in
    if ltb 0xffff address || (size == 0 || ltb code_size (address + size))
    then failed range
    else done (record { address = address; size = size; valid = true; text = text })

-- A step back: the cursor, whether all predecessors so far are known, and the record.
unfoldable pub step_back : Decoder → Cache → ℕ → Bool → Outcome (ℕ × Bool × Decoded)
unfolding decode_record invalid_record
step_back decoder cache cursor known =
    let before = cache.predecessor cursor in
    if known && cache.known cursor
    then and_then (decode_record decoder before) (λ r. done (before, true, r))
    else if cursor == 0
    then failed range
    else done (cursor - 1, false, invalid_record (cursor - 1))

-- The loop over the predecessors: `n` more steps back. The records are those of the array
-- `temporary`, which takes the last `keep` of them in the opposite order.
unfoldable pub walk_back :
    Decoder → Cache → ℕ → ℕ → Bool → ℕ → List Decoded → Outcome (List Decoded)
unfolding step_back
walk_back decoder cache keep cursor known zero temporary = done temporary
walk_back decoder cache keep cursor known (suc n) temporary =
    and_then (step_back decoder cache cursor known) (λ s.
      walk_back decoder cache keep s.0 s.1 n (if ltb n keep then s.2 ∷ temporary else temporary))

-- The loop over the instructions that are skipped.
unfoldable pub skip_forward : Decoder → ℕ → ℕ → Outcome ℕ
unfolding decode_record
skip_forward decoder cursor zero = done cursor
skip_forward decoder cursor (suc n) = and_then (decode_record decoder cursor) (λ r.
    let next = cursor + r.size in
    if ltb 0xffff next then failed range else skip_forward decoder next n)

-- The loop that fills the window with `n` more records; beside them, the pairs of an address and
-- its predecessor in the order in which they are staged.
unfoldable pub fill_window : Decoder → ℕ → ℕ → Outcome (List Decoded × List (ℕ × ℕ))
unfolding decode_record
fill_window decoder cursor zero = done ([], [])
fill_window decoder cursor (suc n) = and_then (decode_record decoder cursor) (λ r.
    let next = cursor + r.size in
    let more = fill_window decoder next n in
    if not (n == 0) && ltb 0xffff next
    then failed range
    else and_then more
        (λ w. done (r ∷ w.0, if ltb next code_size then (next, cursor) ∷ w.1 else w.1)))

-- The loop that stores the staged pairs.
unfoldable pub learn : Cache → List (ℕ × ℕ) → Cache
learn cache [] = cache
learn cache ((next, before) ∷ pairs) =
    learn
      (record cache {
        predecessor = update cache.predecessor next before;
        known = update cache.known next true;
      })
      pairs

-- An offset of an `int32_t` parameter within its bounds.
unfoldable pub offset_valid : ℤ → Bool
offset_valid z = leb (neg_part z) 65536 && leb (pos_part z) 65536

-- The records before the base and the place where the window goes on.
unfoldable pub window_start : Decoder → Cache → Bool → ℕ → ℤ → ℕ → Outcome (List Decoded × ℕ)
unfolding walk_back skip_forward
window_start decoder cache allocated base (pos n) count =
    and_then (skip_forward decoder base n) (λ cursor. done ([], cursor))
window_start decoder cache allocated base (negsuc n) count =
    let keep = if ltb (suc n) count then suc n else count in
    if not allocated
    then failed internal
    else and_then (walk_back decoder cache keep base true (suc n) [])
        (λ records. done (records, base))

-- `emu_decode_window`: the records and the cache afterwards; a failure changes neither.
unfoldable pub decode_window :
    (ℕ → Decoder) → (ℕ → ℕ) → Bool → Cache → ℕ → ℤ → ℤ → ℕ → Outcome (List Decoded × Cache)
decode_window dec code allocated cache reference byte_offset instruction_offset count =
    let decoder = decode_at dec code in
    let base = reference + pos_part byte_offset - neg_part byte_offset in
    if count == 0
      || (ltb max_instructions count
          || (not (offset_valid byte_offset) || not (offset_valid instruction_offset)))
    then failed invalid_argument
    else if ltb (reference + pos_part byte_offset) (neg_part byte_offset) || ltb 0xffff base
    then failed range
    else and_then (window_start decoder cache allocated base instruction_offset count) (λ s.
      and_then (fill_window decoder s.1 (count - length s.0))
        (λ w. done (s.0 ++ w.0, learn cache w.1)))
