-- ===== src/Hex/Returns.antt =====
-- `load_obj` of emu.c returns on every file.
use emu_sa80535_n.Base.{
  ℕ, zero, suc, ◌+◌, ◌-◌, ◌^◌, ◌<◌, ◌≤◌, ◌≡◌, true, false, not, List, [], ◌∷◌, Option, some, none,
  ltb, ◌==◌, u8, u32, ◌>>>◌, update, bit_and, length, if_either, if◌then◌else◌, refl, arith, ◌⊎◌,
  inl, inr,
}
use emu_sa80535_n.Base.Int.{ℤ, negsuc}
use emu_sa80535_n.Hex.{
  File, next_char, readbyte, load_data, skip_line, read_header, load_records, load_obj,
}

length-next_char : (cs : List ℕ) → length (next_char cs).1.rest ≡ length cs - 1
length-next_char [] = refl
length-next_char (c ∷ cs) = omega arith

length-readbyte : (f : File) → length (readbyte f).1.rest ≡ length f.rest - 2
unfolding readbyte
length-readbyte f =
    omega (arith, length-next_char f.rest, length-next_char (next_char f.rest).1.rest)

length-read_header : (f : File) → length (read_header f).after.rest ≡ length f.rest - 8
unfolding read_header
length-read_header f =
    let l = (readbyte f).1 in
    let h = (readbyte l).1 in
    let a = (readbyte h).1 in
    omega (arith, length-readbyte f, length-readbyte l, length-readbyte h, length-readbyte a)

length-load_data :
    (n i address checksum : ℕ) (f : File) (mem : ℕ → ℕ)
    → length (load_data i n address checksum f mem).1.rest ≤ length f.rest
unfolding load_data
length-load_data zero i address checksum f mem = omega arith
length-load_data (suc n) i address checksum f mem = omega (
  arith,
  length-readbyte f,
  length-load_data n (i + 1) address (u32 (checksum + (readbyte f).0)) (readbyte f).1
      (update mem (u32 (address + i)) (u8 (readbyte f).0)),
)

-- Skipping leaves a shorter text, or the end.
skip_line-shorter :
    (cs : List ℕ) → (length (skip_line cs).rest < length cs) ⊎ ((skip_line cs).eof ≡ true)
unfolding skip_line
skip_line-shorter [] = inr refl
skip_line-shorter (c ∷ cs) =
    if_either (λ (f : File). (length f.rest < suc (length cs)) ⊎ (f.eof ≡ true)) (c == b':') _ _
      (λ colon. inl (omega arith))
      (λ other. elim (skip_line-shorter cs) [ inl lt ↦ inl (omega arith) | inr e ↦ inr e ])

abbrev Returns : Option (ℤ × (ℕ → ℕ)) → Type 0
Returns o = (r : ℤ × (ℕ → ℕ)) × (o ≡ some r)

load_records-Returns :
    (fuel : ℕ) (f : File) (mem : ℕ → ℕ)
    → (length f.rest + 1 < fuel) ⊎ ((f.eof ≡ true) × (0 < fuel))
    → Returns (load_records fuel f mem)
unfolding load_records
load_records-Returns zero f mem h = elim h [
  | inl lt ↦ absurd (omega arith)
  | inr (e, lt) ↦ absurd (omega arith)
]
load_records-Returns (suc fuel) f mem (inr (e, lt)) = ((negsuc 4, mem), rw e refl)
load_records-Returns (suc fuel) f mem (inl lt) =
    let h = read_header f in
    let start = u32 (h.recordtype + h.recordlength + bit_and h.address 0xff + (h.address >>> 8)) in
    let passes = if ltb h.recordlength (2 ^ 31) then h.recordlength else 0 in
    let loaded = load_data 0 passes h.address start h.after mem in
    let last = readbyte loaded.1 in
    let shorter : length last.1.rest ≤ length f.rest = omega (
      arith,
      length-read_header f,
      length-load_data passes 0 h.address start h.after mem,
      length-readbyte loaded.1,
    ) in
    let enough =
      elim (skip_line-shorter last.1.rest)
        as (λ t.
          (length (skip_line last.1.rest).rest + 1 < fuel)
          ⊎ (((skip_line last.1.rest).eof ≡ true) × (0 < fuel))) [
            | inl less ↦ inl (omega arith)
            | inr e ↦ inr (e, omega arith)
          ] in
    let rest = load_records-Returns fuel (skip_line last.1.rest) loaded.2 enough in
    if_either Returns f.eof _ _ (λ e. (_, refl))
      (λ on.
        if_either Returns (h.recordtype == 1) _ _ (λ e. (_, refl))
          (λ more.
            if_either Returns (not (h.recordtype == 0)) _ _ (λ e. (_, refl))
              (λ bytes. if_either Returns (not (last.0 == _)) _ _ (λ e. (_, refl)) (λ good. rest))))

-- Loading returns a result for every file, whether it can be opened, and whatever it holds.
pub load_obj_returns :
    (file : Option (List ℕ)) (mem : ℕ → ℕ) → (r : ℤ × (ℕ → ℕ)) × (load_obj file mem ≡ some r)
unfolding load_obj
load_obj_returns none mem = (_, refl)
load_obj_returns (some []) mem = (_, refl)
load_obj_returns (some (c ∷ cs)) mem =
    if_either Returns (c == b':') _ _
      (λ colon.
        load_records-Returns (length cs + 2) (record { rest = cs; eof = false }) mem
          (inl (omega arith)))
      (λ other. (_, refl))
