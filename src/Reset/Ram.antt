-- ===== src/Reset/Ram.antt =====
-- What a reset leaves in memory.
use emu_sa80535_n.Base.{
  ℕ, zero, suc, ◌+◌, ◌<◌, ◌≡◌, arith, refl, Bool, true, false, if◌then◌else◌, ◌==◌, not, ◌||◌,
  Bool-cases, inl, inr,
}
use emu_sa80535_n.Cpu.{Cpu}
use emu_sa80535_n.Reset.{random_fill, random_after, clear_to, wipe_memory, reset, has_upper_iram}

random_fill-overwrites :
    (seed n : ℕ) (f g : ℕ → ℕ) (i : ℕ) → i < n → random_fill seed n f i ≡ random_fill seed n g i
unfolding random_fill
random_fill-overwrites seed zero f g i lt = absurd (omega arith)
random_fill-overwrites seed (suc n) f g i lt = elim (Bool-cases (i == n)) [
  | inl e ↦ rw e refl
  | inr ne ↦ rw ne (random_fill-overwrites seed n f g i (ground arith))
]

clear_to-overwrites : (n : ℕ) (f g : ℕ → ℕ) (i : ℕ) → i < n → clear_to n f i ≡ clear_to n g i
unfolding clear_to
clear_to-overwrites n f g i lt = ground arith

filled : Bool → ℕ → ℕ → (ℕ → ℕ) → ℕ → ℕ
filled seeded seed n f = if seeded then random_fill seed n f else clear_to n f

filled-overwrites :
    (seeded : Bool) (seed n : ℕ) (f g : ℕ → ℕ) (i : ℕ)
    → i < n
    → filled seeded seed n f i ≡ filled seeded seed n g i
unfolding filled
filled-overwrites true seed n f g i lt = random_fill-overwrites seed n f g i lt
filled-overwrites false seed n f g i lt = clear_to-overwrites n f g i lt

overwritten :
    (up owned : Bool) (x x' y y' : ℕ → ℕ) (i : ℕ)
    → y i ≡ y' i
    → (if not (if up then true else owned) then x else y) i
      ≡ (if up || owned then (if not (if up then true else owned) then x' else y') i else x i)
overwritten true owned x x' y y' i same = same
overwritten false true x x' y y' i same = same
overwritten false false x x' y y' i same = refl

-- The state with other memories.
abbrev pub with_memory : (ℕ → ℕ) → (ℕ → ℕ) → (ℕ → ℕ) → Cpu → Cpu
with_memory code lower upper c = record c {
  code_mem = code;
  lower_data = lower;
  owned_upper_data = upper;
}

-- A cold reset leaves nothing of the earlier contents of code memory and of internal memory, where
-- the upper half is there at all, and a warm one keeps all of it.
pub reset_lem :
    (rand : ℕ) (c : Cpu) (code lower upper : ℕ → ℕ)
    → let d = reset rand true c in
      let other = reset rand true (with_memory code lower upper c) in
      let kept = reset rand false c in
      ((i : ℕ) → i < 128 → other.lower_data i ≡ d.lower_data i)
      × ((i : ℕ)
          → i < 128
          → other.owned_upper_data i
            ≡ (if has_upper_iram c.variant || c.upper_data then d.owned_upper_data i else upper i))
      × ((i : ℕ) → i < c.code_mem_max_idx + 1 → other.code_mem i ≡ d.code_mem i)
      × (kept.lower_data ≡ c.lower_data)
      × (kept.owned_upper_data ≡ c.owned_upper_data)
      × (kept.code_mem ≡ c.code_mem)
unfolding reset wipe_memory filled
reset_lem rand c code lower upper = (
  λ i lt. filled-overwrites c.reset_seed_configured c.reset_seed 128 lower c.lower_data i lt,
  λ i lt.
      let seed = random_after c.reset_seed 128 in
      overwritten (has_upper_iram c.variant) c.upper_data upper c.owned_upper_data
        (filled c.reset_seed_configured seed 128 upper)
        (filled c.reset_seed_configured seed 128 c.owned_upper_data) i
        (filled-overwrites c.reset_seed_configured seed 128 upper c.owned_upper_data i lt),
  λ i lt. clear_to-overwrites (c.code_mem_max_idx + 1) code c.code_mem i lt,
  refl,
  refl,
  refl,
)
