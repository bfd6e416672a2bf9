-- ===== src/Debug/Decode/Sound.antt =====
-- What the cache of predecessors knows (`emu_decode_completed` and the staged pairs of
-- `emu_decode_window` of emu_decode_internal.c).
use emu_sa80535_n.Base.{
  ℕ, ◌+◌, ◌<◌, ◌≡◌, ◌≢◌, true, Bool-cases, inl, inr, List, [], ◌∷◌, ltb, ◌==◌, not, ◌&&◌, update,
  update_ne, refl, sym, ◌∙◌, arith, if_either,
}
use emu_sa80535_n.Debug.Decode.{Cache, Decoder, decode_completed, learn, code_size}

-- Every address that is known follows its predecessor by the size of the instruction there.
unfoldable pub IsLink : Decoder → ℕ → ℕ → Type 0
IsLink decoder next before =
    (next < code_size) × ((decoder before).0 ≢ 0) × (before + (decoder before).0 ≡ next)

unfoldable pub IsCache : Decoder → Cache → Type 0
IsCache decoder cache = (a : ℕ) → cache.known a ≡ true → IsLink decoder a (cache.predecessor a)

-- Every pair of a list is a link.
unfoldable pub IsLinks : Decoder → List (ℕ × ℕ) → Type 0
IsLinks decoder [] = Unit
IsLinks decoder ((next, before) ∷ pairs) = IsLink decoder next before × IsLinks decoder pairs

store-IsCache :
    (decoder : Decoder) (cache : Cache) (next before : ℕ)
    → IsCache decoder cache
    → IsLink decoder next before
    → IsCache decoder (record cache {
      predecessor = update cache.predecessor next before;
      known = update cache.known next true;
    })
unfolding IsCache
store-IsCache decoder cache next before sound link a known = elim (Bool-cases (a == next)) [
  | inl here ↦ let e : a ≡ next = ground arith in rw (here, e) link
  | inr other ↦
      let ne : a ≢ next = ground arith in
      rw other (sound a (sym (update_ne cache.known next a true ne) ∙ known))
]

-- Storing links keeps a sound cache sound.
pub learn-IsCache :
    (decoder : Decoder) (pairs : List (ℕ × ℕ)) (cache : Cache)
    → IsCache decoder cache
    → IsLinks decoder pairs
    → IsCache decoder (learn cache pairs)
unfolding learn IsLinks
learn-IsCache decoder [] cache sound links = sound
learn-IsCache decoder ((next, before) ∷ pairs) cache sound (link, links) =
    learn-IsCache decoder pairs _ (store-IsCache decoder cache next before sound link) links

-- An instruction that completed with the size that the decoder gives leaves a sound cache sound.
pub decode_completed-IsCache :
    (decoder : Decoder) (cache : Cache) (pc resulting_pc : ℕ)
    → IsCache decoder cache
    → IsCache decoder (decode_completed cache pc (decoder pc).0 resulting_pc)
unfolding decode_completed
decode_completed-IsCache decoder cache pc resulting_pc sound =
    let size = (decoder pc).0 in
    let next = pc + size in
    if_either (IsCache decoder) (not (size == 0) && (ltb next code_size && resulting_pc == next))
      (record cache {
        predecessor = update cache.predecessor next pc;
        known = update cache.known next true;
      })
      cache
      (λ stored.
        store-IsCache decoder cache next pc sound
          (unfold IsLink in (ground arith, ground arith, refl)))
      (λ same. sound)
