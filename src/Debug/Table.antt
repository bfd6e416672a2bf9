-- ===== src/Debug/Table.antt =====
-- The table of watches of emu_debug_event.c, which is replaced as a whole.
pub mod Sorted
use emu_sa80535_n.Base.{
  ℕ, Bool, true, false, not, List, [], ◌∷◌, ltb, ◌==◌, ◌||◌, if◌then◌else◌, length,
}
use mathlib.Core.List.{reverse}
use emu_sa80535_n.Debug.Event.{
  Watch, Status, ok, limit, invalid_argument, duplicate_id, max_watches,
}
use emu_sa80535_n.Debug.Watch.{watch_valid}

-- The array `sorted`, its last element first: greater ids are moved up until the place is found.
unfoldable pub insert_watch : Watch → List Watch → List Watch
insert_watch w [] = w ∷ []
insert_watch w (x ∷ xs) =
    let moved = x ∷ insert_watch w xs in if ltb w.id x.id then moved else w ∷ (x ∷ xs)

unfoldable pub sort_watches : List Watch → List Watch → List Watch
unfolding insert_watch
sort_watches [] sorted = sorted
sort_watches (w ∷ rest) sorted = sort_watches rest (insert_watch w sorted)

unfoldable pub all_valid : List Watch → Bool
unfolding watch_valid
all_valid [] = true
all_valid (w ∷ rest) = let others = all_valid rest in if watch_valid w then others else false

-- Two neighbours with the same id.
unfoldable pub has_duplicate : List Watch → Bool
has_duplicate [] = false
has_duplicate (x ∷ []) = false
has_duplicate (x ∷ y ∷ rest) = x.id == y.id || has_duplicate (y ∷ rest)

-- The new table is stored only when nothing is wrong with it.
unfoldable pub table_replace : List Watch → List Watch → Status × List Watch
unfolding all_valid sort_watches has_duplicate
table_replace table watches =
    let sorted = reverse (sort_watches watches []) in
    if ltb max_watches (length watches)
    then (limit, table)
    else if not (all_valid watches)
    then (invalid_argument, table)
    else if has_duplicate sorted
    then (duplicate_id, table)
    else (ok, sorted)
