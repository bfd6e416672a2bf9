-- ===== src/Debug/Table/Sorted.antt =====
-- What a replacement of the watch table stores.
use mathlib.Core.List.{
  map, reverse, reverse-cons, reverse_perm, Perm, Nodup, Nodup-cons, mem-cons_self, perm_middle,
  append-nil,
}
use mathlib.Core.List.Perm
use emu_sa80535_n.Base.{
  ℕ, ◌≤◌, ◌<◌, ◌≡◌, ◌⊎◌, inl, inr, true, false, List, [], ◌∷◌, ◌++◌, arith, subst, refl, ltb, ◌==◌,
  length, Bool-cases,
}
use emu_sa80535_n.Debug.Event.{Watch, ok, duplicate_id}
use emu_sa80535_n.Debug.Table.{insert_watch, sort_watches, all_valid, has_duplicate, table_replace}

insert_watch-perm : (w : Watch) (xs : List Watch) → Perm (insert_watch w xs) (w ∷ xs)
unfolding insert_watch
insert_watch-perm w [] = Perm.refl (w ∷ [])
insert_watch-perm w (x ∷ xs) = elim (Bool-cases (ltb w.id x.id)) [
  | inl e ↦ rw e (Perm.trans (Perm.cons x (insert_watch-perm w xs)) (Perm.swap w x xs))
  | inr e ↦ rw e (Perm.refl (w ∷ (x ∷ xs)))
]

sort_watches-perm : (ws sorted : List Watch) → Perm (sort_watches ws sorted) (ws ++ sorted)
unfolding sort_watches
sort_watches-perm [] sorted = Perm.refl sorted
sort_watches-perm (w ∷ ws) sorted =
    Perm.trans (sort_watches-perm ws (insert_watch w sorted))
      (Perm.trans (Perm.append_left ws (insert_watch-perm w sorted)) (perm_middle ws sorted))

-- The ids of a list, each at most `n` or at least `n`.
abbrev AtMost : ℕ → List Watch → Type 0
AtMost n [] = Unit
AtMost n (x ∷ xs) = (x.id ≤ n) × AtMost n xs

abbrev Descends : List Watch → Type 0
Descends [] = Unit
Descends (x ∷ xs) = AtMost x.id xs × Descends xs

abbrev AtLeast : ℕ → List Watch → Type 0
AtLeast n [] = Unit
AtLeast n (x ∷ xs) = (n ≤ x.id) × AtLeast n xs

abbrev Rises : List Watch → Type 0
Rises [] = Unit
Rises (x ∷ xs) = AtLeast x.id xs × Rises xs

AtMost-le : (m n : ℕ) (xs : List Watch) → m ≤ n → AtMost m xs → AtMost n xs
AtMost-le m n [] le h = tt
AtMost-le m n (x ∷ xs) le h = (omega arith, AtMost-le m n xs le h.1)

insert_watch-AtMost :
    (n : ℕ) (w : Watch) (xs : List Watch) → w.id ≤ n → AtMost n xs → AtMost n (insert_watch w xs)
unfolding insert_watch
insert_watch-AtMost n w [] le h = (le, tt)
insert_watch-AtMost n w (x ∷ xs) le h = elim (Bool-cases (ltb w.id x.id)) [
  | inl e ↦ rw e (h.0, insert_watch-AtMost n w xs le h.1)
  | inr e ↦ rw e (le, (h.0, h.1))
]

insert_watch-Descends : (w : Watch) (xs : List Watch) → Descends xs → Descends (insert_watch w xs)
unfolding insert_watch
insert_watch-Descends w [] h = (tt, tt)
insert_watch-Descends w (x ∷ xs) h = elim (Bool-cases (ltb w.id x.id)) [
  | inl e ↦ rw e (insert_watch-AtMost x.id w xs (ground arith) h.0, insert_watch-Descends w xs h.1)
  | inr e ↦
      let le : x.id ≤ w.id = ground arith in rw e ((le, AtMost-le x.id w.id xs le h.0), (h.0, h.1))
]

sort_watches-Descends :
    (ws sorted : List Watch) → Descends sorted → Descends (sort_watches ws sorted)
unfolding sort_watches
sort_watches-Descends [] sorted h = h
sort_watches-Descends (w ∷ ws) sorted h =
    sort_watches-Descends ws (insert_watch w sorted) (insert_watch-Descends w sorted h)

AtLeast-append :
    (n : ℕ) (xs : List Watch) (y : Watch) → AtLeast n xs → n ≤ y.id → AtLeast n (xs ++ (y ∷ []))
AtLeast-append n [] y h le = (le, tt)
AtLeast-append n (x ∷ xs) y h le = (h.0, AtLeast-append n xs y h.1 le)

Rises-append : (xs : List Watch) (y : Watch) → Rises xs → AtMost y.id xs → Rises (xs ++ (y ∷ []))
Rises-append [] y r m = (tt, tt)
Rises-append (x ∷ xs) y r m = (AtLeast-append x.id xs y r.0 m.0, Rises-append xs y r.1 m.1)

AtMost-append :
    (n : ℕ) (xs : List Watch) (y : Watch) → AtMost n xs → y.id ≤ n → AtMost n (xs ++ (y ∷ []))
AtMost-append n [] y h le = (le, tt)
AtMost-append n (x ∷ xs) y h le = (h.0, AtMost-append n xs y h.1 le)

AtMost-reverse : (n : ℕ) (xs : List Watch) → AtMost n xs → AtMost n (reverse xs)
AtMost-reverse n [] h = tt
AtMost-reverse n (x ∷ xs) h =
    rw (reverse-cons x xs) (AtMost-append n (reverse xs) x (AtMost-reverse n xs h.1) h.0)

Rises-reverse : (xs : List Watch) → Descends xs → Rises (reverse xs)
Rises-reverse [] h = tt
Rises-reverse (x ∷ xs) h =
    rw (reverse-cons x xs)
      (Rises-append (reverse xs) x (Rises-reverse xs h.1) (AtMost-reverse x.id xs h.0))

-- The ids of neighbours grow.
abbrev pub Ascends : List Watch → Type 0
Ascends [] = Unit
Ascends (x ∷ []) = Unit
Ascends (x ∷ y ∷ rest) = (x.id < y.id) × Ascends (y ∷ rest)

Rises-Ascends : (xs : List Watch) → Rises xs → has_duplicate xs ≡ false → Ascends xs
unfolding has_duplicate
Rises-Ascends [] r h = tt
Rises-Ascends (x ∷ []) r h = tt
Rises-Ascends (x ∷ y ∷ rest) r h = elim (Bool-cases (x.id == y.id)) [
  | inl e ↦ absurd (ground arith)
  | inr e ↦ (ground arith, Rises-Ascends (y ∷ rest) r.1 (ground arith))
]

has_duplicate-not_Nodup :
    (xs : List Watch) → has_duplicate xs ≡ true → ¬ Nodup (map (λ (w : Watch). w.id) xs)
unfolding has_duplicate
has_duplicate-not_Nodup [] h d = cc
has_duplicate-not_Nodup (x ∷ []) h d = cc
has_duplicate-not_Nodup (x ∷ y ∷ rest) h d = elim (Bool-cases (x.id == y.id)) [
  | inl e ↦ let same : x.id ≡ y.id = ground arith in (Nodup-cons.0 d).0 (rw same mem-cons_self)
  | inr e ↦ has_duplicate-not_Nodup (y ∷ rest) (ground arith) (Nodup-cons.0 d).1
]

-- Of at most 64 valid watches the replacement makes a table that has just these watches, their ids
-- growing from one to the next; where two of them share an id, it reports a duplicate and leaves
-- the table as it was.
pub table_replace_lem :
    (table watches : List Watch)
    → length watches ≤ 64
    → all_valid watches ≡ true
    → (((table_replace table watches).0 ≡ ok)
        × Perm (table_replace table watches).1 watches
        × Ascends (table_replace table watches).1)
      ⊎ ((table_replace table watches ≡ (duplicate_id, table))
          × ¬ Nodup (map (λ (w : Watch). w.id) watches))
unfolding table_replace
table_replace_lem table watches small valid =
    let fits : ltb 64 (length watches) ≡ false = ground arith in
    let sorted = sort_watches watches [] in
    let falls = sort_watches-Descends watches [] tt in
    let perm =
      Perm.trans (reverse_perm sorted)
        (subst (Perm sorted) (append-nil watches) (sort_watches-perm watches [])) in
    rw (fits, valid)
      (elim (Bool-cases (has_duplicate (reverse sorted))) [
        | inl e ↦ rw e (
            inr (
              refl,
              λ d.
                  has_duplicate-not_Nodup (reverse sorted) e
                    (Perm.nodup (Perm.map (λ (w : Watch). w.id) (Perm.symm perm)) d),
            ))
        | inr e ↦
            rw e (inl (refl, perm, Rises-Ascends (reverse sorted) (Rises-reverse sorted falls) e))
      ])
