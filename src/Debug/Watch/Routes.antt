-- ===== src/Debug/Watch/Routes.antt =====
-- The trace ids that a match reports: in ascending order, and no more than the array holds.
use emu_sa80535_n.Base.{
  ℕ, suc, ◌≤◌, ◌<◌, ◌≡◌, inl, inr, refl, true, ◌||◌, List, [], ◌∷◌, arith, ltb, ◌==◌, if◌then◌else◌,
  length, Bool-cases,
}
use emu_sa80535_n.Debug.Watch.{contains, insert_route, insert_routes}

-- Every number of the list is above `n`; the list grows strictly.
abbrev Above : ℕ → List ℕ → Type 0
Above n [] = Unit
Above n (x ∷ xs) = (n < x) × Above n xs

abbrev pub Grows : List ℕ → Type 0
Grows [] = Unit
Grows (x ∷ xs) = Above x xs × Grows xs

-- Every number of the first list is in the second.
abbrev pub AllIn : List ℕ → List ℕ → Type 0
AllIn [] ys = Unit
AllIn (x ∷ xs) ys = (contains x ys ≡ true) × AllIn xs ys

Above-le : (m n : ℕ) (xs : List ℕ) → m < n → Above n xs → Above m xs
Above-le m n [] lt h = tt
Above-le m n (x ∷ xs) lt h = (omega arith, Above-le m n xs lt h.1)

insert_route-Above : (n id : ℕ) (xs : List ℕ) → n < id → Above n xs → Above n (insert_route id xs)
unfolding insert_route
insert_route-Above n id [] lt h = (lt, tt)
insert_route-Above n id (x ∷ xs) lt h = elim (Bool-cases (ltb x id)) [
  | inl e ↦ rw e (h.0, insert_route-Above n id xs lt h.1)
  | inr e ↦ elim (Bool-cases (x == id)) [
    | inl same ↦ rw (e, same) h
    | inr other ↦ rw (e, other) (lt, h)
  ]
]

insert_route-Grows : (id : ℕ) (xs : List ℕ) → Grows xs → Grows (insert_route id xs)
unfolding insert_route
insert_route-Grows id [] h = (tt, tt)
insert_route-Grows id (x ∷ xs) h = elim (Bool-cases (ltb x id)) [
  | inl e ↦ rw e (insert_route-Above x id xs (ground arith) h.0, insert_route-Grows id xs h.1)
  | inr e ↦ elim (Bool-cases (x == id)) [
    | inl same ↦ rw (e, same) h
    | inr other ↦ let lt : id < x = ground arith in rw (e, other) ((lt, Above-le id x xs lt h.0), h)
  ]
]

pub insert_routes-Grows : (ids xs : List ℕ) → Grows xs → Grows (insert_routes ids xs)
unfolding insert_routes
insert_routes-Grows [] xs h = h
insert_routes-Grows (id ∷ ids) xs h =
    insert_routes-Grows ids (insert_route id xs) (insert_route-Grows id xs h)

contains-insert_route :
    (y id : ℕ) (xs : List ℕ) → contains y (insert_route id xs) ≡ (id == y || contains y xs)
unfolding insert_route contains
contains-insert_route y id [] = refl
contains-insert_route y id (x ∷ xs) = ground (arith, contains-insert_route y id xs)

pub contains-insert_routes :
    (y : ℕ) (ids xs : List ℕ)
    → contains y (insert_routes ids xs) ≡ (contains y ids || contains y xs)
unfolding insert_routes contains
contains-insert_routes y [] xs = refl
contains-insert_routes y (id ∷ ids) xs =
    ground (arith, contains-insert_routes y ids (insert_route id xs), contains-insert_route y id xs)

-- A strictly growing list that is contained in another is no longer than it.
erase : ℕ → List ℕ → List ℕ
erase x [] = []
erase x (y ∷ ys) = if y == x then ys else y ∷ erase x ys

length-erase : (x : ℕ) (ys : List ℕ) → contains x ys ≡ true → length ys ≡ suc (length (erase x ys))
unfolding erase contains
length-erase x [] h = cc
length-erase x (y ∷ ys) h = elim (Bool-cases (y == x)) [
  | inl e ↦ rw e refl
  | inr e ↦ let rest = length-erase x ys (ground arith) in rw e (omega arith)
]

contains-erase :
    (x z : ℕ) (ys : List ℕ) → x < z → contains z ys ≡ true → contains z (erase x ys) ≡ true
unfolding erase contains
contains-erase x z [] lt h = cc
contains-erase x z (y ∷ ys) lt h = ground (arith, contains-erase x z ys)

AllIn-erase : (x : ℕ) (xs ys : List ℕ) → Above x xs → AllIn xs ys → AllIn xs (erase x ys)
AllIn-erase x [] ys a h = tt
AllIn-erase x (z ∷ xs) ys a h = (contains-erase x z ys a.0 h.0, AllIn-erase x xs ys a.1 h.1)

pub length-le_of_AllIn : (xs ys : List ℕ) → Grows xs → AllIn xs ys → length xs ≤ length ys
length-le_of_AllIn [] ys g h = omega arith
length-le_of_AllIn (x ∷ xs) ys g h =
    let shorter = length-erase x ys h.0 in
    let rest = length-le_of_AllIn xs (erase x ys) g.1 (AllIn-erase x xs ys g.0 h.1) in omega arith
