-- ===== src/Debug/Bus/Ids.antt =====
-- The ids of the observers of a bus, and the numbers of its events.
use emu_sa80535_n.Base.{
  ℕ, ◌+◌, ◌≤◌, ◌<◌, ◌≡◌, ◌≢◌, ◌⊎◌, inl, inr, not, ◌||◌, Option, none, some, List, [], ◌∷◌, ◌++◌,
  arith, leb, ◌==◌, length, length-append, Bool-cases, if_either, Option-cases, ◌^◌, ◌%◌,
}
use emu_sa80535_n.Debug.Event.{Event, Status}
use emu_sa80535_n.Debug.Bus.{Slot, Bus, bus_subscribe, bus_unsubscribe, bus_emit, remove_observer}

module _ {W : Type 0} where
  abbrev Below : ℕ → List (Slot W) → Type 0
  Below n [] = Unit
  Below n (s ∷ rest) = (s.id < n) × Below n rest

  abbrev AboveAll : ℕ → List (Slot W) → Type 0
  AboveAll n [] = Unit
  AboveAll n (s ∷ rest) = (n < s.id) × AboveAll n rest

  -- Ids grow in the order of subscription.
  abbrev Ordered : List (Slot W) → Type 0
  Ordered [] = Unit
  Ordered (s ∷ rest) = AboveAll s.id rest × Ordered rest

  -- The next id is above all that are in use, until the counter has wrapped to 0 and no more are
  -- given.
  pub record IsBus (b : Bus W) : Type 0 where
    pub ordered : Ordered b.observers
    pub fresh : (b.next_observer_id ≡ 0) ⊎ Below b.next_observer_id b.observers
    pub range : b.next_observer_id < 2 ^ 32
    pub few : length b.observers ≤ 8

  Below-le : (m n : ℕ) (xs : List (Slot W)) → m ≤ n → Below m xs → Below n xs
  Below-le m n [] le h = tt
  Below-le m n (s ∷ xs) le h = (omega arith, Below-le m n xs le h.1)

  Below-append :
      (n : ℕ) (xs : List (Slot W)) (s : Slot W) → Below n xs → s.id < n → Below n (xs ++ (s ∷ []))
  Below-append n [] s h lt = (lt, tt)
  Below-append n (x ∷ xs) s h lt = (h.0, Below-append n xs s h.1 lt)

  AboveAll-append :
      (n : ℕ) (xs : List (Slot W)) (s : Slot W)
      → AboveAll n xs
      → n < s.id
      → AboveAll n (xs ++ (s ∷ []))
  AboveAll-append n [] s h lt = (lt, tt)
  AboveAll-append n (x ∷ xs) s h lt = (h.0, AboveAll-append n xs s h.1 lt)

  Ordered-append :
      (xs : List (Slot W)) (s : Slot W) → Ordered xs → Below s.id xs → Ordered (xs ++ (s ∷ []))
  Ordered-append [] s o h = (tt, tt)
  Ordered-append (x ∷ xs) s o h = (AboveAll-append x.id xs s o.0 h.0, Ordered-append xs s o.1 h.1)

  -- What is left after a removal.
  abbrev Kept : ℕ → List (Slot W) → List (Slot W) → Type 0
  Kept n before after =
      ((m : ℕ) → AboveAll m before → AboveAll m after)
      × ((m : ℕ) → Below m before → Below m after)
      × (length before ≡ length after + 1)

  remove_observer-Kept :
      (id : ℕ) (xs rest : List (Slot W))
      → remove_observer W id xs ≡ some rest
      → Kept id xs rest × (Ordered xs → Ordered rest)
  unfolding remove_observer
  remove_observer-Kept id [] rest h = cc
  remove_observer-Kept id (s ∷ xs) rest h = elim (Bool-cases (s.id == id)) [
    | inl e ↦
        let same : xs ≡ rest = ground arith in
        rw (← same) ((λ m p. p.1, λ m p. p.1, omega arith), λ o. o.1)
    | inr e ↦ elim (Option-cases (remove_observer W id xs)) [
      | inl gone ↦ absurd (ground arith)
      | inr (kept, found) ↦
          let same : s ∷ kept ≡ rest = ground arith in
          let (left, order) = remove_observer-Kept id xs kept found in
          rw (← same) (
            (λ m p. (p.0, left.0 m p.1), λ m p. (p.0, left.1 m p.1), omega (arith, left.2)),
            λ o. (left.0 s.id o.0, order o.1),
          )
    ]
  ]

  subscribed :
      (callback : Event → W → W) (b : Bus W)
      → IsBus b
      → length b.observers < 8
      → b.next_observer_id ≢ 0
      → IsBus (record b {
        observers = b.observers ++ (record { callback = callback; id = b.next_observer_id } ∷ []);
        next_observer_id = (b.next_observer_id + 1) % 2 ^ 32;
      })
  subscribed callback b h room ne =
      let slot : Slot W = record { callback = callback; id = b.next_observer_id } in
      let below : Below b.next_observer_id b.observers = elim h.fresh [
        | inl e ↦ absurd (ne e)
        | inr below ↦ below
      ] in
      let range = h.range in
      record {
        ordered = Ordered-append b.observers slot h.ordered below;
        fresh = elim (Bool-cases ((b.next_observer_id + 1) % 2 ^ 32 == 0)) [
          | inl e ↦ inl (ground arith)
          | inr e ↦
              let next : (b.next_observer_id + 1) % 2 ^ 32 ≡ b.next_observer_id + 1 =
                ground arith in
              rw next (
                inr (
                  Below-append (b.next_observer_id + 1) b.observers slot
                    (Below-le b.next_observer_id (b.next_observer_id + 1) b.observers (omega arith)
                      below)
                    (omega arith)))
        ];
        range = omega arith;
        few = omega (arith, length-append b.observers (slot ∷ []));
      }

  removed :
      (id : ℕ) (b : Bus W) (kept : List (Slot W))
      → IsBus b
      → remove_observer W id b.observers ≡ some kept
      → IsBus (record b { observers = kept })
  removed id b kept h found =
      let (left, order) = remove_observer-Kept id b.observers kept found in
      let few = h.few in
      record {
        ordered = order h.ordered;
        fresh = elim h.fresh [ inl e ↦ inl e | inr below ↦ inr (left.1 b.next_observer_id below) ];
        range = h.range;
        few = omega (arith, left.2);
      }

  bus_subscribe-IsBus :
      (callback : Option (Event → W → W)) (b : Bus W)
      → IsBus b
      → IsBus (bus_subscribe W callback b).2
  unfolding bus_subscribe
  bus_subscribe-IsBus none b h = h
  bus_subscribe-IsBus (some callback) b h =
      if_either (λ (r : Status × Option ℕ × Bus W). IsBus r.2) b.dispatching _ _ (λ _. h)
        (λ _.
          if_either (λ (r : Status × Option ℕ × Bus W). IsBus r.2)
            (leb 8 (length b.observers) || b.next_observer_id == 0) _ _ (λ _. h)
            (λ room. subscribed callback b h (ground arith) (ground arith)))

  bus_unsubscribe-IsBus : (id : ℕ) (b : Bus W) → IsBus b → IsBus (bus_unsubscribe W id b).1
  unfolding bus_unsubscribe
  bus_unsubscribe-IsBus id b h =
      if_either (λ (r : Status × Bus W). IsBus r.1) (id == 0) _ _ (λ _. h)
        (λ _.
          if_either (λ (r : Status × Bus W). IsBus r.1) b.dispatching _ _ (λ _. h)
            (λ _. elim (Option-cases (remove_observer W id b.observers)) [
              | inl gone ↦ rw gone h
              | inr (kept, found) ↦ rw found (removed id b kept h found)
            ]))

  bus_emit-IsBus : (e : Event) (b : Bus W) (w : W) → IsBus b → IsBus (bus_emit W e b w).2
  unfolding bus_emit
  bus_emit-IsBus e b w h =
      if_either (λ (r : Status × ℕ × Bus W × W). IsBus r.2) b.dispatching _ _ (λ _. h)
        (λ _.
          if_either (λ (r : Status × ℕ × Bus W × W). IsBus r.2)
            (b.next_sequence == 0 || not (e.sequence == 0)) _ _ (λ _. h)
            (λ _. record { ordered = h.ordered; fresh = h.fresh; range = h.range; few = h.few }))

-- A subscription, a cancellation and an event, accepted or refused, all keep the observers at most
-- eight, in the order of their ids, and every id below the next one that will be given, until the
-- 32-bit counter is used up and gives no more; so no two observers ever share an id.
pub bus_IsBus :
    {W : Type 0} (b : Bus W) (callback : Option (Event → W → W)) (id : ℕ) (e : Event) (w : W)
    → IsBus b
    → IsBus (bus_subscribe W callback b).2
      × IsBus (bus_unsubscribe W id b).1
      × IsBus (bus_emit W e b w).2
bus_IsBus b callback id e w h =
    (bus_subscribe-IsBus callback b h, bus_unsubscribe-IsBus id b h, bus_emit-IsBus e b w h)
