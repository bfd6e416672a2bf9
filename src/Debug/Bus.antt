-- ===== src/Debug/Bus.antt =====
-- The event bus of emu_debug_event.c. A callback with its user pointer is a function on the world
-- `W` outside the bus; what it may ask of the bus meanwhile is refused, since `dispatching` is set.
pub mod Ids
use emu_sa80535_n.Base.{
  ℕ, ◌+◌, Bool, true, false, not, ◌||◌, Option, none, some, List, [], ◌∷◌, ◌++◌, leb, ◌==◌,
  if◌then◌else◌, length, u32, u64,
}
use emu_sa80535_n.Debug.Event.{Event, Status, ok, invalid_argument, limit, busy, max_observers}

module _ (W : Type 0) where
  pub record Slot : Type 0 where
    pub callback : Event → W → W
    pub id : ℕ

  pub record Bus : Type 0 where
    pub observers : List Slot
    pub next_sequence : ℕ
    pub next_observer_id : ℕ
    pub dispatching : Bool

  abbrev pub bus_init : Bus
  bus_init = record { observers = []; next_sequence = 1; next_observer_id = 1; dispatching = false }

  -- A null callback is `none`; the id is returned where the status is `ok`.
  unfoldable pub bus_subscribe : Option (Event → W → W) → Bus → Status × Option ℕ × Bus
  bus_subscribe none b = (invalid_argument, none, b)
  bus_subscribe (some callback) b =
      let slot : Slot = record { callback = callback; id = b.next_observer_id } in
      if b.dispatching
      then (busy, none, b)
      else if leb max_observers (length b.observers) || b.next_observer_id == 0
      then (limit, none, b)
      else (
        ok,
        some b.next_observer_id,
        record b {
          observers = b.observers ++ (slot ∷ []);
          next_observer_id = u32 (b.next_observer_id + 1);
        },
      )

  -- The search for the id and the move of those behind it; `none` where it is not found.
  unfoldable pub remove_observer : ℕ → List Slot → Option (List Slot)
  remove_observer id [] = none
  remove_observer id (s ∷ rest) =
      let later = elim (remove_observer id rest) as (λ _. Option (List Slot)) [
        | none ↦ none
        | some kept ↦ some (s ∷ kept)
      ] in
      if s.id == id then some rest else later

  unfoldable pub bus_unsubscribe : ℕ → Bus → Status × Bus
  unfolding remove_observer
  bus_unsubscribe id b =
      if id == 0
      then (invalid_argument, b)
      else if b.dispatching
      then (busy, b)
      else elim (remove_observer id b.observers) [
        | none ↦ (invalid_argument, b)
        | some rest ↦ (ok, record b { observers = rest })
      ]

  -- The event that the observers see.
  unfoldable pub stamp : ℕ → Event → Event
  stamp sequence e =
      let o = e.observation in
      record e {
        sequence = sequence;
        observation =
            if o.kind == 0 then o else record o { sequence = sequence; generation = e.generation };
      }

  unfoldable pub deliver : Event → List Slot → W → W
  deliver e [] w = w
  deliver e (s ∷ rest) w = deliver e rest (s.callback e w)

  unfoldable pub bus_emit : Event → Bus → W → Status × ℕ × Bus × W
  unfolding stamp deliver
  bus_emit e b w =
      let event = stamp b.next_sequence e in
      if b.dispatching
      then (busy, 0, b, w)
      else if b.next_sequence == 0 || not (e.sequence == 0)
      then (invalid_argument, 0, b, w)
      else (
        ok,
        b.next_sequence,
        record b { next_sequence = u64 (b.next_sequence + 1) },
        deliver event b.observers w,
      )
