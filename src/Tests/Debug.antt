-- ===== src/Tests/Debug.antt =====
-- Watches, a bus, a ring of outcomes and a page of it, and the theorems applied to them.
use mathlib.Core.List.{map, Perm, Nodup}
use emu_sa80535_n.Base.{
  ℕ, ◌+◌, ◌≡◌, ◌⊎◌, inr, refl, true, some, List, [], ◌∷◌, arith, length, take, ltb, if◌then◌else◌,
}
use emu_sa80535_n.Debug.Event.{
  Value, Condition, Action, Watch, WatchResult, Event, Observation, ok, limit, duplicate_id,
  watch_route,
}
use emu_sa80535_n.Debug.Watch.{
  value_width_valid, compare_value, watch_result, watch_valid, table_match,
}
use emu_sa80535_n.Debug.Watch.Compare.{compare_value_lem}
use emu_sa80535_n.Debug.Watch.Matched.{watch_result-IsRouted, IsRouted}
use emu_sa80535_n.Debug.Watch.Match.{table_match-reports, reports}
use emu_sa80535_n.Debug.Table.{table_replace, all_valid}
use emu_sa80535_n.Debug.Table.Sorted.{table_replace_lem, Ascends}
use emu_sa80535_n.Debug.Bus.{bus_init, bus_subscribe, bus_unsubscribe, bus_emit}
use emu_sa80535_n.Debug.Bus.Ids.{bus_IsBus, IsBus}

abbrev always : Condition
always = record { constant = 0; present = 0; operand = 0; comparison = 0; width = 0; is_signed = 0 }

-- Less than 1, on signed bytes.
abbrev below_one : Condition
below_one = record {
  constant = 1;
  present = 1;
  operand = 1;
  comparison = 2;
  width = 8;
  is_signed = 1;
}

abbrev minus_one : Value
minus_one = record { value = 0xff; width = 8; known = 1; is_signed = 1 }

compare_value_lem_example : compare_value minus_one below_one ≡ true
unfolding value_width_valid
compare_value_lem_example = compare_value_lem minus_one below_one refl

abbrev route_to : List ℕ → Condition → Action
route_to ids condition = record {
  condition = condition;
  trace_ids = ids;
  kind = watch_route;
  canonical = 0;
}

abbrev watch_of : ℕ → Watch
watch_of id = record {
  actions = route_to (4 ∷ 9 ∷ []) always ∷ route_to (2 ∷ 9 ∷ []) below_one ∷ [];
  id = id;
  address_first = 0x20;
  address_last = 0x2f;
  enabled = 1;
  address_space = 2;
  access_mask = 4;
  canonical_space = 0;
}

abbrev unobserved : Observation
unobserved = record { kind = 0; status = 0; space = 0; sequence = 0; generation = 0 }

-- A write of -1 at 21.
abbrev written : Event
written = record {
  sequence = 5;
  instruction_count = 3;
  machine_cycle_count = 12;
  generation = 1;
  pc = 0x100;
  address = 0x21;
  phase = 0;
  kind = 4;
  address_space = 2;
  access = 4;
  old_value = record minus_one { value = 7 };
  new_value = minus_one;
  observation = unobserved;
}

abbrev two_watches : List Watch
two_watches = watch_of 7 ∷ watch_of 3 ∷ []

table_replace_lem_example :
    (((table_replace [] two_watches).0 ≡ ok)
      × Perm (table_replace [] two_watches).1 two_watches
      × Ascends (table_replace [] two_watches).1)
    ⊎ ((table_replace [] two_watches ≡ (duplicate_id, []))
        × ¬ Nodup (map (λ (w : Watch). w.id) two_watches))
unfolding watch_valid all_valid
table_replace_lem_example = table_replace_lem [] two_watches (omega arith) refl

abbrev routed_result : WatchResult
routed_result = record {
  trace_ids = 2 ∷ 4 ∷ 9 ∷ [];
  watch_id = 7;
  fired_action_mask = 3;
  source_event_sequence = 5;
  stop = 0;
  console = 0;
  quiet = 0;
}

watch_result-IsRouted_example : IsRouted written (watch_of 7).actions [] (2 ∷ 4 ∷ 9 ∷ [])
unfolding watch_valid watch_result
watch_result-IsRouted_example = watch_result-IsRouted (watch_of 7) written routed_result refl refl

table_match-reports_example : table_match two_watches written 1 ≡ (
  if ltb 1 (length (reports written two_watches)) then limit else ok,
  take 1 (reports written two_watches),
  length (reports written two_watches),
)
table_match-reports_example = table_match-reports two_watches written 1 refl refl

-- A bus with no observer, and one that counts.
abbrev counting : Event → ℕ → ℕ
counting e n = n + 1

fresh-IsBus : IsBus (bus_init ℕ)
fresh-IsBus = record { ordered = tt; fresh = inr tt; range = omega arith; few = omega arith }

bus_IsBus_example :
    IsBus (bus_subscribe ℕ (some counting) (bus_init ℕ)).2
    × IsBus (bus_unsubscribe ℕ 1 (bus_init ℕ)).1
    × IsBus (bus_emit ℕ written (bus_init ℕ) 0).2
bus_IsBus_example = bus_IsBus (bus_init ℕ) (some counting) 1 written 0 fresh-IsBus
