-- ===== src/Debug/Watch.antt =====
-- Watches of emu_debug_event.c: which are valid, when a condition holds, and what a match reports.
pub mod Match
pub mod Matched
pub mod Routes
pub mod Compare
use emu_sa80535_n.Base.{
  ℕ, zero, suc, ◌+◌, ◌-◌, ◌*◌, ◌^◌, ◌%◌, Bool, true, false, not, ◌&&◌, ◌||◌, List, [], ◌∷◌, ◌++◌,
  bit_and, bit_or, ltb, leb, ◌==◌, if◌then◌else◌, has, length, u32, u64, ◌<<<◌, Option, none, some,
}
use Prim.Native.Nat.{compare, Ordering}
use emu_sa80535_n.Debug.Event.{
  Value, Condition, Action, Watch, WatchResult, Event, Status, ok, limit, invalid_argument,
  duplicate_id, watch_old, watch_stop, watch_console, watch_quiet, watch_route, event_watch_match,
  obs_access_result, max_actions, max_routes, max_watches,
}

abbrev pub u64_max : ℕ
u64_max = 0xffffffffffffffff

unfoldable pub value_width_valid : ℕ → Bool
value_width_valid width =
    width == 1 || (width == 8 || (width == 16 || (width == 32 || width == 64)))

unfoldable pub width_mask : ℕ → ℕ
width_mask width = if width == 64 then u64_max else u64 (1 <<< width) - 1

unfoldable pub constant_valid : Condition → Bool
unfolding value_width_valid width_mask
constant_valid c =
    let mask = width_mask c.width in
    let sign = 1 <<< (c.width - 1) in
    let fits = bit_and c.constant (u64_max - mask) == 0 in
    if not (value_width_valid c.width)
    then false
    else if not (c.is_signed == 0)
    then if c.width == 64
      then true
      else if has c.constant sign
      then bit_or c.constant mask == u64_max
      else fits
    else fits

abbrev pub is_eq : Ordering → Bool
is_eq o = elim o [ Ordering.eq ↦ true | _ ↦ false ]

abbrev pub is_lt : Ordering → Bool
is_lt o = elim o [ Ordering.lt ↦ true | _ ↦ false ]

abbrev pub is_gt : Ordering → Bool
is_gt o = elim o [ Ordering.gt ↦ true | _ ↦ false ]

-- The switch over the comparison, on the sign of `ordering`.
unfoldable pub compare_holds : ℕ → Ordering → Bool
compare_holds comparison ordering =
    if comparison == 0
    then is_eq ordering
    else if comparison == 1
    then not (is_eq ordering)
    else if comparison == 2
    then is_lt ordering
    else if comparison == 3
    then not (is_gt ordering)
    else if comparison == 4
    then is_gt ordering
    else if comparison == 5
    then not (is_lt ordering)
    else false

unfoldable pub compare_ordering : ℕ → ℕ → ℕ → ℕ → Ordering
compare_ordering is_signed width left right =
    let sign = 1 <<< (width - 1) in
    let left_negative = has left sign in
    let right_negative = has right sign in
    if not (is_signed == 0)
    then if left_negative
      then if right_negative then compare left right else Ordering.lt
      else if right_negative
      then Ordering.gt
      else compare left right
    else compare left right

unfoldable pub compare_value : Value → Condition → Bool
unfolding width_mask compare_holds compare_ordering
compare_value v c =
    if v.known == 0 || (not (v.width == c.width) || not (v.is_signed == c.is_signed))
    then false
    else compare_holds c.comparison (
        compare_ordering c.is_signed v.width (bit_and v.value (width_mask v.width))
          (bit_and c.constant (width_mask v.width)))

unfoldable pub condition_matches : Condition → Event → Bool
unfolding compare_value
condition_matches c e =
    if c.present == 0
    then true
    else if c.operand == watch_old
    then compare_value e.old_value c
    else compare_value e.new_value c

-- The loop over the routes of an action: none is 0 and each is above the one before.
unfoldable pub routes_ascend : List ℕ → Bool
routes_ascend [] = true
routes_ascend (x ∷ []) = not (x == 0)
routes_ascend (x ∷ y ∷ rest) = not (x == 0) && (ltb x y && routes_ascend (y ∷ rest))

unfoldable pub action_valid : Action → Bool
unfolding constant_valid routes_ascend
action_valid a =
    let c = a.condition in
    let condition_bad =
      ltb 1 c.operand || (ltb 5 c.comparison || (ltb 1 c.is_signed || not (constant_valid c))) in
    if ltb 1 a.canonical || ltb watch_route a.kind
    then false
    else if ltb 1 c.present
    then false
    else if not (c.present == 0) && condition_bad
    then false
    else if not (a.kind == watch_route)
    then length a.trace_ids == 0
    else if (a.canonical == 0 && length a.trace_ids == 0) || ltb max_routes (length a.trace_ids)
    then false
    else routes_ascend a.trace_ids

-- `existing != route_count`: the id is among the routes already collected.
unfoldable pub contains : ℕ → List ℕ → Bool
contains id [] = false
contains id (x ∷ xs) = x == id || contains id xs

-- The loop over the routes of one action; `none` is a seventeenth distinct route.
unfoldable pub collect_routes : List ℕ → List ℕ → Option (List ℕ)
unfolding contains
collect_routes [] routes = some routes
collect_routes (id ∷ rest) routes =
    let known = collect_routes rest routes in
    let fresh = collect_routes rest (routes ++ (id ∷ [])) in
    if contains id routes then known else if length routes == max_routes then none else fresh

-- The loop over the actions.
unfoldable pub actions_valid : List Action → List ℕ → Bool
unfolding action_valid collect_routes
actions_valid [] routes = true
actions_valid (a ∷ rest) routes =
    let skipped = actions_valid rest routes in
    if not (action_valid a)
    then false
    else if not (a.kind == watch_route)
    then skipped
    else elim (collect_routes a.trace_ids routes) [
      | none ↦ false
      | some next ↦ actions_valid rest next
    ]

unfoldable pub watch_valid : Watch → Bool
unfolding actions_valid
watch_valid w =
    if w.id == 0
      || (ltb 1 w.enabled
          || (ltb 4 w.canonical_space
              || (w.address_space == 0
                  || (ltb 5 w.address_space
                      || (ltb w.address_last w.address_first
                          || (w.access_mask == 0
                              || (not (bit_and w.access_mask (255 - 15) == 0)
                                  || (length w.actions == 0
                                      || ltb max_actions (length w.actions)))))))))
    then false
    else actions_valid w.actions []

-- The array of routes stays in ascending order; a route that is there is not inserted again.
unfoldable pub insert_route : ℕ → List ℕ → List ℕ
insert_route id [] = id ∷ []
insert_route id (x ∷ xs) =
    let rest = x ∷ insert_route id xs in
    if ltb x id then rest else if x == id then x ∷ xs else id ∷ (x ∷ xs)

unfoldable pub insert_routes : List ℕ → List ℕ → List ℕ
unfolding insert_route
insert_routes [] routes = routes
insert_routes (id ∷ rest) routes = insert_routes rest (insert_route id routes)

-- What an action whose condition holds does to the result.
unfoldable pub fire : Action → WatchResult → WatchResult
unfolding insert_routes
fire a r =
    if a.kind == watch_stop
    then record r { stop = 1 }
    else if a.kind == watch_console
    then record r { console = 1 }
    else if a.kind == watch_quiet
    then record r { quiet = 1 }
    else record r { trace_ids = insert_routes a.trace_ids r.trace_ids }

-- The loop over the actions from index `i` on.
unfoldable pub run_actions : Event → ℕ → List Action → WatchResult → WatchResult
unfolding condition_matches fire
run_actions e i [] r = r
run_actions e i (a ∷ rest) r = run_actions e (i + 1) rest (
    if condition_matches a.condition e
    then fire a (record r { fired_action_mask = bit_or r.fired_action_mask (1 <<< i) })
    else r)

-- The test that skips a watch, negated.
unfoldable pub watch_selects : Watch → Event → Bool
watch_selects w e =
    let o = e.observation in
    let wrong_space =
      if w.canonical_space == 0
      then not (w.address_space == e.address_space)
      else o.kind == 0 || not (u32 (o.space + 1) == w.canonical_space) in
    not (
      w.enabled == 0
      || (wrong_space
          || (ltb e.address w.address_first
              || (ltb w.address_last e.address || bit_and w.access_mask e.access == 0))))

abbrev pub empty_result : Watch → Event → WatchResult
empty_result w e = record {
  trace_ids = [];
  watch_id = w.id;
  fired_action_mask = 0;
  source_event_sequence = e.sequence;
  stop = 0;
  console = 0;
  quiet = 0;
}

-- What one watch contributes, if anything.
unfoldable pub watch_result : Watch → Event → Option WatchResult
unfolding watch_selects run_actions
watch_result w e =
    let r = run_actions e 0 w.actions (empty_result w e) in
    if not (watch_selects w e)
    then none
    else if r.fired_action_mask == 0
    then none
    else some (record r { console = if r.quiet == 0 then r.console else 0 })

-- The loop over the watches: the stored results and the count of all.
unfoldable pub match_from : Event → ℕ → List Watch → List WatchResult → ℕ → List WatchResult × ℕ
unfolding watch_result
match_from e capacity [] stored count = (stored, count)
match_from e capacity (w ∷ rest) stored count = elim (watch_result w e) [
  | none ↦ match_from e capacity rest stored count
  | some r ↦
      match_from e capacity rest (if ltb count capacity then stored ++ (r ∷ []) else stored)
        (count + 1)
]

-- The status, the results that the caller's array of `capacity` elements receives, and the number
-- required.
unfoldable pub table_match : List Watch → Event → ℕ → Status × List WatchResult × ℕ
unfolding match_from
table_match table e capacity =
    let o = e.observation in
    let (stored, count) = match_from e capacity table [] 0 in
    if e.kind == event_watch_match
      || (not (o.kind == 0) && (not (o.kind == obs_access_result) || not (o.status == 0)))
    then (ok, [], 0)
    else (if ltb capacity count then limit else ok, stored, count)
