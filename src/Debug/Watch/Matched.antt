-- ===== src/Debug/Watch/Matched.antt =====
-- What the actions of a valid watch leave in the result of a match.
use emu_sa80535_n.Base.{
  ℕ, suc, ◌+◌, ◌≤◌, ◌<◌, ◌≡◌, ◌∙◌, inl, inr, refl, Bool, true, false, not, ◌&&◌, ◌||◌, List, [],
  ◌∷◌, ◌++◌, arith, ◌==◌, if◌then◌else◌, length, Bool-cases, none, some, Option-cases, bit_or,
  ◌<<<◌, ap,
}
use emu_sa80535_n.Debug.Event.{Action, Watch, WatchResult, Event}
use emu_sa80535_n.Debug.Watch.{
  contains, collect_routes, insert_routes, action_valid, actions_valid, watch_valid, watch_result,
  fire, run_actions, condition_matches, empty_result, watch_selects,
}
use emu_sa80535_n.Debug.Watch.Routes.{
  Grows, AllIn, length-le_of_AllIn, insert_routes-Grows, contains-insert_routes,
}

-- Every number of the first list is in the second.
abbrev Within : List ℕ → List ℕ → Type 0
Within xs ys = (y : ℕ) → contains y xs ≡ true → contains y ys ≡ true

Within-AllIn : (xs ys : List ℕ) → Within xs ys → AllIn xs ys
unfolding contains
Within-AllIn [] ys h = tt
Within-AllIn (x ∷ xs) ys h = (h x (ground arith), Within-AllIn xs ys (λ y c. h y (ground arith)))

contains-append :
    (y : ℕ) (xs : List ℕ) (id : ℕ) → contains y (xs ++ (id ∷ [])) ≡ (contains y xs || id == y)
unfolding contains
contains-append y [] id = ground arith
contains-append y (x ∷ xs) id = ground (arith, contains-append y xs id)

length-snoc : (xs : List ℕ) (id : ℕ) → length (xs ++ (id ∷ [])) ≡ suc (length xs)
length-snoc [] id = refl
length-snoc (x ∷ xs) id = ap suc (length-snoc xs id)

-- The collection grows by the routes of the action, up to sixteen.
collect_routes-Within :
    (ids routes next : List ℕ)
    → collect_routes ids routes ≡ some next
    → length routes ≤ 16
    → (y : ℕ) → (contains y ids || contains y routes) ≡ true
    → contains y next ≡ true
unfolding collect_routes contains
collect_routes-Within [] routes next h small y c = ground arith
collect_routes-Within (id ∷ ids) routes next h small y c = elim (Bool-cases (contains id routes)) [
  | inl known ↦ collect_routes-Within ids routes next (ground arith) small y (ground arith)
  | inr new ↦
      collect_routes-Within ids (routes ++ (id ∷ [])) next (ground arith)
        (ground (arith, length-snoc routes id)) y (ground (arith, contains-append y routes id))
]

collect_routes-length :
    (ids routes next : List ℕ)
    → collect_routes ids routes ≡ some next
    → length routes ≤ 16
    → length next ≤ 16
unfolding collect_routes
collect_routes-length [] routes next h small = ground arith
collect_routes-length (id ∷ ids) routes next h small = elim (Bool-cases (contains id routes)) [
  | inl known ↦ collect_routes-length ids routes next (ground arith) small
  | inr new ↦
      collect_routes-length ids (routes ++ (id ∷ [])) next (ground arith)
        (ground (arith, length-snoc routes id))
]

action_valid-kind : (a : Action) → action_valid a ≡ true → a.kind ≤ 3
unfolding action_valid
action_valid-kind a h = ground arith

fire_route :
    (a : Action) (r : WatchResult)
    → a.kind ≡ 3
    → (fire a r).trace_ids ≡ insert_routes a.trace_ids r.trace_ids
unfolding fire
fire_route a r k = ground arith

fire_other : (a : Action) (r : WatchResult) → a.kind < 3 → (fire a r).trace_ids ≡ r.trace_ids
unfolding fire
fire_other a r k = ground arith

-- The trace ids of the actions that route and whose condition holds.
abbrev pub routed : Event → List Action → ℕ → Bool
routed e [] y = false
routed e (a ∷ rest) y =
    (condition_matches a.condition e && (a.kind == 3 && contains y a.trace_ids)) || routed e rest y

-- One action of the loop.
abbrev step : Event → ℕ → Action → WatchResult → WatchResult
step e i a r =
    if condition_matches a.condition e
    then fire a (record r { fired_action_mask = bit_or r.fired_action_mask (1 <<< i) })
    else r

step-contains :
    (e : Event) (i : ℕ) (a : Action) (r : WatchResult) (y : ℕ)
    → a.kind ≤ 3
    → contains y (step e i a r).trace_ids ≡ (
        (condition_matches a.condition e && (a.kind == 3 && contains y a.trace_ids))
        || contains y r.trace_ids)
step-contains e i a r y k =
    let r' : WatchResult = record r { fired_action_mask = bit_or r.fired_action_mask (1 <<< i) } in
    elim (Bool-cases (condition_matches a.condition e)) [
      | inl m ↦ elim (Bool-cases (a.kind == 3)) [
        | inl route ↦
            rw (m, route, fire_route a r' (ground arith))
              (contains-insert_routes y a.trace_ids r.trace_ids)
        | inr other ↦ rw (m, other, fire_other a r' (ground arith)) refl
      ]
      | inr m ↦ rw m refl
    ]

step-Grows :
    (e : Event) (i : ℕ) (a : Action) (r : WatchResult)
    → a.kind ≤ 3
    → Grows r.trace_ids
    → Grows (step e i a r).trace_ids
step-Grows e i a r k g =
    let r' : WatchResult = record r { fired_action_mask = bit_or r.fired_action_mask (1 <<< i) } in
    elim (Bool-cases (condition_matches a.condition e)) [
      | inl m ↦ elim (Bool-cases (a.kind == 3)) [
        | inl route ↦
            rw (m, fire_route a r' (ground arith)) (insert_routes-Grows a.trace_ids r.trace_ids g)
        | inr other ↦ rw (m, fire_other a r' (ground arith)) g
      ]
      | inr m ↦ rw m g
    ]

abbrev pub IsRouted : Event → List Action → List ℕ → List ℕ → Type 0
IsRouted e actions before after =
    Grows after
    × (length after ≤ 16)
    × ((y : ℕ) → contains y after ≡ (routed e actions y || contains y before))

-- The validity of the actions after the first, with what is then collected.
abbrev Next : Action → List Action → List ℕ → Type 0
Next a rest routes =
    (a.kind ≤ 3)
    × ((next : List ℕ) × (actions_valid rest next ≡ true)
        × (length next ≤ 16)
        × ((y : ℕ)
            → ((a.kind == 3 && contains y a.trace_ids) || contains y routes) ≡ true
            → contains y next ≡ true))

next_lem :
    (a : Action) (rest : List Action) (routes : List ℕ)
    → actions_valid (a ∷ rest) routes ≡ true
    → length routes ≤ 16
    → Next a rest routes
unfolding actions_valid
next_lem a rest routes h small = elim (Bool-cases (action_valid a)) [
  | inr bad ↦ absurd (ground arith)
  | inl valid ↦ (
    action_valid-kind a valid,
    elim (Bool-cases (a.kind == 3)) [
      | inr other ↦ (routes, ground arith, small, λ y c. ground arith)
      | inl route ↦ elim (Option-cases (collect_routes a.trace_ids routes)) [
        | inl e ↦ absurd (ground arith)
        | inr (next, e) ↦ (
          next,
          ground arith,
          collect_routes-length a.trace_ids routes next e small,
          λ y c. collect_routes-Within a.trace_ids routes next e small y (ground arith),
        )
      ]
    ],
  )
]

run_actions-IsRouted :
    (e : Event) (i : ℕ) (actions : List Action) (r : WatchResult) (routes : List ℕ)
    → actions_valid actions routes ≡ true
    → length routes ≤ 16
    → Within r.trace_ids routes
    → Grows r.trace_ids
    → IsRouted e actions r.trace_ids (run_actions e i actions r).trace_ids
unfolding run_actions
run_actions-IsRouted e i [] r routes valid small within g =
    let bound = length-le_of_AllIn r.trace_ids routes g (Within-AllIn r.trace_ids routes within) in
    (g, omega arith, λ y. refl)
run_actions-IsRouted e i (a ∷ rest) r routes valid small within g =
    let (kind, (next, valid', small', into)) = next_lem a rest routes valid small in
    let has = step-contains e i a r in
    let kept : Within (step e i a r).trace_ids next =
      λ y c. into y (ground (arith, has y kind, within y)) in
    let (g', bound, holds) =
      run_actions-IsRouted e (i + 1) rest (step e i a r) next valid' small' kept
        (step-Grows e i a r kind g) in
    (g', bound, λ y. holds y ∙ ground (arith, has y kind))

watch_valid-actions : (w : Watch) → watch_valid w ≡ true → actions_valid w.actions [] ≡ true
unfolding watch_valid
watch_valid-actions w h = ground arith

reported :
    (a b : Bool) (x r : WatchResult)
    → (if a then none else if b then none else some x) ≡ some r
    → r ≡ x
reported true b x r h = cc
reported false true x r h = cc
reported false false x r h = cc

console_of : WatchResult → WatchResult
console_of r = record r { console = if r.quiet == 0 then r.console else 0 }

watch_result-fired :
    (w : Watch) (e : Event) (r : WatchResult)
    → watch_result w e ≡ some r
    → r ≡ console_of (run_actions e 0 w.actions (empty_result w e))
unfolding watch_result console_of
watch_result-fired w e r h =
    let fired = run_actions e 0 w.actions (empty_result w e) in
    reported (not (watch_selects w e)) (fired.fired_action_mask == 0) (console_of fired) r h

-- The result of a valid watch holds at most the sixteen trace ids that its array has room for, in
-- strictly ascending order, and they are those of its routing actions whose condition holds.
pub watch_result-IsRouted :
    (w : Watch) (e : Event) (r : WatchResult)
    → watch_valid w ≡ true
    → watch_result w e ≡ some r
    → IsRouted e w.actions [] r.trace_ids
watch_result-IsRouted w e r valid h = rw (watch_result-fired w e r h) (
    unfold console_of in
    run_actions-IsRouted e 0 w.actions (empty_result w e) [] (watch_valid-actions w valid)
      (omega arith) (λ y c. c) tt)
