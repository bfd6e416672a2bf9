-- ===== src/Debug/Watch/Match.antt =====
-- What the caller of a match receives, against the list of all reports.
use mathlib.Core.List.{append-nil, append_assoc}
use emu_sa80535_n.Base.{
  ℕ, ◌+◌, ◌≡◌, ◌∙◌, refl, ap, true, false, not, ◌&&◌, ◌||◌, none, some, List, [], ◌∷◌, ◌++◌, arith,
  ltb, ◌==◌, if◌then◌else◌, length, take, take-snoc, take-nil, subst, length-append, inl, inr,
  Option-cases,
}
use emu_sa80535_n.Debug.Event.{
  Watch, WatchResult, Event, ok, limit, event_watch_match, obs_access_result,
}
use emu_sa80535_n.Debug.Watch.{watch_result, match_from, table_match}

-- What the watches contribute, in the order of the table.
abbrev pub reports : Event → List Watch → List WatchResult
reports e [] = []
reports e (w ∷ rest) = elim (watch_result w e) [
  | none ↦ reports e rest
  | some r ↦ r ∷ reports e rest
]

match_from-reports :
    (e : Event) (capacity : ℕ) (ws : List Watch) (seen : List WatchResult)
    → match_from e capacity ws (take capacity seen) (length seen)
      ≡ (take capacity (seen ++ reports e ws), length (seen ++ reports e ws))
unfolding match_from
match_from-reports e capacity [] seen = rw (append-nil seen)
match_from-reports e capacity (w ∷ ws) seen = elim (Option-cases (watch_result w e)) [
  | inl h ↦ rw (h, match_from, reports) (match_from-reports e capacity ws seen)
  | inr (r, h) ↦
      let count : length seen + 1 ≡ length (seen ++ (r ∷ [])) =
        omega (arith, length-append seen (r ∷ [])) in
      rw (h, match_from, reports, count, ← take-snoc capacity seen r)
        (match_from-reports e capacity ws (seen ++ (r ∷ []))
          ∙ ap (λ (all : List WatchResult). (take capacity all, length all))
              (append_assoc seen (r ∷ []) (reports e ws)))
]

-- For an access that is no match of its own and no failed or unfinished observation, the caller
-- receives the first reports of the table's watches that fit, in the order of the table, and the
-- number of them all; the status says exactly whether some did not fit.
pub table_match-reports :
    (table : List Watch) (e : Event) (capacity : ℕ)
    → (e.kind == event_watch_match) ≡ false
    → (e.observation.kind == 0
        || (e.observation.kind == obs_access_result && e.observation.status == 0))
      ≡ true
    → table_match table e capacity ≡ (
      if ltb capacity (length (reports e table)) then limit else ok,
      take capacity (reports e table),
      length (reports e table),
    )
unfolding table_match
table_match-reports table e capacity kind seen =
    let all =
      subst
        (λ none_yet.
          match_from e capacity table none_yet 0
          ≡ (take capacity (reports e table), length (reports e table)))
        (take-nil capacity) (match_from-reports e capacity table []) in
    let not_skipped : (not (e.observation.kind == 0)
          && (not (e.observation.kind == obs_access_result) || not (e.observation.status == 0)))
        ≡ false =
      ground arith in
    rw (kind, not_skipped, all) refl
