-- ===== src/Register.antt =====
-- `registerEvent` and `undoEvent` of src/edition-actions/handlers/match-action.handler.ts, with the tests
-- of Play. Of the other fields of an event (detail, elapsed times, dates) none is read again. The ranges of the
-- numbers that `undoEvent` restores were checked before, as those of the other payloads.
pub mod Sets
pub mod Undo
use intereng_api.Base.{
  ℕ, suc, ◌+◌, ◌-◌, String, Bool, true, false, not, ◌&&◌, ◌||◌, Option, none, some, List, [], ◌∷◌,
  ◌===◌, ◌==◌, ltb, leb, if◌then◌else◌,
}
use intereng_api.Regulation.{Regulation, CompletionRule, sets}
use intereng_api.Match.{
  conflict, not_found, Reply, ok, fail, Context, Scores, PeriodResult, Event, LiveMatch, is_live,
  assert_operator,
}
use intereng_api.Play.{
  ScorePatch, EventPayload, Derived, differs, derive_score, score_patch_ok, period_result_ok,
  find_event, upsert_closed, side_entry, Named, named, points_of, fair_play_of_rule, event_allowed,
}

abbrev pub has_event : String → List Event → Bool
has_event id es = elim (find_event id es) [ none ↦ false | some e ↦ true ]

unfoldable pub new_event : Named → EventPayload → Option String → Derived → LiveMatch → Event
new_event n e athlete d m = record {
  id = e.id;
  kind = e.kind;
  side = e.side;
  entry = side_entry m e.side;
  athlete = athlete;
  points = points_of n;
  fair_play_points = fair_play_of_rule n.secondary;
  score_a = d.after.score_a;
  score_b = d.after.score_b;
  previous = m.scores;
  sequence = m.last_sequence + 1;
  undone = false;
}

-- The writes of `registerEvent`.
unfoldable pub store_event : Event → Derived → LiveMatch → LiveMatch
store_event e d m = record m {
  scores = d.after;
  last_sequence = m.last_sequence + 1;
  period_results = upsert_closed d.closed m.period_results;
  events = e ∷ m.events;
}

module _ (norm : String → String) (elsewhere : String → Bool) (r : Regulation) (c : Context) where
  -- `elsewhere` tells the ids of the events of other matches.
  unfoldable pub register_event :
      EventPayload
      → ScorePatch
      → Option PeriodResult
      → Reply (Option String)
      → LiveMatch
      → Reply LiveMatch
  unfolding new_event store_event
  register_event e patch period_result athlete m =
      let n = named norm r e.kind in
      if not (is_live m.status) then fail conflict else elim (assert_operator m c) [
        | fail x ↦ fail x
        | ok _ ↦
            if has_event e.id m.events || elsewhere e.id || not (event_allowed r n e m)
            then fail conflict
            else elim (derive_score r n.declarative e.side (points_of n) m.scores) [
              | fail x ↦ fail x
              | ok d ↦
                  if score_patch_ok patch d.after
                    && not (differs e.score_a d.after.score_a || differs e.score_b d.after.score_b)
                    && period_result_ok period_result d.closed
                  then elim athlete [
                    | fail x ↦ fail x
                    | ok who ↦ ok (store_event (new_event n e who d m) d m)
                  ]
                  else fail conflict
            ]
      ]

-- findFirst({ where: { id, undoneAt: null } })
unfoldable pub find_active : String → List Event → Option Event
find_active id [] = none
find_active id (e ∷ es) = if e.id === id && not e.undone then some e else find_active id es

-- The event with the greatest sequence among those that were not undone.
unfoldable pub latest_active : List Event → Option Event
latest_active [] = none
latest_active (e ∷ es) =
    let rest = latest_active es in
    if e.undone
    then rest
    else elim rest [ none ↦ some e | some f ↦ if ltb e.sequence f.sequence then some f else some e ]

unfoldable pub mark_undone : String → List Event → List Event
mark_undone id [] = []
mark_undone id (e ∷ es) =
    if e.id === id then record e { undone = true } ∷ es else e ∷ mark_undone id es

abbrev pub same_scores : Scores → Scores → Bool
same_scores s t =
    s.score_a == t.score_a
    && s.score_b == t.score_b
    && s.period_a == t.period_a
    && s.period_b == t.period_b
    && s.period == t.period

unfoldable pub without_period : ℕ → List PeriodResult → List PeriodResult
without_period k [] = []
without_period k (p ∷ ps) =
    let rest = without_period k ps in if p.period == k then rest else p ∷ rest

unfoldable pub before_period : ℕ → List PeriodResult → List PeriodResult
before_period k [] = []
before_period k (p ∷ ps) =
    let rest = before_period k ps in if leb k p.period then rest else p ∷ rest

abbrev pub is_sets : CompletionRule → Bool
is_sets (sets s) = true
is_sets _ = false

-- The results that `undoEvent` leaves.
unfoldable pub results_left : Regulation → Event → List PeriodResult → List PeriodResult
unfolding without_period before_period
results_left r e ps =
    if is_sets r.completion
    then (if ltb (e.previous.score_a + e.previous.score_b) (e.score_a + e.score_b)
        then without_period e.previous.period ps
        else ps)
    else before_period e.previous.period ps

unfoldable pub undo_event : Regulation → Context → String → Scores → LiveMatch → Reply LiveMatch
unfolding find_active latest_active mark_undone results_left
undo_event r c id restore m = elim (assert_operator m c) [
  | fail x ↦ fail x
  | ok _ ↦ elim (find_active id m.events) [
    | none ↦ fail not_found
    | some e ↦ elim (latest_active m.events) [
      | none ↦ fail conflict
      | some l ↦
          if l.id === e.id && same_scores restore e.previous
          then ok (record m {
            scores = e.previous;
            period_results = results_left r e m.period_results;
            events = mark_undone id m.events;
          })
          else fail conflict
    ]
  ]
]
