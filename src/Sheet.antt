-- ===== src/Sheet.antt =====
-- Results entered from the score sheet: `recordResult`, `validSetWinner` and `parseTiebreak` of
-- src/edition-actions/handlers/match-action.handler.ts. `by_name` stands for `entryByName`, which looks an
-- entry up in the database.
pub mod Winner
pub mod Result
use Prim.Native.Nat.{max, min}
use intereng_api.Base.{
  ℕ, ◌+◌, ◌-◌, String, Bool, true, false, not, ◌&&◌, ◌||◌, Option, none, some, List, [], ◌∷◌, map,
  ◌===◌, ◌==◌, ltb, leb, length, if◌then◌else◌,
}
use intereng_api.Standings.{truthy}
use intereng_api.Regulation.{
  Regulation, SetsRule, sets, Side, home, away, KnockoutMethod, administrativo, set_target,
  set_winner, regulation_period_count,
}
use intereng_api.Status.{MatchStatus, scheduled, postponed, live, finished}
use intereng_api.Match.{
  bad_request, conflict, Reply, ok, fail, PeriodResult, Event, LiveMatch, is_text,
}
use intereng_api.Clock.{draw_allowed}

pub record Tiebreak : Type 0 where
  pub method : KnockoutMethod
  pub score_a : ℕ
  pub score_b : ℕ
  pub winner : String

abbrev is_administrative : KnockoutMethod → Bool
is_administrative administrativo = true
is_administrative _ = false

-- `parseTiebreak`: the entry that wins.
unfoldable pub parse_tiebreak : (String → Reply String) → Option Tiebreak → LiveMatch → Reply String
parse_tiebreak by_name none m = fail conflict
parse_tiebreak by_name (some t) m = elim (by_name t.winner) [
  | fail e ↦ fail e
  | ok w ↦
      if not (is_text m.entry_a w) && not (is_text m.entry_b w)
      then fail conflict
      else if t.score_a == t.score_b
      then (if is_administrative t.method then ok w else fail conflict)
      else if is_text (if ltb t.score_b t.score_a then m.entry_a else m.entry_b) w
      then ok w
      else fail conflict
]

-- `validSetWinner`
unfoldable pub valid_set_winner : Regulation → SetsRule → ℕ → ℕ → ℕ → Reply Side
valid_set_winner r rule period a b = elim (set_winner r period a b) [
  | none ↦ fail bad_request
  | some side ↦
      if ltb (set_target rule period) (max a b) && not (max a b - min a b == rule.min_advantage)
      then fail bad_request
      else ok side
]

abbrev pub add_set : Side → ℕ × ℕ → ℕ × ℕ
add_set home s = (s.0 + 1, s.1)
add_set away s = (s.0, s.1 + 1)

-- The loop over the sets.
unfoldable pub count_sets : Regulation → SetsRule → ℕ × ℕ → List PeriodResult → Reply (ℕ × ℕ)
unfolding valid_set_winner
count_sets r rule score [] = ok score
count_sets r rule score (p ∷ ps) =
    let after_home = count_sets r rule (add_set home score) ps in
    let after_away = count_sets r rule (add_set away score) ps in
    if leb rule.sets_to_win score.0 || leb rule.sets_to_win score.1
    then fail bad_request
    else elim (valid_set_winner r rule p.period p.score_a p.score_b) [
      | fail e ↦ fail e
      | ok home ↦ after_home
      | ok away ↦ after_away
    ]

unfoldable pub sum_home : List PeriodResult → ℕ
sum_home [] = 0
sum_home (p ∷ ps) = p.score_a + sum_home ps

unfoldable pub sum_away : List PeriodResult → ℕ
sum_away [] = 0
sum_away (p ∷ ps) = p.score_b + sum_away ps

-- The final score of the sheet: the sets won, or the score that was sent, which the partial scores have to
-- add up to where they are given.
unfoldable pub sheet_score : Regulation → Option (ℕ × ℕ) → List PeriodResult → Reply (ℕ × ℕ)
unfolding count_sets sum_home sum_away
sheet_score r sent ps = elim r.completion [
  | sets rule ↦ if length ps == 0 then fail bad_request else (elim (count_sets r rule (0, 0) ps) [
    | fail e ↦ fail e
    | ok score ↦
        if ltb score.0 rule.sets_to_win && ltb score.1 rule.sets_to_win
        then fail bad_request
        else ok score
  ])
  | _ ↦ elim sent [
    | none ↦ fail bad_request
    | some score ↦
        if ltb 100000 score.0
          || ltb 100000 score.1
          || not (length ps == 0) && (not (sum_home ps == score.0) || not (sum_away ps == score.1))
        then fail bad_request
        else ok score
  ]
]

-- Some event was not undone.
unfoldable pub any_active : List Event → Bool
any_active [] = false
any_active (e ∷ es) = not e.undone || any_active es

abbrev untouched : LiveMatch → Bool
untouched m = elim m.status [
  | scheduled ↦ true
  | postponed ↦ true
  | live ↦ not (any_active m.events)
  | _ ↦ false
]

unfoldable pub sheet_winner :
    Regulation → Bool → Reply String → ℕ × ℕ → LiveMatch → Reply (Option String)
sheet_winner r is_knockout tiebreak score m =
    if score.0 == score.1
    then (if is_knockout || not (draw_allowed r.completion)
        then (elim tiebreak [ fail e ↦ fail e | ok w ↦ ok (some w) ])
        else ok none)
    else if ltb score.1 score.0
    then ok m.entry_a
    else ok m.entry_b

-- The writes of `recordResult`, before the category is recomputed.
unfoldable pub store_result :
    Regulation → List PeriodResult → ℕ × ℕ → Option String → LiveMatch → LiveMatch
store_result r ps score winner m = record m {
  status = finished;
  scores = record {
    score_a = score.0;
    score_b = score.1;
    period_a = 0;
    period_b = 0;
    period = max 1 (if length ps == 0 then regulation_period_count r else length ps);
  };
  period_results = ps;
  paused = true;
  running_since = none;
  clock_seconds = 0;
  winner = winner;
  operator = none;
  operator_device = none;
  operator_name = none;
  heartbeat = none;
}

-- periods.map((value, index) => …): the period of a partial score is its place.
unfoldable pub number_periods : ℕ → List (ℕ × ℕ) → List PeriodResult
number_periods k [] = []
number_periods k (s ∷ ss) =
    record { period = k; score_a = s.0; score_b = s.1 } ∷ number_periods (k + 1) ss

-- The range checks of the partial scores, and of the score that was sent.
unfoldable pub partials_in_range : List (ℕ × ℕ) → Bool
partials_in_range [] = true
partials_in_range (s ∷ ss) = leb s.0 1000 && leb s.1 1000 && partials_in_range ss

unfoldable pub record_result :
    Regulation
    → Bool
    → (String → Reply String)
    → Option (ℕ × ℕ)
    → List (ℕ × ℕ)
    → Option Tiebreak
    → LiveMatch
    → Reply LiveMatch
unfolding number_periods partials_in_range sheet_score any_active sheet_winner store_result
    parse_tiebreak
record_result r is_knockout by_name sent partials tiebreak m =
    let ps = number_periods 1 partials in
    if not (untouched m) then fail conflict else elim (truthy m.entry_a) [
      | none ↦ fail conflict
      | some a ↦ elim (truthy m.entry_b) [
        | none ↦ fail conflict
        | some b ↦
            if leb (length partials) 20 && partials_in_range partials
            then elim (sheet_score r sent ps) [
              | fail e ↦ fail e
              | ok score ↦
                  elim (sheet_winner r is_knockout (parse_tiebreak by_name tiebreak m) score m) [
                    | fail e ↦ fail e
                    | ok winner ↦ ok (store_result r ps score winner m)
                  ]
            ]
            else fail bad_request
      ]
    ]
