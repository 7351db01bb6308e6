-- ===== src/Clock.antt =====
-- `updateClock` and `finish` of src/edition-actions/handlers/match-action.handler.ts.
pub mod Periods
pub mod Finish
use intereng_api.Base.{
  ℕ, suc, ◌+◌, ◌-◌, String, Bool, true, false, not, ◌&&◌, ◌||◌, Option, none, some, List, [], ◌∷◌,
  ◌++◌, ◌===◌, ◌==◌, ltb, leb, if◌then◌else◌,
}
use mathlib.Core.Option.{get_or}
use intereng_api.Base.Sort.{sort}
use intereng_api.Regulation.{
  Regulation, CompletionRule, periods, sets, board, result, no_clock, regulation_period_count,
}
use intereng_api.Status.{MatchStatus, finished}
use intereng_api.Match.{
  HttpError, bad_request, conflict, Reply, ok, fail, Context, Scores, PeriodResult, LiveMatch,
  is_live, assert_operator,
}
use intereng_api.Play.{differs, not_live, has_clock, upsert_result, upsert_closed}
use intereng_api.Register.{is_sets, without_period}

-- `running_since` is `none` where the patch has no such field, `some none` where it is null.
pub record ClockPatch : Type 0 where
  pub status : Option MatchStatus
  pub current_period : Option ℕ
  pub clock_seconds : Option ℕ
  pub period_a : Option ℕ
  pub period_b : Option ℕ
  pub paused : Option Bool
  pub running_since : Option (Option ℕ)
  pub period_results : Option (List PeriodResult)

abbrev within : ℕ → ℕ → Option ℕ → Bool
within lo hi none = true
within lo hi (some n) = leb lo n && leb n hi

-- The range checks of the payload.
unfoldable pub clock_in_range : ClockPatch → Bool
clock_in_range p =
    within 1 100 p.current_period
    && within 0 86400 p.clock_seconds
    && within 0 100000 p.period_a
    && within 0 100000 p.period_b

abbrev is_false : Option Bool → Bool
is_false (some false) = true
is_false _ = false

abbrev is_true : Option Bool → Bool
is_true (some true) = true
is_true _ = false

abbrev is_date : Option (Option ℕ) → Bool
is_date (some (some t)) = true
is_date _ = false

abbrev pub overtime : CompletionRule → ℕ
overtime (periods d n m) = n
overtime _ = 0

-- The last period that the regulation has.
unfoldable pub maximum_period : Regulation → ℕ
maximum_period r = regulation_period_count r + overtime r.completion

unfoldable pub same_results : List PeriodResult → List PeriodResult → Bool
same_results [] [] = true
same_results (p ∷ ps) (q ∷ qs) =
    let rest = same_results ps qs in
    p.period == q.period && p.score_a == q.score_a && p.score_b == q.score_b && rest
same_results _ _ = false

abbrev by_period : PeriodResult → PeriodResult → Bool
by_period p q = leb p.period q.period

-- `assertClockPeriodResults` passes.
unfoldable pub clock_results_ok :
    Option (List PeriodResult) → List PeriodResult → Option PeriodResult → Bool
unfolding same_results
clock_results_ok none stored appended = true
clock_results_ok (some received) stored none = same_results received (sort by_period stored)
clock_results_ok (some received) stored (some p) =
    same_results received (sort by_period (without_period p.period stored ++ p ∷ []))

-- The result of the period that the patch leaves behind.
unfoldable pub period_left : Regulation → ClockPatch → LiveMatch → Reply (Option PeriodResult)
unfolding maximum_period
period_left r p m =
    let requested = get_or p.current_period m.scores.period in
    if ltb requested m.scores.period || ltb (m.scores.period + 1) requested
    then fail conflict
    else if requested == m.scores.period + 1
    then (if is_sets r.completion
          || ltb (maximum_period r) requested
          || not (get_or p.period_a 1 == 0)
          || not (get_or p.period_b 1 == 0)
        then fail conflict
        else ok (
            some (record {
              period = m.scores.period;
              score_a = m.scores.period_a;
              score_b = m.scores.period_b;
            })))
    else if differs p.period_a m.scores.period_a || differs p.period_b m.scores.period_b
    then fail conflict
    else ok none

abbrev or_same {ℓ} : {A : Type ℓ} → Option A → A → A
or_same none a = a
or_same (some b) a = b

-- The scores after the patch: a period that is left begins at 0 × 0.
abbrev scores_after : ClockPatch → Option PeriodResult → Scores → Scores
scores_after p none s = s
scores_after p (some q) s = record s { period = s.period + 1; period_a = 0; period_b = 0 }

-- The writes of `updateClock`.
unfoldable pub set_clock : Regulation → ClockPatch → Option PeriodResult → LiveMatch → LiveMatch
set_clock r p left m =
    let paused = if has_clock r then p.paused else some false in
    record m {
      scores = scores_after p left m.scores;
      clock_seconds = or_same p.clock_seconds m.clock_seconds;
      paused = or_same paused m.paused;
      running_since =
          if not (has_clock r) || is_true paused
          then none
          else or_same p.running_since m.running_since;
      period_results = upsert_closed left m.period_results;
    }

unfoldable pub update_clock : Regulation → Context → ClockPatch → LiveMatch → Reply LiveMatch
unfolding clock_in_range period_left set_clock
update_clock r c p m =
    if not (is_live m.status) then fail conflict else elim (assert_operator m c) [
      | fail e ↦ fail e
      | ok _ ↦
          if not_live p.status
          then fail conflict
          else if not (clock_in_range p)
          then fail bad_request
          else if has_clock r && is_false p.paused && not (is_date p.running_since)
          then fail conflict
          else elim (period_left r p m) [
            | fail e ↦ fail e
            | ok left ↦
                if clock_results_ok p.period_results m.period_results left
                then ok (set_clock r p left m)
                else fail conflict
          ]
    ]

pub record FinishPatch : Type 0 where
  pub status : MatchStatus
  pub current_period : ℕ
  pub score_a : Option ℕ
  pub score_b : Option ℕ
  pub clock_seconds : Option ℕ

abbrev is_finished : MatchStatus → Bool
is_finished finished = true
is_finished _ = false

abbrev pub draw_allowed : CompletionRule → Bool
draw_allowed (periods d n t) = d
draw_allowed (board d w p) = d
draw_allowed (result d) = d
draw_allowed (sets s) = false

-- Whether the match ends before the regulation says.
unfoldable pub ends_early : Regulation → ℕ → Scores → Bool
ends_early r period s = elim r.completion [
  | sets rule ↦ ltb s.score_a rule.sets_to_win && ltb s.score_b rule.sets_to_win
  | _ ↦ ltb period (regulation_period_count r)
]

abbrev pub needs_tiebreak : Regulation → Bool → Scores → Bool
needs_tiebreak r is_knockout s =
    s.score_a == s.score_b && (is_knockout || not (draw_allowed r.completion))

-- The winner of the match; `tiebreak` is the winner that `parseTiebreak` returns, or its error.
unfoldable pub decide_winner : Regulation → Bool → Reply String → LiveMatch → Reply (Option String)
decide_winner r is_knockout tiebreak m =
    if needs_tiebreak r is_knockout m.scores
    then (elim tiebreak [ fail e ↦ fail e | ok w ↦ ok (some w) ])
    else if ltb m.scores.score_b m.scores.score_a
    then ok m.entry_a
    else if ltb m.scores.score_a m.scores.score_b
    then ok m.entry_b
    else ok none

-- The writes of `finish`, before the category is recomputed.
unfoldable pub close_match : Regulation → FinishPatch → Option String → LiveMatch → LiveMatch
close_match r p winner m = record m {
  status = finished;
  paused = true;
  running_since = none;
  clock_seconds = or_same p.clock_seconds m.clock_seconds;
  winner = winner;
  period_results =
      if is_sets r.completion
      then m.period_results
      else upsert_result
          (record {
            period = p.current_period;
            score_a = m.scores.period_a;
            score_b = m.scores.period_b;
          })
          m.period_results;
}

-- `reason` says that the audit of the action gives a reason.
unfoldable pub finish :
    Regulation → Bool → Context → Bool → Reply String → FinishPatch → LiveMatch → Reply LiveMatch
unfolding ends_early decide_winner close_match
finish r is_knockout c reason tiebreak p m =
    if not (is_live m.status) then fail conflict else elim (assert_operator m c) [
      | fail e ↦ fail e
      | ok _ ↦
          if not (is_finished p.status)
          then fail conflict
          else if not (within 1 100 (some p.current_period))
          then fail bad_request
          else if not (p.current_period == m.scores.period)
              || differs p.score_a m.scores.score_a
              || differs p.score_b m.scores.score_b
          then fail conflict
          else if ends_early r p.current_period m.scores && not reason
          then fail bad_request
          else elim (decide_winner r is_knockout tiebreak m) [
            | fail e ↦ fail e
            | ok winner ↦
                if within 0 86400 p.clock_seconds
                then ok (close_match r p winner m)
                else fail bad_request
          ]
    ]
