-- ===== src/Play.antt =====
-- The events of a live match: `registerEvent`, `undoEvent` and their tests, of
-- src/edition-actions/handlers/match-action.handler.ts. `norm` stands for `normalizedLabel`, which works
-- on Unicode; `athlete` is what `resolveEventAthlete` returns or throws.
use Prim.Native.String.{◌++◌ as text_append}
use intereng_api.Base.{
  ℕ, ◌+◌, String, Bool, true, false, not, ◌&&◌, ◌||◌, Option, none, some, List, [], ◌∷◌, ◌===◌,
  ◌==◌, ltb, leb, if◌then◌else◌,
}
use intereng_api.Status.{MatchStatus}
use intereng_api.Regulation.{
  Regulation, ScoringRule, SecondaryRule, CompletionRule, sets, board, result, no_clock, Side, home,
  away, set_winner,
}
use intereng_api.Match.{
  conflict, Reply, ok, fail, Scores, PeriodResult, SideLabel, home_side, away_side, neutral_side,
  Event, LiveMatch, is_live,
}

-- What the client says that the score is; a missing field is not compared.
pub record ScorePatch : Type 0 where
  pub status : Option MatchStatus
  pub score_a : Option ℕ
  pub score_b : Option ℕ
  pub period_a : Option ℕ
  pub period_b : Option ℕ
  pub period : Option ℕ

pub record EventPayload : Type 0 where
  pub id : String
  pub kind : String
  pub side : SideLabel
  pub points : Option ℕ
  pub period : Option ℕ
  pub score_a : Option ℕ
  pub score_b : Option ℕ

-- A score with the result of the period that it closed.
pub record Derived : Type 0 where
  pub after : Scores
  pub closed : Option PeriodResult

-- value !== undefined && value !== expected
abbrev pub differs : Option ℕ → ℕ → Bool
differs none n = false
differs (some v) n = not (v == n)

abbrev pub is_home : SideLabel → Bool
is_home home_side = true
is_home _ = false

abbrev pub is_away : SideLabel → Bool
is_away away_side = true
is_away _ = false

abbrev pub is_neutral : SideLabel → Bool
is_neutral neutral_side = true
is_neutral _ = false

abbrev pub won_by : Side → Option Side → ℕ
won_by home (some home) = 1
won_by away (some away) = 1
won_by _ _ = 0

abbrev pub is_decided : Option Side → Bool
is_decided none = false
is_decided (some s) = true

-- `declarativeScore`
unfoldable pub declarative_score : Regulation → SideLabel → Reply (ℕ × ℕ)
declarative_score r neutral_side = elim r.completion [
  | board draws win_points draw_points ↦
      if draws then ok (draw_points, draw_points) else fail conflict
  | result draws ↦ if draws then ok (0, 0) else fail conflict
  | _ ↦ fail conflict
]
declarative_score r home_side = elim r.completion [
  | board draws win_points draw_points ↦ ok (win_points, 0)
  | result draws ↦ ok (1, 0)
  | _ ↦ fail conflict
]
declarative_score r away_side = elim r.completion [
  | board draws win_points draw_points ↦ ok (0, win_points)
  | result draws ↦ ok (0, 1)
  | _ ↦ fail conflict
]

-- The points of an event, under the rule of sets: the set may be won, and the match with it.
unfoldable pub score_set : Regulation → ℕ → SideLabel → ℕ → Scores → Derived
score_set r sets_to_win side points s =
    let a = s.period_a + (if is_home side then points else 0) in
    let b = s.period_b + (if is_away side then points else 0) in
    let decided = set_winner r s.period a b in
    let score_a = s.score_a + won_by home decided in
    let score_b = s.score_b + won_by away decided in
    let over = leb sets_to_win score_a || leb sets_to_win score_b in
    record {
      after = record {
        score_a = score_a;
        score_b = score_b;
        period_a = if is_decided decided && not over then 0 else a;
        period_b = if is_decided decided && not over then 0 else b;
        period = if is_decided decided && not over then s.period + 1 else s.period;
      };
      closed =
          if is_decided decided
          then some (record { period = s.period; score_a = a; score_b = b })
          else none;
    }

-- The points of an event under any other rule.
unfoldable pub score_points : SideLabel → ℕ → Scores → Derived
score_points side points s = record {
  after = record s {
    score_a = s.score_a + (if is_home side then points else 0);
    score_b = s.score_b + (if is_away side then points else 0);
    period_a = s.period_a + (if is_home side then points else 0);
    period_b = s.period_b + (if is_away side then points else 0);
  };
  closed = none;
}

-- The score after an event of so many points.
unfoldable pub derive_score : Regulation → Bool → SideLabel → ℕ → Scores → Reply Derived
unfolding declarative_score score_set score_points
derive_score r declarative side points s =
    if declarative
    then (elim (declarative_score r side) [
      | fail e ↦ fail e
      | ok (a, b) ↦ ok (record { after = record s { score_a = a; score_b = b }; closed = none })
    ])
    else if points == 0
    then ok (record { after = s; closed = none })
    else elim r.completion [
      | sets rule ↦
          if leb rule.sets_to_win s.score_a || leb rule.sets_to_win s.score_b
          then fail conflict
          else ok (score_set r rule.sets_to_win side points s)
      | _ ↦ ok (score_points side points s)
    ]

abbrev pub not_live : Option MatchStatus → Bool
not_live none = false
not_live (some s) = not (is_live s)

-- `assertDerivedScorePatch` passes.
unfoldable pub score_patch_ok : ScorePatch → Scores → Bool
score_patch_ok p s = not (
    not_live p.status
    || differs p.score_a s.score_a
    || differs p.score_b s.score_b
    || differs p.period_a s.period_a
    || differs p.period_b s.period_b
    || differs p.period s.period)

-- `assertDerivedPeriodResult` passes.
unfoldable pub period_result_ok : Option PeriodResult → Option PeriodResult → Bool
period_result_ok none expected = true
period_result_ok (some r) none = false
period_result_ok (some r) (some e) =
    r.period == e.period && r.score_a == e.score_a && r.score_b == e.score_b

unfoldable pub find_event : String → List Event → Option Event
find_event id [] = none
find_event id (e ∷ es) = if e.id === id then some e else find_event id es

module _ (norm : String → String) where
  unfoldable pub find_scoring : String → List ScoringRule → Option ScoringRule
  find_scoring label [] = none
  find_scoring label (r ∷ rs) = if norm r.label === label then some r else find_scoring label rs

  unfoldable pub find_secondary : String → List SecondaryRule → Option SecondaryRule
  find_secondary label [] = none
  find_secondary label (r ∷ rs) = if norm r.label === label then some r else find_secondary label rs

abbrev is_absolute : CompletionRule → Bool
is_absolute (board d w p) = true
is_absolute (result d) = true
is_absolute _ = false

abbrev pub has_clock : Regulation → Bool
has_clock r = elim r.clock_mode [ no_clock ↦ false | _ ↦ true ]

-- matchPeriodResult.upsert, by the period.
unfoldable pub upsert_result : PeriodResult → List PeriodResult → List PeriodResult
upsert_result p [] = p ∷ []
upsert_result p (q ∷ qs) = if q.period == p.period then p ∷ qs else q ∷ upsert_result p qs

abbrev pub upsert_closed : Option PeriodResult → List PeriodResult → List PeriodResult
upsert_closed none ps = ps
upsert_closed (some p) ps = upsert_result p ps

-- The entry on whose side the event is.
abbrev pub side_entry : LiveMatch → SideLabel → Option String
side_entry m home_side = m.entry_a
side_entry m away_side = m.entry_b
side_entry m neutral_side = none

-- The rules that an event label names, and whether it declares the result.
pub record Named : Type 0 where
  pub scoring : Option ScoringRule
  pub secondary : Option SecondaryRule
  pub declarative : Bool

unfoldable pub named : (String → String) → Regulation → String → Named
unfolding find_scoring find_secondary
named norm r kind = record {
  scoring = find_scoring norm (norm kind) r.scoring;
  secondary = find_secondary norm (norm kind) r.secondary;
  declarative =
      is_absolute r.completion && norm kind === norm (text_append "Resultado da " r.period_label);
}

-- scoringRule?.points ?? secondaryRule?.scorePoints ?? 0
unfoldable pub points_of : Named → ℕ
points_of n = elim n.scoring [
  | some r ↦ r.points
  | none ↦ elim n.secondary [ some r ↦ r.score_points | none ↦ 0 ]
]

abbrev pub fair_play_of_rule : Option SecondaryRule → ℕ
fair_play_of_rule none = 0
fair_play_of_rule (some r) = r.fair_play_points

abbrev is_scoring : Option ScoringRule → Bool
is_scoring none = false
is_scoring (some r) = true

abbrev known : Option SecondaryRule → Bool
known none = false
known (some r) = true

abbrev needs_side : Option SecondaryRule → Bool
needs_side none = false
needs_side (some r) = r.requires_side

abbrev needs_clock : Option SecondaryRule → Bool
needs_clock none = false
needs_clock (some r) = not r.allowed_when_stopped

-- The tests of `registerEvent` on the label, the side, the clock, the points and the period, in the
-- order of the source; all of them are conflicts.
unfoldable pub event_allowed : Regulation → Named → EventPayload → LiveMatch → Bool
unfolding points_of
event_allowed r n e m =
    (is_scoring n.scoring || known n.secondary || n.declarative)
    && not (is_scoring n.scoring && is_neutral e.side)
    && not (needs_side n.secondary && is_neutral e.side)
    && not ((is_scoring n.scoring || n.declarative) && has_clock r && m.paused)
    && not (needs_clock n.secondary && has_clock r && m.paused)
    && not (is_neutral e.side && ltb 0 (points_of n))
    && not (differs e.points (points_of n))
    && not (differs e.period m.scores.period)
