-- ===== src/Regulation/Resolve.antt =====
-- `resolveActionRegulation` of src/edition-actions/action-regulation.ts with its parsers: the regulation of a
-- discipline from the configuration that is stored of it. `points` is the value of a number in the unit in
-- which the discipline counts points, a half point in chess, and `norm` is `normalizedLabel`. Scores are numbers
-- of ℕ, so the points of a board are read as 0 where they are negative; the code keeps them.
use intereng_api.Base.{
  ℕ, suc, String, Bool, true, false, Option, none, some, List, [], ◌∷◌, map, ◌===◌, find,
  if◌then◌else◌,
}
use intereng_api.Base.Int.{ℤ, pos, pos_part}
use intereng_api.Base.Text.{is_empty, trim}
use intereng_api.Http.{conflict, Reply, ok, fail, ◌>>=◌}
use intereng_api.Json.{
  Number, whole, fraction, Json, boolean, number, text, array, object, Items, no_items, item,
  Fields, at,
}
use intereng_api.Regulation.{
  ScoringRule, SecondaryRule, CompletionRule, periods, sets, board, result, Tiebreaker,
  confronto_direto, vitorias, saldo, marcados, sofridos, fair_play, sorteio, StandingsRule,
  KnockoutMethod, prorrogacao, penaltis, set_extra, criterio_tecnico, administrativo, KnockoutRule,
  ClockMode, progressive, countdown, no_clock, Regulation,
}
use intereng_api.Regulation.Presets.{preset, event, score}

-- `record`
abbrev pub record_of : Option Json → Option Fields
record_of (some (object fs)) = some fs
record_of _ = none

-- `stringValue`
unfoldable pub string_of : Option Json → Option String
string_of (some (text s)) = if is_empty (trim s) then none else some (trim s)
string_of _ = none

-- `booleanValue`
abbrev pub boolean_of : Option Json → Option Bool
boolean_of (some (boolean b)) = some b
boolean_of _ = none

-- `finiteNumber`
abbrev pub number_of : Option Json → Option Number
number_of (some (number n)) = some n
number_of _ = none

-- `positiveInteger` and `nonNegativeInteger`
abbrev pub positive_of : Option Json → Option ℕ
positive_of (some (number (whole (pos (suc n))))) = some (suc n)
positive_of _ = none

abbrev pub non_negative_of : Option Json → Option ℕ
non_negative_of (some (number (whole (pos n)))) = some n
non_negative_of _ = none

-- value ?? fallback
abbrev pub or_default : {A : Type 0} → Option A → A → A
or_default none a = a
or_default (some b) a = b

abbrev pub required : {A : Type 0} → Option A → Reply A
required none = fail conflict
required (some a) = ok a

-- rules[key], where there are rules.
abbrev pub get : Option Fields → String → Option Json
get none key = none
get (some fs) key = at key fs

-- `parseClockMode`
unfoldable pub parse_clock_mode : Option Json → ClockMode → Reply ClockMode
parse_clock_mode none fallback = ok fallback
parse_clock_mode (some (text s)) fallback =
    if s === "countup"
    then ok progressive
    else if s === "progressive"
    then ok progressive
    else if s === "countdown"
    then ok countdown
    else if s === "none"
    then ok no_clock
    else fail conflict
parse_clock_mode _ fallback = fail conflict

-- The accepted tiebreakers.
unfoldable pub tiebreaker_of : String → Option Tiebreaker
tiebreaker_of s =
    if s === "confronto-direto"
    then some confronto_direto
    else if s === "vitorias"
    then some vitorias
    else if s === "saldo"
    then some saldo
    else if s === "marcados"
    then some marcados
    else if s === "sofridos"
    then some sofridos
    else if s === "fair-play"
    then some fair_play
    else if s === "sorteio"
    then some sorteio
    else none

unfoldable pub parse_tiebreakers : Items → Reply (List Tiebreaker)
unfolding tiebreaker_of
parse_tiebreakers no_items = ok []
parse_tiebreakers (item (text s) vs) = do
  t ← required (tiebreaker_of s)
  ts ← parse_tiebreakers vs
  ok (t ∷ ts)
parse_tiebreakers (item v vs) = fail conflict

unfoldable pub tiebreakers_of : Option Json → Reply (List Tiebreaker)
unfolding parse_tiebreakers
tiebreakers_of (some (array no_items)) = fail conflict
tiebreakers_of (some (array vs)) = parse_tiebreakers vs
tiebreakers_of _ = fail conflict

-- The methods of the knockout rule.
unfoldable pub method_of : Option Json → Option KnockoutMethod
method_of (some (text s)) =
    if s === "prorrogacao"
    then some prorrogacao
    else if s === "penaltis"
    then some penaltis
    else if s === "set-extra"
    then some set_extra
    else if s === "criterio-tecnico"
    then some criterio_tecnico
    else if s === "administrativo"
    then some administrativo
    else none
method_of _ = none

-- `parseKnockout`
unfoldable pub parse_knockout : Option Json → KnockoutRule → Reply KnockoutRule
unfolding method_of string_of
parse_knockout (some (object fs)) fallback = do
  method ← required (method_of (at "method" fs))
  label ← required (string_of (at "label" fs))
  ok (record {
    method = method;
    label = label;
    requires_score = or_default (boolean_of (at "requiresScore" fs)) fallback.requires_score;
    third_place_match =
        or_default (boolean_of (at "thirdPlaceMatch" fs)) fallback.third_place_match;
  })
parse_knockout _ fallback = ok fallback

module _ (points : Number → ℤ) where
  -- An integer that is positive, as points.
  unfoldable pub scored_points : Option Json → Option ℕ
  scored_points v = elim (positive_of v) [
    | none ↦ none
    | some n ↦ some (pos_part (points (whole (pos n))))
  ]

  unfoldable pub parse_scoring_items : Items → Reply (List ScoringRule)
  unfolding string_of scored_points
  parse_scoring_items no_items = ok []
  parse_scoring_items (item v vs) = do
    label ← required (string_of (get (record_of (some v)) "label"))
    value ← required (scored_points (get (record_of (some v)) "points"))
    rest ← parse_scoring_items vs
    ok (record { label = label; points = value } ∷ rest)

  -- `parseScoring`
  unfoldable pub parse_scoring : Option Json → Reply (List ScoringRule)
  unfolding parse_scoring_items
  parse_scoring (some (array vs)) = parse_scoring_items vs
  parse_scoring _ = ok []

  unfoldable pub parse_secondary_items : Items → Reply (List SecondaryRule)
  unfolding string_of
  parse_secondary_items no_items = ok []
  parse_secondary_items (item v vs) = do
    let entry = record_of (some v)
    label ← required (string_of (get entry "label"))
    rest ← parse_secondary_items vs
    ok (
        record {
          label = label;
          requires_side = or_default (boolean_of (get entry "requiresSide")) true;
          allowed_when_stopped = or_default (boolean_of (get entry "allowedWhenStopped")) true;
          score_points =
              pos_part
                (points (whole (pos (or_default (non_negative_of (get entry "scorePoints")) 0))));
          fair_play_points = or_default (non_negative_of (get entry "fairPlayPoints")) 0;
        }
        ∷ rest)

  -- `parseSecondary`
  unfoldable pub parse_secondary : Option Json → Reply (List SecondaryRule)
  unfolding parse_secondary_items
  parse_secondary (some (array vs)) = parse_secondary_items vs
  parse_secondary _ = ok []

  -- `parseCompletion`
  unfoldable pub parse_completion : Option Json → CompletionRule → Reply CompletionRule
  parse_completion (some (object fs)) fallback = elim (at "mode" fs) [
    | some (text mode) ↦
        if mode === "sets"
        then (do
          to_win ← required (positive_of (at "setsToWin" fs))
          target ← required (positive_of (at "pointsToWinSet" fs))
          deciding ← required (positive_of (at "pointsToWinDecidingSet" fs))
          advantage ← required (positive_of (at "minAdvantage" fs))
          ok (
              sets (record {
                sets_to_win = to_win;
                points_to_win_set = target;
                points_to_win_deciding_set = deciding;
                min_advantage = advantage;
              })))
        else if mode === "periods"
        then ok (
            periods (or_default (boolean_of (at "allowDraw" fs)) true)
              (or_default (non_negative_of (at "overtimePeriods" fs)) 0)
              (or_default (non_negative_of (at "overtimeDurationMinutes" fs)) 0))
        else if mode === "board"
        then ok (
            board (or_default (boolean_of (at "allowDraw" fs)) true)
              (pos_part (points (or_default (number_of (at "winPoints" fs)) (whole (pos 1)))))
              (pos_part
                (points (or_default (number_of (at "drawPoints" fs)) (fraction (pos 0) 5)))))
        else if mode === "result"
        then ok (result (or_default (boolean_of (at "allowDraw" fs)) false))
        else fail conflict
    | _ ↦ fail conflict
  ]
  parse_completion _ fallback = ok fallback

  -- `parseStandings`
  unfoldable pub parse_standings : Option Json → StandingsRule → Reply StandingsRule
  unfolding tiebreakers_of
  parse_standings (some (object fs)) fallback = do
    criteria ← tiebreakers_of (at "tiebreakers" fs)
    win ← required (number_of (at "win" fs))
    draw ← required (number_of (at "draw" fs))
    loss ← required (number_of (at "loss" fs))
    ok (record { win = points win; draw = points draw; loss = points loss; tiebreakers = criteria })
  parse_standings _ fallback = ok fallback

  -- The label of the first scoring rule is the given one.
  abbrev pub is_first_label : String → List ScoringRule → Bool
  is_first_label s [] = false
  is_first_label s (r ∷ rs) = r.label === s

  -- `scoringActions`
  unfoldable pub scoring_actions :
      List ScoringRule → Option String → List ScoringRule → List ScoringRule
  scoring_actions (r ∷ rs) legacy fallback = r ∷ rs
  scoring_actions [] none fallback = fallback
  scoring_actions [] (some s) fallback =
      if is_first_label s fallback
      then fallback
      else score s (pos_part (points (whole (pos 1)))) ∷ []

  -- The labels of `secondaryEvents`.
  unfoldable pub legacy_labels : Items → List String
  legacy_labels no_items = []
  legacy_labels (item (text s) vs) =
      let rest = legacy_labels vs in if is_empty (trim s) then rest else s ∷ rest
  legacy_labels (item v vs) = legacy_labels vs

  abbrev pub legacy_secondary : Option Json → List String
  legacy_secondary (some (array vs)) = legacy_labels vs
  legacy_secondary _ = []

  module _ (norm : String → String) where
    -- `secondaryActions`
    unfoldable pub secondary_actions :
        List SecondaryRule → List String → List SecondaryRule → List SecondaryRule
    unfolding find
    secondary_actions (r ∷ rs) legacy fallback = r ∷ rs
    secondary_actions [] [] fallback = fallback
    secondary_actions [] (l ∷ ls) fallback =
        map (λ label. or_default (find (λ x. norm x.label === norm label) fallback) (event label))
          (l ∷ ls)

    -- The regulation of rules, over the one of the discipline.
    unfoldable pub resolve_rules : Fields → Regulation → Reply Regulation
    unfolding parse_clock_mode parse_scoring parse_secondary parse_completion parse_standings
        parse_knockout scoring_actions legacy_labels secondary_actions string_of
    resolve_rules rules base = do
      clock ← parse_clock_mode (at "clockMode" rules) base.clock_mode
      scoring ← parse_scoring (at "scoring" rules)
      secondary ← parse_secondary (at "secondary" rules)
      completion ← parse_completion (at "completion" rules) base.completion
      standings ← parse_standings (at "standings" rules) base.standings
      knockout ← parse_knockout (at "knockout" rules) base.knockout
      ok (record {
        period_label = or_default (string_of (at "periodLabel" rules)) base.period_label;
        period_count = or_default (positive_of (at "periodCount" rules)) base.period_count;
        period_duration_minutes =
            or_default (non_negative_of (at "periodDurationMinutes" rules))
              base.period_duration_minutes;
        clock_mode = clock;
        scoring = scoring_actions scoring (string_of (at "scoringEvent" rules)) base.scoring;
        secondary =
            secondary_actions secondary (legacy_secondary (at "secondaryEvents" rules))
              base.secondary;
        completion = completion;
        standings = standings;
        knockout = knockout;
      })

    -- `resolveActionRegulation`: the rules stand under `rules`, or the configuration is the rules.
    unfoldable pub resolve_action_regulation : String → Option Json → Reply Regulation
    unfolding preset resolve_rules
    resolve_action_regulation discipline config = elim (record_of config) [
      | none ↦ ok (preset discipline)
      | some root ↦ elim (record_of (at "rules" root)) [
        | some rules ↦ resolve_rules rules (preset discipline)
        | none ↦ resolve_rules root (preset discipline)
      ]
    ]
