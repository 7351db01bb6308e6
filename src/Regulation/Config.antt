-- ===== src/Regulation/Config.antt =====
-- The configuration that says what a regulation says, in the form that
-- src/edition-actions/action-regulation.ts reads.
use intereng_api.Base.{ℕ, ◌<◌, String, ◌≡◌, ◌≢◌, false, List, [], ◌∷◌}
use intereng_api.Base.Int.{pos}
use intereng_api.Base.Order.{All}
use intereng_api.Base.Text.{is_empty, trim}
use intereng_api.Json.{
  whole, Json, boolean, number, text, array, object, Items, no_items, item, Fields, no_fields,
  field,
}
use intereng_api.Regulation.{
  ScoringRule, SecondaryRule, CompletionRule, periods, sets, board, result, Tiebreaker,
  confronto_direto, vitorias, saldo, marcados, sofridos, fair_play, sorteio, StandingsRule,
  KnockoutMethod, prorrogacao, penaltis, set_extra, criterio_tecnico, administrativo, KnockoutRule,
  ClockMode, progressive, countdown, no_clock, Regulation,
}

-- A number of ℕ, as a value.
abbrev pub whole_json : ℕ → Json
whole_json n = number (whole (pos n))

abbrev pub clock_json : ClockMode → Json
clock_json progressive = text "progressive"
clock_json countdown = text "countdown"
clock_json no_clock = text "none"

abbrev pub tiebreaker_text : Tiebreaker → String
tiebreaker_text confronto_direto = "confronto-direto"
tiebreaker_text vitorias = "vitorias"
tiebreaker_text saldo = "saldo"
tiebreaker_text marcados = "marcados"
tiebreaker_text sofridos = "sofridos"
tiebreaker_text fair_play = "fair-play"
tiebreaker_text sorteio = "sorteio"

abbrev pub tiebreakers_json : List Tiebreaker → Items
tiebreakers_json [] = no_items
tiebreakers_json (t ∷ ts) = item (text (tiebreaker_text t)) (tiebreakers_json ts)

abbrev pub method_text : KnockoutMethod → String
method_text prorrogacao = "prorrogacao"
method_text penaltis = "penaltis"
method_text set_extra = "set-extra"
method_text criterio_tecnico = "criterio-tecnico"
method_text administrativo = "administrativo"

abbrev pub scoring_json : List ScoringRule → Items
scoring_json [] = no_items
scoring_json (r ∷ rs) =
    item (object (field "label" (text r.label) (field "points" (whole_json r.points) no_fields)))
      (scoring_json rs)

abbrev pub secondary_json : List SecondaryRule → Items
secondary_json [] = no_items
secondary_json (r ∷ rs) =
    item
      (object (
        field "label" (text r.label) (
          field "requiresSide" (boolean r.requires_side) (
            field "allowedWhenStopped" (boolean r.allowed_when_stopped) (
              field "scorePoints" (whole_json r.score_points)
                (field "fairPlayPoints" (whole_json r.fair_play_points) no_fields))))))
      (secondary_json rs)

abbrev pub completion_json : CompletionRule → Fields
completion_json (periods draw n m) = field "mode" (text "periods") (
    field "allowDraw" (boolean draw) (
      field "overtimePeriods" (whole_json n)
        (field "overtimeDurationMinutes" (whole_json m) no_fields)))
completion_json (sets s) = field "mode" (text "sets") (
    field "setsToWin" (whole_json s.sets_to_win) (
      field "pointsToWinSet" (whole_json s.points_to_win_set) (
        field "pointsToWinDecidingSet" (whole_json s.points_to_win_deciding_set)
          (field "minAdvantage" (whole_json s.min_advantage) no_fields))))
completion_json (board draw w d) = field "mode" (text "board") (
    field "allowDraw" (boolean draw)
      (field "winPoints" (whole_json w) (field "drawPoints" (whole_json d) no_fields)))
completion_json (result draw) =
    field "mode" (text "result") (field "allowDraw" (boolean draw) no_fields)

abbrev pub standings_json : StandingsRule → Fields
standings_json s = field "win" (number (whole s.win)) (
    field "draw" (number (whole s.draw)) (
      field "loss" (number (whole s.loss))
        (field "tiebreakers" (array (tiebreakers_json s.tiebreakers)) no_fields)))

abbrev pub knockout_json : KnockoutRule → Fields
knockout_json k = field "method" (text (method_text k.method)) (
    field "label" (text k.label) (
      field "requiresScore" (boolean k.requires_score)
        (field "thirdPlaceMatch" (boolean k.third_place_match) no_fields)))

abbrev pub regulation_json : Regulation → Fields
regulation_json r = field "periodLabel" (text r.period_label) (
    field "periodCount" (whole_json r.period_count) (
      field "periodDurationMinutes" (whole_json r.period_duration_minutes) (
        field "clockMode" (clock_json r.clock_mode) (
          field "scoring" (array (scoring_json r.scoring)) (
            field "secondary" (array (secondary_json r.secondary)) (
              field "completion" (object (completion_json r.completion)) (
                field "standings" (object (standings_json r.standings))
                  (field "knockout" (object (knockout_json r.knockout)) no_fields))))))))

-- The configuration of a discipline, with the regulation under `rules`.
abbrev pub config_json : Regulation → Json
config_json r = object (field "rules" (object (regulation_json r)) no_fields)

-- A label as the parsers leave it.
pub record IsLabel (s : String) : Type 0 where
  pub not_empty : is_empty s ≡ false
  pub trimmed : trim s ≡ s

abbrev pub PositiveSets : CompletionRule → Type 0
PositiveSets (sets s) =
    (0 < s.sets_to_win)
    × (0 < s.points_to_win_set)
    × (0 < s.points_to_win_deciding_set)
    × (0 < s.min_advantage)
PositiveSets _ = Unit

-- A regulation that can be stored: labels are trimmed and not empty, there are actions that score, events
-- and tiebreakers, and what has to be positive is.
pub record IsStorable (r : Regulation) : Type 0 where
  pub period_name : IsLabel r.period_label
  pub some_period : 0 < r.period_count
  pub some_scoring : r.scoring ≢ []
  pub scoring_fine : All (λ x. IsLabel x.label × (0 < x.points)) r.scoring
  pub some_secondary : r.secondary ≢ []
  pub secondary_fine : All (λ x. IsLabel x.label) r.secondary
  pub sets_fine : PositiveSets r.completion
  pub some_tiebreaker : r.standings.tiebreakers ≢ []
  pub knockout_name : IsLabel r.knockout.label
