-- ===== src/Regulation.antt =====
-- src/edition-actions/action-regulation.ts: the regulation of a discipline. The half points of chess
-- are counted in halves, so the values of the chess preset are doubled; all others are whole points.
pub mod Sets
pub mod Presets
pub mod Resolve
pub mod Config
pub mod Saved
use Prim.Native.Nat.{max}
use intereng_api.Base.{
  ℕ, ◌-◌, ◌*◌, String, Bool, true, false, ◌||◌, Option, none, some, List, [], ◌∷◌, ◌===◌, ltb, leb,
  if◌then◌else◌,
}
use intereng_api.Base.Int.{ℤ, pos}

pub record ScoringRule : Type 0 where
  pub label : String
  pub points : ℕ

pub record SecondaryRule : Type 0 where
  pub label : String
  pub requires_side : Bool
  pub allowed_when_stopped : Bool
  pub score_points : ℕ
  pub fair_play_points : ℕ

pub record SetsRule : Type 0 where
  pub sets_to_win : ℕ
  pub points_to_win_set : ℕ
  pub points_to_win_deciding_set : ℕ
  pub min_advantage : ℕ

pub data CompletionRule : Type 0 where
  -- allowDraw, overtimePeriods, overtimeDurationMinutes
  periods : Bool → ℕ → ℕ → CompletionRule
  sets : SetsRule → CompletionRule
  -- allowDraw, winPoints, drawPoints
  board : Bool → ℕ → ℕ → CompletionRule
  -- allowDraw
  result : Bool → CompletionRule

pub data Tiebreaker : Type 0 where
  confronto_direto vitorias saldo marcados sofridos fair_play sorteio : Tiebreaker

pub record StandingsRule : Type 0 where
  pub win : ℤ
  pub draw : ℤ
  pub loss : ℤ
  pub tiebreakers : List Tiebreaker

pub data KnockoutMethod : Type 0 where
  prorrogacao penaltis set_extra criterio_tecnico administrativo : KnockoutMethod

pub record KnockoutRule : Type 0 where
  pub method : KnockoutMethod
  pub label : String
  pub requires_score : Bool
  pub third_place_match : Bool

pub data ClockMode : Type 0 where
  progressive countdown no_clock : ClockMode

pub record Regulation : Type 0 where
  pub period_label : String
  pub period_count : ℕ
  pub period_duration_minutes : ℕ
  pub clock_mode : ClockMode
  pub scoring : List ScoringRule
  pub secondary : List SecondaryRule
  pub completion : CompletionRule
  pub standings : StandingsRule
  pub knockout : KnockoutRule

-- Math.abs(a - b)
abbrev pub distance : ℕ → ℕ → ℕ
distance a b = if leb b a then a - b else b - a

abbrev pub collective_standings : StandingsRule
collective_standings = record {
  win = pos 3;
  draw = pos 1;
  loss = pos 0;
  tiebreakers = confronto_direto ∷ vitorias ∷ saldo ∷ marcados ∷ fair_play ∷ sorteio ∷ [];
}

unfoldable pub regulation_period_count : Regulation → ℕ
regulation_period_count r = elim r.completion [
  | sets s ↦ s.sets_to_win * 2 - 1
  | _ ↦ r.period_count
]

pub data Side : Type 0 where
  home away : Side

-- The points that the winner of a set has to reach.
unfoldable pub set_target : SetsRule → ℕ → ℕ
set_target s period =
    if leb (s.sets_to_win * 2 - 1) period then s.points_to_win_deciding_set else s.points_to_win_set

-- `setWinner` past its test of the mode.
unfoldable pub set_decision : SetsRule → ℕ → ℕ → ℕ → Option Side
set_decision s period a b =
    if ltb (max a b) (set_target s period) || ltb (distance a b) s.min_advantage
    then none
    else if ltb b a
    then some home
    else some away

unfoldable pub set_winner : Regulation → ℕ → ℕ → ℕ → Option Side
set_winner r period a b = elim r.completion [ sets s ↦ set_decision s period a b | _ ↦ none ]
