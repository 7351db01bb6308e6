-- ===== src/Regulation/Saved.antt =====
-- A regulation that is written as a configuration and read again.
use intereng_api.Base.{ℕ, zero, suc, ◌<◌, String, ◌≡◌, ◌≢◌, refl, arith, none, some, List, [], ◌∷◌}
use intereng_api.Base.Int.{ℤ, pos}
use intereng_api.Base.Order.{All}
use intereng_api.Http.{ok}
use intereng_api.Json.{Number, whole, text, array, object, at}
use intereng_api.Regulation.{
  ScoringRule, SecondaryRule, CompletionRule, periods, sets, board, result, Tiebreaker,
  confronto_direto, vitorias, saldo, marcados, sofridos, fair_play, sorteio, StandingsRule,
  KnockoutMethod, prorrogacao, penaltis, set_extra, criterio_tecnico, administrativo, KnockoutRule,
  ClockMode, progressive, countdown, no_clock, Regulation,
}
use intereng_api.Regulation.Config.{
  whole_json, clock_json, tiebreaker_text, tiebreakers_json, method_text, scoring_json,
  secondary_json, completion_json, standings_json, knockout_json, config_json, IsLabel,
  PositiveSets, IsStorable,
}
use intereng_api.Regulation.Presets.{preset}
use intereng_api.Regulation.Resolve.{
  string_of, positive_of, parse_clock_mode, tiebreaker_of, parse_tiebreakers, tiebreakers_of,
  method_of, parse_knockout, scored_points, parse_scoring_items, parse_scoring,
  parse_secondary_items, parse_secondary, parse_completion, parse_standings, scoring_actions,
  secondary_actions, resolve_rules, resolve_action_regulation,
}

string_of-label : (s : String) → IsLabel s → string_of (some (text s)) ≡ some s
unfolding string_of
string_of-label s l = rw (l.trimmed, l.not_empty) refl

string_of-none : string_of none ≡ none
unfolding string_of
string_of-none = refl

positive_of-whole : (n : ℕ) → 0 < n → positive_of (some (whole_json n)) ≡ some n
positive_of-whole zero h = absurd (omega arith)
positive_of-whole (suc n) h = refl

clock_saved : (c d : ClockMode) → parse_clock_mode (some (clock_json c)) d ≡ ok c
unfolding parse_clock_mode
clock_saved progressive d = refl
clock_saved countdown d = refl
clock_saved no_clock d = refl

tiebreaker_saved : (t : Tiebreaker) → tiebreaker_of (tiebreaker_text t) ≡ some t
unfolding tiebreaker_of
tiebreaker_saved confronto_direto = refl
tiebreaker_saved vitorias = refl
tiebreaker_saved saldo = refl
tiebreaker_saved marcados = refl
tiebreaker_saved sofridos = refl
tiebreaker_saved fair_play = refl
tiebreaker_saved sorteio = refl

parse_tiebreakers_saved : (ts : List Tiebreaker) → parse_tiebreakers (tiebreakers_json ts) ≡ ok ts
unfolding parse_tiebreakers
parse_tiebreakers_saved [] = refl
parse_tiebreakers_saved (t ∷ ts) = rw (tiebreaker_saved t, parse_tiebreakers_saved ts) refl

tiebreakers_saved :
    (ts : List Tiebreaker) → ts ≢ [] → tiebreakers_of (some (array (tiebreakers_json ts))) ≡ ok ts
unfolding tiebreakers_of
tiebreakers_saved [] h = absurd (h refl)
tiebreakers_saved (t ∷ ts) h = parse_tiebreakers_saved (t ∷ ts)

method_saved : (m : KnockoutMethod) → method_of (some (text (method_text m))) ≡ some m
unfolding method_of
method_saved prorrogacao = refl
method_saved penaltis = refl
method_saved set_extra = refl
method_saved criterio_tecnico = refl
method_saved administrativo = refl

knockout_saved :
    (k d : KnockoutRule)
    → IsLabel k.label
    → parse_knockout (some (object (knockout_json k))) d ≡ ok k
unfolding parse_knockout at
knockout_saved k d l = rw (method_saved k.method, string_of-label k.label l) refl

module _ (points : Number → ℤ) (unit : (n : ℤ) → points (whole n) ≡ n) where
  scored_points-whole : (n : ℕ) → 0 < n → scored_points points (some (whole_json n)) ≡ some n
  unfolding scored_points
  scored_points-whole zero h = absurd (omega arith)
  scored_points-whole (suc n) h = rw (unit (pos (suc n))) refl

  scoring_saved :
      (rs : List ScoringRule)
      → All (λ x. IsLabel x.label × (0 < x.points)) rs
      → parse_scoring_items points (scoring_json rs) ≡ ok rs
  unfolding parse_scoring_items at
  scoring_saved [] h = refl
  scoring_saved (r ∷ rs) ((l, p), h) =
      rw (string_of-label r.label l, scored_points-whole r.points p, scoring_saved rs h) refl

  secondary_saved :
      (rs : List SecondaryRule)
      → All (λ x. IsLabel x.label) rs
      → parse_secondary_items points (secondary_json rs) ≡ ok rs
  unfolding parse_secondary_items at
  secondary_saved [] h = refl
  secondary_saved (r ∷ rs) (l, h) =
      rw (string_of-label r.label l, secondary_saved rs h, unit (pos r.score_points)) refl

  completion_saved :
      (c d : CompletionRule)
      → PositiveSets c
      → parse_completion points (some (object (completion_json c))) d ≡ ok c
  unfolding parse_completion at
  completion_saved (periods draw n m) d h = refl
  completion_saved (sets s) d (a, b, c, e) = ground (
    arith,
    positive_of-whole s.sets_to_win a,
    positive_of-whole s.points_to_win_set b,
    positive_of-whole s.points_to_win_deciding_set c,
    positive_of-whole s.min_advantage e,
  )
  completion_saved (board draw w x) d h = rw (unit (pos w), unit (pos x)) refl
  completion_saved (result draw) d h = refl

  standings_saved :
      (s d : StandingsRule)
      → s.tiebreakers ≢ []
      → parse_standings points (some (object (standings_json s))) d ≡ ok s
  unfolding parse_standings at
  standings_saved s d h =
      rw (tiebreakers_saved s.tiebreakers h, unit s.win, unit s.draw, unit s.loss) refl

  scoring_kept :
      (rs fallback : List ScoringRule) → rs ≢ [] → scoring_actions points rs none fallback ≡ rs
  unfolding scoring_actions
  scoring_kept [] fallback h = absurd (h refl)
  scoring_kept (r ∷ rs) fallback h = refl

  module _ (norm : String → String) where
    secondary_kept :
        (rs fallback : List SecondaryRule)
        → rs ≢ []
        → secondary_actions points norm rs [] fallback ≡ rs
    unfolding secondary_actions
    secondary_kept [] fallback h = absurd (h refl)
    secondary_kept (r ∷ rs) fallback h = refl

    -- A regulation that can be stored, of a discipline that counts whole points, is read back as it is from
    -- the configuration that was written of it, whatever the discipline's own regulation is.
    pub resolve_action_regulation-config_json :
        (discipline : String) (r : Regulation)
        → IsStorable r
        → resolve_action_regulation points norm discipline (some (config_json r)) ≡ ok r
    unfolding resolve_action_regulation resolve_rules parse_scoring parse_secondary at
    resolve_action_regulation-config_json discipline r w =
        let base = preset discipline in
        rw
          (
            clock_saved r.clock_mode base.clock_mode,
            scoring_saved r.scoring w.scoring_fine,
            secondary_saved r.secondary w.secondary_fine,
            completion_saved r.completion base.completion w.sets_fine,
            standings_saved r.standings base.standings w.some_tiebreaker,
            knockout_saved r.knockout base.knockout w.knockout_name,
            string_of-label r.period_label w.period_name,
            positive_of-whole r.period_count w.some_period,
            string_of-none,
            scoring_kept r.scoring base.scoring w.some_scoring,
            secondary_kept r.secondary base.secondary w.some_secondary,
          )
          refl
