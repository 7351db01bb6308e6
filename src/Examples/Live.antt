-- ===== src/Examples/Live.antt =====
-- The theorems on the live operation, at a futsal match and at a set of volleyball.
use intereng_api.Base.{◌+◌, ◌≡◌, refl, arith, String, Bool, true, false, none, some, [], ◌∷◌}
use intereng_api.Standings.{truthy}
use intereng_api.Status.{live}
use intereng_api.Regulation.Presets.{preset}
use intereng_api.Regulation.{Regulation, sets, SetsRule, set_winner, set_decision, set_target}
use intereng_api.Match.{
  Reply, ok, fail, Context, Scores, Event, LiveMatch, require_device, assert_operator, home_side,
}
use intereng_api.Play.{
  ScorePatch, EventPayload, named, find_scoring, find_secondary, points_of, event_allowed,
  derive_score, score_set, score_points, score_patch_ok, period_result_ok, find_event,
  upsert_result,
}
use intereng_api.Register.{
  register_event, new_event, store_event, undo_event, find_active, latest_active, mark_undone,
  results_left, without_period, before_period,
}
use intereng_api.Register.Undo.{undo_event-register_event}
use intereng_api.Register.Sets.{MatchValid, register_event-MatchValid, undo_event-MatchValid}

abbrev pub table_device : Context
table_device = record { user = "mesa"; actor_name = "Mesa"; device = some "tablet"; now = 1000 }

abbrev level : Scores
level = record { score_a = 0; score_b = 0; period_a = 0; period_b = 0; period = 1 }

abbrev pub kick_off : LiveMatch
kick_off = record {
  id = "jogo";
  status = live;
  entry_a = some "ecomp";
  entry_b = some "civil";
  scores = level;
  winner = none;
  paused = false;
  clock_seconds = 0;
  running_since = some 0;
  started_at = some 0;
  operator = some "mesa";
  operator_device = some "tablet";
  operator_name = some "Mesa";
  heartbeat = some 900;
  last_sequence = 0;
  period_results = [];
  events = [];
}

abbrev goal : EventPayload
goal = record {
  id = "e1";
  kind = "Gol";
  side = home_side;
  points = some 1;
  period = none;
  score_a = none;
  score_b = none;
}

abbrev no_patch : ScorePatch
no_patch = record {
  status = none;
  score_a = none;
  score_b = none;
  period_a = none;
  period_b = none;
  period = none;
}

abbrev pub or_match : LiveMatch → Reply LiveMatch → LiveMatch
or_match m (ok n) = n
or_match m (fail e) = m

abbrev nowhere : String → Bool
nowhere s = false

abbrev same : String → String
same s = s

abbrev register : Regulation → EventPayload → LiveMatch → Reply LiveMatch
register r e m = register_event same nowhere r table_device e no_patch none (ok none) m

abbrev pub futsal : Regulation
futsal = preset "Futsal"

abbrev scored : LiveMatch
scored = or_match kick_off (register futsal goal kick_off)

scored_ok : register futsal goal kick_off ≡ ok scored
unfolding register_event preset named find_scoring find_secondary points_of event_allowed
    derive_score score_points score_patch_ok period_result_ok find_event new_event store_event
    assert_operator require_device truthy
scored_ok = refl

still_operated : assert_operator scored table_device ≡ ok tt
unfolding register_event preset named find_scoring find_secondary points_of event_allowed
    derive_score score_points score_patch_ok period_result_ok find_event new_event store_event
    assert_operator require_device truthy
still_operated = refl

undo_event-register_event_example :
    (x : Event) × (x.undone ≡ true)
    × (undo_event futsal table_device "e1" level scored
        ≡ ok (record kick_off { last_sequence = 0 + 1; events = x ∷ [] }))
undo_event-register_event_example =
    undo_event-register_event same nowhere futsal table_device goal no_patch none (ok none) kick_off
      scored table_device scored_ok still_operated tt tt

abbrev pub volleyball : Regulation
volleyball = preset "Vôlei"

abbrev pub rule : SetsRule
rule = record {
  sets_to_win = 3;
  points_to_win_set = 25;
  points_to_win_deciding_set = 15;
  min_advantage = 2;
}

pub by_sets : volleyball.completion ≡ sets rule
unfolding preset
by_sets = refl

abbrev set_point : LiveMatch
set_point = record kick_off {
  scores = record { score_a = 0; score_b = 0; period_a = 24; period_b = 20; period = 1 };
}

abbrev ace : EventPayload
ace = record goal { kind = "Ponto" }

abbrev set_won : LiveMatch
set_won = or_match set_point (register volleyball ace set_point)

set_won_ok : register volleyball ace set_point ≡ ok set_won
unfolding register_event preset named find_scoring find_secondary points_of event_allowed
    derive_score score_set set_winner set_decision set_target score_patch_ok period_result_ok
    find_event new_event store_event assert_operator require_device truthy upsert_result
set_won_ok = refl

set_point-MatchValid : MatchValid 3 set_point
set_point-MatchValid = (
  record {
    home_most = omega arith;
    away_most = omega arith;
    one_winner = omega arith;
    counted = refl;
  },
  tt,
)

register_event-MatchValid_example : MatchValid 3 set_won
register_event-MatchValid_example =
    register_event-MatchValid same nowhere volleyball rule by_sets table_device set_point set_won
      ace no_patch none (ok none) set_won_ok set_point-MatchValid

abbrev set_back : LiveMatch
set_back = or_match set_won (undo_event volleyball table_device "e1" set_point.scores set_won)

set_back_ok : undo_event volleyball table_device "e1" set_point.scores set_won ≡ ok set_back
unfolding undo_event find_active latest_active mark_undone results_left without_period before_period
    register_event preset named find_scoring find_secondary points_of event_allowed derive_score
    score_set set_winner set_decision set_target score_patch_ok period_result_ok find_event
    new_event store_event assert_operator require_device truthy upsert_result
set_back_ok = refl

undo_event-MatchValid_example : MatchValid 3 set_back
undo_event-MatchValid_example =
    undo_event-MatchValid same nowhere volleyball rule by_sets table_device set_won set_back "e1"
      set_point.scores set_back_ok register_event-MatchValid_again
  where
    register_event-MatchValid_again : MatchValid 3 set_won
    register_event-MatchValid_again =
        register_event-MatchValid same nowhere volleyball rule by_sets table_device set_point
          set_won ace no_patch none (ok none) set_won_ok set_point-MatchValid
