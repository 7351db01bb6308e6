-- ===== src/Examples/Desk.antt =====
-- The theorems on the operator, the clock and the end of a match, at the futsal match.
use intereng_api.Base.{◌+◌, ◌≤◌, ◌≡◌, ◌↔◌, ◌⊎◌, refl, String, true, false, none, some}
use intereng_api.Standings.{truthy}
use intereng_api.Status.{live, finished, scheduled}
use intereng_api.Regulation.Presets.{preset}
use intereng_api.Regulation.{regulation_period_count}
use intereng_api.Match.{
  ok, Context, LiveMatch, lock_is_free, require_device, assert_operator, claim_operator,
  operator_lock_ms, can_transition,
}
use intereng_api.Match.Operator.{assert_operator_exclusive, claim_operator_lem}
use intereng_api.Match.Transitions.{Reaches, here, step, is_final, status_transitions}
use intereng_api.Clock.{
  ClockPatch, clock_in_range, period_left, set_clock, update_clock, maximum_period,
  clock_results_ok, FinishPatch, finish, ends_early, decide_winner, close_match,
}
use intereng_api.Clock.Periods.{Stays, Advances, update_clock_lem}
use intereng_api.Clock.Finish.{Outcome, finish_lem}
use intereng_api.Play.{upsert_result}
use intereng_api.Examples.Live.{kick_off, table_device, futsal, or_match}

passes : assert_operator kick_off table_device ≡ ok tt
unfolding assert_operator require_device truthy
passes = refl

-- The same device, a minute later.
abbrev later : Context
later = record table_device { actor_name = "Mesa 1"; now = 61000 }

passes_later : assert_operator kick_off later ≡ ok tt
unfolding assert_operator require_device truthy
passes_later = refl

assert_operator_exclusive_example :
    (table_device.user ≡ later.user) × (truthy table_device.device ≡ truthy later.device)
assert_operator_exclusive_example =
    assert_operator_exclusive kick_off table_device later passes passes_later

-- Another device, after the lock of the first has run out.
abbrev other_device : Context
other_device = record {
  user = "outra";
  actor_name = "Outra";
  device = some "celular";
  now = 200000;
}

abbrev taken : LiveMatch
taken = or_match kick_off (claim_operator other_device "celular" false kick_off)

taken_ok : claim_operator other_device "celular" false kick_off ≡ ok taken
unfolding claim_operator require_device lock_is_free truthy
taken_ok = refl

claim_operator_lem_example :
    (lock_is_free kick_off "outra" "celular" 200000 ≡ true)
    × ((d : Context) (device : String)
        → truthy d.device ≡ some device
        → d.now ≤ 200000 + operator_lock_ms
        → (assert_operator taken d ≡ ok tt) ↔ ((d.user ≡ "outra") × (device ≡ "celular")))
claim_operator_lem_example = claim_operator_lem kick_off taken other_device "celular" taken_ok

path_to_end : Reaches scheduled finished
unfolding can_transition
path_to_end = step scheduled live finished refl (step live finished finished refl (here finished))

status_transitions_example :
    (is_final scheduled ≡ true → finished ≡ scheduled)
    × (finished ≡ finished → (scheduled ≡ finished) ⊎ Reaches scheduled live)
status_transitions_example = status_transitions scheduled finished path_to_end

abbrev next_half : ClockPatch
next_half = record {
  status = none;
  current_period = some 2;
  clock_seconds = some 1200;
  period_a = some 0;
  period_b = some 0;
  paused = some true;
  running_since = none;
  period_results = none;
}

abbrev second_half : LiveMatch
second_half = or_match kick_off (update_clock futsal table_device next_half kick_off)

second_half_ok : update_clock futsal table_device next_half kick_off ≡ ok second_half
unfolding update_clock clock_in_range period_left set_clock maximum_period clock_results_ok
    regulation_period_count preset assert_operator require_device truthy upsert_result
second_half_ok = refl

update_clock_lem_example : Stays kick_off second_half ⊎ Advances futsal kick_off second_half
update_clock_lem_example =
    update_clock_lem futsal table_device next_half kick_off second_half second_half_ok

-- The second half with a goal of the home side.
abbrev ahead : LiveMatch
ahead = record kick_off {
  scores = record { score_a = 1; score_b = 0; period_a = 0; period_b = 0; period = 2 };
}

abbrev whistle : FinishPatch
whistle = record {
  status = finished;
  current_period = 2;
  score_a = some 1;
  score_b = some 0;
  clock_seconds = none;
}

abbrev closed : LiveMatch
closed = or_match ahead (finish futsal false table_device false (ok "ecomp") whistle ahead)

closed_ok : finish futsal false table_device false (ok "ecomp") whistle ahead ≡ ok closed
unfolding finish ends_early decide_winner close_match regulation_period_count preset assert_operator
    require_device truthy upsert_result
closed_ok = refl

finish_lem_example :
    Outcome futsal false (ok "ecomp") ahead closed
    × ((ends_early futsal 2 ahead.scores ≡ false) ⊎ (false ≡ true))
finish_lem_example =
    finish_lem futsal false table_device false (ok "ecomp") whistle ahead closed closed_ok
