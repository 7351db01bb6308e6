-- ===== src/Examples/Changes.antt =====
-- The theorem on changes of a match, at a walkover, and two more changes.
use intereng_api.Base.{◌≡◌, refl, String, true, false, Option, none, some}
use intereng_api.Base.Text
use intereng_api.Base.Text.{trim}
use intereng_api.Http.{Reply, ok}
use intereng_api.Validation.{Audit, require_action_reason}
use intereng_api.Standings.{truthy}
use intereng_api.Status.{scheduled, walkover}
use intereng_api.Match.{can_transition}
use intereng_api.Change.{
  PlannedMatch, ChangePatch, named_participants, walkover_entry, result_change, phase_change,
  write_change, change_match,
}
use intereng_api.Change.Allowed.{Allowed, change_match-Allowed}

abbrev planned : PlannedMatch
planned = record {
  status = scheduled;
  phase = "grupos";
  group = some "g";
  scheduled_at = some 1000;
  venue = some "Arena";
  reason = none;
  entry_a = some "ecomp";
  entry_b = some "civil";
  placeholder_a = none;
  placeholder_b = none;
  score_a = 0;
  score_b = 0;
  winner = none;
  walkover_winner = none;
  started_at = none;
  last_sequence = 0;
}

abbrev absence : ChangePatch
absence = record {
  status = some walkover;
  scheduled_at = none;
  venue = none;
  phase = none;
  reason = some "Ausência";
  walkover_winner = some "civil";
  has_score = false;
  entry_a = none;
  entry_b = none;
}

abbrev name : String → Reply String
name s = ok s

abbrev phase : String → Reply (String × Option String)
phase s = ok (s, none)

abbrev absent : PlannedMatch
absent = record planned {
  status = walkover;
  reason = some "Ausência";
  score_a = 0;
  score_b = 3;
  winner = some "civil";
  walkover_winner = some "civil";
}

decided : change_match name phase (3, 0) none absence planned ≡ ok (absent, true)
unfolding change_match named_participants walkover_entry result_change phase_change write_change
    can_transition truthy
decided = refl

change_match-Allowed_example : Allowed planned absent true
change_match-Allowed_example =
    change_match-Allowed name phase (3, 0) none absence planned absent true decided

-- A change that makes a scheduled match a walkover and names another participant in the place of the winner.
abbrev replaced : ChangePatch
replaced = record absence { entry_b = some "mec" }

winner_replaced :
    change_match name phase (3, 0) none replaced planned
    ≡ ok (record absent { entry_b = some "mec" }, true)
unfolding change_match named_participants walkover_entry result_change phase_change write_change
    can_transition truthy
winner_replaced = refl

-- A walkover whose reason is in the audit.
abbrev audited : Audit
audited = record {
  action = "W.O.";
  entity = "Partida";
  before = none;
  after = none;
  reason = some "Não compareceu";
}

reason_of_audit :
    change_match name phase (3, 0) (some audited) (record absence { reason = none }) planned
    ≡ ok (record absent { reason = none }, true)
unfolding change_match named_participants walkover_entry result_change phase_change write_change
    can_transition truthy require_action_reason trim Text.length Text.is_space
reason_of_audit = refl
