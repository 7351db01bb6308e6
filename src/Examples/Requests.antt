-- ===== src/Examples/Requests.antt =====
-- The theorems on the dispatch of actions: a manager renames a match, sends the request again, and another
-- request comes with the same key.
use intereng_api.Base.{
  String, ℕ, ◌+◌, ◌≡◌, ◌==◌, eq_iff, sym, ap, ◌∙◌, refl, arith, true, false, none, some, List, [],
  ◌∷◌, ◌⊎◌, find, filter, any,
}
use intereng_api.Base.Sort.{sort, insert}
use intereng_api.Base.Text
use intereng_api.Http.{conflict, ok}
use intereng_api.Validation.Normal.{Accepted, action_id-Accepted}
use intereng_api.Json.{Fields, text, no_fields, field, at}
use intereng_api.Standings.{truthy}
use intereng_api.Validation.{between, action_id, action_string, string_value}
use intereng_api.Validation.Patterns.{is_id}
use intereng_api.Database.{Edition, discipline_manager, Tables}
use intereng_api.Access.{
  discipline, resolve_edition, active_editions, resolve_edition_for_action, roles_of, managed,
  managed_team, default_scope, scope_of, resolve_scope,
}
use intereng_api.Authority.Actions.{match_update}
use intereng_api.Authority.{
  own_discipline, tournament_of, match_of, match_target, target_discipline_id, authorize_target,
  authorize_manager, authorize,
}
use intereng_api.Dispatch.Revise.{revision_of}
use intereng_api.Outcome.{done_inj, done, thrown, refused}
use intereng_api.Receipts.{ExecutionResult, Receipt, Database, RevisionEvent, Request, Services}
use intereng_api.Dispatch.{
  stored_reason, unique, bump, route_receipt, edition_receipt, revise, create_receipt, scope_in,
  authorize_in, audit_entry, new_receipt, record_mutation, mutate, run_once, first_time, or_text,
  transact,
}
use intereng_api.Dispatch.Execute.{Moment, execute}
use intereng_api.Dispatch.Replay.{StillAllowed}
use intereng_api.Dispatch.Revisions.{Left, transact-Left, KeepsRevisions}
use intereng_api.Dispatch.Retries.{Ended, execute-Ended}
use intereng_api.Dispatch.Clash.{Unclashed, AnswersHere, transact-Unclashed}
use intereng_api.Dispatch.Guarded.{Guarded, transact-Guarded}
use intereng_api.Dispatch.Served.{at_once, Served-replay, Served-conflict}
use intereng_api.Examples.{text_leb}

abbrev edition : Edition
edition = record {
  id = "2026";
  competition = "inter";
  start_date = 100;
  is_active = true;
  revision = 7;
}

abbrev tables : Tables ℕ
tables = record {
  competitions = record { id = "inter"; is_active = true } ∷ [];
  editions = edition ∷ [];
  staff = record { id = "ana"; email = "ana@uefs.br"; name = "Ana"; is_super_admin = false } ∷ [];
  roles =
      record {
        edition = "2026";
        staff = "ana";
        role = discipline_manager;
        discipline = some "futsal";
        team = none;
        revoked = false;
      }
      ∷ [];
  disciplines = record { id = "futsal"; edition = "2026"; name = "Futsal" } ∷ [];
  teams = [];
  athletes = [];
  rosters = [];
  tournaments = record { id = "masculino"; discipline = "futsal" } ∷ [];
  matches = record { id = "final"; tournament = "masculino" } ∷ [];
  rest = 0;
}

abbrev before : Database ℕ ℕ
before = record { tables = tables; receipts = []; audit = [] }

-- Every action counts in the rest of the tables, which the snapshot shows.
abbrev services : Services ℕ ℕ
services = record {
  lower = λ s. s;
  id_leb = text_leb;
  text_leb = text_leb;
  handle = λ a c p u t. done (
    record {
      entity_type = "match";
      entity_id = "final";
      discipline = some "futsal";
      response_edition = none;
      affected = [];
    },
    record t { rest = t.rest + 1 },
  );
  snapshot = λ t e sc d. t.rest;
}

abbrev update : Request
update = record {
  route = "active";
  key = "k1";
  hash = "h1";
  action = match_update;
  payload = field "id" (text "final") no_fields;
  audit = none;
  user = record { id = "ana"; is_super_admin = false };
  role = none;
  selected = none;
  device = none;
}

abbrev answer : ExecutionResult ℕ
answer = record { envelope = record { snapshot = 1; revision = 8 }; created = false }

abbrev told : List RevisionEvent
told = record { edition = "2026"; revision = 8 } ∷ []

abbrev receipt : Receipt ℕ
receipt = record {
  edition = "2026";
  key = "k1";
  action = match_update;
  hash = "h1";
  revision = 8;
  response =
      some (record { envelope = some answer.envelope; actor = some "ana"; route = some "active" });
}

abbrev after : Database ℕ ℕ
after = record {
  tables = record tables { editions = record edition { revision = 8 } ∷ []; rest = 1 };
  receipts = receipt ∷ [];
  audit =
      record {
        edition = "2026";
        staff = "ana";
        action = match_update;
        entity_type = "match";
        entity_id = "final";
        before = none;
        after = none;
        reason = none;
      }
      ∷ [];
}

update_done : transact services update before ≡ done (answer, told, after)
unfolding transact route_receipt first_time scope_in authorize_in run_once mutate record_mutation
    revise unique bump audit_entry new_receipt create_receipt edition_receipt stored_reason find any
    filter resolve_edition active_editions resolve_edition_for_action resolve_scope roles_of
    scope_of default_scope managed managed_team truthy authorize authorize_manager authorize_target
    target_discipline_id match_target match_of tournament_of own_discipline action_id action_string
    string_value at Text.length Text.trim Text.trim_start Text.trim_end Text.is_space Text.all is_id
    sort insert
update_done = refl

keeps : KeepsRevisions services update
keeps c t t' m h j n k = ap (λ x. revision_of j x.1.editions) (sym (done_inj h)) ∙ k

transact-Left_example :
    ((told ≡ []) × (after ≡ before)) ⊎ Left services update before answer told after
transact-Left_example = transact-Left services update keeps before after answer told update_done

transact-Guarded_example : Guarded services update before
transact-Guarded_example =
    transact-Guarded services update before after answer told refl update_done

-- The same request by the id of the edition: the route has no receipt of its key, and the edition has one.
abbrev by_id : Request
by_id = record update { route = "2026" }

answers_here : AnswersHere services by_id
answers_here = record {
  own_rows = λ c t h. cc;
  own_edition =
      λ c t t' m h. ap (λ x. or_text x.0.response_edition c.edition.id) (sym (done_inj h));
}

transact-Unclashed_example : Unclashed (transact services by_id after)
transact-Unclashed_example = transact-Unclashed services by_id answers_here after

receipt_found : route_receipt "active" "k1" after.receipts ≡ some receipt
unfolding route_receipt find
receipt_found = refl

still_allowed : StillAllowed services update after "2026"
unfolding resolve_edition active_editions filter resolve_scope roles_of scope_of default_scope
    managed managed_team truthy any authorize authorize_manager authorize_target
    target_discipline_id match_target match_of tournament_of own_discipline find action_id
    action_string string_value at Text.length Text.trim Text.trim_start Text.trim_end Text.is_space
    Text.all is_id
still_allowed = record {
  found = record edition { revision = 8 };
  scope = discipline "futsal";
  found_edition = refl;
  found_scope = refl;
  authorized = refl;
}

Served-replay_example : transact services update after ≡ done (answer, [], after)
Served-replay_example =
    Served-replay services update before after after answer told receipt update_done receipt_found
      at_once still_allowed

-- The same key, with another body.
abbrev other : Request
other = record update { hash = "h2" }

Served-conflict_example : transact services other after ≡ thrown (refused conflict)
Served-conflict_example =
    Served-conflict services update before after after answer told receipt other update_done
      receipt_found at_once refl refl (λ e. absurd (ground (arith, eq_iff "h2" "h1")))

-- The first attempt is aborted.
abbrev moments : ℕ → Moment ℕ ℕ
moments k = record { database = before; aborted = k == 1 }

execute-Ended_example : Ended services update moments (execute services update moments)
execute-Ended_example = execute-Ended services update moments

spaced_id : action_id (field "id" (text " final ") no_fields) "id" ≡ ok "final"
unfolding action_id action_string string_value at Text.length Text.trim Text.trim_start
    Text.trim_end Text.is_space Text.all is_id
spaced_id = refl

action_id-Accepted_example :
    (is_id "final" ≡ true)
    × Accepted (between 1 128) "final"
    × ((other : Fields) (name : String)
        → action_id (field name (text "final") other) name ≡ ok "final")
action_id-Accepted_example =
    action_id-Accepted (field "id" (text " final ") no_fields) "id" "final" spaced_id
