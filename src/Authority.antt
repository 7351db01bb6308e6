-- ===== src/Authority.antt =====
-- Who may run which action: the types of src/edition-actions/edition-actions.types.ts, the sets and the
-- `authorize…` methods of src/edition-actions/edition-actions.service.ts.
pub mod Actions
pub mod Limits
use intereng_api.Base.{
  String, Bool, true, false, not, ◌&&◌, ◌||◌, Option, none, some, List, [], ◌∷◌, ◌===◌, find, any,
  if◌then◌else◌,
}
use intereng_api.Http.{forbidden, not_found, Reply, ok, fail, ◌>>=◌, ◌>>◌, throw_if}
use intereng_api.Json.{Json, boolean, text, array, Items, no_items, items, Fields, at}
use intereng_api.Validation.{action_object, action_string, action_id, action_email, between}
use intereng_api.Database.{
  edition_admin, StaffRole, StaffMember, EditionDiscipline, EditionTeam, EditionAthlete,
  RosterEntry, TournamentRow, MatchRow, Tables, User,
}
use intereng_api.Access.{Scope, full, team, discipline, is_edition_admin}
use intereng_api.Authority.Actions.{
  ActionType, discipline_update, category_create, match_schedule, athlete_create, athlete_update,
  staff_upsert, is_global, is_manager, is_category,
}

-- `value === s`, for a value of a body.
abbrev pub is_json_text : String → Json → Bool
is_json_text s (text v) = v === s
is_json_text s _ = false

abbrev pub is_json_false : Option Json → Bool
is_json_false (some (boolean b)) = not b
is_json_false _ = false

abbrev pub is_given : {A : Type 0} → Option A → Bool
is_given none = false
is_given (some a) = true

-- Whether there is such a row, or the error where there is none.
abbrev pub or_error : {A : Type 0} → Option A → Reply A → Reply A
or_error none e = e
or_error (some a) e = ok a

-- The athlete of an action: its `athlete` where it creates one, or else its `patch`.
unfoldable pub athlete_body : ActionType → Fields → Reply Fields
athlete_body athlete_create payload = action_object none (at "athlete" payload)
athlete_body action payload = action_object none (at "patch" payload)

abbrev pub is_athlete_create : ActionType → Bool
is_athlete_create athlete_create = true
is_athlete_create _ = false

abbrev pub is_athlete_action : ActionType → Bool
is_athlete_action athlete_create = true
is_athlete_action athlete_update = true
is_athlete_action _ = false

-- `atual.teamId === team`
abbrev pub in_team : String → EditionAthlete → Bool
in_team own a = elim a.team [ none ↦ false | some x ↦ x === own ]

-- Whether a value is a list of texts with an element, each of them the name.
unfoldable pub only_names : String → Option Json → Bool
unfolding any
only_names name (some (array no_items)) = false
only_names name (some (array vs)) = not (any (λ v. not (is_json_text name v)) (items vs))
only_names name _ = false

abbrev pub is_full : Scope → Bool
is_full full = true
is_full _ = false

-- The fields of a discipline that its manager may not change.
unfoldable pub changes_more : Fields → Bool
changes_more patch =
    is_json_false (at "enabled" patch)
    || is_given (at "created" patch)
    || is_given (at "mode" patch)
    || is_given (at "name" patch)
    || is_given (at "tournaments" patch)

abbrev pub is_discipline_update : ActionType → Bool
is_discipline_update discipline_update = true
is_discipline_update _ = false

abbrev pub is_staff_upsert : ActionType → Bool
is_staff_upsert staff_upsert = true
is_staff_upsert _ = false

module _ {R : Type 0} (t : Tables R) (edition : String) where
  unfoldable pub discipline_named : String → Option EditionDiscipline
  unfolding find
  discipline_named name = find (λ d. d.edition === edition && d.name === name) t.disciplines

  unfoldable pub own_discipline : String → Option EditionDiscipline
  unfolding find
  own_discipline id = find (λ d. d.id === id && d.edition === edition) t.disciplines

  -- The category with the id, where its discipline is one of the edition.
  unfoldable pub tournament_of : String → Option TournamentRow
  unfolding find own_discipline
  tournament_of id = find (λ c. c.id === id && is_given (own_discipline c.discipline)) t.tournaments

  unfoldable pub match_of : String → Option MatchRow
  unfolding find tournament_of
  match_of id = find (λ m. m.id === id && is_given (tournament_of m.tournament)) t.matches

  -- The discipline of the category of the payload.
  unfoldable pub category_target : Fields → Reply String
  unfolding tournament_of
  category_target payload = do
    id ← action_id payload "id"
    c ← or_error (tournament_of id) (fail not_found)
    ok c.discipline

  -- The discipline of the match of the payload.
  unfoldable pub match_target : Fields → Reply String
  unfolding match_of tournament_of
  match_target payload = do
    id ← action_id payload "id"
    m ← or_error (match_of id) (fail not_found)
    c ← or_error (tournament_of m.tournament) (fail not_found)
    ok c.discipline

  -- `targetDisciplineId`
  unfoldable pub target_discipline_id : ActionType → Fields → Reply String
  unfolding discipline_named tournament_of category_target match_target
  target_discipline_id discipline_update payload = do
    name ← action_string payload "name" (between 2 100)
    d ← or_error (discipline_named name) (fail not_found)
    ok d.id
  target_discipline_id category_create payload = do
    category ← action_object none (at "category" payload)
    name ← action_string category "discipline" (between 2 100)
    d ← or_error (discipline_named name) (fail not_found)
    ok d.id
  target_discipline_id match_schedule payload = do
    m ← action_object none (at "match" payload)
    id ← action_id m "tournamentId"
    c ← or_error (tournament_of id) (fail not_found)
    ok c.discipline
  target_discipline_id action payload =
      if is_category action then category_target payload else match_target payload

  unfoldable pub athlete_of : String → Option EditionAthlete
  unfolding find
  athlete_of id = find (λ a. a.edition === edition && a.athlete === id) t.athletes

  -- `authorizeTeamManager`
  unfoldable pub authorize_team_manager : String → ActionType → Fields → Reply (Unit {0})
  unfolding athlete_body athlete_of
  authorize_team_manager own action payload = do
    throw_if (not (is_athlete_action action)) forbidden
    body ← athlete_body action payload
    elim (at "teamId" body) [
      | some v ↦ throw_if (not (is_json_text own v)) forbidden
      | none ↦ throw_if (is_athlete_create action) forbidden
    ]
    if is_athlete_create action then ok tt else (do
      id ← action_id payload "id"
      a ← or_error (athlete_of id) (fail forbidden)
      throw_if (not (in_team own a)) forbidden)

  -- `authorizeManagerAthlete`
  unfoldable pub authorize_manager_athlete : String → ActionType → Fields → Reply (Unit {0})
  unfolding own_discipline athlete_body only_names any
  authorize_manager_athlete own action payload = do
    d ← or_error (own_discipline own) (fail forbidden)
    body ← athlete_body action payload
    throw_if
        ((is_athlete_create action || is_given (at "modalities" body))
          && not (only_names d.name (at "modalities" body)))
        forbidden
    if is_athlete_create action then ok tt else (do
      id ← action_id payload "id"
      throw_if (not (any (λ r. r.athlete === id && r.discipline === own) t.rosters)) forbidden)

  unfoldable pub has_team_named : String → Bool
  unfolding any
  has_team_named name = any (λ x. x.edition === edition && x.name === name) t.teams

  unfoldable pub is_current_admin : StaffMember → Bool
  unfolding any
  is_current_admin m =
      any
        (λ r. r.staff === m.id && r.edition === edition && is_edition_admin r.role && not r.revoked)
        t.roles

  -- `authorizeEditionAdminStaff`
  unfoldable pub authorize_edition_admin_staff :
      (String → String) → Scope → Fields → Reply (Unit {0})
  unfolding discipline_named has_team_named is_current_admin find
  authorize_edition_admin_staff lower scope payload = do
    throw_if (not (is_full scope)) forbidden
    email ← action_email lower payload "email"
    member ← action_object none (at "member" payload)
    role ← action_string member "role" (between 1 80)
    throw_if (not (role === "Gestor de modalidade") && not (role === "Responsável da atlética"))
        forbidden
    name ← action_string member "scope" (between 1 160)
    throw_if
        (not (
          if role === "Responsável da atlética"
          then has_team_named name
          else is_given (discipline_named name)))
        not_found
    elim (find (λ m. m.email === email) t.staff) [
      | none ↦ ok tt
      | some m ↦ throw_if (m.is_super_admin || is_current_admin m) forbidden
    ]

  -- The rest of `authorize` for the manager of a discipline, past its test of the action's type.
  unfoldable pub authorize_target : String → ActionType → Fields → Reply (Unit {0})
  unfolding target_discipline_id changes_more
  authorize_target own action payload = do
    target ← target_discipline_id action payload
    throw_if (not (target === own)) forbidden
    if not (is_discipline_update action) then ok tt else do
      patch ← action_object none (at "patch" payload)
      throw_if (changes_more patch) forbidden

  -- What `authorize` asks of the manager of a discipline.
  unfoldable pub authorize_manager : String → ActionType → Fields → Reply (Unit {0})
  unfolding authorize_manager_athlete authorize_target
  authorize_manager own action payload = do
    throw_if (not (is_manager action)) forbidden
    if is_athlete_action action
        then authorize_manager_athlete own action payload
        else authorize_target own action payload

  -- `authorize`
  unfoldable pub authorize :
      (String → String) → Scope → User → ActionType → Fields → Reply (Unit {0})
  unfolding authorize_edition_admin_staff authorize_team_manager authorize_manager
  authorize lower scope u action payload =
      if u.is_super_admin
      then ok tt
      else if is_global action
      then fail forbidden
      else if is_staff_upsert action
      then authorize_edition_admin_staff lower scope payload
      else elim scope [
        | full ↦ ok tt
        | team own ↦ authorize_team_manager own action payload
        | discipline own ↦ authorize_manager own action payload
      ]
