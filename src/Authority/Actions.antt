-- ===== src/Authority/Actions.antt =====
-- The types of the actions: src/edition-actions/edition-actions.types.ts, and the sets of them in
-- src/edition-actions/edition-actions.service.ts.
use intereng_api.Base.{String, ◌≡◌, refl, Bool, true, false, List, [], ◌∷◌, ◌===◌, if◌then◌else◌}
use intereng_api.Http.{bad_request, Reply, ok, fail}

pub data ActionType : Type 0 where
  match_schedule match_update match_delete match_start match_update_clock match_register_event
        match_attribute_event match_claim_operator match_release_operator match_undo_event
        match_finish match_correct_result match_record_result category_create category_update
        category_delete category_generate_matches discipline_update discipline_delete team_create
        team_attach team_update athlete_create athlete_update ranking_add_metric
        ranking_update_metric ranking_remove_metric ranking_seed_default_metrics ranking_add_awards
        ranking_revoke_award ranking_close ranking_reopen competition_create competition_rename
        competition_activate edition_create edition_update edition_activate staff_upsert
        staff_remove staff_promote_super_admin :
      ActionType

-- EDITION_ACTION_TYPES
abbrev pub edition_action_types : List ActionType
edition_action_types =
    match_schedule ∷ match_update ∷ match_delete ∷ match_start ∷ match_update_clock
    ∷ match_register_event ∷ match_attribute_event ∷ match_claim_operator ∷ match_release_operator
    ∷ match_undo_event ∷ match_finish ∷ match_correct_result ∷ match_record_result ∷ category_create
    ∷ category_update ∷ category_delete ∷ category_generate_matches ∷ discipline_update
    ∷ discipline_delete ∷ team_create ∷ team_attach ∷ team_update ∷ athlete_create ∷ athlete_update
    ∷ ranking_add_metric ∷ ranking_update_metric ∷ ranking_remove_metric
    ∷ ranking_seed_default_metrics ∷ ranking_add_awards ∷ ranking_revoke_award ∷ ranking_close
    ∷ ranking_reopen ∷ competition_create ∷ competition_rename ∷ competition_activate
    ∷ edition_create ∷ edition_update ∷ edition_activate ∷ staff_upsert ∷ staff_remove
    ∷ staff_promote_super_admin ∷ []

-- The text of a type.
abbrev pub type_text : ActionType → String
type_text match_schedule = "match/schedule"
type_text match_update = "match/update"
type_text match_delete = "match/delete"
type_text match_start = "match/start"
type_text match_update_clock = "match/updateClock"
type_text match_register_event = "match/registerEvent"
type_text match_attribute_event = "match/attributeEvent"
type_text match_claim_operator = "match/claimOperator"
type_text match_release_operator = "match/releaseOperator"
type_text match_undo_event = "match/undoEvent"
type_text match_finish = "match/finish"
type_text match_correct_result = "match/correctResult"
type_text match_record_result = "match/recordResult"
type_text category_create = "category/create"
type_text category_update = "category/update"
type_text category_delete = "category/delete"
type_text category_generate_matches = "category/generateMatches"
type_text discipline_update = "discipline/update"
type_text discipline_delete = "discipline/delete"
type_text team_create = "team/create"
type_text team_attach = "team/attach"
type_text team_update = "team/update"
type_text athlete_create = "athlete/create"
type_text athlete_update = "athlete/update"
type_text ranking_add_metric = "ranking/addMetric"
type_text ranking_update_metric = "ranking/updateMetric"
type_text ranking_remove_metric = "ranking/removeMetric"
type_text ranking_seed_default_metrics = "ranking/seedDefaultMetrics"
type_text ranking_add_awards = "ranking/addAwards"
type_text ranking_revoke_award = "ranking/revokeAward"
type_text ranking_close = "ranking/close"
type_text ranking_reopen = "ranking/reopen"
type_text competition_create = "competition/create"
type_text competition_rename = "competition/rename"
type_text competition_activate = "competition/activate"
type_text edition_create = "edition/create"
type_text edition_update = "edition/update"
type_text edition_activate = "edition/activate"
type_text staff_upsert = "staff/upsert"
type_text staff_remove = "staff/remove"
type_text staff_promote_super_admin = "staff/promoteSuperAdmin"

unfoldable pub find_type : String → List ActionType → Reply ActionType
find_type value [] = fail bad_request
find_type value (a ∷ rest) = if type_text a === value then ok a else find_type value rest

-- `actionType`
unfoldable pub action_type : String → Reply ActionType
unfolding find_type
action_type value = find_type value edition_action_types

-- GLOBAL_ACTIONS
abbrev pub is_global : ActionType → Bool
is_global competition_create = true
is_global competition_rename = true
is_global competition_activate = true
is_global edition_create = true
is_global edition_update = true
is_global edition_activate = true
is_global staff_promote_super_admin = true
is_global _ = false

-- MANAGER_ACTIONS
abbrev pub is_manager : ActionType → Bool
is_manager match_schedule = true
is_manager match_update = true
is_manager match_delete = true
is_manager match_start = true
is_manager match_update_clock = true
is_manager match_register_event = true
is_manager match_attribute_event = true
is_manager match_claim_operator = true
is_manager match_release_operator = true
is_manager match_undo_event = true
is_manager match_finish = true
is_manager match_correct_result = true
is_manager match_record_result = true
is_manager category_create = true
is_manager category_update = true
is_manager category_generate_matches = true
is_manager discipline_update = true
is_manager athlete_create = true
is_manager athlete_update = true
is_manager _ = false

-- CREATED_ACTIONS
abbrev pub is_created : ActionType → Bool
is_created match_schedule = true
is_created category_create = true
is_created team_create = true
is_created athlete_create = true
is_created competition_create = true
is_created edition_create = true
is_created _ = false

-- actionType.startsWith('category/')
abbrev pub is_category : ActionType → Bool
is_category category_create = true
is_category category_update = true
is_category category_delete = true
is_category category_generate_matches = true
is_category _ = false

-- Every type is read back from its text.
pub action_type-type_text : (a : ActionType) → action_type (type_text a) ≡ ok a
unfolding action_type
action_type-type_text match_schedule = refl
action_type-type_text match_update = refl
action_type-type_text match_delete = refl
action_type-type_text match_start = refl
action_type-type_text match_update_clock = refl
action_type-type_text match_register_event = refl
action_type-type_text match_attribute_event = refl
action_type-type_text match_claim_operator = refl
action_type-type_text match_release_operator = refl
action_type-type_text match_undo_event = refl
action_type-type_text match_finish = refl
action_type-type_text match_correct_result = refl
action_type-type_text match_record_result = refl
action_type-type_text category_create = refl
action_type-type_text category_update = refl
action_type-type_text category_delete = refl
action_type-type_text category_generate_matches = refl
action_type-type_text discipline_update = refl
action_type-type_text discipline_delete = refl
action_type-type_text team_create = refl
action_type-type_text team_attach = refl
action_type-type_text team_update = refl
action_type-type_text athlete_create = refl
action_type-type_text athlete_update = refl
action_type-type_text ranking_add_metric = refl
action_type-type_text ranking_update_metric = refl
action_type-type_text ranking_remove_metric = refl
action_type-type_text ranking_seed_default_metrics = refl
action_type-type_text ranking_add_awards = refl
action_type-type_text ranking_revoke_award = refl
action_type-type_text ranking_close = refl
action_type-type_text ranking_reopen = refl
action_type-type_text competition_create = refl
action_type-type_text competition_rename = refl
action_type-type_text competition_activate = refl
action_type-type_text edition_create = refl
action_type-type_text edition_update = refl
action_type-type_text edition_activate = refl
action_type-type_text staff_upsert = refl
action_type-type_text staff_remove = refl
action_type-type_text staff_promote_super_admin = refl
