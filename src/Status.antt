-- ===== src/Status.antt =====
-- The statuses of matches, categories and editions, the kinds of phase, and the labels that the payloads
-- use for them: src/edition-actions/action-mappers.ts.
use intereng_api.Base.{String, Bool, true, false, ◌||◌, ◌&&◌, List, [], ◌∷◌, ◌===◌, if◌then◌else◌}

pub data MatchStatus : Type 0 where
  scheduled live finished walkover cancelled postponed : MatchStatus

pub data TournamentStatus : Type 0 where
  draft published ongoing ended archived : TournamentStatus

pub data EditionStatus : Type 0 where
  planning in_progress concluded filed : EditionStatus

pub data PhaseType : Type 0 where
  group league knockout : PhaseType

pub data TournamentFormat : Type 0 where
  group_knockout league_knockout league_only single_elimination : TournamentFormat

-- `status === s`
abbrev pub is_scheduled : MatchStatus → Bool
is_scheduled scheduled = true
is_scheduled _ = false

-- OFFICIAL_STATUSES.includes(status)
abbrev pub is_official : MatchStatus → Bool
is_official finished = true
is_official walkover = true
is_official _ = false

abbrev pub is_started : MatchStatus → Bool
is_started live = true
is_started s = is_official s

abbrev pub is_pending : MatchStatus → Bool
is_pending scheduled = true
is_pending live = true
is_pending postponed = true
is_pending _ = false

abbrev pub is_group : PhaseType → Bool
is_group group = true
is_group _ = false

abbrev pub is_league : PhaseType → Bool
is_league league = true
is_league _ = false

abbrev pub is_knockout : PhaseType → Bool
is_knockout knockout = true
is_knockout _ = false

unfoldable pub some_format : String → List String → Bool
some_format f [] = false
some_format f (g ∷ gs) = g === f || some_format f gs

-- `inferTournamentFormat`
unfoldable pub infer_tournament_format : List String → TournamentFormat
infer_tournament_format phases =
    let has_groups = some_format "Grupos" phases in
    let has_league = some_format "Liga" phases in
    let has_knockout = some_format "Mata-mata" phases in
    if has_groups && has_knockout
    then group_knockout
    else if has_league && has_knockout
    then league_knockout
    else if has_league
    then league_only
    else single_elimination
