-- ===== src/Recompute.antt =====
-- src/edition-actions/edition-action-recalculation.service.ts: `recomputeTournament`, which makes the tables
-- of every phase again, moves the bracket on and lets the status follow, and `syncStatusWithMatches`. An
-- entry in two groups of a phase, whose two rows break the unique key of phase and entry, is left out.
pub mod Tables
pub mod Sync
use mathlib.Core.List.{flat_map}
use intereng_api.Base.{
  ℕ, String, Bool, true, false, not, ◌&&◌, ◌||◌, Option, none, some, List, [], ◌∷◌, ◌++◌, map,
  ◌===◌, ◌==◌, length, contains, if◌then◌else◌,
}
use intereng_api.Regulation.{StandingsRule}
use intereng_api.Standings.{CountedMatch}
use intereng_api.Ranking.{StandingRow, compute_standings}
use intereng_api.Status.{
  MatchStatus, TournamentStatus, draft, published, ongoing, ended, archived, EditionStatus,
  planning, in_progress, is_group, is_knockout, is_started, is_pending,
}
use intereng_api.Knockout.{Group, Phase, Entry, BracketMatch, Category}
use intereng_api.Qualify.{Colocacao}
use intereng_api.Progress.{progress_knockout}

-- What `countedMatches` finds: the official matches of a group, of a phase without a group, of a phase.
pub record Counted : Type 0 where
  pub of_group : String → List CountedMatch
  pub ungrouped : String → List CountedMatch
  pub of_phase : String → List CountedMatch

abbrev member : List String → Option String → Bool
member ids none = false
member ids (some e) = contains ids e

-- The matches outside the groups between two entries of the group.
unfoldable pub between_members : List String → List CountedMatch → List CountedMatch
between_members ids [] = []
between_members ids (m ∷ ms) =
    let rest = between_members ids ms in
    if member ids m.entry_a && member ids m.entry_b then m ∷ rest else rest

unfoldable pub without_phase : String → List StandingRow → List StandingRow
without_phase id [] = []
without_phase id (r ∷ rs) =
    let rest = without_phase id rs in if r.phase_id === id then rest else r ∷ rest

module _ (locale_leb : String → String → Bool) (rule : StandingsRule) (counted : Counted) where
  unfoldable pub table_of : Phase → List String → List CountedMatch → List StandingRow
  table_of phase ids ms =
      if length ids == 0 then [] else compute_standings locale_leb phase.id ids ms rule

  unfoldable pub group_table : Phase → Group → List StandingRow
  unfolding table_of between_members
  group_table phase g =
      table_of phase g.entries
        (counted.of_group g.id ++ between_members g.entries (counted.ungrouped phase.id))

  unfoldable pub group_tables : Phase → List Group → List StandingRow
  unfolding group_table
  group_tables phase [] = []
  group_tables phase (g ∷ gs) = group_table phase g ++ group_tables phase gs

  -- `computed`
  unfoldable pub phase_table : List Entry → Phase → List StandingRow
  unfolding group_tables table_of
  phase_table entries phase =
      if is_group phase.type_of && not (length phase.groups == 0)
      then group_tables phase phase.groups
      else if not (is_knockout phase.type_of)
      then table_of phase (map (λ e. e.id) entries) (counted.of_phase phase.id)
      else []

  -- deleteMany and createMany, for one phase after the other.
  unfoldable pub recompute_phases : List Entry → List Phase → List StandingRow → List StandingRow
  unfolding phase_table without_phase
  recompute_phases entries [] rows = rows
  recompute_phases entries (p ∷ ps) rows =
      recompute_phases entries ps (without_phase p.id rows ++ phase_table entries p)

unfoldable pub any_match : (MatchStatus → Bool) → List BracketMatch → Bool
any_match p [] = false
any_match p (m ∷ ms) = p m.status || any_match p ms

unfoldable pub has_knockout : List Phase → Bool
has_knockout [] = false
has_knockout (p ∷ ps) = is_knockout p.type_of || has_knockout ps

abbrev pub is_settled : TournamentStatus → Bool
is_settled draft = true
is_settled archived = true
is_settled ended = true
is_settled _ = false

abbrev pub is_published : TournamentStatus → Bool
is_published published = true
is_published _ = false

-- The status that follows from the matches.
unfoldable pub next_status : Category → TournamentStatus
unfolding any_match has_knockout
next_status c =
    let started = any_match is_started c.matches in
    if not (has_knockout c.phases) && not (any_match is_pending c.matches) && started
    then ended
    else if started && is_published c.status
    then ongoing
    else c.status

abbrev started_edition : EditionStatus → EditionStatus
started_edition planning = in_progress
started_edition s = s

-- `syncStatusWithMatches`: the category and the status of the edition.
unfoldable pub sync_status : Category × EditionStatus → Category × EditionStatus
unfolding next_status any_match
sync_status (c, e) = if is_settled c.status || length c.matches == 0 then (c, e) else (
  record c { status = next_status c },
  if any_match is_started c.matches then started_edition e else e,
)

module _ (locale_leb : String → String → Bool) (ler : String → Option Colocacao)
    (nome : String → String) (now : ℕ) where
  unfoldable pub recompute_tournament :
      StandingsRule → Counted → Category × EditionStatus → Category × EditionStatus
  unfolding recompute_phases sync_status
  recompute_tournament rule counted (c, e) = sync_status (
    progress_knockout locale_leb ler nome now (record c {
      standings = recompute_phases locale_leb rule counted c.entries c.phases c.standings;
    }),
    e,
  )
