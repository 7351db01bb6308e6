-- ===== src/Standings.antt =====
-- The table of a phase, of src/edition-actions/edition-action-recalculation.service.ts: the rows that
-- `accumulate` adds up from the counted matches.
pub mod Tally
pub mod Conservation
pub mod Totals
use mathlib.Core.Option.{get_or}
use mathlib.Core.List.{flat_map}
use intereng_api.Base.{
  ℕ, suc, ◌+◌, ◌*◌, String, Bool, true, false, not, ◌&&◌, ◌||◌, Option, none, some, List, [], ◌∷◌,
  ◌++◌, map, ◌===◌, leb, ◌==◌, length, contains, if◌then◌else◌,
}
use intereng_api.Base.Int.{ℤ, pos, ◌+ℤ◌, ◌-ℤ◌, ◌*ℤ◌, leb_ℤ, eq_ℤ}
use intereng_api.Base.Dict
use intereng_api.Base.Dict.{Dict}
use intereng_api.Base.Sort.{sort}
use intereng_api.Regulation.{
  StandingsRule, Tiebreaker, confronto_direto, vitorias, saldo, marcados, sofridos, fair_play,
  sorteio,
}

pub record StandingStats : Type 0 where
  pub played : ℕ
  pub won : ℕ
  pub drawn : ℕ
  pub lost : ℕ
  pub score_for : ℕ
  pub score_against : ℕ
  pub points : ℤ
  pub disciplinary : ℕ

-- An event that was not undone. `fair_play_points` is the field of that name of its metadata, `none`
-- where the metadata has no finite number there.
pub record CountedEvent : Type 0 where
  pub entry_id : Option String
  pub fair_play_points : Option ℤ

pub record CountedMatch : Type 0 where
  pub entry_a : Option String
  pub entry_b : Option String
  pub winner : Option String
  pub score_a : ℕ
  pub score_b : ℕ
  pub events : List CountedEvent

abbrev pub empty_stats : StandingStats
empty_stats = record {
  played = 0;
  won = 0;
  drawn = 0;
  lost = 0;
  score_for = 0;
  score_against = 0;
  points = pos 0;
  disciplinary = 0;
}

-- `fairPlayPoints`: a missing or negative number counts as 0.
unfoldable pub fair_play_of : Option ℤ → ℕ
fair_play_of (some (pos n)) = n
fair_play_of _ = 0

-- An id as a condition: neither null nor the empty text.
unfoldable pub truthy : Option String → Option String
truthy none = none
truthy (some s) = if s === "" then none else some s

-- `id === e`, for an id that may be null.
abbrev pub is_entry : Option String → String → Bool
is_entry none e = false
is_entry (some s) e = s === e

abbrev pub Table : Type 0
Table = Dict StandingStats

abbrev add_game : ℕ → ℕ → StandingStats → StandingStats
add_game mine theirs s = record s {
  played = s.played + 1;
  score_for = s.score_for + mine;
  score_against = s.score_against + theirs;
}

abbrev add_win : StandingsRule → StandingStats → StandingStats
add_win rule s = record s { won = s.won + 1; points = s.points +ℤ rule.win }

abbrev add_loss : StandingsRule → StandingStats → StandingStats
add_loss rule s = record s { lost = s.lost + 1; points = s.points +ℤ rule.loss }

abbrev add_draw : StandingsRule → StandingStats → StandingStats
add_draw rule s = record s { drawn = s.drawn + 1; points = s.points +ℤ rule.draw }

abbrev add_disciplinary : ℕ → StandingStats → StandingStats
add_disciplinary n s = record s { disciplinary = s.disciplinary + n }

-- The two entries of a match that the table counts.
unfoldable pub sides : Table → CountedMatch → Option (String × String)
unfolding truthy
sides rows m = elim (truthy m.entry_a) [
  | none ↦ none
  | some a ↦ elim (truthy m.entry_b) [
    | none ↦ none
    | some b ↦ if Dict.has a rows && Dict.has b rows then some (a, b) else none
  ]
]

unfoldable pub count_games : String → String → CountedMatch → Table → Table
count_games a b m rows =
    Dict.modify b (add_game m.score_b m.score_a) (Dict.modify a (add_game m.score_a m.score_b) rows)

-- The loop over the events of a match.
unfoldable pub count_events : List CountedEvent → Table → Table
count_events [] rows = rows
count_events (e ∷ es) rows = count_events es (elim (truthy e.entry_id) [
  | none ↦ rows
  | some id ↦ Dict.modify id (add_disciplinary (fair_play_of e.fair_play_points)) rows
])

unfoldable pub count_outcome : StandingsRule → String → String → Option String → Table → Table
count_outcome rule a b winner rows =
    if is_entry winner a
    then Dict.modify b (add_loss rule) (Dict.modify a (add_win rule) rows)
    else if is_entry winner b
    then Dict.modify a (add_loss rule) (Dict.modify b (add_win rule) rows)
    else Dict.modify b (add_draw rule) (Dict.modify a (add_draw rule) rows)

-- One round of the loop of `accumulate`.
unfoldable pub count_match : StandingsRule → Table → CountedMatch → Table
count_match rule rows m = elim (sides rows m) [
  | none ↦ rows
  | some (a, b) ↦ count_outcome rule a b m.winner (count_events m.events (count_games a b m rows))
]

unfoldable pub accumulate_from : StandingsRule → Table → List CountedMatch → Table
accumulate_from rule rows [] = rows
accumulate_from rule rows (m ∷ ms) = accumulate_from rule (count_match rule rows m) ms

unfoldable pub accumulate : List String → List CountedMatch → StandingsRule → Table
accumulate ids ms rule =
    accumulate_from rule (Dict.of_entries (map (λ id. (id, empty_stats)) ids)) ms
