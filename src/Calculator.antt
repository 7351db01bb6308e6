-- ===== src/Calculator.antt =====
-- src/standings/standings-calculator.ts, with the strategies of src/standings/strategies. A team that has no row
-- is read as one that has not played, where the code relies on there being a row. `locale_leb` is the order
-- of `localeCompare`. `sort_teams` runs on fuel.

pub mod Termination
pub mod Falling
use mathlib.Core.Option.{get_or}
use intereng_api.Base.{
  ℕ, zero, suc, ◌+◌, ◌*◌, String, Bool, true, ◌&&◌, ◌||◌, Option, none, some, List, [], ◌∷◌, ◌++◌,
  map, ◌===◌, ltb, leb, length, contains, if◌then◌else◌,
}
use intereng_api.Base.Int.{ℤ, pos, ◌-ℤ◌, leb_ℤ, eq_ℤ}
use intereng_api.Base.Dict
use intereng_api.Base.Dict.{Dict}
use intereng_api.Base.Sort.{sort}
use intereng_api.Standings.{truthy, is_entry}

pub record TeamStats : Type 0 where
  pub played : ℕ
  pub won : ℕ
  pub drawn : ℕ
  pub lost : ℕ
  pub score_for : ℕ
  pub score_against : ℕ
  pub points : ℕ

-- The fields of a match that the calculator reads.
pub record CalculatorMatch : Type 0 where
  pub entry_a : Option String
  pub entry_b : Option String
  pub score_a : ℕ
  pub score_b : ℕ
  pub winner : Option String

pub data Strategy : Type 0 where
  by_points by_goal_diff by_goals_for by_head_to_head : Strategy

-- TIEBREAKER_STRATEGIES
unfoldable pub tiebreaker_strategies : String → Option Strategy
tiebreaker_strategies name =
    if name === "points"
    then some by_points
    else if name === "goalDiff"
    then some by_goal_diff
    else if name === "goalsFor" || name === "scoreFor"
    then some by_goals_for
    else if name === "headToHead"
    then some by_head_to_head
    else none

abbrev pub no_stats : TeamStats
no_stats = record {
  played = 0;
  won = 0;
  drawn = 0;
  lost = 0;
  score_for = 0;
  score_against = 0;
  points = 0;
}

abbrev add_played : ℕ → ℕ → TeamStats → TeamStats
add_played mine theirs s = record s {
  played = s.played + 1;
  score_for = s.score_for + mine;
  score_against = s.score_against + theirs;
}

abbrev add_victory : TeamStats → TeamStats
add_victory s = record s { won = s.won + 1; points = s.points + 3 }

abbrev add_defeat : TeamStats → TeamStats
add_defeat s = record s { lost = s.lost + 1 }

abbrev add_tie : TeamStats → TeamStats
add_tie s = record s { drawn = s.drawn + 1; points = s.points + 1 }

-- The two sides of a match that both have the property.
unfoldable pub counted_sides : (String → Bool) → CalculatorMatch → Option (String × String)
unfolding truthy
counted_sides counts m = elim (truthy m.entry_a) [
  | none ↦ none
  | some a ↦ elim (truthy m.entry_b) [
    | none ↦ none
    | some b ↦ if counts a && counts b then some (a, b) else none
  ]
]

-- What a match does to the objects of its two sides.
unfoldable pub add_result : String → String → CalculatorMatch → Dict TeamStats → Dict TeamStats
add_result a b m d =
    let played =
      Dict.modify b (add_played m.score_b m.score_a)
        (Dict.modify a (add_played m.score_a m.score_b) d) in
    if is_entry m.winner a
    then Dict.modify b add_defeat (Dict.modify a add_victory played)
    else if is_entry m.winner b
    then Dict.modify a add_defeat (Dict.modify b add_victory played)
    else Dict.modify b add_tie (Dict.modify a add_tie played)

unfoldable pub basic_stats_from : Dict TeamStats → List CalculatorMatch → Dict TeamStats
unfolding counted_sides add_result
basic_stats_from d [] = d
basic_stats_from d (m ∷ ms) =
    basic_stats_from
      (elim (counted_sides (λ id. Dict.has id d) m) [ none ↦ d | some (a, b) ↦ add_result a b m d ])
      ms

-- `calculateBasicStats`
unfoldable pub calculate_basic_stats : List String → List CalculatorMatch → Dict TeamStats
unfolding basic_stats_from
calculate_basic_stats ids ms =
    basic_stats_from (Dict.of_entries (map (λ id. (id, no_stats)) ids)) ms

-- h2hStats.set(id, (h2hStats.get(id) || 0) + n)
abbrev pub add_points : String → ℕ → Dict ℕ → Dict ℕ
add_points id n d = Dict.set id (get_or (Dict.get id d) 0 + n) d

unfoldable pub head_to_head_from : List String → Dict ℕ → List CalculatorMatch → Dict ℕ
unfolding counted_sides
head_to_head_from subset d [] = d
head_to_head_from subset d (m ∷ ms) =
    head_to_head_from subset
      (elim (counted_sides (contains subset) m) [
        | none ↦ d
        | some (a, b) ↦
            if is_entry m.winner a
            then add_points a 3 d
            else if is_entry m.winner b
            then add_points b 3 d
            else add_points b 1 (add_points a 1 d)
      ])
      ms

unfoldable pub head_to_head : List String → List CalculatorMatch → String → ℕ
unfolding head_to_head_from
head_to_head subset ms id =
    get_or (Dict.get id (head_to_head_from subset (Dict.of_entries (map (λ i. (i, 0)) subset)) ms))
      0

abbrev pub stats_of : Dict TeamStats → String → TeamStats
stats_of stats id = get_or (Dict.get id stats) no_stats

-- What `compare` of a strategy subtracts: of two teams the one with more comes first.
unfoldable pub strategy_value :
    Strategy → Dict TeamStats → List CalculatorMatch → List String → String → ℤ
unfolding head_to_head
strategy_value by_points stats ms subset id = pos (stats_of stats id).points
strategy_value by_goal_diff stats ms subset id =
    pos (stats_of stats id).score_for -ℤ pos (stats_of stats id).score_against
strategy_value by_goals_for stats ms subset id = pos (stats_of stats id).score_for
strategy_value by_head_to_head stats ms subset id = pos (head_to_head subset ms id)

-- A criterion without a strategy leaves all teams tied.
unfoldable pub criterion_of :
    Dict TeamStats → List CalculatorMatch → String → List String → String → ℤ
unfolding tiebreaker_strategies strategy_value
criterion_of stats ms name subset id = elim (tiebreaker_strategies name) [
  | none ↦ pos 0
  | some s ↦ strategy_value s stats ms subset id
]

-- The order of the teams under a criterion.
abbrev pub more_first : (String → ℤ) → String → String → Bool
more_first value a b = leb_ℤ (value b) (value a)

-- The loop that groups the tied teams, with the last team and the current group.
unfoldable pub tied_from : (String → ℤ) → String → List String → List String → List (List String)
tied_from value prev current [] = current ∷ []
tied_from value prev current (t ∷ ts) =
    if eq_ℤ (value t) (value prev)
    then tied_from value t (current ++ (t ∷ [])) ts
    else current ∷ tied_from value t (t ∷ []) ts

unfoldable pub tied_groups : (String → ℤ) → List String → List (List String)
unfolding tied_from
tied_groups value [] = []
tied_groups value (t ∷ ts) = tied_from value t (t ∷ []) ts

-- The results of the groups, one after the other.
unfoldable pub resolve_all :
    (List String → Option (List String)) → List (List String) → Option (List String)
resolve_all sort_group [] = some []
resolve_all sort_group (g ∷ gs) = elim (sort_group g) [
  | none ↦ none
  | some teams ↦ elim (resolve_all sort_group gs) [ none ↦ none | some rest ↦ some (teams ++ rest) ]
]

module _ (locale_leb : String → String → Bool) (stats : Dict TeamStats) (ms : List CalculatorMatch)
    (tiebreakers : List String) where
  -- `sortTeamsRecursive`, with the criteria from the index on; `none` is a run out of fuel.
  unfoldable pub sort_teams : ℕ → List String → List String → Option (List String)
  unfolding criterion_of sort tied_groups resolve_all
  sort_teams zero criteria ids = none
  sort_teams (suc fuel) [] ids = if leb (length ids) 1 then some ids else some (sort locale_leb ids)
  sort_teams (suc fuel) (c ∷ cs) ids =
      let value = criterion_of stats ms c ids in
      if leb (length ids) 1
      then some ids
      else resolve_all
          (λ g. sort_teams fuel (if ltb (length g) (length ids) then tiebreakers else cs) g)
          (tied_groups value (sort (more_first value) ids))

  -- Two teams that all criteria leave tied.
  unfoldable pub fully_equal : List String → String → String → Bool
  unfolding criterion_of
  fully_equal [] a b = true
  fully_equal (c ∷ cs) a b =
      let value = criterion_of stats ms c (a ∷ b ∷ []) in
      eq_ℤ (value a) (value b) && fully_equal cs a b

  -- The loop of `assignRanks` from the position `i` on.
  unfoldable pub ranks_from : ℕ → String → Dict ℕ → List String → Dict ℕ
  unfolding fully_equal
  ranks_from i prev ranks [] = ranks
  ranks_from i prev ranks (t ∷ ts) =
      ranks_from (i + 1) t
        (Dict.set t
          (if fully_equal tiebreakers t prev then get_or (Dict.get prev ranks) 0 else i + 1) ranks)
        ts

  -- `assignRanks`
  unfoldable pub assign_ranks : List String → Dict ℕ
  unfolding ranks_from
  assign_ranks [] = []
  assign_ranks (t ∷ ts) = ranks_from 1 t (Dict.set t 1 []) ts

-- As many calls deep as `sort_teams` gets.
abbrev pub sort_fuel : List String → List String → List String → ℕ
sort_fuel tiebreakers criteria ids = length ids * (length tiebreakers + 1) + length criteria + 1

pub record CalculatedRow : Type 0 where
  pub entry_id : String
  pub stats : TeamStats
  pub rank : Option ℕ

-- `computeStandingsForSubset`, without the id of the phase, which it copies to every row.
unfoldable pub compute_standings_for_subset :
    (String → String → Bool)
    → List String
    → List CalculatorMatch
    → List String
    → Option (List CalculatedRow)
unfolding calculate_basic_stats sort_teams assign_ranks
compute_standings_for_subset locale_leb ids ms tiebreakers =
    let stats = calculate_basic_stats ids ms in
    elim (sort_teams locale_leb stats ms tiebreakers (sort_fuel tiebreakers tiebreakers ids)
      tiebreakers ids) [
        | none ↦ none
        | some sorted ↦
            let ranks = assign_ranks locale_leb stats ms tiebreakers sorted in
            some (
              map
                (λ id. record {
                  entry_id = id;
                  stats = stats_of stats id;
                  rank = Dict.get id ranks;
                })
                ids)
      ]
