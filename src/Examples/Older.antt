-- ===== src/Examples/Older.antt =====
-- The theorem on the calculator, at three teams with two matches.
use mathlib.Core.List.{Perm}
use intereng_api.Base.{◌≡◌, arith, String, none, some, List, [], ◌∷◌}
use intereng_api.Base.Dict.{Dict}
use intereng_api.Ranking.Buckets.{Falling}
use intereng_api.Calculator.{
  TeamStats, CalculatorMatch, calculate_basic_stats, criterion_of, sort_teams,
}
use intereng_api.Calculator.Falling.{sort_teams-Falling}
use intereng_api.Examples.{text_leb, ids}

abbrev matches : List CalculatorMatch
matches =
    record {
      entry_a = some "ecomp";
      entry_b = some "civil";
      score_a = 2;
      score_b = 1;
      winner = some "ecomp";
    }
    ∷ record {
      entry_a = some "civil";
      entry_b = some "mec";
      score_a = 1;
      score_b = 1;
      winner = none;
    }
    ∷ []

abbrev stats : Dict TeamStats
stats = calculate_basic_stats ids matches

abbrev others : List String
others = "headToHead" ∷ "goalDiff" ∷ []

sort_teams-Falling_example :
    (r : List String) × (sort_teams text_leb stats matches
        ("points" ∷ others)
        16
        ("points" ∷ others)
        ids
      ≡ some r)
    × (Perm r ids × Falling (criterion_of stats matches "points" ids) r)
sort_teams-Falling_example =
    sort_teams-Falling text_leb stats matches ("points" ∷ others) 16 "points" others ids
      (omega arith)
