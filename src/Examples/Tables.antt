-- ===== src/Examples/Tables.antt =====
-- The theorems on the table, at a group of three.
use mathlib.Core.List.{Perm, flat_map}
use intereng_api.Base.{◌*◌, ◌≡◌, ◌↔◌, refl, arith, none, some, [], ◌∷◌, map, get_elem?}
use intereng_api.Base.Int.{◌≤ℤ◌, pos, ◌+ℤ◌, ◌-ℤ◌, ◌*ℤ◌}
use intereng_api.Base.Sort.{sort, insert}
use intereng_api.Base.Dict
use intereng_api.Regulation.{
  collective_standings, SetsRule, set_decision, home, away, vitorias, sorteio,
}
use intereng_api.Regulation.Sets.{Wins, set_decision_iff}
use intereng_api.Standings.{
  StandingStats, accumulate, accumulate_from, count_match, sides, count_games, count_events,
  count_outcome, truthy, fair_play_of, Table,
}
use intereng_api.Standings.Conservation.{sum_of}
use intereng_api.Standings.Totals.{counted, accumulate_conserves}
use intereng_api.Standings.Tally.{AddsUp, accumulate-AddsUp}
use intereng_api.Ranking.{
  StandingRow, block_value, row_of, rank_block, ranking, compute_standings, ranks_of, number_from,
  criterion_value, mini_table, direct_matches, group_by, group_from, put_bucket,
}
use intereng_api.Ranking.Buckets.{Falling}
use intereng_api.Ranking.Permutation.{rank_block-perm}
use intereng_api.Ranking.Falling.{ranking-Falling, rank_block-Falling}
use intereng_api.Ranking.Ranks.{places, ranks-perm, ranks_follow_points}
use intereng_api.Examples.{text_leb, ids, played}

abbrev table : Table
table = accumulate ids played collective_standings

accumulate_conserves_example :
    (sum_of (λ s. s.won) table ≡ sum_of (λ s. s.lost) table)
    × (sum_of (λ s. s.score_for) table ≡ sum_of (λ s. s.score_against) table)
    × (sum_of (λ s. s.played) table ≡ 2 * counted ids played)
accumulate_conserves_example = accumulate_conserves collective_standings ids played

abbrev ecomp : StandingStats
ecomp = record {
  played = 1;
  won = 1;
  drawn = 0;
  lost = 0;
  score_for = 2;
  score_against = 1;
  points = pos 3;
  disciplinary = 0;
}

ecomp_row : Dict.get "ecomp" table ≡ some ecomp
unfolding accumulate accumulate_from count_match sides count_games count_events count_outcome truthy
    fair_play_of Dict.get Dict.has Dict.modify Dict.of_entries Dict.set_all Dict.set ◌+ℤ◌
ecomp_row = refl

accumulate-AddsUp_example : AddsUp collective_standings ecomp
accumulate-AddsUp_example =
    accumulate-AddsUp ids played collective_standings "ecomp" ecomp ecomp_row

rank_block-perm_example :
    Perm (rank_block text_leb played collective_standings table (vitorias ∷ sorteio ∷ []) ids) ids
rank_block-perm_example =
    rank_block-perm text_leb played collective_standings table (vitorias ∷ sorteio ∷ []) ids

ranking-Falling_example :
    Falling
      (λ id. (row_of table id).points)
      (ranking text_leb played collective_standings table ids)
ranking-Falling_example = ranking-Falling text_leb played collective_standings table ids

rank_block-Falling_example :
    Falling
      (block_value vitorias ids played collective_standings table)
      (rank_block text_leb played collective_standings table (vitorias ∷ sorteio ∷ []) ids)
rank_block-Falling_example =
    rank_block-Falling text_leb played collective_standings table vitorias (sorteio ∷ []) ids refl

ranks-perm_example :
    Perm
      (map (λ r. r.rank) (compute_standings text_leb "fase" ids played collective_standings))
      (places 1 ids)
ranks-perm_example = ranks-perm text_leb "fase" ids played collective_standings refl

abbrev mec : StandingStats
mec = record {
  played = 1;
  won = 0;
  drawn = 1;
  lost = 0;
  score_for = 1;
  score_against = 1;
  points = pos 1;
  disciplinary = 0;
}

abbrev first : StandingRow
first = record { phase_id = "fase"; entry_id = "ecomp"; stats = ecomp; rank = some 1 }

abbrev last : StandingRow
last = record { phase_id = "fase"; entry_id = "mec"; stats = mec; rank = some 2 }

first_row :
    get_elem? (compute_standings text_leb "fase" ids played collective_standings) 0 ≡ some first
unfolding accumulate accumulate_from count_match sides count_games count_events count_outcome truthy
    fair_play_of Dict.get Dict.has Dict.modify Dict.of_entries Dict.set_all Dict.set ◌+ℤ◌ ◌-ℤ◌ ◌*ℤ◌
    flat_map sort insert compute_standings ranks_of number_from row_of ranking rank_block
    block_value criterion_value mini_table direct_matches group_by group_from put_bucket
first_row = refl

last_row :
    get_elem? (compute_standings text_leb "fase" ids played collective_standings) 2 ≡ some last
unfolding accumulate accumulate_from count_match sides count_games count_events count_outcome truthy
    fair_play_of Dict.get Dict.has Dict.modify Dict.of_entries Dict.set_all Dict.set ◌+ℤ◌ ◌-ℤ◌ ◌*ℤ◌
    flat_map sort insert compute_standings ranks_of number_from row_of ranking rank_block
    block_value criterion_value mini_table direct_matches group_by group_from put_bucket
last_row = refl

ranks_follow_points_example : mec.points ≤ℤ ecomp.points
ranks_follow_points_example =
    ranks_follow_points text_leb "fase" ids played collective_standings 0 2 first last 1 2 first_row
      last_row refl refl (omega arith)

abbrev volleyball : SetsRule
volleyball = record {
  sets_to_win = 2;
  points_to_win_set = 25;
  points_to_win_deciding_set = 15;
  min_advantage = 2;
}

set_decision_iff_example :
    ((set_decision volleyball 1 26 24 ≡ some home) ↔ Wins volleyball 1 26 24)
    × ((set_decision volleyball 1 26 24 ≡ some away) ↔ Wins volleyball 1 24 26)
    × ((set_decision volleyball 1 26 24 ≡ none)
        ↔ (¬ Wins volleyball 1 26 24 × ¬ Wins volleyball 1 24 26))
set_decision_iff_example = set_decision_iff volleyball 1 26 24 (omega arith)
