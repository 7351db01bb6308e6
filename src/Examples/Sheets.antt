-- ===== src/Examples/Sheets.antt =====
-- The theorems on score sheets and on the recomputation of a category.
use mathlib.Core.List.{List}
use intereng_api.Base.{
  ℕ, ◌+◌, ◌*◌, ◌<◌, ◌≤◌, ◌≡◌, ◌⊎◌, refl, arith, String, false, none, some, [], ◌∷◌, length,
}
use intereng_api.Base.Order.{All}
use intereng_api.Regulation.Presets.{preset}
use intereng_api.Regulation.{
  collective_standings, penaltis, administrativo, set_winner, set_decision, set_target,
}
use intereng_api.Standings.{truthy}
use intereng_api.Bracket.{BracketPair, pair}
use intereng_api.Status.{scheduled, finished, group, planning, league}
use intereng_api.Match.{Reply, ok, LiveMatch}
use intereng_api.Knockout.{create_pairs, Phase, AdvancementRule}
use intereng_api.Knockout.Round.{Placed, create_pairs-Placed}
use intereng_api.Ranking.{StandingRow, compute_standings}
use intereng_api.Progress.{standings_of}
use intereng_api.Qualify.{collect_qualifiers}
use intereng_api.Qualify.Best.{length-collect_qualifiers}
use intereng_api.Bracket.{padrao}
use intereng_api.Sheet.{
  Tiebreak, parse_tiebreak, record_result, number_periods, partials_in_range, sheet_score,
  count_sets, valid_set_winner, any_active, sheet_winner, store_result,
}
use intereng_api.Sheet.Winner.{parse_tiebreak_lem}
use intereng_api.Sheet.Result.{Won, record_result_lem}
use intereng_api.Recompute.{Counted, phase_table, recompute_phases}
use intereng_api.Recompute.Tables.{recompute_phases_lem}
use intereng_api.Recompute.Sync.{Synced, sync_status-Synced}
use intereng_api.Examples.{text_leb, ids, played}
use intereng_api.Examples.Live.{kick_off, or_match, volleyball, rule, by_sets}
use intereng_api.Examples.Brackets.{semifinals}

abbrev by_name : String → Reply String
by_name s = ok s

-- Penalties, 4 × 3.
abbrev penalties : Tiebreak
penalties = record { method = penaltis; score_a = 4; score_b = 3; winner = "ecomp" }

decided : parse_tiebreak by_name (some penalties) kick_off ≡ ok "ecomp"
unfolding parse_tiebreak
decided = refl

parse_tiebreak_lem_example :
    ((kick_off.entry_a ≡ some "ecomp") ⊎ (kick_off.entry_b ≡ some "ecomp"))
    × (penalties.score_b < penalties.score_a → kick_off.entry_a ≡ some "ecomp")
    × (penalties.score_a < penalties.score_b → kick_off.entry_b ≡ some "ecomp")
    × (penalties.score_a ≡ penalties.score_b → penalties.method ≡ administrativo)
parse_tiebreak_lem_example = parse_tiebreak_lem by_name penalties kick_off "ecomp" decided

abbrev partials : List (ℕ × ℕ)
partials = (25, 20) ∷ (23, 25) ∷ (26, 24) ∷ (25, 10) ∷ []

abbrev booked : LiveMatch
booked = record kick_off { status = scheduled }

abbrev entered : LiveMatch
entered = or_match booked (record_result volleyball false by_name none partials none booked)

entered_ok : record_result volleyball false by_name none partials none booked ≡ ok entered
unfolding record_result number_periods partials_in_range sheet_score count_sets valid_set_winner
    any_active sheet_winner store_result set_winner set_decision set_target preset truthy
entered_ok = refl

record_result_lem_example :
    (entered.status ≡ finished)
    × Won 3 (entered.scores.score_a, entered.scores.score_b)
    × (entered.scores.score_a + entered.scores.score_b ≡ length partials)
    × (entered.scores.score_b < entered.scores.score_a → entered.winner ≡ booked.entry_a)
    × (entered.scores.score_a < entered.scores.score_b → entered.winner ≡ booked.entry_b)
record_result_lem_example =
    record_result_lem volleyball false by_name none partials none booked entered rule by_sets
      (omega arith) entered_ok

abbrev pairs : List BracketPair
pairs = pair 1 "a" (some "d") ∷ pair 2 "b" none ∷ []

create_pairs-Placed_example :
    All
      (Placed "mata-mata" 2 1000 semifinals.matches
        (create_pairs "mata-mata" 2 1000 pairs semifinals.matches))
      pairs
create_pairs-Placed_example =
    create_pairs-Placed "mata-mata" 2 1000 pairs semifinals.matches ((refl, tt), (tt, tt))

abbrev groups : Phase
groups = record {
  id = "grupos";
  order = 1;
  type_of = group;
  qualifiers = some 2;
  groups = record { id = "g"; name = "A"; entries = ids } ∷ [];
}

abbrev table_only : Phase
table_only = record { id = "liga"; order = 2; type_of = league; qualifiers = none; groups = [] }

abbrev counted : Counted
counted = record { of_group = λ g. played; ungrouped = λ p. []; of_phase = λ p. played }

recompute_phases_lem_example :
    All
      (λ (p : Phase).
        standings_of p.id
          (recompute_phases text_leb collective_standings counted [] (groups ∷ table_only ∷ []) [])
        ≡ phase_table text_leb collective_standings counted [] p)
      (groups ∷ table_only ∷ [])
recompute_phases_lem_example =
    recompute_phases_lem text_leb collective_standings counted [] (groups ∷ table_only ∷ []) [] refl

sync_status-Synced_example : Synced semifinals planning
sync_status-Synced_example = sync_status-Synced semifinals planning

abbrev two_and_a_third : AdvancementRule
two_and_a_third = record {
  per_group = 2;
  best_thirds = 1;
  crossing = padrao;
  third_place_match = false;
}

abbrev rows : List StandingRow
rows = compute_standings text_leb "grupos" ids played collective_standings

length-collect_qualifiers_example :
    length (collect_qualifiers text_leb rows groups two_and_a_third) ≤ 2 * 1 + 1
length-collect_qualifiers_example =
    length-collect_qualifiers text_leb rows groups two_and_a_third refl
