-- ===== src/Ranking.antt =====
-- The order of the table of a phase, of src/edition-actions/edition-action-recalculation.service.ts:
-- `computeStandings`, `rankBlock` and `criterionValue`. `localeCompare` is a parameter:
-- `locale_leb a b` says that it does not put `b` before `a`.
pub mod Buckets
pub mod Permutation
pub mod Falling
pub mod Ranks
use mathlib.Core.Option.{get_or}
use mathlib.Core.List.{flat_map}
use intereng_api.Base.{
  ℕ, suc, ◌+◌, ◌*◌, String, Bool, true, false, not, ◌&&◌, ◌||◌, Option, none, some, List, [], ◌∷◌,
  ◌++◌, map, ◌===◌, leb, ◌==◌, length, contains, if◌then◌else◌,
}
use intereng_api.Base.Int.{ℤ, pos, ◌+ℤ◌, ◌-ℤ◌, ◌*ℤ◌, leb_ℤ, eq_ℤ}
use intereng_api.Base.Dict
use intereng_api.Base.Dict.{Dict}
use intereng_api.Base.Sort.{sort}
use intereng_api.Regulation.{
  StandingsRule, Tiebreaker, confronto_direto, vitorias, saldo, marcados, sofridos, fair_play,
  sorteio,
}
use intereng_api.Standings.{StandingStats, CountedMatch, Table, empty_stats, truthy, accumulate}

-- `Map<number, string[]>`: ids grouped by a number, in the order of the first of each group.
abbrev pub Buckets : Type 0
Buckets = List (ℤ × List String)

-- buckets.set(k, [...(buckets.get(k) ?? []), id])
unfoldable pub put_bucket : ℤ → String → Buckets → Buckets
put_bucket k id [] = (k, id ∷ []) ∷ []
put_bucket k id ((j, l) ∷ bs) =
    if eq_ℤ j k then (j, l ++ id ∷ []) ∷ bs else (j, l) ∷ put_bucket k id bs

unfoldable pub group_from : (String → ℤ) → Buckets → List String → Buckets
group_from value bs [] = bs
group_from value bs (id ∷ ids) = group_from value (put_bucket (value id) id bs) ids

unfoldable pub group_by : (String → ℤ) → List String → Buckets
unfolding group_from put_bucket
group_by value ids = group_from value [] ids

-- `criterionValue`; the defaults of its parameters are in `row_of`.
unfoldable pub criterion_value : Tiebreaker → StandingStats → StandingStats → ℤ
criterion_value confronto_direto row mini =
    mini.points *ℤ pos 1000 +ℤ pos mini.score_for -ℤ pos mini.score_against
criterion_value vitorias row mini = pos row.won
criterion_value saldo row mini = pos row.score_for -ℤ pos row.score_against
criterion_value marcados row mini = pos row.score_for
criterion_value sofridos row mini = pos 0 -ℤ pos row.score_against
criterion_value fair_play row mini = pos 0 -ℤ pos row.disciplinary
criterion_value sorteio row mini = pos 0

unfoldable pub row_of : Table → String → StandingStats
row_of rows id = get_or (Dict.get id rows) empty_stats

-- block.includes(id), for an id that may be null or empty.
abbrev pub includes : List String → Option String → Bool
includes block id = elim (truthy id) [ none ↦ false | some e ↦ contains block e ]

-- The matches between two entries of the block.
unfoldable pub direct_matches : List String → List CountedMatch → List CountedMatch
direct_matches block [] = []
direct_matches block (m ∷ ms) =
    if includes block m.entry_a && includes block m.entry_b
    then m ∷ direct_matches block ms
    else direct_matches block ms

-- The mini table of the direct confrontation; empty under any other criterion.
unfoldable pub mini_table : Tiebreaker → List String → List CountedMatch → StandingsRule → Table
mini_table confronto_direto block ms rule = accumulate block (direct_matches block ms) rule
mini_table _ block ms rule = []

-- The number by which `rankBlock` groups an entry of the block under a criterion.
unfoldable pub block_value :
    Tiebreaker → List String → List CountedMatch → StandingsRule → Table → String → ℤ
unfolding criterion_value row_of mini_table
block_value criterion block ms rule rows id =
    criterion_value criterion (row_of rows id) (row_of (mini_table criterion block ms rule) id)

-- The order of the groups: the greater number first.
abbrev pub greater_first : ℤ × List String → ℤ × List String → Bool
greater_first b c = leb_ℤ c.0 b.0

abbrev pub is_sorteio : Tiebreaker → Bool
is_sorteio sorteio = true
is_sorteio _ = false

module _ (locale_leb : String → String → Bool) (ms : List CountedMatch) (rule : StandingsRule)
    (rows : Table) where
  unfoldable pub rank_block : List Tiebreaker → List String → List String
  rank_block [] block = if leb (length block) 1 then block else sort locale_leb block
  rank_block (criterion ∷ rest) block =
      let groups = group_by (block_value criterion block ms rule rows) block in
      let rank_rest = rank_block rest in
      if leb (length block) 1
      then block
      else if is_sorteio criterion
      then sort locale_leb block
      else if length groups == 1
      then rank_rest block
      else flat_map (λ (b : ℤ × List String). rank_rest b.1) (sort greater_first groups)

  -- `ordered` of `computeStandings`
  unfoldable pub ranking : List String → List String
  ranking ids =
      flat_map (λ (b : ℤ × List String). rank_block rule.tiebreakers b.1)
        (sort greater_first (group_by (λ id. (row_of rows id).points) ids))

pub record StandingRow : Type 0 where
  pub phase_id : String
  pub entry_id : String
  pub stats : StandingStats
  pub rank : Option ℕ

-- ordered.map((entryId, index) => [entryId, index + 1])
unfoldable pub number_from : ℕ → List String → List (String × ℕ)
number_from n [] = []
number_from n (id ∷ ids) = (id, n) ∷ number_from (n + 1) ids

unfoldable pub ranks_of : List String → Dict ℕ
ranks_of ordered = Dict.of_entries (number_from 1 ordered)

unfoldable pub compute_standings :
    (String → String → Bool)
    → String
    → List String
    → List CountedMatch
    → StandingsRule
    → List StandingRow
unfolding ranks_of number_from
compute_standings locale_leb phase_id ids ms rule =
    let rows = accumulate ids ms rule in
    let ranks = ranks_of (ranking locale_leb ms rule rows ids) in
    map
      (λ id. record {
        phase_id = phase_id;
        entry_id = id;
        stats = row_of rows id;
        rank = Dict.get id ranks;
      })
      ids
