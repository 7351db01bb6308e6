-- ===== src/Qualify.antt =====
-- src/edition-actions/edition-action-recalculation.service.ts: who goes on from the classification phase
-- (`advancement`, `collectQualifiers`, `qualifierSlot`), and the published bracket read against the
-- standings (`mapaDeColocacoes`, `entryDaColocacao`, `paresDaChavePublicada`).
-- `locale_leb` stands for `localeCompare`. `ler` and `nome` stand for `lerColocacao` and `nomeDoGrupo` of
-- src/edition-actions/colocacao-do-chaveamento.ts, whose regular expressions are not modelled.
pub mod Best
use mathlib.Core.Option.{get_or}
use intereng_api.Base.{
  ℕ, suc, zero, ◌+◌, ◌-◌, String, Bool, false, not, ◌&&◌, ◌||◌, Option, none, some, List, [], ◌∷◌,
  ◌++◌, map, ◌==◌, ltb, leb, length, take, get_elem?, all_different, if◌then◌else◌,
}
use intereng_api.Base.Int.{pos, ◌-ℤ◌, leb_ℤ, eq_ℤ}
use intereng_api.Base.Dict
use intereng_api.Base.Dict.{Dict}
use intereng_api.Base.Sort.{sort}
use intereng_api.Standings.{truthy}
use intereng_api.Ranking.{StandingRow}
use intereng_api.Bracket.{QualifierSlot, BracketPair, pair, padrao}
use intereng_api.Status.{is_group, is_league}
use intereng_api.Knockout.{
  Group, Phase, AdvancementRule, StoredAdvancement, BracketMatch, ByNumber, put, at,
}

unfoldable pub last_group_phase : List Phase → ℕ → Option Phase
last_group_phase [] knockout_order = none
last_group_phase (p ∷ ps) knockout_order = elim (last_group_phase ps knockout_order) [
  | some q ↦ some q
  | none ↦ if ltb p.order knockout_order && is_group p.type_of then some p else none
]

-- `??` on an optional number.
abbrev or_else : Option ℕ → ℕ → ℕ
or_else o n = get_or o n

unfoldable pub advancement : Option StoredAdvancement → List Phase → ℕ → AdvancementRule
unfolding last_group_phase
advancement stored phases knockout_order =
    let from_phase : ℕ = elim (last_group_phase phases knockout_order) [
      | none ↦ 2
      | some p ↦ or_else p.qualifiers 2
    ] in
    elim stored [
      | none ↦ record {
        per_group = from_phase;
        best_thirds = 0;
        crossing = padrao;
        third_place_match = false;
      }
      | some s ↦ record {
        per_group = or_else s.per_group from_phase;
        best_thirds = or_else s.best_thirds 0;
        crossing = s.crossing;
        third_place_match = s.third_place_match;
      }
    ]

unfoldable pub qualifier_slot : StandingRow → QualifierSlot
qualifier_slot r = record {
  entry_id = r.entry_id;
  points = r.stats.points;
  balance = pos r.stats.score_for -ℤ pos r.stats.score_against;
  score_for = r.stats.score_for;
}

-- new Map(standings.map((standing) => [standing.entryId, standing]))
unfoldable pub by_entry : List StandingRow → Dict StandingRow
by_entry rows = Dict.of_entries (map (λ r. (r.entry_id, r)) rows)

abbrev pub has_rank : ℕ → StandingRow → Bool
has_rank k r = elim r.rank [ none ↦ false | some n ↦ n == k ]

-- entries.map((entry) => byEntry.get(entry.entryId)).find((item) => item?.rank === k)
unfoldable pub find_rank : Dict StandingRow → ℕ → List String → Option StandingRow
find_rank rows k [] = none
find_rank rows k (e ∷ es) = elim (Dict.get e rows) [
  | none ↦ find_rank rows k es
  | some r ↦ if has_rank k r then some r else find_rank rows k es
]

-- The slot of rank `k` of every group that has one, in the order of the groups.
unfoldable pub slots_at : Dict StandingRow → ℕ → List Group → List QualifierSlot
unfolding find_rank qualifier_slot
slots_at rows k [] = []
slots_at rows k (g ∷ gs) =
    let rest = slots_at rows k gs in
    elim (find_rank rows k g.entries) [ none ↦ rest | some r ↦ qualifier_slot r ∷ rest ]

-- for (position = k; …; position += 1), for `n` positions.
unfoldable pub direct_from : Dict StandingRow → List Group → ℕ → ℕ → List QualifierSlot
unfolding slots_at
direct_from rows gs zero k = []
direct_from rows gs (suc n) k = slots_at rows k gs ++ direct_from rows gs n (k + 1)

-- `standing.rank ?? Number.MAX_SAFE_INTEGER`
abbrev pub rank_or_max : StandingRow → ℕ
rank_or_max r = get_or r.rank 9007199254740991

unfoldable pub ranked_up_to : ℕ → List StandingRow → List StandingRow
ranked_up_to n [] = []
ranked_up_to n (r ∷ rs) =
    let rest = ranked_up_to n rs in if leb (rank_or_max r) n then r ∷ rest else rest

module _ (locale_leb : String → String → Bool) where
  -- The comparator of the best thirds: points, balance, points scored, id.
  unfoldable pub better_slot : QualifierSlot → QualifierSlot → Bool
  better_slot l r =
      if not (eq_ℤ l.points r.points)
      then leb_ℤ r.points l.points
      else if not (eq_ℤ l.balance r.balance)
      then leb_ℤ r.balance l.balance
      else if not (l.score_for == r.score_for)
      then leb r.score_for l.score_for
      else locale_leb l.entry_id r.entry_id

  -- The comparator of the league: rank, id.
  unfoldable pub better_rank : StandingRow → StandingRow → Bool
  better_rank l r =
      if not (rank_or_max l == rank_or_max r)
      then leb (rank_or_max l) (rank_or_max r)
      else locale_leb l.entry_id r.entry_id

  -- All the entries of the rank after the last direct one, the best first.
  unfoldable pub thirds : List StandingRow → List Group → ℕ → List QualifierSlot
  unfolding slots_at by_entry better_slot
  thirds standings gs per_group =
      sort better_slot (slots_at (by_entry standings) (per_group + 1) gs)

  unfoldable pub collect_qualifiers :
      List StandingRow → Phase → AdvancementRule → List QualifierSlot
  unfolding thirds direct_from by_entry ranked_up_to better_rank qualifier_slot
  collect_qualifiers standings phase rule =
      if length phase.groups == 0 || is_league phase.type_of
      then map qualifier_slot (sort better_rank (ranked_up_to rule.per_group standings))
      else direct_from (by_entry standings) phase.groups rule.per_group 1
        ++ take rule.best_thirds (thirds standings phase.groups rule.per_group)

-- A place that a label of the published bracket names.
pub data Colocacao : Type 0 where
  grupo : String → ℕ → Colocacao
  melhor_terceiro : ℕ → Colocacao

pub record Colocacoes : Type 0 where
  pub por_grupo : Dict (ByNumber String)
  pub terceiros : List String

-- The places of a group: the entries that have a rank other than 0.
unfoldable pub posicoes : Dict StandingRow → List String → ByNumber String → ByNumber String
unfolding put
posicoes rows [] acc = acc
posicoes rows (e ∷ es) acc = posicoes rows es (elim (Dict.get e rows) [
  | none ↦ acc
  | some r ↦ elim r.rank [ none ↦ acc | some k ↦ if k == 0 then acc else put k r.entry_id acc ]
])

unfoldable pub mapa_de_colocacoes :
    (String → String → Bool)
    → (String → String)
    → List StandingRow
    → Phase
    → AdvancementRule
    → Colocacoes
unfolding posicoes thirds by_entry
mapa_de_colocacoes locale_leb nome standings phase rule = record {
  por_grupo =
      Dict.of_entries
        (map (λ g. (nome g.name, posicoes (by_entry standings) g.entries [])) phase.groups);
  terceiros = map (λ s. s.entry_id) (thirds locale_leb standings phase.groups rule.per_group);
}

unfoldable pub entry_da_colocacao : Colocacao → Colocacoes → Option String
unfolding at
entry_da_colocacao (melhor_terceiro k) mapa =
    if k == 0 then none else get_elem? mapa.terceiros (k - 1)
entry_da_colocacao (grupo g k) mapa = elim (Dict.get g mapa.por_grupo) [
  | none ↦ none
  | some places ↦ at k places
]

-- `resolver`
unfoldable pub resolver : (String → Option Colocacao) → Colocacoes → Option String → Option String
unfolding entry_da_colocacao truthy
resolver ler mapa label = elim (truthy label) [
  | none ↦ none
  | some text ↦ elim (ler text) [ none ↦ none | some c ↦ entry_da_colocacao c mapa ]
]

-- The loop of `paresDaChavePublicada`; `n` is `pairs.length`.
unfoldable pub resolve_from :
    (Option String → Option String) → ℕ → List BracketMatch → Option (List BracketPair)
resolve_from resolve n [] = some []
resolve_from resolve n (m ∷ ms) =
    let rest = resolve_from resolve (n + 1) ms in
    elim (truthy (resolve m.placeholder_a)) [
      | none ↦ none
      | some a ↦ elim (truthy (resolve m.placeholder_b)) [
        | none ↦ none
        | some b ↦ elim rest [
          | none ↦ none
          | some ps ↦ some (pair (get_or m.bracket_slot (n + 1)) a (some b) ∷ ps)
        ]
      ]
    ]

abbrev pub both_sides : BracketPair → List String
both_sides p = elim p.entry_b [ none ↦ p.entry_a ∷ [] | some b ↦ p.entry_a ∷ b ∷ [] ]

unfoldable pub sides_of : List BracketPair → List String
sides_of [] = []
sides_of (p ∷ ps) = both_sides p ++ sides_of ps

-- `paresDaChavePublicada`, for the matches of the first round in the order of their slots.
unfoldable pub pares_da_chave_publicada :
    (Option String → Option String) → List BracketMatch → Option (List BracketPair)
unfolding resolve_from sides_of
pares_da_chave_publicada resolve agendadas =
    if length agendadas == 0 then none else elim (resolve_from resolve 0 agendadas) [
      | none ↦ none
      | some pairs ↦ if all_different (sides_of pairs) then some pairs else none
    ]
