-- ===== src/Progress.antt =====
-- src/edition-actions/edition-action-recalculation.service.ts: `progressKnockout` and `createFirstRound`,
-- which make the first round of the knockout phase, and the next round once one is decided.
pub mod Safety
use Prim.Native.Nat.{max}
use mathlib.Core.Option.{get_or}
use intereng_api.Base.{
  ℕ, suc, zero, ◌+◌, ◌-◌, String, Bool, true, false, not, ◌&&◌, ◌||◌, Option, none, some, List, [],
  ◌∷◌, ◌++◌, map, ◌===◌, ◌==◌, ltb, leb, length, if◌then◌else◌,
}
use intereng_api.Base.Int.{pos}
use intereng_api.Base.Sort.{sort}
use intereng_api.Standings.{truthy}
use intereng_api.Ranking.{StandingRow}
use intereng_api.Bracket.{QualifierSlot, BracketPair, pair, seed_pairs, sequential_pairs}
use intereng_api.Status.{is_knockout, is_official, is_scheduled, ongoing, ended}
use intereng_api.Knockout.{
  Phase, Entry, AdvancementRule, BracketMatch, MatchId, advanced, third, ByNumber, put, at,
  Category, find_match, update_match, fill, match_create_data, create_round, byes_of,
  store_progression_byes, next_date,
}
use intereng_api.Qualify.{
  Colocacao, advancement, collect_qualifiers, mapa_de_colocacoes, resolver,
  pares_da_chave_publicada,
}
use intereng_api.Rounds.{
  round_from_id, round_of, is_advanced, advanced_matches, rounds_known, in_round, is_some, has_both,
  every, definida, last_defined, slot_of, by_slot, add_slot, slot_orders, progression_byes_of,
  find_slot, winners_of, same_entry, losers_of,
}

-- The third place match of the losers of two semifinals.
unfoldable pub create_third : String → ℕ → ℕ → List String → Category → Category
unfolding find_match update_match match_create_data
create_third phase_id round date (a ∷ b ∷ []) c = elim (find_match third c.matches) [
  | none ↦ record c {
    matches = c.matches ++ match_create_data third phase_id round none a b date ∷ [];
  }
  | some m ↦
      if is_scheduled m.status && not (has_both m)
      then record c { matches = update_match third (fill a b) c.matches }
      else c
]
create_third phase_id round date _ c = c

-- The last phase before the knockout phase that is not one itself.
unfoldable pub last_classification : List Phase → ℕ → Option Phase
last_classification [] order = none
last_classification (p ∷ ps) order = elim (last_classification ps order) [
  | some q ↦ some q
  | none ↦ if ltb p.order order && not (is_knockout p.type_of) then some p else none
]

unfoldable pub in_phase : String → List BracketMatch → List BracketMatch
in_phase id [] = []
in_phase id (m ∷ ms) = let rest = in_phase id ms in if m.phase_id === id then m ∷ rest else rest

unfoldable pub standings_of : String → List StandingRow → List StandingRow
standings_of id [] = []
standings_of id (r ∷ rs) =
    let rest = standings_of id rs in if r.phase_id === id then r ∷ rest else rest

-- The matches of the first round in the agenda.
abbrev first_round_id : MatchId → Bool
first_round_id (advanced r o) = r == 1
first_round_id _ = false

unfoldable pub agendadas_of : List BracketMatch → List BracketMatch
agendadas_of [] = []
agendadas_of (m ∷ ms) = let rest = agendadas_of ms in if first_round_id m.id then m ∷ rest else rest

-- namesByEntryId.get(id) ?? id
unfoldable pub name_of : List Entry → String → String
name_of [] id = id
name_of (e ∷ es) id = if e.id === id then e.name else name_of es id

unfoldable pub some_opponent : List BracketPair → Bool
some_opponent [] = false
some_opponent (p ∷ ps) = is_some (truthy p.entry_b) || some_opponent ps

-- ORDER BY "bracketSlot" ASC: the empty ones last.
abbrev by_slot_in_db : BracketMatch → BracketMatch → Bool
by_slot_in_db l r = elim r.bracket_slot [
  | none ↦ true
  | some j ↦ elim l.bracket_slot [ none ↦ false | some i ↦ leb i j ]
]

abbrev pub undecided : BracketMatch → Bool
undecided m = not (is_official m.status)

unfoldable pub some_undecided : List BracketMatch → Bool
some_undecided [] = false
some_undecided (m ∷ ms) = undecided m || some_undecided ms

abbrev entry_slot : Entry → QualifierSlot
entry_slot e = record { entry_id = e.id; points = pos 0; balance = pos 0; score_for = 0 }

abbrev pairs_or : Option (List BracketPair) → List BracketPair → List BracketPair
pairs_or none ps = ps
pairs_or (some ps) qs = ps

unfoldable pub first_knockout : List Phase → Option Phase
first_knockout [] = none
first_knockout (p ∷ ps) = if is_knockout p.type_of then some p else first_knockout ps

module _ (locale_leb : String → String → Bool) (ler : String → Option Colocacao)
    (nome : String → String) (now : ℕ) where
  -- The pairs of the first round: the published ones where they can all be read, the seeded ones where
  -- not.
  unfoldable pub first_pairs : Category → Option Phase → AdvancementRule → List BracketPair
  unfolding standings_of agendadas_of
  first_pairs c none rule = seed_pairs (map entry_slot c.entries) rule.crossing
  first_pairs c (some phase) rule =
      let rows = standings_of phase.id c.standings in
      let mapa = mapa_de_colocacoes locale_leb nome rows phase rule in
      pairs_or
        (pares_da_chave_publicada (resolver ler mapa) (sort by_slot_in_db (agendadas_of c.matches)))
        (seed_pairs (collect_qualifiers locale_leb rows phase rule) rule.crossing)

  -- The end of `createFirstRound`, from the pairs on.
  unfoldable pub start_bracket : String → List BracketPair → List (Option ℕ) → Category → Category
  unfolding some_opponent name_of
  start_bracket knockout_id pairs dates c =
      if some_opponent pairs
      then (let d = create_round knockout_id 1 pairs (next_date now dates) c in
          record d {
            byes = map (λ (b : ℕ × String). (b.0, name_of c.entries b.1)) (byes_of pairs);
            progression_byes = put 1 (byes_of pairs) c.progression_byes;
            status = ongoing;
          })
      else c

  unfoldable pub create_first_round : String → ℕ → AdvancementRule → Category → Category
  unfolding last_classification in_phase some_undecided first_pairs start_bracket
  create_first_round knockout_id order rule c = elim (last_classification c.phases order) [
    | none ↦ start_bracket knockout_id (first_pairs c none rule) [] c
    | some phase ↦
        let played = in_phase phase.id c.matches in
        if length played == 0 || some_undecided played
        then c
        else start_bracket knockout_id (first_pairs c (some phase) rule)
            (map (λ m. m.scheduled_at) played) c
  ]

  -- What follows once the winners of the round `last` are known.
  unfoldable pub next_round :
      String
      → AdvancementRule
      → ℕ
      → List BracketMatch
      → List BracketMatch
      → List String
      → Category
      → Category
  unfolding definida in_round losers_of create_third
  next_round knockout_id rule last all current winners c =
      let date = next_date now (map (λ m. m.scheduled_at) current) in
      let pairs = sequential_pairs winners in
      let d =
        store_progression_byes (last + 1) pairs
          (create_round knockout_id (last + 1) pairs date c) in
      if leb (length winners) 1
      then (elim (find_match third c.matches) [
        | none ↦ record c { status = ended }
        | some m ↦ if is_official m.status then record c { status = ended } else c
      ])
      else if not (length (in_round (last + 1) all) == 0) && definida (last + 1) all
      then c
      else if rule.third_place_match && length winners == 2 && length current == 2
      then create_third knockout_id (last + 1) date (losers_of current) d
      else d

  unfoldable pub progress_round : String → ℕ → AdvancementRule → Category → Category
  unfolding advanced_matches in_round last_defined some_undecided slot_orders progression_byes_of
      winners_of next_round create_first_round
  progress_round knockout_id order rule c =
      let all = rounds_known (advanced_matches knockout_id c.matches) in
      let last = last_defined all all in
      let current = sort by_slot (in_round last all) in
      let byes = progression_byes_of last c.progression_byes in
      let slots = slot_orders (map slot_of current ++ map (λ (b : ℕ × String). b.0) byes) in
      if last == 0
      then create_first_round knockout_id order rule c
      else if length current == 0 || some_undecided current
      then c
      else elim (winners_of current byes slots) [
        | none ↦ c
        | some winners ↦ next_round knockout_id rule last all current winners c
      ]

  unfoldable pub progress_knockout : Category → Category
  unfolding first_knockout progress_round
  progress_knockout c = elim (first_knockout c.phases) [
    | none ↦ c
    | some k ↦ progress_round k.id k.order (advancement c.stored_advancement c.phases k.order) c
  ]
