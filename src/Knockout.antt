-- ===== src/Knockout.antt =====
-- The state that src/edition-actions/edition-action-recalculation.service.ts reads and writes of a
-- category, and the writes of a knockout round: `createRound`, `preencherParticipantes`,
-- `matchCreateData`, `storeProgressionByes`, `nextDate`. A match id of the form
-- `<category>-advanced-r<round>-<order>` is `advanced round order`, and `<category>-advanced-third` is
-- `third`. Dates are milliseconds since 1970.
pub mod Survival
pub mod Round
use Prim.Native.Nat.{max}
use mathlib.Core.Option.{get_or}
use intereng_api.Base.{
  ℕ, ◌+◌, ◌*◌, ◌/◌, String, Bool, true, false, ◌&&◌, Option, none, some, List, [], ◌∷◌, ◌++◌, ◌===◌,
  ◌==◌, if◌then◌else◌,
}
use intereng_api.Standings.{truthy, StandingStats}
use intereng_api.Ranking.{StandingRow}
use intereng_api.Bracket.{BracketPair, Crossing}
use intereng_api.Status.{MatchStatus, scheduled, TournamentStatus, ongoing, PhaseType, is_scheduled}

pub data MatchId : Type 0 where
  advanced : ℕ → ℕ → MatchId
  third : MatchId
  other : String → MatchId

abbrev pub same_id : MatchId → MatchId → Bool
same_id (advanced r o) (advanced q p) = r == q && o == p
same_id third third = true
same_id (other s) (other t) = s === t
same_id _ _ = false

pub record BracketMatch : Type 0 where
  pub id : MatchId
  pub phase_id : String
  pub round : Option ℕ
  pub bracket_slot : Option ℕ
  pub entry_a : Option String
  pub entry_b : Option String
  pub placeholder_a : Option String
  pub placeholder_b : Option String
  pub winner : Option String
  pub status : MatchStatus
  pub scheduled_at : Option ℕ
  pub venue : Option String
  pub score_a : ℕ
  pub score_b : ℕ

pub record Group : Type 0 where
  pub id : String
  pub name : String
  pub entries : List String

-- `qualifiers` is the field of that name of the config, where it is a positive integer.
pub record Phase : Type 0 where
  pub id : String
  pub order : ℕ
  pub type_of : PhaseType
  pub qualifiers : Option ℕ
  pub groups : List Group

-- An entry with `team?.name ?? athlete?.name ?? ''`.
pub record Entry : Type 0 where
  pub id : String
  pub name : String

pub record AdvancementRule : Type 0 where
  pub per_group : ℕ
  pub best_thirds : ℕ
  pub crossing : Crossing
  pub third_place_match : Bool

-- `config.advancement`, with the fields that are well-formed.
pub record StoredAdvancement : Type 0 where
  pub per_group : Option ℕ
  pub best_thirds : Option ℕ
  pub crossing : Crossing
  pub third_place_match : Bool

-- An object with numbers for keys.
abbrev pub ByNumber {ℓ} : Type ℓ → Type ℓ
ByNumber V = List (ℕ × V)

-- { ...object, [k]: v }
unfoldable pub put {ℓ} : {V : Type ℓ} → ℕ → V → ByNumber V → ByNumber V
put k v [] = (k, v) ∷ []
put k v ((j, w) ∷ d) = if j == k then (j, v) ∷ d else (j, w) ∷ put k v d

unfoldable pub at {ℓ} : {V : Type ℓ} → ℕ → ByNumber V → Option V
at k [] = none
at k ((j, v) ∷ d) = if j == k then some v else at k d

pub record Category : Type 0 where
  pub phases : List Phase
  pub entries : List Entry
  pub stored_advancement : Option StoredAdvancement
  pub status : TournamentStatus
  pub byes : ByNumber String
  pub progression_byes : ByNumber (ByNumber String)
  pub matches : List BracketMatch
  pub standings : List StandingRow

-- match.findUnique({ where: { id } })
unfoldable pub find_match : MatchId → List BracketMatch → Option BracketMatch
find_match id [] = none
find_match id (m ∷ ms) = if same_id m.id id then some m else find_match id ms

-- match.update({ where: { id } })
unfoldable pub update_match :
    MatchId → (BracketMatch → BracketMatch) → List BracketMatch → List BracketMatch
update_match id f [] = []
update_match id f (m ∷ ms) = if same_id m.id id then f m ∷ ms else m ∷ update_match id f ms

-- `preencherParticipantes` without a position, and with one.
abbrev pub fill : String → String → BracketMatch → BracketMatch
fill a b m = record m {
  entry_a = some a;
  entry_b = some b;
  placeholder_a = none;
  placeholder_b = none;
}

abbrev pub fill_at : String → String → ℕ → ℕ → BracketMatch → BracketMatch
fill_at a b round order m = record (fill a b m) { round = some round; bracket_slot = some order }

unfoldable pub match_create_data :
    MatchId → String → ℕ → Option ℕ → String → String → ℕ → BracketMatch
match_create_data id phase_id round slot a b date = record {
  id = id;
  phase_id = phase_id;
  round = some round;
  bracket_slot = slot;
  entry_a = some a;
  entry_b = some b;
  placeholder_a = none;
  placeholder_b = none;
  winner = none;
  status = scheduled;
  scheduled_at = some date;
  venue = some "A definir";
  score_a = 0;
  score_b = 0;
}

-- One round of the loop of `createRound`.
unfoldable pub create_pair : String → ℕ → ℕ → BracketPair → List BracketMatch → List BracketMatch
unfolding find_match update_match match_create_data truthy
create_pair phase_id round date p ms =
    let id = advanced round p.order in
    elim (truthy p.entry_b) [
      | none ↦ ms
      | some b ↦ elim (find_match id ms) [
        | none ↦ ms ++ match_create_data id phase_id round (some p.order) p.entry_a b date ∷ []
        | some m ↦
            if is_scheduled m.status
            then update_match id (fill_at p.entry_a b round p.order) ms
            else ms
      ]
    ]

unfoldable pub create_pairs :
    String → ℕ → ℕ → List BracketPair → List BracketMatch → List BracketMatch
create_pairs phase_id round date [] ms = ms
create_pairs phase_id round date (p ∷ ps) ms =
    create_pairs phase_id round date ps (create_pair phase_id round date p ms)

unfoldable pub create_round : String → ℕ → List BracketPair → ℕ → Category → Category
unfolding create_pairs
create_round phase_id round pairs date c = record c {
  matches = create_pairs phase_id round date pairs c.matches;
  status = ongoing;
}

-- The pairs without an opponent, by their order.
unfoldable pub byes_of : List BracketPair → ByNumber String
unfolding truthy put
byes_of [] = []
byes_of (p ∷ ps) =
    let rest = byes_of ps in
    elim (truthy p.entry_b) [ none ↦ (p.order, p.entry_a) ∷ rest | some b ↦ rest ]

unfoldable pub store_progression_byes : ℕ → List BracketPair → Category → Category
unfolding byes_of put
store_progression_byes round pairs c = record c {
  progression_byes = put round (byes_of pairs) c.progression_byes;
}

unfoldable pub latest : List (Option ℕ) → Option ℕ
latest [] = none
latest (none ∷ ds) = latest ds
latest (some d ∷ ds) = some (elim (latest ds) [ none ↦ d | some e ↦ max d e ])

-- The day after the last of the dates, or after `now`, at 18:00 UTC.
unfoldable pub next_date : ℕ → List (Option ℕ) → ℕ
unfolding latest
next_date now ds = (get_or (latest ds) now / 86400000 + 1) * 86400000 + 64800000
