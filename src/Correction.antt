-- ===== src/Correction.antt =====
-- `correctResult` of src/edition-actions/handlers/match-action.handler.ts, with `dependentMatches`,
-- `bracketPosition` and `persistedTiebreakWinner`, on a category and the status of its edition. `category_id` is
-- the id of the category, which the ids of its bracket begin with, `natural` reads a number as `Number` does
-- and gives it where it is a positive integer, and `by_name` stands for `entryByName`. Ids of matches are
-- primary keys, so the rows that are found are deleted as such. The field for the winner of a walkover, which
-- is cleared, is left out, and scores are whole numbers.
pub mod Lookup
pub mod Winner
pub mod Effects
use Prim.Native.Nat.{max}
use Prim.Native.String.{◌++◌ as ◌<>◌}
use intereng_api.Base.{
  ℕ, zero, suc, String, Bool, true, false, not, ◌&&◌, ◌||◌, Option, none, some, List, [], ◌∷◌,
  ◌===◌, ◌==◌, ltb, find, filter, any, if◌then◌else◌,
}
use intereng_api.Base.Text.{strip_prefix, is_empty, trim}
use intereng_api.Http.{HttpError, conflict, not_found, Reply, ok, fail, ◌>>=◌, ◌>>◌, throw_if}
use intereng_api.Validation.{Audit, require_action_reason}
use intereng_api.Regulation.{Regulation, StandingsRule}
use intereng_api.Status.{
  MatchStatus, scheduled, finished, walkover, EditionStatus, is_scheduled, is_official, is_knockout,
}
use intereng_api.Knockout.{
  MatchId, advanced, third, other, same_id, BracketMatch, Phase, Category, find_match, update_match,
}
use intereng_api.Match.{is_text}
use intereng_api.Clock.{draw_allowed}
use intereng_api.Qualify.{Colocacao}
use intereng_api.Recompute.{Counted, recompute_tournament}

pub record MatchCorrection : Type 0 where
  pub id : String
  pub match_id : MatchId
  pub actor : String
  pub actor_name : String
  pub reason : String
  pub before : ℕ × ℕ
  pub after : ℕ × ℕ

-- The column `tiebreak`, with the fields that have their types.
pub record StoredTiebreak : Type 0 where
  pub winner : Option String
  pub method : Option String
  pub score_a : Option ℕ
  pub score_b : Option ℕ

-- A category with the status of its edition, the corrections, and the tiebreak of the match to correct.
pub record Desk : Type 0 where
  pub category : Category
  pub edition : EditionStatus
  pub corrections : List MatchCorrection
  pub tiebreak : Option StoredTiebreak

-- The payload, its fields read.
pub record CorrectionPayload : Type 0 where
  pub match_id : MatchId
  pub score_a : ℕ
  pub score_b : ℕ
  pub correction_id : String
  pub reason : Option String

-- id.startsWith(`${category}-advanced`)
unfoldable pub has_advanced_id : String → MatchId → Bool
unfolding strip_prefix
has_advanced_id category_id (advanced r o) = true
has_advanced_id category_id third = true
has_advanced_id category_id (other s) = elim (strip_prefix (category_id <> "-advanced") s) [
  | none ↦ false
  | some rest ↦ true
]

-- A stored number that is neither null nor 0.
abbrev pub counted_from_one : Option ℕ → Option ℕ
counted_from_one (some (suc n)) = some (suc n)
counted_from_one _ = none

-- The position that an id says.
unfoldable pub position_of_id : (String → Option ℕ) → String → MatchId → Option (ℕ × ℕ)
unfolding strip_prefix
position_of_id natural category_id (advanced r o) = some (r, o)
position_of_id natural category_id third = none
position_of_id natural category_id (other s) =
    elim (strip_prefix (category_id <> "-advanced-semi-") s) [
      | some rest ↦ elim (natural rest) [ none ↦ none | some n ↦ some (1, n) ]
      | none ↦ if s === (category_id <> "-advanced-final") then some (2, 1) else none
    ]

-- `bracketPosition`
unfoldable pub bracket_position : (String → Option ℕ) → String → BracketMatch → Option (ℕ × ℕ)
unfolding position_of_id
bracket_position natural category_id m = elim (counted_from_one m.round) [
  | none ↦ position_of_id natural category_id m.id
  | some r ↦ elim (counted_from_one m.bracket_slot) [
    | none ↦ position_of_id natural category_id m.id
    | some o ↦ some (r, o)
  ]
]

-- The phase of a match is one of knockout.
unfoldable pub in_knockout : Category → BracketMatch → Bool
unfolding find
in_knockout c m = elim (find (λ (p : Phase). p.id === m.phase_id) c.phases) [
  | none ↦ false
  | some p ↦ is_knockout p.type_of
]

module _ (natural : String → Option ℕ) (category_id : String) where
  unfoldable pub is_candidate : BracketMatch → BracketMatch → Bool
  unfolding has_advanced_id
  is_candidate source m = not (same_id m.id source.id) && has_advanced_id category_id m.id

  -- The last round of the candidates, at least the given one.
  unfoldable pub max_round : ℕ → List BracketMatch → ℕ
  unfolding bracket_position
  max_round r [] = r
  max_round r (m ∷ ms) = elim (bracket_position natural category_id m) [
    | none ↦ max_round r ms
    | some p ↦ max p.0 (max_round r ms)
  ]

  abbrev pub is_third : MatchId → Bool
  is_third third = true
  is_third _ = false

  -- Whether a candidate comes after a match of the bracket in the round `r`, the last round being `top`.
  unfoldable pub comes_after : ℕ → ℕ → BracketMatch → Bool
  unfolding bracket_position
  comes_after r top m =
      if is_third m.id
      then ltb r top
      else elim (bracket_position natural category_id m) [ none ↦ false | some p ↦ ltb r p.0 ]

  -- The test of `dependentMatches` among the matches of the category.
  unfoldable pub depends_on : Category → BracketMatch → BracketMatch → Bool
  unfolding in_knockout is_candidate bracket_position max_round comes_after filter
  depends_on c source m =
      is_candidate source m
      && (if not (in_knockout c source)
          then true
          else if is_third source.id
          then false
          else elim (bracket_position natural category_id source) [
            | none ↦ true
            | some p ↦ comes_after p.0 (max_round p.0 (filter (is_candidate source) c.matches)) m
          ])

  -- `dependentMatches`
  unfoldable pub dependent_matches : Category → BracketMatch → List BracketMatch
  unfolding depends_on filter
  dependent_matches c source = filter (depends_on c source) c.matches

-- `persistedTiebreakWinner`
unfoldable pub persisted_tiebreak_winner :
    (String → Reply String) → Option StoredTiebreak → BracketMatch → Reply String
persisted_tiebreak_winner by_name none m = fail conflict
persisted_tiebreak_winner by_name (some t) m = elim t.winner [
  | none ↦ fail conflict
  | some name ↦ if is_empty (trim name) then fail conflict else elim t.score_a [
    | none ↦ fail conflict
    | some a ↦ elim t.score_b [
      | none ↦ fail conflict
      | some b ↦ elim (by_name (trim name)) [
        | fail e ↦ fail e
        | ok w ↦
            if not (is_text m.entry_a w) && not (is_text m.entry_b w)
            then fail conflict
            else if a == b
            then (if is_text t.method "administrativo" then ok w else fail conflict)
            else if is_text (if ltb b a then m.entry_a else m.entry_b) w
            then ok w
            else fail conflict
      ]
    ]
  ]
]

-- `tiedResultRequiresWinner`
abbrev pub tie_needs_winner : Regulation → Bool → ℕ → ℕ → Bool
tie_needs_winner r knockout a b = a == b && (knockout || not (draw_allowed r.completion))

unfoldable pub corrected_winner :
    (String → Reply String)
    → Regulation
    → Bool
    → Option StoredTiebreak
    → BracketMatch
    → ℕ
    → ℕ
    → Reply (Option String)
unfolding persisted_tiebreak_winner
corrected_winner by_name r knockout t m a b =
    if tie_needs_winner r knockout a b
    then (persisted_tiebreak_winner by_name t m >>= λ w. ok (some w))
    else if a == b
    then ok none
    else if ltb b a
    then ok m.entry_a
    else ok m.entry_b

-- The write of the result.
abbrev pub corrected : ℕ → ℕ → Option String → BracketMatch → BracketMatch
corrected a b winner m = record m { score_a = a; score_b = b; winner = winner; status = finished }

abbrev pub found_or : {A : Type 0} → Option A → HttpError → Reply A
found_or none e = fail e
found_or (some a) e = ok a

abbrev pub reason_or : Option String → Option Audit → Reply String
reason_or none audit = require_action_reason audit
reason_or (some s) audit = ok s

module _ (natural : String → Option ℕ) (category_id : String) (by_name : String → Reply String)
    (recompute : Category × EditionStatus → Category × EditionStatus) where
  -- The writes of `correctResult`; `recompute` is `recomputeTournament`.
  unfoldable pub store_correction :
      Regulation
      → String
      → String
      → CorrectionPayload
      → String
      → BracketMatch
      → Option String
      → Desk
      → Desk
  unfolding depends_on filter update_match
  store_correction r actor actor_name q reason m winner d =
      let kept =
        filter (λ x. not (depends_on natural category_id d.category m x)) d.category.matches in
      let after = recompute (
        record d.category {
          matches = update_match q.match_id (corrected q.score_a q.score_b winner) kept;
        },
        d.edition,
      ) in
      record {
        category = after.0;
        edition = after.1;
        corrections =
            record {
              id = q.correction_id;
              match_id = q.match_id;
              actor = actor;
              actor_name = actor_name;
              reason = reason;
              before = (m.score_a, m.score_b);
              after = (q.score_a, q.score_b);
            }
            ∷ d.corrections;
        tiebreak =
            if tie_needs_winner r (in_knockout d.category m) q.score_a q.score_b
            then d.tiebreak
            else none;
      }

  unfoldable pub correct_result :
      Regulation → String → String → Option Audit → CorrectionPayload → Desk → Reply Desk
  unfolding dependent_matches corrected_winner store_correction in_knockout find_match any
      require_action_reason
  correct_result r actor actor_name audit q d = do
    reason ← reason_or q.reason audit
    m ← found_or (find_match q.match_id d.category.matches) not_found
    throw_if (not (is_official m.status)) conflict
    throw_if (any (λ x. x.id === q.correction_id) d.corrections) conflict
    throw_if
        (any (λ x. not (is_scheduled x.status))
          (dependent_matches natural category_id d.category m))
        conflict
    winner ← corrected_winner by_name r (in_knockout d.category m) d.tiebreak m q.score_a q.score_b
    ok (store_correction r actor actor_name q reason m winner d)

-- `recomputeTournament` where `counted` is what it finds of the matches of a category.
abbrev pub recompute_after :
    (String → String → Bool)
    → (String → Option Colocacao)
    → (String → String)
    → ℕ
    → StandingsRule
    → (List BracketMatch → Counted)
    → Category × EditionStatus
    → Category × EditionStatus
recompute_after locale_leb ler nome now rule counted (c, e) =
    recompute_tournament locale_leb ler nome now rule (counted c.matches) (c, e)
