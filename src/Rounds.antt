-- ===== src/Rounds.antt =====
-- The rounds of a knockout phase as `progressKnockout` reads them, of
-- src/edition-actions/edition-action-recalculation.service.ts: the last round whose participants are known,
-- its winners and its losers.
use Prim.Native.Nat.{max}
use mathlib.Core.Option.{get_or}
use intereng_api.Base.{
  ℕ, String, Bool, true, false, ◌&&◌, Option, none, some, List, [], ◌∷◌, ◌===◌, ◌==◌, ltb, leb,
  if◌then◌else◌,
}
use intereng_api.Standings.{truthy}
use intereng_api.Knockout.{BracketMatch, MatchId, advanced, ByNumber, at}

-- Whether an id begins with `<category>-advanced-r`, and its round.
abbrev pub round_from_id : MatchId → Option ℕ
round_from_id (advanced r o) = some r
round_from_id _ = none

-- `match.round ?? roundFromId(match.id)`; 0 counts as none.
unfoldable pub round_of : BracketMatch → ℕ
round_of m = elim m.round [ some r ↦ r | none ↦ get_or (round_from_id m.id) 0 ]

abbrev pub is_advanced : MatchId → Bool
is_advanced (advanced r o) = true
is_advanced _ = false

-- The matches of the knockout phase that the service made.
unfoldable pub advanced_matches : String → List BracketMatch → List BracketMatch
advanced_matches phase_id [] = []
advanced_matches phase_id (m ∷ ms) =
    let rest = advanced_matches phase_id ms in
    if m.phase_id === phase_id && is_advanced m.id then m ∷ rest else rest

-- The matches that have a round.
unfoldable pub rounds_known : List BracketMatch → List BracketMatch
unfolding round_of
rounds_known [] = []
rounds_known (m ∷ ms) = let rest = rounds_known ms in if round_of m == 0 then rest else m ∷ rest

-- rounds.get(round) ?? []
unfoldable pub in_round : ℕ → List BracketMatch → List BracketMatch
unfolding round_of
in_round r [] = []
in_round r (m ∷ ms) = let rest = in_round r ms in if round_of m == r then m ∷ rest else rest

abbrev pub is_some : Option String → Bool
is_some none = false
is_some (some s) = true

-- Both participants are entries.
abbrev pub has_both : BracketMatch → Bool
has_both m = is_some (truthy m.entry_a) && is_some (truthy m.entry_b)

unfoldable pub every : (BracketMatch → Bool) → List BracketMatch → Bool
every p [] = true
every p (m ∷ ms) = p m && every p ms

-- `definida`
unfoldable pub definida : ℕ → List BracketMatch → Bool
unfolding every in_round
definida r ms = every has_both (in_round r ms)

-- The largest round whose participants are all known; 0 where there is none.
unfoldable pub last_defined : List BracketMatch → List BracketMatch → ℕ
unfolding definida round_of
last_defined all [] = 0
last_defined all (m ∷ ms) =
    let rest = last_defined all ms in
    if definida (round_of m) all then max (round_of m) rest else rest

-- `bracketSlot ?? 0`
abbrev pub slot_of : BracketMatch → ℕ
slot_of m = get_or m.bracket_slot 0

abbrev pub by_slot : BracketMatch → BracketMatch → Bool
by_slot l r = leb (slot_of l) (slot_of r)

-- A number put in its place, once.
unfoldable pub add_slot : ℕ → List ℕ → List ℕ
add_slot k [] = k ∷ []
add_slot k (j ∷ js) =
    let rest = add_slot k js in if k == j then j ∷ js else if ltb k j then k ∷ j ∷ js else j ∷ rest

-- The distinct numbers above 0, in order.
unfoldable pub slot_orders : List ℕ → List ℕ
unfolding add_slot
slot_orders [] = []
slot_orders (k ∷ ks) = let rest = slot_orders ks in if k == 0 then rest else add_slot k rest

-- `progressionByes`: the entries that are not empty.
unfoldable pub progression_byes_of : ℕ → ByNumber (ByNumber String) → ByNumber String
unfolding at
progression_byes_of round all = elim (at round all) [ none ↦ [] | some d ↦ filled d ]
  where
    filled : ByNumber String → ByNumber String
    filled [] = []
    filled ((k, s) ∷ d) = if s === "" then filled d else (k, s) ∷ filled d

unfoldable pub find_slot : ℕ → List BracketMatch → Option BracketMatch
find_slot k [] = none
find_slot k (m ∷ ms) = elim m.bracket_slot [
  | none ↦ find_slot k ms
  | some j ↦ if j == k then some m else find_slot k ms
]

-- The loop over the slots; `none` where a match has no winner.
unfoldable pub winners_of : List BracketMatch → ByNumber String → List ℕ → Option (List String)
unfolding find_slot at truthy
winners_of current byes [] = some []
winners_of current byes (k ∷ ks) =
    let rest = winners_of current byes ks in
    elim (find_slot k current) [
      | some m ↦ elim (truthy m.winner) [
        | none ↦ none
        | some w ↦ elim rest [ none ↦ none | some ws ↦ some (w ∷ ws) ]
      ]
      | none ↦ elim (at k byes) [
        | none ↦ rest
        | some w ↦ elim rest [ none ↦ none | some ws ↦ some (w ∷ ws) ]
      ]
    ]

-- `winnerEntryId === entryAId`, for ids that may be null.
abbrev pub same_entry : Option String → Option String → Bool
same_entry none none = true
same_entry (some s) (some t) = s === t
same_entry _ _ = false

unfoldable pub losers_of : List BracketMatch → List String
unfolding truthy
losers_of [] = []
losers_of (m ∷ ms) =
    let rest = losers_of ms in
    elim (truthy (if same_entry m.winner m.entry_a then m.entry_b else m.entry_a)) [
      | none ↦ rest
      | some e ↦ e ∷ rest
    ]
