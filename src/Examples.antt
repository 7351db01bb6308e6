-- ===== src/Examples.antt =====
-- Concrete tables, brackets and matches, on which the theorems are applied.
mod Tables
mod Brackets
mod Live
mod Desk
mod Sheets
mod Lock
mod Streams
mod Requests
mod Regulations
mod Corrections
mod Older
mod Changes
use Prim.Native.Nat.{Ordering}
use Prim.Native.String.{compare}
use intereng_api.Base.{String, Bool, true, false, ◌≡◌, refl, none, some, List, [], ◌∷◌}
use intereng_api.Standings.{CountedMatch}
use intereng_api.Regulation.Presets.{preset}
use intereng_api.Regulation.{set_winner, set_decision, set_target, home}

-- An order of texts, in place of the one of the locale.
abbrev pub text_leb : String → String → Bool
text_leb a b = elim (compare a b) [ Ordering.gt ↦ false | _ ↦ true ]

abbrev pub ids : List String
ids = "ecomp" ∷ "civil" ∷ "mec" ∷ []

abbrev pub played : List CountedMatch
played =
    record {
      entry_a = some "ecomp";
      entry_b = some "civil";
      winner = some "ecomp";
      score_a = 2;
      score_b = 1;
      events = [];
    }
    ∷ record {
      entry_a = some "civil";
      entry_b = some "mec";
      winner = none;
      score_a = 1;
      score_b = 1;
      events = record { entry_id = some "mec"; fair_play_points = none } ∷ [];
    }
    ∷ []

-- The fifth set of volleyball goes to 15.
deciding_set : set_winner (preset "Vôlei") 5 15 13 ≡ some home
unfolding set_winner preset set_decision set_target
deciding_set = refl
