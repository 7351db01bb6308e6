-- ===== src/Examples/Corrections.antt =====
-- The theorem on corrections, at a semifinal whose final is in the agenda.
use intereng_api.Base.{◌≡◌, refl, none, some, List, [], find, filter, any}
use intereng_api.Http.{ok}
use intereng_api.Regulation.{collective_standings}
use intereng_api.Regulation.Presets.{preset}
use intereng_api.Status.{in_progress, EditionStatus}
use intereng_api.Knockout.{BracketMatch, Category, advanced, find_match}
use intereng_api.Recompute.{Counted}
use intereng_api.Correction.{
  Desk, CorrectionPayload, has_advanced_id, bracket_position, in_knockout, is_candidate, max_round,
  comes_after, depends_on, dependent_matches, corrected_winner, store_correction, correct_result,
  recompute_after,
}
use intereng_api.Correction.Effects.{Effects, correct_result-Effects}
use intereng_api.Examples.{text_leb, played}
use intereng_api.Examples.Brackets.{semifinals, semifinal}

abbrev desk : Desk
desk = record { category = semifinals; edition = in_progress; corrections = []; tiebreak = none }

abbrev wrong_side : CorrectionPayload
wrong_side = record {
  match_id = advanced 1 2;
  score_a = 3;
  score_b = 1;
  correction_id = "correction-1";
  reason = some "Placar invertido";
}

abbrev counted : List BracketMatch → Counted
counted ms = record { of_group = λ g. played; ungrouped = λ p. []; of_phase = λ p. played }

abbrev recompute : Category × EditionStatus → Category × EditionStatus
recompute = recompute_after text_leb (λ s. none) (λ s. s) 5000 collective_standings counted

abbrev corrected_desk : Desk
corrected_desk =
    store_correction (λ s. none) "football" (λ n. ok n) recompute (preset "Futebol") "user-1" "Ana"
      wrong_side "Placar invertido" (semifinal 2 "c" "d" "d") (some "c") desk

-- The semifinal can be corrected, since the final is not under way.
correctable :
    correct_result
      (λ s. none)
      "football"
      (λ n. ok n)
      recompute
      (preset "Futebol")
      "user-1"
      "Ana"
      none
      wrong_side
      desk
    ≡ ok corrected_desk
unfolding correct_result find_match in_knockout dependent_matches depends_on is_candidate
    has_advanced_id bracket_position max_round comes_after corrected_winner find filter any
correctable = refl

correct_result-Effects_example :
    Effects
      (λ s. none)
      "football"
      (λ n. ok n)
      recompute
      (preset "Futebol")
      "user-1"
      "Ana"
      none
      wrong_side
      desk
      corrected_desk
correct_result-Effects_example =
    correct_result-Effects text_leb (λ s. none) (λ s. s) 5000 collective_standings counted
      (λ s. none) "football" (λ n. ok n) (preset "Futebol") "user-1" "Ana" none wrong_side desk
      corrected_desk correctable
