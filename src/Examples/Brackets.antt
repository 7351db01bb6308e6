-- ===== src/Examples/Brackets.antt =====
-- The theorems on the bracket, at three qualified entries and a final that is already in the agenda.
use mathlib.Core.List.{Perm}
use intereng_api.Base.{
  ℕ, ◌+◌, ◌*◌, ◌-◌, ◌/◌, ◌<◌, ◌≤◌, ◌≡◌, refl, arith, String, Option, none, some, List, [], ◌∷◌, map,
  get_elem?, length,
}
use intereng_api.Base.Int.{pos}
use intereng_api.Base.Order.{All}
use intereng_api.Standings.{truthy}
use intereng_api.Bracket.{
  QualifierSlot, padrao, pair, bracket_size, double_until, seed_pairs, sequential_pairs,
}
use intereng_api.Bracket.Sequential.{participants, orders_from, sequential_pairs_keep}
use intereng_api.Bracket.Size.{PowerOfTwo, bracket_size_lem}
use intereng_api.Bracket.Seeding.{entries, seed_pairs-perm, seed_pairs-get_elem?}
use intereng_api.Status.{scheduled, ongoing, knockout, finished}
use intereng_api.Knockout.{BracketMatch, Category, advanced}
use intereng_api.Knockout.Survival.{Survives}
use intereng_api.Qualify.{Colocacao}
use intereng_api.Progress.{progress_knockout}
use intereng_api.Progress.Safety.{progress_knockout-Survives}
use intereng_api.Examples.{text_leb}

abbrev qualified : String → QualifierSlot
qualified id = record { entry_id = id; points = pos 3; balance = pos 1; score_for = 2 }

abbrev three : List QualifierSlot
three = qualified "ecomp" ∷ qualified "civil" ∷ qualified "mec" ∷ []

filled : All (λ x. truthy (some x) ≡ some x) (entries three)
unfolding truthy
filled = (refl, (refl, (refl, tt)))

seed_pairs-perm_example : Perm (participants (seed_pairs three padrao)) (entries three)
seed_pairs-perm_example = seed_pairs-perm three (omega arith) filled

first_place : 0 < bracket_size 3 / 2
unfolding bracket_size double_until
first_place = omega arith

seed_pairs-get_elem?_example :
    get_elem? (seed_pairs three padrao) 0
    ≡ some (pair (0 + 1) "ecomp" (get_elem? (entries three) (bracket_size 3 - 1 - 0)))
seed_pairs-get_elem?_example =
    seed_pairs-get_elem? three (omega arith) filled 0 "ecomp" first_place refl

bracket_size_lem_example :
    PowerOfTwo (bracket_size 5) × (5 ≤ bracket_size 5) × (bracket_size 5 < 2 * 5)
bracket_size_lem_example = bracket_size_lem 5 (omega arith)

abbrev five : List String
five = "a" ∷ "b" ∷ "c" ∷ "d" ∷ "e" ∷ []

sequential_pairs_keep_example :
    (participants (sequential_pairs five) ≡ five)
    × (length (sequential_pairs five) ≡ (length five + 1) / 2)
    × (map (λ p. p.order) (sequential_pairs five) ≡ orders_from 1 (sequential_pairs five))
sequential_pairs_keep_example = sequential_pairs_keep five

abbrev pub semifinal : ℕ → String → String → String → BracketMatch
semifinal slot a b w = record {
  id = advanced 1 slot;
  phase_id = "mata-mata";
  round = some 1;
  bracket_slot = some slot;
  entry_a = some a;
  entry_b = some b;
  placeholder_a = none;
  placeholder_b = none;
  winner = some w;
  status = finished;
  scheduled_at = some 1000;
  venue = some "Ginásio";
  score_a = 2;
  score_b = 1;
}

-- The final of the agenda, with labels in place of the participants.
abbrev final : BracketMatch
final = record {
  id = advanced 2 1;
  phase_id = "mata-mata";
  round = some 2;
  bracket_slot = some 1;
  entry_a = none;
  entry_b = none;
  placeholder_a = some "VENCEDOR J1";
  placeholder_b = some "VENCEDOR J2";
  winner = none;
  status = scheduled;
  scheduled_at = some 90000000;
  venue = some "Arena";
  score_a = 0;
  score_b = 0;
}

abbrev pub semifinals : Category
semifinals = record {
  phases =
      record { id = "mata-mata"; order = 2; type_of = knockout; qualifiers = none; groups = [] }
      ∷ [];
  entries = [];
  stored_advancement = none;
  status = ongoing;
  byes = [];
  progression_byes = [];
  matches = semifinal 1 "a" "b" "a" ∷ semifinal 2 "c" "d" "d" ∷ final ∷ [];
  standings = [];
}

abbrev no_label : String → Option Colocacao
no_label s = none

progress_knockout-Survives_example :
    Survives semifinals.matches
      (progress_knockout text_leb no_label (λ s. s) 5000 semifinals).matches
progress_knockout-Survives_example =
    progress_knockout-Survives text_leb no_label (λ s. s) 5000 semifinals
