-- ===== src/Progress/Safety.antt =====
-- `progressKnockout` and the matches that are there.
use intereng_api.Base.{
  ℕ, ◌+◌, refl, String, Bool, not, ◌&&◌, ◌||◌, Option, List, [], ◌∷◌, ◌++◌, map, ◌==◌, leb, length,
  inl, inr, arith, Bool-cases, Option-cases,
}
use intereng_api.Base.Sort.{sort}
use intereng_api.Bracket.{BracketPair, sequential_pairs}
use intereng_api.Status.{is_scheduled, is_official}
use intereng_api.Knockout.{
  AdvancementRule, BracketMatch, third, Category, find_match, fill, create_round, next_date,
  store_progression_byes,
}
use intereng_api.Knockout.Survival.{
  Survives, Survives-refl, Survives-trans, append-Survives, update-Survives, fill-Kept,
  create_pairs-Survives,
}
use intereng_api.Qualify.{Colocacao}
use intereng_api.Rounds.{
  has_both, in_round, definida, losers_of, rounds_known, advanced_matches, last_defined, by_slot,
  slot_of, slot_orders, progression_byes_of, winners_of,
}
use intereng_api.Progress.{
  create_third, some_opponent, start_bracket, last_classification, in_phase, some_undecided,
  create_first_round, next_round, progress_round, first_knockout, progress_knockout,
}

create_third-Survives :
    (phase_id : String) (round date : ℕ) (es : List String) (c : Category)
    → Survives c.matches (create_third phase_id round date es c).matches
unfolding create_third
create_third-Survives phase_id round date [] c = Survives-refl c.matches
create_third-Survives phase_id round date (a ∷ []) c = Survives-refl c.matches
create_third-Survives phase_id round date (a ∷ b ∷ []) c =
    elim (Option-cases (find_match third c.matches)) [
      | inl e ↦ rw (e, create_third) (append-Survives c.matches _)
      | inr (m, e) ↦ elim (Bool-cases (is_scheduled m.status && not (has_both m))) [
        | inl s ↦
            rw (e, s, create_third)
              (update-Survives third (fill a b) c.matches (λ n. refl)
                (λ n k. fill-Kept a b n (ground arith)))
        | inr s ↦ rw (e, s, create_third) (Survives-refl c.matches)
      ]
    ]
create_third-Survives phase_id round date (a ∷ b ∷ d ∷ es) c = Survives-refl c.matches

create_round-Survives :
    (phase_id : String) (round date : ℕ) (ps : List BracketPair) (c : Category)
    → Survives c.matches (create_round phase_id round ps date c).matches
unfolding create_round
create_round-Survives phase_id round date ps c =
    create_pairs-Survives phase_id round date ps c.matches

module _ (locale_leb : String → String → Bool) (ler : String → Option Colocacao)
    (nome : String → String) (now : ℕ) where
  start_bracket-Survives :
      (k : String) (ps : List BracketPair) (dates : List (Option ℕ)) (c : Category)
      → Survives c.matches (start_bracket locale_leb ler nome now k ps dates c).matches
  unfolding start_bracket
  start_bracket-Survives k ps dates c = elim (Bool-cases (some_opponent ps)) [
    | inl e ↦ rw (e, start_bracket) (create_round-Survives k 1 (next_date now dates) ps c)
    | inr e ↦ rw (e, start_bracket) (Survives-refl c.matches)
  ]

  create_first_round-Survives :
      (k : String) (order : ℕ) (rule : AdvancementRule) (c : Category)
      → Survives c.matches (create_first_round locale_leb ler nome now k order rule c).matches
  unfolding create_first_round
  create_first_round-Survives k order rule c =
      elim (Option-cases (last_classification c.phases order)) [
        | inl e ↦ rw (e, create_first_round) (start_bracket-Survives k _ [] c)
        | inr (p, e) ↦
            elim (Bool-cases
              (length (in_phase p.id c.matches) == 0 || some_undecided (in_phase p.id c.matches))) [
                | inl h ↦ rw (e, h, create_first_round) (Survives-refl c.matches)
                | inr h ↦ rw (e, h, create_first_round) (start_bracket-Survives k _ _ c)
              ]
      ]

  next_round-Survives :
      (k : String) (rule : AdvancementRule) (last : ℕ) (all : List BracketMatch)
      (current : List BracketMatch) (winners : List String) (c : Category)
      → Survives c.matches
          (next_round locale_leb ler nome now k rule last all current winners c).matches
  unfolding next_round store_progression_byes
  next_round-Survives k rule last all current winners c =
      let date = next_date now (map (λ m. m.scheduled_at) current) in
      let pairs = sequential_pairs winners in
      let d = store_progression_byes (last + 1) pairs (create_round k (last + 1) pairs date c) in
      let made : Survives c.matches d.matches = create_round-Survives k (last + 1) date pairs c in
      elim (Bool-cases (leb (length winners) 1)) [
        | inl e ↦ elim (Option-cases (find_match third c.matches)) [
          | inl f ↦ rw (e, f, next_round) (Survives-refl c.matches)
          | inr (m, f) ↦ elim (Bool-cases (is_official m.status)) [
            | inl g ↦ rw (e, f, g, next_round) (Survives-refl c.matches)
            | inr g ↦ rw (e, f, g, next_round) (Survives-refl c.matches)
          ]
        ]
        | inr e ↦
            elim (Bool-cases
              (not (length (in_round (last + 1) all) == 0) && definida (last + 1) all)) [
                | inl f ↦ rw (e, f, next_round) (Survives-refl c.matches)
                | inr f ↦
                    elim (Bool-cases
                      (rule.third_place_match && length winners == 2 && length current == 2)) [
                        | inl g ↦
                            rw (e, f, g, next_round)
                              (Survives-trans c.matches d.matches _ made
                                (create_third-Survives k (last + 1) date (losers_of current) d))
                        | inr g ↦ rw (e, f, g, next_round) made
                      ]
              ]
      ]

  progress_round-Survives :
      (k : String) (order : ℕ) (rule : AdvancementRule) (c : Category)
      → Survives c.matches (progress_round locale_leb ler nome now k order rule c).matches
  unfolding progress_round
  progress_round-Survives k order rule c =
      let all = rounds_known (advanced_matches k c.matches) in
      let last = last_defined all all in
      let current = sort by_slot (in_round last all) in
      let byes = progression_byes_of last c.progression_byes in
      let slots = slot_orders (map slot_of current ++ map (λ (b : ℕ × String). b.0) byes) in
      elim (Bool-cases (last == 0)) [
        | inl e ↦ rw (e, progress_round) (create_first_round-Survives k order rule c)
        | inr e ↦ elim (Bool-cases (length current == 0 || some_undecided current)) [
          | inl f ↦ rw (e, f, progress_round) (Survives-refl c.matches)
          | inr f ↦ elim (Option-cases (winners_of current byes slots)) [
            | inl g ↦ rw (e, f, g, progress_round) (Survives-refl c.matches)
            | inr (w, g) ↦
                rw (e, f, g, progress_round) (next_round-Survives k rule last all current w c)
          ]
        ]
      ]

  -- Whatever the progress of the bracket does, every match that is there stays there under its id, with
  -- its status, date, venue, winner and score; and a match that is no longer scheduled is left as it is.
  pub progress_knockout-Survives :
      (c : Category) → Survives c.matches (progress_knockout locale_leb ler nome now c).matches
  unfolding progress_knockout
  progress_knockout-Survives c = elim (Option-cases (first_knockout c.phases)) [
    | inl e ↦ rw (e, progress_knockout) (Survives-refl c.matches)
    | inr (k, e) ↦ rw (e, progress_knockout) (progress_round-Survives k.id k.order _ c)
  ]
