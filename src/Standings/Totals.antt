-- ===== src/Standings/Totals.antt =====
-- The totals of the rows of the table of `accumulate`.
use intereng_api.Base.{
  ℕ, ◌+◌, ◌*◌, ◌≡◌, refl, ◌∙◌, arith, String, Bool, ◌&&◌, Option, none, some, List, [], ◌∷◌, map,
  contains, false, inl, inr, Option-cases, if◌then◌else◌,
}
use intereng_api.Base.Dict
use intereng_api.Base.Dict.{total-of_entries, has-of_entries}
use intereng_api.Base.Order.{All}
use intereng_api.Regulation.{StandingsRule}
use intereng_api.Standings.{
  StandingStats, CountedMatch, Table, empty_stats, sides, truthy, count_match, accumulate_from,
  accumulate,
}
use intereng_api.Standings.Conservation.{Measure, gain, sum_of, sum-count_match, has-count_match}

abbrev won : Measure
won = record {
  of = λ s. s.won;
  game = λ x y. 0;
  win = 1;
  loss = 0;
  draw = 0;
  of-add_game = λ x y s. omega arith;
  of-add_win = λ r s. omega arith;
  of-add_loss = λ r s. omega arith;
  of-add_draw = λ r s. omega arith;
  of-add_disciplinary = λ n s. refl;
  of-empty = refl;
}

abbrev lost : Measure
lost = record {
  of = λ s. s.lost;
  game = λ x y. 0;
  win = 0;
  loss = 1;
  draw = 0;
  of-add_game = λ x y s. omega arith;
  of-add_win = λ r s. omega arith;
  of-add_loss = λ r s. omega arith;
  of-add_draw = λ r s. omega arith;
  of-add_disciplinary = λ n s. refl;
  of-empty = refl;
}

abbrev score_for : Measure
score_for = record {
  of = λ s. s.score_for;
  game = λ x y. x;
  win = 0;
  loss = 0;
  draw = 0;
  of-add_game = λ x y s. omega arith;
  of-add_win = λ r s. omega arith;
  of-add_loss = λ r s. omega arith;
  of-add_draw = λ r s. omega arith;
  of-add_disciplinary = λ n s. refl;
  of-empty = refl;
}

abbrev score_against : Measure
score_against = record {
  of = λ s. s.score_against;
  game = λ x y. y;
  win = 0;
  loss = 0;
  draw = 0;
  of-add_game = λ x y s. omega arith;
  of-add_win = λ r s. omega arith;
  of-add_loss = λ r s. omega arith;
  of-add_draw = λ r s. omega arith;
  of-add_disciplinary = λ n s. refl;
  of-empty = refl;
}

abbrev played : Measure
played = record {
  of = λ s. s.played;
  game = λ x y. 1;
  win = 0;
  loss = 0;
  draw = 0;
  of-add_game = λ x y s. omega arith;
  of-add_win = λ r s. omega arith;
  of-add_loss = λ r s. omega arith;
  of-add_draw = λ r s. omega arith;
  of-add_disciplinary = λ n s. refl;
  of-empty = refl;
}

-- Whether both sides of a match are entries of the table.
abbrev pub is_counted : List String → CountedMatch → Bool
is_counted ids m = elim (truthy m.entry_a) [
  | none ↦ false
  | some a ↦ elim (truthy m.entry_b) [ none ↦ false | some b ↦ contains ids a && contains ids b ]
]

abbrev pub counted : List String → List CountedMatch → ℕ
counted ids [] = 0
counted ids (m ∷ ms) = (if is_counted ids m then 1 else 0) + counted ids ms

abbrev start : List String → Table
start ids = Dict.of_entries (map (λ id. (id, empty_stats)) ids)

fresh-zero :
    (μ : Measure) (ids : List String)
    → All (λ (e : String × StandingStats). μ.of e.1 ≡ 0) (map (λ id. (id, empty_stats)) ids)
fresh-zero μ [] = tt
fresh-zero μ (id ∷ ids) = (μ.of-empty, fresh-zero μ ids)

start-zero : (μ : Measure) (ids : List String) → sum_of μ.of (start ids) ≡ 0
start-zero μ ids = total-of_entries μ.of (map (λ id. (id, empty_stats)) ids) (fresh-zero μ ids)

module _ (rule : StandingsRule) where
  -- Two measures that every match raises alike.
  same-sum :
      (μ ν : Measure) (rows : Table) (ms : List CountedMatch)
      → ((p : Option (String × String)) (m : CountedMatch) → gain μ rule p m ≡ gain ν rule p m)
      → sum_of μ.of rows ≡ sum_of ν.of rows
      → sum_of μ.of (accumulate_from rule rows ms) ≡ sum_of ν.of (accumulate_from rule rows ms)
  unfolding accumulate_from
  same-sum μ ν rows [] h e = e
  same-sum μ ν rows (m ∷ ms) h e = same-sum μ ν (count_match rule rows m) ms h (
      omega
        (arith, sum-count_match μ rule rows m, sum-count_match ν rule rows m, h (sides rows m) m))

has-fresh :
    (j : String) (ids : List String)
    → Dict.has j (map (λ id. (id, empty_stats)) ids) ≡ contains ids j
unfolding Dict.has
has-fresh j [] = refl
has-fresh j (id ∷ ids) = ground (arith, has-fresh j ids)

module _ (rule : StandingsRule) (ids : List String) where
  abbrev Keyed : Table → Type 0
  Keyed rows = (j : String) → Dict.has j rows ≡ contains ids j

  played-gain :
      (rows : Table) (m : CountedMatch)
      → Keyed rows
      → gain played rule (sides rows m) m ≡ 2 * (if is_counted ids m then 1 else 0)
  unfolding sides
  played-gain rows m k = elim (Option-cases (truthy m.entry_a)) [
    | inl p ↦ ground arith
    | inr (a, p) ↦ elim (Option-cases (truthy m.entry_b)) [
      | inl q ↦ ground arith
      | inr (b, q) ↦ ground (arith, k a, k b)
    ]
  ]

  played-sum :
      (rows : Table) (ms : List CountedMatch)
      → Keyed rows
      → sum_of played.of (accumulate_from rule rows ms) ≡ sum_of played.of rows + 2 * counted ids ms
  unfolding accumulate_from
  played-sum rows [] k = omega arith
  played-sum rows (m ∷ ms) k = omega (
    arith,
    played-sum (count_match rule rows m) ms (λ j. has-count_match rule j rows m ∙ k j),
    sum-count_match played rule rows m,
    played-gain rows m k,
  )

  -- Over the rows of the table, the wins are as many as the losses, the points scored are those
  -- suffered, and the games are twice the matches that have both sides in the table.
  pub accumulate_conserves :
      (ms : List CountedMatch)
      → (sum_of (λ s. s.won) (accumulate ids ms rule)
          ≡ sum_of (λ s. s.lost) (accumulate ids ms rule))
        × (sum_of (λ s. s.score_for) (accumulate ids ms rule)
            ≡ sum_of (λ s. s.score_against) (accumulate ids ms rule))
        × (sum_of (λ s. s.played) (accumulate ids ms rule) ≡ 2 * counted ids ms)
  unfolding accumulate
  accumulate_conserves ms = (
    same-sum rule won lost (start ids) ms (λ p m. ground arith)
        (omega (arith, start-zero won ids, start-zero lost ids)),
    same-sum rule score_for score_against (start ids) ms (λ p m. ground arith)
        (omega (arith, start-zero score_for ids, start-zero score_against ids)),
    omega (
      arith,
      start-zero played ids,
      played-sum (start ids) ms (λ j. has-of_entries j _ ∙ has-fresh j ids),
    ),
  )
