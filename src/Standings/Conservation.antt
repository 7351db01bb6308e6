-- ===== src/Standings/Conservation.antt =====
-- What the rows of the table of `accumulate` add up to over all entries.
use intereng_api.Base.{
  ℕ, ◌+◌, ◌≡◌, refl, ◌∙◌, arith, String, true, ◌||◌, Option, none, some, List, [], ◌∷◌,
  if◌then◌else◌, Option-cases, Bool-cases, inl, inr,
}
use intereng_api.Base.Dict
use intereng_api.Base.Dict.{has-modify, total-modify, total-modify_same, total-of_entries}
use intereng_api.Regulation.{StandingsRule}
use intereng_api.Standings.{
  StandingStats, CountedMatch, CountedEvent, Table, empty_stats, add_game, add_win, add_loss,
  add_draw, add_disciplinary, is_entry, fair_play_of, truthy, sides, count_games, count_events,
  count_outcome, count_match,
}

-- The sum of a number of every row.
abbrev pub sum_of : (StandingStats → ℕ) → Table → ℕ
sum_of f rows = Dict.total f rows

-- A number of a row, and what each write of the loop adds to it.
pub record Measure : Type 0 where
  pub of : StandingStats → ℕ
  pub game : ℕ → ℕ → ℕ
  pub win : ℕ
  pub loss : ℕ
  pub draw : ℕ
  pub of-add_game : (x y : ℕ) (s : StandingStats) → of (add_game x y s) ≡ of s + game x y
  pub of-add_win : (r : StandingsRule) (s : StandingStats) → of (add_win r s) ≡ of s + win
  pub of-add_loss : (r : StandingsRule) (s : StandingStats) → of (add_loss r s) ≡ of s + loss
  pub of-add_draw : (r : StandingsRule) (s : StandingStats) → of (add_draw r s) ≡ of s + draw
  pub of-add_disciplinary : (n : ℕ) (s : StandingStats) → of (add_disciplinary n s) ≡ of s
  pub of-empty : of empty_stats ≡ 0

has-count_games :
    (a b j : String) (m : CountedMatch) (d : Table)
    → Dict.has j (count_games a b m d) ≡ Dict.has j d
unfolding count_games
has-count_games a b j m d = rw (has-modify, has-modify)

has-count_events :
    (es : List CountedEvent) (j : String) (d : Table)
    → Dict.has j (count_events es d) ≡ Dict.has j d
unfolding count_events
has-count_events [] j d = refl
has-count_events (e ∷ es) j d = elim (Option-cases (truthy e.entry_id)) [
  | inl p ↦ rw p (has-count_events es j d)
  | inr (id, p) ↦ rw p (has-count_events es j _ ∙ has-modify id j _ d)
]

has-count_outcome :
    (rule : StandingsRule) (a b j : String) (winner : Option String) (d : Table)
    → Dict.has j (count_outcome rule a b winner d) ≡ Dict.has j d
unfolding count_outcome
has-count_outcome rule a b j winner d = elim (Bool-cases (is_entry winner a)) [
  | inl p ↦ rw (p, has-modify, has-modify)
  | inr p ↦ elim (Bool-cases (is_entry winner b)) [
    | inl q ↦ rw (p, q, has-modify, has-modify)
    | inr q ↦ rw (p, q, has-modify, has-modify)
  ]
]

-- A round of the loop makes and removes no rows.
pub has-count_match :
    (rule : StandingsRule) (j : String) (rows : Table) (m : CountedMatch)
    → Dict.has j (count_match rule rows m) ≡ Dict.has j rows
unfolding count_match
has-count_match rule j rows m = elim (Option-cases (sides rows m)) [
  | inl p ↦ rw (p, count_match)
  | inr ((a, b), p) ↦ rw (p, count_match, has-count_outcome, has-count_events, has-count_games)
]

pub sides-has :
    (rows : Table) (m : CountedMatch) {a b : String}
    → sides rows m ≡ some (a, b)
    → (Dict.has a rows ≡ true) × (Dict.has b rows ≡ true)
unfolding sides
sides-has rows m h = ground arith

module _ (μ : Measure) (rule : StandingsRule) where
  abbrev pub sum : Table → ℕ
  sum = sum_of μ.of

  sum-count_games :
      (a b : String) (m : CountedMatch) (d : Table)
      → Dict.has a d ≡ true
      → Dict.has b d ≡ true
      → sum (count_games a b m d)
        ≡ sum d + (μ.game m.score_a m.score_b + μ.game m.score_b m.score_a)
  unfolding count_games
  sum-count_games a b m d ha hb =
      let mid = Dict.modify a (add_game m.score_a m.score_b) d in
      omega (
        arith,
        total-modify μ.of a (add_game m.score_a m.score_b) (μ.game m.score_a m.score_b) d
            (μ.of-add_game m.score_a m.score_b) ha,
        total-modify μ.of b (add_game m.score_b m.score_a) (μ.game m.score_b m.score_a) mid
            (μ.of-add_game m.score_b m.score_a) (has-modify a b _ d ∙ hb),
      )

  sum-count_events : (es : List CountedEvent) (d : Table) → sum (count_events es d) ≡ sum d
  unfolding count_events
  sum-count_events [] d = refl
  sum-count_events (e ∷ es) d = elim (Option-cases (truthy e.entry_id)) [
    | inl p ↦ rw p (sum-count_events es d)
    | inr (id, p) ↦ rw p (
        sum-count_events es _
        ∙ total-modify_same μ.of id (add_disciplinary (fair_play_of e.fair_play_points)) d
            (μ.of-add_disciplinary (fair_play_of e.fair_play_points)))
  ]

  -- What an outcome adds.
  abbrev pub outcome_gain : String → String → Option String → ℕ
  outcome_gain a b winner =
      if is_entry winner a || is_entry winner b then μ.win + μ.loss else μ.draw + μ.draw

  sum-count_outcome :
      (a b : String) (winner : Option String) (d : Table)
      → Dict.has a d ≡ true
      → Dict.has b d ≡ true
      → sum (count_outcome rule a b winner d) ≡ sum d + outcome_gain a b winner
  unfolding count_outcome
  sum-count_outcome a b winner d ha hb =
      let won_a = Dict.modify a (add_win rule) d in
      let won_b = Dict.modify b (add_win rule) d in
      let drawn_a = Dict.modify a (add_draw rule) d in
      ground (
        arith,
        total-modify μ.of a (add_win rule) μ.win d (μ.of-add_win rule) ha,
        total-modify μ.of b (add_win rule) μ.win d (μ.of-add_win rule) hb,
        total-modify μ.of a (add_draw rule) μ.draw d (μ.of-add_draw rule) ha,
        total-modify μ.of b (add_loss rule) μ.loss won_a (μ.of-add_loss rule)
            (has-modify a b _ d ∙ hb),
        total-modify μ.of a (add_loss rule) μ.loss won_b (μ.of-add_loss rule)
            (has-modify b a _ d ∙ ha),
        total-modify μ.of b (add_draw rule) μ.draw drawn_a (μ.of-add_draw rule)
            (has-modify a b _ d ∙ hb),
      )

  -- What a match between the given sides adds.
  abbrev pub gain : Option (String × String) → CountedMatch → ℕ
  gain none m = 0
  gain (some (a, b)) m =
      μ.game m.score_a m.score_b + μ.game m.score_b m.score_a + outcome_gain a b m.winner

  pub sum-count_match :
      (rows : Table) (m : CountedMatch)
      → sum (count_match rule rows m) ≡ sum rows + gain (sides rows m) m
  unfolding count_match
  sum-count_match rows m = elim (Option-cases (sides rows m)) [
    | inl p ↦ rw (p, count_match) (omega arith)
    | inr ((a, b), p) ↦
        let (ha, hb) = sides-has rows m p in
        let games = count_games a b m rows in
        let kept = count_events m.events games in
        rw (p, count_match)
          (omega (
            arith,
            sum-count_games a b m rows ha hb,
            sum-count_events m.events games,
            sum-count_outcome a b m.winner kept
                (has-count_events m.events a games ∙ has-count_games a b a m rows ∙ ha)
                (has-count_events m.events b games ∙ has-count_games a b b m rows ∙ hb),
          ))
  ]
