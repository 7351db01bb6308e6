-- ===== src/Standings/Tally.antt =====
-- What every row of the table of `accumulate` satisfies.
use mathlib.Core.Option
use mathlib.Core.Path.{subst}
use text.Mathlib.TextPositions.{eq_refl}
use intereng_api.Base.{
  ℕ, suc, ◌+◌, ◌≡◌, refl, sym, ◌∙◌, arith, String, false, Option, none, some, List, [], ◌∷◌, map,
  eq_iff, ◌===◌, if◌then◌else◌, Option-cases, Bool-cases, inl, inr,
}
use intereng_api.Base.Int.{times, times-add_one, ◌+ℤ◌, int_laws}
use intereng_api.Base.Dict
use intereng_api.Base.Dict.{get-modify, Values-of_entries}
use intereng_api.Base.Order.{All}
use intereng_api.Regulation.{StandingsRule}
use intereng_api.Standings.{
  StandingStats, CountedMatch, CountedEvent, Table, empty_stats, add_game, add_win, add_loss,
  add_draw, add_disciplinary, is_entry, fair_play_of, truthy, sides, count_games, count_events,
  count_outcome, count_match, accumulate_from, accumulate,
}

-- `k` of the games of the row have no outcome yet; the points are what the rule pays for the rest.
record Pending (rule : StandingsRule) (k : ℕ) (s : StandingStats) : Type 0 where
  games : s.played ≡ s.won + s.drawn + s.lost + k
  paid : s.points ≡ times s.won rule.win +ℤ times s.drawn rule.draw +ℤ times s.lost rule.loss

-- A row adds up: the games are the wins, draws and losses, and the points are what the rule pays.
pub record AddsUp (rule : StandingsRule) (s : StandingStats) : Type 0 where
  pub games : s.played ≡ s.won + s.drawn + s.lost
  pub paid : s.points ≡ times s.won rule.win +ℤ times s.drawn rule.draw +ℤ times s.lost rule.loss

abbrev owed : String → String → ℕ
owed k j = if k === j then 1 else 0

owed_self : (k : String) → owed k k ≡ 1
owed_self k = rw (eq_refl k)

settled :
    (k : String) (n : ℕ) (s : StandingStats)
    → s.played ≡ s.won + s.drawn + s.lost + (owed k k + n)
    → s.played ≡ s.won + s.drawn + s.lost + suc n
settled k n s h = rw (owed_self k) at h ∙ omega arith

map-eq-some :
    {f : StandingStats → StandingStats} {s : StandingStats} (o : Option StandingStats)
    → Option.map f o ≡ some s
    → (v : StandingStats) × (o ≡ some v) × (f v ≡ s)
map-eq-some none h = cc
map-eq-some (some v) h = (v, refl, cc)

module _ (rule : StandingsRule) where
  abbrev Rows : (String → ℕ) → Table → Type 0
  Rows f d = (j : String) (s : StandingStats) → Dict.get j d ≡ some s → Pending rule (f j) s

  modify-Rows :
      (f f' : String → ℕ) (k : String) (g : StandingStats → StandingStats) (d : Table)
      → ((s : StandingStats) → Pending rule (f k) s → Pending rule (f' k) (g s))
      → ((j : String) → (k === j) ≡ false → f' j ≡ f j)
      → Rows f d
      → Rows f' (Dict.modify k g d)
  modify-Rows f f' k g d step same h j s e = elim (Bool-cases (k === j)) [
    | inl p ↦
        let here : k ≡ j = (eq_iff k j).0 p in
        let (v, found, e') =
          map-eq-some {f = g} (Dict.get j d) (ground (arith, get-modify k j g d)) in
        subst (λ i. Pending rule (f' i) s) here
          (subst (Pending rule (f' k)) e'
            (step v (subst (λ i. Pending rule (f i) v) (sym here) (h j v found))))
    | inr p ↦ rw (same j p) (h j s (ground (arith, get-modify k j g d)))
  ]

  add_win-Pending :
      (k : ℕ) (s : StandingStats) → Pending rule (suc k) s → Pending rule k (add_win rule s)
  add_win-Pending k s h = record {
    games = omega (arith, h.games);
    paid = rw (times-add_one s.won rule.win, h.paid) (omega int_laws);
  }

  add_draw-Pending :
      (k : ℕ) (s : StandingStats) → Pending rule (suc k) s → Pending rule k (add_draw rule s)
  add_draw-Pending k s h = record {
    games = omega (arith, h.games);
    paid = rw (times-add_one s.drawn rule.draw, h.paid) (omega int_laws);
  }

  add_loss-Pending :
      (k : ℕ) (s : StandingStats) → Pending rule (suc k) s → Pending rule k (add_loss rule s)
  add_loss-Pending k s h = record {
    games = omega (arith, h.games);
    paid = rw (times-add_one s.lost rule.loss, h.paid) (omega int_laws);
  }

  -- A game is owed to the row of `k`, and an outcome settles it.
  owe-Rows :
      (k : String) (f : String → ℕ) (mine theirs : ℕ) (d : Table)
      → Rows f d
      → Rows (λ j. owed k j + f j) (Dict.modify k (add_game mine theirs) d)
  owe-Rows k f mine theirs d =
      modify-Rows f (λ j. owed k j + f j) k (add_game mine theirs) d
        (λ s h. record { games = rw (owed_self k) (omega (arith, h.games)); paid = h.paid })
        (λ j p. ground arith)

  settle-Rows :
      (k : String) (f : String → ℕ) (g : StandingStats → StandingStats) (d : Table)
      → ((n : ℕ) (s : StandingStats) → Pending rule (suc n) s → Pending rule n (g s))
      → Rows (λ j. owed k j + f j) d
      → Rows f (Dict.modify k g d)
  settle-Rows k f g d step =
      modify-Rows (λ j. owed k j + f j) f k g d
        (λ s h. step (f k) s (record { games = settled k (f k) s h.games; paid = h.paid }))
        (λ j p. ground arith)

  events-Rows :
      (f : String → ℕ) (es : List CountedEvent) (d : Table) → Rows f d → Rows f (count_events es d)
  unfolding count_events
  events-Rows f [] d h = h
  events-Rows f (e ∷ es) d h = elim (Option-cases (truthy e.entry_id)) [
    | inl p ↦ rw p (events-Rows f es d h)
    | inr (id, p) ↦ rw p (
        events-Rows f es _ (
          modify-Rows f f id (add_disciplinary (fair_play_of e.fair_play_points)) d
            (λ s r. record { games = r.games; paid = r.paid }) (λ j q. refl) h))
  ]

  abbrev Settled : Table → Type 0
  Settled = Rows (λ j. 0)

  outcome-Rows :
      (a b : String) (winner : Option String) (d : Table)
      → Rows (λ j. owed b j + (owed a j + 0)) d
      → Settled (count_outcome rule a b winner d)
  unfolding count_outcome
  outcome-Rows a b winner d h =
      let swapped : Rows (λ j. owed a j + (owed b j + 0)) d =
        λ j s e. subst (λ n. Pending rule n s) (omega arith) (h j s e) in
      elim (Bool-cases (is_entry winner a)) [
        | inl p ↦ rw p (
            settle-Rows b (λ j. 0) (add_loss rule) _ add_loss-Pending
              (settle-Rows a (λ j. owed b j + 0) (add_win rule) d add_win-Pending swapped))
        | inr p ↦ rw p (elim (Bool-cases (is_entry winner b)) [
          | inl q ↦ rw q (
              settle-Rows a (λ j. 0) (add_loss rule) _ add_loss-Pending
                (settle-Rows b (λ j. owed a j + 0) (add_win rule) d add_win-Pending h))
          | inr q ↦ rw q (
              settle-Rows b (λ j. 0) (add_draw rule) _ add_draw-Pending
                (settle-Rows a (λ j. owed b j + 0) (add_draw rule) d add_draw-Pending swapped))
        ])
      ]

  count_match-Settled :
      (rows : Table) (m : CountedMatch) → Settled rows → Settled (count_match rule rows m)
  unfolding count_match count_games
  count_match-Settled rows m h = elim (Option-cases (sides rows m)) [
    | inl p ↦ rw (p, count_match) h
    | inr ((a, b), p) ↦
        rw (p, count_match)
          (outcome-Rows a b m.winner _ (
            events-Rows _ m.events _ (
              owe-Rows b _ m.score_b m.score_a _ (owe-Rows a (λ j. 0) m.score_a m.score_b rows h))))
  ]

  accumulate_from-Settled :
      (rows : Table) (ms : List CountedMatch)
      → Settled rows
      → Settled (accumulate_from rule rows ms)
  unfolding accumulate_from
  accumulate_from-Settled rows [] h = h
  accumulate_from-Settled rows (m ∷ ms) h =
      accumulate_from-Settled (count_match rule rows m) ms (count_match-Settled rows m h)

fresh_entries :
    (rule : StandingsRule) (ids : List String)
    → All (λ (e : String × StandingStats). Pending rule 0 e.1) (map (λ id. (id, empty_stats)) ids)
fresh_entries rule [] = tt
fresh_entries rule (id ∷ ids) =
    (record { games = refl; paid = unfold times ◌+ℤ◌ in refl }, fresh_entries rule ids)

-- Whatever the matches, in every row of the table the games are the wins, draws and losses together,
-- and the points are what the rule of the discipline pays for them.
pub accumulate-AddsUp :
    (ids : List String) (ms : List CountedMatch) (rule : StandingsRule) (id : String)
    (s : StandingStats)
    → Dict.get id (accumulate ids ms rule) ≡ some s
    → AddsUp rule s
unfolding accumulate
accumulate-AddsUp ids ms rule id s e =
    let fresh =
      Values-of_entries (Pending rule 0) (map (λ i. (i, empty_stats)) ids)
        (fresh_entries rule ids) in
    let h = accumulate_from-Settled rule _ ms fresh id s e in
    record { games = omega (arith, h.games); paid = h.paid }
