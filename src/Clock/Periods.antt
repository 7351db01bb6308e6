-- ===== src/Clock/Periods.antt =====
-- What `updateClock` does to the score and the periods.
use intereng_api.Base.{◌+◌, ◌≤◌, ◌≡◌, ◌⊎◌, refl, arith, false, Option, inl, inr, Option-cases}
use intereng_api.Regulation.{Regulation}
use intereng_api.Match.{Reply-cases, ok, Context, PeriodResult, LiveMatch}
use intereng_api.Play.{upsert_result}
use intereng_api.Register.{is_sets}
use intereng_api.Clock.{ClockPatch, period_left, set_clock, update_clock, maximum_period}

-- The period stays, with its score and the stored results.
pub record Stays (m n : LiveMatch) : Type 0 where
  pub same_scores : n.scores ≡ m.scores
  pub same_results : n.period_results ≡ m.period_results

-- The period moves on by one, within the regulation, and its score is stored.
pub record Advances (r : Regulation) (m n : LiveMatch) : Type 0 where
  pub not_by_sets : is_sets r.completion ≡ false
  pub next_period : n.scores.period ≡ m.scores.period + 1
  pub within_rules : n.scores.period ≤ maximum_period r
  pub same_home : n.scores.score_a ≡ m.scores.score_a
  pub same_away : n.scores.score_b ≡ m.scores.score_b
  pub home_reset : n.scores.period_a ≡ 0
  pub away_reset : n.scores.period_b ≡ 0
  pub stored :
      n.period_results
      ≡ upsert_result
          (record {
            period = m.scores.period;
            score_a = m.scores.period_a;
            score_b = m.scores.period_b;
          })
          m.period_results

updated :
    (r : Regulation) (c : Context) (p : ClockPatch) (m n : LiveMatch)
    → update_clock r c p m ≡ ok n
    → (left : Option PeriodResult) × (period_left r p m ≡ ok left) × (n ≡ set_clock r p left m)
unfolding update_clock
updated r c p m n h = elim (Reply-cases (period_left r p m)) [
  | inr (e, q) ↦ ground arith
  | inl (left, q) ↦ (left, q, ground arith)
]

-- A clock update that is accepted never changes the score of the match. Either the period stays, with
-- its score and the stored results, or it moves on by one, which happens only outside the disciplines by
-- sets and within the periods and overtimes of the regulation; then the score of the period that was left
-- is stored, and the next one begins at 0 × 0.
pub update_clock_lem :
    (r : Regulation) (c : Context) (p : ClockPatch) (m n : LiveMatch)
    → update_clock r c p m ≡ ok n
    → Stays m n ⊎ Advances r m n
unfolding set_clock period_left
update_clock_lem r c p m n h =
    let (left, q, made) = updated r c p m n h in
    elim (Option-cases left) [
      | inl e ↦ inl (record { same_scores = rw (made, e) refl; same_results = rw (made, e) refl })
      | inr (x, e) ↦
          let result : x ≡ record {
            period = m.scores.period;
            score_a = m.scores.period_a;
            score_b = m.scores.period_b;
          } =
            ground arith in
          inr (record {
            not_by_sets = ground arith;
            next_period = rw (made, e) refl;
            within_rules = rw (made, e) (ground arith);
            same_home = rw (made, e) refl;
            same_away = rw (made, e) refl;
            home_reset = rw (made, e) refl;
            away_reset = rw (made, e) refl;
            stored = rw (made, e, result) refl;
          })
    ]
