-- ===== src/Register/Undo.antt =====
-- `undoEvent` after `registerEvent`.
use text.Mathlib.TextPositions.{eq_refl}
use intereng_api.Base.{
  ℕ, ◌+◌, ◌≤◌, ◌<◌, ◌≡◌, refl, ap, ◌∙◌, arith, String, Bool, true, false, Option, none, some, List,
  [], ◌∷◌, inl, inr, Bool-cases, Option-cases, ltb,
}
use intereng_api.Base.Order.{All}
use intereng_api.Regulation.{Regulation}
use intereng_api.Match.{
  Reply, Reply-cases, ok, Context, Scores, PeriodResult, Event, LiveMatch, SideLabel,
  assert_operator,
}
use intereng_api.Play.{
  Derived, derive_score, score_set, score_points, declarative_score, upsert_result, upsert_closed,
  EventPayload, ScorePatch, Named, named, points_of,
}
use intereng_api.Register.{
  new_event, store_event, register_event, find_active, latest_active, mark_undone, same_scores,
  without_period, before_period, is_sets, results_left, undo_event,
}

-- No event has a sequence above the last one.
abbrev pub Numbered : LiveMatch → Type 0
Numbered m = All (λ e. e.sequence ≤ m.last_sequence) m.events

-- Every stored result is of a period before the current one.
abbrev pub Past : LiveMatch → Type 0
Past m = All (λ p. p.period < m.scores.period) m.period_results

latest_active-bound :
    (es : List Event) (f : Event) (k : ℕ)
    → All (λ e. e.sequence ≤ k) es
    → latest_active es ≡ some f
    → f.sequence ≤ k
unfolding latest_active
latest_active-bound [] f k h p = cc
latest_active-bound (x ∷ es) f k h p = elim (Option-cases (latest_active es)) [
  | inl q ↦ ground (arith, h.0)
  | inr (g, q) ↦ ground (arith, h.0, latest_active-bound es g k h.1 q)
]

latest_active-first :
    (e : Event) (es : List Event) (k : ℕ)
    → All (λ f. f.sequence ≤ k) es
    → e.sequence ≡ k + 1
    → e.undone ≡ false
    → latest_active (e ∷ es) ≡ some e
unfolding latest_active
latest_active-first e es k h s u = elim (Option-cases (latest_active es)) [
  | inl p ↦ ground arith
  | inr (f, p) ↦ ground (arith, latest_active-bound es f k h p)
]

without-upsert :
    (p : PeriodResult) (ps : List PeriodResult)
    → All (λ q. q.period < p.period) ps
    → without_period p.period (upsert_result p ps) ≡ ps
unfolding without_period upsert_result
without-upsert p [] h = ground arith
without-upsert p (q ∷ ps) h = ground (arith, h.0, without-upsert p ps h.1)

before-same :
    (k : ℕ) (ps : List PeriodResult) → All (λ q. q.period < k) ps → before_period k ps ≡ ps
unfolding before_period
before-same k [] h = refl
before-same k (q ∷ ps) h = ground (arith, h.0, before-same k ps h.1)

-- What a score derived from an event closes.
pub record Closing (s : Scores) (d : Derived) : Type 0 where
  pub result_period : (p : PeriodResult) → d.closed ≡ some p → p.period ≡ s.period
  pub raises :
      (p : PeriodResult)
      → d.closed ≡ some p
      → s.score_a + s.score_b < d.after.score_a + d.after.score_b

derive_score-Closing :
    (r : Regulation) (declarative : Bool) (side : SideLabel) (points : ℕ) (s : Scores) (d : Derived)
    → derive_score r declarative side points s ≡ ok d
    → Closing s d
unfolding derive_score score_set score_points declarative_score
derive_score-Closing r declarative side points s d h = record {
  result_period = λ p e. ground arith;
  raises = λ p e. ground arith;
}

closes_sets_only :
    (r : Regulation) (declarative : Bool) (side : SideLabel) (points : ℕ) (s : Scores) (d : Derived)
    → derive_score r declarative side points s ≡ ok d
    → is_sets r.completion ≡ false
    → d.closed ≡ none
unfolding derive_score score_set score_points declarative_score
closes_sets_only r declarative side points s d h f = ground arith

keeps_open :
    (r : Regulation) (declarative : Bool) (side : SideLabel) (points : ℕ) (s : Scores) (d : Derived)
    → derive_score r declarative side points s ≡ ok d
    → is_sets r.completion ≡ true
    → d.closed ≡ none
    → d.after.score_a + d.after.score_b ≡ s.score_a + s.score_b
unfolding derive_score score_set score_points declarative_score
keeps_open r declarative side points s d h f e = ground arith

-- The results go back to those from before the event.
results-back :
    (r : Regulation) (e : Event) (declarative : Bool) (s : Scores) (d : Derived)
    (ps : List PeriodResult)
    → derive_score r declarative e.side e.points s ≡ ok d
    → e.previous ≡ s
    → e.score_a ≡ d.after.score_a
    → e.score_b ≡ d.after.score_b
    → All (λ p. p.period < s.period) ps
    → results_left r e (upsert_closed d.closed ps) ≡ ps
unfolding results_left
results-back r e declarative s d ps h p a b past = elim (Bool-cases (is_sets r.completion)) [
  | inl i ↦ elim (Option-cases d.closed) [
    | inl o ↦
        let level = keeps_open r declarative e.side e.points s d h i o in
        let closed_none : upsert_closed d.closed ps ≡ ps = rw o refl in
        rw closed_none (ground arith)
    | inr (q, o) ↦
        let closing = derive_score-Closing r declarative e.side e.points s d h in
        let same = closing.result_period q o in
        let more = closing.raises q o in
        let stored : upsert_closed d.closed ps ≡ upsert_result q ps = rw o refl in
        let gone : without_period q.period (upsert_result q ps) ≡ ps =
          without-upsert q ps (rw same past) in
        let rose : ltb (e.previous.score_a + e.previous.score_b) (e.score_a + e.score_b) ≡ true =
          ground arith in
        let at : e.previous.period ≡ q.period = ground arith in
        rw (stored, i, results_left, rose, at) gone
  ]
  | inr i ↦
      let open_still = closes_sets_only r declarative e.side e.points s d h i in
      let stored : upsert_closed d.closed ps ≡ ps = rw open_still refl in
      rw (stored, i, results_left, p) (before-same s.period ps past)
]

pair_of {ℓ κ} :
    {A : Type ℓ} {B : Type κ} {a b : A} {c d : B} → a ≡ b → c ≡ d → ◌≡◌ {A = A × B} (a, c) (b, d)
pair_of p q = rw (p, q) refl

undo_event_ok :
    (r : Regulation) (d : Context) (id : String) (restore : Scores) (m : LiveMatch) (x : Event)
    → assert_operator m d ≡ ok tt
    → find_active id m.events ≡ some x
    → latest_active m.events ≡ some x
    → same_scores restore x.previous ≡ true
    → undo_event r d id restore m
      ≡ ok (record m {
        scores = x.previous;
        period_results = results_left r x m.period_results;
        events = mark_undone id m.events;
      })
unfolding undo_event
undo_event_ok r d id restore m x o f l s = ground (arith, eq_refl x.id)

module _ (norm : String → String) (elsewhere : String → Bool) (r : Regulation) (c : Context)
    (e : EventPayload) (patch : ScorePatch) (period_result : Option PeriodResult)
    (athlete : Reply (Option String)) (m : LiveMatch) where
  abbrev pub rules : Named
  rules = named norm r e.kind

  pub registered :
      (n : LiveMatch)
      → register_event norm elsewhere r c e patch period_result athlete m ≡ ok n
      → (who : Option String) × (d : Derived) × (derive_score r rules.declarative e.side
            (points_of rules)
            m.scores
          ≡ ok d)
        × (n ≡ store_event (new_event rules e who d m) d m)
  unfolding register_event
  registered n h =
      elim (Reply-cases (derive_score r rules.declarative e.side (points_of rules) m.scores)) [
        | inr (x, p) ↦ ground arith
        | inl (d, p) ↦ elim (Reply-cases athlete) [
          | inr (x, q) ↦ ground arith
          | inl (who, q) ↦ (who, d, p, ground arith)
        ]
      ]

  undone_again :
      (d : Context) (who : Option String) (f : Derived)
      → derive_score r rules.declarative e.side (points_of rules) m.scores ≡ ok f
      → assert_operator (store_event (new_event rules e who f m) f m) d ≡ ok tt
      → Numbered m
      → Past m
      → undo_event r d e.id m.scores (store_event (new_event rules e who f m) f m)
        ≡ ok (record m {
          last_sequence = m.last_sequence + 1;
          events = record (new_event rules e who f m) { undone = true } ∷ m.events;
        })
  unfolding undo_event new_event store_event find_active mark_undone
  undone_again d who f derived o numbered past =
      let x = new_event rules e who f m in
      let latest = latest_active-first x m.events m.last_sequence numbered refl refl in
      let back =
        results-back r x rules.declarative m.scores f m.period_results derived refl refl refl
          past in
      let itself = eq_refl e.id in
      let same : same_scores m.scores m.scores ≡ true = ground arith in
      let n = store_event x f m in
      let found : find_active e.id n.events ≡ some x = rw (itself, find_active) refl in
      let marked : mark_undone e.id n.events ≡ record x { undone = true } ∷ m.events =
        rw (itself, mark_undone) refl in
      undo_event_ok r d e.id m.scores n x o found latest same
      ∙ ap
          (λ p.
            ok (record m {
              last_sequence = m.last_sequence + 1;
              period_results = p.0;
              events = p.1;
            }))
          (pair_of back marked)

  -- An event that was registered and is then undone, by an operator who gives back the score from before
  -- it, leaves the match as it was, but for the sequence that was used and the event, which stays, undone.
  -- The sequences of the match are not above its last one, and its stored results are of past periods.
  pub undo_event-register_event :
      (n : LiveMatch) (d : Context)
      → register_event norm elsewhere r c e patch period_result athlete m ≡ ok n
      → assert_operator n d ≡ ok tt
      → Numbered m
      → Past m
      → (x : Event) × (x.undone ≡ true)
        × (undo_event r d e.id m.scores n
            ≡ ok (record m { last_sequence = m.last_sequence + 1; events = x ∷ m.events }))
  unfolding undo_event new_event store_event find_active mark_undone
  undo_event-register_event n d h o numbered past =
      let (who, f, derived, made) = registered n h in
      (
        record (new_event rules e who f m) { undone = true },
        refl,
        rw made (undone_again d who f derived (rw (← made) o) numbered past),
      )
