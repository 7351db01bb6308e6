-- ===== src/Register/Sets.antt =====
-- A match by sets: its score through events and their undoing.
use intereng_api.Base.{
  ℕ, ◌+◌, ◌*◌, ◌≤◌, ◌<◌, ◌≡◌, arith, String, Bool, not, ◌&&◌, ◌||◌, Option, some, List, [], ◌∷◌,
  ◌===◌, inl, inr, Bool-cases, Option-cases, leb, if◌then◌else◌, sym,
}
use mathlib.Core.Path.{subst}
use intereng_api.Base.Order.{All}
use intereng_api.Regulation.{Regulation, SetsRule, sets}
use intereng_api.Match.{Reply, ok, Context, Scores, PeriodResult, Event, LiveMatch, SideLabel}
use intereng_api.Play.{
  Derived, derive_score, score_set, declarative_score, EventPayload, ScorePatch,
}
use intereng_api.Register.{
  new_event, store_event, register_event, find_active, mark_undone, undo_event,
}
use intereng_api.Register.Undo.{registered}

-- One side has won the sets that the match takes.
abbrev pub is_over : ℕ → Scores → Bool
is_over k s = leb k s.score_a || leb k s.score_b

-- A score of a match that is won by `k` sets: no side has more than `k`, at most one has `k`, and the
-- period is the number of the set that is played, or of the last one where the match is over.
pub record SetsValid (k : ℕ) (s : Scores) : Type 0 where
  pub home_most : s.score_a ≤ k
  pub away_most : s.score_b ≤ k
  pub one_winner : s.score_a + s.score_b < 2 * k
  pub counted : s.period ≡ s.score_a + s.score_b + (if is_over k s then 0 else 1)

derive_score-SetsValid :
    (r : Regulation) (rule : SetsRule) (declarative : Bool) (side : SideLabel) (points : ℕ)
    (s : Scores) (d : Derived)
    → r.completion ≡ sets rule
    → derive_score r declarative side points s ≡ ok d
    → SetsValid rule.sets_to_win s
    → SetsValid rule.sets_to_win d.after
unfolding derive_score score_set declarative_score
derive_score-SetsValid r rule declarative side points s d e h v = record {
  home_most = ground (arith, v.home_most);
  away_most = ground (arith, v.away_most);
  one_winner = ground (arith, v.home_most, v.away_most, v.one_winner);
  counted = ground (arith, v.counted);
}

-- The score of the match and those that its events would restore.
abbrev pub MatchValid : ℕ → LiveMatch → Type 0
MatchValid k m = SetsValid k m.scores × All (λ e. SetsValid k e.previous) m.events

find_active-All :
    (P : Event → Type 0) (id : String) (es : List Event) (e : Event)
    → All P es
    → find_active id es ≡ some e
    → P e
unfolding find_active
find_active-All P id [] e h f = cc
find_active-All P id (x ∷ es) e h f = elim (Bool-cases (x.id === id && not x.undone)) [
  | inl q ↦ let same : x ≡ e = ground arith in subst P same h.0
  | inr q ↦ find_active-All P id es e h.1 (ground arith)
]

mark_undone-All :
    (k : ℕ) (id : String) (es : List Event)
    → All (λ e. SetsValid k e.previous) es
    → All (λ e. SetsValid k e.previous) (mark_undone id es)
unfolding mark_undone
mark_undone-All k id [] h = tt
mark_undone-All k id (x ∷ es) h = elim (Bool-cases (x.id === id)) [
  | inl q ↦ rw q h
  | inr q ↦ rw q (h.0, mark_undone-All k id es h.1)
]

undone :
    (r : Regulation) (c : Context) (id : String) (restore : Scores) (m n : LiveMatch)
    → undo_event r c id restore m ≡ ok n
    → (e : Event) × (find_active id m.events ≡ some e)
      × (n.scores ≡ e.previous)
      × (n.events ≡ mark_undone id m.events)
unfolding undo_event
undone r c id restore m n h = elim (Option-cases (find_active id m.events)) [
  | inl p ↦ ground arith
  | inr (e, p) ↦ (e, p, ground arith, ground arith)
]

module _ (norm : String → String) (elsewhere : String → Bool) (r : Regulation) (rule : SetsRule)
    (by_sets : r.completion ≡ sets rule) (c : Context) (m n : LiveMatch) where
  -- In a discipline by sets, an event that is registered keeps the score valid: the sets won stay within
  -- those that the match takes, one side at most reaches them, and the period counts the sets.
  pub register_event-MatchValid :
      (e : EventPayload) (patch : ScorePatch) (period_result : Option PeriodResult)
      (athlete : Reply (Option String))
      → register_event norm elsewhere r c e patch period_result athlete m ≡ ok n
      → MatchValid rule.sets_to_win m
      → MatchValid rule.sets_to_win n
  unfolding new_event store_event
  register_event-MatchValid e patch period_result athlete h v =
      let (who, d, derived, made) =
        registered norm elsewhere r c e patch period_result athlete m n h in
      rw made (derive_score-SetsValid r rule _ e.side _ m.scores d by_sets derived v.0, v)

  -- So does an event that is undone.
  pub undo_event-MatchValid :
      (id : String) (restore : Scores)
      → undo_event r c id restore m ≡ ok n
      → MatchValid rule.sets_to_win m
      → MatchValid rule.sets_to_win n
  undo_event-MatchValid id restore h v =
      let (e, found, scores, events) = undone r c id restore m n h in
      let k = rule.sets_to_win in
      (
        subst (SetsValid k) (sym scores)
            (find_active-All (λ x. SetsValid k x.previous) id m.events e v.1 found),
        subst (λ es. All (λ x. SetsValid k x.previous) es) (sym events)
            (mark_undone-All k id m.events v.1),
      )
