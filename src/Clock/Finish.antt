-- ===== src/Clock/Finish.antt =====
-- Who wins a match that `finish` closes.
use intereng_api.Base.{
  ◌<◌, ◌≡◌, ◌⊎◌, refl, arith, String, Bool, true, false, not, ◌||◌, Option, none, some, inl, inr,
}
use intereng_api.Regulation.{Regulation}
use intereng_api.Status.{finished}
use intereng_api.Match.{Reply, Reply-cases, ok, Context, LiveMatch}
use intereng_api.Clock.{FinishPatch, decide_winner, close_match, finish, ends_early, draw_allowed}

-- The outcome of a closed match: the side with more points wins; a draw has no winner where draws are
-- allowed, and the winner of the tiebreak in a knockout or where they are not.
pub record Outcome (r : Regulation) (is_knockout : Bool) (tiebreak : Reply String) (m n : LiveMatch)
    : Type 0 where
  pub closed : n.status ≡ finished
  pub same_scores : n.scores ≡ m.scores
  pub home_wins : m.scores.score_b < m.scores.score_a → n.winner ≡ m.entry_a
  pub away_wins : m.scores.score_a < m.scores.score_b → n.winner ≡ m.entry_b
  pub drawn :
      m.scores.score_a ≡ m.scores.score_b
      → is_knockout ≡ false
      → draw_allowed r.completion ≡ true
      → n.winner ≡ none
  pub broken :
      m.scores.score_a ≡ m.scores.score_b
      → (is_knockout || not (draw_allowed r.completion)) ≡ true
      → (w : String) × (tiebreak ≡ ok w) × (n.winner ≡ some w)

closed_by :
    (r : Regulation) (k : Bool) (c : Context) (reason : Bool) (tiebreak : Reply String)
    (p : FinishPatch) (m n : LiveMatch)
    → finish r k c reason tiebreak p m ≡ ok n
    → (winner : Option String) × (decide_winner r k tiebreak m ≡ ok winner)
      × (n ≡ close_match r p winner m)
unfolding finish
closed_by r k c reason tiebreak p m n h = elim (Reply-cases (decide_winner r k tiebreak m)) [
  | inr (e, q) ↦ ground arith
  | inl (w, q) ↦ (w, q, ground arith)
]

-- A match that is closed keeps its score, and its winner is the one that the score, or else the tiebreak,
-- says; and it is closed before the end that the regulation sets only where a reason is given.
pub finish_lem :
    (r : Regulation) (k : Bool) (c : Context) (reason : Bool) (tiebreak : Reply String)
    (p : FinishPatch) (m n : LiveMatch)
    → finish r k c reason tiebreak p m ≡ ok n
    → Outcome r k tiebreak m n × ((ends_early r m.scores.period m.scores ≡ false) ⊎ (reason ≡ true))
unfolding decide_winner close_match
finish_lem r k c reason tiebreak p m n h =
    let (w, q, made) = closed_by r k c reason tiebreak p m n h in
    (
      record {
        closed = rw made refl;
        same_scores = rw made refl;
        home_wins = λ l. rw made (ground arith);
        away_wins = λ l. rw made (ground arith);
        drawn = λ e f g. rw made (ground arith);
        broken = λ e f. elim (Reply-cases tiebreak) [
          | inr (x, t) ↦ ground arith
          | inl (v, t) ↦ (v, t, rw made (ground arith))
        ];
      },
      unfold finish in ground arith,
    )
