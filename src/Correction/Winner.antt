-- ===== src/Correction/Winner.antt =====
-- The winner of a corrected match: `persistedTiebreakWinner` and the winner that `correctResult` of
-- src/edition-actions/handlers/match-action.handler.ts writes.
use mathlib.Core.Path.{subst}
use intereng_api.Base.{
  ℕ, String, ◌≡◌, ◌<◌, ◌⊎◌, refl, ap, ◌∙◌, arith, Bool, true, false, Option, none, some, inl, inr,
  Bool-cases, Option-cases,
}
use intereng_api.Base.Text.{trim}
use intereng_api.Http.{Reply, ok, Reply-cases, >>=-Returns}
use intereng_api.Regulation.{Regulation}
use intereng_api.Knockout.{BracketMatch}
use intereng_api.Match.{is_text}
use intereng_api.Match.Operator.{is_text_iff}
use intereng_api.Clock.{draw_allowed}
use intereng_api.Correction.Lookup.{ok_inj}
use intereng_api.Correction.{
  StoredTiebreak, persisted_tiebreak_winner, tie_needs_winner, corrected_winner,
}

module _ (by_name : String → Reply String) where
  -- A stored tiebreak decides a match: it names an entry that plays in it, on the side with more points of
  -- the tiebreak; where these are level, the tiebreak is an administrative one.
  pub record Breaks (t : Option StoredTiebreak) (m : BracketMatch) (w : Option String)
      : Type 0 where
    pub stored : StoredTiebreak
    pub is_stored : t ≡ some stored
    pub name : String
    pub is_named : stored.winner ≡ some name
    pub entry : String
    pub of_name : by_name (trim name) ≡ ok entry
    pub wins : w ≡ some entry
    pub score_a : ℕ
    pub has_a : stored.score_a ≡ some score_a
    pub score_b : ℕ
    pub has_b : stored.score_b ≡ some score_b
    pub plays : (m.entry_a ≡ some entry) ⊎ (m.entry_b ≡ some entry)
    pub home_ahead : score_b < score_a → m.entry_a ≡ some entry
    pub away_ahead : score_a < score_b → m.entry_b ≡ some entry
    pub level : score_a ≡ score_b → stored.method ≡ some "administrativo"

  -- The winner of a match with the score `a` × `b`.
  pub record Decides (r : Regulation) (knockout : Bool) (t : Option StoredTiebreak)
      (m : BracketMatch) (a b : ℕ) (w : Option String) : Type 0 where
    pub home_won : b < a → w ≡ m.entry_a
    pub away_won : a < b → w ≡ m.entry_b
    pub drawn : a ≡ b → knockout ≡ false → draw_allowed r.completion ≡ true → w ≡ none
    pub knocked_out : a ≡ b → knockout ≡ true → Breaks t m w
    pub must_not_draw : a ≡ b → draw_allowed r.completion ≡ false → Breaks t m w

  persisted_tiebreak_winner-Breaks :
      (t : Option StoredTiebreak) (m : BracketMatch) (w : String)
      → persisted_tiebreak_winner by_name t m ≡ ok w
      → Breaks t m (some w)
  unfolding persisted_tiebreak_winner
  persisted_tiebreak_winner-Breaks none m w h = cc
  persisted_tiebreak_winner-Breaks (some s) m w h = elim (Option-cases s.winner) [
    | inl e ↦ absurd (ground arith)
    | inr (name, e) ↦ elim (Option-cases s.score_a) [
      | inl f ↦ absurd (ground arith)
      | inr (a, f) ↦ elim (Option-cases s.score_b) [
        | inl g ↦ absurd (ground arith)
        | inr (b, g) ↦ elim (Reply-cases (by_name (trim name))) [
          | inr (x, k) ↦ absurd (ground arith)
          | inl (x, k) ↦
              let same : x ≡ w = ground arith in
              record {
                stored = s;
                is_stored = refl;
                name = name;
                is_named = e;
                entry = w;
                of_name = k ∙ ap ok same;
                wins = refl;
                score_a = a;
                has_a = f;
                score_b = b;
                has_b = g;
                plays = elim (Bool-cases (is_text m.entry_a w)) [
                  | inl q ↦ inl ((is_text_iff m.entry_a w).0 q)
                  | inr q ↦ inr ((is_text_iff m.entry_b w).0 (ground arith))
                ];
                home_ahead = λ l. (is_text_iff m.entry_a w).0 (ground arith);
                away_ahead = λ l. (is_text_iff m.entry_b w).0 (ground arith);
                level = λ l. (is_text_iff s.method "administrativo").0 (ground arith);
              }
        ]
      ]
    ]
  ]

  -- The winner that a correction writes.
  pub corrected_winner-Decides :
      (r : Regulation) (knockout : Bool) (t : Option StoredTiebreak) (m : BracketMatch) (a b : ℕ)
      (w : Option String)
      → corrected_winner by_name r knockout t m a b ≡ ok w
      → Decides r knockout t m a b w
  unfolding corrected_winner
  corrected_winner-Decides r knockout t m a b w h =
      elim (Bool-cases (tie_needs_winner r knockout a b)) [
        | inl n ↦
            let (x, k, g) =
              >>=-Returns (persisted_tiebreak_winner by_name t m) (λ x. ok (some x)) (rw n at h) in
            let broken = subst (Breaks t m) (ok_inj g) (persisted_tiebreak_winner-Breaks t m x k) in
            record {
              home_won = λ l. absurd (ground arith);
              away_won = λ l. absurd (ground arith);
              drawn = λ e k d. absurd (ground arith);
              knocked_out = λ e k. broken;
              must_not_draw = λ e d. broken;
            }
        | inr n ↦ record {
          home_won = λ l. ground arith;
          away_won = λ l. ground arith;
          drawn = λ e k d. ground arith;
          knocked_out = λ e k. absurd (ground arith);
          must_not_draw = λ e d. absurd (ground arith);
        }
      ]
