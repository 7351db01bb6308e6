-- ===== src/Sheet/Winner.antt =====
-- Who wins a tiebreak.
use intereng_api.Base.{◌<◌, ◌≡◌, ◌⊎◌, arith, String, some, inl, inr, Bool-cases}
use intereng_api.Regulation.{administrativo}
use intereng_api.Match.{Reply, Reply-cases, ok, LiveMatch, is_text}
use intereng_api.Match.Operator.{is_text_iff}
use intereng_api.Sheet.{Tiebreak, parse_tiebreak}

-- A tiebreak that is accepted has a winner who plays in the match, on the side with more points where the
-- score of the tiebreak is not level; where it is level, the method is the administrative one.
pub parse_tiebreak_lem :
    (by_name : String → Reply String) (t : Tiebreak) (m : LiveMatch) (w : String)
    → parse_tiebreak by_name (some t) m ≡ ok w
    → ((m.entry_a ≡ some w) ⊎ (m.entry_b ≡ some w))
      × (t.score_b < t.score_a → m.entry_a ≡ some w)
      × (t.score_a < t.score_b → m.entry_b ≡ some w)
      × (t.score_a ≡ t.score_b → t.method ≡ administrativo)
unfolding parse_tiebreak
parse_tiebreak_lem by_name t m w h = elim (Reply-cases (by_name t.winner)) [
  | inr (e, p) ↦ ground arith
  | inl (x, p) ↦
      let same : x ≡ w = ground arith in
      (
        elim (Bool-cases (is_text m.entry_a w)) [
          | inl q ↦ inl ((is_text_iff m.entry_a w).0 q)
          | inr q ↦ inr ((is_text_iff m.entry_b w).0 (ground arith))
        ],
        λ l. (is_text_iff m.entry_a w).0 (ground arith),
        λ l. (is_text_iff m.entry_b w).0 (ground arith),
        λ e. ground arith,
      )
]
