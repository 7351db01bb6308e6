-- ===== src/Sheet/Result.antt =====
-- The result that `recordResult` stores.
use intereng_api.Base.{
  ℕ, suc, ◌+◌, ◌*◌, ◌≤◌, ◌<◌, ◌≡◌, ◌⊎◌, refl, ap, sym, ◌∙◌, arith, String, Bool, false, Option,
  List, [], ◌∷◌, length, inl, inr, Bool-cases, leb, ◌||◌,
}
use mathlib.Core.Path.{subst}
use intereng_api.Regulation.{Regulation, SetsRule, sets, Side, home, away}
use intereng_api.Status.{finished}
use intereng_api.Match.{Reply, Reply-cases, ok, PeriodResult, LiveMatch}
use intereng_api.Sheet.{
  valid_set_winner, count_sets, sheet_score, add_set, Tiebreak, parse_tiebreak, number_periods,
  sheet_winner, store_result, record_result,
}

-- Two scores of sets where one side has won the match and the other has not.
pub record Won (k : ℕ) (score : ℕ × ℕ) : Type 0 where
  pub home_most : score.0 ≤ k
  pub away_most : score.1 ≤ k
  pub decided : (score.0 ≡ k) ⊎ (score.1 ≡ k)
  pub one_winner : score.0 + score.1 < 2 * k

count_sets-step :
    (r : Regulation) (rule : SetsRule) (score : ℕ × ℕ) (p : PeriodResult) (ps : List PeriodResult)
    (side : Side)
    → valid_set_winner r rule p.period p.score_a p.score_b ≡ ok side
    → (leb rule.sets_to_win score.0 || leb rule.sets_to_win score.1) ≡ false
    → count_sets r rule score (p ∷ ps) ≡ count_sets r rule (add_set side score) ps
unfolding count_sets
count_sets-step r rule score p ps home v o = rw (o, v) refl
count_sets-step r rule score p ps away v o = rw (o, v) refl

-- A score of sets within what the match takes.
abbrev Within : ℕ → ℕ × ℕ → Type 0
Within k score = (score.0 ≤ k) × (score.1 ≤ k) × (score.0 + score.1 < 2 * k)

add_set-Within :
    (k : ℕ) (side : Side) (score : ℕ × ℕ)
    → Within k score
    → (leb k score.0 || leb k score.1) ≡ false
    → Within k (add_set side score)
      × ((add_set side score).0 + (add_set side score).1 ≡ score.0 + score.1 + 1)
add_set-Within k home score w o = ((ground arith, ground arith, ground arith), omega arith)
add_set-Within k away score w o = ((ground arith, ground arith, ground arith), omega arith)

count_sets-total :
    (r : Regulation) (rule : SetsRule) (score out : ℕ × ℕ) (ps : List PeriodResult)
    → count_sets r rule score ps ≡ ok out
    → Within rule.sets_to_win score
    → Within rule.sets_to_win out × (out.0 + out.1 ≡ score.0 + score.1 + length ps)
count_sets-total r rule score out [] h w =
    unfold count_sets in
    let same : score ≡ out = cc in (subst (Within rule.sets_to_win) same w, rw same (omega arith))
count_sets-total r rule score out (p ∷ ps) h w =
    elim (Bool-cases (leb rule.sets_to_win score.0 || leb rule.sets_to_win score.1)) [
      | inl o ↦ unfold count_sets in ground arith
      | inr o ↦ elim (Reply-cases (valid_set_winner r rule p.period p.score_a p.score_b)) [
        | inr (e, v) ↦ unfold count_sets in ground arith
        | inl (side, v) ↦
            let (next, sum) = add_set-Within rule.sets_to_win side score w o in
            let (inside, total) =
              count_sets-total r rule (add_set side score) out ps
                (sym (count_sets-step r rule score p ps side v o) ∙ h) next in
            (inside, omega (arith, sum, total))
      ]
    ]

counted :
    (r : Regulation) (rule : SetsRule) (sent : Option (ℕ × ℕ)) (ps : List PeriodResult)
    (score : ℕ × ℕ)
    → r.completion ≡ sets rule
    → sheet_score r sent ps ≡ ok score
    → (count_sets r rule (0, 0) ps ≡ ok score)
      × ((rule.sets_to_win ≤ score.0) ⊎ (rule.sets_to_win ≤ score.1))
unfolding sheet_score
counted r rule sent ps score c h = elim (Reply-cases (count_sets r rule (0, 0) ps)) [
  | inr (e, p) ↦ ground arith
  | inl (out, p) ↦ (ground arith, ground arith)
]

sheet_score_lem :
    (r : Regulation) (rule : SetsRule) (sent : Option (ℕ × ℕ)) (ps : List PeriodResult)
    (score : ℕ × ℕ)
    → r.completion ≡ sets rule
    → 0 < rule.sets_to_win
    → sheet_score r sent ps ≡ ok score
    → Won rule.sets_to_win score × (score.0 + score.1 ≡ length ps)
sheet_score_lem r rule sent ps score c k h =
    let (found, reached) = counted r rule sent ps score c h in
    let (inside, total) =
      count_sets-total r rule (0, 0) score ps found (omega arith, omega arith, omega arith) in
    (
      record {
        home_most = inside.0;
        away_most = inside.1;
        decided = elim reached [ inl l ↦ inl (omega arith) | inr l ↦ inr (omega arith) ];
        one_winner = inside.2;
      },
      omega (arith, total),
    )

length-number_periods : (k : ℕ) (ss : List (ℕ × ℕ)) → length (number_periods k ss) ≡ length ss
unfolding number_periods
length-number_periods k [] = refl
length-number_periods k (s ∷ ss) = ap suc (length-number_periods (k + 1) ss)

module _ (r : Regulation) (is_knockout : Bool) (by_name : String → Reply String)
    (sent : Option (ℕ × ℕ)) (partials : List (ℕ × ℕ)) (tiebreak : Option Tiebreak)
    (m n : LiveMatch) where
  recorded :
      record_result r is_knockout by_name sent partials tiebreak m ≡ ok n
      → (score : ℕ × ℕ) × (winner : Option String) × (sheet_score r sent (number_periods 1 partials)
          ≡ ok score)
        × (sheet_winner r is_knockout (parse_tiebreak by_name tiebreak m) score m ≡ ok winner)
        × (n ≡ store_result r (number_periods 1 partials) score winner m)
  unfolding record_result
  recorded h = elim (Reply-cases (sheet_score r sent (number_periods 1 partials))) [
    | inr (e, p) ↦ ground arith
    | inl (score, p) ↦
        elim (Reply-cases
          (sheet_winner r is_knockout (parse_tiebreak by_name tiebreak m) score m)) [
            | inr (e, q) ↦ ground arith
            | inl (winner, q) ↦ (score, winner, p, q, ground arith)
          ]
  ]

  -- In a discipline by sets, a sheet that is accepted finishes the match. It has as many sets as the two
  -- sides won together; one side has won the sets that the match takes and the other fewer, and the
  -- winner of the match is the side with more.
  pub record_result_lem :
      (rule : SetsRule)
      → r.completion ≡ sets rule
      → 0 < rule.sets_to_win
      → record_result r is_knockout by_name sent partials tiebreak m ≡ ok n
      → (n.status ≡ finished)
        × Won rule.sets_to_win (n.scores.score_a, n.scores.score_b)
        × (n.scores.score_a + n.scores.score_b ≡ length partials)
        × (n.scores.score_b < n.scores.score_a → n.winner ≡ m.entry_a)
        × (n.scores.score_a < n.scores.score_b → n.winner ≡ m.entry_b)
  unfolding store_result sheet_winner
  record_result_lem rule c k h =
      let (score, winner, p, q, made) = recorded h in
      let (won, total) = sheet_score_lem r rule sent (number_periods 1 partials) score c k p in
      let sets_played = length-number_periods 1 partials in
      let sum : score.0 + score.1 ≡ length partials = omega (arith, total, sets_played) in
      rw made (refl, won, sum, λ l. ground arith, λ l. ground arith)
