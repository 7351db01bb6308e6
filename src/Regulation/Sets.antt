-- ===== src/Regulation/Sets.antt =====
-- When a set is won: `setWinner` against the rule of the sport.
use intereng_api.Base.{ℕ, ◌+◌, ◌≤◌, ◌<◌, ◌≡◌, ◌↔◌, none, some, arith}
use intereng_api.Regulation.{SetsRule, home, away, set_target, set_decision}

-- A side wins a set when it has reached the target and leads by the advantage.
pub record Wins (s : SetsRule) (period mine theirs : ℕ) : Type 0 where
  pub reached : set_target s period ≤ mine
  pub leads : theirs + s.min_advantage ≤ mine

module _ (s : SetsRule) (period a b : ℕ) (advantage : 0 < s.min_advantage) where
  -- With a positive advantage, the home side wins a set exactly when it reached the target and leads
  -- by the advantage, the away side likewise, and there is no winner exactly when neither does.
  pub set_decision_iff :
      ((set_decision s period a b ≡ some home) ↔ Wins s period a b)
      × ((set_decision s period a b ≡ some away) ↔ Wins s period b a)
      × ((set_decision s period a b ≡ none) ↔ (¬ Wins s period a b × ¬ Wins s period b a))
  unfolding set_decision
  set_decision_iff = (
    (λ h. record { reached = ground arith; leads = ground arith }, λ w. ground arith),
    (λ h. record { reached = ground arith; leads = ground arith }, λ w. ground arith),
    (
      λ h. (λ w. ground arith, λ w. ground arith),
      λ h. ground (
        arith,
        λ (r : set_target s period ≤ a) (l : b + s.min_advantage ≤ a).
            h.0 (record { reached = r; leads = l }),
        λ (r : set_target s period ≤ b) (l : a + s.min_advantage ≤ b).
            h.1 (record { reached = r; leads = l }),
      ),
    ),
  )
