-- ===== src/Match/Transitions.antt =====
-- The statuses that a match can reach by the transitions of `update`.
use intereng_api.Base.{◌≡◌, refl, ◌∙◌, sym, arith, Bool, true, false, inl, inr, ◌⊎◌}
use mathlib.Core.Path.{subst}
use intereng_api.Status.{MatchStatus, live, finished, walkover, cancelled}
use intereng_api.Match.{can_transition}

-- The transitions that `update` allows, one after the other.
pub data Reaches : MatchStatus → MatchStatus → Type 0 where
  here : (s : MatchStatus) → Reaches s s
  step : (s t u : MatchStatus) → can_transition s t ≡ true → Reaches t u → Reaches s u

abbrev pub is_final : MatchStatus → Bool
is_final finished = true
is_final cancelled = true
is_final walkover = true
is_final _ = false

final-stuck : (s t : MatchStatus) → is_final s ≡ true → can_transition s t ≡ true → s ≡ t
unfolding can_transition
final-stuck s t f h = ground arith

Reaches-final : (s t : MatchStatus) → is_final s ≡ true → Reaches s t → s ≡ t
Reaches-final s _ f (here _) = refl
Reaches-final s u f (step _ t _ h r) =
    let same = final-stuck s t f h in
    same ∙ Reaches-final t u (subst (λ x. is_final x ≡ true) same f) r

before_finished :
    (s t : MatchStatus) → can_transition s t ≡ true → t ≡ finished → (s ≡ finished) ⊎ (s ≡ live)
unfolding can_transition
before_finished s t h e = ground arith

-- A match that is finished, cancelled or decided by walkover keeps that status for good; and one that is
-- not finished becomes finished only by way of live.
pub status_transitions :
    (s t : MatchStatus)
    → Reaches s t
    → (is_final s ≡ true → t ≡ s) × (t ≡ finished → (s ≡ finished) ⊎ Reaches s live)
status_transitions s t r = (λ f. sym (Reaches-final s t f r), by_live s t r)
  where
    by_live : (s t : MatchStatus) → Reaches s t → t ≡ finished → (s ≡ finished) ⊎ Reaches s live
    by_live s _ (here _) e = inl e
    by_live s u (step _ t _ h r) e = elim (by_live t u r e) [
      | inr k ↦ inr (step s t live h k)
      | inl k ↦ elim (before_finished s t h k) [
        | inl q ↦ inl q
        | inr q ↦ inr (subst (λ x. Reaches x live) (sym q) (here live))
      ]
    ]
