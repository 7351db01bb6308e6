-- ===== src/Change/Allowed.antt =====
-- What `update` of src/edition-actions/handlers/match-action.handler.ts lets through.
use mathlib.Core.Path.{subst}
use intereng_api.Base.{
  ℕ, String, ◌≡◌, ◌⊎◌, inl, inr, refl, sym, ap, arith, Bool, true, false, not, ◌&&◌, Option, none,
  some, Bool-cases, Option-cases,
}
use intereng_api.Http.{conflict, Reply, ok, throw_if, >>=-Returns, throw_if-Returns}
use intereng_api.Validation.{Audit}
use intereng_api.Standings.{truthy}
use intereng_api.Status.{
  MatchStatus, scheduled, live, finished, walkover, cancelled, postponed, is_scheduled,
}
use intereng_api.Match.{can_transition, is_text}
use intereng_api.Match.Operator.{is_text_iff}
use intereng_api.Correction.{found_or, reason_or}
use intereng_api.Correction.Lookup.{ok_inj}
use intereng_api.Change.{
  PlannedMatch, ChangePatch, is_walkover, refused_status, given_or, named_participants,
  walkover_entry, result_change, phase_change, write_change, change_match,
}

same_status : (s : MatchStatus) → can_transition s s ≡ true
unfolding can_transition
same_status scheduled = refl
same_status live = refl
same_status finished = refl
same_status walkover = refl
same_status cancelled = refl
same_status postponed = refl

refused_status-Allowed :
    (old : MatchStatus) (s : Option MatchStatus)
    → refused_status old s ≡ false
    → can_transition old (given_or s old) ≡ true
refused_status-Allowed old none h = same_status old
refused_status-Allowed old (some s) h = ground arith

is_walkover-eq : (s : Option MatchStatus) → is_walkover s ≡ true → s ≡ some walkover
is_walkover-eq (some walkover) h = refl
is_walkover-eq (some scheduled) h = cc
is_walkover-eq (some live) h = cc
is_walkover-eq (some finished) h = cc
is_walkover-eq (some cancelled) h = cc
is_walkover-eq (some postponed) h = cc
is_walkover-eq none h = cc

phase_change-Kept :
    (phase_named : String → Reply (String × Option String)) (p : ChangePatch) (m : PlannedMatch)
    {f : Option (String × Option String)}
    → phase_change phase_named p m ≡ ok f
    → (is_scheduled m.status ≡ true) ⊎ (f ≡ none)
unfolding phase_change
phase_change-Kept phase_named p m h = elim (Bool-cases (is_scheduled m.status)) [
  | inl s ↦ inl s
  | inr s ↦ elim (Option-cases p.phase) [
    | inl e ↦ inr (ground arith)
    | inr (n, e) ↦ absurd (ground arith)
  ]
]

-- The winner of a walkover, who plays in the match.
abbrev pub Plays : PlannedMatch → Option String → Type 0
Plays m w = (x : String) × (w ≡ some x) × ((m.entry_a ≡ some x) ⊎ (m.entry_b ≡ some x))

-- What the change of a match may do, where `again` tells whether the category is computed again.
pub record Allowed (m after : PlannedMatch) (again : Bool) : Type 0 where
  pub transition : can_transition m.status after.status ≡ true
  pub kept :
      (is_scheduled m.status ≡ true)
      ⊎ ((after.entry_a ≡ m.entry_a) × (after.entry_b ≡ m.entry_b) × (after.phase ≡ m.phase))
  pub result :
      ((again ≡ false)
        × (after.score_a ≡ m.score_a)
        × (after.score_b ≡ m.score_b)
        × (after.winner ≡ m.winner))
      ⊎ ((again ≡ true) × (after.status ≡ walkover) × Plays m after.winner)

module _ (by_name : String → Reply String) where
  named_participants-Kept :
      (p : ChangePatch) (m : PlannedMatch) {ids : Option String × Option String}
      → named_participants by_name p m ≡ ok ids
      → (is_scheduled m.status ≡ true) ⊎ (ids ≡ (none, none))
  unfolding named_participants
  named_participants-Kept p m h = elim (Bool-cases (is_scheduled m.status)) [
    | inl s ↦ inl s
    | inr s ↦ elim (Option-cases p.entry_a) [
      | inr (n, e) ↦ absurd (ground arith)
      | inl e ↦ elim (Option-cases p.entry_b) [
        | inr (n, f) ↦ absurd (ground arith)
        | inl f ↦ inr (ground arith)
      ]
    ]
  ]

  in_match-Plays :
      (m : PlannedMatch) (x : String)
      → (not (is_text m.entry_a x) && not (is_text m.entry_b x)) ≡ false
      → (m.entry_a ≡ some x) ⊎ (m.entry_b ≡ some x)
  in_match-Plays m x h = elim (Bool-cases (is_text m.entry_a x)) [
    | inl e ↦ inl ((is_text_iff m.entry_a x).0 e)
    | inr e ↦ inr ((is_text_iff m.entry_b x).0 (ground arith))
  ]

  walkover_entry-Plays :
      (audit : Option Audit) (p : ChangePatch) (m : PlannedMatch) {w : String}
      → walkover_entry by_name audit p m ≡ ok w
      → (m.entry_a ≡ some w) ⊎ (m.entry_b ≡ some w)
  unfolding walkover_entry
  walkover_entry-Plays audit p m h =
      let (reason, a, h1) = >>=-Returns (reason_or p.reason audit) _ h in
      let (name, b, h2) = >>=-Returns (found_or (truthy p.walkover_winner) conflict) _ h1 in
      let (w, c, h3) = >>=-Returns (by_name name) _ h2 in
      let (u, d, h4) =
        >>=-Returns (throw_if (not (is_text m.entry_a w) && not (is_text m.entry_b w)) conflict) _
          h3 in
      subst (λ x. (m.entry_a ≡ some x) ⊎ (m.entry_b ≡ some x)) (ok_inj h4)
        (in_match-Plays m w (throw_if-Returns _ conflict d))

  result_change-Plays :
      (audit : Option Audit) (p : ChangePatch) (m : PlannedMatch) {w : Option String}
      → result_change by_name audit p m ≡ ok w
      → ((is_walkover p.status ≡ false) × (w ≡ none)) ⊎ ((is_walkover p.status ≡ true) × Plays m w)
  unfolding result_change
  result_change-Plays audit p m h = elim (Bool-cases (is_walkover p.status)) [
    | inr s ↦
        let (u, a, h1) = >>=-Returns (throw_if p.has_score conflict) _ (rw s at h) in
        inl (s, sym (ok_inj h1))
    | inl s ↦
        let (x, a, h1) = >>=-Returns (walkover_entry by_name audit p m) _ (rw s at h) in
        inr (s, (x, sym (ok_inj h1), walkover_entry-Plays audit p m a))
  ]

module _ (by_name : String → Reply String) (phase_named : String → Reply (String × Option String))
    (score : ℕ × ℕ) where
  kept_or_scheduled :
      (p : ChangePatch) (m : PlannedMatch) (phase : Option (String × Option String))
      (w : Option String) (ids : Option String × Option String)
      → (is_scheduled m.status ≡ true) ⊎ (phase ≡ none)
      → (is_scheduled m.status ≡ true) ⊎ (ids ≡ (none, none))
      → (is_scheduled m.status ≡ true)
        ⊎ (((write_change score p phase w ids m).entry_a ≡ m.entry_a)
            × ((write_change score p phase w ids m).entry_b ≡ m.entry_b)
            × ((write_change score p phase w ids m).phase ≡ m.phase))
  unfolding write_change
  kept_or_scheduled p m phase w ids (inl s) g = inl s
  kept_or_scheduled p m phase w ids (inr f) (inl s) = inl s
  kept_or_scheduled p m phase (some w) ids (inr f) (inr g) = inr (rw (f, g) (refl, refl, refl))
  kept_or_scheduled p m phase none ids (inr f) (inr g) = inr (rw (f, g) (refl, refl, refl))

  result_of :
      (p : ChangePatch) (m : PlannedMatch) (phase : Option (String × Option String))
      (w : Option String) (ids : Option String × Option String)
      → ((is_walkover p.status ≡ false) × (w ≡ none)) ⊎ ((is_walkover p.status ≡ true) × Plays m w)
      → ((is_walkover p.status ≡ false)
          × ((write_change score p phase w ids m).score_a ≡ m.score_a)
          × ((write_change score p phase w ids m).score_b ≡ m.score_b)
          × ((write_change score p phase w ids m).winner ≡ m.winner))
        ⊎ ((is_walkover p.status ≡ true)
            × ((write_change score p phase w ids m).status ≡ walkover)
            × Plays m (write_change score p phase w ids m).winner)
  unfolding write_change
  result_of p m none w ids (inl (s, e)) = inl (s, rw e refl, rw e refl, rw e refl)
  result_of p m (some f) w ids (inl (s, e)) = inl (s, rw e refl, rw e refl, rw e refl)
  result_of p m none w ids (inr (s, (x, e, plays))) =
      inr (s, ap (λ t. given_or t m.status) (is_walkover-eq p.status s), (x, rw e refl, plays))
  result_of p m (some f) w ids (inr (s, (x, e, plays))) =
      inr (s, ap (λ t. given_or t m.status) (is_walkover-eq p.status s), (x, rw e refl, plays))

  -- A change that succeeds goes to a status that may follow; the participants and the phase stay, unless the
  -- match was scheduled; and it either leaves the score and the winner, without a recomputation, or makes the
  -- match a walkover, with one, whose winner played in the match before the change.
  pub change_match-Allowed :
      (audit : Option Audit) (p : ChangePatch) (m after : PlannedMatch) (again : Bool)
      → change_match by_name phase_named score audit p m ≡ ok (after, again)
      → Allowed m after again
  unfolding change_match write_change
  change_match-Allowed audit p m after again h =
      let (u, a, h1) = >>=-Returns (throw_if (refused_status m.status p.status) conflict) _ h in
      let (phase, b, h2) = >>=-Returns (phase_change phase_named p m) _ h1 in
      let (w, c, h3) = >>=-Returns (result_change by_name audit p m) _ h2 in
      let (ids, d, h4) = >>=-Returns (named_participants by_name p m) _ h3 in
      subst (λ (x : PlannedMatch × Bool). Allowed m x.0 x.1) (ok_inj h4)
        (record {
          transition = refused_status-Allowed m.status p.status (throw_if-Returns _ conflict a);
          kept =
              kept_or_scheduled p m phase w ids (phase_change-Kept phase_named p m b)
                (named_participants-Kept by_name p m d);
          result = result_of p m phase w ids (result_change-Plays by_name audit p m c);
        })
