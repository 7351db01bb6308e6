-- ===== src/Correction/Lookup.antt =====
-- The list operations and the checks that `correctResult` of src/edition-actions/handlers/match-action.handler.ts
-- is made of.
use intereng_api.Base.{
  ◌≡◌, eq_iff, refl, sym, ap, ◌∙◌, arith, Bool, true, false, ◌||◌, ◌==◌, Option, none, some, List,
  [], ◌∷◌, length, filter, any, inl, inr, Bool-cases,
}
use intereng_api.Http.{HttpError, ok, Returns}
use intereng_api.Status.{EditionStatus}
use intereng_api.Knockout.{
  MatchId, advanced, third, other, same_id, BracketMatch, Category, find_match, update_match,
}
use intereng_api.Recompute.{is_settled, sync_status}
use intereng_api.Correction.{found_or}

pub sync_status-matches :
    (c : Category) (e : EditionStatus) → (sync_status (c, e)).0.matches ≡ c.matches
unfolding sync_status
sync_status-matches c e = elim (Bool-cases (is_settled c.status || length c.matches == 0)) [
  | inl h ↦ rw (h, sync_status) refl
  | inr h ↦ rw (h, sync_status) refl
]

-- A match that a deletion leaves is found as before.
pub find_match-filter :
    (p : BracketMatch → Bool) (id : MatchId) (ms : List BracketMatch) (m : BracketMatch)
    → find_match id ms ≡ some m
    → p m ≡ true
    → find_match id (filter p ms) ≡ some m
unfolding find_match filter
find_match-filter p id [] m h k = cc
find_match-filter p id (x ∷ ms) m h k = elim (Bool-cases (same_id x.id id)) [
  | inl e ↦
      let same : x ≡ m = ground arith in
      let passes : p x ≡ true = ap p same ∙ k in rw (passes, e) (ap some same)
  | inr e ↦
      let later : find_match id ms ≡ some m = ground arith in
      elim (Bool-cases (p x)) [
        | inl t ↦ rw (t, e) (find_match-filter p id ms m later k)
        | inr t ↦ rw t (find_match-filter p id ms m later k)
      ]
]

-- A match that passes a test, where no match of those that another test selects passes it, is not selected.
pub not-selected :
    (q dep : BracketMatch → Bool) (id : MatchId) (ms : List BracketMatch) (m : BracketMatch)
    → any q (filter dep ms) ≡ false
    → find_match id ms ≡ some m
    → q m ≡ true
    → dep m ≡ false
unfolding find_match filter any
not-selected q dep id [] m h f k = cc
not-selected q dep id (x ∷ ms) m h f k = elim (Bool-cases (same_id x.id id)) [
  | inl e ↦
      let same : x ≡ m = ground arith in
      let tested : q x ≡ true = ap q same ∙ k in sym (ap dep same) ∙ not_first tested h
  | inr e ↦ not-selected q dep id ms m (rest h) (ground arith) k
]
  where
    not_first : q x ≡ true → any q (filter dep (x ∷ ms)) ≡ false → dep x ≡ false
    not_first t a = elim (Bool-cases (dep x)) [ inl d ↦ absurd (ground arith) | inr d ↦ d ]

    rest : any q (filter dep (x ∷ ms)) ≡ false → any q (filter dep ms) ≡ false
    rest a = elim (Bool-cases (dep x)) [ inl d ↦ ground arith | inr d ↦ ground arith ]

same_id-eq : (a b : MatchId) → same_id a b ≡ true → a ≡ b
same_id-eq (advanced r o) (advanced q p) h = ground arith
same_id-eq third third h = refl
same_id-eq (other s) (other t) h = ground (arith, eq_iff s t)
same_id-eq a b h = ground arith

pub find_match-update_other :
    (id away_id : MatchId) (f : BracketMatch → BracketMatch) (ms : List BracketMatch)
    → ((m : BracketMatch) → (f m).id ≡ m.id)
    → same_id id away_id ≡ false
    → find_match away_id (update_match id f ms) ≡ find_match away_id ms
unfolding find_match update_match
find_match-update_other id away_id f [] i h = refl
find_match-update_other id away_id f (x ∷ ms) i h = elim (Bool-cases (same_id x.id id)) [
  | inl e ↦
      let away : same_id x.id away_id ≡ false =
        ap (λ y. same_id y away_id) (same_id-eq x.id id e) ∙ h in
      let away_after : same_id (f x).id away_id ≡ false =
        ap (λ y. same_id y away_id) (i x) ∙ away in
      rw (e, away, away_after) refl
  | inr e ↦ elim (Bool-cases (same_id x.id away_id)) [
    | inl g ↦ rw (e, g) refl
    | inr g ↦ rw (e, g) (find_match-update_other id away_id f ms i h)
  ]
]

pub find_match-update_self :
    (id : MatchId) (f : BracketMatch → BracketMatch) (ms : List BracketMatch) (m : BracketMatch)
    → ((n : BracketMatch) → (f n).id ≡ n.id)
    → find_match id ms ≡ some m
    → find_match id (update_match id f ms) ≡ some (f m)
unfolding find_match update_match
find_match-update_self id f [] m i h = cc
find_match-update_self id f (x ∷ ms) m i h = elim (Bool-cases (same_id x.id id)) [
  | inl e ↦
      let same : x ≡ m = ground arith in
      let here : same_id (f x).id id ≡ true = ap (λ y. same_id y id) (i x) ∙ e in
      rw (e, here) (ap (λ y. some (f y)) same)
  | inr e ↦ rw (e, e) (find_match-update_self id f ms m i (ground arith))
]

pub found_or-Returns :
    {A : Type 0} (o : Option A) (e : HttpError) {a : A} → Returns (found_or o e) a → o ≡ some a
found_or-Returns none e h = cc
found_or-Returns (some x) e h = ground arith

pub ok_inj : {A : Type 0} {a b : A} → ok a ≡ ok b → a ≡ b
ok_inj h = ground arith
