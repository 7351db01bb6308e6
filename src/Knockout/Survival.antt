-- ===== src/Knockout/Survival.antt =====
-- What the writes of a knockout round leave of the matches that are there.
use intereng_api.Base.{
  ℕ, ◌≡◌, ◌∙◌, refl, ap, String, true, false, some, List, [], ◌∷◌, ◌++◌, inl, inr, arith,
  Bool-cases, Option-cases,
}
use intereng_api.Standings.{truthy}
use intereng_api.Bracket.{BracketPair}
use intereng_api.Status.{is_scheduled}
use intereng_api.Knockout.{
  MatchId, same_id, BracketMatch, find_match, update_match, fill, fill_at, create_pair,
  create_pairs, advanced,
}

-- A match and what became of it: its id, status, date, venue, winner and score are the same, and where it
-- is no longer scheduled, all of it is.
pub record Kept (m n : BracketMatch) : Type 0 where
  pub id_same : n.id ≡ m.id
  pub status_same : n.status ≡ m.status
  pub date_same : n.scheduled_at ≡ m.scheduled_at
  pub venue_same : n.venue ≡ m.venue
  pub winner_same : n.winner ≡ m.winner
  pub score_a_same : n.score_a ≡ m.score_a
  pub score_b_same : n.score_b ≡ m.score_b
  pub untouched : is_scheduled m.status ≡ false → n ≡ m

pub Kept-refl : (m : BracketMatch) → Kept m m
Kept-refl m = record {
  id_same = refl;
  status_same = refl;
  date_same = refl;
  venue_same = refl;
  winner_same = refl;
  score_a_same = refl;
  score_b_same = refl;
  untouched = λ h. refl;
}

Kept-trans : (m n o : BracketMatch) → Kept m n → Kept n o → Kept m o
Kept-trans m n o h k = record {
  id_same = k.id_same ∙ h.id_same;
  status_same = k.status_same ∙ h.status_same;
  date_same = k.date_same ∙ h.date_same;
  venue_same = k.venue_same ∙ h.venue_same;
  winner_same = k.winner_same ∙ h.winner_same;
  score_a_same = k.score_a_same ∙ h.score_a_same;
  score_b_same = k.score_b_same ∙ h.score_b_same;
  untouched = λ s. k.untouched (ap is_scheduled h.status_same ∙ s) ∙ h.untouched s;
}

-- Every match is still there, and was kept.
abbrev pub Survives : List BracketMatch → List BracketMatch → Type 0
Survives ms ns =
    (id : MatchId) (m : BracketMatch)
    → find_match id ms ≡ some m
    → (n : BracketMatch) × (find_match id ns ≡ some n) × Kept m n

pub Survives-refl : (ms : List BracketMatch) → Survives ms ms
Survives-refl ms id m e = (m, e, Kept-refl m)

pub Survives-trans :
    (ms ns os : List BracketMatch) → Survives ms ns → Survives ns os → Survives ms os
Survives-trans ms ns os h k id m e =
    let (n, en, kn) = h id m e in let (o, eo, ko) = k id n en in (o, eo, Kept-trans m n o kn ko)

pub find_match-append :
    (id : MatchId) (ms ns : List BracketMatch) (m : BracketMatch)
    → find_match id ms ≡ some m
    → find_match id (ms ++ ns) ≡ some m
unfolding find_match
find_match-append id [] ns m h = cc
find_match-append id (x ∷ ms) ns m h = ground (arith, find_match-append id ms ns m)

pub append-Survives : (ms ns : List BracketMatch) → Survives ms (ms ++ ns)
append-Survives ms ns id m e = (m, find_match-append id ms ns m e, Kept-refl m)

pub update-Survives :
    (id : MatchId) (f : BracketMatch → BracketMatch) (ms : List BracketMatch)
    → ((m : BracketMatch) → (f m).id ≡ m.id)
    → ((m : BracketMatch) → find_match id ms ≡ some m → Kept m (f m))
    → Survives ms (update_match id f ms)
unfolding find_match update_match
update-Survives id f [] i k j m e = cc
update-Survives id f (x ∷ ms) i k j m e = elim (Bool-cases (same_id x.id id)) [
  | inl p ↦ elim (Bool-cases (same_id x.id j)) [
    | inl q ↦
        let same : x ≡ m = ground arith in
        let found : same_id (f x).id j ≡ true = ap (λ y. same_id y j) (i x) ∙ q in
        rw (p, found, ← same) (f x, refl, k x (rw p refl))
    | inr q ↦
        let found : same_id (f x).id j ≡ false = ap (λ y. same_id y j) (i x) ∙ q in
        let later : find_match j ms ≡ some m = ground arith in rw (p, found) (m, later, Kept-refl m)
  ]
  | inr p ↦ elim (Bool-cases (same_id x.id j)) [
    | inl q ↦ let same : x ≡ m = ground arith in rw (p, q, ← same) (x, refl, Kept-refl x)
    | inr q ↦
        let later : find_match j ms ≡ some m = ground arith in
        rw (p, q) (update-Survives id f ms i (λ n h. k n (rw p h)) j m later)
  ]
]

-- To fill in the participants of a scheduled match keeps it.
pub fill-Kept :
    (a b : String) (m : BracketMatch) → is_scheduled m.status ≡ true → Kept m (fill a b m)
fill-Kept a b m h = record {
  id_same = refl;
  status_same = refl;
  date_same = refl;
  venue_same = refl;
  winner_same = refl;
  score_a_same = refl;
  score_b_same = refl;
  untouched = λ s. cc;
}

pub fill_at-Kept :
    (a b : String) (r o : ℕ) (m : BracketMatch)
    → is_scheduled m.status ≡ true
    → Kept m (fill_at a b r o m)
fill_at-Kept a b r o m h = record {
  id_same = refl;
  status_same = refl;
  date_same = refl;
  venue_same = refl;
  winner_same = refl;
  score_a_same = refl;
  score_b_same = refl;
  untouched = λ s. cc;
}

create_pair-Survives :
    (phase_id : String) (round date : ℕ) (p : BracketPair) (ms : List BracketMatch)
    → Survives ms (create_pair phase_id round date p ms)
unfolding create_pair
create_pair-Survives phase_id round date p ms = elim (Option-cases (truthy p.entry_b)) [
  | inl e ↦ rw (e, create_pair) (Survives-refl ms)
  | inr (b, e) ↦ elim (Option-cases (find_match (advanced round p.order) ms)) [
    | inl h ↦ rw (e, h, create_pair) (append-Survives ms _)
    | inr (m, h) ↦ elim (Bool-cases (is_scheduled m.status)) [
      | inl s ↦
          rw (e, h, s, create_pair)
            (update-Survives (advanced round p.order) (fill_at p.entry_a b round p.order) ms
              (λ n. refl) (λ n k. fill_at-Kept p.entry_a b round p.order n (ground arith)))
      | inr s ↦ rw (e, h, s, create_pair) (Survives-refl ms)
    ]
  ]
]

-- `createRound` keeps the matches that are there.
pub create_pairs-Survives :
    (phase_id : String) (round date : ℕ) (ps : List BracketPair) (ms : List BracketMatch)
    → Survives ms (create_pairs phase_id round date ps ms)
unfolding create_pairs
create_pairs-Survives phase_id round date [] ms = Survives-refl ms
create_pairs-Survives phase_id round date (p ∷ ps) ms =
    let next = create_pair phase_id round date p ms in
    Survives-trans ms next (create_pairs phase_id round date ps next)
      (create_pair-Survives phase_id round date p ms)
      (create_pairs-Survives phase_id round date ps next)
