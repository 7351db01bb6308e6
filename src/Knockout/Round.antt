-- ===== src/Knockout/Round.antt =====
-- What `createRound` makes of the pairs.
use mathlib.Core.Path.{subst}
use intereng_api.Base.{
  ℕ, ◌≡◌, ◌∙◌, ◌⊎◌, refl, ap, String, Option, true, false, none, some, List, [], ◌∷◌, ◌++◌, ◌==◌,
  inl, inr, arith, Bool-cases, Option-cases,
}
use intereng_api.Base.Order.{All, Ordered}
use intereng_api.Standings.{truthy}
use intereng_api.Bracket.{BracketPair}
use intereng_api.Status.{is_scheduled}
use intereng_api.Knockout.{
  MatchId, same_id, BracketMatch, find_match, update_match, fill_at, match_create_data, create_pair,
  create_pairs, advanced,
}
use intereng_api.Knockout.Survival.{Kept, fill_at-Kept}

find_match-new :
    (id : MatchId) (ms : List BracketMatch) (x : BracketMatch)
    → find_match id ms ≡ none
    → same_id x.id id ≡ true
    → find_match id (ms ++ x ∷ []) ≡ some x
unfolding find_match
find_match-new id [] x h s = ground arith
find_match-new id (y ∷ ms) x h s = ground (arith, find_match-new id ms x)

find_match-update :
    (id : MatchId) (f : BracketMatch → BracketMatch) (ms : List BracketMatch) (m : BracketMatch)
    → ((n : BracketMatch) → (f n).id ≡ n.id)
    → find_match id ms ≡ some m
    → find_match id (update_match id f ms) ≡ some (f m)
unfolding find_match update_match
find_match-update id f [] m i h = cc
find_match-update id f (x ∷ ms) m i h = elim (Bool-cases (same_id x.id id)) [
  | inl p ↦
      let same : x ≡ m = ground arith in
      let found : same_id (f x).id id ≡ true = ap (λ j. same_id j id) (i x) ∙ p in
      rw (p, found, same) refl
  | inr p ↦ rw (p, p) (find_match-update id f ms m i (ground arith))
]

-- A match of another order of the round is found as before.
find_match-update_other :
    (r o k : ℕ) (f : BracketMatch → BracketMatch) (ms : List BracketMatch)
    → (o == k) ≡ false
    → ((n : BracketMatch) → (f n).id ≡ n.id)
    → find_match (advanced r o) (update_match (advanced r k) f ms) ≡ find_match (advanced r o) ms
unfolding find_match update_match
find_match-update_other r o k f [] d i = refl
find_match-update_other r o k f (x ∷ ms) d i = elim (Bool-cases (same_id x.id (advanced r k))) [
  | inl p ↦
      let apart : same_id x.id (advanced r o) ≡ false = ground arith in
      let moved : same_id (f x).id (advanced r o) ≡ false =
        ap (λ j. same_id j (advanced r o)) (i x) ∙ apart in
      rw (p, moved, apart) refl
  | inr p ↦ elim (Bool-cases (same_id x.id (advanced r o))) [
    | inl q ↦ rw (p, q) refl
    | inr q ↦ rw (p, q) (find_match-update_other r o k f ms d i)
  ]
]

-- A match that is put at the end under another id.
find_match-append_other :
    (id : MatchId) (ms : List BracketMatch) (x : BracketMatch)
    → same_id x.id id ≡ false
    → find_match id (ms ++ x ∷ []) ≡ find_match id ms
unfolding find_match
find_match-append_other id [] x d = rw d refl
find_match-append_other id (y ∷ ms) x d = elim (Bool-cases (same_id y.id id)) [
  | inl p ↦ rw p refl
  | inr p ↦ rw p (find_match-append_other id ms x d)
]

-- What became of the match of a pair, which was looked up before: it is new, or it was scheduled and keeps
-- its id, status, date, venue, winner and score; or it was no longer scheduled, and is as it was.
abbrev pub Open : Option BracketMatch → BracketMatch → Type 0
Open none m = is_scheduled m.status ≡ true
Open (some n) m = (is_scheduled n.status ≡ true) × Kept n m

abbrev pub Closed : Option BracketMatch → BracketMatch → Type 0
Closed before m = (before ≡ some m) × (is_scheduled m.status ≡ false)

module _ (phase_id : String) (round date : ℕ) where
  -- Of a pair with an opponent the match is there after the round was created. It has the two
  -- participants of the pair, unless it was there before and no longer scheduled.
  abbrev pub Placed : List BracketMatch → List BracketMatch → BracketPair → Type 0
  Placed before after p =
      (b : String)
      → truthy p.entry_b ≡ some b
      → (m : BracketMatch) × (find_match (advanced round p.order) after ≡ some m)
        × (((m.entry_a ≡ some p.entry_a)
              × (m.entry_b ≡ some b)
              × Open (find_match (advanced round p.order) before) m)
            ⊎ Closed (find_match (advanced round p.order) before) m)

  create_pair-Placed :
      (p : BracketPair) (ms : List BracketMatch)
      → Placed ms (create_pair phase_id round date p ms) p
  unfolding create_pair match_create_data
  create_pair-Placed p ms b e = elim (Option-cases (find_match (advanced round p.order) ms)) [
    | inl h ↦
        let x =
          match_create_data (advanced round p.order) phase_id round (some p.order) p.entry_a b
            date in
        let made : create_pair phase_id round date p ms ≡ ms ++ x ∷ [] =
          rw (e, h, create_pair) refl in
        (
          x,
          rw made (find_match-new (advanced round p.order) ms x h (ground arith)),
          inl (refl, refl, rw h refl),
        )
    | inr (m, h) ↦ elim (Bool-cases (is_scheduled m.status)) [
      | inl s ↦
          let f = fill_at p.entry_a b round p.order in
          let made : create_pair phase_id round date p ms
              ≡ update_match (advanced round p.order) f ms =
            rw (e, h, s, create_pair) refl in
          (
            f m,
            rw made (find_match-update (advanced round p.order) f ms m (λ n. refl) h),
            inl (refl, refl, rw h (s, fill_at-Kept p.entry_a b round p.order m s)),
          )
      | inr s ↦
          let made : create_pair phase_id round date p ms ≡ ms = rw (e, h, s, create_pair) refl in
          (m, rw made h, inr (h, s))
    ]
  ]

  create_pair-other :
      (q : BracketPair) (o : ℕ) (ms : List BracketMatch)
      → (o == q.order) ≡ false
      → find_match (advanced round o) (create_pair phase_id round date q ms)
        ≡ find_match (advanced round o) ms
  unfolding create_pair match_create_data
  create_pair-other q o ms d = elim (Option-cases (truthy q.entry_b)) [
    | inl e ↦ rw (e, create_pair) refl
    | inr (b, e) ↦ elim (Option-cases (find_match (advanced round q.order) ms)) [
      | inl f ↦
          rw (e, f, create_pair) (find_match-append_other (advanced round o) ms _ (ground arith))
      | inr (n, f) ↦ elim (Bool-cases (is_scheduled n.status)) [
        | inl s ↦
            rw (e, f, s, create_pair)
              (find_match-update_other round o q.order (fill_at q.entry_a b round q.order) ms d
                (λ x. refl))
        | inr s ↦ rw (e, f, s, create_pair) refl
      ]
    ]
  ]

  create_pairs-other :
      (ps : List BracketPair) (o : ℕ) (ms : List BracketMatch)
      → All (λ q. (o == q.order) ≡ false) ps
      → find_match (advanced round o) (create_pairs phase_id round date ps ms)
        ≡ find_match (advanced round o) ms
  unfolding create_pairs
  create_pairs-other [] o ms d = refl
  create_pairs-other (q ∷ ps) o ms d =
      create_pairs-other ps o (create_pair phase_id round date q ms) d.1
      ∙ create_pair-other q o ms d.0

  -- Placed, with the matches before the pair `q`, whose order the pairs do not have.
  Placed-earlier :
      (q : BracketPair) (ms after : List BracketMatch) (ps : List BracketPair)
      → All (λ p. (q.order == p.order) ≡ false) ps
      → All (Placed (create_pair phase_id round date q ms) after) ps
      → All (Placed ms after) ps
  Placed-earlier q ms after [] d h = tt
  Placed-earlier q ms after (p ∷ ps) d h = (
    subst
        (λ before.
          (b : String)
          → truthy p.entry_b ≡ some b
          → (m : BracketMatch) × (find_match (advanced round p.order) after ≡ some m)
            × (((m.entry_a ≡ some p.entry_a) × (m.entry_b ≡ some b) × Open before m)
                ⊎ Closed before m))
        (create_pair-other q p.order ms (ground arith)) h.0,
    Placed-earlier q ms after ps d.1 h.1,
  )

  -- For pairs whose orders are all different, every pair that has an opponent has its match after the
  -- round was created. Where there was none, or a scheduled one, it has the two participants of the pair
  -- and is scheduled, and one that was there keeps its id, status, date, venue, winner and score. Where
  -- the match was there and no longer scheduled, it is as it was, in every field.
  pub create_pairs-Placed :
      (ps : List BracketPair) (ms : List BracketMatch)
      → Ordered (λ p q. (p.order == q.order) ≡ false) ps
      → All (Placed ms (create_pairs phase_id round date ps ms)) ps
  unfolding create_pairs
  create_pairs-Placed [] ms o = tt
  create_pairs-Placed (p ∷ ps) ms o =
      let next = create_pair phase_id round date p ms in
      (
        λ b e.
            let (m, found, placed) = create_pair-Placed p ms b e in
            (m, create_pairs-other ps p.order next o.0 ∙ found, placed),
        Placed-earlier p ms (create_pairs phase_id round date ps next) ps o.0
            (create_pairs-Placed ps next o.1),
      )
