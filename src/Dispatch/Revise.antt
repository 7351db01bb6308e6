-- ===== src/Dispatch/Revise.antt =====
-- `revise`: the revisions of the editions that an action affects.
use mathlib.Core.Path.{subst}
use intereng_api.Base.Order.{All}
use intereng_api.Base.{
  map, ◌≤◌, ℕ, ◌+◌, String, ◌≡◌, refl, sym, ap, ◌∙◌, arith, Bool, true, false, Option, none, some,
  List, [], ◌∷◌, ◌++◌, ◌===◌, eq_iff, find, contains, occurrences, inl, inr, Bool-cases,
  if◌then◌else◌,
}
use intereng_api.Database.{Edition, Tables}
use intereng_api.Outcome.{other_error, done, >>=-Makes, done_inj, or_throw, or_throw-eq-done}
use intereng_api.Receipts.{RevisionEvent}
use intereng_api.Dispatch.{unique, bump, revise}

-- The revision of an edition.
unfoldable pub revision_of : String → List Edition → Option ℕ
revision_of id [] = none
revision_of id (e ∷ es) = if e.id === id then some e.revision else revision_of id es

abbrev pub add_to : ℕ → Option ℕ → Option ℕ
add_to n none = none
add_to n (some r) = some (r + n)

add_to-zero : (o : Option ℕ) → add_to 0 o ≡ o
add_to-zero o = ground arith

add_to_step :
    (n : ℕ) (b : Bool) (o : Option ℕ)
    → add_to n (if b then add_to 1 o else o) ≡ add_to ((if b then 1 else 0) + n) o
add_to_step n b o = ground arith

pub occurrences-unique :
    (j : String) (xs : List String)
    → (occurrences j (unique xs) ≡ (if contains xs j then 1 else 0))
      × (contains (unique xs) j ≡ contains xs j)
unfolding unique
occurrences-unique j [] = (refl, refl)
occurrences-unique j (x ∷ xs) =
    let (count, inside) = occurrences-unique j xs in
    elim (Bool-cases (x === j)) [
      | inr e ↦ (ground arith, ground arith)
      | inl e ↦
          let same : x ≡ j = (eq_iff x j).0 e in
          elim (Bool-cases (contains (unique xs) x)) [
            | inl c ↦
                let here : contains xs j ≡ true =
                  sym inside ∙ ap (contains (unique xs)) (sym same) ∙ c in
                (ground arith, ground arith)
            | inr c ↦
                let here : contains xs j ≡ false =
                  sym inside ∙ ap (contains (unique xs)) (sym same) ∙ c in
                (ground arith, ground arith)
          ]
    ]

revision_of-bump :
    (id j : String) (es : List Edition)
    → revision_of j (bump id es)
      ≡ (if id === j then add_to 1 (revision_of j es) else revision_of j es)
unfolding revision_of bump
revision_of-bump id j [] = ground arith
revision_of-bump id j (e ∷ es) =
    ground (arith, eq_iff e.id id, eq_iff e.id j, eq_iff id j, revision_of-bump id j es)

revision_of-find :
    (id : String) (es : List Edition) (e : Edition)
    → find (λ x. x.id === id) es ≡ some e
    → (revision_of id es ≡ some e.revision) × (e.id ≡ id)
unfolding revision_of find
revision_of-find id [] e h = cc
revision_of-find id (x ∷ es) e h = elim (Bool-cases (x.id === id)) [
  | inl k ↦
      let same : x ≡ e = ground arith in
      (rw k (ap some (ap (λ y. y.revision) same)), sym (ap (λ y. y.id) same) ∙ (eq_iff x.id id).0 k)
  | inr k ↦ rw k (revision_of-find id es e (ground arith))
]

module _ {R : Type 0} where
  -- One step of `revise`.
  record Revised (id : String) (ids : List String) (t t' : Tables R) (events : List RevisionEvent)
      : Type 0 where
    pub edition : Edition
    pub rest : List RevisionEvent
    pub found : find (λ x. x.id === id) t.editions ≡ some edition
    pub later : revise ids (record t { editions = bump id t.editions }) ≡ done (rest, t')
    pub told : events ≡ record { edition = edition.id; revision = edition.revision + 1 } ∷ rest

  revise-Revised :
      (id : String) (ids : List String) (t t' : Tables R) (events : List RevisionEvent)
      → revise (id ∷ ids) t ≡ done (events, t')
      → Revised id ids t t' events
  unfolding revise
  revise-Revised id ids t t' events h =
      let next : Tables R = record t { editions = bump id t.editions } in
      let (e, a, h1) = >>=-Makes (or_throw (find (λ x. x.id === id) t.editions) other_error) _ h in
      let ((rest, u), b, h2) = >>=-Makes (revise ids next) _ h1 in
      let p = done_inj h2 in
      record {
        edition = e;
        rest = rest;
        found = or_throw-eq-done _ other_error a;
        later = b ∙ ap (λ x. done (rest, x)) (ap (λ x. x.1) p);
        told = sym (ap (λ x. x.0) p);
      }

  pub revision_of-revise :
      (j : String) (ids : List String) (t t' : Tables R) (events : List RevisionEvent)
      → revise ids t ≡ done (events, t')
      → revision_of j t'.editions ≡ add_to (occurrences j ids) (revision_of j t.editions)
  unfolding revise
  revision_of-revise j [] t t' events h =
      let same : t.editions ≡ t'.editions = ap (λ x. x.1.editions) (done_inj h) in
      ap (revision_of j) (sym same) ∙ sym (add_to-zero (revision_of j t.editions))
  revision_of-revise j (id ∷ ids) t t' events h =
      let step = revise-Revised id ids t t' events h in
      let rest =
        revision_of-revise j ids (record t { editions = bump id t.editions }) t' step.rest
          step.later in
      let first = revision_of-bump id j t.editions in
      rest
      ∙ ap (add_to (occurrences j ids)) first
      ∙ add_to_step (occurrences j ids) (id === j) (revision_of j t.editions)

  -- What is published: every id once, with the revision that its edition has in the end.
  pub record Told (ids : List String) (t' : Tables R) (events : List RevisionEvent) : Type 0 where
    pub in_order : map (λ e. e.edition) events ≡ ids
    pub exact : All (λ e. revision_of e.edition t'.editions ≡ some e.revision) events

  pub revise-Told :
      (ids : List String) (t t' : Tables R) (events : List RevisionEvent)
      → ((j : String) → occurrences j ids ≤ 1)
      → revise ids t ≡ done (events, t')
      → Told ids t' events
  unfolding revise
  revise-Told [] t t' events once h =
      let none_told : [] ≡ events = ap (λ x. x.0) (done_inj h) in
      subst (Told [] t') none_told (record { in_order = refl; exact = tt })
  revise-Told (id ∷ ids) t t' events once h =
      let step = revise-Revised id ids t t' events h in
      let next : Tables R = record t { editions = bump id t.editions } in
      let rest = revise-Told ids next t' step.rest (λ j. omega (arith, once j)) step.later in
      let (known, same) = revision_of-find id t.editions step.edition step.found in
      let unseen : occurrences id ids ≡ 0 = ground (arith, once id, eq_iff id id) in
      let final : revision_of step.edition.id t'.editions ≡ some (step.edition.revision + 1) =
        ap (λ x. revision_of x t'.editions) same
        ∙ revision_of-revise id ids next t' step.rest step.later
        ∙ ground (arith, revision_of-bump id id t.editions, eq_iff id id) in
      subst (Told (id ∷ ids) t') (sym step.told)
        (record { in_order = rw (same, rest.in_order) refl; exact = (final, rest.exact) })

-- In a list without repetitions a text stands once or not at all.
pub occurrences-once :
    (j : String) (xs : List String)
    → occurrences j xs ≤ 1
    → occurrences j xs ≡ (if contains xs j then 1 else 0)
occurrences-once j [] h = refl
occurrences-once j (x ∷ xs) h = ground (arith, occurrences-once j xs)

pub contains-last : (x : String) (xs : List String) → contains (xs ++ x ∷ []) x ≡ true
contains-last x [] = ground (arith, eq_iff x x)
contains-last x (y ∷ xs) = ground (arith, contains-last x xs)
