-- ===== src/Calculator/Termination.antt =====
-- The recursion of `sortTeamsRecursive` of src/standings/standings-calculator.ts.
use mathlib.Core.List.{Perm, flat_map, append_assoc}
use mathlib.Core.List.Perm
use mathlib.Core.Path.{subst}
use intereng_api.Base.{
  ℕ, zero, suc, ◌+◌, ◌*◌, ◌<◌, ◌≤◌, ◌≡◌, refl, sym, ap, ◌∙◌, arith, String, Bool, Option, some,
  List, [], ◌∷◌, ◌++◌, ltb, leb, length, length-append, inl, inr, Bool-cases, if◌then◌else◌,
}
use intereng_api.Base.Int.{ℤ, eq_ℤ}
use intereng_api.Base.Dict.{Dict}
use intereng_api.Base.Order.{All, All-imp, All-append}
use intereng_api.Base.Sort.{sort, sort-perm, All-sort, length-sort}
use intereng_api.Calculator.{
  TeamStats, CalculatorMatch, criterion_of, more_first, tied_from, tied_groups, resolve_all,
  sort_teams, sort_fuel,
}

-- The groups, one after the other.
abbrev pub joined : List (List String) → List String
joined gs = flat_map (λ g. g) gs

append-one : (xs ys : List String) (t : String) → (xs ++ (t ∷ [])) ++ ys ≡ xs ++ (t ∷ ys)
append-one xs ys t = append_assoc xs (t ∷ []) ys

pub joined-tied_from :
    (value : String → ℤ) (prev : String) (current ts : List String)
    → joined (tied_from value prev current ts) ≡ current ++ ts
unfolding tied_from flat_map
joined-tied_from value prev current [] = refl
joined-tied_from value prev current (t ∷ ts) = elim (Bool-cases (eq_ℤ (value t) (value prev))) [
  | inl e ↦ rw e (joined-tied_from value t (current ++ (t ∷ [])) ts ∙ append-one current ts t)
  | inr e ↦ rw e (ap (λ x. current ++ x) (joined-tied_from value t (t ∷ []) ts))
]

pub joined-tied_groups :
    (value : String → ℤ) (ts : List String) → joined (tied_groups value ts) ≡ ts
unfolding tied_groups flat_map
joined-tied_groups value [] = refl
joined-tied_groups value (t ∷ ts) = joined-tied_from value t (t ∷ []) ts

group-length : (gs : List (List String)) → All (λ g. length g ≤ length (joined gs)) gs
unfolding flat_map
group-length [] = tt
group-length (g ∷ gs) = (
  omega (arith, length-append g (joined gs)),
  All-imp _ _ gs (λ h le. omega (arith, length-append g (joined gs))) (group-length gs),
)

fuel_left : (g n t : ℕ) → g < n → g * (t + 1) + t + 1 ≤ n * (t + 1)
fuel_left g zero t h = absurd (omega arith)
fuel_left zero (suc n) t h = grind arith
fuel_left (suc g) (suc n) t h = let rest = fuel_left g n t (omega arith) in grind arith

-- A group takes less fuel than the teams that it is a group of.
sort_fuel-group :
    (tiebreakers cs g ids : List String) (c : String) (fuel : ℕ)
    → length g ≤ length ids
    → sort_fuel tiebreakers (c ∷ cs) ids ≤ suc fuel
    → sort_fuel tiebreakers (if ltb (length g) (length ids) then tiebreakers else cs) g ≤ fuel
sort_fuel-group tiebreakers cs g ids c fuel le h = elim (Bool-cases (ltb (length g) (length ids))) [
  | inl e ↦
      let less : length g < length ids = ground arith in
      rw e (omega (arith, fuel_left (length g) (length ids) (length tiebreakers) less))
  | inr e ↦ let same : length g ≡ length ids = ground arith in rw (e, same) (omega arith)
]

-- The same teams in some order, so that what holds of every one of the first list holds of the second's.
abbrev pub Reorders : List String → List String → Type 1
Reorders r g = Perm r g × ((P : String → Type 0) → All P g → All P r)

-- What a group is sorted to.
abbrev pub Resolves : (List String → Option (List String)) → List String → Type 1
Resolves f g = (r : List String) × (f g ≡ some r) × Reorders r g

pub resolve_all-cons :
    (f : List String → Option (List String)) (g : List String) (gs : List (List String))
    {r s : List String}
    → f g ≡ some r
    → resolve_all f gs ≡ some s
    → resolve_all f (g ∷ gs) ≡ some (r ++ s)
unfolding resolve_all
resolve_all-cons f g gs e d = ground arith

pub All-split {κ} :
    (P : String → Type κ) (xs ys : List String) → All P (xs ++ ys) → All P xs × All P ys
All-split P [] ys h = (tt, h)
All-split P (x ∷ xs) ys h = let (a, b) = All-split P xs ys h.1 in ((h.0, a), b)

pub Reorders-append :
    (r g s h : List String) → Reorders r g → Reorders s h → Reorders (r ++ s) (g ++ h)
Reorders-append r g s h (p, k) (q, l) =
    (Perm.append p q, λ P a. let (b, c) = All-split P g h a in All-append P r s (k P b) (l P c))

resolve_all-Reorders :
    (f : List String → Option (List String)) (gs : List (List String))
    → All (Resolves f) gs
    → (r : List String) × (resolve_all f gs ≡ some r) × Reorders r (joined gs)
unfolding resolve_all flat_map
resolve_all-Reorders f [] a = ([], refl, (Perm.refl [], λ P h. h))
resolve_all-Reorders f (g ∷ gs) ((r, e, p), a) =
    let (s, d, q) = resolve_all-Reorders f gs a in
    (r ++ s, resolve_all-cons f g gs e d, Reorders-append r g s (joined gs) p q)

module _ (locale_leb : String → String → Bool) (stats : Dict TeamStats) (ms : List CalculatorMatch)
    (tiebreakers : List String) where
  -- The call for a group.
  abbrev pub sort_group : ℕ → List String → List String → List String → Option (List String)
  sort_group fuel cs ids g =
      sort_teams locale_leb stats ms tiebreakers fuel
        (if ltb (length g) (length ids) then tiebreakers else cs) g

  -- The calls for the groups end, where calls with that fuel do.
  pub groups_end :
      (fuel : ℕ) (c : String) (cs ids : List String)
      → ((criteria g : List String)
          → sort_fuel tiebreakers criteria g ≤ fuel
          → Resolves (sort_teams locale_leb stats ms tiebreakers fuel criteria) g)
      → sort_fuel tiebreakers (c ∷ cs) ids ≤ suc fuel
      → All (Resolves (sort_group fuel cs ids)) (
          tied_groups
            (criterion_of stats ms c ids)
            (sort (more_first (criterion_of stats ms c ids)) ids))
  groups_end fuel c cs ids ends h =
      let value = criterion_of stats ms c ids in
      let sorted = sort (more_first value) ids in
      let gs = tied_groups value sorted in
      let size : length (joined gs) ≡ length ids =
        ap length (joined-tied_groups value sorted) ∙ length-sort (more_first value) ids in
      All-imp (λ g. length g ≤ length (joined gs)) (Resolves (sort_group fuel cs ids)) gs
        (λ g le.
          ends (if ltb (length g) (length ids) then tiebreakers else cs) g
            (sort_fuel-group tiebreakers cs g ids c fuel (subst (λ n. length g ≤ n) size le) h))
        (group-length gs)

  -- With as much fuel as the teams and the criteria ask for, the recursion ends.
  pub sort_teams-Reorders :
      (fuel : ℕ) (criteria ids : List String)
      → sort_fuel tiebreakers criteria ids ≤ fuel
      → Resolves (sort_teams locale_leb stats ms tiebreakers fuel criteria) ids
  unfolding sort_teams
  sort_teams-Reorders zero criteria ids h = absurd (omega arith)
  sort_teams-Reorders (suc fuel) [] ids h = elim (Bool-cases (leb (length ids) 1)) [
    | inl e ↦ (ids, rw e refl, (Perm.refl ids, λ P a. a))
    | inr e ↦ (
      sort locale_leb ids,
      rw e refl,
      (sort-perm locale_leb ids, λ P a. All-sort locale_leb P ids a),
    )
  ]
  sort_teams-Reorders (suc fuel) (c ∷ cs) ids h = elim (Bool-cases (leb (length ids) 1)) [
    | inl e ↦ (ids, rw e refl, (Perm.refl ids, λ P a. a))
    | inr e ↦
        let value = criterion_of stats ms c ids in
        let sorted = sort (more_first value) ids in
        let gs = tied_groups value sorted in
        let whole : sorted ≡ joined gs = sym (joined-tied_groups value sorted) in
        let (r, d, (p, k)) =
          resolve_all-Reorders (sort_group fuel cs ids) gs
            (groups_end fuel c cs ids (sort_teams-Reorders fuel) h) in
        (
          r,
          rw e d,
          (
            Perm.trans (subst (Perm r) (sym whole) p) (sort-perm (more_first value) ids),
            λ P a. k P (subst (All P) whole (All-sort (more_first value) P ids a)),
          ),
        )
  ]
