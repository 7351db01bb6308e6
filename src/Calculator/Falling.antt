-- ===== src/Calculator/Falling.antt =====
-- The order that `sortTeamsRecursive` of src/standings/standings-calculator.ts gives.
use mathlib.Core.List.{Perm, flat_map}
use mathlib.Core.List.Perm
use mathlib.Core.Path.{subst}
use intereng_api.Base.{
  ℕ, zero, suc, ◌≤◌, ◌≡◌, refl, sym, ◌∙◌, arith, String, Bool, true, Option, some, List, [], ◌∷◌,
  ◌++◌, leb, length, inl, inr, Bool-cases, leb→le,
}
use intereng_api.Base.Int.{ℤ, eq_ℤ, eq_ℤ_iff, ◌≤ℤ◌}
use intereng_api.Base.Dict.{Dict}
use intereng_api.Base.Order.{All, All-imp, All-append, Ordered-append, Ordered-imp}
use intereng_api.Base.Sort.{sort, sort-perm, sort-Ordered}
use intereng_api.Ranking.Buckets.{Falling, within}
use intereng_api.Calculator.{
  TeamStats, CalculatorMatch, criterion_of, more_first, tied_from, tied_groups, resolve_all,
  sort_teams, sort_fuel,
}
use intereng_api.Calculator.Termination.{
  joined, joined-tied_from, joined-tied_groups, Reorders, Resolves, resolve_all-cons,
  Reorders-append, sort_group, groups_end, sort_teams-Reorders,
}

module _ (value : String → ℤ) where
  -- The teams of a group have one number, and those of the groups after it have no greater one.
  abbrev Levels : List (List String) → Type 0
  Levels [] = Unit
  Levels (g ∷ gs) =
      ((k : ℤ) × All (λ t. value t ≡ k) g × All (λ t. value t ≤ℤ k) (joined gs)) × Levels gs

  tied_from-Levels :
      (prev : String) (current ts : List String)
      → All (λ t. value t ≡ value prev) current
      → Falling value (prev ∷ ts)
      → Levels (tied_from value prev current ts)
  unfolding tied_from flat_map
  tied_from-Levels prev current [] a o = ((value prev, a, tt), tt)
  tied_from-Levels prev current (t ∷ ts) a o = elim (Bool-cases (eq_ℤ (value t) (value prev))) [
    | inl e ↦
        let same : value t ≡ value prev = (eq_ℤ_iff (value t) (value prev)).0 e in
        rw e (
          tied_from-Levels t (current ++ (t ∷ [])) ts
            (All-append (λ x. value x ≡ value t) current (t ∷ [])
              (All-imp (λ x. value x ≡ value prev) (λ x. value x ≡ value t) current
                (λ x q. q ∙ sym same) a)
              (refl, tt))
            o.1)
    | inr e ↦ rw e (
      (
        value prev,
        a,
        subst (All (λ x. value x ≤ℤ value prev)) (sym (joined-tied_from value t (t ∷ []) ts)) o.0,
      ),
      tied_from-Levels t (t ∷ []) ts (refl, tt) o.1,
    )
  ]

  tied_groups-Levels : (ts : List String) → Falling value ts → Levels (tied_groups value ts)
  unfolding tied_groups
  tied_groups-Levels [] o = tt
  tied_groups-Levels (t ∷ ts) o = tied_from-Levels t (t ∷ []) ts (refl, tt) o

  -- Groups in falling order, each put in any order, fall as a whole.
  resolve_all-Falling :
      (f : List String → Option (List String)) (gs : List (List String))
      → All (Resolves f) gs
      → Levels gs
      → (r : List String) × (resolve_all f gs ≡ some r) × (Reorders r (joined gs) × Falling value r)
  unfolding resolve_all flat_map
  resolve_all-Falling f [] a l = ([], refl, ((Perm.refl [], λ P h. h), tt))
  resolve_all-Falling f (g ∷ gs) ((r, e, p), a) ((k, same, below), l) =
      let (s, d, (q, o)) = resolve_all-Falling f gs a l in
      let mine = p.1 (λ t. value t ≡ k) same in
      let later = q.1 (λ t. value t ≤ℤ k) below in
      (
        r ++ s,
        resolve_all-cons f g gs e d,
        (
          Reorders-append r g s (joined gs) p q,
          Ordered-append (λ x y. value y ≤ℤ value x) r s (within value k r mine) o
              (All-imp (λ t. value t ≡ k) (λ t. All (λ y. value y ≤ℤ value t) s) r
                (λ t h. rw h later) mine),
        ),
      )

  sort-Falling : (ids : List String) → Falling value (sort (more_first value) ids)
  sort-Falling ids =
      Ordered-imp (λ a b. more_first value a b ≡ true) (λ a b. value b ≤ℤ value a) _
        (λ a b h. ground arith)
        (sort-Ordered (more_first value) (λ x y z h k. ground arith) (λ x y h. ground arith) ids)

  short-Falling : (ids : List String) → leb (length ids) 1 ≡ true → Falling value ids
  short-Falling [] h = tt
  short-Falling (x ∷ []) h = (tt, tt)
  short-Falling (x ∷ y ∷ ids) h = absurd (omega (arith, leb→le, h))

module _ (locale_leb : String → String → Bool) (stats : Dict TeamStats) (ms : List CalculatorMatch)
    (tiebreakers : List String) where
  -- With as much fuel as the teams and the criteria ask for, the recursion ends. It gives the same teams, none
  -- twice and none left out, in an order that falls in the first criterion among these teams.
  pub sort_teams-Falling :
      (fuel : ℕ) (c : String) (cs ids : List String)
      → sort_fuel tiebreakers (c ∷ cs) ids ≤ fuel
      → (r : List String) × (sort_teams locale_leb stats ms tiebreakers fuel (c ∷ cs) ids ≡ some r)
        × (Perm r ids × Falling (criterion_of stats ms c ids) r)
  unfolding sort_teams
  sort_teams-Falling zero c cs ids h = absurd (omega arith)
  sort_teams-Falling (suc fuel) c cs ids h =
      let value = criterion_of stats ms c ids in
      elim (Bool-cases (leb (length ids) 1)) [
        | inl e ↦ (ids, rw e refl, (Perm.refl ids, short-Falling value ids e))
        | inr e ↦
            let gs = tied_groups value (sort (more_first value) ids) in
            let whole : joined gs ≡ sort (more_first value) ids =
              joined-tied_groups value (sort (more_first value) ids) in
            let (r, d, (p, o)) =
              resolve_all-Falling value (sort_group locale_leb stats ms tiebreakers fuel cs ids) gs
                (groups_end locale_leb stats ms tiebreakers fuel c cs ids
                  (sort_teams-Reorders locale_leb stats ms tiebreakers fuel) h)
                (tied_groups-Levels value (sort (more_first value) ids) (sort-Falling value ids)) in
            (
              r,
              rw e d,
              (Perm.trans (subst (Perm r) whole p.0) (sort-perm (more_first value) ids), o),
            )
      ]
