-- ===== src/Ranking/Ranks.antt =====
-- The ranks of `computeStandings`.
use mathlib.Core.Logic.{∥∥₁_elim}
use mathlib.Core.List.{
  Perm, Mem, Nodup, Nodup-cons, mem-cons_self, not-mem-nil, eq-or-mem_of_mem-cons, Nodup-nil,
  mem-cons_of_mem, map-map,
}
use mathlib.Core.List
use mathlib.Core.List.Perm
use intereng_api.Base.{
  ℕ, ◌+◌, ◌≡◌, arith, String, Bool, true, false, Option, some, suc, ◌≤◌, ◌<◌, ◌⊎◌, ◌-◌, get_elem?,
  get_elem?-map, List, [], ◌∷◌, map, contains, all_different, ◌===◌, refl, ap, ◌∙◌, inl, inr,
  Bool-cases, eq_iff,
}
use intereng_api.Base.Dict
use intereng_api.Base.Dict.{Dict, set_all, get-set_all, get-set}
use intereng_api.Regulation.{StandingsRule}
use intereng_api.Standings.{CountedMatch, accumulate}
use intereng_api.Ranking.{StandingRow, number_from, ranks_of, ranking, compute_standings}
use intereng_api.Base.Int.{◌≤ℤ◌}
use intereng_api.Base.Order.{get_elem?-Ordered}
use intereng_api.Standings.{Table}
use intereng_api.Ranking.{row_of}
use intereng_api.Ranking.Falling.{ranking-Falling}
use intereng_api.Ranking.Permutation.{ranking-perm}

-- n, n + 1, …
abbrev pub places : ℕ → List String → List (Option ℕ)
places n [] = []
places n (x ∷ xs) = some n ∷ places (n + 1) xs

contains→Mem : (xs : List String) (s : String) → contains xs s ≡ true → Mem s xs
contains→Mem [] s h = cc
contains→Mem (x ∷ xs) s h = elim (Bool-cases (x === s)) [
  | inl e ↦ rw ((eq_iff x s).0 e) mem-cons_self
  | inr e ↦ mem-cons_of_mem x (contains→Mem xs s (ground arith))
]

not_in : (xs : List String) (s : String) → ¬ Mem s xs → contains xs s ≡ false
not_in xs s h = elim (Bool-cases (contains xs s)) [
  | inl e ↦ absurd (h (contains→Mem xs s e))
  | inr e ↦ e
]

not_Mem : (xs : List String) (s : String) → contains xs s ≡ false → ¬ Mem s xs
not_Mem [] s h m = not-mem-nil m
not_Mem (x ∷ xs) s h m =
    ∥∥₁_elim (eq-or-mem_of_mem-cons m) (λ a. elim a [ ])
      (λ c. elim c [ inl e ↦ ground (arith, eq_iff x s) | inr k ↦ not_Mem xs s (ground arith) k ])

different-Nodup : (xs : List String) → all_different xs ≡ true → Nodup xs
different-Nodup [] h = Nodup-nil
different-Nodup (x ∷ xs) h =
    Nodup-cons.1 (not_Mem xs x (ground arith), different-Nodup xs (ground arith))

has-number_from :
    (j : String) (n : ℕ) (o : List String) → Dict.has j (number_from n o) ≡ contains o j
unfolding Dict.has number_from
has-number_from j n [] = refl
has-number_from j n (x ∷ o) = ground (arith, has-number_from j (n + 1) o)

ranks_from :
    (n : ℕ) (d : Dict ℕ) (o : List String)
    → Nodup o
    → map (λ id. Dict.get id (set_all d (number_from n o))) o ≡ places n o
unfolding number_from set_all
ranks_from n d [] u = refl
ranks_from n d (x ∷ o) u =
    let apart = Nodup-cons.0 u in
    let kept =
      get-set_all x (Dict.set x n d) (number_from (n + 1) o)
        (has-number_from x (n + 1) o ∙ not_in o x apart.0) in
    let first : Dict.get x (set_all (Dict.set x n d) (number_from (n + 1) o)) ≡ some n =
      ground (arith, kept, get-set x x n d, eq_iff x x) in
    rw (first, ranks_from (n + 1) (Dict.set x n d) o apart.1)

same_places :
    (n : ℕ) (xs ys : List String) → List.length xs ≡ List.length ys → places n xs ≡ places n ys
same_places n [] [] h = refl
same_places n [] (y ∷ ys) h = cc
same_places n (x ∷ xs) [] h = cc
same_places n (x ∷ xs) (y ∷ ys) h = rw (same_places (n + 1) xs ys cc)

-- The place under which an id was written.
number_from-get :
    (id : String) (n : ℕ) (d : Dict ℕ) (o : List String) (p : ℕ)
    → Dict.get id (set_all d (number_from n o)) ≡ some p
    → (Dict.get id d ≡ some p) ⊎ ((n ≤ p) × (get_elem? o (p - n) ≡ some id))
unfolding number_from set_all
number_from-get id n d [] p h = inl h
number_from-get id n d (x ∷ o) p h = elim (number_from-get id (n + 1) (Dict.set x n d) o p h) [
  | inl e ↦ elim (Bool-cases (x === id)) [
    | inl q ↦
        let same : x ≡ id = (eq_iff x id).0 q in
        let here : p ≡ n = ground (arith, get-set x id n d) in
        let none_left : p - n ≡ 0 = omega arith in inr (omega arith, rw none_left (ap some same))
    | inr q ↦ inl (ground (arith, get-set x id n d))
  ]
  | inr (l, e) ↦ let step : p - n ≡ suc (p - (n + 1)) = omega arith in inr (omega arith, rw step e)
]

module _ (locale_leb : String → String → Bool) (phase_id : String) (ids : List String)
    (ms : List CountedMatch) (rule : StandingsRule) where
  abbrev rows : Table
  rows = accumulate ids ms rule

  abbrev order : List String
  order = ranking locale_leb ms rule rows ids

  -- For entries that are all different, the ranks of the rows are the numbers from 1 to the number of
  -- entries, each of them once.
  pub ranks-perm :
      all_different ids ≡ true
      → Perm (map (λ r. r.rank) (compute_standings locale_leb phase_id ids ms rule)) (places 1 ids)
  unfolding compute_standings ranks_of Dict.of_entries
  ranks-perm u =
      let p = ranking-perm locale_leb ms rule (accumulate ids ms rule) ids in
      let rank_of : String → Option ℕ = λ id. Dict.get id (ranks_of order) in
      rw
        (
          map-map (λ (r : StandingRow). r.rank) _ ids,
          ← same_places 1 order ids (Perm.length-eq p),
          ← ranks_from 1 [] order (Perm.nodup (Perm.symm p) (different-Nodup ids u)),
        )
        (Perm.map rank_of (Perm.symm p))

  placed :
      (a b : String) (p q : ℕ)
      → Dict.get a (set_all [] (number_from 1 order)) ≡ some p
      → Dict.get b (set_all [] (number_from 1 order)) ≡ some q
      → p < q
      → (row_of rows b).points ≤ℤ (row_of rows a).points
  placed a b p q ha hb l = elim (number_from-get a 1 [] order p ha) [
    | inl e ↦ absurd (unfold Dict.get in cc)
    | inr (la, ea) ↦ elim (number_from-get b 1 [] order q hb) [
      | inl e ↦ absurd (unfold Dict.get in cc)
      | inr (lb, eb) ↦
          get_elem?-Ordered (λ x y. (row_of rows y).points ≤ℤ (row_of rows x).points) order (p - 1)
            (q - 1) a b (ranking-Falling locale_leb ms rule rows ids) (omega arith) ea eb
    ]
  ]

  -- Of two rows that one call of `computeStandings` makes, the one with the lower rank has at least as
  -- many points. In a group phase that is a call for each group.
  pub ranks_follow_points :
      (i j : ℕ) (r s : StandingRow) (p q : ℕ)
      → get_elem? (compute_standings locale_leb phase_id ids ms rule) i ≡ some r
      → get_elem? (compute_standings locale_leb phase_id ids ms rule) j ≡ some s
      → r.rank ≡ some p
      → s.rank ≡ some q
      → p < q
      → s.stats.points ≤ℤ r.stats.points
  unfolding compute_standings ranks_of Dict.of_entries
  ranks_follow_points i j r s p q hi hj hp hq l =
      let (a, ea) = get_elem?-map _ ids i r hi in
      let (b, eb) = get_elem?-map _ ids j s hj in
      let pa : Dict.get a (set_all [] (number_from 1 order)) ≡ some p = ap (λ x. x.rank) ea ∙ hp in
      let pb : Dict.get b (set_all [] (number_from 1 order)) ≡ some q = ap (λ x. x.rank) eb ∙ hq in
      rw (← ap (λ x. x.stats) ea, ← ap (λ x. x.stats) eb) (placed a b p q pa pb l)
