-- ===== src/Ranking/Buckets.antt =====
-- The groups that `computeStandings` and `rankBlock` make.
use mathlib.Core.List.{Perm, flat_map, perm_middle, append_assoc, append-nil}
use mathlib.Core.List.Perm
use mathlib.Core.Path.{subst}
use native.Mathlib.Nat.{le_refl}
use intereng_api.Base.{◌≡◌, sym, String, List, [], ◌∷◌, ◌++◌, Bool-cases, inl, inr}
use intereng_api.Base.Int.{ℤ, eq_ℤ, eq_ℤ_iff, ◌≤ℤ◌}
use intereng_api.Ranking.{Buckets, put_bucket, group_from, group_by}
use intereng_api.Base.Order.{All, All-append, All-imp, Ordered, Ordered-append}

abbrev pub members : Buckets → List String
members bs = flat_map (λ b. b.1) bs

put_bucket-perm :
    (k : ℤ) (id : String) (bs : Buckets) → Perm (members (put_bucket k id bs)) (id ∷ members bs)
unfolding put_bucket flat_map
put_bucket-perm k id [] = Perm.refl _
put_bucket-perm k id ((j, l) ∷ bs) = elim (Bool-cases (eq_ℤ j k)) [
  | inl e ↦ rw (e, append_assoc l (id ∷ []) (members bs)) (perm_middle l (members bs))
  | inr e ↦
      rw e (Perm.trans (Perm.append_left l (put_bucket-perm k id bs)) (perm_middle l (members bs)))
]

group_from-perm :
    (value : String → ℤ) (bs : Buckets) (ids : List String)
    → Perm (members (group_from value bs ids)) (members bs ++ ids)
unfolding group_from
group_from-perm value bs [] = rw append-nil (Perm.refl _)
group_from-perm value bs (id ∷ ids) =
    Perm.trans (group_from-perm value (put_bucket (value id) id bs) ids) (
      Perm.trans (Perm.append_right ids (put_bucket-perm (value id) id bs))
        (Perm.symm (perm_middle (members bs) ids)))

-- Grouping keeps every id, as often as it stands there.
pub group_by-perm :
    (value : String → ℤ) (ids : List String) → Perm (members (group_by value ids)) ids
unfolding group_by flat_map
group_by-perm value ids = group_from-perm value [] ids

module _ {κ} (P : ℤ → String → Type κ) where
  -- Every member of a group is in the relation to the number of its group.
  abbrev pub Keyed : Buckets → Type κ
  Keyed bs = All (λ (b : ℤ × List String). All (P b.0) b.1) bs

  put_bucket-Keyed :
      (k : ℤ) (id : String) (bs : Buckets) → P k id → Keyed bs → Keyed (put_bucket k id bs)
  unfolding put_bucket
  put_bucket-Keyed k id [] p h = ((p, tt), tt)
  put_bucket-Keyed k id ((j, l) ∷ bs) p h = elim (Bool-cases (eq_ℤ j k)) [
    | inl e ↦
        let same : k ≡ j = sym ((eq_ℤ_iff j k).0 e) in
        rw e (All-append (P j) l (id ∷ []) h.0 (subst (λ i. P i id) same p, tt), h.1)
    | inr e ↦ rw e (h.0, put_bucket-Keyed k id bs p h.1)
  ]

  group_from-Keyed :
      (value : String → ℤ) (bs : Buckets) (ids : List String)
      → Keyed bs
      → All (λ id. P (value id) id) ids
      → Keyed (group_from value bs ids)
  unfolding group_from
  group_from-Keyed value bs [] h a = h
  group_from-Keyed value bs (id ∷ ids) h a =
      group_from-Keyed value (put_bucket (value id) id bs) ids
        (put_bucket-Keyed (value id) id bs a.0 h) a.1

  pub group_by-Keyed :
      (value : String → ℤ) (ids : List String)
      → All (λ id. P (value id) id) ids
      → Keyed (group_by value ids)
  unfolding group_by
  group_by-Keyed value ids a = group_from-Keyed value [] ids tt a

-- A later id has no greater number.
abbrev pub Falling : (String → ℤ) → List String → Type 0
Falling value ids = Ordered (λ a b. value b ≤ℤ value a) ids

-- Groups in falling order of their numbers, each put in some order: the whole falls.
module _ (value : String → ℤ) where
  -- Ids that share a number fall.
  pub within : (k : ℤ) (ids : List String) → All (λ id. value id ≡ k) ids → Falling value ids
  within k [] h = tt
  within k (id ∷ ids) h = (
    All-imp (λ j. value j ≡ k) (λ j. value j ≤ℤ value id) ids (λ j e. rw (e, h.0) (le_refl _)) h.1,
    within k ids h.1,
  )

module _ (value : String → ℤ) (f : ℤ × List String → List String) where
  abbrev Constant : Buckets → Type 0
  Constant bs = All (λ b. All (λ id. value id ≡ b.0) (f b)) bs

  below :
      (k : ℤ) (bs : Buckets)
      → All (λ (c : ℤ × List String). c.0 ≤ℤ k) bs
      → Constant bs
      → All (λ id. value id ≤ℤ k) (flat_map f bs)
  unfolding flat_map
  below k [] h c = tt
  below k (b ∷ bs) h c =
      All-append (λ id. value id ≤ℤ k) (f b) (flat_map f bs)
        (All-imp (λ id. value id ≡ b.0) (λ id. value id ≤ℤ k) (f b) (λ id e. rw e h.0) c.0)
        (below k bs h.1 c.1)

  pub flat_map-Falling :
      (bs : Buckets)
      → Ordered (λ (b c : ℤ × List String). c.0 ≤ℤ b.0) bs
      → Constant bs
      → Falling value (flat_map f bs)
  unfolding flat_map
  flat_map-Falling [] o c = tt
  flat_map-Falling (b ∷ bs) o c =
      Ordered-append (λ x y. value y ≤ℤ value x) (f b) (flat_map f bs) (within value b.0 (f b) c.0)
        (flat_map-Falling bs o.1 c.1)
        (All-imp (λ id. value id ≡ b.0) (λ id. All (λ y. value y ≤ℤ value id) (flat_map f bs)) (f b)
          (λ id e. rw e (below b.0 bs o.0 c.1)) c.0)
