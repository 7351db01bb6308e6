-- ===== src/Ranking/Permutation.antt =====
-- The entries of `rankBlock` and of `ordered` of `computeStandings`.
use mathlib.Core.List.{Perm, flat_map}
use mathlib.Core.List.Perm
use intereng_api.Base.{String, Bool, List, [], ◌∷◌, ◌==◌, length, leb, inl, inr, Bool-cases}
use intereng_api.Base.Int.{ℤ}
use intereng_api.Base.Order.{All, All-imp, All-flat_map}
use intereng_api.Base.Sort.{sort, sort-perm, flat_map-sort, All-sort}
use intereng_api.Regulation.{StandingsRule, Tiebreaker}
use intereng_api.Standings.{CountedMatch, Table}
use intereng_api.Ranking.{
  group_by, block_value, row_of, greater_first, is_sorteio, rank_block, ranking,
}
use intereng_api.Ranking.Buckets.{group_by-perm, group_by-Keyed}

-- Buckets sorted and each permuted hold the ids that were grouped.
flat_map-Perm {ℓ κ} :
    {A : Type ℓ} {B : Type κ} (f g : A → List B) (xs : List A)
    → ((x : A) → Perm (f x) (g x))
    → Perm (flat_map f xs) (flat_map g xs)
unfolding flat_map
flat_map-Perm f g [] h = Perm.refl _
flat_map-Perm f g (x ∷ xs) h = Perm.append (h x) (flat_map-Perm f g xs h)

module _ (value : String → ℤ) (order : List String → List String) where
  regroup-perm :
      (ids : List String)
      → ((l : List String) → Perm (order l) l)
      → Perm
          (flat_map (λ (b : ℤ × List String). order b.1) (sort greater_first (group_by value ids)))
          ids
  regroup-perm ids h =
      Perm.trans (flat_map-Perm (λ (b : ℤ × List String). order b.1) (λ b. b.1) _ (λ b. h b.1)) (
        Perm.trans (flat_map-sort greater_first (λ b. b.1) (group_by value ids))
          (group_by-perm value ids))

  pub regroup-All {κ} :
      (P : String → Type κ) (ids : List String)
      → ((l : List String) → All P l → All P (order l))
      → All P ids
      → All P
          (flat_map (λ (b : ℤ × List String). order b.1) (sort greater_first (group_by value ids)))
  regroup-All P ids h a =
      All-flat_map P (λ (b : ℤ × List String). order b.1) (sort greater_first (group_by value ids))
        (All-sort greater_first (λ (b : ℤ × List String). All P (order b.1)) (group_by value ids)
          (All-imp (λ (b : ℤ × List String). All P b.1) (λ (b : ℤ × List String). All P (order b.1))
            (group_by value ids) (λ b. h b.1) (group_by-Keyed (λ k id. P id) value ids a)))

module _ (locale_leb : String → String → Bool) (ms : List CountedMatch) (rule : StandingsRule)
    (rows : Table) where
  -- The order of a tied block under any criteria is a permutation of the block.
  pub rank_block-perm :
      (criteria : List Tiebreaker) (block : List String)
      → Perm (rank_block locale_leb ms rule rows criteria block) block
  unfolding rank_block
  rank_block-perm [] block = elim (Bool-cases (leb (length block) 1)) [
    | inl e ↦ rw e (Perm.refl _)
    | inr e ↦ rw e (sort-perm locale_leb block)
  ]
  rank_block-perm (c ∷ cs) block = elim (Bool-cases (leb (length block) 1)) [
    | inl e ↦ rw e (Perm.refl _)
    | inr e ↦ elim (Bool-cases (is_sorteio c)) [
      | inl s ↦ rw (e, s) (sort-perm locale_leb block)
      | inr s ↦
          elim (Bool-cases (length (group_by (block_value c block ms rule rows) block) == 1)) [
            | inl o ↦ rw (e, s, o) (rank_block-perm cs block)
            | inr o ↦
                rw (e, s, o)
                  (regroup-perm (block_value c block ms rule rows)
                    (rank_block locale_leb ms rule rows cs) block (λ l. rank_block-perm cs l))
          ]
    ]
  ]

  -- What holds of every entry of a block holds of every entry of its order.
  pub rank_block-All {κ} :
      (P : String → Type κ) (criteria : List Tiebreaker) (block : List String)
      → All P block
      → All P (rank_block locale_leb ms rule rows criteria block)
  unfolding rank_block
  rank_block-All P [] block h = elim (Bool-cases (leb (length block) 1)) [
    | inl e ↦ rw e h
    | inr e ↦ rw e (All-sort locale_leb P block h)
  ]
  rank_block-All P (c ∷ cs) block h = elim (Bool-cases (leb (length block) 1)) [
    | inl e ↦ rw e h
    | inr e ↦ elim (Bool-cases (is_sorteio c)) [
      | inl s ↦ rw (e, s) (All-sort locale_leb P block h)
      | inr s ↦
          elim (Bool-cases (length (group_by (block_value c block ms rule rows) block) == 1)) [
            | inl o ↦ rw (e, s, o) (rank_block-All P cs block h)
            | inr o ↦
                rw (e, s, o)
                  (regroup-All (block_value c block ms rule rows)
                    (rank_block locale_leb ms rule rows cs) P block (λ l. rank_block-All P cs l) h)
          ]
    ]
  ]

  -- The ranking is a permutation of the ids.
  pub ranking-perm : (ids : List String) → Perm (ranking locale_leb ms rule rows ids) ids
  unfolding ranking
  ranking-perm ids =
      regroup-perm (λ id. (row_of rows id).points)
        (rank_block locale_leb ms rule rows rule.tiebreakers) ids
        (λ l. rank_block-perm rule.tiebreakers l)
