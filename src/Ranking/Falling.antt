-- ===== src/Ranking/Falling.antt =====
-- The order of the ranking and of its tied blocks.
use mathlib.Core.List.{flat_map}
use intereng_api.Base.{
  ◌≡◌, ◌≤◌, arith, String, Bool, true, false, List, [], ◌∷◌, ◌++◌, ◌==◌, length, leb, inl, inr,
  Bool-cases, refl, sym, leb→le,
}
use intereng_api.Base.Int.{ℤ, pos, eq_ℤ, eq_ℤ_iff, ◌≤ℤ◌}
use intereng_api.Base.Order.{All, All-imp, All-tabulate, Ordered-imp}
use intereng_api.Base.Sort.{sort, sort-Ordered, All-sort}
use intereng_api.Regulation.{StandingsRule, Tiebreaker}
use intereng_api.Standings.{CountedMatch, Table}
use intereng_api.Ranking.{
  Buckets, put_bucket, group_from, group_by, block_value, row_of, greater_first, is_sorteio,
  rank_block, ranking,
}
use intereng_api.Ranking.Buckets.{group_by-Keyed, Falling, within, flat_map-Falling}
use intereng_api.Ranking.Permutation.{rank_block-All}

module _ (value : String → ℤ) (order : List String → List String)
    (keeps : (P : String → Type 0) (l : List String) → All P l → All P (order l)) where
  -- Buckets in falling order, each ordered in any way that makes up nothing.
  regroup-Falling :
      (ids : List String)
      → Falling value
          (flat_map (λ (b : ℤ × List String). order b.1) (sort greater_first (group_by value ids)))
  regroup-Falling ids =
      let groups = group_by value ids in
      flat_map-Falling value (λ (b : ℤ × List String). order b.1) (sort greater_first groups)
        (Ordered-imp (λ b c. greater_first b c ≡ true) (λ (b c : ℤ × List String). c.0 ≤ℤ b.0) _
          (λ b c h. ground arith)
          (sort-Ordered greater_first (λ x y z h k. ground arith) (λ x y h. ground arith) groups))
        (All-sort greater_first (λ (b : ℤ × List String). All (λ id. value id ≡ b.0) (order b.1))
          groups
          (All-imp (λ (b : ℤ × List String). All (λ id. value id ≡ b.0) b.1)
            (λ (b : ℤ × List String). All (λ id. value id ≡ b.0) (order b.1)) groups
            (λ b. keeps (λ id. value id ≡ b.0) b.1)
            (group_by-Keyed (λ k id. value id ≡ k) value ids (All-tabulate _ ids (λ id. refl)))))

-- One group in the end: every id has its number.
module _ (value : String → ℤ) where
  length-put_bucket : (k : ℤ) (id : String) (bs : Buckets) → length bs ≤ length (put_bucket k id bs)
  unfolding put_bucket
  length-put_bucket k id [] = omega arith
  length-put_bucket k id ((j, l) ∷ bs) = ground (arith, length-put_bucket k id bs)

  length-group_from :
      (bs : Buckets) (ids : List String) → length bs ≤ length (group_from value bs ids)
  unfolding group_from
  length-group_from bs [] = omega arith
  length-group_from bs (id ∷ ids) = omega (
    arith,
    length-put_bucket (value id) id bs,
    length-group_from (put_bucket (value id) id bs) ids,
  )

  one_group :
      (k : ℤ) (l : List String) (ids : List String)
      → length (group_from value ((k, l) ∷ []) ids) ≤ 1
      → All (λ id. value id ≡ k) ids
  unfolding group_from put_bucket
  one_group k l [] h = tt
  one_group k l (id ∷ ids) h = elim (Bool-cases (eq_ℤ k (value id))) [
    | inl e ↦
        let rest : length (group_from value ((k, l ++ id ∷ []) ∷ []) ids) ≤ 1 = ground arith in
        (sym ((eq_ℤ_iff k (value id)).0 e), one_group k (l ++ id ∷ []) ids rest)
    | inr e ↦
        let rest : length (group_from value ((k, l) ∷ (value id, id ∷ []) ∷ []) ids) ≤ 1 =
          ground arith in
        absurd (omega (arith, length-group_from ((k, l) ∷ (value id, id ∷ []) ∷ []) ids, rest))
  ]

  -- The number of the only group.
  abbrev only : List String → ℤ
  only [] = pos 0
  only (id ∷ ids) = value id

  one_group_by :
      (ids : List String) → length (group_by value ids) ≤ 1 → All (λ id. value id ≡ only ids) ids
  unfolding group_by group_from put_bucket
  one_group_by [] h = tt
  one_group_by (id ∷ ids) h = (refl, one_group (value id) (id ∷ []) ids h)

module _ (locale_leb : String → String → Bool) (ms : List CountedMatch) (rule : StandingsRule)
    (rows : Table) where
  -- The ids of the ranking stand in falling order of their points.
  pub ranking-Falling :
      (ids : List String)
      → Falling (λ id. (row_of rows id).points) (ranking locale_leb ms rule rows ids)
  unfolding ranking
  ranking-Falling ids =
      regroup-Falling (λ id. (row_of rows id).points)
        (rank_block locale_leb ms rule rows rule.tiebreakers)
        (λ P l. rank_block-All locale_leb ms rule rows P rule.tiebreakers l) ids

  short-Falling :
      (value : String → ℤ) (block : List String) → leb (length block) 1 ≡ true → Falling value block
  short-Falling value [] h = tt
  short-Falling value (x ∷ []) h = (tt, tt)
  short-Falling value (x ∷ y ∷ ids) h = absurd (omega (arith, leb→le, h))

  -- Under a first criterion that is not the draw by lot, the order of a tied block falls in the value of
  -- that criterion, whatever the later criteria are.
  pub rank_block-Falling :
      (criterion : Tiebreaker) (rest : List Tiebreaker) (block : List String)
      → is_sorteio criterion ≡ false
      → Falling
          (block_value criterion block ms rule rows)
          (rank_block locale_leb ms rule rows (criterion ∷ rest) block)
  unfolding rank_block
  rank_block-Falling c cs block s =
      let value = block_value c block ms rule rows in
      let order = rank_block locale_leb ms rule rows cs in
      elim (Bool-cases (leb (length block) 1)) [
        | inl e ↦ rw e (short-Falling value block e)
        | inr e ↦ elim (Bool-cases (length (group_by value block) == 1)) [
          | inl o ↦
              rw (e, s, o)
                (within value (only value block) (order block) (
                  rank_block-All locale_leb ms rule rows (λ id. value id ≡ only value block) cs
                    block (one_group_by value block (ground arith))))
          | inr o ↦
              rw (e, s, o)
                (regroup-Falling value order (λ P l. rank_block-All locale_leb ms rule rows P cs l)
                  block)
        ]
      ]
