-- ===== src/Qualify/Best.antt =====
-- How many entries `collectQualifiers` lets go on.
use intereng_api.Base.{
  ℕ, zero, suc, ◌+◌, ◌*◌, ◌≤◌, ◌≡◌, arith, String, Bool, false, ◌||◌, List, [], ◌∷◌, length, take,
  ◌==◌, length-append, length-take,
}
use intereng_api.Base.Dict.{Dict}
use intereng_api.Ranking.{StandingRow}
use intereng_api.Status.{is_league}
use intereng_api.Knockout.{Group, Phase, AdvancementRule}
use intereng_api.Qualify.{thirds, slots_at, direct_from, by_entry, collect_qualifiers}

length-slots_at :
    (rows : Dict StandingRow) (k : ℕ) (gs : List Group) → length (slots_at rows k gs) ≤ length gs
unfolding slots_at
length-slots_at rows k [] = omega arith
length-slots_at rows k (g ∷ gs) = ground (arith, length-slots_at rows k gs)

length-direct_from :
    (rows : Dict StandingRow) (gs : List Group) (n k : ℕ)
    → length (direct_from rows gs n k) ≤ n * length gs
unfolding direct_from
length-direct_from rows gs zero k = omega arith
length-direct_from rows gs (suc n) k = omega (
  arith,
  length-append (slots_at rows k gs) (direct_from rows gs n (k + 1)),
  length-slots_at rows k gs,
  length-direct_from rows gs n (k + 1),
)

module _ (locale_leb : String → String → Bool) (standings : List StandingRow) (phase : Phase)
    (rule : AdvancementRule) where
  -- From a phase with groups at most as many entries qualify as the direct places of all groups and the
  -- best thirds make together.
  pub length-collect_qualifiers :
      (length phase.groups == 0 || is_league phase.type_of) ≡ false
      → length (collect_qualifiers locale_leb standings phase rule)
        ≤ rule.per_group * length phase.groups + rule.best_thirds
  unfolding collect_qualifiers
  length-collect_qualifiers h =
      let rows = by_entry standings in
      let direct = direct_from rows phase.groups rule.per_group 1 in
      let best = take rule.best_thirds (thirds locale_leb standings phase.groups rule.per_group) in
      rw h (
        omega (
          arith,
          length-append direct best,
          length-direct_from rows phase.groups rule.per_group 1,
          length-take rule.best_thirds (thirds locale_leb standings phase.groups rule.per_group),
        ))
