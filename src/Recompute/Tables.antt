-- ===== src/Recompute/Tables.antt =====
-- The tables that a recomputation leaves.
use intereng_api.Base.{
  ◌≡◌, ◌∙◌, refl, arith, String, Bool, true, false, not, ◌&&◌, List, [], ◌∷◌, ◌++◌, map, ◌===◌,
  ◌==◌, length, contains, all_different, inl, inr, Bool-cases, eq_iff,
}
use mathlib.Core.List.{append-nil}
use intereng_api.Base.Order.{All, All-append}
use intereng_api.Regulation.{StandingsRule}
use intereng_api.Standings.{CountedMatch}
use intereng_api.Ranking.{StandingRow, compute_standings}
use intereng_api.Status.{is_group, is_knockout}
use intereng_api.Knockout.{Group, Phase, Entry}
use intereng_api.Progress.{standings_of}
use intereng_api.Recompute.{
  Counted, without_phase, table_of, group_table, group_tables, phase_table, recompute_phases,
}

abbrev Of : String → List StandingRow → Type 0
Of id rows = All (λ r. r.phase_id ≡ id) rows

standings_of-append :
    (id : String) (rs ss : List StandingRow)
    → standings_of id (rs ++ ss) ≡ standings_of id rs ++ standings_of id ss
unfolding standings_of
standings_of-append id [] ss = refl
standings_of-append id (r ∷ rs) ss = ground (arith, standings_of-append id rs ss)

standings_of-all : (id : String) (rs : List StandingRow) → Of id rs → standings_of id rs ≡ rs
unfolding standings_of
standings_of-all id [] h = refl
standings_of-all id (r ∷ rs) h =
    ground (arith, h.0, eq_iff r.phase_id id, standings_of-all id rs h.1)

standings_of-none :
    (id other : String) (rs : List StandingRow)
    → (other === id) ≡ false
    → Of other rs
    → standings_of id rs ≡ []
unfolding standings_of
standings_of-none id other [] d h = refl
standings_of-none id other (r ∷ rs) d h = ground (arith, h.0, standings_of-none id other rs d h.1)

standings_of-without :
    (id : String) (rs : List StandingRow) → standings_of id (without_phase id rs) ≡ []
unfolding standings_of without_phase
standings_of-without id [] = refl
standings_of-without id (r ∷ rs) = ground (arith, standings_of-without id rs)

standings_of-without_other :
    (id other : String) (rs : List StandingRow)
    → (other === id) ≡ false
    → standings_of id (without_phase other rs) ≡ standings_of id rs
unfolding standings_of without_phase
standings_of-without_other id other [] d = refl
standings_of-without_other id other (r ∷ rs) d = ground (
  arith,
  eq_iff r.phase_id id,
  eq_iff r.phase_id other,
  eq_iff other id,
  standings_of-without_other id other rs d,
)

rows-Of :
    (id : String) (f : String → StandingRow) (ids : List String)
    → ((e : String) → (f e).phase_id ≡ id)
    → Of id (map f ids)
rows-Of id f [] h = tt
rows-Of id f (e ∷ ids) h = (h e, rows-Of id f ids h)

module _ (locale_leb : String → String → Bool) (rule : StandingsRule) (counted : Counted) where
  table_of-Of :
      (p : Phase) (ids : List String) (ms : List CountedMatch)
      → Of p.id (table_of locale_leb rule counted p ids ms)
  unfolding table_of compute_standings
  table_of-Of p ids ms = elim (Bool-cases (length ids == 0)) [
    | inl e ↦ rw e tt
    | inr e ↦ rw e (rows-Of p.id _ ids (λ i. refl))
  ]

  group_tables-Of :
      (p : Phase) (gs : List Group) → Of p.id (group_tables locale_leb rule counted p gs)
  unfolding group_tables group_table
  group_tables-Of p [] = tt
  group_tables-Of p (g ∷ gs) =
      All-append (λ r. r.phase_id ≡ p.id) (group_table locale_leb rule counted p g)
        (group_tables locale_leb rule counted p gs) (table_of-Of p g.entries _)
        (group_tables-Of p gs)

  phase_table-Of :
      (es : List Entry) (p : Phase) → Of p.id (phase_table locale_leb rule counted es p)
  unfolding phase_table
  phase_table-Of es p = elim (Bool-cases (is_group p.type_of && not (length p.groups == 0))) [
    | inl e ↦ rw e (group_tables-Of p p.groups)
    | inr e ↦ elim (Bool-cases (not (is_knockout p.type_of))) [
      | inl f ↦ rw (e, f) (table_of-Of p (map (λ x. x.id) es) _)
      | inr f ↦ rw (e, f) tt
    ]
  ]

  -- A later phase of another id leaves the rows of this one.
  recompute_phases-other :
      (es : List Entry) (id : String) (ps : List Phase) (rows : List StandingRow)
      → contains (map (λ p. p.id) ps) id ≡ false
      → standings_of id (recompute_phases locale_leb rule counted es ps rows) ≡ standings_of id rows
  unfolding recompute_phases
  recompute_phases-other es id [] rows h = refl
  recompute_phases-other es id (p ∷ ps) rows h =
      let here : (p.id === id) ≡ false = ground arith in
      let later : contains (map (λ q. q.id) ps) id ≡ false = ground arith in
      let table = phase_table locale_leb rule counted es p in
      recompute_phases-other es id ps (without_phase p.id rows ++ table) later
      ∙ standings_of-append id (without_phase p.id rows) table
      ∙ (rw (standings_of-none id p.id table here (phase_table-Of es p), append-nil)
          (standings_of-without_other id p.id rows here))

  -- After a recomputation, for phases whose ids are all different, the stored rows of every phase are its
  -- new table and nothing else, whatever rows were stored before.
  pub recompute_phases_lem :
      (es : List Entry) (ps : List Phase) (rows : List StandingRow)
      → all_different (map (λ p. p.id) ps) ≡ true
      → All
          (λ p.
            standings_of p.id (recompute_phases locale_leb rule counted es ps rows)
            ≡ phase_table locale_leb rule counted es p)
          ps
  unfolding recompute_phases
  recompute_phases_lem es [] rows h = tt
  recompute_phases_lem es (p ∷ ps) rows h =
      let alone : contains (map (λ q. q.id) ps) p.id ≡ false = ground arith in
      let later : all_different (map (λ q. q.id) ps) ≡ true = ground arith in
      let table = phase_table locale_leb rule counted es p in
      let next = without_phase p.id rows ++ table in
      (
        recompute_phases-other es p.id ps next alone
            ∙ standings_of-append p.id (without_phase p.id rows) table
            ∙ (rw (standings_of-without p.id rows)
                (standings_of-all p.id table (phase_table-Of es p))),
        recompute_phases_lem es ps next later,
      )
