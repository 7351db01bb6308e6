-- ===== src/Authority/Limits.antt =====
-- How far the managers of a discipline and of a team reach: `authorize` against the tables.
use intereng_api.Base.{
  String, ◌≡◌, refl, sym, ap, ◌∙◌, arith, Bool, true, false, ◌&&◌, Option, none, some, ◌===◌,
  eq_iff, find-At, At, inl, inr, Option-cases,
}
use intereng_api.Http.{HttpError, not_found, ok, fail, >>=-Returns, throw_if}
use intereng_api.Json.{Fields}
use intereng_api.Validation.{action_id}
use intereng_api.Database.{EditionDiscipline, TournamentRow, MatchRow, Tables, User}
use intereng_api.Access.{discipline}
use intereng_api.Authority.Actions.{
  ActionType, match_update, match_delete, match_start, match_update_clock, match_register_event,
  match_attribute_event, match_claim_operator, match_release_operator, match_undo_event,
  match_finish, match_correct_result, match_record_result, match_schedule, category_create,
  discipline_update, is_manager, is_global,
}
use intereng_api.Authority.{
  is_given, is_staff_upsert, or_error, own_discipline, tournament_of, match_of, match_target,
  target_discipline_id, authorize_target, authorize_manager, authorize, is_athlete_action,
}

-- The actions on a match that is there.
abbrev pub is_match_action : ActionType → Bool
is_match_action match_update = true
is_match_action match_delete = true
is_match_action match_start = true
is_match_action match_update_clock = true
is_match_action match_register_event = true
is_match_action match_attribute_event = true
is_match_action match_claim_operator = true
is_match_action match_release_operator = true
is_match_action match_undo_event = true
is_match_action match_finish = true
is_match_action match_correct_result = true
is_match_action match_record_result = true
is_match_action _ = false

or_error-ok :
    {A : Type 0} (o : Option A) (e : HttpError) {a : A} → or_error o (fail e) ≡ ok a → o ≡ some a
or_error-ok none e h = cc
or_error-ok (some x) e h = ground arith

throw_if-ok : (b : Bool) (e : HttpError) → throw_if b e ≡ ok tt → b ≡ false
throw_if-ok true e h = cc
throw_if-ok false e h = refl

module _ {R : Type 0} (t : Tables R) (edition : String) where
  -- A match that is played in a category of the discipline, in the edition.
  pub record PlayedIn (id own : String) : Type 0 where
    pub match_row : MatchRow
    pub match_stored : At match_row t.matches
    pub same_id : match_row.id ≡ id
    pub category : TournamentRow
    pub category_stored : At category t.tournaments
    pub of_category : match_row.tournament ≡ category.id
    pub of_discipline : category.discipline ≡ own
    pub discipline_row : EditionDiscipline
    pub discipline_stored : At discipline_row t.disciplines
    pub own_row : discipline_row.id ≡ own
    pub of_edition : discipline_row.edition ≡ edition

  tournament_of-At :
      (id : String) (c : TournamentRow)
      → tournament_of t edition id ≡ some c
      → At c t.tournaments
        × (c.id ≡ id)
        × ((d : EditionDiscipline) × At d t.disciplines
            × (d.id ≡ c.discipline)
            × (d.edition ≡ edition))
  unfolding tournament_of own_discipline
  tournament_of-At id c h =
      let (stored, test) =
        find-At (λ x. x.id === id && is_given (own_discipline t edition x.discipline)) t.tournaments
          c h in
      elim (Option-cases (own_discipline t edition c.discipline)) [
        | inl e ↦ absurd (ground arith)
        | inr (d, e) ↦
            let (at_d, own) =
              find-At (λ x. x.id === c.discipline && x.edition === edition) t.disciplines d e in
            (
              stored,
              ground (arith, eq_iff c.id id),
              (
                d,
                at_d,
                ground (arith, eq_iff d.id c.discipline),
                ground (arith, eq_iff d.edition edition),
              ),
            )
      ]

  match_of-At :
      (id : String) (m : MatchRow) → match_of t edition id ≡ some m → At m t.matches × (m.id ≡ id)
  unfolding match_of
  match_of-At id m h =
      let (stored, test) =
        find-At (λ x. x.id === id && is_given (tournament_of t edition x.tournament)) t.matches m
          h in
      (stored, ground (arith, eq_iff m.id id))

  match_target-PlayedIn :
      (payload : Fields) (own : String)
      → match_target t edition payload ≡ ok own
      → (id : String) × (action_id payload "id" ≡ ok id) × PlayedIn id own
  unfolding match_target
  match_target-PlayedIn payload own h =
      let (id, e, h1) = >>=-Returns (action_id payload "id") _ h in
      let (m, e2, h2) = >>=-Returns (or_error (match_of t edition id) (fail not_found)) _ h1 in
      let (c, e3, h3) =
        >>=-Returns (or_error (tournament_of t edition m.tournament) (fail not_found)) _ h2 in
      let (at_m, same) = match_of-At id m (or_error-ok (match_of t edition id) not_found e2) in
      let (at_c, of, (d, at_d, own_d, ed)) =
        tournament_of-At m.tournament c
          (or_error-ok (tournament_of t edition m.tournament) not_found e3) in
      let q : c.discipline ≡ own = ground arith in
      (
        id,
        e,
        record {
          match_row = m;
          match_stored = at_m;
          same_id = same;
          category = c;
          category_stored = at_c;
          of_category = sym of;
          of_discipline = q;
          discipline_row = d;
          discipline_stored = at_d;
          own_row = own_d ∙ q;
          of_edition = ed;
        },
      )

  target_of_match :
      (a : ActionType) (payload : Fields)
      → is_match_action a ≡ true
      → target_discipline_id t edition a payload ≡ match_target t edition payload
  unfolding target_discipline_id
  target_of_match discipline_update payload h = cc
  target_of_match category_create payload h = cc
  target_of_match match_schedule payload h = cc
  target_of_match a payload h = ground arith

  not-global :
      (a : ActionType)
      → is_match_action a ≡ true
      → (is_global a ≡ false) × (is_staff_upsert a ≡ false)
  not-global a h = ground arith

  not-athlete : (a : ActionType) → is_match_action a ≡ true → is_athlete_action a ≡ false
  not-athlete a h = ground arith

  match_target-authorize_target :
      (own : String) (a : ActionType) (payload : Fields)
      → is_match_action a ≡ true
      → authorize_target t edition own a payload ≡ ok tt
      → match_target t edition payload ≡ ok own
  unfolding authorize_target
  match_target-authorize_target own a payload k h =
      let (target, e, h1) = >>=-Returns (target_discipline_id t edition a payload) _ h in
      let same : target ≡ own = ground (arith, eq_iff target own) in
      sym (target_of_match a payload k) ∙ e ∙ ap ok same

  -- Whoever is no super admin and acts for a discipline runs an action on a match that is there only where
  -- it is one for managers and the match is played in a category of that discipline in this edition.
  pub authorize-PlayedIn :
      (lower : String → String) (own : String) (u : User) (a : ActionType) (payload : Fields)
      → u.is_super_admin ≡ false
      → is_match_action a ≡ true
      → authorize t edition lower (discipline own) u a payload ≡ ok tt
      → (is_manager a ≡ true) × ((id : String) × (action_id payload "id" ≡ ok id) × PlayedIn id own)
  unfolding authorize authorize_manager authorize_target
  authorize-PlayedIn lower own u a payload n k h =
      let act : authorize_manager t edition own a payload ≡ ok tt =
        ground (arith, not-global a k) in
      let manager : is_manager a ≡ true = ground arith in
      let h2 : authorize_target t edition own a payload ≡ ok tt = ground (arith, not-athlete a k) in
      (
        manager,
        match_target-PlayedIn payload own (match_target-authorize_target own a payload k h2),
      )
