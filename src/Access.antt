-- ===== src/Access.antt =====
-- Which edition a request means and what its user may see of it:
-- src/edition-snapshots/active-edition.resolver.ts and `resolveScope` of
-- src/edition-snapshots/edition-snapshots.service.ts. `id_leb` is the order of the database on ids.
pub mod Scopes
use intereng_api.Base.{
  ℕ, String, Bool, true, false, not, ◌&&◌, ◌||◌, Option, none, some, List, [], ◌∷◌, ◌===◌, ◌==◌,
  ltb, leb, length, find, filter, any, contains, if◌then◌else◌,
}
use intereng_api.Http.{
  HttpError, bad_request, forbidden, not_found, Reply, ok, fail, ◌>>=◌, ◌>>◌, throw_if,
}
use intereng_api.Standings.{truthy}
use intereng_api.Database.{
  Competition, Edition, RoleType, edition_admin, discipline_manager, team_manager, StaffRole,
  Tables, User,
}

-- What `ActiveEditionResolver.resolve` returns or throws.
pub data Resolved : Type 0 where
  found : Edition → Resolved
  no_active_edition unknown_edition : Resolved

abbrev pub is_only : {A : Type 0} → List A → Option A
is_only (x ∷ []) = some x
is_only _ = none

unfoldable pub active_editions : String → List Edition → List Edition
unfolding filter
active_editions competition = filter (λ e. e.competition === competition && e.is_active)

-- `resolve`
unfoldable pub resolve_edition : {R : Type 0} → Tables R → String → Resolved
unfolding active_editions filter find
resolve_edition t id =
    if id === "active"
    then elim (is_only (filter (λ c. c.is_active) t.competitions)) [
      | none ↦ no_active_edition
      | some c ↦ elim (is_only (active_editions c.id t.editions)) [
        | none ↦ no_active_edition
        | some e ↦ found e
      ]
    ]
    else elim (find (λ e. e.id === id) t.editions) [ none ↦ unknown_edition | some e ↦ found e ]

-- NoActiveEditionException is a NotFoundException.
abbrev pub edition_or_error : Resolved → Reply Edition
edition_or_error (found e) = ok e
edition_or_error _ = fail not_found

-- findFirst({ orderBy: [{ startDate: 'desc' }, { id: 'desc' }] })
unfoldable pub latest_edition : (String → String → Bool) → List Edition → Option Edition
latest_edition id_leb [] = none
latest_edition id_leb (e ∷ es) =
    let rest = latest_edition id_leb es in
    elim rest [
      | none ↦ some e
      | some f ↦
          if ltb e.start_date f.start_date || (e.start_date == f.start_date && id_leb e.id f.id)
          then some f
          else some e
    ]

-- `resolveEditionForAction`
unfoldable pub resolve_edition_for_action :
    {R : Type 0} → (String → String → Bool) → Tables R → String → Bool → Reply Edition
unfolding resolve_edition latest_edition
resolve_edition_for_action id_leb t id is_global = elim (resolve_edition t id) [
  | found e ↦ ok e
  | unknown_edition ↦ fail not_found
  | no_active_edition ↦
      if is_global
      then elim (latest_edition id_leb t.editions) [
        | none ↦ fail not_found
        | some e ↦ edition_or_error (resolve_edition t e.id)
      ]
      else fail not_found
]

pub data Scope : Type 0 where
  full : Scope
  team : String → Scope
  discipline : String → Scope

pub data RequestedRole : Type 0 where
  as_edition_admin as_discipline_manager : RequestedRole

abbrev pub is_edition_admin : RoleType → Bool
is_edition_admin edition_admin = true
is_edition_admin _ = false

abbrev pub is_discipline_manager : RoleType → Bool
is_discipline_manager discipline_manager = true
is_discipline_manager _ = false

abbrev pub is_team_manager : RoleType → Bool
is_team_manager team_manager = true
is_team_manager _ = false

-- The roles of the user in the edition that were not revoked.
unfoldable pub roles_of : String → String → List StaffRole → List StaffRole
unfolding filter
roles_of edition user = filter (λ r. r.edition === edition && r.staff === user && not r.revoked)

-- `disciplineManagerRoleIds`
unfoldable pub managed : List StaffRole → List String
managed [] = []
managed (r ∷ rs) =
    let rest = managed rs in
    if is_discipline_manager r.role
    then elim r.discipline [ none ↦ rest | some d ↦ if contains rest d then rest else d ∷ rest ]
    else rest

-- The team of the first role of a team manager that has one.
unfoldable pub managed_team : List StaffRole → Option String
managed_team [] = none
managed_team (r ∷ rs) =
    let rest = managed_team rs in
    if is_team_manager r.role then elim r.team [ none ↦ rest | some t ↦ some t ] else rest

-- The scope without headers.
unfoldable pub default_scope : List StaffRole → Reply Scope
unfolding any managed managed_team truthy
default_scope roles =
    if any (λ r. is_edition_admin r.role) roles
    then ok full
    else elim (truthy (managed_team roles)) [
      | some t ↦ ok (team t)
      | none ↦ elim (managed roles) [
        | [] ↦ fail forbidden
        | d ∷ ds ↦
            if length ds == 0
            then (if d === "" then fail forbidden else ok (discipline d))
            else fail bad_request
      ]
    ]

-- The scope of the roles, under the headers of the request.
unfoldable pub scope_of : List StaffRole → Option RequestedRole → Option String → Reply Scope
unfolding default_scope truthy any managed
scope_of roles (some as_edition_admin) selected = elim (truthy selected) [
  | some d ↦ fail bad_request
  | none ↦ if any (λ r. is_edition_admin r.role) roles then ok full else fail forbidden
]
scope_of roles (some as_discipline_manager) selected = elim (truthy selected) [
  | none ↦ fail bad_request
  | some d ↦ if contains (managed roles) d then ok (discipline d) else fail forbidden
]
scope_of roles none selected = elim (truthy selected) [
  | some d ↦ fail bad_request
  | none ↦ default_scope roles
]

-- `resolveScope`
unfoldable pub resolve_scope :
    {R : Type 0} → Tables R → Edition → User → Option RequestedRole → Option String → Reply Scope
unfolding roles_of scope_of
resolve_scope t e u role selected =
    if u.is_super_admin
    then ok full
    else if not e.is_active
    then fail forbidden
    else scope_of (roles_of e.id u.id t.roles) role selected
