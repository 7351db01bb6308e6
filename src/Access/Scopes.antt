-- ===== src/Access/Scopes.antt =====
-- Who gets which scope: `resolve_scope` against the roles of the staff.
use mathlib.Core.Path.{subst}
use intereng_api.Base.{
  List-cases, suc, String, ◌≡◌, refl, arith, Bool, true, false, not, ◌&&◌, Option, none, some, List,
  [], ◌∷◌, ◌===◌, eq_iff, contains, any, any-At, filter-At, At, inl, inr, Bool-cases, Option-cases,
}
use intereng_api.Http.{ok}
use intereng_api.Standings.{truthy}
use intereng_api.Database.{
  Edition, RoleType, edition_admin, discipline_manager, team_manager, StaffRole, Tables, User,
}
use intereng_api.Access.{
  Scope, full, team, discipline, RequestedRole, as_edition_admin, as_discipline_manager,
  is_edition_admin, is_discipline_manager, is_team_manager, roles_of, managed, managed_team,
  default_scope, scope_of, resolve_scope,
}

-- What a scope takes of one role.
abbrev pub Allows : Scope → StaffRole → Type 0
Allows full r = r.role ≡ edition_admin
Allows (team t) r = (r.role ≡ team_manager) × (r.team ≡ some t)
Allows (discipline d) r = (r.role ≡ discipline_manager) × (r.discipline ≡ some d)

-- A role that the user holds in the edition and that gives the scope.
pub record Holds (roles : List StaffRole) (e : Edition) (u : User) (s : Scope) : Type 0 where
  pub role : StaffRole
  pub stored : At role roles
  pub edition : role.edition ≡ e.id
  pub staff : role.staff ≡ u.id
  pub current : role.revoked ≡ false
  pub allows : Allows s role

-- A role of a list that gives a scope.
abbrev Given : List StaffRole → Scope → Type 0
Given rs s = (r : StaffRole) × At r rs × Allows s r

later : (r : StaffRole) (rs : List StaffRole) (s : Scope) → Given rs s → Given (r ∷ rs) s
later r rs s (x, (i, e), a) = (x, (suc i, e), a)

admin-role : (r : RoleType) → is_edition_admin r ≡ true → r ≡ edition_admin
admin-role r h = ground arith

discipline-role : (r : RoleType) → is_discipline_manager r ≡ true → r ≡ discipline_manager
discipline-role r h = ground arith

team-role : (r : RoleType) → is_team_manager r ≡ true → r ≡ team_manager
team-role r h = ground arith

any-Given : (rs : List StaffRole) → any (λ r. is_edition_admin r.role) rs ≡ true → Given rs full
any-Given rs h =
    let x = any-At (λ r. is_edition_admin r.role) rs h in (x.0, x.1, admin-role (x.0).role x.2)

managed-Given :
    (d : String) (rs : List StaffRole) → contains (managed rs) d ≡ true → Given rs (discipline d)
unfolding managed
managed-Given d [] h = cc
managed-Given d (r ∷ rs) h = elim (Bool-cases (is_discipline_manager r.role)) [
  | inl k ↦ elim (Option-cases r.discipline) [
    | inl e ↦ later r rs (discipline d) (managed-Given d rs (ground arith))
    | inr (x, e) ↦ elim (Bool-cases (x === d)) [
      | inl q ↦ (r, (0, refl), (discipline-role r.role k, ground (arith, eq_iff x d)))
      | inr q ↦ later r rs (discipline d) (managed-Given d rs (ground (arith, eq_iff x d)))
    ]
  ]
  | inr k ↦ later r rs (discipline d) (managed-Given d rs (ground arith))
]

managed_team-Given :
    (t : String) (rs : List StaffRole) → managed_team rs ≡ some t → Given rs (team t)
unfolding managed_team
managed_team-Given t [] h = cc
managed_team-Given t (r ∷ rs) h = elim (Bool-cases (is_team_manager r.role)) [
  | inl k ↦ elim (Option-cases r.team) [
    | inl e ↦ later r rs (team t) (managed_team-Given t rs (ground arith))
    | inr (x, e) ↦ (r, (0, refl), (team-role r.role k, ground arith))
  ]
  | inr k ↦ later r rs (team t) (managed_team-Given t rs (ground arith))
]

contains-empty_lem : (d : String) (xs ds : List String) → xs ≡ d ∷ ds → contains xs d ≡ true
contains-empty_lem d xs ds e = rw e (ground (arith, eq_iff d d))

-- The scope that is found without headers is given by a role.
default_scope-Given : (rs : List StaffRole) (s : Scope) → default_scope rs ≡ ok s → Given rs s
unfolding default_scope truthy
default_scope-Given rs s h = elim (Bool-cases (any (λ r. is_edition_admin r.role) rs)) [
  | inl a ↦ let q : full ≡ s = ground arith in subst (Given rs) q (any-Given rs a)
  | inr a ↦ elim (Option-cases (truthy (managed_team rs))) [
    | inr (t, e) ↦
        let q : team t ≡ s = ground arith in
        subst (Given rs) q (managed_team-Given t rs (ground arith))
    | inl e ↦ elim (List-cases (managed rs)) [
      | inl n ↦ absurd (ground arith)
      | inr (d, ds, c) ↦
          let q : discipline d ≡ s = ground arith in
          subst (Given rs) q (managed-Given d rs (contains-empty_lem d (managed rs) ds c))
    ]
  ]
]

scope_of-Given :
    (rs : List StaffRole) (role : Option RequestedRole) (selected : Option String) (s : Scope)
    → scope_of rs role selected ≡ ok s
    → Given rs s
unfolding scope_of
scope_of-Given rs (some as_edition_admin) selected s h = elim (Option-cases (truthy selected)) [
  | inr (d, e) ↦ absurd (ground arith)
  | inl e ↦ elim (Bool-cases (any (λ r. is_edition_admin r.role) rs)) [
    | inl a ↦ let q : full ≡ s = ground arith in subst (Given rs) q (any-Given rs a)
    | inr a ↦ absurd (ground arith)
  ]
]
scope_of-Given rs (some as_discipline_manager) selected s h =
    elim (Option-cases (truthy selected)) [
      | inl e ↦ absurd (ground arith)
      | inr (d, e) ↦ elim (Bool-cases (contains (managed rs) d)) [
        | inl a ↦
            let q : discipline d ≡ s = ground arith in subst (Given rs) q (managed-Given d rs a)
        | inr a ↦ absurd (ground arith)
      ]
    ]
scope_of-Given rs none selected s h = elim (Option-cases (truthy selected)) [
  | inr (d, e) ↦ absurd (ground arith)
  | inl e ↦ default_scope-Given rs s (ground arith)
]

-- A role of the user in the edition, found among all roles.
Given-Holds :
    (rs : List StaffRole) (e : Edition) (u : User) (s : Scope)
    → Given (roles_of e.id u.id rs) s
    → Holds rs e u s
unfolding roles_of
Given-Holds rs e u s (r, p, a) =
    let test : StaffRole → Bool = λ x. x.edition === e.id && x.staff === u.id && not x.revoked in
    let q = filter-At test rs r p in
    record {
      role = r;
      stored = q.0;
      edition = ground (arith, eq_iff r.edition e.id, q.1);
      staff = ground (arith, eq_iff r.staff u.id, q.1);
      current = ground (arith, q.1);
      allows = a;
    }

-- A user who is no super admin gets a scope only in an active edition, and only where a role of theirs in
-- that edition, not revoked, gives it.
pub resolve_scope-Holds :
    {R : Type 0} (t : Tables R) (e : Edition) (u : User) (role : Option RequestedRole)
    (selected : Option String) (s : Scope)
    → resolve_scope t e u role selected ≡ ok s
    → u.is_super_admin ≡ false
    → (e.is_active ≡ true) × Holds t.roles e u s
unfolding resolve_scope
resolve_scope-Holds t e u role selected s h n = (
  ground arith,
  Given-Holds t.roles e u s
      (scope_of-Given (roles_of e.id u.id t.roles) role selected s (ground arith)),
)
