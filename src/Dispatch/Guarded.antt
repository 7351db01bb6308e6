-- ===== src/Dispatch/Guarded.antt =====
-- Whose requests are done: the whole transaction against the roles and the tables.
use intereng_api.Base.{
  String, ◌≡◌, refl, arith, Bool, true, false, List, inl, inr, Option-cases, Bool-cases,
}
use intereng_api.Http.{ok}
use intereng_api.Validation.{action_id}
use intereng_api.Database.{Edition}
use intereng_api.Access.{Scope, full, team, discipline, resolve_scope}
use intereng_api.Access.Scopes.{Holds, resolve_scope-Holds}
use intereng_api.Authority.Actions.{is_global, is_manager}
use intereng_api.Authority.{authorize}
use intereng_api.Authority.Limits.{is_match_action, PlayedIn, authorize-PlayedIn}
use intereng_api.Outcome.{done}
use intereng_api.Receipts.{ExecutionResult, Database, RevisionEvent, Request, Services}
use intereng_api.Dispatch.{route_receipt, transact}
use intereng_api.Dispatch.Steps.{first_time-Admitted}
use intereng_api.Dispatch.Replay.{transact-old, replay-StillAllowed}

module _ {R S : Type 0} (s : Services R S) (q : Request) (db : Database R S) where
  -- How far a scope reaches: an action on a match, which is there, of the manager of a discipline is one for
  -- managers, and the match is played in that discipline of the edition.
  abbrev pub Reaches : String → Scope → Bool → Type 0
  Reaches edition (discipline own) true =
      (is_manager q.action ≡ true)
      × ((id : String) × (action_id q.payload "id" ≡ ok id) × PlayedIn db.tables edition id own)
  Reaches edition _ _ = Unit

  admitted-Reaches :
      (edition : String) (scope : Scope) (b : Bool)
      → is_match_action q.action ≡ b
      → q.user.is_super_admin ≡ false
      → authorize db.tables edition s.lower scope q.user q.action q.payload ≡ ok tt
      → Reaches edition scope b
  admitted-Reaches edition (discipline own) true m n k =
      authorize-PlayedIn db.tables edition s.lower own q.user q.action q.payload n m k
  admitted-Reaches edition (discipline own) false m n k = tt
  admitted-Reaches edition full b m n k = tt
  admitted-Reaches edition (team own) b m n k = tt

  -- What a request needs that no super admin sends: a role in an active edition, an action that is not
  -- global and, for the manager of a discipline who acts on a match, a match of that discipline.
  pub record Guarded : Type 0 where
    pub edition : Edition
    pub scope : Scope
    pub active : edition.is_active ≡ true
    pub holds : Holds db.tables.roles edition q.user scope
    pub not_global : is_global q.action ≡ false
    pub reach : Reaches edition.id scope (is_match_action q.action)

  authorize-local :
      (edition : String) (scope : Scope)
      → q.user.is_super_admin ≡ false
      → authorize db.tables edition s.lower scope q.user q.action q.payload ≡ ok tt
      → is_global q.action ≡ false
  unfolding authorize
  authorize-local edition scope n h = elim (Bool-cases (is_global q.action)) [
    | inr e ↦ e
    | inl e ↦ absurd (ground arith)
  ]

  admitted-Guarded :
      (edition : Edition) (scope : Scope)
      → q.user.is_super_admin ≡ false
      → resolve_scope db.tables edition q.user q.role q.selected ≡ ok scope
      → authorize db.tables edition.id s.lower scope q.user q.action q.payload ≡ ok tt
      → Guarded
  admitted-Guarded edition scope n h k =
      let (active, holds) =
        resolve_scope-Holds db.tables edition q.user q.role q.selected scope h n in
      record {
        edition = edition;
        scope = scope;
        active = active;
        holds = holds;
        not_global = authorize-local edition.id scope n k;
        reach = admitted-Reaches edition.id scope (is_match_action q.action) refl n k;
      }

  -- A request that is done, of a user who is no super admin, is not for a global action, and its user holds
  -- a role, not revoked, in an active edition; where the scope is a discipline and the action is on a match,
  -- the action is one for managers and the match is played in that discipline of that edition.
  pub transact-Guarded :
      (db1 : Database R S) (result : ExecutionResult S) (events : List RevisionEvent)
      → q.user.is_super_admin ≡ false
      → transact s q db ≡ done (result, events, db1)
      → Guarded
  unfolding transact
  transact-Guarded db1 result events n h =
      elim (Option-cases (route_receipt q.route q.key db.receipts)) [
        | inr (old, e) ↦
            let ad =
              replay-StillAllowed s q db old result
                (transact-old s q db db1 result events old e h).0 in
            admitted-Guarded ad.found ad.scope n ad.found_scope ad.authorized
        | inl e ↦
            let ad = first_time-Admitted s q db result events db1 (ground arith) in
            admitted-Guarded ad.edition ad.scope n ad.scoped ad.authorized
      ]
