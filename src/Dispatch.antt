-- ===== src/Dispatch.antt =====
-- `execute` of src/edition-actions/edition-actions.service.ts: the transaction of one action. What the
-- transaction leaves is the database that it returns; one that throws leaves the database as it was. The
-- advisory locks make requests of a route, and of an edition, run one after the other; here each
-- transaction sees one database. Receipts stand in the order of their creation.
pub mod Execute
pub mod Steps
pub mod Replay
pub mod Revise
pub mod Revisions
pub mod Retries
pub mod Served
pub mod Guarded
pub mod Clash
use intereng_api.Base.{
  ℕ, ◌+◌, String, Bool, true, false, not, ◌&&◌, ◌||◌, Option, none, some, List, [], ◌∷◌, ◌++◌,
  ◌===◌, find, any, contains, if◌then◌else◌,
}
use intereng_api.Base.Sort.{sort}
use intereng_api.Base.Text.{is_empty, trim}
use intereng_api.Http.{forbidden, internal, conflict, not_found, Reply, ok, fail}
use intereng_api.Json.{Json, Fields}
use intereng_api.Validation.{Audit}
use intereng_api.Standings.{truthy}
use intereng_api.Database.{Edition, Tables, User}
use intereng_api.Access.{
  Scope, discipline, RequestedRole, resolve_edition, edition_or_error, resolve_edition_for_action,
  resolve_scope,
}
use intereng_api.Authority.Actions.{ActionType, is_global, is_created}
use intereng_api.Authority.{authorize}
use intereng_api.Receipts.{
  Envelope, ExecutionResult, StoredResponse, Receipt, AuditEntry, Database, RevisionEvent, Request,
  ActionContext, Mutation, Services,
}
use intereng_api.Outcome.{
  Thrown, refused, unique_violation, other_error, Outcome, done, thrown, lift, ◌>>=◌, ◌>>◌,
  refuse_if, or_refuse, or_throw,
}

abbrev pub same_text : Option String → String → Bool
same_text none s = false
same_text (some t) s = t === s

-- audit.reason?.trim(), where it is not empty.
unfoldable pub stored_reason : Option Audit → Option String
stored_reason none = none
stored_reason (some a) = elim a.reason [
  | none ↦ none
  | some r ↦ if is_empty (trim r) then none else some (trim r)
]

-- [...new Set(ids)]
unfoldable pub unique : List String → List String
unique [] = []
unique (x ∷ xs) = let rest = unique xs in if contains rest x then rest else x ∷ rest

unfoldable pub bump : String → List Edition → List Edition
bump id [] = []
bump id (e ∷ es) =
    if e.id === id then record e { revision = e.revision + 1 } ∷ es else e ∷ bump id es

-- Whether a manager's action changed another discipline.
abbrev pub out_of_scope : Scope → Mutation → Bool
out_of_scope (discipline d) m = not (same_text m.discipline d)
out_of_scope _ m = false

abbrev pub or_text : Option String → String → String
or_text none s = s
or_text (some t) s = t

-- One revision after the other; an id without a row is an error of the database.
unfoldable pub revise :
    {R : Type 0} → List String → Tables R → Outcome (List RevisionEvent × Tables R)
unfolding find bump
revise [] t = done ([], t)
revise (id ∷ ids) t = do
  e ← or_throw (find (λ x. x.id === id) t.editions) other_error
  (events, t') ← revise ids (record t { editions = bump id t.editions })
  done (record { edition = e.id; revision = e.revision + 1 } ∷ events, t')

module _ {S : Type 0} where
  -- The test of a receipt of a key that a route made.
  abbrev pub made_by : String → String → Receipt S → Bool
  made_by route key r =
      r.key === key && elim r.response [ none ↦ false | some x ↦ same_text x.route route ]

  unfoldable pub route_receipt : String → String → List (Receipt S) → Option (Receipt S)
  unfolding find
  route_receipt route key = find (made_by route key)

  unfoldable pub edition_receipt : String → String → List (Receipt S) → Option (Receipt S)
  unfolding find
  edition_receipt edition key = find (λ r. r.edition === edition && r.key === key)

  -- `receiptEnvelope`
  unfoldable pub receipt_envelope : Option (StoredResponse S) → User → Outcome (Envelope S)
  receipt_envelope none u = thrown (refused internal)
  receipt_envelope (some x) u =
      let read = or_refuse x.envelope internal in
      elim x.actor [
        | some a ↦ if a === u.id then read else thrown (refused forbidden)
        | none ↦ if u.is_super_admin then read else thrown (refused forbidden)
      ]

  -- What is returned for a receipt with the hash of the request.
  unfoldable pub answer_again : Request → Receipt S → Outcome (ExecutionResult S)
  unfolding receipt_envelope
  answer_again q r = do
    e ← receipt_envelope r.response q.user
    done (record { envelope = e; created = is_created q.action })

  -- editionActionReceipt.create, with the unique key of edition and idempotency key.
  unfoldable pub create_receipt : Receipt S → List (Receipt S) → Outcome (List (Receipt S))
  unfolding edition_receipt
  create_receipt r rs = elim (edition_receipt r.edition r.key rs) [
    | some old ↦ thrown unique_violation
    | none ↦ done (rs ++ r ∷ [])
  ]

module _ {R S : Type 0} (s : Services R S) (q : Request) where
  unfoldable pub scope_in : Tables R → Edition → Outcome Scope
  scope_in t e = lift (resolve_scope t e q.user q.role q.selected)

  unfoldable pub authorize_in : Tables R → Edition → Scope → Outcome (Unit {0})
  authorize_in t e scope = lift (authorize t e.id s.lower scope q.user q.action q.payload)

  -- The answer to a key that the route has a receipt of.
  unfoldable pub replay : Database R S → Receipt S → Outcome (ExecutionResult S)
  unfolding scope_in authorize_in answer_again
  replay db r = do
    refuse_if (not (r.hash === q.hash)) conflict
    edition ← lift (edition_or_error (resolve_edition db.tables r.edition))
    scope ← scope_in db.tables edition
    authorize_in db.tables edition scope
    answer_again q r

  unfoldable pub audit_entry : Mutation → String → AuditEntry
  unfolding stored_reason truthy
  audit_entry m edition = record {
    edition = edition;
    staff = q.user.id;
    action = q.action;
    entity_type = m.entity_type;
    entity_id = m.entity_id;
    before = elim q.audit [ none ↦ none | some a ↦ truthy a.before ];
    after = elim q.audit [ none ↦ none | some a ↦ truthy a.after ];
    reason = stored_reason q.audit;
  }

  -- The receipt of a mutation.
  unfoldable pub new_receipt : Edition → Envelope S → String → Receipt S
  new_receipt revised envelope edition = record {
    edition = edition;
    key = q.key;
    action = q.action;
    hash = q.hash;
    revision = revised.revision;
    response =
        some (record { envelope = some envelope; actor = some q.user.id; route = some q.route });
  }

  -- What follows the handler: the audit log, the revisions, the snapshot and the receipt.
  unfoldable pub record_mutation :
      Database R S
      → Edition
      → Mutation × Tables R
      → Outcome (ExecutionResult S × List RevisionEvent × Database R S)
  unfolding revise unique audit_entry new_receipt create_receipt scope_in
  record_mutation db edition (m, t) = do
    let response = or_text m.response_edition edition.id
    (events, t') ← revise (sort s.text_leb (unique (m.affected ++ response ∷ []))) t
    revised ← lift (edition_or_error (resolve_edition t' response))
    scope ← scope_in t' revised
    let envelope : Envelope S = record {
      snapshot = s.snapshot t' revised scope q.device;
      revision = revised.revision;
    }
    receipts ← create_receipt (new_receipt revised envelope response) db.receipts
    done (
      record { envelope = envelope; created = is_created q.action },
      events,
      record { tables = t'; receipts = receipts; audit = db.audit ++ audit_entry m response ∷ [] },
    )

  -- The handler of the action, and the test that a manager's action stays in the discipline.
  unfoldable pub mutate :
      Database R S
      → Edition
      → Scope
      → String
      → Outcome (ExecutionResult S × List RevisionEvent × Database R S)
  unfolding record_mutation
  mutate db edition scope name = do
    (m, t) ←
        s.handle q.action
          (record {
            edition = edition;
            user = q.user;
            actor_name = name;
            scope = scope;
            device = q.device;
          })
          q.payload q.audit db.tables
    refuse_if (out_of_scope scope m) forbidden
    record_mutation db edition (m, t)

  -- The answer from the receipt that the edition has of the key.
  unfoldable pub repeat :
      Database R S → Receipt S → Outcome (ExecutionResult S × List RevisionEvent × Database R S)
  unfolding answer_again
  repeat db r = do
    refuse_if (not (r.hash === q.hash)) conflict
    result ← answer_again q r
    done (result, [], db)

  unfoldable pub run_once :
      Database R S
      → Edition
      → Scope
      → String
      → Outcome (ExecutionResult S × List RevisionEvent × Database R S)
  unfolding edition_receipt repeat mutate
  run_once db edition scope name = elim (edition_receipt edition.id q.key db.receipts) [
    | some r ↦ repeat db r
    | none ↦ mutate db edition scope name
  ]

  -- A request whose key the route has no receipt of.
  unfoldable pub first_time :
      Database R S → Outcome (ExecutionResult S × List RevisionEvent × Database R S)
  unfolding scope_in authorize_in run_once find
  first_time db = do
    edition ← lift (resolve_edition_for_action s.id_leb db.tables q.route (is_global q.action))
    scope ← scope_in db.tables edition
    actor ← or_refuse (find (λ m. m.id === q.user.id) db.tables.staff) not_found
    authorize_in db.tables edition scope
    run_once db edition scope actor.name

  -- The transaction.
  unfoldable pub transact :
      Database R S → Outcome (ExecutionResult S × List RevisionEvent × Database R S)
  unfolding route_receipt replay first_time
  transact db = elim (route_receipt q.route q.key db.receipts) [
    | some r ↦ replay db r >>= λ result. done (result, [], db)
    | none ↦ first_time db
  ]
