-- ===== src/Receipts.antt =====
-- What src/edition-actions/edition-actions.service.ts stores and passes on: the envelope of a response, the
-- receipts, the audit log, the request, and the services that it calls.
use intereng_api.Base.{ℕ, String, Bool, Option, List}
use intereng_api.Json.{Fields}
use intereng_api.Validation.{Audit}
use intereng_api.Database.{Edition, Tables, User}
use intereng_api.Access.{Scope, RequestedRole}
use intereng_api.Authority.Actions.{ActionType}
use intereng_api.Outcome.{Outcome}

-- A response with its status, 201 where `created`, and 200 otherwise.
pub record Envelope (S : Type 0) : Type 0 where
  pub snapshot : S
  pub revision : ℕ

pub record ExecutionResult (S : Type 0) : Type 0 where
  pub envelope : Envelope S
  pub created : Bool

-- The column `responseData`; `envelope` is `none` where its `data` or `meta` are not those of an envelope.
pub record StoredResponse (S : Type 0) : Type 0 where
  pub envelope : Option (Envelope S)
  pub actor : Option String
  pub route : Option String

-- EditionActionReceipt; `response` is `none` where the column holds no object.
pub record Receipt (S : Type 0) : Type 0 where
  pub edition : String
  pub key : String
  pub action : ActionType
  pub hash : String
  pub revision : ℕ
  pub response : Option (StoredResponse S)

pub record AuditEntry : Type 0 where
  pub edition : String
  pub staff : String
  pub action : ActionType
  pub entity_type : String
  pub entity_id : String
  pub before : Option String
  pub after : Option String
  pub reason : Option String

pub record Database (R S : Type 0) : Type 0 where
  pub tables : Tables R
  pub receipts : List (Receipt S)
  pub audit : List AuditEntry

pub record RevisionEvent : Type 0 where
  pub edition : String
  pub revision : ℕ

-- A request whose type and key were read, with the hash of its body.
pub record Request : Type 0 where
  pub route : String
  pub key : String
  pub hash : String
  pub action : ActionType
  pub payload : Fields
  pub audit : Option Audit
  pub user : User
  pub role : Option RequestedRole
  pub selected : Option String
  pub device : Option String

-- EditionActionContext without the transaction.
pub record ActionContext : Type 0 where
  pub edition : Edition
  pub user : User
  pub actor_name : String
  pub scope : Scope
  pub device : Option String

-- ActionMutationResult
pub record Mutation : Type 0 where
  pub entity_type : String
  pub entity_id : String
  pub discipline : Option String
  pub response_edition : Option String
  pub affected : List String

-- What the dispatch uses: toLowerCase, the order of the database on ids, the order of JavaScript on texts,
-- the registered handlers of the actions and the mapper of snapshots.
pub record Services (R S : Type 0) : Type 0 where
  pub lower : String → String
  pub id_leb : String → String → Bool
  pub text_leb : String → String → Bool
  pub handle :
      ActionType → ActionContext → Fields → Option Audit → Tables R → Outcome (Mutation × Tables R)
  pub snapshot : Tables R → Edition → Scope → Option String → S
