-- ===== src/Dispatch/Execute.antt =====
-- `execute` of src/edition-actions/edition-actions.service.ts around the transaction: the retries.
use intereng_api.Base.{
  ℕ, suc, zero, ◌+◌, Bool, true, false, ◌&&◌, Option, none, some, List, [], ltb, if◌then◌else◌,
}
use intereng_api.Http.{bad_request, conflict, internal}
use intereng_api.Outcome.{
  Thrown, refused, write_conflict, unique_violation, foreign_key_violation, Outcome, done, thrown,
}
use intereng_api.Receipts.{ExecutionResult, Database, RevisionEvent, Request, Services}
use intereng_api.Dispatch.{transact}

-- MAX_SERIALIZABLE_RETRIES
abbrev pub max_serializable_retries : ℕ
max_serializable_retries = 3

abbrev pub is_write_conflict : Thrown → Bool
is_write_conflict write_conflict = true
is_write_conflict _ = false

-- `mapPrismaError`
abbrev pub map_prisma_error : Thrown → Thrown
map_prisma_error unique_violation = refused conflict
map_prisma_error foreign_key_violation = refused bad_request
map_prisma_error e = e

-- What an attempt meets: the database as the other transactions left it, and whether the database server
-- aborts it for a conflict of writes.
pub record Moment (R S : Type 0) : Type 0 where
  pub database : Database R S
  pub aborted : Bool

-- What an execution does: its answer, what it commits, the revisions that it publishes and the number of
-- its attempts.
pub record Execution (R S : Type 0) : Type 0 where
  pub answer : Outcome (ExecutionResult S)
  pub committed : Option (Database R S)
  pub published : List RevisionEvent
  pub attempts : ℕ

module _ {R S : Type 0} where
  unfoldable pub attempt :
      Services R S
      → Request
      → Moment R S
      → Outcome (ExecutionResult S × List RevisionEvent × Database R S)
  unfolding transact
  attempt s q m = if m.aborted then thrown write_conflict else transact s q m.database

  -- The attempts from number `k` on, `left` of them.
  unfoldable pub attempts_from : Services R S → Request → (ℕ → Moment R S) → ℕ → ℕ → Execution R S
  unfolding attempt
  attempts_from s q moments zero k = record {
    answer = thrown (refused internal);
    committed = none;
    published = [];
    attempts = k;
  }
  attempts_from s q moments (suc left) k =
      let rest = attempts_from s q moments left (k + 1) in
      elim (attempt s q (moments k)) [
        | done (result, events, db) ↦ record {
          answer = done result;
          committed = some db;
          published = events;
          attempts = k;
        }
        | thrown e ↦
            if is_write_conflict e && ltb k max_serializable_retries then rest else record {
              answer = thrown (map_prisma_error e);
              committed = none;
              published = [];
              attempts = k;
            }
      ]

  -- `execute`, past the reading of the request.
  unfoldable pub execute : Services R S → Request → (ℕ → Moment R S) → Execution R S
  unfolding attempts_from
  execute s q moments = attempts_from s q moments max_serializable_retries 1
