-- ===== src/Lib.antt =====
-- The sports core of the InterEng API: how the result of a match becomes a table, a ranking, a bracket and
-- the end of a category, how a match is operated live, and how an action of a user is admitted, run once and
-- recorded.
--
-- Base: lists, numbers, signed integers, stable sort and association lists that the parts share.
-- Regulation: src/edition-actions/action-regulation.ts, its presets in Regulation/Presets and the parsers of
--   stored configurations in Regulation/Resolve.
-- Standings: `accumulate` of src/edition-actions/edition-action-recalculation.service.ts, on the rows that
--   `countedMatches` selects.
-- Ranking: `computeStandings`, `rankBlock` and `criterionValue` of the same service.
-- Bracket: `seedPairs` and `sequentialPairs`. The loop that doubles the size has as many rounds as there are
--   entries, which is enough since n is at most 2 ^ n.
-- Qualify: `collectQualifiers`, `advancement` and the published bracket.
-- Knockout, Rounds and Progress: `createRound`, `progressKnockout` and what they call, on a category with
--   its phases, matches and standings. Ids of matches of the bracket are values of a data type.
-- Status: statuses and kinds of phase, src/edition-actions/action-mappers.ts.
-- Match: the lock of the operator, `start` and `canTransition` of
--   src/edition-actions/handlers/match-action.handler.ts.
-- Play and Register: `registerEvent` and `undoEvent` of the same handler.
-- Clock: `updateClock` and `finish` of the same handler.
-- Sheet: `recordResult` and `parseTiebreak` of the same handler.
-- Recompute: `recomputeTournament` and `syncStatusWithMatches`, on a category and the status of its edition.
-- Correction: `correctResult` of the same handler as Match, with `dependentMatches`.
-- Change: `update` and `delete` of the same handler.
-- Calculator: src/standings/standings-calculator.ts, the older table. The recursion runs on fuel, one more than
--   the number of teams times one more than the number of criteria, plus the criteria left: a smaller group
--   begins with the first criterion again, an equal one has a criterion less.
-- Limiter: src/realtime/sse-connection-limiter.service.ts.
-- Http, Outcome, Json and Validation: the exceptions, the values of request bodies, and the readers of
--   src/edition-actions/action-validation.ts.
-- Database and Access: the tables that the dispatch reads, the edition that a request means
--   (src/edition-snapshots/active-edition.resolver.ts) and the scope of its user (`resolveScope` of
--   src/edition-snapshots/edition-snapshots.service.ts).
-- Authority: the types of actions and `authorize` of src/edition-actions/edition-actions.service.ts.
-- Receipts, Canonical and Dispatch: `execute` of the same service. Canonical reads the request and hashes its
--   body, Dispatch is the transaction, and Dispatch/Execute the attempts, at most three, which is the bound of
--   the code and the recursion of the model.
-- Examples: concrete tables, brackets and matches, with tests and the theorems applied to them.
--
-- A payload is a record of fields whose types were checked, and a handler returns the match or an HTTP
-- error. The database is an explicit value that a handler takes and returns. `localeCompare`, the normal
-- form of labels, the reading of labels of the published bracket, the athlete of an event and the entry of a
-- name are arguments. For the dispatch the handlers of the actions and the mapper of snapshots are fields of
-- a record of services, and each attempt meets a database that other transactions may have changed, and may be
-- aborted. Authentication, the scheduling of matches, the mapper of snapshots and the read side
-- are not modelled.
pub mod Base
pub mod Regulation
pub mod Standings
pub mod Ranking
pub mod Bracket
pub mod Status
pub mod Knockout
pub mod Qualify
pub mod Rounds
pub mod Progress
pub mod Match
pub mod Play
pub mod Register
pub mod Clock
pub mod Examples
pub mod Sheet
pub mod Recompute
pub mod Limiter
pub mod Http
pub mod Json
pub mod Validation
pub mod Database
pub mod Access
pub mod Authority
pub mod Outcome
pub mod Receipts
pub mod Canonical
pub mod Dispatch
pub mod Correction
pub mod Calculator
pub mod Change
