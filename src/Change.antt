-- ===== src/Change.antt =====
-- `update` and `delete` of src/edition-actions/handlers/match-action.handler.ts, on a match that was found. The
-- fields of the patch are read: `scheduled_at` is what `scheduledAt` makes of the date and the time, where one
-- of them is given and both are known. `by_name` stands for `entryByName`, `phase_named` for `phaseContext`,
-- and `walkover_score` is what `walkoverScore` reads of the configuration, where it is no negative number. The
-- handler returns with the match whether it calls `recomputeTournament`.

pub mod Allowed
use intereng_api.Base.{
  ℕ, String, Bool, true, false, not, ◌&&◌, ◌||◌, Option, none, some, ◌===◌, ◌==◌, filter,
  if◌then◌else◌,
}
use intereng_api.Base.Dict
use intereng_api.Base.Dict.{Dict}
use intereng_api.Http.{conflict, not_found, Reply, ok, ◌>>=◌, ◌>>◌, throw_if}
use intereng_api.Validation.{Audit}
use intereng_api.Status.{MatchStatus, walkover, is_scheduled}
use intereng_api.Standings.{truthy}
use intereng_api.Match.{can_transition, is_text}
use intereng_api.Correction.{found_or, reason_or}

-- The columns of a match that the two handlers read or write.
pub record PlannedMatch : Type 0 where
  pub status : MatchStatus
  pub phase : String
  pub group : Option String
  pub scheduled_at : Option ℕ
  pub venue : Option String
  pub reason : Option String
  pub entry_a : Option String
  pub entry_b : Option String
  pub placeholder_a : Option String
  pub placeholder_b : Option String
  pub score_a : ℕ
  pub score_b : ℕ
  pub winner : Option String
  pub walkover_winner : Option String
  pub started_at : Option ℕ
  pub last_sequence : ℕ

-- `has_score` tells whether the patch has a score of a side.
pub record ChangePatch : Type 0 where
  pub status : Option MatchStatus
  pub scheduled_at : Option ℕ
  pub venue : Option String
  pub phase : Option String
  pub reason : Option String
  pub walkover_winner : Option String
  pub has_score : Bool
  pub entry_a : Option String
  pub entry_b : Option String

abbrev pub given_or : {A : Type 0} → Option A → A → A
given_or none a = a
given_or (some b) a = b

-- A field that is written where it is given.
abbrev pub given_over : {A : Type 0} → Option A → Option A → Option A
given_over none old = old
given_over (some b) old = some b

abbrev pub is_walkover : Option MatchStatus → Bool
is_walkover (some walkover) = true
is_walkover _ = false

abbrev pub refused_status : MatchStatus → Option MatchStatus → Bool
refused_status old none = false
refused_status old (some s) = not (can_transition old s)

abbrev pub cleared : Option String → Option String → Option String
cleared none label = label
cleared (some id) label = none

abbrev pub equal_entries : Option String → Option String → Bool
equal_entries none b = false
equal_entries (some a) b = is_text b a

module _ (by_name : String → Reply String) where
  abbrev pub optional_entry : Option String → Reply (Option String)
  optional_entry none = ok none
  optional_entry (some name) = by_name name >>= λ id. ok (some id)

  -- `participanteDefinido`
  unfoldable pub named_participants :
      ChangePatch → PlannedMatch → Reply (Option String × Option String)
  unfolding truthy
  named_participants p m =
      let given = (do
        throw_if (not (is_scheduled m.status)) conflict
        a ← optional_entry p.entry_a
        b ← optional_entry p.entry_b
        throw_if (equal_entries (truthy (given_over a m.entry_a)) (given_over b m.entry_b)) conflict
        ok (a, b)) in
      elim p.entry_a [
        | none ↦ elim p.entry_b [ none ↦ ok (none, none) | some n ↦ given ]
        | some n ↦ given
      ]

  -- The winner of a walkover: an entry of the match, with a reason of the patch or of the audit.
  unfoldable pub walkover_entry : Option Audit → ChangePatch → PlannedMatch → Reply String
  unfolding truthy
  walkover_entry audit p m = do
    reason ← reason_or p.reason audit
    name ← found_or (truthy p.walkover_winner) conflict
    w ← by_name name
    throw_if (not (is_text m.entry_a w) && not (is_text m.entry_b w)) conflict
    ok w

  -- A patch that is for no walkover has no score.
  unfoldable pub result_change : Option Audit → ChangePatch → PlannedMatch → Reply (Option String)
  unfolding walkover_entry
  result_change audit p m =
      if is_walkover p.status
      then (walkover_entry audit p m >>= λ w. ok (some w))
      else (throw_if p.has_score conflict >>= λ u. ok none)

-- The phase of a name, where one is given.
unfoldable pub phase_change :
    (String → Reply (String × Option String))
    → ChangePatch
    → PlannedMatch
    → Reply (Option (String × Option String))
phase_change phase_named p m = elim p.phase [
  | none ↦ ok none
  | some name ↦ do
    throw_if (not (is_scheduled m.status)) conflict
    found ← phase_named name
    ok (some found)
]

-- The columns that a walkover writes.
abbrev pub put_walkover : ℕ × ℕ → Option String → PlannedMatch → PlannedMatch
put_walkover score none m = m
put_walkover score (some w) m = record m {
  score_a = if is_text m.entry_a w then score.0 else score.1;
  score_b = if is_text m.entry_b w then score.0 else score.1;
  winner = some w;
  walkover_winner = some w;
}

abbrev pub put_phase : Option (String × Option String) → PlannedMatch → PlannedMatch
put_phase none m = m
put_phase (some f) m = record m { phase = f.0; group = f.1 }

-- The write of `update`.
unfoldable pub write_change :
    ℕ × ℕ
    → ChangePatch
    → Option (String × Option String)
    → Option String
    → Option String × Option String
    → PlannedMatch
    → PlannedMatch
write_change score p phase w ids m =
    let moved = put_phase phase (put_walkover score w m) in
    record moved {
      status = given_or p.status m.status;
      scheduled_at = given_over p.scheduled_at m.scheduled_at;
      venue = given_over p.venue m.venue;
      reason = given_over p.reason m.reason;
      entry_a = given_over ids.0 m.entry_a;
      entry_b = given_over ids.1 m.entry_b;
      placeholder_a = cleared ids.0 m.placeholder_a;
      placeholder_b = cleared ids.1 m.placeholder_b;
    }

-- `update`
unfoldable pub change_match :
    (String → Reply String)
    → (String → Reply (String × Option String))
    → ℕ × ℕ
    → Option Audit
    → ChangePatch
    → PlannedMatch
    → Reply (PlannedMatch × Bool)
unfolding result_change phase_change named_participants write_change
change_match by_name phase_named score audit p m = do
  throw_if (refused_status m.status p.status) conflict
  phase ← phase_change phase_named p m
  w ← result_change by_name audit p m
  ids ← named_participants by_name p m
  ok (write_change score p phase w ids m, is_walkover p.status)

-- `delete`, on the matches of the edition under their ids.
unfoldable pub delete_match : String → Dict PlannedMatch → Reply (Dict PlannedMatch)
unfolding filter
delete_match id ms = do
  m ← found_or (Dict.get id ms) not_found
  throw_if
      (not (is_scheduled m.status)
        || not (m.last_sequence == 0)
        || elim m.started_at [ none ↦ false | some t ↦ true ])
      conflict
  ok (filter (λ (e : String × PlannedMatch). not (e.0 === id)) ms)
