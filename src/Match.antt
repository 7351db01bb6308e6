-- ===== src/Match.antt =====
-- The live operation of a match: src/edition-actions/handlers/match-action.handler.ts. A payload is the
-- record of its fields after their types and ranges were checked; where a handler says so, a range check
-- is a guard of the model too. `now` is the time of
-- the server in milliseconds.
pub mod Operator
pub mod Transitions
pub mod Start
use intereng_api.Base.{
  ◌≡◌, ◌⊎◌, inl, inr, refl, ℕ, suc, ◌+◌, ◌-◌, String, Bool, true, false, not, ◌&&◌, ◌||◌, Option,
  none, some, List, [], ◌∷◌, ◌===◌, ◌==◌, ltb, leb, if◌then◌else◌,
}
pub use intereng_api.Http.{
  HttpError, bad_request, conflict, forbidden, not_found, internal, Reply, ok, fail, Reply-cases,
}
use intereng_api.Standings.{truthy}
use intereng_api.Status.{MatchStatus, scheduled, live, finished, walkover, cancelled, postponed}
use intereng_api.Regulation.{Side, SetsRule}
use intereng_api.Knockout.{ByNumber}

-- EditionActionContext
pub record Context : Type 0 where
  pub user : String
  pub actor_name : String
  pub device : Option String
  pub now : ℕ

-- The score of a match, of its current period, and that period: what `previousScore` records.
pub record Scores : Type 0 where
  pub score_a : ℕ
  pub score_b : ℕ
  pub period_a : ℕ
  pub period_b : ℕ
  pub period : ℕ

pub record PeriodResult : Type 0 where
  pub period : ℕ
  pub score_a : ℕ
  pub score_b : ℕ

pub data SideLabel : Type 0 where
  home_side away_side neutral_side : SideLabel

pub record Event : Type 0 where
  pub id : String
  pub kind : String
  pub side : SideLabel
  pub entry : Option String
  pub athlete : Option String
  pub points : ℕ
  pub fair_play_points : ℕ
  pub score_a : ℕ
  pub score_b : ℕ
  pub previous : Scores
  pub sequence : ℕ
  pub undone : Bool

pub record LiveMatch : Type 0 where
  pub id : String
  pub status : MatchStatus
  pub entry_a : Option String
  pub entry_b : Option String
  pub scores : Scores
  pub winner : Option String
  pub paused : Bool
  pub clock_seconds : ℕ
  pub running_since : Option ℕ
  pub started_at : Option ℕ
  pub operator : Option String
  pub operator_device : Option String
  pub operator_name : Option String
  pub heartbeat : Option ℕ
  pub last_sequence : ℕ
  pub period_results : List PeriodResult
  pub events : List Event

-- OPERATOR_LOCK_MS and MAX_CLIENT_CLOCK_SKEW_MS
abbrev pub operator_lock_ms : ℕ
operator_lock_ms = 120000

abbrev pub max_client_clock_skew_ms : ℕ
max_client_clock_skew_ms = 900000

abbrev pub is_live : MatchStatus → Bool
is_live live = true
is_live _ = false

-- `o === s`, for a value that may be null.
abbrev pub is_text : Option String → String → Bool
is_text none s = false
is_text (some t) s = t === s

-- `canTransition`
unfoldable pub can_transition : MatchStatus → MatchStatus → Bool
can_transition scheduled finished = false
can_transition scheduled _ = true
can_transition live live = true
can_transition live finished = true
can_transition live postponed = true
can_transition live walkover = true
can_transition live _ = false
can_transition finished finished = true
can_transition finished _ = false
can_transition postponed postponed = true
can_transition postponed scheduled = true
can_transition postponed cancelled = true
can_transition postponed walkover = true
can_transition postponed _ = false
can_transition cancelled cancelled = true
can_transition cancelled _ = false
can_transition walkover walkover = true
can_transition walkover _ = false

-- heartbeat >= now - OPERATOR_LOCK_MS
abbrev pub lock_is_fresh : LiveMatch → ℕ → Bool
lock_is_fresh m now = elim m.heartbeat [ none ↦ false | some h ↦ leb now (h + operator_lock_ms) ]

-- What the `where` of `start` and of a claim without force asks of the lock.
unfoldable pub lock_is_free : LiveMatch → String → String → ℕ → Bool
lock_is_free m user device now = elim m.operator [
  | none ↦ true
  | some o ↦ (o === user && is_text m.operator_device device) || not (lock_is_fresh m now)
]

-- `requireOperatorDeviceId`
unfoldable pub require_device : Context → Reply String
unfolding truthy
require_device c = elim (truthy c.device) [ none ↦ fail bad_request | some d ↦ ok d ]

-- `assertOperator`
unfoldable pub assert_operator : LiveMatch → Context → Reply Unit
unfolding require_device
assert_operator m c = elim (require_device c) [
  | fail e ↦ fail e
  | ok d ↦
      if lock_is_fresh m c.now && is_text m.operator c.user && is_text m.operator_device d
      then ok tt
      else fail conflict
]

abbrev pub take_lock : Context → String → LiveMatch → LiveMatch
take_lock c d m = record m {
  operator = some c.user;
  operator_device = some d;
  operator_name = some c.actor_name;
  heartbeat = some c.now;
}

-- `claimOperator`; `requested` is the device of the payload.
unfoldable pub claim_operator : Context → String → Bool → LiveMatch → Reply LiveMatch
unfolding require_device lock_is_free
claim_operator c requested force m = elim (require_device c) [
  | fail e ↦ fail e
  | ok d ↦
      if not (requested === d)
      then fail conflict
      else if force || lock_is_free m c.user d c.now
      then ok (take_lock c d m)
      else fail conflict
]

-- `releaseOperator`
unfoldable pub release_operator : Context → String → LiveMatch → Reply LiveMatch
unfolding require_device assert_operator
release_operator c requested m = elim (require_device c) [
  | fail e ↦ fail e
  | ok d ↦ if not (requested === d) then fail conflict else elim (assert_operator m c) [
    | fail e ↦ fail e
    | ok _ ↦ ok (record m {
      operator = none;
      operator_device = none;
      operator_name = none;
      heartbeat = none;
    })
  ]
]

-- `acceptClientClockStart`, for a start that is a date.
unfoldable pub accept_client_clock_start : Option ℕ → ℕ → ℕ
accept_client_clock_start none now = now
accept_client_clock_start (some t) now =
    if leb t (now + max_client_clock_skew_ms) && leb now (t + max_client_clock_skew_ms)
    then t
    else now

-- `start`: the device, status and clock start of the patch are optional.
pub record StartPatch : Type 0 where
  pub device : Option String
  pub status : Option MatchStatus
  pub running_since : Option ℕ

abbrev can_start : MatchStatus → Bool
can_start scheduled = true
can_start postponed = true
can_start _ = false

abbrev other_device : Option String → String → Bool
other_device none d = false
other_device (some r) d = not (r === d)

abbrev other_status : Option MatchStatus → Bool
other_status none = false
other_status (some s) = not (is_live s)

unfoldable pub start : Context → Bool → StartPatch → LiveMatch → Reply LiveMatch
unfolding require_device lock_is_free accept_client_clock_start truthy
start c has_clock patch m = elim (truthy m.entry_a) [
  | none ↦ fail conflict
  | some a ↦ elim (truthy m.entry_b) [
    | none ↦ fail conflict
    | some b ↦ elim (require_device c) [
      | fail e ↦ fail e
      | ok d ↦
          if other_device (truthy patch.device) d
            || not (can_start m.status)
            || other_status patch.status
          then fail conflict
          else if lock_is_free m c.user d c.now
          then ok (record (take_lock c d m) {
            status = live;
            started_at = some c.now;
            paused = false;
            running_since =
                if has_clock
                then some (accept_client_clock_start patch.running_since c.now)
                else none;
          })
          else fail conflict
    ]
  ]
]
