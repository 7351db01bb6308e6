-- ===== src/Match/Start.antt =====
-- What `start` and `releaseOperator` do to the lock.
use intereng_api.Base.{
  ℕ, ◌+◌, ◌≤◌, ◌≡◌, ◌⊎◌, arith, String, Bool, false, Option, none, some, eq_iff, inl, inr,
  Option-cases,
}
use intereng_api.Standings.{truthy}
use intereng_api.Status.{live, scheduled, postponed}
use intereng_api.Match.{
  Reply-cases, ok, Context, LiveMatch, StartPatch, start, release_operator, claim_operator,
  lock_is_free, require_device, assert_operator, take_lock, accept_client_clock_start,
  max_client_clock_skew_ms,
}
use intereng_api.Match.Operator.{assert_operator_iff}

accept_client_clock_start_lem :
    (t : Option ℕ) (now : ℕ)
    → (accept_client_clock_start t now ≤ now + max_client_clock_skew_ms)
      × (now ≤ accept_client_clock_start t now + max_client_clock_skew_ms)
unfolding accept_client_clock_start
accept_client_clock_start_lem none now = (omega arith, omega arith)
accept_client_clock_start_lem (some t) now = (ground arith, ground arith)

-- A match that was started: it is live, its operator is the one who started it, and its clock, if it has
-- one, began within a quarter of an hour of the time of the server.
pub record Started (c : Context) (has_clock : Bool) (m n : LiveMatch) : Type 0 where
  pub went_live : n.status ≡ live
  pub was_waiting : (m.status ≡ scheduled) ⊎ (m.status ≡ postponed)
  pub is_operated : assert_operator n c ≡ ok tt
  pub same_scores : n.scores ≡ m.scores
  pub clock :
      (since : ℕ)
      → n.running_since ≡ some since
      → (since ≤ c.now + max_client_clock_skew_ms) × (c.now ≤ since + max_client_clock_skew_ms)

-- A start that succeeds makes a waiting match live with its score as it was, gives its operation to the
-- one who started it, and starts its clock within the skew that is allowed.
pub start_lem :
    (c : Context) (has_clock : Bool) (patch : StartPatch) (m n : LiveMatch)
    → start c has_clock patch m ≡ ok n
    → Started c has_clock m n
unfolding start require_device
start_lem c has_clock patch m n h = elim (Option-cases (truthy c.device)) [
  | inl e ↦ ground arith
  | inr (d, e) ↦ record {
    went_live = ground arith;
    was_waiting = ground arith;
    is_operated = (assert_operator_iff n c d e).1 (ground arith, ground arith, ground arith);
    same_scores = ground arith;
    clock = λ since r. ground (arith, accept_client_clock_start_lem patch.running_since c.now);
  }
]

-- After a release, whoever claims the operation from a device of their own gets it.
pub claim_operator-release_operator :
    (c d : Context) (mine theirs : String) (m n : LiveMatch)
    → release_operator c mine m ≡ ok n
    → truthy d.device ≡ some theirs
    → claim_operator d theirs false n ≡ ok (take_lock d theirs n)
unfolding release_operator claim_operator require_device lock_is_free
claim_operator-release_operator c d mine theirs m n h e = elim (Option-cases (truthy c.device)) [
  | inl f ↦ ground arith
  | inr (x, f) ↦ elim (Reply-cases (assert_operator m c)) [
    | inr (y, g) ↦ ground arith
    | inl (u, g) ↦ ground (arith, eq_iff theirs theirs)
  ]
]
