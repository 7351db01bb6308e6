-- ===== src/Examples/Lock.antt =====
-- The theorems on the start of a match and on the release of its lock.
use intereng_api.Base.{◌≡◌, refl, true, none, some}
use intereng_api.Standings.{truthy}
use intereng_api.Status.{live, scheduled}
use intereng_api.Match.{
  ok, LiveMatch, StartPatch, start, release_operator, lock_is_free, require_device, assert_operator,
  accept_client_clock_start,
}
use intereng_api.Match.Start.{Started, start_lem}
use intereng_api.Examples.Live.{kick_off, table_device, or_match}

abbrev waiting : LiveMatch
waiting = record kick_off {
  status = scheduled;
  operator = none;
  operator_device = none;
  heartbeat = none;
  started_at = none;
  running_since = none;
}

abbrev whistle : StartPatch
whistle = record { device = some "tablet"; status = some live; running_since = some 950 }

abbrev begun : LiveMatch
begun = or_match waiting (start table_device true whistle waiting)

begun_ok : start table_device true whistle waiting ≡ ok begun
unfolding start require_device lock_is_free accept_client_clock_start truthy
begun_ok = refl

start_lem_example : Started table_device true waiting begun
start_lem_example = start_lem table_device true whistle waiting begun begun_ok

abbrev let_go : LiveMatch
let_go = or_match kick_off (release_operator table_device "tablet" kick_off)

let_go_ok : release_operator table_device "tablet" kick_off ≡ ok let_go
unfolding release_operator require_device assert_operator truthy
let_go_ok = refl
