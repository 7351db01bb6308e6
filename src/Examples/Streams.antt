-- ===== src/Examples/Streams.antt =====
-- The theorem on the open streams, at two acquired streams of which one is closed twice.
use intereng_api.Base.{ℕ, ◌≡◌, refl, String, Option, none, some}
use intereng_api.Base.Dict
use intereng_api.Limiter.{Limiter, no_streams, active_connections_for, acquire, release}
use intereng_api.Limiter.Counts.{at_start, acquired, released_at, Exact, Reachable-Exact}

abbrev forty : String → ℕ
forty k = 40

abbrev or_state : Limiter → Option Limiter → Limiter
or_state s none = s
or_state s (some t) = t

abbrev one_stream : Limiter
one_stream = or_state no_streams (acquire 800 40 "ip:1" no_streams)

one_ok : acquire 800 40 "ip:1" no_streams ≡ some one_stream
unfolding acquire active_connections_for Dict.get Dict.set
one_ok = refl

abbrev two_streams : Limiter
two_streams = or_state one_stream (acquire 800 40 "ip:1" one_stream)

two_ok : acquire 800 40 "ip:1" one_stream ≡ some two_streams
unfolding acquire active_connections_for Dict.get Dict.set
two_ok = refl

Reachable-Exact_example : Exact 800 forty (release 1 (release 1 two_streams))
Reachable-Exact_example = Reachable-Exact 800 forty (release 1 (release 1 two_streams)) (
    released_at (release 1 two_streams) 1 (
      released_at two_streams 1 (
        acquired one_stream two_streams "ip:1"
          (acquired no_streams one_stream "ip:1" at_start one_ok) two_ok)))
