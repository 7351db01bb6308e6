-- ===== src/Limiter.antt =====
-- src/realtime/sse-connection-limiter.service.ts: the counters of open streams. The closures that `acquire`
-- returned are a list, the newest first, each with its `released` flag. `limit` gives the limit of a key,
-- which is the one of origins for `ip:…` and the one of accounts for `conta:…`.
pub mod Counts
use mathlib.Core.Option.{get_or}
use intereng_api.Base.{
  ℕ, ◌+◌, ◌-◌, String, Bool, true, false, Option, none, some, List, [], ◌∷◌, leb, get_elem?, ◌===◌,
  ◌==◌, if◌then◌else◌,
}
use intereng_api.Base.{set}
use intereng_api.Base.Dict
use intereng_api.Base.Dict.{Dict}

pub record Handle : Type 0 where
  pub key : String
  pub released : Bool

pub record Limiter : Type 0 where
  pub counters : Dict ℕ
  pub total : ℕ
  pub handles : List Handle

abbrev pub no_streams : Limiter
no_streams = record { counters = []; total = 0; handles = [] }

-- counters.delete(key)
unfoldable pub remove : String → Dict ℕ → Dict ℕ
remove k [] = []
remove k ((j, n) ∷ d) = let rest = remove k d in if j === k then rest else (j, n) ∷ rest

-- `activeConnectionsFor`
unfoldable pub active_connections_for : String → Limiter → ℕ
active_connections_for k s = get_or (Dict.get k s.counters) 0

-- `acquire`; `none` is the error 429.
unfoldable pub acquire : ℕ → ℕ → String → Limiter → Option Limiter
unfolding active_connections_for Dict.set
acquire max_global max_per_key key s =
    let current = active_connections_for key s in
    if leb max_global s.total
    then none
    else if leb max_per_key current
    then none
    else some (record {
      counters = Dict.set key (current + 1) s.counters;
      total = s.total + 1;
      handles = record { key = key; released = false } ∷ s.handles;
    })

-- A call of the closure at a place of the list.
unfoldable pub release : ℕ → Limiter → Limiter
unfolding remove Dict.set
release i s = elim (get_elem? s.handles i) [
  | none ↦ s
  | some h ↦
      let remaining = get_or (Dict.get h.key s.counters) 1 - 1 in
      if h.released then s else record {
        counters =
            if remaining == 0 then remove h.key s.counters else Dict.set h.key remaining s.counters;
        total = s.total - 1;
        handles = set s.handles i (record h { released = true });
      }
]
