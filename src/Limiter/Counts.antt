-- ===== src/Limiter/Counts.antt =====
-- The counters through any sequence of calls.
use mathlib.Core.Option.{get_or}
use intereng_api.Base.{
  ℕ, zero, suc, ◌+◌, ◌-◌, ◌≤◌, ◌≡◌, refl, arith, String, true, false, none, some, List, [], ◌∷◌,
  get_elem?, ◌===◌, ◌==◌, eq_iff, inl, inr, Bool-cases, Option-cases, if◌then◌else◌,
}
use intereng_api.Base.{set}
use intereng_api.Base.Dict
use intereng_api.Base.Dict.{Dict, get-set}
use intereng_api.Limiter.{
  Handle, Limiter, no_streams, remove, active_connections_for, acquire, release,
}

-- The closures that were not called yet, all of them and those of a key.
unfoldable pub open_streams : List Handle → ℕ
open_streams [] = 0
open_streams (h ∷ hs) = (if h.released then 0 else 1) + open_streams hs

unfoldable pub open_streams_for : String → List Handle → ℕ
open_streams_for k [] = 0
open_streams_for k (h ∷ hs) =
    (if h.released then 0 else if h.key === k then 1 else 0) + open_streams_for k hs

get-remove :
    (k j : String) (d : Dict ℕ) → Dict.get j (remove k d) ≡ (if k === j then none else Dict.get j d)
unfolding Dict.get remove
get-remove k j [] = ground arith
get-remove k j ((i, n) ∷ d) = ground (arith, eq_iff k j, eq_iff i k, eq_iff i j, get-remove k j d)

open_streams-set :
    (hs : List Handle) (i : ℕ) (h : Handle)
    → get_elem? hs i ≡ some h
    → h.released ≡ false
    → open_streams (set hs i (record h { released = true })) + 1 ≡ open_streams hs
unfolding open_streams
open_streams-set [] i h e r = cc
open_streams-set (x ∷ hs) zero h e r = ground arith
open_streams-set (x ∷ hs) (suc i) h e r = ground (arith, open_streams-set hs i h e r)

open_streams_for-set :
    (k : String) (hs : List Handle) (i : ℕ) (h : Handle)
    → get_elem? hs i ≡ some h
    → h.released ≡ false
    → open_streams_for k (set hs i (record h { released = true })) + (if h.key === k then 1 else 0)
      ≡ open_streams_for k hs
unfolding open_streams_for
open_streams_for-set k [] i h e r = cc
open_streams_for-set k (x ∷ hs) zero h e r = ground arith
open_streams_for-set k (x ∷ hs) (suc i) h e r = ground (arith, open_streams_for-set k hs i h e r)

module _ (max_global : ℕ) (limit : String → ℕ) where
  -- The states that calls of `acquire` and of the closures lead to; a closure may be called again.
  pub data Reachable : Limiter → Type 0 where
    at_start : Reachable no_streams
    acquired :
        (s t : Limiter) (key : String)
        → Reachable s
        → acquire max_global (limit key) key s ≡ some t
        → Reachable t
    released_at : (s : Limiter) (i : ℕ) → Reachable s → Reachable (release i s)

  -- The total and the counters are the numbers of open streams, within the limits.
  pub record Exact (s : Limiter) : Type 0 where
    pub total_exact : s.total ≡ open_streams s.handles
    pub key_exact : (k : String) → active_connections_for k s ≡ open_streams_for k s.handles
    pub total_limit : s.total ≤ max_global
    pub key_limit : (k : String) → active_connections_for k s ≤ limit k

  acquire-Exact :
      (s t : Limiter) (key : String)
      → Exact s
      → acquire max_global (limit key) key s ≡ some t
      → Exact t
  unfolding acquire active_connections_for open_streams open_streams_for
  acquire-Exact s t key x h = record {
    total_exact = ground (arith, x.total_exact);
    key_exact = λ k. ground (
      arith,
      x.key_exact k,
      x.key_exact key,
      get-set key k (get_or (Dict.get key s.counters) 0 + 1) s.counters,
      eq_iff key k,
    );
    total_limit = ground (arith, x.total_limit);
    key_limit = λ k. ground (
      arith,
      x.key_limit k,
      get-set key k (get_or (Dict.get key s.counters) 0 + 1) s.counters,
      eq_iff key k,
    );
  }

  module _ (s : Limiter) (i : ℕ) (h : Handle) (x : Exact s) (e : get_elem? s.handles i ≡ some h)
      (r : h.released ≡ false) where
    abbrev after : Limiter
    after = record {
      counters =
          if get_or (Dict.get h.key s.counters) 1 - 1 == 0
          then remove h.key s.counters
          else Dict.set h.key (get_or (Dict.get h.key s.counters) 1 - 1) s.counters;
      total = s.total - 1;
      handles = set s.handles i (record h { released = true });
    }

    release_open : release i s ≡ after
    unfolding release
    release_open = rw (e, r, release) refl

    -- The counter of a key after the call.
    counted_down :
        (k : String)
        → active_connections_for k after + (if h.key === k then 1 else 0)
          ≡ active_connections_for k s
    unfolding active_connections_for
    counted_down k =
        let here = open_streams_for-set h.key s.handles i h e r in
        let exact = x.key_exact h.key in
        elim (Option-cases (Dict.get h.key s.counters)) [
          | inl g ↦ ground (arith, eq_iff h.key h.key)
          | inr (n, g) ↦ ground (
            arith,
            get-remove h.key k s.counters,
            get-set h.key k (n - 1) s.counters,
            eq_iff h.key k,
            eq_iff h.key h.key,
          )
        ]

    release-Exact : Exact (release i s)
    release-Exact =
        let all = open_streams-set s.handles i h e r in
        let next : Exact after = record {
          total_exact = omega (arith, x.total_exact, all);
          key_exact = λ k.
              omega
                (arith, counted_down k, x.key_exact k, open_streams_for-set k s.handles i h e r);
          total_limit = omega (arith, x.total_limit);
          key_limit = λ k. omega (arith, counted_down k, x.key_limit k);
        } in
        rw release_open next

  -- In every state that calls of `acquire` and of the closures lead to, in any order and with closures
  -- called again, the total and the counter of every key are the numbers of their open streams, and they
  -- stay within the limits.
  pub Reachable-Exact : (s : Limiter) → Reachable s → Exact s
  Reachable-Exact _ at_start = record {
    total_exact = unfold open_streams in refl;
    key_exact = λ k. unfold active_connections_for Dict.get open_streams_for in refl;
    total_limit = omega arith;
    key_limit = λ k. unfold active_connections_for Dict.get in omega arith;
  }
  Reachable-Exact t (acquired s _ key p h) = acquire-Exact s t key (Reachable-Exact s p) h
  Reachable-Exact _ (released_at s i p) = elim (Option-cases (get_elem? s.handles i)) [
    | inl e ↦
        let same : release i s ≡ s = unfold release in rw (e, release) refl in
        rw same (Reachable-Exact s p)
    | inr (h, e) ↦ elim (Bool-cases h.released) [
      | inl r ↦
          let same : release i s ≡ s = unfold release in rw (e, r, release) refl in
          rw same (Reachable-Exact s p)
      | inr r ↦ release-Exact s i h (Reachable-Exact s p) e r
    ]
  ]
