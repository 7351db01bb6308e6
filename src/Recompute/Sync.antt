-- ===== src/Recompute/Sync.antt =====
-- The status that `syncStatusWithMatches` gives a category.
use intereng_api.Base.{◌≡◌, arith, true, false, ◌||◌, List, [], ◌∷◌, ◌==◌, length}
use intereng_api.Status.{ended, published, EditionStatus, is_started, is_pending}
use intereng_api.Knockout.{Category}
use intereng_api.Recompute.{
  any_match, has_knockout, is_settled, is_published, next_status, sync_status,
}

-- The status and the edition after `syncStatusWithMatches`.
pub record Synced (c : Category) (e : EditionStatus) : Type 0 where
  -- A draft, an archived or an ended category is left.
  pub settled_stays : is_settled c.status ≡ true → (sync_status (c, e)).0 ≡ c
  -- Without a knockout phase, the last official result ends the category.
  pub last_result_ends :
      is_settled c.status ≡ false
      → has_knockout c.phases ≡ false
      → any_match is_started c.matches ≡ true
      → any_match is_pending c.matches ≡ false
      → (sync_status (c, e)).0.status ≡ ended
  -- With a knockout phase, or while matches are pending, the category is not ended here.
  pub ends_only_then :
      is_settled c.status ≡ false
      → (has_knockout c.phases || any_match is_pending c.matches) ≡ true
      → is_settled (sync_status (c, e)).0.status ≡ false
  -- The first match that is played starts a published category.
  pub first_match_starts :
      c.status ≡ published
      → any_match is_started c.matches ≡ true
      → is_published (sync_status (c, e)).0.status ≡ false
  -- Where no match was started, nothing changes.
  pub nothing_started : any_match is_started c.matches ≡ false → sync_status (c, e) ≡ (c, e)

some-matches :
    (c : Category) → any_match is_started c.matches ≡ true → (length c.matches == 0) ≡ false
unfolding any_match
some-matches c h = elim_matches c.matches h
  where
    elim_matches : (ms : List _) → any_match is_started ms ≡ true → (length ms == 0) ≡ false
    elim_matches [] h = cc
    elim_matches (m ∷ ms) h = ground arith

-- The status of a category follows its matches: a settled status stays; the last result ends a category
-- without a knockout phase; a category with one, or with pending matches, is not ended; the first match
-- starts a published category; and where none was started nothing changes.
pub sync_status-Synced : (c : Category) (e : EditionStatus) → Synced c e
unfolding sync_status next_status
sync_status-Synced c e = record {
  settled_stays = λ h. ground arith;
  last_result_ends = λ s k a p. ground (arith, some-matches c a);
  ends_only_then = λ s k. ground arith;
  first_match_starts = λ s a. ground (arith, some-matches c a);
  nothing_started = λ a. ground arith;
}
