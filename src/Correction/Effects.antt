-- ===== src/Correction/Effects.antt =====
-- What a correction leaves of the matches of its category.
use mathlib.Core.Path.{subst}
use intereng_api.Base.{
  ℕ, String, ◌≡◌, ◌===◌, refl, sym, ap, ◌∙◌, arith, Bool, true, false, not, Option, some, List, ◌∷◌,
  filter, any,
}
use intereng_api.Http.{conflict, not_found, Reply, ok, >>=-Returns, throw_if, throw_if-Returns}
use intereng_api.Validation.{Audit}
use intereng_api.Regulation.{Regulation, StandingsRule}
use intereng_api.Status.{finished, EditionStatus, is_scheduled, is_official}
use intereng_api.Knockout.{MatchId, same_id, BracketMatch, Category, find_match, update_match}
use intereng_api.Knockout.Survival.{Survives}
use intereng_api.Qualify.{Colocacao}
use intereng_api.Progress.{progress_knockout}
use intereng_api.Progress.Safety.{progress_knockout-Survives}
use intereng_api.Recompute.{Counted, recompute_phases, recompute_tournament}
use intereng_api.Correction.{
  MatchCorrection, Desk, CorrectionPayload, depends_on, dependent_matches, in_knockout,
  corrected_winner, corrected, found_or, reason_or, store_correction, correct_result,
  recompute_after,
}
use intereng_api.Correction.Winner.{Decides, corrected_winner-Decides}
use intereng_api.Correction.Lookup.{
  sync_status-matches, find_match-filter, not-selected, find_match-update_other,
  find_match-update_self, found_or-Returns, ok_inj,
}

module _ (natural : String → Option ℕ) (category_id : String) (by_name : String → Reply String)
    (recompute : Category × EditionStatus → Category × EditionStatus) (r : Regulation)
    (actor actor_name : String) (audit : Option Audit) (q : CorrectionPayload)
    (d after : Desk) where
  -- What a correction does to the match, to the other matches and to the list of corrections.
  pub record Effects : Type 0 where
    pub old : BracketMatch
    pub was_there : find_match q.match_id d.category.matches ≡ some old
    pub was_official : is_official old.status ≡ true
    pub now : BracketMatch
    pub is_there : find_match q.match_id after.category.matches ≡ some now
    pub is_finished : now.status ≡ finished
    pub score_a : now.score_a ≡ q.score_a
    pub score_b : now.score_b ≡ q.score_b
    pub winner :
        Decides by_name r (in_knockout d.category old) d.tiebreak old q.score_a q.score_b now.winner
    pub others :
        (id : MatchId) (m : BracketMatch)
        → same_id q.match_id id ≡ false
        → is_scheduled m.status ≡ false
        → find_match id d.category.matches ≡ some m
        → find_match id after.category.matches ≡ some m
    pub correction : MatchCorrection
    pub noted : after.corrections ≡ correction ∷ d.corrections
    pub of_match : correction.match_id ≡ q.match_id
    pub old_score : correction.before ≡ (old.score_a, old.score_b)
    pub new_score : correction.after ≡ (q.score_a, q.score_b)

module _ (natural : String → Option ℕ) (category_id : String) (by_name : String → Reply String)
    (recompute : Category × EditionStatus → Category × EditionStatus)
    (survives : (c : Category) (e : EditionStatus)
      → Survives c.matches (recompute (c, e)).0.matches)
    (r : Regulation) (actor actor_name : String) (audit : Option Audit) (q : CorrectionPayload)
    (d after : Desk) where
  -- The matches that are not deleted, before and after the new result is written.
  kept : BracketMatch → List BracketMatch
  kept m = filter (λ x. not (depends_on natural category_id d.category m x)) d.category.matches

  changed : BracketMatch → Option String → List BracketMatch
  changed m winner = update_match q.match_id (corrected q.score_a q.score_b winner) (kept m)

  find_match-kept :
      (m : BracketMatch) (id : MatchId) (n : BracketMatch)
      → any (λ x. not (is_scheduled x.status)) (dependent_matches natural category_id d.category m)
        ≡ false
      → is_scheduled n.status ≡ false
      → find_match id d.category.matches ≡ some n
      → find_match id (kept m) ≡ some n
  unfolding kept dependent_matches
  find_match-kept m id n free s f =
      let dep = depends_on natural category_id d.category m in
      let out : dep n ≡ false =
        not-selected (λ x. not (is_scheduled x.status)) dep id d.category.matches n free f
          (ap not s) in
      find_match-filter (λ x. not (dep x)) id d.category.matches n f (ap not out)

  -- The recomputation leaves a match that is not scheduled.
  find_match-after :
      (reason : String) (m : BracketMatch) (winner : Option String) (id : MatchId)
      (n : BracketMatch)
      → store_correction natural category_id by_name recompute r actor actor_name q reason m winner
          d
        ≡ after
      → is_scheduled n.status ≡ false
      → find_match id (changed m winner) ≡ some n
      → find_match id after.category.matches ≡ some n
  unfolding store_correction changed kept
  find_match-after reason m winner id n e s f =
      let (o, found, k) =
        survives (record d.category { matches = changed m winner }) d.edition id n f in
      ap (λ x. find_match id x.category.matches) (sym e) ∙ found ∙ ap some (k.untouched s)

  store_correction-Effects :
      (reason : String) (m : BracketMatch) (winner : Option String)
      → find_match q.match_id d.category.matches ≡ some m
      → is_official m.status ≡ true
      → any (λ x. not (is_scheduled x.status)) (dependent_matches natural category_id d.category m)
        ≡ false
      → corrected_winner by_name r (in_knockout d.category m) d.tiebreak m q.score_a q.score_b
        ≡ ok winner
      → store_correction natural category_id by_name recompute r actor actor_name q reason m winner
          d
        ≡ after
      → Effects natural category_id by_name recompute r actor actor_name audit q d after
  unfolding changed store_correction
  store_correction-Effects reason m winner there official free won e =
      let write = corrected q.score_a q.score_b winner in
      let mine = find_match-kept m q.match_id m free (ground arith) there in
      record {
        old = m;
        was_there = there;
        was_official = official;
        now = write m;
        is_there =
            find_match-after reason m winner q.match_id (write m) e refl
              (find_match-update_self q.match_id write (kept m) m (λ x. refl) mine);
        is_finished = refl;
        score_a = refl;
        score_b = refl;
        winner =
            corrected_winner-Decides by_name r (in_knockout d.category m) d.tiebreak m q.score_a
              q.score_b winner won;
        others = λ id n differs s f. find_match-after reason m winner id n e s (
            find_match-update_other q.match_id id write (kept m) (λ x. refl) differs
            ∙ find_match-kept m id n free s f);
        correction = record {
          id = q.correction_id;
          match_id = q.match_id;
          actor = actor;
          actor_name = actor_name;
          reason = reason;
          before = (m.score_a, m.score_b);
          after = (q.score_a, q.score_b);
        };
        noted = ap (λ x. x.corrections) (sym e);
        of_match = refl;
        old_score = refl;
        new_score = refl;
      }

  corrects-Effects :
      correct_result natural category_id by_name recompute r actor actor_name audit q d ≡ ok after
      → Effects natural category_id by_name recompute r actor actor_name audit q d after
  unfolding correct_result
  corrects-Effects h =
      let (reason, a, h1) = >>=-Returns (reason_or q.reason audit) _ h in
      let (m, b, h2) =
        >>=-Returns (found_or (find_match q.match_id d.category.matches) not_found) _ h1 in
      let (u, c, h3) = >>=-Returns (throw_if (not (is_official m.status)) conflict) _ h2 in
      let (v, k, h4) =
        >>=-Returns (throw_if (any (λ x. x.id === q.correction_id) d.corrections) conflict) _ h3 in
      let (w, f, h5) =
        >>=-Returns
          (throw_if
            (any (λ x. not (is_scheduled x.status))
              (dependent_matches natural category_id d.category m))
            conflict)
          _ h4 in
      let (winner, g, h6) =
        >>=-Returns
          (corrected_winner by_name r (in_knockout d.category m) d.tiebreak m q.score_a q.score_b) _
          h5 in
      store_correction-Effects reason m winner (found_or-Returns _ not_found b)
        (ground (arith, throw_if-Returns (not (is_official m.status)) conflict c))
        (throw_if-Returns _ conflict f) g (ok_inj h6)

module _ (locale_leb : String → String → Bool) (ler : String → Option Colocacao)
    (nome : String → String) (now : ℕ) (rule : StandingsRule)
    (counted : List BracketMatch → Counted) where
  recompute_after-Survives :
      (c : Category) (e : EditionStatus)
      → Survives c.matches (recompute_after locale_leb ler nome now rule counted (c, e)).0.matches
  unfolding recompute_tournament
  recompute_after-Survives c e =
      let tables = record c {
        standings =
            recompute_phases locale_leb rule (counted c.matches) c.entries c.phases c.standings;
      } in
      let moved = progress_knockout locale_leb ler nome now tables in
      subst (Survives c.matches) (sym (sync_status-matches moved e))
        (progress_knockout-Survives locale_leb ler nome now tables)

  -- A correction that succeeds finishes the match, which was finished or decided by walkover, with the
  -- new score. Its winner is the side with more points; with a level score there is none, but in a
  -- knockout phase, and where the discipline has no draws, it is the winner of the stored tiebreak, who
  -- plays in the match and is ahead in the tiebreak, or level in an administrative one. The correction
  -- notes the old score and the new one, and every other match that is no longer scheduled is as it was,
  -- also after the tables and the bracket were made again.
  pub correct_result-Effects :
      (natural : String → Option ℕ) (category_id : String) (by_name : String → Reply String)
      (r : Regulation) (actor actor_name : String) (audit : Option Audit) (q : CorrectionPayload)
      (d after : Desk)
      → correct_result natural category_id by_name
          (recompute_after locale_leb ler nome now rule counted)
          r
          actor
          actor_name
          audit
          q
          d
        ≡ ok after
      → Effects natural category_id by_name
          (recompute_after locale_leb ler nome now rule counted)
          r
          actor
          actor_name
          audit
          q
          d
          after
  correct_result-Effects natural category_id by_name =
      corrects-Effects natural category_id by_name
        (recompute_after locale_leb ler nome now rule counted) recompute_after-Survives
