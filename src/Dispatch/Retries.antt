-- ===== src/Dispatch/Retries.antt =====
-- The retries of `execute`, whatever the attempts meet.
use native.Mathlib.Decide.{ℕ_discrete}
use mathlib.Core.Path.{subst}
use intereng_api.Base.{
  sym, ap, ℕ, suc, zero, ◌+◌, ◌≤◌, ◌<◌, ◌≡◌, ◌⊎◌, inl, inr, refl, ◌∙◌, arith, true, false, ◌&&◌,
  none, some, List, [], ltb, Bool-cases,
}
use intereng_api.Outcome.{Thrown, write_conflict, done, thrown, Outcome-cases}
use intereng_api.Receipts.{ExecutionResult, Database, RevisionEvent, Request, Services}
use intereng_api.Dispatch.Execute.{
  is_write_conflict, map_prisma_error, Moment, Execution, attempt, attempts_from, execute,
}

module _ {R S : Type 0} (s : Services R S) (q : Request) (moments : ℕ → Moment R S) where
  -- An execution that committed what its last attempt made.
  pub record Committed (x : Execution R S) : Type 0 where
    pub result : ExecutionResult S
    pub events : List RevisionEvent
    pub database : Database R S
    pub made : attempt s q (moments x.attempts) ≡ done (result, events, database)
    pub answered : x.answer ≡ done result
    pub stored : x.committed ≡ some database
    pub told : x.published ≡ events

  -- An execution that ended with the error of its last attempt.
  pub record Refused (x : Execution R S) : Type 0 where
    pub error : Thrown
    pub made : attempt s q (moments x.attempts) ≡ thrown error
    pub answered : x.answer ≡ thrown (map_prisma_error error)
    pub nothing_stored : x.committed ≡ none
    pub nothing_told : x.published ≡ []
    pub conflict_last : error ≡ write_conflict → x.attempts ≡ 3

  pub record Ended (x : Execution R S) : Type 0 where
    pub at_least_one : 1 ≤ x.attempts
    pub at_most_three : x.attempts ≤ 3
    pub earlier : (k : ℕ) → 1 ≤ k → k < x.attempts → attempt s q (moments k) ≡ thrown write_conflict
    pub last : Committed x ⊎ Refused x

  not-conflict : (e : Thrown) → is_write_conflict e ≡ true → e ≡ write_conflict
  not-conflict e h = ground arith

  module _ (left k : ℕ) (p : 1 ≤ k) (n : k ≤ 3)
      (before : (j : ℕ) → 1 ≤ j → j < k → attempt s q (moments j) ≡ thrown write_conflict) where
    done-Ended :
        (result : ExecutionResult S) (events : List RevisionEvent) (db : Database R S)
        → attempt s q (moments k) ≡ done (result, events, db)
        → Ended (attempts_from s q moments (suc left) k)
    unfolding attempts_from
    done-Ended result events db e =
        rw (e, attempts_from)
          (record {
            at_least_one = p;
            at_most_three = n;
            earlier = before;
            last = inl (record {
              result = result;
              events = events;
              database = db;
              made = e;
              answered = refl;
              stored = refl;
              told = refl;
            });
          })

    -- An error that is not tried again.
    thrown-Ended :
        (x : Thrown)
        → attempt s q (moments k) ≡ thrown x
        → (is_write_conflict x && ltb k 3) ≡ false
        → Ended (attempts_from s q moments (suc left) k)
    unfolding attempts_from
    thrown-Ended x e c =
        rw (e, c, attempts_from)
          (record {
            at_least_one = p;
            at_most_three = n;
            earlier = before;
            last = inr (record {
              error = x;
              made = e;
              answered = refl;
              nothing_stored = refl;
              nothing_told = refl;
              conflict_last = λ w. ground arith;
            });
          })

  attempts_from-Ended :
      (left k : ℕ)
      → suc left + k ≡ 4
      → 1 ≤ k
      → ((j : ℕ) → 1 ≤ j → j < k → attempt s q (moments j) ≡ thrown write_conflict)
      → Ended (attempts_from s q moments (suc left) k)
  unfolding attempts_from
  attempts_from-Ended zero k n p before = elim (Outcome-cases (attempt s q (moments k))) [
    | inl ((result, events, db), e) ↦ done-Ended zero k p (omega arith) before result events db e
    | inr (x, e) ↦ thrown-Ended zero k p (omega arith) before x e (ground arith)
  ]
  attempts_from-Ended (suc left) k n p before = elim (Outcome-cases (attempt s q (moments k))) [
    | inl ((result, events, db), e) ↦
        done-Ended (suc left) k p (omega arith) before result events db e
    | inr (x, e) ↦ elim (Bool-cases (is_write_conflict x && ltb k 3)) [
      | inr c ↦ thrown-Ended (suc left) k p (omega arith) before x e c
      | inl c ↦
          let here : attempt s q (moments k) ≡ thrown write_conflict =
            e ∙ ap thrown (not-conflict x (ground arith)) in
          let now : (j : ℕ) → 1 ≤ j → j < k + 1 → attempt s q (moments j) ≡ thrown write_conflict =
            λ j l m. elim (ℕ_discrete j k) [
              | yes same ↦
                  subst (λ i. attempt s q (moments i) ≡ thrown write_conflict) (sym same) here
              | no other ↦ before j l (omega arith)
            ] in
          let again : attempts_from s q moments (suc (suc left)) k
              ≡ attempts_from s q moments (suc left) (k + 1) =
            rw (e, c, attempts_from) refl in
          subst Ended (sym again) (attempts_from-Ended left (k + 1) (omega arith) (omega arith) now)
    ]
  ]

  -- Whatever the attempts meet, an execution ends after one to three of them. All but the last met a
  -- conflict of writes. It answers as the last one does and commits and publishes what that made, or
  -- nothing where it throws; a conflict of writes ends it only at the third attempt.
  pub execute-Ended : Ended (execute s q moments)
  unfolding execute
  execute-Ended = attempts_from-Ended 2 1 refl (omega arith) (λ j l m. absurd (omega arith))
