-- ===== src/Dispatch/Replay.antt =====
-- A request that is sent again, at any later time, and a key that is used for another request.
use mathlib.Core.Path.{subst}
use mathlib.Core.Option.{some_inj}
use intereng_api.Base.{
  String, ◌≡◌, ◌≢◌, refl, sym, ap, ◌∙◌, arith, true, false, not, none, some, List, [], ◌∷◌, ◌++◌,
  ◌===◌, eq_iff, find, find-append_none, find-append_some, inl, inr, Option-cases,
}
use intereng_api.Http.{ok, conflict}
use intereng_api.Database.{Edition}
use intereng_api.Access.{Scope, resolve_edition, edition_or_error, resolve_scope}
use intereng_api.Authority.{authorize}
use intereng_api.Outcome.{
  refused, done, thrown, lift, ◌>>=◌, >>=-Makes, done_inj, lift-eq-done, refuse_if,
}
use intereng_api.Receipts.{
  Envelope, ExecutionResult, Receipt, Database, RevisionEvent, Request, Services,
}
use intereng_api.Dispatch.{
  made_by, or_text, route_receipt, receipt_envelope, answer_again, scope_in, authorize_in, replay,
  new_receipt, transact,
}
use intereng_api.Dispatch.Steps.{first_time-Admitted}
use intereng_api.Authority.Actions.{is_created}

abbrev no_events : List RevisionEvent
no_events = []

module _ {R S : Type 0} (s : Services R S) (q : Request) where
  -- A receipt that answers a request with the result.
  record Answers (r : Receipt S) (result : ExecutionResult S) : Type 0 where
    pub same_hash : r.hash ≡ q.hash
    pub answer : answer_again q r ≡ done result

  -- Whether a user still has access: the edition of the receipt is there, and the user may run the action.
  pub record StillAllowed (db : Database R S) (edition : String) : Type 0 where
    pub found : Edition
    pub scope : Scope
    pub found_edition : edition_or_error (resolve_edition db.tables edition) ≡ ok found
    pub found_scope : resolve_scope db.tables found q.user q.role q.selected ≡ ok scope
    pub authorized : authorize db.tables found.id s.lower scope q.user q.action q.payload ≡ ok tt

  -- A request that is answered again: its user still has access, and the receipt answers it.
  replay-eq-done :
      (db : Database R S) (r : Receipt S) (result : ExecutionResult S)
      → replay s q db r ≡ done result
      → StillAllowed db r.edition × Answers r result
  unfolding replay scope_in authorize_in
  replay-eq-done db r result h =
      let (u, a, h1) = >>=-Makes (refuse_if (not (r.hash === q.hash)) conflict) _ h in
      let (e, b, h2) =
        >>=-Makes (lift (edition_or_error (resolve_edition db.tables r.edition))) _ h1 in
      let (sc, c, h3) =
        >>=-Makes (lift (resolve_scope db.tables e q.user q.role q.selected)) _ h2 in
      let (v, d, h4) =
        >>=-Makes (lift (authorize db.tables e.id s.lower sc q.user q.action q.payload)) _ h3 in
      (
        record {
          found = e;
          scope = sc;
          found_edition = lift-eq-done _ b;
          found_scope = lift-eq-done _ c;
          authorized = lift-eq-done _ d;
        },
        record { same_hash = ground (arith, eq_iff r.hash q.hash); answer = h4 },
      )

  pub replay-StillAllowed :
      (db : Database R S) (r : Receipt S) (result : ExecutionResult S)
      → replay s q db r ≡ done result
      → StillAllowed db r.edition
  replay-StillAllowed db r result h = (replay-eq-done db r result h).0

  replay-Answers :
      (db : Database R S) (r : Receipt S) (result : ExecutionResult S)
      → replay s q db r ≡ done result
      → Answers r result
  replay-Answers db r result h = (replay-eq-done db r result h).1

  replay-of-Answers :
      (db : Database R S) (r : Receipt S) (result : ExecutionResult S)
      → Answers r result
      → StillAllowed db r.edition
      → replay s q db r ≡ done result
  unfolding replay scope_in authorize_in
  replay-of-Answers db r result a w =
      let test : (r.hash === q.hash) ≡ true = (eq_iff r.hash q.hash).1 a.same_hash in
      rw (test, w.found_edition, w.found_scope, w.authorized) a.answer

  -- The receipt of a mutation is the one that the route finds afterwards, and it answers with the result.
  new_receipt-Answers :
      (e : Edition) (edition : String) (result : ExecutionResult S)
      → result.created ≡ is_created q.action
      → Answers (new_receipt s q e result.envelope edition) result
  unfolding new_receipt answer_again receipt_envelope
  new_receipt-Answers e edition result c = record {
    same_hash = refl;
    answer = ground (arith, eq_iff q.user.id q.user.id);
  }

  route_receipt-new :
      (e : Edition) (edition : String) (envelope : Envelope S) (rs : List (Receipt S))
      → route_receipt q.route q.key rs ≡ none
      → route_receipt q.route q.key (rs ++ new_receipt s q e envelope edition ∷ [])
        ≡ some (new_receipt s q e envelope edition)
  unfolding route_receipt new_receipt find
  route_receipt-new e edition envelope rs h = ground (
    arith,
    eq_iff q.key q.key,
    eq_iff q.route q.route,
    find-append_none (made_by q.route q.key) rs (new_receipt s q e envelope edition ∷ []),
  )

  pub transact-old :
      (db db1 : Database R S) (result : ExecutionResult S) (events : List RevisionEvent)
      (r : Receipt S)
      → route_receipt q.route q.key db.receipts ≡ some r
      → transact s q db ≡ done (result, events, db1)
      → (replay s q db r ≡ done result) × (events ≡ []) × (db1 ≡ db)
  unfolding transact
  transact-old db db1 result events r e h =
      let again : (replay s q db r >>= λ x. done (x, no_events, db)) ≡ done (result, events, db1) =
        sym (rw (e, transact) refl) ∙ h in
      let (x, a, b) = >>=-Makes (replay s q db r) _ again in
      let p = done_inj b in (a ∙ ap (λ y. done y.0) p, sym (ap (λ y. y.1) p), sym (ap (λ y. y.2) p))

  -- After a request that is done, the receipt that its route has of the key answers with its result.
  transact-Answers :
      (db db1 : Database R S) (result : ExecutionResult S) (events : List RevisionEvent)
      (r : Receipt S)
      → transact s q db ≡ done (result, events, db1)
      → route_receipt q.route q.key db1.receipts ≡ some r
      → Answers r result
  unfolding transact
  transact-Answers db db1 result events r h k =
      elim (Option-cases (route_receipt q.route q.key db.receipts)) [
        | inr (old, e) ↦
            let (a, b, c) = transact-old db db1 result events old e h in
            let same : old ≡ r =
              some_inj.0 (sym e ∙ ap (λ x. route_receipt q.route q.key x.receipts) (sym c) ∙ k) in
            subst (λ x. Answers x result) same (replay-Answers db old result a)
        | inl e ↦
            let ad = first_time-Admitted s q db result events db1 (ground arith) in
            elim ad.ending [
              | inl (x, rep) ↦ absurd (ground (arith, rep.nothing_stored))
              | inr mu ↦
                  let rec = mu.recorded in
                  let edition = or_text mu.mutation.response_edition ad.edition.id in
                  let here = route_receipt-new rec.revised edition result.envelope db.receipts e in
                  let same : new_receipt s q rec.revised result.envelope edition ≡ r =
                    some_inj.0
                      (sym here ∙ ap (route_receipt q.route q.key) (sym rec.receipts) ∙ k) in
                  subst (λ x. Answers x result) same
                    (new_receipt-Answers rec.revised edition result rec.created)
            ]
      ]

  pub transact-replay :
      (db db1 : Database R S) (result : ExecutionResult S) (events : List RevisionEvent)
      (r : Receipt S) (db2 : Database R S) (more : List (Receipt S))
      → transact s q db ≡ done (result, events, db1)
      → route_receipt q.route q.key db1.receipts ≡ some r
      → db2.receipts ≡ db1.receipts ++ more
      → StillAllowed db2 r.edition
      → transact s q db2 ≡ done (result, [], db2)
  unfolding transact route_receipt
  transact-replay db db1 result events r db2 more h k g w =
      let later : route_receipt q.route q.key db2.receipts ≡ some r =
        ap (route_receipt q.route q.key) g
        ∙ find-append_some (made_by q.route q.key) db1.receipts more r k in
      rw
        (
          later,
          replay-of-Answers db2 r result (transact-Answers db db1 result events r h k) w,
          transact,
        )
        refl

  pub transact-conflict :
      (db db1 : Database R S) (result : ExecutionResult S) (events : List RevisionEvent)
      (r : Receipt S) (db2 : Database R S) (more : List (Receipt S)) (other : Request)
      → transact s q db ≡ done (result, events, db1)
      → route_receipt q.route q.key db1.receipts ≡ some r
      → db2.receipts ≡ db1.receipts ++ more
      → other.route ≡ q.route
      → other.key ≡ q.key
      → other.hash ≢ q.hash
      → transact s other db2 ≡ thrown (refused conflict)
  unfolding transact route_receipt replay
  transact-conflict db db1 result events r db2 more other h k g same_route same_key differs =
      let mine = transact-Answers db db1 result events r h k in
      let later : route_receipt other.route other.key db2.receipts ≡ some r =
        rw (same_route, same_key, g)
          (find-append_some (made_by q.route q.key) db1.receipts more r k) in
      let test : (r.hash === other.hash) ≡ false =
        ground (arith, eq_iff r.hash other.hash, mine.same_hash) in
      rw (later, test, transact, replay) refl
