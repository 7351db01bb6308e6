-- ===== src/Dispatch/Steps.antt =====
-- What a transaction that is done has gone through.
use mathlib.Core.Path.{subst}
use intereng_api.Base.{
  String, ◌≡◌, refl, arith, false, none, List, [], ◌∷◌, ◌++◌, inl, inr, Option-cases, eq_iff, ◌===◌,
  ◌⊎◌, not, find,
}
use intereng_api.Base.Sort.{sort}
use intereng_api.Http.{ok, forbidden, not_found, conflict}
use intereng_api.Database.{Edition, StaffMember, Tables}
use intereng_api.Access.{
  Scope, resolve_edition, edition_or_error, resolve_edition_for_action, resolve_scope,
}
use intereng_api.Authority.Actions.{is_global, is_created}
use intereng_api.Authority.{authorize}
use intereng_api.Outcome.{
  done, lift, >>=-Makes, done_inj, lift-eq-done, refuse_if, refuse_if-eq-done, or_refuse,
}
use intereng_api.Receipts.{
  Envelope, ExecutionResult, Receipt, Database, RevisionEvent, Request, Mutation, Services,
}
use intereng_api.Dispatch.{
  out_of_scope, or_text, unique, revise, edition_receipt, create_receipt, scope_in, audit_entry,
  new_receipt, record_mutation, mutate, answer_again, first_time, authorize_in, repeat, run_once,
}

create_receipt-eq-done :
    {S : Type 0} (r : Receipt S) (rs rs' : List (Receipt S))
    → create_receipt r rs ≡ done rs'
    → (edition_receipt r.edition r.key rs ≡ none) × (rs' ≡ rs ++ r ∷ [])
unfolding create_receipt
create_receipt-eq-done r rs rs' h = elim (Option-cases (edition_receipt r.edition r.key rs)) [
  | inl e ↦ (e, ground arith)
  | inr (x, e) ↦ absurd (ground arith)
]

module _ {R S : Type 0} (s : Services R S) (q : Request) (db : Database R S) where
  -- What is recorded of a mutation.
  pub record Recorded (edition : Edition) (m : Mutation) (t : Tables R) (result : ExecutionResult S)
      (events : List RevisionEvent) (db1 : Database R S) : Type 0 where
    pub revised : Edition
    pub scope : Scope
    pub revisions :
        revise
          (sort s.text_leb (unique (m.affected ++ or_text m.response_edition edition.id ∷ [])))
          t
        ≡ done (events, db1.tables)
    pub found_edition :
        edition_or_error (resolve_edition db1.tables (or_text m.response_edition edition.id))
        ≡ ok revised
    pub found_scope : resolve_scope db1.tables revised q.user q.role q.selected ≡ ok scope
    pub envelope : result.envelope ≡ record {
      snapshot = s.snapshot db1.tables revised scope q.device;
      revision = revised.revision;
    }
    pub created : result.created ≡ is_created q.action
    pub new_key : edition_receipt (or_text m.response_edition edition.id) q.key db.receipts ≡ none
    pub receipts :
        db1.receipts
        ≡ db.receipts
          ++ new_receipt s q revised result.envelope (or_text m.response_edition edition.id) ∷ []
    pub audit :
        db1.audit ≡ db.audit ++ audit_entry s q m (or_text m.response_edition edition.id) ∷ []

  pub record_mutation-Recorded :
      (edition : Edition) (m : Mutation) (t : Tables R) (result : ExecutionResult S)
      (events : List RevisionEvent) (db1 : Database R S)
      → record_mutation s q db edition (m, t) ≡ done (result, events, db1)
      → Recorded edition m t result events db1
  unfolding record_mutation scope_in
  record_mutation-Recorded edition m t result events db1 h =
      let response = or_text m.response_edition edition.id in
      let ((evs, t'), a, h1) =
        >>=-Makes (revise (sort s.text_leb (unique (m.affected ++ response ∷ []))) t) _ h in
      let (revised, b, h2) =
        >>=-Makes (lift (edition_or_error (resolve_edition t' response))) _ h1 in
      let (scope, c, h3) =
        >>=-Makes (lift (resolve_scope t' revised q.user q.role q.selected)) _ h2 in
      let envelope : Envelope S = record {
        snapshot = s.snapshot t' revised scope q.device;
        revision = revised.revision;
      } in
      let (rs, d, h4) =
        >>=-Makes (create_receipt (new_receipt s q revised envelope response) db.receipts) _ h3 in
      let (fresh, grown) =
        create_receipt-eq-done (new_receipt s q revised envelope response) db.receipts rs d in
      subst
        (λ (x : ExecutionResult S × List RevisionEvent × Database R S).
          Recorded edition m t x.0 x.1 x.2)
        (done_inj h4)
        (record {
          revised = revised;
          scope = scope;
          revisions = a;
          found_edition = lift-eq-done _ b;
          found_scope = lift-eq-done _ c;
          envelope = refl;
          created = refl;
          new_key = fresh;
          receipts = grown;
          audit = refl;
        })

  -- A mutation that is done: what the handler made and what is recorded of it.
  pub record Mutated (edition : Edition) (scope : Scope) (name : String)
      (result : ExecutionResult S) (events : List RevisionEvent) (db1 : Database R S) : Type 0 where
    pub mutation : Mutation
    pub tables : Tables R
    pub handled :
        s.handle q.action
          (record {
            edition = edition;
            user = q.user;
            actor_name = name;
            scope = scope;
            device = q.device;
          })
          q.payload
          q.audit
          db.tables
        ≡ done (mutation, tables)
    pub in_scope : out_of_scope scope mutation ≡ false
    pub recorded : Recorded edition mutation tables result events db1

  pub mutate-Mutated :
      (edition : Edition) (scope : Scope) (name : String) (result : ExecutionResult S)
      (events : List RevisionEvent) (db1 : Database R S)
      → mutate s q db edition scope name ≡ done (result, events, db1)
      → Mutated edition scope name result events db1
  unfolding mutate
  mutate-Mutated edition scope name result events db1 h =
      let ((m, t), a, h1) =
        >>=-Makes
          (s.handle q.action
            (record {
              edition = edition;
              user = q.user;
              actor_name = name;
              scope = scope;
              device = q.device;
            })
            q.payload q.audit db.tables)
          _ h in
      let (u, b, h2) = >>=-Makes (refuse_if (out_of_scope scope m) forbidden) _ h1 in
      record {
        mutation = m;
        tables = t;
        handled = a;
        in_scope = refuse_if-eq-done (out_of_scope scope m) forbidden b;
        recorded = record_mutation-Recorded edition m t result events db1 h2;
      }

  -- An answer from a receipt, which changes nothing.
  pub record Repeated (r : Receipt S) (result : ExecutionResult S) (events : List RevisionEvent)
      (db1 : Database R S) : Type 0 where
    pub same_hash : r.hash ≡ q.hash
    pub answer : answer_again q r ≡ done result
    pub nothing_told : events ≡ []
    pub nothing_stored : db1 ≡ db

  repeat-Repeated :
      (r : Receipt S) (result : ExecutionResult S) (events : List RevisionEvent)
      (db1 : Database R S)
      → repeat s q db r ≡ done (result, events, db1)
      → Repeated r result events db1
  unfolding repeat
  repeat-Repeated r result events db1 h =
      let (u, b, h1) = >>=-Makes (refuse_if (not (r.hash === q.hash)) conflict) _ h in
      let (x, a, e) = >>=-Makes (answer_again q r) _ h1 in
      let same : r.hash ≡ q.hash = ground (arith, eq_iff r.hash q.hash) in
      subst (λ (y : ExecutionResult S × List RevisionEvent × Database R S). Repeated r y.0 y.1 y.2)
        (done_inj e)
        (record { same_hash = same; answer = a; nothing_told = refl; nothing_stored = refl })

  -- A first request that is done: the user was admitted, and either the key has a receipt of the edition
  -- or the action ran.
  pub record Admitted (result : ExecutionResult S) (events : List RevisionEvent)
      (db1 : Database R S) : Type 0 where
    pub edition : Edition
    pub scope : Scope
    pub actor : StaffMember
    pub resolved :
        resolve_edition_for_action s.id_leb db.tables q.route (is_global q.action) ≡ ok edition
    pub scoped : resolve_scope db.tables edition q.user q.role q.selected ≡ ok scope
    pub authorized : authorize db.tables edition.id s.lower scope q.user q.action q.payload ≡ ok tt
    pub ending :
        ((r : Receipt S) × Repeated r result events db1)
        ⊎ Mutated edition scope actor.name result events db1

  run_once-ending :
      (edition : Edition) (scope : Scope) (name : String) (result : ExecutionResult S)
      (events : List RevisionEvent) (db1 : Database R S)
      → run_once s q db edition scope name ≡ done (result, events, db1)
      → ((r : Receipt S) × Repeated r result events db1)
        ⊎ Mutated edition scope name result events db1
  unfolding run_once
  run_once-ending edition scope name result events db1 h =
      elim (Option-cases (edition_receipt edition.id q.key db.receipts)) [
        | inl e ↦ inr (mutate-Mutated edition scope name result events db1 (ground arith))
        | inr (r, e) ↦ inl (r, repeat-Repeated r result events db1 (ground arith))
      ]

  pub first_time-Admitted :
      (result : ExecutionResult S) (events : List RevisionEvent) (db1 : Database R S)
      → first_time s q db ≡ done (result, events, db1)
      → Admitted result events db1
  unfolding first_time scope_in authorize_in
  first_time-Admitted result events db1 h =
      let (edition, a, h1) =
        >>=-Makes
          (lift (resolve_edition_for_action s.id_leb db.tables q.route (is_global q.action))) _ h in
      let (scope, b, h2) =
        >>=-Makes (lift (resolve_scope db.tables edition q.user q.role q.selected)) _ h1 in
      let (actor, c, h3) =
        >>=-Makes (or_refuse (find (λ m. m.id === q.user.id) db.tables.staff) not_found) _ h2 in
      let (u, d, h4) =
        >>=-Makes (lift (authorize db.tables edition.id s.lower scope q.user q.action q.payload)) _
          h3 in
      record {
        edition = edition;
        scope = scope;
        actor = actor;
        resolved = lift-eq-done _ a;
        scoped = lift-eq-done _ b;
        authorized = lift-eq-done _ d;
        ending = run_once-ending edition scope actor.name result events db1 h4;
      }
