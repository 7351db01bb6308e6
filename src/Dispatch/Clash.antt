-- ===== src/Dispatch/Clash.antt =====
-- The unique key of the receipts of src/edition-actions/edition-actions.service.ts: an edition and an
-- idempotency key.
use intereng_api.Base.{
  ◌≡◌, ◌≢◌, refl, ap, ◌∙◌, arith, String, Bool, true, false, not, ◌===◌, Option, none, some, List,
  [], ◌∷◌, ◌++◌, find, inl, inr, Bool-cases, Option-cases, if◌then◌else◌,
}
use intereng_api.Base.Sort.{sort}
use intereng_api.Http.{HttpError, Reply, ok, fail, conflict, forbidden, internal, not_found}
use intereng_api.Database.{Edition, Tables, User}
use intereng_api.Access.{Scope, edition_or_error, resolve_edition, resolve_edition_for_action}
use intereng_api.Authority.Actions.{is_global}
use intereng_api.Outcome.{
  refused, unique_violation, other_error, Outcome, done, thrown, lift, ◌>>=◌, refuse_if, or_refuse,
  or_throw,
}
use intereng_api.Receipts.{
  Envelope, Receipt, StoredResponse, Database, Request, ActionContext, Mutation, Services,
}
use intereng_api.Dispatch.{
  or_text, out_of_scope, unique, bump, revise, edition_receipt, route_receipt, receipt_envelope,
  answer_again, create_receipt, scope_in, authorize_in, replay, new_receipt, record_mutation,
  mutate, repeat, run_once, first_time, transact,
}

-- What did not break a unique key.
abbrev pub Unclashed : {A : Type 0} → Outcome A → Type 0
Unclashed m = m ≢ thrown unique_violation

>>=-Unclashed :
    {A B : Type 0} (m : Outcome A) (rest : A → Outcome B)
    → Unclashed m
    → ((a : A) → m ≡ done a → Unclashed (rest a))
    → Unclashed (m >>= rest)
>>=-Unclashed (thrown e) rest h k = λ p. h (ground arith)
>>=-Unclashed (done a) rest h k = k a refl

done-Unclashed : {A : Type 0} (a : A) → Unclashed (done a)
done-Unclashed a h = cc

abbrev refusal : (A : Type 0) → HttpError → Outcome A
refusal A e = thrown (refused e)

refused-Unclashed : {A : Type 0} (e : HttpError) → Unclashed (refusal A e)
refused-Unclashed e h = cc

lift-Unclashed : {A : Type 0} (m : Reply A) → Unclashed (lift m)
lift-Unclashed (ok a) h = cc
lift-Unclashed (fail e) h = cc

refuse_if-Unclashed : (b : Bool) (e : HttpError) → Unclashed (refuse_if b e)
refuse_if-Unclashed true e h = cc
refuse_if-Unclashed false e h = cc

or_refuse-Unclashed : {A : Type 0} (o : Option A) (e : HttpError) → Unclashed (or_refuse o e)
or_refuse-Unclashed none e h = cc
or_refuse-Unclashed (some a) e h = cc

or_throw-Unclashed : {A : Type 0} (o : Option A) → Unclashed (or_throw o other_error)
or_throw-Unclashed none h = cc
or_throw-Unclashed (some a) h = cc

revise-Unclashed : {R : Type 0} (ids : List String) (t : Tables R) → Unclashed (revise ids t)
unfolding revise
revise-Unclashed [] t = done-Unclashed ([], t)
revise-Unclashed (id ∷ ids) t =
    >>=-Unclashed (or_throw (find (λ x. x.id === id) t.editions) other_error) _
      (or_throw-Unclashed (find (λ x. x.id === id) t.editions))
      (λ e p.
        >>=-Unclashed (revise ids (record t { editions = bump id t.editions })) _
          (revise-Unclashed ids (record t { editions = bump id t.editions }))
          (λ x q. done-Unclashed _))

module _ {R S : Type 0} (s : Services R S) (q : Request) where
  -- The handler of the action breaks no unique key, and it responds in the edition of the request.
  pub record AnswersHere : Type 0 where
    pub own_rows :
        (c : ActionContext) (t : Tables R) → Unclashed (s.handle q.action c q.payload q.audit t)
    pub own_edition :
        (c : ActionContext) (t t' : Tables R) (m : Mutation)
        → s.handle q.action c q.payload q.audit t ≡ done (m, t')
        → or_text m.response_edition c.edition.id ≡ c.edition.id

  read_by :
      (u : User) (a : String) (o : Option (Envelope S))
      → Unclashed (if a === u.id then or_refuse o internal else thrown (refused forbidden))
  read_by u a o = elim (Bool-cases (a === u.id)) [
    | inl e ↦ rw e (or_refuse-Unclashed o internal)
    | inr e ↦ rw e (refused-Unclashed forbidden)
  ]

  receipt_envelope-Unclashed :
      (o : Option (StoredResponse S)) (u : User) → Unclashed (receipt_envelope o u)
  unfolding receipt_envelope
  receipt_envelope-Unclashed none u = refused-Unclashed internal
  receipt_envelope-Unclashed (some x) u = elim (Option-cases x.actor) [
    | inr (a, e) ↦ rw e (read_by u a x.envelope)
    | inl e ↦ elim (Bool-cases u.is_super_admin) [
      | inl f ↦ rw (e, f) (or_refuse-Unclashed x.envelope internal)
      | inr f ↦ rw (e, f) (refused-Unclashed forbidden)
    ]
  ]

  answer_again-Unclashed : (r : Receipt S) → Unclashed (answer_again q r)
  unfolding answer_again
  answer_again-Unclashed r =
      >>=-Unclashed (receipt_envelope r.response q.user) _
        (receipt_envelope-Unclashed r.response q.user) (λ e a. done-Unclashed _)

  replay-Unclashed : (db : Database R S) (r : Receipt S) → Unclashed (replay s q db r)
  unfolding replay scope_in authorize_in
  replay-Unclashed db r =
      >>=-Unclashed (refuse_if (not (r.hash === q.hash)) conflict) _
        (refuse_if-Unclashed (not (r.hash === q.hash)) conflict)
        (λ u a.
          >>=-Unclashed (lift (edition_or_error (resolve_edition db.tables r.edition))) _
            (lift-Unclashed _)
            (λ e b. >>=-Unclashed (scope_in s q db.tables e) _ (lift-Unclashed _) (λ sc c.
              >>=-Unclashed (authorize_in s q db.tables e sc) _ (lift-Unclashed _)
                (λ v d. answer_again-Unclashed r))))

  repeat-Unclashed : (db : Database R S) (r : Receipt S) → Unclashed (repeat s q db r)
  unfolding repeat
  repeat-Unclashed db r =
      >>=-Unclashed (refuse_if (not (r.hash === q.hash)) conflict) _
        (refuse_if-Unclashed (not (r.hash === q.hash)) conflict)
        (λ u a.
          >>=-Unclashed (answer_again q r) _ (answer_again-Unclashed r) (λ x b. done-Unclashed _))

  -- A key that the edition has no receipt of can be written.
  create_receipt-Unclashed :
      (r : Receipt S) (rs : List (Receipt S))
      → edition_receipt r.edition r.key rs ≡ none
      → Unclashed (create_receipt r rs)
  unfolding create_receipt
  create_receipt-Unclashed r rs free = rw (free, create_receipt) (done-Unclashed _)

  record_mutation-Unclashed :
      (db : Database R S) (edition : Edition) (m : Mutation) (t : Tables R)
      → or_text m.response_edition edition.id ≡ edition.id
      → edition_receipt edition.id q.key db.receipts ≡ none
      → Unclashed (record_mutation s q db edition (m, t))
  unfolding record_mutation scope_in new_receipt
  record_mutation-Unclashed db edition m t here free =
      let response = or_text m.response_edition edition.id in
      let ids = sort s.text_leb (unique (m.affected ++ response ∷ [])) in
      let free_there : edition_receipt response q.key db.receipts ≡ none =
        ap (λ x. edition_receipt x q.key db.receipts) here ∙ free in
      >>=-Unclashed (revise ids t) _ (revise-Unclashed ids t) (λ e a.
        >>=-Unclashed (lift (edition_or_error (resolve_edition e.1 response))) _ (lift-Unclashed _)
          (λ revised b. >>=-Unclashed (scope_in s q e.1 revised) _ (lift-Unclashed _) (λ scope c.
            let envelope : Envelope S = record {
              snapshot = s.snapshot e.1 revised scope q.device;
              revision = revised.revision;
            } in
            let new = new_receipt s q revised envelope response in
            >>=-Unclashed (create_receipt new db.receipts) _
              (create_receipt-Unclashed new db.receipts free_there) (λ x d. done-Unclashed _))))

  module _ (own : AnswersHere) where
    mutate-Unclashed :
        (db : Database R S) (edition : Edition) (scope : Scope) (name : String)
        → edition_receipt edition.id q.key db.receipts ≡ none
        → Unclashed (mutate s q db edition scope name)
    unfolding mutate
    mutate-Unclashed db edition scope name free =
        >>=-Unclashed (s.handle q.action _ q.payload q.audit db.tables) _ (own.own_rows _ db.tables)
          (λ x a.
            >>=-Unclashed (refuse_if (out_of_scope scope x.0) forbidden) _
              (refuse_if-Unclashed _ forbidden)
              (λ u b.
                record_mutation-Unclashed db edition x.0 x.1 (own.own_edition _ db.tables x.1 x.0 a)
                  free))

    run_once-Unclashed :
        (db : Database R S) (edition : Edition) (scope : Scope) (name : String)
        → Unclashed (run_once s q db edition scope name)
    unfolding run_once
    run_once-Unclashed db edition scope name =
        elim (Option-cases (edition_receipt edition.id q.key db.receipts)) [
          | inr (r, e) ↦ rw (e, run_once) (repeat-Unclashed db r)
          | inl e ↦ rw (e, run_once) (mutate-Unclashed db edition scope name e)
        ]

    first_time-Unclashed : (db : Database R S) → Unclashed (first_time s q db)
    unfolding first_time scope_in authorize_in
    first_time-Unclashed db =
        >>=-Unclashed
          (lift (resolve_edition_for_action s.id_leb db.tables q.route (is_global q.action))) _
          (lift-Unclashed _)
          (λ edition a.
            >>=-Unclashed (scope_in s q db.tables edition) _ (lift-Unclashed _) (λ scope b.
              >>=-Unclashed (or_refuse (find (λ m. m.id === q.user.id) db.tables.staff) not_found) _
                (or_refuse-Unclashed _ not_found)
                (λ actor c.
                  >>=-Unclashed (authorize_in s q db.tables edition scope) _ (lift-Unclashed _)
                    (λ u d. run_once-Unclashed db edition scope actor.name))))

    -- Where the handler of the action breaks no unique key itself and responds in the edition of the
    -- request, the transaction of the request ends in no violation of one, whatever receipts there are.
    pub transact-Unclashed : (db : Database R S) → Unclashed (transact s q db)
    unfolding transact
    transact-Unclashed db = elim (Option-cases (route_receipt q.route q.key db.receipts)) [
      | inr (r, e) ↦
          rw (e, transact)
            (>>=-Unclashed (replay s q db r) _ (replay-Unclashed db r) (λ x a. done-Unclashed _))
      | inl e ↦ rw (e, transact) (first_time-Unclashed db)
    ]
