-- ===== src/Dispatch/Revisions.antt =====
-- What a mutation leaves behind: revisions, receipts and the audit log.
use intereng_api.Base.Order.{All}
use intereng_api.Base.{
  map, ◌⊎◌, ℕ, ◌+◌, String, ◌≡◌, refl, ap, ◌∙◌, arith, true, none, some, List, [], ◌∷◌, ◌++◌,
  contains, occurrences, inl, inr, Option-cases, if◌then◌else◌,
}
use intereng_api.Base.Sort.{sort, occurrences-sort}
use intereng_api.Database.{Edition, Tables}
use intereng_api.Outcome.{done}
use intereng_api.Access.{Scope}
use intereng_api.Receipts.{
  ExecutionResult, Receipt, AuditEntry, Database, RevisionEvent, Request, ActionContext, Mutation,
  Services,
}
use intereng_api.Dispatch.{
  unique, or_text, edition_receipt, route_receipt, audit_entry, new_receipt, transact,
}
use intereng_api.Dispatch.Steps.{Mutated, first_time-Admitted}
use intereng_api.Dispatch.Replay.{transact-old}
use intereng_api.Dispatch.Revise.{
  revision_of, add_to, occurrences-unique, revision_of-revise, revise-Told, occurrences-once,
  contains-last,
}

module _ {R S : Type 0} (s : Services R S) (q : Request) where
  -- A handler leaves the revisions of the editions that are there.
  abbrev pub KeepsRevisions : Type 0
  KeepsRevisions =
      (c : ActionContext) (t t' : Tables R) (m : Mutation)
      → s.handle q.action c q.payload q.audit t ≡ done (m, t')
      → (j : String) (n : ℕ) → revision_of j t.editions ≡ some n
      → revision_of j t'.editions ≡ some n

  -- What a mutation leaves: one receipt and one entry of the log more, and the next revision of the
  -- editions that are published, each once, and of no other.
  pub record Left (db : Database R S) (result : ExecutionResult S) (events : List RevisionEvent)
      (db1 : Database R S) : Type 0 where
    pub receipt : Receipt S
    pub one_receipt : db1.receipts ≡ db.receipts ++ receipt ∷ []
    pub of_key : receipt.key ≡ q.key
    pub of_hash : receipt.hash ≡ q.hash
    pub fresh : edition_receipt receipt.edition q.key db.receipts ≡ none
    pub entry : AuditEntry
    pub one_entry : db1.audit ≡ db.audit ++ entry ∷ []
    pub by_user : entry.staff ≡ q.user.id
    pub bumped : contains (map (λ e. e.edition) events) receipt.edition ≡ true
    pub revisions :
        (j : String) (n : ℕ)
        → revision_of j db.tables.editions ≡ some n
        → revision_of j db1.tables.editions
          ≡ some (n + (if contains (map (λ e. e.edition) events) j then 1 else 0))
    pub exact : All (λ e. revision_of e.edition db1.tables.editions ≡ some e.revision) events

  mutation-Left :
      (keeps : KeepsRevisions) (db db1 : Database R S) (edition : Edition) (scope : Scope)
      (name : String) (result : ExecutionResult S) (events : List RevisionEvent)
      → Mutated s q db edition scope name result events db1
      → Left db result events db1
  mutation-Left keeps db db1 edition scope name result events mu =
      let rec = mu.recorded in
      let m = mu.mutation in
      let response = or_text m.response_edition edition.id in
      let affected = m.affected ++ response ∷ [] in
      let ids = sort s.text_leb (unique affected) in
      let once : (j : String) → occurrences j ids ≡ (if contains affected j then 1 else 0) =
        λ j. occurrences-sort s.text_leb j (unique affected) ∙ (occurrences-unique j affected).0 in
      let told =
        revise-Told ids mu.tables db1.tables events (λ j. ground (arith, once j)) rec.revisions in
      let inside : (j : String)
          → occurrences j ids ≡ (if contains (map (λ e. e.edition) events) j then 1 else 0) =
        λ j. rw told.in_order (occurrences-once j ids (ground (arith, once j))) in
      record {
        receipt = new_receipt s q rec.revised result.envelope response;
        one_receipt = rec.receipts;
        of_key = unfold new_receipt in refl;
        of_hash = unfold new_receipt in refl;
        fresh = unfold new_receipt in rec.new_key;
        entry = audit_entry s q m response;
        one_entry = rec.audit;
        by_user = unfold audit_entry in refl;
        bumped =
            unfold new_receipt in
            ground (arith, inside response, once response, contains-last response m.affected);
        revisions = λ j n h.
            revision_of-revise j ids mu.tables db1.tables events rec.revisions
            ∙ ap (add_to (occurrences j ids)) (keeps _ db.tables mu.tables m mu.handled j n h)
            ∙ ap (λ k. some (n + k)) (inside j);
        exact = told.exact;
      }

  -- Where the handler leaves the revisions, a request that is done either changes and publishes nothing, or
  -- it adds one receipt, of a key that its edition had none of, and one entry of the log, and adds one to
  -- the revisions of the editions that it publishes, the one of the receipt among them, and of no other.
  pub transact-Left :
      (keeps : KeepsRevisions) (db db1 : Database R S) (result : ExecutionResult S)
      (events : List RevisionEvent)
      → transact s q db ≡ done (result, events, db1)
      → ((events ≡ []) × (db1 ≡ db)) ⊎ Left db result events db1
  unfolding transact
  transact-Left keeps db db1 result events h =
      elim (Option-cases (route_receipt q.route q.key db.receipts)) [
        | inr (old, e) ↦
            let same = transact-old s q db db1 result events old e h in inl (same.1, same.2)
        | inl e ↦
            let ad = first_time-Admitted s q db result events db1 (ground arith) in
            elim ad.ending [
              | inl (x, rep) ↦ inl (rep.nothing_told, rep.nothing_stored)
              | inr mu ↦
                  inr
                    (mutation-Left keeps db db1 ad.edition ad.scope ad.actor.name result events mu)
            ]
      ]
