-- ===== src/Dispatch/Served.antt =====
-- The receipts through any sequence of requests.
use mathlib.Core.List.{append_assoc, append-nil}
use intereng_api.Base.{
  ◌≡◌, ◌≢◌, sym, ap, ◌∙◌, arith, some, List, [], ◌∷◌, ◌++◌, inl, inr, Option-cases,
}
use intereng_api.Database.{Tables}
use intereng_api.Outcome.{done, thrown, refused}
use intereng_api.Http.{conflict}
use intereng_api.Receipts.{ExecutionResult, Receipt, Database, RevisionEvent, Request, Services}
use intereng_api.Dispatch.{route_receipt, new_receipt, or_text, transact}
use intereng_api.Dispatch.Steps.{first_time-Admitted}
use intereng_api.Dispatch.Replay.{StillAllowed, transact-old, transact-replay, transact-conflict}

module _ {R S : Type 0} (s : Services R S) where
  -- The databases that requests lead to, of any users and in any order, while other parts of the program
  -- change the tables.
  pub data Served (db : Database R S) : Database R S → Type 0 where
    at_once : Served db db
    request :
        (db1 db2 : Database R S) (q : Request) (result : ExecutionResult S)
        (events : List RevisionEvent)
        → Served db db1
        → transact s q db1 ≡ done (result, events, db2)
        → Served db db2
    elsewhere :
        (db1 : Database R S) (t : Tables R) → Served db db1 → Served db (record db1 { tables = t })

  -- A transaction adds receipts after those that are there.
  abbrev Grows : Database R S → Database R S → Type 0
  Grows db db1 = (more : List (Receipt S)) × (db1.receipts ≡ db.receipts ++ more)

  unchanged-Grows : (db db1 : Database R S) → db1 ≡ db → Grows db db1
  unchanged-Grows db db1 e = ([], ap (λ x. x.receipts) e ∙ sym (append-nil db.receipts))

  transact-Grows :
      (q : Request) (db db1 : Database R S) (result : ExecutionResult S)
      (events : List RevisionEvent)
      → transact s q db ≡ done (result, events, db1)
      → Grows db db1
  unfolding transact
  transact-Grows q db db1 result events h =
      elim (Option-cases (route_receipt q.route q.key db.receipts)) [
        | inr (old, e) ↦
            let same = transact-old s q db db1 result events old e h in
            unchanged-Grows db db1 same.2
        | inl e ↦
            let ad = first_time-Admitted s q db result events db1 (ground arith) in
            elim ad.ending [
              | inl (x, rep) ↦ unchanged-Grows db db1 rep.nothing_stored
              | inr mu ↦
                  let rec = mu.recorded in
                  let new =
                    new_receipt s q rec.revised result.envelope
                      (or_text mu.mutation.response_edition ad.edition.id) in
                  (new ∷ [], rec.receipts)
            ]
      ]

  Served-appends : (db db1 : Database R S) → Served db db1 → Grows db db1
  Served-appends db _ at_once = ([], sym (append-nil db.receipts))
  Served-appends db _ (request db1 db2 q result events p h) =
      let (more, e) = Served-appends db db1 p in
      let (added, g) = transact-Grows q db1 db2 result events h in
      (more ++ added, g ∙ ap (λ x. x ++ added) e ∙ append_assoc db.receipts more added)
  Served-appends db _ (elsewhere db1 t p) = Served-appends db db1 p

  module _ (q : Request) (db db1 db2 : Database R S) (result : ExecutionResult S)
      (events : List RevisionEvent) (r : Receipt S) where
    -- A request that was done, and of whose key its route has a receipt, is answered with the same envelope
    -- and status whenever it is sent again, whatever requests were served and tables changed in between,
    -- where its user still has access; then it changes and publishes nothing.
    pub Served-replay :
        transact s q db ≡ done (result, events, db1)
        → route_receipt q.route q.key db1.receipts ≡ some r
        → Served db1 db2
        → StillAllowed s q db2 r.edition
        → transact s q db2 ≡ done (result, [], db2)
    Served-replay h k p w =
        let (more, e) = Served-appends db1 db2 p in
        transact-replay s q db db1 result events r db2 more h k e w

    -- After a request that was done, and of whose key its route has a receipt, another request of the route
    -- with that key and another hash is refused as a conflict, whoever sends it and whatever happened in
    -- between.
    pub Served-conflict :
        (other : Request)
        → transact s q db ≡ done (result, events, db1)
        → route_receipt q.route q.key db1.receipts ≡ some r
        → Served db1 db2
        → other.route ≡ q.route
        → other.key ≡ q.key
        → other.hash ≢ q.hash
        → transact s other db2 ≡ thrown (refused conflict)
    Served-conflict other h k p a b c =
        let (more, e) = Served-appends db1 db2 p in
        transact-conflict s q db db1 result events r db2 more other h k e a b c
