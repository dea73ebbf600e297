-- ===== src/Workers/Publisher/Delivery.antt =====
-- internal/worker/workers.go: which events are published after a pass of `OutboxPublisher.publish`.
use apostas_api.Prelude.{
  suc, ◌≡◌, Bool, true, false, not, ◌&&◌, ◌||◌, List, [], ◌∷◌, arith, refl, ◌∙◌, Bool-cases, inl,
  inr,
}
use apostas_api.Prelude.Int.{pos}
use apostas_api.Prelude.Eq.{◌==◌, nat_eq}
use apostas_api.Values.{Uuid, Time}
use apostas_api.Database.{Database, exists}
use apostas_api.Queue.{retry_delay}
use apostas_api.Store.Outbox.{OutboxEvent, claim_outbox}
use apostas_api.Store.Outbox.Claims.{
  has_event, known, published, known-mark_published, known-retry_outbox, known-claim_outbox,
  published-retry_outbox, published-mark_published, published-claim_outbox, claimed_known,
}
use apostas_api.Workers.Publisher.{Sending, publish_event, go_on, publish_events, publish}

-- The queue took an event with the identifier.
abbrev pub accepted : Sending → Uuid → List OutboxEvent → Bool
accepted s id es = exists (λ (e : OutboxEvent). e.id == id && s.accepts e) es

accepted_claimed :
    (s : Sending) (id : Uuid) (es : List OutboxEvent)
    → accepted s id es ≡ true
    → has_event id es ≡ true
unfolding exists
accepted_claimed s id [] h = cc
accepted_claimed s id (e ∷ es) h = ground (arith, accepted_claimed s id es)

module _ (s : Sending) (id : Uuid) where
  publish_event-known :
      (e : OutboxEvent) (db : Database) → known id (publish_event s e db).1 ≡ known id db
  unfolding publish_event
  publish_event-known e db = ground (
    arith,
    known-mark_published id e.id (s.clock e) db,
    known-retry_outbox id e.id (retry_delay (pos (suc e.attempts))) (s.clock e) db,
  )

  publish_event-published :
      (e : OutboxEvent) (db : Database)
      → published id (publish_event s e db).1
        ≡ (published id db || (s.accepts e && not (s.stops e) && e.id == id) && known id db)
  unfolding publish_event
  publish_event-published e db = ground (
    arith,
    published-mark_published id e.id (s.clock e) db,
    published-retry_outbox id e.id (retry_delay (pos (suc e.attempts))) (s.clock e) db,
  )

  publish_event-goes_on :
      (e : OutboxEvent) (db : Database) → (publish_event s e db).0 ≡ not (s.accepts e && s.stops e)
  unfolding publish_event
  publish_event-goes_on e db = ground arith

  go_on-true :
      (r : Bool × Database) (rest : Database → Database) → r.0 ≡ true → go_on r rest ≡ rest r.1
  go_on-true (true, db) rest h = refl
  go_on-true (false, db) rest h = cc

  go_on-false :
      (r : Bool × Database) (rest : Database → Database) → r.0 ≡ false → go_on r rest ≡ r.1
  go_on-false (true, db) rest h = cc
  go_on-false (false, db) rest h = refl

  publish_events-published :
      ((e : OutboxEvent) → s.stops e ≡ false)
      → (es : List OutboxEvent) (db : Database)
      → published id (publish_events s es db) ≡ (published id db || accepted s id es && known id db)
  unfolding publish_events exists
  publish_events-published runs [] db = ground arith
  publish_events-published runs (e ∷ es) db =
      let next = publish_event s e db in
      let goes : next.0 ≡ true = publish_event-goes_on e db ∙ ground (arith, runs e) in
      go_on_published goes (publish_events-published runs es next.1)
    where
      go_on_published :
          (publish_event s e db).0 ≡ true
          → published id (publish_events s es (publish_event s e db).1) ≡ (
              published id (publish_event s e db).1
              || accepted s id es && known id (publish_event s e db).1)
          → published id (go_on (publish_event s e db) (λ db'. publish_events s es db'))
            ≡ (published id db || ((e.id == id && s.accepts e) || accepted s id es) && known id db)
      go_on_published goes ih =
          rw (go_on-true (publish_event s e db) (λ db'. publish_events s es db') goes, ih)
            (ground (arith, publish_event-published e db, publish_event-known e db, runs e))

  publish_events_safe :
      (es : List OutboxEvent) (db : Database)
      → published id (publish_events s es db) ≡ true
      → (published id db || accepted s id es) ≡ true
  unfolding publish_events exists
  publish_events_safe [] db h = ground arith
  publish_events_safe (e ∷ es) db h = elim (Bool-cases (publish_event s e db).0) [
    | inl goes ↦
        let h' : published id (publish_events s es (publish_event s e db).1) ≡ true =
          rw (go_on-true (publish_event s e db) (λ db'. publish_events s es db') goes) at h in
        ground
          (arith, publish_events_safe es (publish_event s e db).1 h', publish_event-published e db)
    | inr stops ↦
        let h' : published id (publish_event s e db).1 ≡ true =
          rw (go_on-false (publish_event s e db) (λ db'. publish_events s es db') stops) at h in
        ground (arith, publish_event-published e db)
  ]

-- Where no hook stops the publisher, one pass publishes exactly the events that were published before
-- and those that it claims and the queue accepts: none is lost, and none is marked that was not sent.
pub publish-published :
    (s : Sending) (id : Uuid) (now : Time) (db : Database)
    → ((e : OutboxEvent) → s.stops e ≡ false)
    → published id (publish s now db)
      ≡ (published id db || accepted s id (claim_outbox 20 now db).0)
unfolding publish
publish-published s id now db runs =
    let claim = claim_outbox 20 now db in
    publish_events-published s id runs claim.0 claim.1
    ∙ rw (published-claim_outbox id 20 now db, known-claim_outbox id 20 now db)
        (ground (arith, accepted_claimed s id claim.0, claimed_known id 20 now db))

-- Wherever the publisher is stopped in a pass, an event is published only if it was before or if the
-- pass claimed it and the queue accepted it.
pub publish_safe :
    (s : Sending) (id : Uuid) (now : Time) (db : Database)
    → published id (publish s now db) ≡ true
    → (published id db || accepted s id (claim_outbox 20 now db).0) ≡ true
unfolding publish
publish_safe s id now db h =
    let claim = claim_outbox 20 now db in
    rw⁻¹ (published-claim_outbox id 20 now db) (publish_events_safe s id claim.0 claim.1 h)
