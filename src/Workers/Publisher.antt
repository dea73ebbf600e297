-- ===== src/Workers/Publisher.antt =====
-- internal/worker/workers.go: `OutboxPublisher.publish`, one pass over the claimed events.
pub mod Delivery
use apostas_api.Prelude.{ℕ, suc, Bool, true, false, List, [], ◌∷◌, if◌then◌else◌}
use apostas_api.Prelude.Int.{pos}
use apostas_api.Values.{Time}
use apostas_api.Database.{Database}
use apostas_api.Queue.{retry_delay}
use apostas_api.Store.Outbox.{OutboxEvent, claim_outbox, mark_published, retry_outbox}

-- What happens around the pass: which sends the queue accepts, after which of these the hook
-- `afterPublish` stops the publisher, and the database's now() when the event's row is written. In
-- service there is no hook.
pub record Sending : Type 0 where
  pub accepts : OutboxEvent → Bool
  pub stops : OutboxEvent → Bool
  pub clock : OutboxEvent → Time

-- One event; the flag says whether the pass goes on.
unfoldable pub publish_event : Sending → OutboxEvent → Database → Bool × Database
publish_event s e db =
    if s.accepts e
    then (if s.stops e then (false, db) else (true, mark_published e.id (s.clock e) db))
    else (true, retry_outbox e.id (retry_delay (pos (suc e.attempts))) (s.clock e) db)

abbrev pub go_on : Bool × Database → (Database → Database) → Database
go_on (true, db) rest = rest db
go_on (false, db) rest = db

-- `for _, event := range events { … }`
unfoldable pub publish_events : Sending → List OutboxEvent → Database → Database
publish_events s [] db = db
publish_events s (e ∷ es) db = go_on (publish_event s e db) (λ db'. publish_events s es db')

-- `publish`, with the time of the claim
unfoldable pub publish : Sending → Time → Database → Database
publish s now db = let (events, held) = claim_outbox 20 now db in publish_events s events held
