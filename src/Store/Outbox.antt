-- ===== src/Store/Outbox.antt =====
-- internal/infra/postgres/store.go: `ClaimOutbox`, `MarkOutboxPublished` and `RetryOutbox`.
pub mod Claims
pub mod Held
use apostas_api.Prelude.{
  ℕ, suc, ◌+◌, ◌*◌, Bool, true, false, ◌&&◌, ◌||◌, Option, none, some, List, [], ◌∷◌, map, leb, ltb,
  if◌then◌else◌,
}
use apostas_api.Prelude.Eq.{◌==◌, nat_eq}
use apostas_api.Values.{Uuid, Time}
use apostas_api.Events.{Event, Payload}
use apostas_api.Database.{OutboxRow, Database, exists, update}
use apostas_api.Database.Query.{select, sort_by, take}
use apostas_api.Store.Calls.{second}

-- What a claim hands out: the event with its identifiers, as `postgres.OutboxEvent` holds them.
pub record OutboxEvent : Type 0 where
  pub id : Uuid
  pub aggregate_id : Uuid
  pub payload : Event
  pub attempts : ℕ
  pub occurred_at : Time

abbrev pub is_null {ℓ} : {A : Type ℓ} → Option A → Bool
is_null none = true
is_null (some _) = false

abbrev pub passed : Option Time → Time → Bool
passed none now = true
passed (some t) now = ltb t now

-- `published_at IS NULL AND next_attempt_at <= now() AND (claimed_until IS NULL OR claimed_until < now())`
abbrev pub is_ready : Time → OutboxRow → Bool
is_ready now o = is_null o.published_at && leb o.next_attempt_at now && passed o.claimed_until now

abbrev pub is_event : Uuid → OutboxRow → Bool
is_event id o = o.event.id == id

-- `ORDER BY occurred_at`
abbrev pub is_older : OutboxRow → OutboxRow → Bool
is_older o p = leb o.occurred_at p.occurred_at

-- The rows of the query `claimed`.
unfoldable pub claimable : ℕ → Time → List OutboxRow → List OutboxRow
claimable limit now rows = take (sort_by is_older (select (is_ready now) rows)) limit

-- `interval '30 seconds'`
abbrev pub claim_time : ℕ
claim_time = 30 * second

abbrev pub event_of : OutboxRow → OutboxEvent
event_of o = record {
  id = o.event.id;
  aggregate_id = o.event.aggregate_id;
  payload = o.event;
  attempts = o.attempts;
  occurred_at = o.occurred_at;
}

abbrev pub is_claimed : List OutboxRow → OutboxRow → Bool
is_claimed claimed o = exists (is_event o.event.id) claimed

-- `ClaimOutbox`: the events, and the database in which they are held for 30 seconds.
unfoldable pub claim_outbox : ℕ → Time → Database → List OutboxEvent × Database
claim_outbox limit now db = (
  map event_of (claimable limit now db.outbox),
  record db {
    outbox =
        update (is_claimed (claimable limit now db.outbox))
          (λ (o : OutboxRow). record o { claimed_until = some (now + claim_time) }) db.outbox;
  },
)

-- `WHERE id=$1 AND published_at IS NULL`
abbrev pub is_unpublished : Uuid → OutboxRow → Bool
is_unpublished id o = is_event id o && is_null o.published_at

unfoldable pub mark_published : Uuid → Time → Database → Database
mark_published id now db = record db {
  outbox =
      update (is_unpublished id)
        (λ (o : OutboxRow). record o { published_at = some now; claimed_until = none }) db.outbox;
}

unfoldable pub retry_outbox : Uuid → ℕ → Time → Database → Database
retry_outbox id delay now db = record db {
  outbox =
      update (is_unpublished id)
        (λ (o : OutboxRow). record o {
          attempts = suc o.attempts;
          next_attempt_at = now + delay;
          claimed_until = none;
        })
        db.outbox;
}
