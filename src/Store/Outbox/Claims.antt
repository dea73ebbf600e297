-- ===== src/Store/Outbox/Claims.antt =====
-- internal/infra/postgres/store.go: which events are claimed, published and known.
use apostas_api.Prelude.{
  ℕ, ◌≡◌, Bool, true, not, ◌&&◌, ◌||◌, none, some, List, [], ◌∷◌, map, arith, refl, sym, ◌∙◌, ap,
}
use apostas_api.Prelude.Eq.{◌==◌, nat_eq}
use apostas_api.Values.{Uuid, Time}
use apostas_api.Database.{OutboxRow, Database, exists, update}
use apostas_api.Database.Query.{select, sort_by, exists-take, exists-sort_by, exists-select}
use apostas_api.Store.Outbox.{
  OutboxEvent, is_null, is_ready, is_event, is_older, claimable, event_of, is_claimed, claim_outbox,
  is_unpublished, mark_published, retry_outbox,
}

-- An event of the list has the identifier.
abbrev pub has_event : Uuid → List OutboxEvent → Bool
has_event id es = exists (λ (e : OutboxEvent). e.id == id) es

abbrev pub known : Uuid → Database → Bool
known id db = exists (is_event id) db.outbox

abbrev pub is_published : Uuid → OutboxRow → Bool
is_published id o = is_event id o && not (is_null o.published_at)

abbrev pub published : Uuid → Database → Bool
published id db = exists (is_published id) db.outbox

-- The event waits in the outbox and may be claimed at the time.
abbrev pub ready : Uuid → Time → Database → Bool
ready id now db = exists (λ (o : OutboxRow). is_ready now o && is_event id o) db.outbox

pub has_event-map :
    (id : Uuid) (rows : List OutboxRow)
    → has_event id (map event_of rows) ≡ exists (is_event id) rows
unfolding exists
has_event-map id [] = refl
has_event-map id (o ∷ rows) = ap (λ (b : Bool). is_event id o || b) (has_event-map id rows)

pub claimable-ready :
    (id : Uuid) (limit : ℕ) (now : Time) (db : Database)
    → exists (is_event id) (claimable limit now db.outbox) ≡ true
    → ready id now db ≡ true
unfolding claimable
claimable-ready id limit now db h =
    sym (exists-select (is_event id) (is_ready now) db.outbox)
    ∙ sym (exists-sort_by (is_event id) is_older (select (is_ready now) db.outbox))
    ∙ exists-take (is_event id) (sort_by is_older (select (is_ready now) db.outbox)) limit h

ready-known :
    (id : Uuid) (now : Time) (rows : List OutboxRow)
    → exists (λ (o : OutboxRow). is_ready now o && is_event id o) rows ≡ true
    → exists (is_event id) rows ≡ true
unfolding exists
ready-known id now [] h = cc
ready-known id now (o ∷ rows) h = ground (arith, ready-known id now rows)

-- The events of the outbox stay, whatever is written to their rows.
module _ (id : Uuid) (p : OutboxRow → Bool) (f : OutboxRow → OutboxRow)
    (keep : (o : OutboxRow) → (f o).event ≡ o.event) where
  known-update :
      (rows : List OutboxRow) → exists (is_event id) (update p f rows) ≡ exists (is_event id) rows
  unfolding exists update
  known-update [] = refl
  known-update (o ∷ rows) = ground (arith, keep o, known-update rows)

  -- A write that leaves the time of publication.
  published-update :
      ((o : OutboxRow) → (f o).published_at ≡ o.published_at)
      → (rows : List OutboxRow)
      → exists (is_published id) (update p f rows) ≡ exists (is_published id) rows
  unfolding exists update
  published-update same [] = refl
  published-update same (o ∷ rows) = ground (arith, keep o, same o, published-update same rows)

pub known-mark_published :
    (id j : Uuid) (t : Time) (db : Database) → known id (mark_published j t db) ≡ known id db
unfolding mark_published
known-mark_published id j t db = known-update id (is_unpublished j) _ (λ o. refl) db.outbox

pub known-retry_outbox :
    (id j : Uuid) (d : ℕ) (t : Time) (db : Database)
    → known id (retry_outbox j d t db) ≡ known id db
unfolding retry_outbox
known-retry_outbox id j d t db = known-update id (is_unpublished j) _ (λ o. refl) db.outbox

pub published-retry_outbox :
    (id j : Uuid) (d : ℕ) (t : Time) (db : Database)
    → published id (retry_outbox j d t db) ≡ published id db
unfolding retry_outbox
published-retry_outbox id j d t db =
    published-update id (is_unpublished j) _ (λ o. refl) (λ o. refl) db.outbox

pub published-claim_outbox :
    (id : Uuid) (limit : ℕ) (now : Time) (db : Database)
    → published id (claim_outbox limit now db).1 ≡ published id db
unfolding claim_outbox
published-claim_outbox id limit now db =
    published-update id (is_claimed (claimable limit now db.outbox)) _ (λ o. refl) (λ o. refl)
      db.outbox

pub known-claim_outbox :
    (id : Uuid) (limit : ℕ) (now : Time) (db : Database)
    → known id (claim_outbox limit now db).1 ≡ known id db
unfolding claim_outbox
known-claim_outbox id limit now db =
    known-update id (is_claimed (claimable limit now db.outbox)) _ (λ o. refl) db.outbox

marked_rows :
    (id j : Uuid) (t : Time) (rows : List OutboxRow)
    → exists (is_published id) (
        update
          (is_unpublished j)
          (λ (o : OutboxRow). record o { published_at = some t; claimed_until = none })
          rows)
      ≡ (exists (is_published id) rows || j == id && exists (is_event id) rows)
unfolding exists update
marked_rows id j t [] = ground arith
marked_rows id j t (o ∷ rows) = ground (arith, marked_rows id j t rows)

pub published-mark_published :
    (id j : Uuid) (t : Time) (db : Database)
    → published id (mark_published j t db) ≡ (published id db || j == id && known id db)
unfolding mark_published
published-mark_published id j t db = marked_rows id j t db.outbox

-- What is claimed is known.
pub claimed_known :
    (id : Uuid) (limit : ℕ) (now : Time) (db : Database)
    → has_event id (claim_outbox limit now db).0 ≡ true
    → known id db ≡ true
unfolding claim_outbox
claimed_known id limit now db h =
    ready-known id now db.outbox
      (claimable-ready id limit now db (sym (has_event-map id (claimable limit now db.outbox)) ∙ h))
