-- ===== src/Store/Outbox/Held.antt =====
-- internal/infra/postgres/store.go: how long an event that was claimed is held.
use apostas_api.Prelude.{
  ℕ, suc, ◌+◌, ◌≤◌, ◌≡◌, Bool, Option, true, false, ◌&&◌, leb, none, some, List, [], ◌∷◌, arith,
  refl, sym, ◌∙◌, if◌then◌else◌, Bool-cases, inl, inr,
}
use apostas_api.Prelude.Eq.{◌==◌, nat_eq, eqb_iff}
use apostas_api.Values.{Uuid, Time}
use apostas_api.Events.{Event}
use apostas_api.Database.{OutboxRow, Database, exists, update}
use apostas_api.Store.Rows.{Fresh, add_event}
use apostas_api.Store.Outbox.{
  is_null, passed, is_ready, is_event, claimable, claim_time, is_claimed, claim_outbox,
  is_unpublished, mark_published, retry_outbox,
}
use apostas_api.Store.Outbox.Claims.{has_event, ready, has_event-map, claimable-ready}

-- What services do to the outbox while no publisher retries the event: claims at any time, marks of
-- any event, retries of other events, events with other identifiers, and calls that leave it.
pub data OutboxStep (id : Uuid) (db : Database) : Database → Type 0 where
  claims : (limit : ℕ) (at : Time) → OutboxStep id db (claim_outbox limit at db).1
  marks : (j : Uuid) (at : Time) → OutboxStep id db (mark_published j at db)
  retries :
      (j : Uuid) (delay : ℕ) (at : Time)
      → (j == id) ≡ false
      → OutboxStep id db (retry_outbox j delay at db)
  adds :
      (fresh : Fresh) (event : Event)
      → (event.id == id) ≡ false
      → OutboxStep id db (add_event fresh event db)
  leaves : {db' : Database} → db'.outbox ≡ db.outbox → OutboxStep id db db'

pub data OutboxSteps (id : Uuid) (db : Database) : Database → Type 0 where
  no_step : OutboxSteps id db db
  and_step :
      {db' db'' : Database}
      → OutboxSteps id db db'
      → OutboxStep id db' db''
      → OutboxSteps id db db''

-- A row that another claim could take at the time or before.
abbrev free : Uuid → Time → OutboxRow → Bool
free id until o = is_event id o && (is_null o.published_at && passed o.claimed_until until)

abbrev Held : Uuid → Time → List OutboxRow → Type 0
Held id until rows = exists (free id until) rows ≡ false

passed_later :
    (c : Option Time) (now until : Time) → now ≤ until → passed c now ≡ true → passed c until ≡ true
passed_later none now until early h = refl
passed_later (some t) now until early h = ground arith

module _ (id : Uuid) (until : Time) where
  Held-update :
      (p : OutboxRow → Bool) (f : OutboxRow → OutboxRow)
      → ((o : OutboxRow) → free id until o ≡ false → free id until (if p o then f o else o) ≡ false)
      → (rows : List OutboxRow) → Held id until rows
      → Held id until (update p f rows)
  unfolding exists update
  Held-update p f row [] h = refl
  Held-update p f row (o ∷ rows) h = ground (arith, row o, Held-update p f row rows)

  all-Held :
      (p : OutboxRow → Bool) (f : OutboxRow → OutboxRow)
      → ((o : OutboxRow) → free id until (if p o then f o else o) ≡ false)
      → (rows : List OutboxRow) → Held id until (update p f rows)
  unfolding exists update
  all-Held p f row [] = refl
  all-Held p f row (o ∷ rows) = ground (arith, row o, all-Held p f row rows)

  not_ready :
      (now : Time) (o : OutboxRow)
      → now ≤ until
      → free id until o ≡ false
      → (is_ready now o && is_event id o) ≡ false
  not_ready now o early h = ground (arith, passed_later o.claimed_until now until early)

  -- What is held is not ready.
  Held-ready :
      (now : Time) (rows : List OutboxRow)
      → now ≤ until
      → Held id until rows
      → exists (λ (o : OutboxRow). is_ready now o && is_event id o) rows ≡ false
  unfolding exists
  Held-ready now [] early h = refl
  Held-ready now (o ∷ rows) early h = elim (Bool-cases (free id until o)) [
    | inl open_to ↦ absurd (cc (rw open_to at h))
    | inr shut ↦ rw (not_ready now o early shut) (Held-ready now rows early (rw shut at h))
  ]

  unclaimed :
      (limit : ℕ) (now : Time) (db : Database)
      → now ≤ until
      → Held id until db.outbox
      → exists (is_event id) (claimable limit now db.outbox) ≡ false
  unclaimed limit now db early h =
      elim (Bool-cases (exists (is_event id) (claimable limit now db.outbox))) [
        | inl again ↦
            absurd (cc (Held-ready now db.outbox early h, claimable-ready id limit now db again))
        | inr none_of_it ↦ none_of_it
      ]

  kept :
      (claimed : List OutboxRow) (at : Time) (o : OutboxRow)
      → exists (is_event id) claimed ≡ false
      → free id until o ≡ false
      → free id until
          (if is_claimed claimed o then record o { claimed_until = some (at + claim_time) } else o)
        ≡ false
  kept claimed at o apart is = elim (Bool-cases (is_event id o)) [
    | inl own ↦
        let not_mine : is_claimed claimed o ≡ false = rw ((eqb_iff o.event.id id).0 own) apart in
        rw not_mine is
    | inr other ↦ ground arith
  ]

  -- A claim does not free what is held: before the end it does not take it, and after the end it
  -- holds it longer.
  claim_outbox-Held :
      (limit : ℕ) (at : Time) (db : Database)
      → Held id until db.outbox
      → Held id until (claim_outbox limit at db).1.outbox
  unfolding claim_outbox
  claim_outbox-Held limit at db h =
      let claimed = claimable limit at db.outbox in
      elim (Bool-cases (leb at until)) [
        | inl early ↦
            let apart : exists (is_event id) claimed ≡ false =
              unclaimed limit at db (ground (arith, early)) h in
            Held-update (is_claimed claimed) _ (λ o is. kept claimed at o apart is) db.outbox h
        | inr late ↦
            Held-update (is_claimed claimed) _ (λ o is. ground (arith, late, is)) db.outbox h
      ]

  other_retried :
      (j : Uuid) (delay : ℕ) (at : Time) (o : OutboxRow)
      → (j == id) ≡ false
      → free id until o ≡ false
      → free id until (
          if is_unpublished j o
          then record o {
            attempts = suc o.attempts;
            next_attempt_at = at + delay;
            claimed_until = none;
          }
          else o)
        ≡ false
  other_retried j delay at o apart is = ground arith

  add_event-Held :
      (fresh : Fresh) (event : Event) (db : Database)
      → (event.id == id) ≡ false
      → Held id until db.outbox
      → Held id until (add_event fresh event db).outbox
  unfolding add_event exists
  add_event-Held fresh event db apart h = rw apart h

  step-Held :
      {db db' : Database}
      → OutboxStep id db db'
      → Held id until db.outbox
      → Held id until db'.outbox
  unfolding mark_published retry_outbox
  step-Held {db} (claims limit at) h = claim_outbox-Held limit at db h
  step-Held {db} (marks j at) h =
      Held-update (is_unpublished j) _ (λ o is. ground (arith, is)) db.outbox h
  step-Held {db} (retries j delay at apart) h =
      Held-update (is_unpublished j) _ (λ o is. other_retried j delay at o apart is) db.outbox h
  step-Held {db} (adds fresh event apart) h = add_event-Held fresh event db apart h
  step-Held {db} (leaves same) h = rw same h

  steps-Held :
      {db db' : Database}
      → OutboxSteps id db db'
      → Held id until db.outbox
      → Held id until db'.outbox
  steps-Held no_step h = h
  steps-Held (and_step before one) h = step-Held one (steps-Held before h)

held_row :
    (id : Uuid) (now : Time) (claimed : List OutboxRow)
    → exists (is_event id) claimed ≡ true
    → (o : OutboxRow)
    → free id
        (now + claim_time)
        (if is_claimed claimed o then record o { claimed_until = some (now + claim_time) } else o)
      ≡ false
held_row id now claimed held o = elim (Bool-cases (is_event id o)) [
  | inl own ↦
      let mine : is_claimed claimed o ≡ true = rw ((eqb_iff o.event.id id).0 own) held in
      rw mine (ground arith)
  | inr other ↦ ground arith
]

handed_out :
    (id : Uuid) (limit : ℕ) (now : Time) (db : Database)
    → has_event id (claim_outbox limit now db).0 ≡ true
    → exists (is_event id) (claimable limit now db.outbox) ≡ true
unfolding claim_outbox
handed_out id limit now db h = sym (has_event-map id (claimable limit now db.outbox)) ∙ h

nothing_out :
    (id : Uuid) (limit : ℕ) (now : Time) (db : Database)
    → exists (is_event id) (claimable limit now db.outbox) ≡ false
    → has_event id (claim_outbox limit now db).0 ≡ false
unfolding claim_outbox
nothing_out id limit now db h = has_event-map id (claimable limit now db.outbox) ∙ h

-- The rows right after the claim.
claimed_rows :
    (id : Uuid) (limit : ℕ) (now : Time) (db : Database)
    → exists (is_event id) (claimable limit now db.outbox) ≡ true
    → Held id (now + claim_time) (claim_outbox limit now db).1.outbox
unfolding claim_outbox
claimed_rows id limit now db held =
    let claimed = claimable limit now db.outbox in
    all-Held id (now + claim_time) (is_claimed claimed) _ (λ o. held_row id now claimed held o)
      db.outbox

-- An event that `ClaimOutbox` hands out was unpublished, due and free. And until 30 seconds after, no
-- claim, whatever its limit, hands it out again: not right after, and not after any number of other
-- claims, of events marked as published, of retries of other events, of new events and of calls that
-- leave the outbox. Only a retry of this event frees it sooner.
pub claim_outbox-exclusive :
    (id : Uuid) (limit limit' : ℕ) (now now' : Time) (db : Database) {db' : Database}
    → has_event id (claim_outbox limit now db).0 ≡ true
    → OutboxSteps id (claim_outbox limit now db).1 db'
    → now' ≤ now + claim_time
    → (ready id now db ≡ true) × (has_event id (claim_outbox limit' now' db').0 ≡ false)
claim_outbox-exclusive id limit limit' now now' db {db'} h steps lasts =
    let held = handed_out id limit now db h in
    (
      claimable-ready id limit now db held,
      nothing_out id limit' now' db' (
          unclaimed id (now + claim_time) limit' now' db' lasts
            (steps-Held id (now + claim_time) steps (claimed_rows id limit now db held))),
    )
