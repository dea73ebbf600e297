-- ===== src/System/Health.antt =====
-- The tables in every state that the service reaches.
use mathlib.Core.Path.{subst}
use apostas_api.Prelude.{
  ◌≡◌, Bool, true, false, Option, none, some, List, [], ◌∷◌, map, String, arith, refl,
}
use apostas_api.Prelude.Int64.{IsInt64}
use apostas_api.Prelude.Eq.{nat_eq}
use apostas_api.Result.{Result, ok, >>=-eq-ok}
use apostas_api.Values.{Uuid, Time}
use apostas_api.Money.{Currencies, Money}
use apostas_api.Wallet.{Wallet, new_wallet}
use apostas_api.Wager.{Operation}
use apostas_api.Database.{WalletRow, Database, find, exists, wallet_clashes}
use apostas_api.Database.Wallets.{has_id}
use apostas_api.Store.{Fresh, WagerResult, InboxMessage}
use apostas_api.Store.Ledger.{SoundDatabase}
use apostas_api.Store.Wallets.{open_wallet, create_wallet, insert_wallet, wallet_row}
use apostas_api.Store.Outbox.{OutboxEvent, claim_outbox, mark_published, retry_outbox}
use apostas_api.Store.Resolve.{resolve_pending}
use apostas_api.Store.Resolve.Books.{resolve_pending-Sound}
use apostas_api.Store.Writes.{elsewhere, Writes, nothing, Writes-trans, single_step}
use apostas_api.Store.Writes.Effects.{Tables, insert_wallet-Tables}
use apostas_api.Store.Writes.Keys.{Keyed, Writes-Keyed}
use apostas_api.Store.Writes.Books.{Filled, Writes-Filled, unused_sum}
use apostas_api.Store.Writes.Turns.{resolve_pending-Writes}
use apostas_api.Store.Writes.Services.{process-Writes, fail_operation-Writes, open_wallet-Writes}
use apostas_api.Requests.{Canonical, process, process-Sound, fail_operation, fail_operation-Sound}
use apostas_api.Http.{Web}
use apostas_api.Http.Routes.Writes.{Int64Web, serve_answer, opened-Sound, new_wallet-eq-ok}
use apostas_api.Workers.Consumer.{Codec}
use apostas_api.Workers.Consumer.Related.{
  Int64Codec, Journey, RelatedMoments, consume-Related, unless_down-RelatedResult,
}
use apostas_api.Workers.Publisher.{Sending, publish, publish_event, publish_events, go_on}
use apostas_api.System.{
  Delivery, empty, moment_of, Step, http, messages, outbox, references, Steps, begin, next,
}

-- Balances and versions are int64 values and every balance is the sum of its wallet's ledger; no two
-- transactions share a unique key and no two entries an identifier; amounts are int64 values, and the wallet of every entry is stored.
pub record Healthy (db : Database) : Type 0 where
  pub sound : SoundDatabase db
  pub keyed : Keyed db
  pub filled : Filled db

-- What a step is: writes that leave a healthy database sound.
pub record Steady (db db' : Database) : Type 0 where
  pub writes : Writes db db'
  pub sound : Healthy db → SoundDatabase db'

pub Steady-Healthy : (db db' : Database) → Steady db db' → Healthy db → Healthy db'
Steady-Healthy db db' s h = record {
  sound = s.sound h;
  keyed = Writes-Keyed s.writes h.keyed;
  filled = Writes-Filled s.writes h.filled;
}

Steady-Journey : Journey Steady
Steady-Journey = record {
  stays = λ db. record { writes = nothing; sound = λ h. h.sound };
  joins = λ a b c s t. record {
    writes = Writes-trans s.writes t.writes;
    sound = λ h. t.sound (Steady-Healthy a b s h);
  };
}

-- The publisher writes events only.
Tables-Steady :
    (db db' : Database) → Tables db' db.wallets db.transactions db.ledger → Steady db db'
Tables-Steady db db' (ws, ts, es) = record {
  writes = single_step (elsewhere ws ts es);
  sound = λ h. rw (ws, es) h.sound;
}

publish_event-Tables :
    (s : Sending) (e : OutboxEvent) (db : Database)
    → Tables (publish_event s e db).1 db.wallets db.transactions db.ledger
unfolding publish_event mark_published retry_outbox
publish_event-Tables s e db = ground arith

Steady-go_on :
    (db : Database) (r : Bool × Database) (rest : Database → Database)
    → Steady db r.1
    → ((d : Database) → Steady d (rest d))
    → Steady db (go_on r rest)
Steady-go_on db (true, d) rest s h = Steady-Journey.joins db d (rest d) s (h d)
Steady-go_on db (false, d) rest s h = s

publish_events-Steady :
    (s : Sending) (es : List OutboxEvent) (db : Database) → Steady db (publish_events s es db)
unfolding publish_events
publish_events-Steady s [] db = Steady-Journey.stays db
publish_events-Steady s (e ∷ es) db =
    Steady-go_on db (publish_event s e db) (λ d. publish_events s es d)
      (Tables-Steady db (publish_event s e db).1 (publish_event-Tables s e db))
      (λ d. publish_events-Steady s es d)

publish-Steady : (s : Sending) (now : Time) (db : Database) → Steady db (publish s now db)
unfolding publish claim_outbox
publish-Steady s now db =
    let (events, held) = claim_outbox 20 now db in
    Steady-Journey.joins db held _ (Tables-Steady db held (refl, refl, refl))
      (publish_events-Steady s events held)

free_id :
    (row : WalletRow) (ws : List WalletRow)
    → exists (wallet_clashes row) ws ≡ false
    → exists (has_id row.id) ws ≡ false
unfolding exists wallet_clashes
free_id row [] h = refl
free_id row (w ∷ ws) h = ground (arith, free_id row ws)

empty-Healthy : Healthy empty
unfolding find
empty-Healthy = record {
  sound = record { reconciled = λ id w h. cc; bigints = λ id w h. cc };
  keyed = record { transactions_apart = tt; entries_apart = tt };
  filled = record { amounts = tt; owned = tt };
}

module _ ⦃iso : Currencies⦄ (fresh : Fresh) (db : Database) where
  -- A wallet that is opened has an identifier of its own.
  opened_free :
      (id player : Uuid) (initial : Money) (r : Wallet × Database)
      → open_wallet fresh id player initial db ≡ ok r
      → exists (has_id id) db.wallets ≡ false
  unfolding open_wallet create_wallet
  opened_free id player initial r h =
      let (w, made, h1) = >>=-eq-ok (new_wallet id player initial fresh.now) _ h in
      let (valid, named, holds) = new_wallet-eq-ok id player initial fresh.now made in
      let (db1, created, done) = >>=-eq-ok (create_wallet fresh w db) _ h1 in
      let (inserted, put, h2) = >>=-eq-ok (insert_wallet (wallet_row w) db) _ created in
      subst (λ (i : Uuid). exists (has_id i) db.wallets ≡ false) named
        (free_id (wallet_row w) db.wallets (insert_wallet-Tables (wallet_row w) db put).1)

  open_wallet-Steady :
      (id player : Uuid) (initial : Money) (r : Wallet × Database)
      → IsInt64 initial.minor
      → open_wallet fresh id player initial db ≡ ok r
      → Steady db r.1
  open_wallet-Steady id player initial r fits h = record {
    writes = open_wallet-Writes fresh id player initial db fits h;
    sound = λ healthy.
        opened-Sound fresh id player initial db fits
          (unused_sum id db.wallets db.ledger healthy.filled.owned
            (opened_free id player initial r h))
          healthy.sound h;
  }

  resolve_pending-Steady : (r : Bool × Database) → resolve_pending fresh db ≡ ok r → Steady db r.1
  resolve_pending-Steady r h = record {
    writes = resolve_pending-Writes fresh db h;
    sound = λ healthy. resolve_pending-Sound fresh db healthy.filled.amounts healthy.sound h;
  }

module _ ⦃iso : Currencies⦄ (hash : Canonical → Result String) where
  process-Steady :
      (fresh : Fresh) (inbox : Option InboxMessage) (op : Operation) (db : Database)
      (r : WagerResult × Database)
      → IsInt64 op.money.minor
      → process hash fresh inbox op db ≡ ok r
      → Steady db r.1
  process-Steady fresh inbox op db r fits h = record {
    writes = process-Writes hash fresh op db fits inbox h;
    sound = λ healthy. process-Sound hash fresh inbox op db fits healthy.sound h;
  }

  fail_operation-Steady :
      (fresh : Fresh) (op : Operation) (code : String) (db : Database) (r : WagerResult × Database)
      → IsInt64 op.money.minor
      → fail_operation hash fresh op code db ≡ ok r
      → Steady db r.1
  fail_operation-Steady fresh op code db r fits h = record {
    writes = fail_operation-Writes hash fresh op db fits code h;
    sound = λ healthy. fail_operation-Sound hash fresh op db code fits healthy.sound h;
  }

  deliveries-Steady :
      (web : Web) (codec : Codec) (batch : List Delivery)
      → RelatedMoments Steady (map (moment_of hash web codec) batch)
  deliveries-Steady web codec [] = tt
  deliveries-Steady web codec (d ∷ ds) = (
    record {
      processes = λ m op db fits.
          unless_down-RelatedResult (Steady db) d.down _
            (λ x h. process-Steady d.fresh (some m) op db x fits h);
      fails = λ op code db fits.
          unless_down-RelatedResult (Steady db) d.down _
            (λ x h. fail_operation-Steady d.fresh' op code db x fits h);
    },
    deliveries-Steady web codec ds,
  )

  module _ (web : Web) (codec : Codec) (int64_web : Int64Web web)
      (int64_codec : Int64Codec codec) where
    Step-Steady : (db db' : Database) → Step hash web codec db db' → Steady db db'
    Step-Steady db _ (http fresh id route request) =
        serve_answer hash web int64_web fresh id request db (Steady db) (Steady-Journey.stays db)
          (λ player initial x fits h. open_wallet-Steady fresh db id player initial x fits h)
          (λ op x fits h. process-Steady fresh none op db x fits h) route
    Step-Steady db _ (messages batch) =
        consume-Related codec int64_codec Steady Steady-Journey
          (map (moment_of hash web codec) batch) db (deliveries-Steady web codec batch)
    Step-Steady db _ (outbox sending now) = publish-Steady sending now db
    Step-Steady db db' (references fresh looked _ h) =
        resolve_pending-Steady fresh db (looked, db') h

    pub Steps-Steady : (db db' : Database) → Steps hash web codec db db' → Steady db db'
    Steps-Steady db _ begin = Steady-Journey.stays db
    Steps-Steady db db' (next {d = d} run s) =
        Steady-Journey.joins db d db' (Steps-Steady db d run) (Step-Steady d db' s)

    -- Where decoded amounts are int64 values: in every database that the service reaches from the empty
    -- one, by requests, messages, passes of the publisher and rounds of the resolver in any order,
    -- balances and versions are int64 values, every stored balance is the signed sum of its wallet's
    -- ledger entries, no two transactions share a unique key and no two entries an identifier, amounts
    -- are int64 values, and every entry's wallet is stored.
    pub Steps-Healthy : (db : Database) → Steps hash web codec empty db → Healthy db
    Steps-Healthy db run = Steady-Healthy empty db (Steps-Steady empty db run) empty-Healthy
