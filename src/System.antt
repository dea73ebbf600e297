-- ===== src/System.antt =====
-- The service as a whole: cmd/api/main.go starts the HTTP server of internal/controller/http.go and
-- the three workers of internal/worker/workers.go on one database. Each call of the store is one
-- transaction, so the service's life is a sequence of the steps below, in any order.
pub mod Health
pub mod History
use apostas_api.Prelude.{Bool, Option, List, [], ◌∷◌, map}
use apostas_api.Prelude.Eq.{nat_eq}
use apostas_api.Prelude.{◌≡◌, String}
use apostas_api.Result.{Error, Result, ok}
use apostas_api.Values.{Uuid, Time}
use apostas_api.Money.{Currencies}
use apostas_api.Database.{Database}
use apostas_api.Store.{Fresh}
use apostas_api.Store.Resolve.{resolve_pending}
use apostas_api.Requests.{Canonical}
use apostas_api.Queue.{Message}
use apostas_api.Http.{Request, Web}
use apostas_api.Http.Routes.{Route, serve}
use apostas_api.Workers.Consumer.{Codec, Moment, consume}
use apostas_api.Workers.Consumer.Books.{wager_processor}
use apostas_api.Workers.Publisher.{Sending, publish}

-- A message, with what its handling meets: the values of uuid.New() and the clocks for the two calls,
-- an error of the driver, and the rest of a `Moment`.
pub record Delivery : Type 0 where
  pub message : Message
  pub fresh : Fresh
  pub fresh' : Fresh
  pub down : Option Error
  pub cancelled : Bool
  pub buries : Bool
  pub stops : Bool

-- The database after the migrations.
abbrev pub empty : Database
empty = record { wallets = []; transactions = []; ledger = []; inbox = []; outbox = [] }

module _ ⦃iso : Currencies⦄ (hash : Canonical → Result String) (web : Web) (codec : Codec) where
  abbrev pub moment_of : Delivery → Moment × Message
  moment_of d = (
    record {
      wager = wager_processor hash d.fresh d.fresh' d.down;
      cancelled = d.cancelled;
      buries = d.buries;
      stops = d.stops;
    },
    d.message,
  )

  pub data Step (db : Database) : Database → Type 0 where
    http :
        (fresh : Fresh) (id : Uuid) (route : Route) (request : Request)
        → Step db (serve hash web fresh id route request db).1
    messages : (batch : List Delivery) → Step db (consume codec (map moment_of batch) db).1
    outbox : (sending : Sending) (now : Time) → Step db (publish sending now db)
    references :
        (fresh : Fresh) (looked : Bool) (db' : Database)
        → resolve_pending fresh db ≡ ok (looked, db')
        → Step db db'

  -- A run of the service from one database to another.
  pub data Steps (db : Database) : Database → Type 0 where
    begin : Steps db db
    next : {d d' : Database} → Steps db d → Step d d' → Steps db d'
