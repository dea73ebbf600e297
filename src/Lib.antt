-- ===== src/Lib.antt =====
-- A betting wallet service: providers place wagers (bets, wins, losses, refunds, rollbacks) on the
-- wallets of players. A request comes by HTTP (internal/controller) or as a queue message
-- (internal/worker); internal/usecases checks it and decides; internal/infra/postgres runs the
-- decision in one transaction that locks the wallet's row, and records the transaction, the new
-- balance, a ledger entry and the events.
--
-- The files and the code:
--   Money            internal/model/money.go: amounts (Money/Defs), their texts (Money/Text),
--                    and their JSON (Money/Json)
--   Wallet           internal/model/wallet.go: Wallet, NewWallet, Credit, Debit
--   LedgerEntry      internal/model/ledger.go: NewWalletLedgerEntry
--   Transaction      internal/model/transaction.go: kinds, states, ValidateOperation, Transition
--   WagerTransaction internal/model/wager_transaction.go
--   Wager            internal/usecases/wager.go: Decide and its types
--   Requests         internal/usecases/wager.go: process (also ProcessInbox) and Fail
--   Events           internal/events/events.go
--   Database         the tables of migrations/000001_init.up.sql as lists of rows
--   Store            internal/infra/postgres/store.go: Store/Rows and Store/Calls for Execute,
--                    Store/Inbox for ExecuteInbox, Store/Wallets for CreateWallet, GetWallet and
--                    ReconcileWallet, and Wallets.Open of internal/usecases/wallet.go,
--                    Store/Resolve for ResolvePendingReference, Store/Outbox for the claims and
--                    marks of events, Store/Pages for ListLedger, Store/Reads for GetTransaction
--                    and its two kin, with the records of internal/usecases/read.go; Store/Writes
--                    for all of them as sequences of writes
--   Database/Query   WHERE, ORDER BY and LIMIT on the lists; Database/Paging their laws
--   Queue            internal/infra/queue/sqs.go: messages, RetryDelay, the visibility timeout;
--                    Queue/Client for what the client asks of the AWS SDK
--   Workers          internal/worker/workers.go: Workers/Consumer for the input consumer,
--                    Workers/Publisher for the outbox, Workers/Resolver for the references,
--                    Workers/Manager for their start and stop
--   Oidc             internal/infra/oidc/auth.go: Middleware and the search for the signing key;
--                    Oidc/Ready for Ready
--   Http             internal/controller/http.go: Http/Handlers, and Http/Routes for Routes
--   System           the service as a whole: any sequence of requests, messages, passes of the
--                    publisher and rounds of the resolver on one database
--   Config           internal/infra/config/config.go
--   Metrics          internal/infra/metrics/metrics.go
--   Migrate          cmd/migrate/main.go
--   Prelude, Result, Strconv, Strings, Values: int64 arithmetic, Go's error results, strconv,
--                    strings, uuid.UUID and time.Time as far as the code uses them
-- The child modules named for a property (Arithmetic, Laws, Machine, Ledger, Replay, ...) hold the
-- proofs; Tests holds sample data and the theorems at them.
--
-- State and errors: a method with a pointer receiver returns the new value, and a function that
-- fails returns `err` and no new value. A call of the store maps a database to an answer and a new
-- database, or fails and leaves the database as it was, as the rolled back transaction does. The
-- callback that gets a wallet pointer returns the wallet beside its decision. What time.Now, now()
-- and uuid.New give in one call are arguments (Store.Fresh).
--
-- Numbers: an int64 is an integer, and each sum, difference and product wraps as Go's does
-- (Prelude/Int64). A UUID is a number, uuid.Nil is 0; a time is its distance from the zero time.
-- Loops are recursions on lists, texts and numbers. Fuel stands in three places: `emit` (its callers
-- prove it enough), the rounds of the reference resolver (one for each attempt that the waiting
-- transactions have left, and one more), and a client's walk through the pages of a ledger (one for
-- each entry, and one more).
--
-- Queries: an insertion puts a row in front; a query for one row takes the first that fits; ORDER BY
-- keeps equal rows in the order of the list. A claim of events (FOR UPDATE SKIP LOCKED) runs with no
-- other claim beside it.
--
-- Parameters: the ISO table of golang.org/x/text (Currencies), the hexadecimal SHA-256 of the JSON text
-- of an operation (the argument `hash` of Requests), the JSON decoding and SHA-256 of a message
-- (Workers.Consumer.Codec), the readers and the cursor writer of HTTP (Http.Web), the JWT
-- library, the fetched key set and base64 (Oidc.Library), and what the queue and
-- the context do around a message or an event (Moment, Sending); encoding/json on the two fields of
-- money (Money.Json), the AWS SDK and strconv.Atoi (Queue.Client), the environment and
-- time.ParseDuration (Config), and of the migrations the files, what their SQL does, and the two
-- questions about the columns (Migrate.Site).
--
-- The service: a call of the store is one transaction, and each takes the locks that it needs before
-- it reads (the wallet's row, the due row), so the calls of one database stand in a row; the steps of
-- System are such calls, or several of one worker. `Store/Writes` turns each call into writes of single
-- rows, and a property of every database that is reached is proved once for each kind of write.
--
-- Interfaces: the consumer takes the wager use case as a WagerProcessor, an error of the driver
-- included; `wager_processor` (Workers/Consumer/Books) fills it with `process` and `fail_operation`.
--
-- Not modelled: errors of the database driver inside the store, a commit whose outcome is unknown, the
-- triggers and foreign keys of the migrations, the JSON texts of events, requests and answers, the
-- endless receive loop and the tickers of the workers, the two health checks, the calls of the counters
-- in the other parts, errors of the connection in the migrations, and the wiring of cmd/api.
pub mod Prelude
pub mod Result
pub mod Strconv
pub mod Values
pub mod Money
pub mod Wallet
pub mod LedgerEntry
pub mod Transaction
pub mod Strings
pub mod WagerTransaction
pub mod Wager
pub mod Database
pub mod Events
pub mod Store
pub mod Requests
pub mod Queue
pub mod Http
pub mod Oidc
pub mod Workers
pub mod Tests
pub mod System
pub mod Migrate
pub mod Config
pub mod Metrics
