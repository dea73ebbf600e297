-- ===== src/Http/Routes/Writes.antt =====
-- internal/controller/http.go: the database under the requests.
use mathlib.Core.Path.{subst}
use apostas_api.Prelude.{
  ap, ◌≡◌, ◌≢◌, ◌⊎◌, true, false, ◌||◌, Option, none, some, String, refl, inl, inr, Bool-cases,
  arith,
}
use text.Mathlib.TextEquality.{eq_iff}
use apostas_api.Prelude.Int.{pos}
use apostas_api.Prelude.Int64.{IsInt64}
use apostas_api.Prelude.Eq.{◌==◌, ◌!=◌, string_eq}
use apostas_api.Result.{Result, ok, err, >>=-eq-ok, ok-inj}
use apostas_api.Values.{Uuid, Time}
use apostas_api.Money.{Currencies, Money}
use apostas_api.Wallet.{Wallet, new_wallet, is_valid}
use apostas_api.Wager.{Operation}
use apostas_api.Database.{Database}
use apostas_api.Database.Wallets.{ledger_sum}
use apostas_api.Store.{Fresh, WagerResult}
use apostas_api.Store.Ledger.{SoundDatabase}
use apostas_api.Store.Opening.{create_wallet-Sound}
use apostas_api.Store.Wallets.{open_wallet, create_wallet}
use apostas_api.Requests.{Canonical, process, process-Sound}
use apostas_api.Http.{Request, Web, is_internal, invalid, write_error, with_input}
use apostas_api.Http.Handlers.{open_wallet_handler, opened, wagered, wager_by, process_wager}
use apostas_api.Http.Routes.{
  Route, get_metrics, post_wallets, get_wallets, get_wallets_ledger, post_wallets_reconciliation,
  post_transactions, get_transactions, get_provider_transactions, serve,
}
use apostas_api.Http.Routes.Access.{is_provider}

module _ ⦃iso : Currencies⦄ (hash : Canonical → Result String) (fresh : Fresh) (client : String)
    (db : Database) where
  -- The database is unchanged, or it is the one that a wager of the client left.
  abbrev pub OwnWager : Database → Type 0
  OwnWager db' =
      (db' ≡ db)
      ⊎ ((op : Operation) × (result : WagerResult) × (op.provider_id ≡ client)
          × (process hash fresh none op db ≡ ok (result, db')))

  wagered-OwnWager :
      (op : Operation) (result : Result (WagerResult × Database))
      → op.provider_id ≡ client
      → process hash fresh none op db ≡ result
      → OwnWager (wagered db result).1
  wagered-OwnWager op (ok (res, db')) own is = inr (op, res, own, is)
  wagered-OwnWager op (err e) own is = inl refl

  granted_provider :
      (op : Operation)
      → (client != op.provider_id || client == "wallet-service") ≡ false
      → op.provider_id ≡ client
  granted_provider op h = ground (arith, eq_iff client op.provider_id)

  wager_by-OwnWager :
      (web : Web) (r : Request) (op : Operation)
      → OwnWager (wager_by hash web fresh client r op db).1
  unfolding wager_by
  wager_by-OwnWager web r op =
      elim (Bool-cases (client != op.provider_id || client == "wallet-service")) [
        | inl no_access ↦ rw no_access (inl refl)
        | inr granted ↦ rw granted (
            wagered-OwnWager (record op { idempotency_key = web.trim r.idempotency_key }) _
              (granted_provider op granted) refl)
      ]

  body-OwnWager :
      (web : Web) (r : Request) (o : Option Operation)
      → OwnWager (with_input o (invalid, db) (λ op. wager_by hash web fresh client r op db)).1
  body-OwnWager web r none = inl refl
  body-OwnWager web r (some op) = wager_by-OwnWager web r op

  process_wager-OwnWager :
      (web : Web) (r : Request)
      → r.principal ≡ some client
      → OwnWager (process_wager hash web fresh r db).1
  unfolding process_wager
  process_wager-OwnWager web r who = simp who (body-OwnWager web r (web.operation_body r.body))

  -- On every route, a client that is not the wallet service leaves the database unchanged, or as
  -- `process` leaves it for one operation of this client.
  pub serve-OwnWager :
      (web : Web) (id : Uuid) (route : Route) (r : Request)
      → r.principal ≡ some client
      → client ≢ "wallet-service"
      → OwnWager (serve hash web fresh id route r db).1
  unfolding serve open_wallet_handler
  serve-OwnWager web id get_metrics r who apart = inl refl
  serve-OwnWager web id post_wallets r who apart = simp (is_provider r client who apart) (inl refl)
  serve-OwnWager web id (get_wallets path) r who apart = inl refl
  serve-OwnWager web id (get_wallets_ledger path) r who apart = inl refl
  serve-OwnWager web id (post_wallets_reconciliation path) r who apart = inl refl
  serve-OwnWager web id post_transactions r who apart = process_wager-OwnWager web r who
  serve-OwnWager web id (get_transactions path) r who apart = inl refl
  serve-OwnWager web id (get_provider_transactions provider external) r who apart = inl refl

-- Decoded amounts are int64 values, as the field's type says.
pub record Int64Web (web : Web) : Type 0 where
  pub operations :
      (text : String) (op : Operation) → web.operation_body text ≡ some op → IsInt64 op.money.minor
  pub openings :
      (text : String) (player : Uuid) (initial : Money)
      → web.opening_body text ≡ some (player, initial)
      → IsInt64 initial.minor

module _ ⦃iso : Currencies⦄ where
  pub new_wallet-eq-ok :
      (id player : Uuid) (initial : Money) (now : Time) {w : Wallet}
      → new_wallet id player initial now ≡ ok w
      → (is_valid w ≡ true) × (w.id ≡ id) × (w.balance ≡ initial)
  unfolding new_wallet
  new_wallet-eq-ok id player initial now h = ground arith

  pub opened-Sound :
      (fresh : Fresh) (id player : Uuid) (initial : Money) (db : Database) {r : Wallet × Database}
      → IsInt64 initial.minor
      → ledger_sum id db.ledger ≡ pos 0
      → SoundDatabase db
      → open_wallet fresh id player initial db ≡ ok r
      → SoundDatabase r.1
  unfolding open_wallet
  opened-Sound fresh id player initial db fits unused sound h =
      let (w, made, h1) = >>=-eq-ok (new_wallet id player initial fresh.now) _ h in
      let (valid, named, holds) = new_wallet-eq-ok id player initial fresh.now made in
      let (db1, created, done) = >>=-eq-ok (create_wallet fresh w db) _ h1 in
      subst SoundDatabase (ap (λ (x : Wallet × Database). x.1) (ok-inj done))
        (create_wallet-Sound fresh w db valid (rw holds fits) (rw named unused) sound created)

module _ ⦃iso : Currencies⦄ (hash : Canonical → Result String) (web : Web) (int64 : Int64Web web)
    (fresh : Fresh) (id : Uuid) (r : Request) (db : Database) (P : Database → Type 0) (same : P db)
    (opens : (player : Uuid) (initial : Money) (x : Wallet × Database)
      → IsInt64 initial.minor
      → open_wallet fresh id player initial db ≡ ok x
      → P x.1)
    (wagers : (op : Operation) (x : WagerResult × Database)
      → IsInt64 op.money.minor
      → process hash fresh none op db ≡ ok x
      → P x.1) where
  opened_answer :
      (player : Uuid) (initial : Money) (result : Result (Wallet × Database))
      → IsInt64 initial.minor
      → open_wallet fresh id player initial db ≡ result
      → P (opened db result).1
  opened_answer player initial (err e) fits h = same
  opened_answer player initial (ok x) fits h = opens player initial x fits h

  wagered_answer :
      (op : Operation) (result : Result (WagerResult × Database))
      → IsInt64 op.money.minor
      → process hash fresh none op db ≡ result
      → P (wagered db result).1
  wagered_answer op (err e) fits h = same
  wagered_answer op (ok x) fits h = wagers op x fits h

  open_wallet_handler-answer : P (open_wallet_handler web fresh id r db).1
  unfolding open_wallet_handler
  open_wallet_handler-answer = elim (Bool-cases (is_internal r)) [
    | inl inside ↦ simp inside (body_read (web.opening_body r.body) refl)
    | inr outside ↦ simp outside same
  ]
    where
      body_read :
          (o : Option (Uuid × Money))
          → web.opening_body r.body ≡ o
          → P
              (with_input o
                (invalid, db)
                (λ (body : Uuid × Money). opened db (open_wallet fresh id body.0 body.1 db))).1
      body_read none is = same
      body_read (some (player, initial)) is =
          opened_answer player initial _ (int64.openings r.body player initial is) refl

  wager_by-answer :
      (client : String) (op : Operation)
      → IsInt64 op.money.minor
      → P (wager_by hash web fresh client r op db).1
  unfolding wager_by
  wager_by-answer client op fits =
      elim (Bool-cases (client != op.provider_id || client == "wallet-service")) [
        | inl no_access ↦ simp no_access same
        | inr granted ↦ simp granted (
            wagered_answer (record op { idempotency_key = web.trim r.idempotency_key }) _ fits refl)
      ]

  process_wager-answer : P (process_wager hash web fresh r db).1
  unfolding process_wager
  process_wager-answer = client_read r.principal
    where
      body_read :
          (client : String) (o : Option Operation)
          → web.operation_body r.body ≡ o
          → P (with_input o (invalid, db) (λ op. wager_by hash web fresh client r op db)).1
      body_read client none is = same
      body_read client (some op) is = wager_by-answer client op (int64.operations r.body op is)

      client_read :
          (p : Option String)
          → P
              (with_input p
                (write_error 401 "UNAUTHORIZED", db)
                (λ client.
                  with_input
                    (web.operation_body r.body)
                    (invalid, db)
                    (λ op. wager_by hash web fresh client r op db))).1
      client_read none = same
      client_read (some client) = body_read client (web.operation_body r.body) refl

  -- What holds of the database, and of every database that opening a wallet or a wager leaves, holds
  -- after the answer on every route.
  pub serve_answer : (route : Route) → P (serve hash web fresh id route r db).1
  unfolding serve
  serve_answer get_metrics = same
  serve_answer post_wallets = open_wallet_handler-answer
  serve_answer (get_wallets path) = same
  serve_answer (get_wallets_ledger path) = same
  serve_answer (post_wallets_reconciliation path) = same
  serve_answer post_transactions = process_wager-answer
  serve_answer (get_transactions path) = same
  serve_answer (get_provider_transactions provider external) = same

module _ ⦃iso : Currencies⦄ (hash : Canonical → Result String) (web : Web) (int64 : Int64Web web)
    (fresh : Fresh) (id : Uuid) (r : Request) (db : Database) (sound : SoundDatabase db) where
  -- Where decoded amounts are int64 values and the identifier for a new wallet is one that the ledger
  -- does not mention (its entries sum to zero): every request on every route, by any client or none,
  -- whatever it is answered, leaves a sound database sound.
  pub serve-Sound :
      (route : Route)
      → ledger_sum id db.ledger ≡ pos 0
      → SoundDatabase (serve hash web fresh id route r db).1
  serve-Sound route unused =
      serve_answer hash web int64 fresh id r db SoundDatabase sound
        (λ player initial x fits h. opened-Sound fresh id player initial db fits unused sound h)
        (λ op x fits h. process-Sound hash fresh none op db fits sound h) route
