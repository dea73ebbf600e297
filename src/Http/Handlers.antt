-- ===== src/Http/Handlers.antt =====
-- internal/controller/http.go: the handlers. A handler that writes gives the new database beside its
-- answer; the others leave it as it is.
use apostas_api.Prelude.{ℕ, ◌||◌, Option, none, some, String, if◌then◌else◌}
use apostas_api.Prelude.Eq.{◌==◌, ◌!=◌, string_eq}
use apostas_api.Result.{Result, ok, err}
use apostas_api.Values.{Uuid}
use apostas_api.Money.{Currencies, Money}
use apostas_api.Wallet.{Wallet}
use apostas_api.Transaction.{Status, pending_reference, rejected, status_eq}
use apostas_api.Wager.{Operation}
use apostas_api.Database.{Database}
use apostas_api.Store.{Fresh, WagerResult}
use apostas_api.Store.Wallets.{open_wallet, get_wallet, reconcile_wallet}
use apostas_api.Store.Pages.{LedgerCursor, LedgerPage, list_ledger}
use apostas_api.Store.Reads.{
  get_transaction, get_transaction_for_provider, get_transaction_by_external,
}
use apostas_api.Requests.{Canonical, process}
use apostas_api.Http.{
  Request, Web, Response, wallet, wager, ledger, transaction, reconciliation, write_json,
  write_error, forbidden, invalid, write_usecase_error, is_internal, can_read_transaction,
  ledger_limit, decode_cursor, answer, with_input,
}

-- The status of an answered wager.
abbrev pub wager_status : Status → ℕ
wager_status s = if s == rejected then 422 else if s == pending_reference then 202 else 200

abbrev pub opened : Database → Result (Wallet × Database) → Response × Database
opened db (ok (w, db')) = (write_json 201 (wallet w), db')
opened db (err e) = (write_usecase_error e, db)

abbrev pub wagered : Database → Result (WagerResult × Database) → Response × Database
wagered db (ok (r, db')) = (write_json (wager_status r.status) (wager r), db')
wagered db (err e) = (write_usecase_error e, db)

-- `nextCursor`
abbrev pub ledger_answer : Web → LedgerPage → Option LedgerCursor → Response
ledger_answer web page none = write_json 200 (ledger page.entries none)
ledger_answer web page (some c) =
    with_input (web.write_cursor c) (write_error 503 "TEMPORARY_UNAVAILABLE")
      (λ value. write_json 200 (ledger page.entries (some value)))

module _ ⦃iso : Currencies⦄ where
  -- `openWallet`; the new wallet's identifier comes from uuid.New().
  unfoldable pub open_wallet_handler : Web → Fresh → Uuid → Request → Database → Response × Database
  open_wallet_handler web fresh id r db =
      if is_internal r
      then with_input (web.opening_body r.body) (invalid, db)
          (λ (body : Uuid × Money). opened db (open_wallet fresh id body.0 body.1 db))
      else (forbidden, db)

  unfoldable pub get_wallet_handler : Web → String → Request → Database → Response
  get_wallet_handler web path r db =
      if is_internal r
      then with_input (web.parse_uuid path) invalid
          (λ id. answer (get_wallet id db) (λ w. write_json 200 (wallet w)))
      else forbidden

  -- `processWager` once the body is read
  unfoldable pub wager_by :
      (Canonical → Result String)
      → Web
      → Fresh
      → String
      → Request
      → Operation
      → Database
      → Response × Database
  wager_by hash web fresh client r op db =
      if client != op.provider_id || client == "wallet-service"
      then (forbidden, db)
      else wagered db
          (process hash fresh none (record op { idempotency_key = web.trim r.idempotency_key }) db)

  unfoldable pub process_wager :
      (Canonical → Result String) → Web → Fresh → Request → Database → Response × Database
  process_wager hash web fresh r db =
      with_input r.principal (write_error 401 "UNAUTHORIZED", db)
        (λ client.
          with_input (web.operation_body r.body) (invalid, db)
            (λ op. wager_by hash web fresh client r op db))

  unfoldable pub get_ledger : Web → String → Request → Database → Response
  get_ledger web path r db =
      if is_internal r
      then with_input (web.parse_uuid path) invalid (λ id.
        with_input (ledger_limit web r) invalid (λ limit.
          with_input (decode_cursor web r.cursor) invalid (λ cursor.
            answer (list_ledger id cursor limit db)
              (λ page. ledger_answer web page page.next_cursor))))
      else forbidden

  -- The branch of `getTransaction` for a provider.
  unfoldable pub own_transaction : Option String → Uuid → Database → Response
  own_transaction none id db = forbidden
  own_transaction (some client) id db =
      if client == "wallet-service"
      then forbidden
      else answer (get_transaction_for_provider id client db) (λ t. write_json 200 (transaction t))

  unfoldable pub get_transaction_handler : Web → String → Request → Database → Response
  get_transaction_handler web path r db = with_input (web.parse_uuid path) invalid (λ id.
      if is_internal r
      then answer (get_transaction id db) (λ t. write_json 200 (transaction t))
      else own_transaction r.principal id db)

  unfoldable pub get_provider_transaction : String → String → Request → Database → Response
  get_provider_transaction provider external r db =
      if can_read_transaction r provider
      then answer (get_transaction_by_external provider external db)
          (λ t. write_json 200 (transaction t))
      else forbidden

  unfoldable pub reconcile_wallet_handler : Web → String → Request → Database → Response
  reconcile_wallet_handler web path r db =
      if is_internal r
      then with_input (web.parse_uuid path) invalid
          (λ id. answer (reconcile_wallet id db) (λ x. write_json 200 (reconciliation x)))
      else forbidden
