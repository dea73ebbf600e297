-- ===== src/Http/Routes/Access.antt =====
-- internal/controller/http.go: what a client may read and write.
use text.Mathlib.TextEquality.{eq_iff}
use apostas_api.Prelude.{
  ◌≡◌, ◌≢◌, true, false, ◌||◌, Option, none, some, String, refl, sym, ◌∙◌, inl, inr, Bool-cases,
  and_eq_true, arith,
}
use apostas_api.Prelude.Eq.{◌==◌, ◌!=◌, string_eq}
use apostas_api.Result.{
  Error, invalid_money, currency_mismatch, overflow, insufficient_funds, invalid_wallet,
  invalid_ledger_entry, invalid_transaction, terminal_transaction, invalid_input, conflict,
  not_found, other_error, Result, ok, err,
}
use apostas_api.Values.{Uuid}
use apostas_api.Money.{Currencies}
use mathlib.Core.Path.{subst}
use apostas_api.Wager.{Operation, decide}
use apostas_api.Database.{Database}
use apostas_api.Store.{Fresh, WagerResult, execute}
use apostas_api.Store.Writes.Answered.{AnswersFor, execute_tx-AnswersFor}
use apostas_api.Store.Reads.{
  TransactionView, get_transaction_for_provider, get_transaction_by_external,
}
use apostas_api.Store.Reads.Providers.{
  get_transaction_for_provider_safe, get_transaction_by_external_safe,
}
use apostas_api.Requests.{Canonical, process, process_steps}
use apostas_api.Http.{
  Request, Web, Body, error_code, wager, transaction, write_json, write_usecase_error, is_internal,
  can_read_transaction, is_client, answer, with_input,
}
use apostas_api.Http.Handlers.{
  open_wallet_handler, get_wallet_handler, wagered, wager_by, process_wager, get_ledger,
  own_transaction, get_transaction_handler, get_provider_transaction, reconcile_wallet_handler,
}
use apostas_api.Http.Routes.{
  Route, get_metrics, post_wallets, get_wallets, get_wallets_ledger, post_wallets_reconciliation,
  post_transactions, get_transactions, get_provider_transactions, serve, get_metrics_handler,
}

-- What a provider may be shown while the database is as given: errors, answers about a stored
-- transaction of its own, and its own transactions.
abbrev pub Visible : String → Database → Body → Type 0
Visible client db (error_code _) = Unit {0}
Visible client db (wager r) = AnswersFor client r db
Visible client db (transaction t) = t.provider_id ≡ client
Visible client db _ = ⊥

not_equal : (s t : String) → s ≢ t → (s == t) ≡ false
not_equal s t h = ground (arith, eq_iff s t)

pub is_provider :
    (r : Request) (client : String)
    → r.principal ≡ some client
    → client ≢ "wallet-service"
    → is_internal r ≡ false
unfolding is_internal
is_provider r client who apart = rw who (not_equal client "wallet-service" apart)

error-Visible :
    (client : String) (db : Database) (e : Error) → Visible client db (write_usecase_error e).body
unfolding write_usecase_error
error-Visible client db invalid_money = tt
error-Visible client db currency_mismatch = tt
error-Visible client db overflow = tt
error-Visible client db insufficient_funds = tt
error-Visible client db invalid_wallet = tt
error-Visible client db invalid_ledger_entry = tt
error-Visible client db invalid_transaction = tt
error-Visible client db terminal_transaction = tt
error-Visible client db invalid_input = tt
error-Visible client db conflict = tt
error-Visible client db not_found = tt
error-Visible client db other_error = tt

answer-Visible :
    (client : String) (db : Database) (found : Result TransactionView)
    → ((t : TransactionView) → found ≡ ok t → t.provider_id ≡ client)
    → Visible client db (answer found (λ t. write_json 200 (transaction t))).body
answer-Visible client db (ok t) h = h t refl
answer-Visible client db (err e) h = error-Visible client db e

wagered-Visible :
    (client : String) (db : Database) (result : Result (WagerResult × Database))
    → ((r : WagerResult × Database) → result ≡ ok r → AnswersFor client r.0 r.1)
    → Visible client (wagered db result).1 (wagered db result).0.body
wagered-Visible client db (ok (res, db')) h = h (res, db') refl
wagered-Visible client db (err e) h = error-Visible client db e

granted :
    (client provider : String)
    → (client != provider || client == "wallet-service") ≡ false
    → provider ≡ client
granted client provider h = ground (arith, eq_iff client provider)

process-AnswersFor :
    ⦃iso : Currencies⦄ (hash : Canonical → Result String) (fresh : Fresh) (op : Operation)
    (db : Database) {r : WagerResult × Database}
    → process hash fresh none op db ≡ ok r
    → AnswersFor op.provider_id r.0 r.1
unfolding execute
process-AnswersFor hash fresh op db h =
    let (_, _, (sum, done)) = process_steps hash fresh none op db h in
    execute_tx-AnswersFor fresh "" op sum (decide op) db done

-- The one provider that `canReadTransaction` lets through.
reader_is :
    (r : Request) (client provider : String)
    → r.principal ≡ some client
    → is_internal r ≡ false
    → can_read_transaction r provider ≡ true
    → client ≡ provider
unfolding can_read_transaction
reader_is r client provider who outside may = (eq_iff client provider).0 (
    rw who at (and_eq_true (provider != "") (is_client r.principal provider) (rw outside at may)).1)

module _ ⦃iso : Currencies⦄ (hash : Canonical → Result String) (web : Web) (fresh : Fresh)
    (id : Uuid) (r : Request) (client : String) (db : Database) (who : r.principal ≡ some client)
    (outside : is_internal r ≡ false) (apart : (client == "wallet-service") ≡ false) where
  wager_by-Visible :
      (op : Operation)
      → Visible client
          (wager_by hash web fresh client r op db).1
          (wager_by hash web fresh client r op db).0.body
  unfolding wager_by
  wager_by-Visible op = elim (Bool-cases (client != op.provider_id || client == "wallet-service")) [
    | inl no_access ↦ rw no_access tt
    | inr has_access ↦
        let keyed = record op { idempotency_key = web.trim r.idempotency_key } in
        rw has_access (
          wagered-Visible client db (process hash fresh none keyed db) (λ x is.
            subst (λ (p : String). AnswersFor p x.0 x.1) (granted client op.provider_id has_access)
              (process-AnswersFor hash fresh keyed db is)))
  ]

  process_wager-Visible :
      Visible client
        (process_wager hash web fresh r db).1
        (process_wager hash web fresh r db).0.body
  unfolding process_wager
  process_wager-Visible = simp who (body_read (web.operation_body r.body))
    where
      body_read :
          (o : Option Operation)
          → Visible client
              (with_input o
                (write_json 400 (error_code "INVALID_INPUT"), db)
                (λ op. wager_by hash web fresh client r op db)).1
              (with_input o
                (write_json 400 (error_code "INVALID_INPUT"), db)
                (λ op. wager_by hash web fresh client r op db)).0.body
      body_read none = tt
      body_read (some op) = wager_by-Visible op

  get_transaction-Visible :
      (path : String) → Visible client db (get_transaction_handler web path r db).body
  unfolding get_transaction_handler own_transaction
  get_transaction-Visible path = simp (outside, who, apart) (id_read (web.parse_uuid path))
    where
      id_read :
          (o : Option Uuid)
          → Visible client db
              (with_input o (write_json 400 (error_code "INVALID_INPUT")) (λ key.
                answer
                  (get_transaction_for_provider key client db)
                  (λ t. write_json 200 (transaction t)))).body
      id_read none = tt
      id_read (some key) =
          answer-Visible client db (get_transaction_for_provider key client db)
            (λ t h. (get_transaction_for_provider_safe key client db h).1)

  get_provider_transaction-Visible :
      (provider external : String)
      → Visible client db (get_provider_transaction provider external r db).body
  unfolding get_provider_transaction
  get_provider_transaction-Visible provider external =
      elim (Bool-cases (can_read_transaction r provider)) [
        | inl may ↦ rw may (
            answer-Visible client db (get_transaction_by_external provider external db) (λ t h.
              get_transaction_by_external_safe provider external db h
              ∙ sym (reader_is r client provider who outside may)))
        | inr denied ↦ rw denied tt
      ]

  serve_route :
      (route : Route)
      → Visible client
          (serve hash web fresh id route r db).1
          (serve hash web fresh id route r db).0.body
  unfolding serve get_metrics_handler open_wallet_handler get_wallet_handler get_ledger
      reconcile_wallet_handler
  serve_route get_metrics = rw outside tt
  serve_route post_wallets = rw outside tt
  serve_route (get_wallets path) = rw outside tt
  serve_route (get_wallets_ledger path) = rw outside tt
  serve_route (post_wallets_reconciliation path) = rw outside tt
  serve_route post_transactions = process_wager-Visible
  serve_route (get_transactions path) = get_transaction-Visible path
  serve_route (get_provider_transactions provider external) =
      get_provider_transaction-Visible provider external

-- On every route, a client that is not the wallet service is shown no wallet, ledger, reconciliation or
-- metrics, and no transaction but its own: the answer to a wager, new or repeated, has the identifier,
-- the status and the balance of a transaction of this client that is stored afterwards.
pub serve-Visible :
    ⦃iso : Currencies⦄ (hash : Canonical → Result String) (web : Web) (fresh : Fresh) (id : Uuid)
    (route : Route) (r : Request) (client : String) (db : Database)
    → r.principal ≡ some client
    → client ≢ "wallet-service"
    → Visible client
        (serve hash web fresh id route r db).1
        (serve hash web fresh id route r db).0.body
serve-Visible hash web fresh id route r client db who apart =
    serve_route hash web fresh id r client db who (is_provider r client who apart)
      (not_equal client "wallet-service" apart) route
