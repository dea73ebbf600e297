-- ===== src/Http/Routes.antt =====
-- internal/controller/http.go: `Routes`, a request on its route.
pub mod Access
pub mod Writes
use apostas_api.Prelude.{String, if◌then◌else◌}
use apostas_api.Result.{Result}
use apostas_api.Values.{Uuid}
use apostas_api.Money.{Currencies}
use apostas_api.Database.{Database}
use apostas_api.Store.{Fresh}
use apostas_api.Requests.{Canonical}
use apostas_api.Http.{Request, Web, Response, metrics, write_json, forbidden, is_internal}
use apostas_api.Http.Handlers.{
  open_wallet_handler, get_wallet_handler, process_wager, get_ledger, get_transaction_handler,
  get_provider_transaction, reconcile_wallet_handler,
}

-- The patterns of the router, with the path's values; the two health checks are left out.
pub data Route : Type 0 where
  get_metrics : Route
  post_wallets : Route
  get_wallets : String → Route
  get_wallets_ledger : String → Route
  post_wallets_reconciliation : String → Route
  post_transactions : Route
  get_transactions : String → Route
  get_provider_transactions : String → String → Route

-- `metrics`
unfoldable pub get_metrics_handler : Request → Response
get_metrics_handler r = if is_internal r then write_json 200 metrics else forbidden

module _ ⦃iso : Currencies⦄ where
  unfoldable pub serve :
      (Canonical → Result String)
      → Web
      → Fresh
      → Uuid
      → Route
      → Request
      → Database
      → Response × Database
  serve hash web fresh id get_metrics r db = (get_metrics_handler r, db)
  serve hash web fresh id post_wallets r db = open_wallet_handler web fresh id r db
  serve hash web fresh id (get_wallets path) r db = (get_wallet_handler web path r db, db)
  serve hash web fresh id (get_wallets_ledger path) r db = (get_ledger web path r db, db)
  serve hash web fresh id (post_wallets_reconciliation path) r db =
      (reconcile_wallet_handler web path r db, db)
  serve hash web fresh id post_transactions r db = process_wager hash web fresh r db
  serve hash web fresh id (get_transactions path) r db = (get_transaction_handler web path r db, db)
  serve hash web fresh id (get_provider_transactions provider external) r db =
      (get_provider_transaction provider external r db, db)
