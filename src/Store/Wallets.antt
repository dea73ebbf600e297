-- ===== src/Store/Wallets.antt =====
-- `CreateWallet`, `GetWallet`, `ReconcileWallet`, and `Wallets.Open` of internal/usecases/wallet.go.
use apostas_api.Prelude.{ℕ, suc, Bool, none, some, List, [], ◌∷◌, String, if◌then◌else◌}
use apostas_api.Prelude.Int.{ℤ, pos}
use apostas_api.Prelude.Int64.{fits_int64}
use apostas_api.Prelude.Eq.{◌==◌, nat_eq}
use apostas_api.Result.{
  Result, ok, err, conflict, not_found, other_error, or_error, fail_if, ◌>>◌, ◌>>=◌,
}
use apostas_api.Values.{Uuid}
use apostas_api.Money.{Currencies, Money, money_from_minor, is_positive, is_zero, sub}
use apostas_api.Wallet.{Wallet, rehydrate_wallet, new_wallet}
use apostas_api.LedgerEntry.{credit}
use apostas_api.Transaction.{opening, processed}
use apostas_api.WagerTransaction.{new_opening_transaction}
use apostas_api.Database.{
  WalletRow, TransactionRow, LedgerRow, Database, find, exists, wallet_clashes,
}
use apostas_api.Database.Wallets.{has_id, ledger_sum}
use apostas_api.Store.Rows.{
  Fresh, found, insert_transaction, add_wager_event, insert_ledger, add_balance_event,
}
use apostas_api.Store.Calls.{money_or_zero}

pub record Reconciliation : Type 0 where
  pub wallet_id : Uuid
  pub stored_balance : Money
  pub calculated_balance : Money
  pub difference : Money
  pub consistent : Bool
  pub checked_entries : ℕ

-- `COUNT(l.id)` over the entries of one wallet.
unfoldable pub count_entries : Uuid → List LedgerRow → ℕ
count_entries id [] = 0
count_entries id (e ∷ es) =
    let rest = count_entries id es in if e.wallet_id == id then suc rest else rest

-- `::bigint`
abbrev pub to_bigint : ℤ → Result ℤ
to_bigint a = if fits_int64 a then ok a else err other_error

-- The rows that CreateWallet inserts.
abbrev pub wallet_row : Wallet → WalletRow
wallet_row w = record {
  id = w.id;
  player_id = w.player_id;
  currency = w.balance.currency;
  balance_minor = w.balance.minor;
  version = pos 1;
  created_at = w.created_at;
  updated_at = w.created_at;
}

abbrev pub opening_row : Fresh → Wallet → TransactionRow
opening_row fresh w = record {
  id = fresh.transaction_id;
  external_transaction_id = none;
  provider_id = none;
  idempotency_key = none;
  payload_hash = none;
  wallet_id = w.id;
  player_id = w.player_id;
  round_id = none;
  game_id = none;
  kind = opening;
  amount_minor = w.balance.minor;
  currency = w.balance.currency;
  reference_external_transaction_id = none;
  reference_transaction_id = none;
  status = processed;
  failure_code = none;
  result_balance_minor = some w.balance.minor;
  attempts = 0;
  next_attempt_at = none;
  created_at = fresh.db_now;
  updated_at = fresh.db_now;
}

unfoldable pub insert_wallet : WalletRow → Database → Result Database
insert_wallet row db = do
  fail_if (exists (wallet_clashes row) db.wallets) conflict
  ok (record db { wallets = row ∷ db.wallets })

module _ ⦃iso : Currencies⦄ where
  -- `zero(currency)`: the error is dropped.
  abbrev pub zero_of : String → Money
  zero_of currency = money_or_zero (money_from_minor (pos 0) currency)

  -- `if wallet.Balance().IsPositive() { … }`: the opening transaction, its entry and its events.
  unfoldable pub post_opening : Fresh → Wallet → Database → Result Database
  post_opening fresh w db = do
    _ ← new_opening_transaction fresh.transaction_id w.id w.player_id w.balance w.created_at
    inserted ← or_error (insert_transaction (opening_row fresh w) db) other_error
    let zero = zero_of w.balance.currency
    entered ←
        insert_ledger fresh w.id fresh.transaction_id credit w.balance zero w.balance (pos 1)
          w.created_at inserted
    told ← add_wager_event fresh "" w.id fresh.transaction_id "" opening processed "" entered
    add_balance_event fresh "" w.id fresh.transaction_id credit w.balance zero w.balance (pos 1)
        told

  unfoldable pub create_wallet : Fresh → Wallet → Database → Result Database
  create_wallet fresh w db = do
    inserted ← insert_wallet (wallet_row w) db
    if is_positive w.balance then post_opening fresh w inserted else ok inserted

  -- `Wallets.Open`; the wallet's identifier is another value of uuid.New().
  unfoldable pub open_wallet : Fresh → Uuid → Uuid → Money → Database → Result (Wallet × Database)
  open_wallet fresh id player initial db = do
    w ← new_wallet id player initial fresh.now
    db' ← create_wallet fresh w db
    ok (w, db')

  -- `SELECT … FROM wallets WHERE id=$1`, without the lock
  unfoldable pub get_wallet : Uuid → Database → Result Wallet
  get_wallet id db = do
    row ← found (find (has_id id) db.wallets) not_found
    money ← money_from_minor row.balance_minor row.currency
    rehydrate_wallet id row.player_id money row.version row.created_at row.updated_at

  unfoldable pub reconcile_wallet : Uuid → Database → Result Reconciliation
  reconcile_wallet id db = do
    row ← found (find (has_id id) db.wallets) not_found
    calculated ← to_bigint (ledger_sum id db.ledger)
    stored_money ← money_from_minor row.balance_minor row.currency
    calculated_money ← money_from_minor calculated row.currency
    difference ← sub stored_money calculated_money
    ok (record {
      wallet_id = id;
      stored_balance = stored_money;
      calculated_balance = calculated_money;
      difference = difference;
      consistent = is_zero difference;
      checked_entries = count_entries id db.ledger;
    })
