-- ===== src/Store/Reads.antt =====
-- internal/infra/postgres/store.go: the three queries for a transaction and `scanTransaction`, and
-- the record `Transaction` of internal/usecases/read.go.
pub mod Shown
pub mod Answers
pub mod Providers
use apostas_api.Prelude.{◌&&◌, Option, none, some, String}
use apostas_api.Prelude.Int.{ℤ}
use apostas_api.Prelude.Eq.{◌==◌, nat_eq}
use apostas_api.Result.{Result, ok, err, not_found, ◌>>=◌}
use apostas_api.Values.{Uuid, uuid_nil, Time}
use apostas_api.Money.{Currencies, Money, no_money, money_from_minor}
use apostas_api.Transaction.{Kind, Status}
use apostas_api.WagerTransaction.{WagerTransactionData, rehydrate_wager_transaction}
use apostas_api.Database.{TransactionRow, Database, find, is_text}
use apostas_api.Store.Rows.{found}
use apostas_api.Store.Calls.{text_or_empty, reference_row}

-- `usecases.Transaction`; the pointers are options.
pub record TransactionView : Type 0 where
  pub id : Uuid
  pub external_transaction_id : String
  pub provider_id : String
  pub wallet_id : Uuid
  pub player_id : Uuid
  pub round_id : String
  pub game_id : String
  pub kind : Kind
  pub money : Money
  pub reference_external_transaction_id : String
  pub reference_transaction_id : Option Uuid
  pub status : Status
  pub failure_code : String
  pub result_balance : Option Money
  pub created_at : Time
  pub updated_at : Time

abbrev pub uuid_or_nil : Option Uuid → Uuid
uuid_or_nil none = uuid_nil
uuid_or_nil (some id) = id

abbrev pub balance_or_none : Option Money → Money
balance_or_none none = no_money
balance_or_none (some m) = m

-- The data that is validated again before it is shown.
unfoldable pub identity_of : TransactionView → Option String → Option String → WagerTransactionData
identity_of t key hash = record {
  id = t.id;
  external_transaction_id = t.external_transaction_id;
  provider_id = t.provider_id;
  idempotency_key = text_or_empty key;
  payload_hash = text_or_empty hash;
  wallet_id = t.wallet_id;
  player_id = t.player_id;
  round_id = t.round_id;
  game_id = t.game_id;
  kind = t.kind;
  money = t.money;
  reference_external_transaction_id = t.reference_external_transaction_id;
  reference_transaction_id = uuid_or_nil t.reference_transaction_id;
  status = t.status;
  failure_code = t.failure_code;
  result_balance = balance_or_none t.result_balance;
  created_at = t.created_at;
  updated_at = t.updated_at;
}

-- The fields of `transaction`, for the two amounts of the row.
abbrev pub seen : TransactionRow → Money → Option Money → TransactionView
seen row money result = record {
  id = row.id;
  external_transaction_id = text_or_empty row.external_transaction_id;
  provider_id = text_or_empty row.provider_id;
  wallet_id = row.wallet_id;
  player_id = row.player_id;
  round_id = text_or_empty row.round_id;
  game_id = text_or_empty row.game_id;
  kind = row.kind;
  money = money;
  reference_external_transaction_id = text_or_empty row.reference_external_transaction_id;
  reference_transaction_id = row.reference_transaction_id;
  status = row.status;
  failure_code = text_or_empty row.failure_code;
  result_balance = result;
  created_at = row.created_at;
  updated_at = row.updated_at;
}

module _ ⦃iso : Currencies⦄ where
  -- `if resultMinor != nil { … }`
  abbrev pub result_balance_of : Option ℤ → String → Result (Option Money)
  result_balance_of none currency = ok none
  result_balance_of (some minor) currency = do
    balance ← money_from_minor minor currency
    ok (some balance)

  -- `scanTransaction` on a row that was found.
  unfoldable pub view_row : TransactionRow → Result TransactionView
  view_row row = do
    money ← money_from_minor row.amount_minor row.currency
    result ← result_balance_of row.result_balance_minor row.currency
    let transaction : TransactionView = seen row money result
    _ ← rehydrate_wager_transaction (identity_of transaction row.idempotency_key row.payload_hash)
    ok transaction

  unfoldable pub scan_transaction : Option TransactionRow → Result TransactionView
  scan_transaction row = do t ← found row not_found; view_row t

  -- `WHERE id=$1`
  unfoldable pub get_transaction : Uuid → Database → Result TransactionView
  get_transaction id db =
      scan_transaction (find (λ (t : TransactionRow). t.id == id) db.transactions)

  -- `WHERE id=$1 AND provider_id=$2`
  unfoldable pub get_transaction_for_provider : Uuid → String → Database → Result TransactionView
  get_transaction_for_provider id provider db =
      scan_transaction (
        find (λ (t : TransactionRow). t.id == id && is_text t.provider_id provider) db.transactions)

  -- `WHERE provider_id=$1 AND external_transaction_id=$2`
  unfoldable pub get_transaction_by_external : String → String → Database → Result TransactionView
  get_transaction_by_external provider external db =
      scan_transaction (reference_row provider external db)
