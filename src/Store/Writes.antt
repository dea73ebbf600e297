-- ===== src/Store/Writes.antt =====
-- internal/infra/postgres/store.go: the statements that write wallets, transactions and ledger entries,
-- as the steps of a relation on the database.
pub mod Effects
pub mod Kept
pub mod Keys
pub mod Books
pub mod Calls
pub mod Turns
pub mod Services
pub mod Apart
pub mod Repeats
pub mod Answered
use apostas_api.Prelude.{◌≡◌, true}
use apostas_api.Prelude.Int64.{IsInt64}
use apostas_api.Result.{ok}
use apostas_api.Values.{Uuid, Time}
use apostas_api.Wallet.{Wallet}
use apostas_api.Transaction.{pending_reference}
use apostas_api.Database.{WalletRow, TransactionRow, LedgerRow, Database, exists}
use apostas_api.Database.Wallets.{has_id}
use apostas_api.Store.Rows.{insert_transaction, update_wallet, store_entry}
use apostas_api.Store.Wallets.{insert_wallet}
use apostas_api.Store.Resolve.{update_transaction}
use apostas_api.Store.Resolve.Attempts.{Among}

-- The row with another outcome: what was requested stays.
abbrev pub SameRequest : TransactionRow → TransactionRow → Type 0
SameRequest t t' = t' ≡ record t {
  status = t'.status;
  failure_code = t'.failure_code;
  reference_transaction_id = t'.reference_transaction_id;
  result_balance_minor = t'.result_balance_minor;
  attempts = t'.attempts;
  next_attempt_at = t'.next_attempt_at;
  updated_at = t'.updated_at;
}

pub data Write (db : Database) (db' : Database) : Type 0 where
  -- the messages, the events, or nothing
  elsewhere :
      db'.wallets ≡ db.wallets
      → db'.transactions ≡ db.transactions
      → db'.ledger ≡ db.ledger
      → Write db db'
  added_transaction :
      (t : TransactionRow)
      → IsInt64 t.amount_minor
      → insert_transaction t db ≡ ok db'
      → Write db db'
  -- of a transaction that waits
  changed_outcome :
      (t t' : TransactionRow)
      → Among t db.transactions
      → t.status ≡ pending_reference
      → SameRequest t t'
      → update_transaction t' db ≡ ok db'
      → Write db db'
  changed_balance :
      (id : Uuid) (w : Wallet) (now : Time) → db' ≡ update_wallet id w now db → Write db db'
  added_wallet : (row : WalletRow) → insert_wallet row db ≡ ok db' → Write db db'
  -- of a wallet that is stored
  added_entry :
      (row : LedgerRow)
      → exists (has_id row.wallet_id) db.wallets ≡ true
      → store_entry row db ≡ ok db'
      → Write db db'

-- A sequence of writes.
pub data Writes (db : Database) : Database → Type 0 where
  nothing : Writes db db
  after : {d d' : Database} → Writes db d → Write d d' → Writes db d'

pub Writes-trans : {a b c : Database} → Writes a b → Writes b c → Writes a c
Writes-trans w nothing = w
Writes-trans w (after v s) = after (Writes-trans w v) s

pub single_step : {a b : Database} → Write a b → Writes a b
single_step s = after nothing s
