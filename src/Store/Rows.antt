-- ===== src/Store/Rows.antt =====
-- The parts of a transaction that the store's calls share.
use apostas_api.Prelude.{Option, none, some, ◌∷◌, String}
use apostas_api.Prelude.Int.{ℤ}
use apostas_api.Prelude.Eq.{nat_eq, string_eq}
use apostas_api.Result.{
  Error, Result, ok, err, conflict, not_found, other_error, invalid_transaction, fail_if, ◌>>◌,
  ◌>>=◌,
}
use apostas_api.Values.{Uuid, Time}
use apostas_api.Money.{Currencies, Money, money_from_minor}
use apostas_api.Wallet.{Wallet, rehydrate_wallet}
use apostas_api.LedgerEntry.{Direction, LedgerEntry, new_ledger_entry}
use apostas_api.Transaction.{
  Kind, Status, processed, rejected, pending_reference, failed, kind_eq, status_eq,
}
use apostas_api.Events.{
  Event, Stamp, new_wallet_balance_changed, new_wager_transaction_processed,
  new_wager_transaction_rejected, new_wager_transaction_pending_reference,
}
use apostas_api.Database.{
  WalletRow, TransactionRow, LedgerRow, Database, find, exists, update, clashes, ledger_clashes,
}
use apostas_api.Database.Wallets.{has_id}

-- What `uuid.New()` and the clocks give in one call: `time.Now().UTC()`, the database's now(), the
-- new identifiers, and the stamps of the two events.
pub record Fresh : Type 0 where
  pub now : Time
  pub db_now : Time
  pub transaction_id : Uuid
  pub entry_id : Uuid
  pub balance_event : Stamp
  pub wager_event : Stamp

abbrev pub found {ℓ} : {A : Type ℓ} → Option A → Error → Result A
found none e = err e
found (some a) e = ok a

-- A `Scan` of a column into a variable that cannot hold NULL.
abbrev pub scan {ℓ} : {A : Type ℓ} → Option A → Result A
scan o = found o other_error

-- The INSERT into `wager_transactions`. `classify` turns a unique violation into ErrConflict.
unfoldable pub insert_transaction : TransactionRow → Database → Result Database
insert_transaction t db = do
  fail_if (exists (clashes t) db.transactions) conflict
  ok (record db { transactions = t ∷ db.transactions })

-- `UPDATE wallets SET balance_minor=…,version=…,updated_at=… WHERE id=…`
unfoldable pub update_wallet : Uuid → Wallet → Time → Database → Database
update_wallet id w now db = record db {
  wallets =
      update (has_id id)
        (λ (row : WalletRow). record row {
          balance_minor = w.balance.minor;
          version = w.version;
          updated_at = now;
        })
        db.wallets;
}

unfoldable pub add_event : Fresh → Event → Database → Database
add_event fresh event db = record db {
  outbox =
      record {
        event = event;
        occurred_at = fresh.db_now;
        attempts = 0;
        next_attempt_at = fresh.db_now;
        published_at = none;
        claimed_until = none;
      }
      ∷ db.outbox;
}

unfoldable pub add_wager_event :
    Fresh → String → Uuid → Uuid → String → Kind → Status → String → Database → Result Database
add_wager_event fresh causation wallet_id transaction_id provider kind processed failure db = ok (
    add_event fresh
      (new_wager_transaction_processed fresh.wager_event wallet_id transaction_id provider kind
        causation)
      db)
add_wager_event fresh causation wallet_id transaction_id provider kind rejected failure db = ok (
    add_event fresh
      (new_wager_transaction_rejected fresh.wager_event wallet_id transaction_id provider kind
        failure causation)
      db)
add_wager_event fresh causation wallet_id transaction_id provider kind pending_reference failure
      db =
    ok (
      add_event fresh
        (new_wager_transaction_pending_reference fresh.wager_event wallet_id transaction_id provider
          kind causation)
        db)
add_wager_event fresh causation wallet_id transaction_id provider kind failed failure db = ok db
add_wager_event fresh causation wallet_id transaction_id provider kind _ failure db =
    err invalid_transaction

abbrev pub ledger_row : LedgerEntry → ℤ → LedgerRow
ledger_row entry version = record {
  id = entry.id;
  wallet_id = entry.wallet_id;
  transaction_id = entry.transaction_id;
  direction = entry.direction;
  amount_minor = entry.money.minor;
  balance_before_minor = entry.balance_before.minor;
  balance_after_minor = entry.balance_after.minor;
  wallet_version = version;
  created_at = entry.created_at;
}

-- The INSERT into `wallet_ledger_entries`.
unfoldable pub store_entry : LedgerRow → Database → Result Database
store_entry row db = do
  fail_if (exists (ledger_clashes row) db.ledger) other_error
  ok (record db { ledger = row ∷ db.ledger })

module _ ⦃iso : Currencies⦄ where
  unfoldable pub insert_ledger :
      Fresh
      → Uuid
      → Uuid
      → Direction
      → Money
      → Money
      → Money
      → ℤ
      → Time
      → Database
      → Result Database
  insert_ledger fresh wallet_id transaction_id direction money before after version at db = do
    entry ← new_ledger_entry fresh.entry_id wallet_id transaction_id direction money before after at
    store_entry (ledger_row entry version) db

  unfoldable pub add_balance_event :
      Fresh
      → String
      → Uuid
      → Uuid
      → Direction
      → Money
      → Money
      → Money
      → ℤ
      → Database
      → Result Database
  add_balance_event fresh causation wallet_id transaction_id direction money before after version
        db =
      do
        event ←
            new_wallet_balance_changed fresh.balance_event
              (record {
                wallet_id = wallet_id;
                transaction_id = transaction_id;
                direction = direction;
                money = money;
                balance_before = before;
                balance_after = after;
                wallet_version = version;
              })
              causation
        ok (add_event fresh event db)

  -- `SELECT … FROM wallets WHERE id=$1 FOR UPDATE`, and the wallet of the row.
  unfoldable pub load_wallet : Uuid → Database → Result Wallet
  load_wallet id db = do
    row ← found (find (has_id id) db.wallets) not_found
    balance ← money_from_minor row.balance_minor row.currency
    rehydrate_wallet id row.player_id balance row.version row.created_at row.updated_at
