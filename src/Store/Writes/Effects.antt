-- ===== src/Store/Writes/Effects.antt =====
-- internal/infra/postgres/store.go: what each statement does to the three tables of money.
use apostas_api.Prelude.{◌≡◌, false, ◌&&◌, ◌∷◌, arith, List}
use apostas_api.Prelude.Eq.{◌!=◌, nat_eq}
use apostas_api.Result.{ok}
use apostas_api.Database.{
  WalletRow, TransactionRow, LedgerRow, Database, exists, update, clashes, ledger_clashes,
  wallet_clashes,
}
use apostas_api.Store.Rows.{insert_transaction, store_entry}
use apostas_api.Store.Wallets.{insert_wallet}
use apostas_api.Store.Resolve.{same_id, update_transaction}

abbrev pub Tables : Database → List WalletRow → List TransactionRow → List LedgerRow → Type 0
Tables db ws ts es = (db.wallets ≡ ws) × (db.transactions ≡ ts) × (db.ledger ≡ es)

pub insert_transaction-Tables :
    (t : TransactionRow) (db : Database) {db' : Database}
    → insert_transaction t db ≡ ok db'
    → Tables db' db.wallets (t ∷ db.transactions) db.ledger
      × (exists (clashes t) db.transactions ≡ false)
unfolding insert_transaction
insert_transaction-Tables t db h = ground arith

pub update_transaction-Tables :
    (t : TransactionRow) (db : Database) {db' : Database}
    → update_transaction t db ≡ ok db'
    → Tables db' db.wallets (update (same_id t.id) (λ _. t) db.transactions) db.ledger
      × (exists (λ (u : TransactionRow). u.id != t.id && clashes t u) db.transactions ≡ false)
unfolding update_transaction
update_transaction-Tables t db h = ground arith

pub store_entry-Tables :
    (e : LedgerRow) (db : Database) {db' : Database}
    → store_entry e db ≡ ok db'
    → Tables db' db.wallets db.transactions (e ∷ db.ledger)
      × (exists (ledger_clashes e) db.ledger ≡ false)
unfolding store_entry
store_entry-Tables e db h = ground arith

pub insert_wallet-Tables :
    (row : WalletRow) (db : Database) {db' : Database}
    → insert_wallet row db ≡ ok db'
    → Tables db' (row ∷ db.wallets) db.transactions db.ledger
      × (exists (wallet_clashes row) db.wallets ≡ false)
unfolding insert_wallet
insert_wallet-Tables row db h = ground arith
