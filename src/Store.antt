-- ===== src/Store.antt =====
-- internal/infra/postgres/store.go: the statements of one call as a function on the database. An
-- error drops the transaction, so only a successful call has a new database. The values of
-- uuid.New() and of the clocks are arguments. Errors of the driver itself are not modelled.
mod Rows
mod Calls
pub mod Wallets
pub mod Inbox
pub mod Opening
pub mod Reconciliation
pub mod Ledger
pub mod Replay
pub mod Resolve
pub mod Outbox
pub mod Pages
pub mod Reads
pub mod Writes
pub use Rows.{Fresh}
unfoldable pub use Rows.{
  store_entry, insert_transaction, update_wallet, add_event, add_wager_event, insert_ledger,
  add_balance_event, load_wallet,
}
pub use Calls.{Decide, WagerResult, InboxMessage, is_same_request}
unfoldable pub use Calls.{
  find_existing, replay, load_reference, new_row, move_funds, settle_transaction, record_decision,
  execute_new, execute_tx, execute,
}
