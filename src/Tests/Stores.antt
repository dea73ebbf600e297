-- ===== src/Tests/Stores.antt =====
-- The store at a small database: a wallet that is opened, a bet, and messages.
use text.Mathlib.TextEquality.{eq_iff}
use apostas_api.Prelude.{
  ◌≡◌, ◌≢◌, Bool, true, false, Option, none, some, List, [], ◌∷◌, String, refl, arith, ◌⊎◌,
}
use apostas_api.Prelude.Int.{ℤ, pos, negsuc}
use apostas_api.Prelude.Int64.{IsInt64}
use apostas_api.Result.{Result, ok, err, conflict, invalid_input, ◌>>=◌}
use apostas_api.Values.{Uuid, Time}
use apostas_api.Money.{Currencies, Money, no_money, valid, valid_currency, matches_currency}
use apostas_api.Wallet.{Wallet, is_valid}
use apostas_api.Transaction.{bet, Status, failed}
use apostas_api.Wager.{Operation, decide}
use apostas_api.Database.{WalletRow, InboxRow, Database, find}
use apostas_api.Database.Wallets.{has_id, ledger_sum}
use apostas_api.Store.{Fresh, WagerResult, InboxMessage, execute}
use apostas_api.Store.Ledger.{SoundDatabase, execute-Sound}
use apostas_api.Store.Replay.{repeated, execute-again}
use apostas_api.Store.Inbox.{execute_inbox, execute_inbox-Sound}
use apostas_api.Store.Inbox.Redelivered.{execute_inbox-conflict}
use apostas_api.Store.Wallets.{create_wallet, reconcile_wallet, count_entries}
use apostas_api.Store.Opening.{create_wallet-Sound}
use apostas_api.Requests.{Canonical, canonical_operation, dispatch, process}
use apostas_api.Requests.Complete.{Complete, process_decides}
use apostas_api.Tests.{one_currency, opened, empty, bet_op, message}

-- The values of one call, from the number n on.
abbrev pub fresh_from : Uuid → Time → Fresh
fresh_from n now = record {
  now = now;
  db_now = now;
  transaction_id = n;
  entry_id = n;
  balance_event = record { id = n; at = now };
  wager_event = record { id = n; at = now };
}

abbrev pub database_of : Result Database → Database
database_of (ok db) = db
database_of (err _) = empty

abbrev pub answer_of : Result (WagerResult × Database) → WagerResult × Database
answer_of (ok r) = r
answer_of (err _) = (
  record {
    transaction_id = 0;
    status = failed;
    balance = no_money;
    failure_code = "";
    idempotent_replay = false;
  },
  empty,
)

-- A payload hash: 64 hexadecimal digits.
abbrev pub digest : String
digest = "0123456789abcdef0123456789abcdef0123456789abcdef0123456789abcdef"

-- The wallet is opened, and then the bet is placed.
abbrev pub start : Database
start = database_of (create_wallet (fresh_from 11 50) opened empty)

abbrev pub bet_answer : WagerResult × Database
bet_answer = answer_of (execute (fresh_from 21 60) bet_op digest (decide bet_op) start)

abbrev inbox_answer : WagerResult × Database
inbox_answer =
    answer_of (execute_inbox (fresh_from 21 60) message bet_op digest (decide bet_op) start)

-- A hash function for the examples: one text for every operation.
abbrev pub same_hash : Canonical → Result String
same_hash c = ok digest

pub fits_300 : IsInt64 (pos 300)
fits_300 = ground arith

pub fits_1000 : IsInt64 (pos 1000)
fits_1000 = ground arith

-- The wallet's row after the bet.
abbrev pub bet_row : WalletRow
bet_row = record {
  id = 1;
  player_id = 7;
  currency = "BRL";
  balance_minor = pos 700;
  version = pos 2;
  created_at = 50;
  updated_at = 60;
}

-- What the four calls compute.
opened_valid : is_valid opened ≡ true
unfolding is_valid valid_currency matches_currency
opened_valid = refl

starts : create_wallet (fresh_from 11 50) opened empty ≡ ok start
unfolding apostas_api.Prelude.Int.◌+ℤ◌ apostas_api.Prelude.Int.◌-ℤ◌ apostas_api.Prelude.Int64.add64
    apostas_api.Prelude.Int64.sub64 apostas_api.Prelude.Int64.wrap64 apostas_api.Strings.is_blank
    matches_currency valid_currency apostas_api.Money.money_from_minor apostas_api.Money.add
    apostas_api.Money.sub apostas_api.Money.compare is_valid apostas_api.Wallet.rehydrate_wallet
    apostas_api.Wallet.credit apostas_api.Wallet.debit apostas_api.LedgerEntry.new_ledger_entry
    apostas_api.Transaction.check_kind apostas_api.Transaction.validate_operation
    apostas_api.Transaction.rehydrate_transaction_state apostas_api.Transaction.transition
    apostas_api.WagerTransaction.bad_code apostas_api.WagerTransaction.bad_reference
    apostas_api.WagerTransaction.bad_identity apostas_api.WagerTransaction.bad_result
    apostas_api.WagerTransaction.bad_failure apostas_api.WagerTransaction.bad_opening
    apostas_api.WagerTransaction.bad_texts apostas_api.WagerTransaction.bad_balance
    apostas_api.WagerTransaction.validate_wager_transaction
    apostas_api.WagerTransaction.new_wager_transaction
    apostas_api.WagerTransaction.new_opening_transaction apostas_api.WagerTransaction.transition_to
    apostas_api.Wager.conclude apostas_api.Wager.move_balance apostas_api.Wager.check_reference
    decide apostas_api.Events.new_wallet_balance_changed
    apostas_api.Events.new_wager_transaction_processed find apostas_api.Database.exists
    apostas_api.Database.update apostas_api.Database.clashes apostas_api.Database.ledger_clashes
    apostas_api.Database.wallet_clashes ledger_sum apostas_api.Store.insert_transaction
    apostas_api.Store.update_wallet apostas_api.Store.add_event apostas_api.Store.add_wager_event
    apostas_api.Store.store_entry apostas_api.Store.insert_ledger
    apostas_api.Store.add_balance_event apostas_api.Store.load_wallet
    apostas_api.Store.find_existing apostas_api.Store.load_reference apostas_api.Store.new_row
    apostas_api.Store.move_funds apostas_api.Store.settle_transaction
    apostas_api.Store.record_decision apostas_api.Store.execute_new apostas_api.Store.execute_tx
    execute apostas_api.Store.Wallets.insert_wallet apostas_api.Store.Wallets.post_opening
    create_wallet count_entries apostas_api.Store.Inbox.receive apostas_api.Store.Inbox.complete
    execute_inbox process
starts = refl

pub bets : execute (fresh_from 21 60) bet_op digest (decide bet_op) start ≡ ok bet_answer
unfolding apostas_api.Prelude.Int.◌+ℤ◌ apostas_api.Prelude.Int.◌-ℤ◌ apostas_api.Prelude.Int64.add64
    apostas_api.Prelude.Int64.sub64 apostas_api.Prelude.Int64.wrap64 apostas_api.Strings.is_blank
    matches_currency valid_currency apostas_api.Money.money_from_minor apostas_api.Money.add
    apostas_api.Money.sub apostas_api.Money.compare is_valid apostas_api.Wallet.rehydrate_wallet
    apostas_api.Wallet.credit apostas_api.Wallet.debit apostas_api.LedgerEntry.new_ledger_entry
    apostas_api.Transaction.check_kind apostas_api.Transaction.validate_operation
    apostas_api.Transaction.rehydrate_transaction_state apostas_api.Transaction.transition
    apostas_api.WagerTransaction.bad_code apostas_api.WagerTransaction.bad_reference
    apostas_api.WagerTransaction.bad_identity apostas_api.WagerTransaction.bad_result
    apostas_api.WagerTransaction.bad_failure apostas_api.WagerTransaction.bad_opening
    apostas_api.WagerTransaction.bad_texts apostas_api.WagerTransaction.bad_balance
    apostas_api.WagerTransaction.validate_wager_transaction
    apostas_api.WagerTransaction.new_wager_transaction
    apostas_api.WagerTransaction.new_opening_transaction apostas_api.WagerTransaction.transition_to
    apostas_api.Wager.conclude apostas_api.Wager.move_balance apostas_api.Wager.check_reference
    decide apostas_api.Events.new_wallet_balance_changed
    apostas_api.Events.new_wager_transaction_processed find apostas_api.Database.exists
    apostas_api.Database.update apostas_api.Database.clashes apostas_api.Database.ledger_clashes
    apostas_api.Database.wallet_clashes ledger_sum apostas_api.Store.insert_transaction
    apostas_api.Store.update_wallet apostas_api.Store.add_event apostas_api.Store.add_wager_event
    apostas_api.Store.store_entry apostas_api.Store.insert_ledger
    apostas_api.Store.add_balance_event apostas_api.Store.load_wallet
    apostas_api.Store.find_existing apostas_api.Store.load_reference apostas_api.Store.new_row
    apostas_api.Store.move_funds apostas_api.Store.settle_transaction
    apostas_api.Store.record_decision apostas_api.Store.execute_new apostas_api.Store.execute_tx
    execute apostas_api.Store.Wallets.insert_wallet apostas_api.Store.Wallets.post_opening
    create_wallet count_entries apostas_api.Store.Inbox.receive apostas_api.Store.Inbox.complete
    execute_inbox process
bets = refl

receives :
    execute_inbox (fresh_from 21 60) message bet_op digest (decide bet_op) start ≡ ok inbox_answer
unfolding apostas_api.Prelude.Int.◌+ℤ◌ apostas_api.Prelude.Int.◌-ℤ◌ apostas_api.Prelude.Int64.add64
    apostas_api.Prelude.Int64.sub64 apostas_api.Prelude.Int64.wrap64 apostas_api.Strings.is_blank
    matches_currency valid_currency apostas_api.Money.money_from_minor apostas_api.Money.add
    apostas_api.Money.sub apostas_api.Money.compare is_valid apostas_api.Wallet.rehydrate_wallet
    apostas_api.Wallet.credit apostas_api.Wallet.debit apostas_api.LedgerEntry.new_ledger_entry
    apostas_api.Transaction.check_kind apostas_api.Transaction.validate_operation
    apostas_api.Transaction.rehydrate_transaction_state apostas_api.Transaction.transition
    apostas_api.WagerTransaction.bad_code apostas_api.WagerTransaction.bad_reference
    apostas_api.WagerTransaction.bad_identity apostas_api.WagerTransaction.bad_result
    apostas_api.WagerTransaction.bad_failure apostas_api.WagerTransaction.bad_opening
    apostas_api.WagerTransaction.bad_texts apostas_api.WagerTransaction.bad_balance
    apostas_api.WagerTransaction.validate_wager_transaction
    apostas_api.WagerTransaction.new_wager_transaction
    apostas_api.WagerTransaction.new_opening_transaction apostas_api.WagerTransaction.transition_to
    apostas_api.Wager.conclude apostas_api.Wager.move_balance apostas_api.Wager.check_reference
    decide apostas_api.Events.new_wallet_balance_changed
    apostas_api.Events.new_wager_transaction_processed find apostas_api.Database.exists
    apostas_api.Database.update apostas_api.Database.clashes apostas_api.Database.ledger_clashes
    apostas_api.Database.wallet_clashes ledger_sum apostas_api.Store.insert_transaction
    apostas_api.Store.update_wallet apostas_api.Store.add_event apostas_api.Store.add_wager_event
    apostas_api.Store.store_entry apostas_api.Store.insert_ledger
    apostas_api.Store.add_balance_event apostas_api.Store.load_wallet
    apostas_api.Store.find_existing apostas_api.Store.load_reference apostas_api.Store.new_row
    apostas_api.Store.move_funds apostas_api.Store.settle_transaction
    apostas_api.Store.record_decision apostas_api.Store.execute_new apostas_api.Store.execute_tx
    execute apostas_api.Store.Wallets.insert_wallet apostas_api.Store.Wallets.post_opening
    create_wallet count_entries apostas_api.Store.Inbox.receive apostas_api.Store.Inbox.complete
    execute_inbox process
receives = refl

pub bet_row_stored : find (has_id 1) bet_answer.1.wallets ≡ some bet_row
unfolding apostas_api.Prelude.Int.◌+ℤ◌ apostas_api.Prelude.Int.◌-ℤ◌ apostas_api.Prelude.Int64.add64
    apostas_api.Prelude.Int64.sub64 apostas_api.Prelude.Int64.wrap64 apostas_api.Strings.is_blank
    matches_currency valid_currency apostas_api.Money.money_from_minor apostas_api.Money.add
    apostas_api.Money.sub apostas_api.Money.compare is_valid apostas_api.Wallet.rehydrate_wallet
    apostas_api.Wallet.credit apostas_api.Wallet.debit apostas_api.LedgerEntry.new_ledger_entry
    apostas_api.Transaction.check_kind apostas_api.Transaction.validate_operation
    apostas_api.Transaction.rehydrate_transaction_state apostas_api.Transaction.transition
    apostas_api.WagerTransaction.bad_code apostas_api.WagerTransaction.bad_reference
    apostas_api.WagerTransaction.bad_identity apostas_api.WagerTransaction.bad_result
    apostas_api.WagerTransaction.bad_failure apostas_api.WagerTransaction.bad_opening
    apostas_api.WagerTransaction.bad_texts apostas_api.WagerTransaction.bad_balance
    apostas_api.WagerTransaction.validate_wager_transaction
    apostas_api.WagerTransaction.new_wager_transaction
    apostas_api.WagerTransaction.new_opening_transaction apostas_api.WagerTransaction.transition_to
    apostas_api.Wager.conclude apostas_api.Wager.move_balance apostas_api.Wager.check_reference
    decide apostas_api.Events.new_wallet_balance_changed
    apostas_api.Events.new_wager_transaction_processed find apostas_api.Database.exists
    apostas_api.Database.update apostas_api.Database.clashes apostas_api.Database.ledger_clashes
    apostas_api.Database.wallet_clashes ledger_sum apostas_api.Store.insert_transaction
    apostas_api.Store.update_wallet apostas_api.Store.add_event apostas_api.Store.add_wager_event
    apostas_api.Store.store_entry apostas_api.Store.insert_ledger
    apostas_api.Store.add_balance_event apostas_api.Store.load_wallet
    apostas_api.Store.find_existing apostas_api.Store.load_reference apostas_api.Store.new_row
    apostas_api.Store.move_funds apostas_api.Store.settle_transaction
    apostas_api.Store.record_decision apostas_api.Store.execute_new apostas_api.Store.execute_tx
    execute apostas_api.Store.Wallets.insert_wallet apostas_api.Store.Wallets.post_opening
    create_wallet count_entries apostas_api.Store.Inbox.receive apostas_api.Store.Inbox.complete
    execute_inbox process
bet_row_stored = refl

two_entries : count_entries 1 bet_answer.1.ledger ≡ 2
unfolding apostas_api.Prelude.Int.◌+ℤ◌ apostas_api.Prelude.Int.◌-ℤ◌ apostas_api.Prelude.Int64.add64
    apostas_api.Prelude.Int64.sub64 apostas_api.Prelude.Int64.wrap64 apostas_api.Strings.is_blank
    matches_currency valid_currency apostas_api.Money.money_from_minor apostas_api.Money.add
    apostas_api.Money.sub apostas_api.Money.compare is_valid apostas_api.Wallet.rehydrate_wallet
    apostas_api.Wallet.credit apostas_api.Wallet.debit apostas_api.LedgerEntry.new_ledger_entry
    apostas_api.Transaction.check_kind apostas_api.Transaction.validate_operation
    apostas_api.Transaction.rehydrate_transaction_state apostas_api.Transaction.transition
    apostas_api.WagerTransaction.bad_code apostas_api.WagerTransaction.bad_reference
    apostas_api.WagerTransaction.bad_identity apostas_api.WagerTransaction.bad_result
    apostas_api.WagerTransaction.bad_failure apostas_api.WagerTransaction.bad_opening
    apostas_api.WagerTransaction.bad_texts apostas_api.WagerTransaction.bad_balance
    apostas_api.WagerTransaction.validate_wager_transaction
    apostas_api.WagerTransaction.new_wager_transaction
    apostas_api.WagerTransaction.new_opening_transaction apostas_api.WagerTransaction.transition_to
    apostas_api.Wager.conclude apostas_api.Wager.move_balance apostas_api.Wager.check_reference
    decide apostas_api.Events.new_wallet_balance_changed
    apostas_api.Events.new_wager_transaction_processed find apostas_api.Database.exists
    apostas_api.Database.update apostas_api.Database.clashes apostas_api.Database.ledger_clashes
    apostas_api.Database.wallet_clashes ledger_sum apostas_api.Store.insert_transaction
    apostas_api.Store.update_wallet apostas_api.Store.add_event apostas_api.Store.add_wager_event
    apostas_api.Store.store_entry apostas_api.Store.insert_ledger
    apostas_api.Store.add_balance_event apostas_api.Store.load_wallet
    apostas_api.Store.find_existing apostas_api.Store.load_reference apostas_api.Store.new_row
    apostas_api.Store.move_funds apostas_api.Store.settle_transaction
    apostas_api.Store.record_decision apostas_api.Store.execute_new apostas_api.Store.execute_tx
    execute apostas_api.Store.Wallets.insert_wallet apostas_api.Store.Wallets.post_opening
    create_wallet count_entries apostas_api.Store.Inbox.receive apostas_api.Store.Inbox.complete
    execute_inbox process
two_entries = refl

unused : ledger_sum 1 [] ≡ pos 0
unfolding ledger_sum
unused = refl

pub bet_currency_valid : valid_currency bet_row.currency ≡ true
unfolding valid_currency matches_currency
bet_currency_valid = refl

empty-Sound : SoundDatabase empty
unfolding find
empty-Sound = record { reconciled = λ id w h. cc; bigints = λ id w h. cc }

create_wallet-Sound_example : SoundDatabase start
create_wallet-Sound_example =
    create_wallet-Sound (fresh_from 11 50) opened empty {db' = start} opened_valid fits_1000 unused
      empty-Sound starts

pub start-Sound : SoundDatabase start
start-Sound =
    create_wallet-Sound (fresh_from 11 50) opened empty {db' = start} opened_valid fits_1000 unused
      empty-Sound starts

bet_answer-Sound : SoundDatabase bet_answer.1
bet_answer-Sound =
    execute-Sound (fresh_from 21 60) bet_op digest start {r = bet_answer} fits_300 start-Sound bets

execute-Sound_example : SoundDatabase bet_answer.1
execute-Sound_example =
    execute-Sound (fresh_from 21 60) bet_op digest start {r = bet_answer} fits_300 start-Sound bets

execute-again_example :
    execute (fresh_from 41 90) bet_op digest (decide bet_op) bet_answer.1
    ≡ ok (repeated bet_answer.0, bet_answer.1)
execute-again_example =
    execute-again (fresh_from 21 60) (fresh_from 41 90) bet_op digest (decide bet_op) start fits_300
      {r = bet_answer} start-Sound bets

abbrev other_payload : InboxMessage
other_payload = record message { payload_hash = "another" }

other_payload_differs : other_payload.payload_hash ≢ message.payload_hash
other_payload_differs h = cc ((eq_iff "another" "payload").1 h)

execute_inbox-conflict_example :
    execute_inbox (fresh_from 41 90) other_payload bet_op digest (decide bet_op) inbox_answer.1
    ≡ err conflict
execute_inbox-conflict_example =
    execute_inbox-conflict (fresh_from 21 60) message bet_op digest (decide bet_op) start
      (fresh_from 41 90) other_payload bet_op digest (decide bet_op) {r = inbox_answer} receives
      refl refl other_payload_differs

process_decides_example :
    (Complete bet_op
      × (process same_hash (fresh_from 21 60) none bet_op start ≡ (
          same_hash (canonical_operation bet_op) >>= λ sum.
          dispatch (fresh_from 21 60) none bet_op sum start)))
    ⊎ ((Complete bet_op → ⊥)
        × (process same_hash (fresh_from 21 60) none bet_op start ≡ err invalid_input))
process_decides_example = process_decides bet_op same_hash (fresh_from 21 60) none start
