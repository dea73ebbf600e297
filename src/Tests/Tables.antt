-- ===== src/Tests/Tables.antt =====
-- The store's other calls at the same database: reads, pages, waiting references and the outbox.
use apostas_api.Prelude.{
  ◌≡◌, ◌≢◌, ◌<◌, ◌≤◌, ◌+◌, ◌||◌, ◌&&◌, ℕ, Bool, true, false, Option, none, some, List, [], ◌∷◌,
  String, map, length, refl, arith,
}
use apostas_api.Prelude.Int.{pos}
use apostas_api.Result.{Result, ok, err}
use apostas_api.Money.{Currencies}
use apostas_api.Transaction.{refund, pending_reference}
use apostas_api.Wager.{decide}
use apostas_api.Database.{TransactionRow, Database, update}
use apostas_api.Store.{Fresh}
use apostas_api.Store.Ledger.{SoundDatabase}
use apostas_api.Store.Reads.Answers.{ReadBack, execute-ReadBack}
use apostas_api.Store.Pages.Order.{UniqueEntries, history}
use apostas_api.Store.Pages.Cuts.{shown}
use apostas_api.Store.Pages.Walk.{walk, walk-history}
use apostas_api.Store.Resolve.{resolve_pending, attempt, same_id}
use apostas_api.Store.Resolve.Books.{BigintAmounts, resolve_pending-Sound}
use apostas_api.Store.Resolve.Attempts.{Turn, UniqueIds, all_turns, attempt-Turn}
use apostas_api.Store.Outbox.{claim_outbox, mark_published, claim_time, OutboxEvent}
use apostas_api.Store.Outbox.Claims.{has_event, published, ready}
use apostas_api.Store.Outbox.Held.{
  OutboxSteps, no_step, and_step, claims, marks, claim_outbox-exclusive,
}
use apostas_api.Workers.Resolver.{run_resolver, run_resolver_ends}
use apostas_api.Workers.Publisher.{Sending, publish}
use apostas_api.Workers.Publisher.Delivery.{accepted, publish-published}
use apostas_api.Tests.{one_currency, bet_op}
use apostas_api.Tests.Stores.{
  fresh_from, digest, start, bet_answer, bet_row, bets, start-Sound, bet_row_stored,
  bet_currency_valid,
}

bet_is_new : bet_answer.0.idempotent_replay ≡ false
unfolding apostas_api.Prelude.Int.◌+ℤ◌ apostas_api.Prelude.Int.◌-ℤ◌ apostas_api.Prelude.Int64.add64
    apostas_api.Prelude.Int64.sub64 apostas_api.Prelude.Int64.wrap64 apostas_api.Strings.is_blank
    apostas_api.Money.matches_currency apostas_api.Money.valid_currency
    apostas_api.Money.money_from_minor apostas_api.Money.add apostas_api.Money.sub
    apostas_api.Money.compare apostas_api.Wallet.is_valid apostas_api.Wallet.rehydrate_wallet
    apostas_api.Wallet.credit apostas_api.Wallet.debit apostas_api.LedgerEntry.new_ledger_entry
    apostas_api.Transaction.check_kind apostas_api.Transaction.validate_operation
    apostas_api.Transaction.rehydrate_transaction_state apostas_api.Transaction.transition
    apostas_api.WagerTransaction.bad_code apostas_api.WagerTransaction.bad_reference
    apostas_api.WagerTransaction.bad_identity apostas_api.WagerTransaction.bad_result
    apostas_api.WagerTransaction.bad_failure apostas_api.WagerTransaction.bad_opening
    apostas_api.WagerTransaction.bad_texts apostas_api.WagerTransaction.bad_balance
    apostas_api.WagerTransaction.validate_wager_transaction
    apostas_api.WagerTransaction.new_wager_transaction
    apostas_api.WagerTransaction.new_opening_transaction apostas_api.WagerTransaction.transition_to
    apostas_api.Wager.conclude apostas_api.Wager.move_balance apostas_api.Wager.check_reference
    apostas_api.Wager.decide apostas_api.Events.new_wallet_balance_changed
    apostas_api.Events.new_wager_transaction_processed apostas_api.Database.find
    apostas_api.Database.exists apostas_api.Database.update apostas_api.Database.clashes
    apostas_api.Database.ledger_clashes apostas_api.Database.wallet_clashes
    apostas_api.Database.Wallets.ledger_sum apostas_api.Store.insert_transaction
    apostas_api.Store.update_wallet apostas_api.Store.add_event apostas_api.Store.add_wager_event
    apostas_api.Store.store_entry apostas_api.Store.insert_ledger
    apostas_api.Store.add_balance_event apostas_api.Store.load_wallet
    apostas_api.Store.find_existing apostas_api.Store.load_reference apostas_api.Store.new_row
    apostas_api.Store.move_funds apostas_api.Store.settle_transaction
    apostas_api.Store.record_decision apostas_api.Store.execute_new apostas_api.Store.execute_tx
    apostas_api.Store.execute apostas_api.Store.Wallets.insert_wallet
    apostas_api.Store.Wallets.post_opening apostas_api.Store.Wallets.create_wallet
    apostas_api.Store.Wallets.count_entries apostas_api.Store.Inbox.receive
    apostas_api.Store.Inbox.complete apostas_api.Store.Inbox.execute_inbox
    apostas_api.Requests.process
bet_is_new = refl

clock_set : (fresh_from 21 60).db_now ≢ 0
clock_set = omega arith

execute-ReadBack_example : ReadBack bet_op 60 bet_answer
execute-ReadBack_example =
    execute-ReadBack (fresh_from 21 60) bet_op digest (decide bet_op) start {r = bet_answer}
      clock_set bet_is_new bets

bet_entries_unique : UniqueEntries bet_answer.1.ledger
unfolding apostas_api.Prelude.Int.◌+ℤ◌ apostas_api.Prelude.Int.◌-ℤ◌ apostas_api.Prelude.Int64.add64
    apostas_api.Prelude.Int64.sub64 apostas_api.Prelude.Int64.wrap64 apostas_api.Strings.is_blank
    apostas_api.Money.matches_currency apostas_api.Money.valid_currency
    apostas_api.Money.money_from_minor apostas_api.Money.add apostas_api.Money.sub
    apostas_api.Money.compare apostas_api.Wallet.is_valid apostas_api.Wallet.rehydrate_wallet
    apostas_api.Wallet.credit apostas_api.Wallet.debit apostas_api.LedgerEntry.new_ledger_entry
    apostas_api.Transaction.check_kind apostas_api.Transaction.validate_operation
    apostas_api.Transaction.rehydrate_transaction_state apostas_api.Transaction.transition
    apostas_api.WagerTransaction.bad_code apostas_api.WagerTransaction.bad_reference
    apostas_api.WagerTransaction.bad_identity apostas_api.WagerTransaction.bad_result
    apostas_api.WagerTransaction.bad_failure apostas_api.WagerTransaction.bad_opening
    apostas_api.WagerTransaction.bad_texts apostas_api.WagerTransaction.bad_balance
    apostas_api.WagerTransaction.validate_wager_transaction
    apostas_api.WagerTransaction.new_wager_transaction
    apostas_api.WagerTransaction.new_opening_transaction apostas_api.WagerTransaction.transition_to
    apostas_api.Wager.conclude apostas_api.Wager.move_balance apostas_api.Wager.check_reference
    apostas_api.Wager.decide apostas_api.Events.new_wallet_balance_changed
    apostas_api.Events.new_wager_transaction_processed apostas_api.Database.find
    apostas_api.Database.exists apostas_api.Database.update apostas_api.Database.clashes
    apostas_api.Database.ledger_clashes apostas_api.Database.wallet_clashes
    apostas_api.Database.Wallets.ledger_sum apostas_api.Store.insert_transaction
    apostas_api.Store.update_wallet apostas_api.Store.add_event apostas_api.Store.add_wager_event
    apostas_api.Store.store_entry apostas_api.Store.insert_ledger
    apostas_api.Store.add_balance_event apostas_api.Store.load_wallet
    apostas_api.Store.find_existing apostas_api.Store.load_reference apostas_api.Store.new_row
    apostas_api.Store.move_funds apostas_api.Store.settle_transaction
    apostas_api.Store.record_decision apostas_api.Store.execute_new apostas_api.Store.execute_tx
    apostas_api.Store.execute apostas_api.Store.Wallets.insert_wallet
    apostas_api.Store.Wallets.post_opening apostas_api.Store.Wallets.create_wallet
    apostas_api.Store.Wallets.count_entries apostas_api.Store.Inbox.receive
    apostas_api.Store.Inbox.complete apostas_api.Store.Inbox.execute_inbox
    apostas_api.Requests.process
bet_entries_unique = (refl, (refl, tt))

two_in_history : length (history 1 bet_answer.1) < 3
unfolding apostas_api.Prelude.Int.◌+ℤ◌ apostas_api.Prelude.Int.◌-ℤ◌ apostas_api.Prelude.Int64.add64
    apostas_api.Prelude.Int64.sub64 apostas_api.Prelude.Int64.wrap64 apostas_api.Strings.is_blank
    apostas_api.Money.matches_currency apostas_api.Money.valid_currency
    apostas_api.Money.money_from_minor apostas_api.Money.add apostas_api.Money.sub
    apostas_api.Money.compare apostas_api.Wallet.is_valid apostas_api.Wallet.rehydrate_wallet
    apostas_api.Wallet.credit apostas_api.Wallet.debit apostas_api.LedgerEntry.new_ledger_entry
    apostas_api.Transaction.check_kind apostas_api.Transaction.validate_operation
    apostas_api.Transaction.rehydrate_transaction_state apostas_api.Transaction.transition
    apostas_api.WagerTransaction.bad_code apostas_api.WagerTransaction.bad_reference
    apostas_api.WagerTransaction.bad_identity apostas_api.WagerTransaction.bad_result
    apostas_api.WagerTransaction.bad_failure apostas_api.WagerTransaction.bad_opening
    apostas_api.WagerTransaction.bad_texts apostas_api.WagerTransaction.bad_balance
    apostas_api.WagerTransaction.validate_wager_transaction
    apostas_api.WagerTransaction.new_wager_transaction
    apostas_api.WagerTransaction.new_opening_transaction apostas_api.WagerTransaction.transition_to
    apostas_api.Wager.conclude apostas_api.Wager.move_balance apostas_api.Wager.check_reference
    apostas_api.Wager.decide apostas_api.Events.new_wallet_balance_changed
    apostas_api.Events.new_wager_transaction_processed apostas_api.Database.find
    apostas_api.Database.exists apostas_api.Database.update apostas_api.Database.clashes
    apostas_api.Database.ledger_clashes apostas_api.Database.wallet_clashes
    apostas_api.Database.Wallets.ledger_sum apostas_api.Store.insert_transaction
    apostas_api.Store.update_wallet apostas_api.Store.add_event apostas_api.Store.add_wager_event
    apostas_api.Store.store_entry apostas_api.Store.insert_ledger
    apostas_api.Store.add_balance_event apostas_api.Store.load_wallet
    apostas_api.Store.find_existing apostas_api.Store.load_reference apostas_api.Store.new_row
    apostas_api.Store.move_funds apostas_api.Store.settle_transaction
    apostas_api.Store.record_decision apostas_api.Store.execute_new apostas_api.Store.execute_tx
    apostas_api.Store.execute apostas_api.Store.Wallets.insert_wallet
    apostas_api.Store.Wallets.post_opening apostas_api.Store.Wallets.create_wallet
    apostas_api.Store.Wallets.count_entries apostas_api.Store.Inbox.receive
    apostas_api.Store.Inbox.complete apostas_api.Store.Inbox.execute_inbox
    apostas_api.Requests.process apostas_api.Database.Query.sort_by
    apostas_api.Database.Query.select apostas_api.Database.Query.insert_by
    apostas_api.Database.Query.take
two_in_history = omega arith

walk-history_example :
    walk 3 1 none 1 bet_answer.1 ≡ ok (map (shown "BRL") (history 1 bet_answer.1))
walk-history_example =
    walk-history 1 bet_answer.1 bet_row bet_row_stored bet_currency_valid bet_entries_unique 0 3
      two_in_history

-- A refund that waits for a bet that is not stored.
abbrev parked : TransactionRow
parked = record {
  id = 31;
  external_transaction_id = some "refund-1";
  provider_id = some "p";
  idempotency_key = some "key-2";
  payload_hash = some digest;
  wallet_id = 1;
  player_id = 7;
  round_id = some "r";
  game_id = some "g";
  kind = refund;
  amount_minor = pos 300;
  currency = "BRL";
  reference_external_transaction_id = some "bet-9";
  reference_transaction_id = none;
  status = pending_reference;
  failure_code = none;
  result_balance_minor = some (pos 1000);
  attempts = 0;
  next_attempt_at = some 55;
  created_at = 54;
  updated_at = 54;
}

abbrev waiting : Database
waiting = record start { transactions = parked ∷ start.transactions }

abbrev round_of : Result (Bool × Database) → Bool × Database
round_of (ok r) = r
round_of (err e) = (false, start)

abbrev retried : Bool × Database
retried = round_of (resolve_pending (fresh_from 41 60) waiting)

abbrev book_of : Result Database → Database
book_of (ok db) = db
book_of (err e) = start

abbrev attempted : Database
attempted = book_of (attempt (fresh_from 41 60) parked waiting)

retries : resolve_pending (fresh_from 41 60) waiting ≡ ok retried
unfolding apostas_api.Prelude.Int.◌+ℤ◌ apostas_api.Prelude.Int.◌-ℤ◌ apostas_api.Prelude.Int64.add64
    apostas_api.Prelude.Int64.sub64 apostas_api.Prelude.Int64.wrap64 apostas_api.Strings.is_blank
    apostas_api.Money.matches_currency apostas_api.Money.valid_currency
    apostas_api.Money.money_from_minor apostas_api.Money.add apostas_api.Money.sub
    apostas_api.Money.compare apostas_api.Wallet.is_valid apostas_api.Wallet.rehydrate_wallet
    apostas_api.Wallet.credit apostas_api.Wallet.debit apostas_api.LedgerEntry.new_ledger_entry
    apostas_api.Transaction.check_kind apostas_api.Transaction.validate_operation
    apostas_api.Transaction.rehydrate_transaction_state apostas_api.Transaction.transition
    apostas_api.WagerTransaction.bad_code apostas_api.WagerTransaction.bad_reference
    apostas_api.WagerTransaction.bad_identity apostas_api.WagerTransaction.bad_result
    apostas_api.WagerTransaction.bad_failure apostas_api.WagerTransaction.bad_opening
    apostas_api.WagerTransaction.bad_texts apostas_api.WagerTransaction.bad_balance
    apostas_api.WagerTransaction.validate_wager_transaction
    apostas_api.WagerTransaction.new_wager_transaction
    apostas_api.WagerTransaction.new_opening_transaction apostas_api.WagerTransaction.transition_to
    apostas_api.Wager.conclude apostas_api.Wager.move_balance apostas_api.Wager.check_reference
    apostas_api.Wager.decide apostas_api.Events.new_wallet_balance_changed
    apostas_api.Events.new_wager_transaction_processed apostas_api.Database.find
    apostas_api.Database.exists apostas_api.Database.update apostas_api.Database.clashes
    apostas_api.Database.ledger_clashes apostas_api.Database.wallet_clashes
    apostas_api.Database.Wallets.ledger_sum apostas_api.Store.insert_transaction
    apostas_api.Store.update_wallet apostas_api.Store.add_event apostas_api.Store.add_wager_event
    apostas_api.Store.store_entry apostas_api.Store.insert_ledger
    apostas_api.Store.add_balance_event apostas_api.Store.load_wallet
    apostas_api.Store.find_existing apostas_api.Store.load_reference apostas_api.Store.new_row
    apostas_api.Store.move_funds apostas_api.Store.settle_transaction
    apostas_api.Store.record_decision apostas_api.Store.execute_new apostas_api.Store.execute_tx
    apostas_api.Store.execute apostas_api.Store.Wallets.insert_wallet
    apostas_api.Store.Wallets.post_opening apostas_api.Store.Wallets.create_wallet
    apostas_api.Store.Wallets.count_entries apostas_api.Store.Inbox.receive
    apostas_api.Store.Inbox.complete apostas_api.Store.Inbox.execute_inbox
    apostas_api.Requests.process apostas_api.Wager.reversal_reference
    apostas_api.Store.Resolve.resolve_pending apostas_api.Store.Resolve.attempt
    apostas_api.Store.Resolve.first_due apostas_api.Store.Resolve.operation_of
    apostas_api.Store.Resolve.after_attempt apostas_api.Store.Resolve.settle
    apostas_api.Store.Resolve.update_transaction apostas_api.Store.Resolve.retry_delay
retries = refl

attempts_it : attempt (fresh_from 41 60) parked waiting ≡ ok attempted
unfolding apostas_api.Prelude.Int.◌+ℤ◌ apostas_api.Prelude.Int.◌-ℤ◌ apostas_api.Prelude.Int64.add64
    apostas_api.Prelude.Int64.sub64 apostas_api.Prelude.Int64.wrap64 apostas_api.Strings.is_blank
    apostas_api.Money.matches_currency apostas_api.Money.valid_currency
    apostas_api.Money.money_from_minor apostas_api.Money.add apostas_api.Money.sub
    apostas_api.Money.compare apostas_api.Wallet.is_valid apostas_api.Wallet.rehydrate_wallet
    apostas_api.Wallet.credit apostas_api.Wallet.debit apostas_api.LedgerEntry.new_ledger_entry
    apostas_api.Transaction.check_kind apostas_api.Transaction.validate_operation
    apostas_api.Transaction.rehydrate_transaction_state apostas_api.Transaction.transition
    apostas_api.WagerTransaction.bad_code apostas_api.WagerTransaction.bad_reference
    apostas_api.WagerTransaction.bad_identity apostas_api.WagerTransaction.bad_result
    apostas_api.WagerTransaction.bad_failure apostas_api.WagerTransaction.bad_opening
    apostas_api.WagerTransaction.bad_texts apostas_api.WagerTransaction.bad_balance
    apostas_api.WagerTransaction.validate_wager_transaction
    apostas_api.WagerTransaction.new_wager_transaction
    apostas_api.WagerTransaction.new_opening_transaction apostas_api.WagerTransaction.transition_to
    apostas_api.Wager.conclude apostas_api.Wager.move_balance apostas_api.Wager.check_reference
    apostas_api.Wager.decide apostas_api.Events.new_wallet_balance_changed
    apostas_api.Events.new_wager_transaction_processed apostas_api.Database.find
    apostas_api.Database.exists apostas_api.Database.update apostas_api.Database.clashes
    apostas_api.Database.ledger_clashes apostas_api.Database.wallet_clashes
    apostas_api.Database.Wallets.ledger_sum apostas_api.Store.insert_transaction
    apostas_api.Store.update_wallet apostas_api.Store.add_event apostas_api.Store.add_wager_event
    apostas_api.Store.store_entry apostas_api.Store.insert_ledger
    apostas_api.Store.add_balance_event apostas_api.Store.load_wallet
    apostas_api.Store.find_existing apostas_api.Store.load_reference apostas_api.Store.new_row
    apostas_api.Store.move_funds apostas_api.Store.settle_transaction
    apostas_api.Store.record_decision apostas_api.Store.execute_new apostas_api.Store.execute_tx
    apostas_api.Store.execute apostas_api.Store.Wallets.insert_wallet
    apostas_api.Store.Wallets.post_opening apostas_api.Store.Wallets.create_wallet
    apostas_api.Store.Wallets.count_entries apostas_api.Store.Inbox.receive
    apostas_api.Store.Inbox.complete apostas_api.Store.Inbox.execute_inbox
    apostas_api.Requests.process apostas_api.Wager.reversal_reference
    apostas_api.Store.Resolve.resolve_pending apostas_api.Store.Resolve.attempt
    apostas_api.Store.Resolve.first_due apostas_api.Store.Resolve.operation_of
    apostas_api.Store.Resolve.after_attempt apostas_api.Store.Resolve.settle
    apostas_api.Store.Resolve.update_transaction apostas_api.Store.Resolve.retry_delay
attempts_it = refl

waiting_amounts : BigintAmounts waiting.transactions
unfolding apostas_api.Prelude.Int.◌+ℤ◌ apostas_api.Prelude.Int.◌-ℤ◌ apostas_api.Prelude.Int64.add64
    apostas_api.Prelude.Int64.sub64 apostas_api.Prelude.Int64.wrap64 apostas_api.Strings.is_blank
    apostas_api.Money.matches_currency apostas_api.Money.valid_currency
    apostas_api.Money.money_from_minor apostas_api.Money.add apostas_api.Money.sub
    apostas_api.Money.compare apostas_api.Wallet.is_valid apostas_api.Wallet.rehydrate_wallet
    apostas_api.Wallet.credit apostas_api.Wallet.debit apostas_api.LedgerEntry.new_ledger_entry
    apostas_api.Transaction.check_kind apostas_api.Transaction.validate_operation
    apostas_api.Transaction.rehydrate_transaction_state apostas_api.Transaction.transition
    apostas_api.WagerTransaction.bad_code apostas_api.WagerTransaction.bad_reference
    apostas_api.WagerTransaction.bad_identity apostas_api.WagerTransaction.bad_result
    apostas_api.WagerTransaction.bad_failure apostas_api.WagerTransaction.bad_opening
    apostas_api.WagerTransaction.bad_texts apostas_api.WagerTransaction.bad_balance
    apostas_api.WagerTransaction.validate_wager_transaction
    apostas_api.WagerTransaction.new_wager_transaction
    apostas_api.WagerTransaction.new_opening_transaction apostas_api.WagerTransaction.transition_to
    apostas_api.Wager.conclude apostas_api.Wager.move_balance apostas_api.Wager.check_reference
    apostas_api.Wager.decide apostas_api.Events.new_wallet_balance_changed
    apostas_api.Events.new_wager_transaction_processed apostas_api.Database.find
    apostas_api.Database.exists apostas_api.Database.update apostas_api.Database.clashes
    apostas_api.Database.ledger_clashes apostas_api.Database.wallet_clashes
    apostas_api.Database.Wallets.ledger_sum apostas_api.Store.insert_transaction
    apostas_api.Store.update_wallet apostas_api.Store.add_event apostas_api.Store.add_wager_event
    apostas_api.Store.store_entry apostas_api.Store.insert_ledger
    apostas_api.Store.add_balance_event apostas_api.Store.load_wallet
    apostas_api.Store.find_existing apostas_api.Store.load_reference apostas_api.Store.new_row
    apostas_api.Store.move_funds apostas_api.Store.settle_transaction
    apostas_api.Store.record_decision apostas_api.Store.execute_new apostas_api.Store.execute_tx
    apostas_api.Store.execute apostas_api.Store.Wallets.insert_wallet
    apostas_api.Store.Wallets.post_opening apostas_api.Store.Wallets.create_wallet
    apostas_api.Store.Wallets.count_entries apostas_api.Store.Inbox.receive
    apostas_api.Store.Inbox.complete apostas_api.Store.Inbox.execute_inbox
    apostas_api.Requests.process
waiting_amounts = omega arith

waiting_unique : UniqueIds waiting.transactions
unfolding apostas_api.Prelude.Int.◌+ℤ◌ apostas_api.Prelude.Int.◌-ℤ◌ apostas_api.Prelude.Int64.add64
    apostas_api.Prelude.Int64.sub64 apostas_api.Prelude.Int64.wrap64 apostas_api.Strings.is_blank
    apostas_api.Money.matches_currency apostas_api.Money.valid_currency
    apostas_api.Money.money_from_minor apostas_api.Money.add apostas_api.Money.sub
    apostas_api.Money.compare apostas_api.Wallet.is_valid apostas_api.Wallet.rehydrate_wallet
    apostas_api.Wallet.credit apostas_api.Wallet.debit apostas_api.LedgerEntry.new_ledger_entry
    apostas_api.Transaction.check_kind apostas_api.Transaction.validate_operation
    apostas_api.Transaction.rehydrate_transaction_state apostas_api.Transaction.transition
    apostas_api.WagerTransaction.bad_code apostas_api.WagerTransaction.bad_reference
    apostas_api.WagerTransaction.bad_identity apostas_api.WagerTransaction.bad_result
    apostas_api.WagerTransaction.bad_failure apostas_api.WagerTransaction.bad_opening
    apostas_api.WagerTransaction.bad_texts apostas_api.WagerTransaction.bad_balance
    apostas_api.WagerTransaction.validate_wager_transaction
    apostas_api.WagerTransaction.new_wager_transaction
    apostas_api.WagerTransaction.new_opening_transaction apostas_api.WagerTransaction.transition_to
    apostas_api.Wager.conclude apostas_api.Wager.move_balance apostas_api.Wager.check_reference
    apostas_api.Wager.decide apostas_api.Events.new_wallet_balance_changed
    apostas_api.Events.new_wager_transaction_processed apostas_api.Database.find
    apostas_api.Database.exists apostas_api.Database.update apostas_api.Database.clashes
    apostas_api.Database.ledger_clashes apostas_api.Database.wallet_clashes
    apostas_api.Database.Wallets.ledger_sum apostas_api.Store.insert_transaction
    apostas_api.Store.update_wallet apostas_api.Store.add_event apostas_api.Store.add_wager_event
    apostas_api.Store.store_entry apostas_api.Store.insert_ledger
    apostas_api.Store.add_balance_event apostas_api.Store.load_wallet
    apostas_api.Store.find_existing apostas_api.Store.load_reference apostas_api.Store.new_row
    apostas_api.Store.move_funds apostas_api.Store.settle_transaction
    apostas_api.Store.record_decision apostas_api.Store.execute_new apostas_api.Store.execute_tx
    apostas_api.Store.execute apostas_api.Store.Wallets.insert_wallet
    apostas_api.Store.Wallets.post_opening apostas_api.Store.Wallets.create_wallet
    apostas_api.Store.Wallets.count_entries apostas_api.Store.Inbox.receive
    apostas_api.Store.Inbox.complete apostas_api.Store.Inbox.execute_inbox
    apostas_api.Requests.process
waiting_unique = (refl, (refl, tt))

waiting-Sound : SoundDatabase waiting
waiting-Sound = start-Sound

resolve_pending-Sound_example : SoundDatabase retried.1
resolve_pending-Sound_example =
    resolve_pending-Sound (fresh_from 41 60) waiting {r = retried} waiting_amounts waiting-Sound
      retries

attempt-Turn_example :
    (t' : TransactionRow) × (attempted.transactions
      ≡ update (same_id 31) (λ _. t') waiting.transactions)
    × Turn 60 parked t'
attempt-Turn_example = attempt-Turn (fresh_from 41 60) parked waiting {db' = attempted} attempts_it

enough_rounds : all_turns waiting.transactions < 11
unfolding apostas_api.Prelude.Int.◌+ℤ◌ apostas_api.Prelude.Int.◌-ℤ◌ apostas_api.Prelude.Int64.add64
    apostas_api.Prelude.Int64.sub64 apostas_api.Prelude.Int64.wrap64 apostas_api.Strings.is_blank
    apostas_api.Money.matches_currency apostas_api.Money.valid_currency
    apostas_api.Money.money_from_minor apostas_api.Money.add apostas_api.Money.sub
    apostas_api.Money.compare apostas_api.Wallet.is_valid apostas_api.Wallet.rehydrate_wallet
    apostas_api.Wallet.credit apostas_api.Wallet.debit apostas_api.LedgerEntry.new_ledger_entry
    apostas_api.Transaction.check_kind apostas_api.Transaction.validate_operation
    apostas_api.Transaction.rehydrate_transaction_state apostas_api.Transaction.transition
    apostas_api.WagerTransaction.bad_code apostas_api.WagerTransaction.bad_reference
    apostas_api.WagerTransaction.bad_identity apostas_api.WagerTransaction.bad_result
    apostas_api.WagerTransaction.bad_failure apostas_api.WagerTransaction.bad_opening
    apostas_api.WagerTransaction.bad_texts apostas_api.WagerTransaction.bad_balance
    apostas_api.WagerTransaction.validate_wager_transaction
    apostas_api.WagerTransaction.new_wager_transaction
    apostas_api.WagerTransaction.new_opening_transaction apostas_api.WagerTransaction.transition_to
    apostas_api.Wager.conclude apostas_api.Wager.move_balance apostas_api.Wager.check_reference
    apostas_api.Wager.decide apostas_api.Events.new_wallet_balance_changed
    apostas_api.Events.new_wager_transaction_processed apostas_api.Database.find
    apostas_api.Database.exists apostas_api.Database.update apostas_api.Database.clashes
    apostas_api.Database.ledger_clashes apostas_api.Database.wallet_clashes
    apostas_api.Database.Wallets.ledger_sum apostas_api.Store.insert_transaction
    apostas_api.Store.update_wallet apostas_api.Store.add_event apostas_api.Store.add_wager_event
    apostas_api.Store.store_entry apostas_api.Store.insert_ledger
    apostas_api.Store.add_balance_event apostas_api.Store.load_wallet
    apostas_api.Store.find_existing apostas_api.Store.load_reference apostas_api.Store.new_row
    apostas_api.Store.move_funds apostas_api.Store.settle_transaction
    apostas_api.Store.record_decision apostas_api.Store.execute_new apostas_api.Store.execute_tx
    apostas_api.Store.execute apostas_api.Store.Wallets.insert_wallet
    apostas_api.Store.Wallets.post_opening apostas_api.Store.Wallets.create_wallet
    apostas_api.Store.Wallets.count_entries apostas_api.Store.Inbox.receive
    apostas_api.Store.Inbox.complete apostas_api.Store.Inbox.execute_inbox
    apostas_api.Requests.process apostas_api.Store.Resolve.Attempts.all_turns
enough_rounds = omega arith

abbrev ticking : ℕ → Fresh
ticking n = fresh_from 41 60

run_resolver_ends_example : (db' : Database) × (run_resolver 11 ticking waiting ≡ some db')
run_resolver_ends_example = run_resolver_ends 11 ticking waiting waiting_unique enough_rounds

claimed_21 : has_event 21 (claim_outbox 20 70 bet_answer.1).0 ≡ true
unfolding apostas_api.Prelude.Int.◌+ℤ◌ apostas_api.Prelude.Int.◌-ℤ◌ apostas_api.Prelude.Int64.add64
    apostas_api.Prelude.Int64.sub64 apostas_api.Prelude.Int64.wrap64 apostas_api.Strings.is_blank
    apostas_api.Money.matches_currency apostas_api.Money.valid_currency
    apostas_api.Money.money_from_minor apostas_api.Money.add apostas_api.Money.sub
    apostas_api.Money.compare apostas_api.Wallet.is_valid apostas_api.Wallet.rehydrate_wallet
    apostas_api.Wallet.credit apostas_api.Wallet.debit apostas_api.LedgerEntry.new_ledger_entry
    apostas_api.Transaction.check_kind apostas_api.Transaction.validate_operation
    apostas_api.Transaction.rehydrate_transaction_state apostas_api.Transaction.transition
    apostas_api.WagerTransaction.bad_code apostas_api.WagerTransaction.bad_reference
    apostas_api.WagerTransaction.bad_identity apostas_api.WagerTransaction.bad_result
    apostas_api.WagerTransaction.bad_failure apostas_api.WagerTransaction.bad_opening
    apostas_api.WagerTransaction.bad_texts apostas_api.WagerTransaction.bad_balance
    apostas_api.WagerTransaction.validate_wager_transaction
    apostas_api.WagerTransaction.new_wager_transaction
    apostas_api.WagerTransaction.new_opening_transaction apostas_api.WagerTransaction.transition_to
    apostas_api.Wager.conclude apostas_api.Wager.move_balance apostas_api.Wager.check_reference
    apostas_api.Wager.decide apostas_api.Events.new_wallet_balance_changed
    apostas_api.Events.new_wager_transaction_processed apostas_api.Database.find
    apostas_api.Database.exists apostas_api.Database.update apostas_api.Database.clashes
    apostas_api.Database.ledger_clashes apostas_api.Database.wallet_clashes
    apostas_api.Database.Wallets.ledger_sum apostas_api.Store.insert_transaction
    apostas_api.Store.update_wallet apostas_api.Store.add_event apostas_api.Store.add_wager_event
    apostas_api.Store.store_entry apostas_api.Store.insert_ledger
    apostas_api.Store.add_balance_event apostas_api.Store.load_wallet
    apostas_api.Store.find_existing apostas_api.Store.load_reference apostas_api.Store.new_row
    apostas_api.Store.move_funds apostas_api.Store.settle_transaction
    apostas_api.Store.record_decision apostas_api.Store.execute_new apostas_api.Store.execute_tx
    apostas_api.Store.execute apostas_api.Store.Wallets.insert_wallet
    apostas_api.Store.Wallets.post_opening apostas_api.Store.Wallets.create_wallet
    apostas_api.Store.Wallets.count_entries apostas_api.Store.Inbox.receive
    apostas_api.Store.Inbox.complete apostas_api.Store.Inbox.execute_inbox
    apostas_api.Requests.process apostas_api.Database.Query.sort_by
    apostas_api.Database.Query.select apostas_api.Database.Query.insert_by
    apostas_api.Database.Query.take apostas_api.Store.Outbox.claim_outbox
    apostas_api.Store.Outbox.claimable apostas_api.Store.Outbox.mark_published
    apostas_api.Store.Outbox.retry_outbox apostas_api.Workers.Publisher.publish_event
    apostas_api.Workers.Publisher.publish_events apostas_api.Workers.Publisher.publish
claimed_21 = refl

within_claim : 80 ≤ 70 + claim_time
within_claim = omega arith

-- Another publisher claims what is left, and publishes another event.
abbrev later_outbox : Database
later_outbox = mark_published 20 76 (claim_outbox 10 75 (claim_outbox 20 70 bet_answer.1).1).1

later_steps : OutboxSteps 21 (claim_outbox 20 70 bet_answer.1).1 later_outbox
later_steps = and_step (and_step no_step (claims 10 75)) (marks 20 76)

claim_outbox-exclusive_example :
    (ready 21 70 bet_answer.1 ≡ true) × (has_event 21 (claim_outbox 5 80 later_outbox).0 ≡ false)
claim_outbox-exclusive_example =
    claim_outbox-exclusive 21 20 5 70 80 bet_answer.1 {db' = later_outbox} claimed_21 later_steps
      within_claim

-- The queue takes every event, and nothing stops the publisher.
abbrev sending : Sending
sending = record { accepts = λ e. true; stops = λ e. false; clock = λ e. 75 }

never_stops : (e : OutboxEvent) → sending.stops e ≡ false
never_stops e = refl

publish-published_example :
    published 21 (publish sending 70 bet_answer.1)
    ≡ (published 21 bet_answer.1 || accepted sending 21 (claim_outbox 20 70 bet_answer.1).0)
publish-published_example = publish-published sending 21 70 bet_answer.1 never_stops

published_21 : published 21 (publish sending 70 bet_answer.1) ≡ true
unfolding apostas_api.Prelude.Int.◌+ℤ◌ apostas_api.Prelude.Int.◌-ℤ◌ apostas_api.Prelude.Int64.add64
    apostas_api.Prelude.Int64.sub64 apostas_api.Prelude.Int64.wrap64 apostas_api.Strings.is_blank
    apostas_api.Money.matches_currency apostas_api.Money.valid_currency
    apostas_api.Money.money_from_minor apostas_api.Money.add apostas_api.Money.sub
    apostas_api.Money.compare apostas_api.Wallet.is_valid apostas_api.Wallet.rehydrate_wallet
    apostas_api.Wallet.credit apostas_api.Wallet.debit apostas_api.LedgerEntry.new_ledger_entry
    apostas_api.Transaction.check_kind apostas_api.Transaction.validate_operation
    apostas_api.Transaction.rehydrate_transaction_state apostas_api.Transaction.transition
    apostas_api.WagerTransaction.bad_code apostas_api.WagerTransaction.bad_reference
    apostas_api.WagerTransaction.bad_identity apostas_api.WagerTransaction.bad_result
    apostas_api.WagerTransaction.bad_failure apostas_api.WagerTransaction.bad_opening
    apostas_api.WagerTransaction.bad_texts apostas_api.WagerTransaction.bad_balance
    apostas_api.WagerTransaction.validate_wager_transaction
    apostas_api.WagerTransaction.new_wager_transaction
    apostas_api.WagerTransaction.new_opening_transaction apostas_api.WagerTransaction.transition_to
    apostas_api.Wager.conclude apostas_api.Wager.move_balance apostas_api.Wager.check_reference
    apostas_api.Wager.decide apostas_api.Events.new_wallet_balance_changed
    apostas_api.Events.new_wager_transaction_processed apostas_api.Database.find
    apostas_api.Database.exists apostas_api.Database.update apostas_api.Database.clashes
    apostas_api.Database.ledger_clashes apostas_api.Database.wallet_clashes
    apostas_api.Database.Wallets.ledger_sum apostas_api.Store.insert_transaction
    apostas_api.Store.update_wallet apostas_api.Store.add_event apostas_api.Store.add_wager_event
    apostas_api.Store.store_entry apostas_api.Store.insert_ledger
    apostas_api.Store.add_balance_event apostas_api.Store.load_wallet
    apostas_api.Store.find_existing apostas_api.Store.load_reference apostas_api.Store.new_row
    apostas_api.Store.move_funds apostas_api.Store.settle_transaction
    apostas_api.Store.record_decision apostas_api.Store.execute_new apostas_api.Store.execute_tx
    apostas_api.Store.execute apostas_api.Store.Wallets.insert_wallet
    apostas_api.Store.Wallets.post_opening apostas_api.Store.Wallets.create_wallet
    apostas_api.Store.Wallets.count_entries apostas_api.Store.Inbox.receive
    apostas_api.Store.Inbox.complete apostas_api.Store.Inbox.execute_inbox
    apostas_api.Requests.process apostas_api.Database.Query.sort_by
    apostas_api.Database.Query.select apostas_api.Database.Query.insert_by
    apostas_api.Database.Query.take apostas_api.Store.Outbox.claim_outbox
    apostas_api.Store.Outbox.claimable apostas_api.Store.Outbox.mark_published
    apostas_api.Store.Outbox.retry_outbox apostas_api.Workers.Publisher.publish_event
    apostas_api.Workers.Publisher.publish_events apostas_api.Workers.Publisher.publish
published_21 = refl
