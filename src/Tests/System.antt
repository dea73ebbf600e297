-- ===== src/Tests/System.antt =====
-- The service from the empty database on: a wallet is opened, a bet is placed and refunded.
use apostas_api.Prelude.{
  ◌≡◌, ◌⊎◌, ◌++◌, true, false, Option, none, some, if◌then◌else◌, List, [], ◌∷◌, String, refl,
  some-inj, arith, inl, inr,
}
use mathlib.Core.Path.{subst}
use apostas_api.Prelude.Int.{pos}
use apostas_api.Prelude.Int64.{IsInt64}
use apostas_api.Prelude.Eq.{◌==◌, string_eq}
use apostas_api.Result.{ok}
use apostas_api.Values.{Uuid}
use apostas_api.Money.{Currencies, Money}
use apostas_api.Wager.{Operation}
use apostas_api.Database.{WalletRow, TransactionRow, LedgerRow, Database, find}
use apostas_api.Database.Wallets.{has_id}
use apostas_api.Store.{WagerResult, is_same_request}
use apostas_api.Store.Wallets.{Reconciliation, reconcile_wallet, opening_row}
use apostas_api.Store.Resolve.Attempts.{Among}
use apostas_api.Store.Writes.Apart.{Reverses}
use apostas_api.Store.Writes.Effects.{Tables}
use apostas_api.Store.Writes.Kept.{Kept}
use apostas_api.Requests.{process}
use apostas_api.Http.{Request, Web}
use apostas_api.Http.Routes.{post_wallets, post_transactions, serve}
use apostas_api.Http.Routes.Writes.{Int64Web}
use apostas_api.System.{Steps, begin, next, http, outbox}
use apostas_api.System.Health.{Healthy, Steps-Healthy}
use apostas_api.System.History.{
  reversed_once, always_consistent, ledger_extended, transaction-Kept, processed_once,
}
use apostas_api.Tests.{one_currency, reais, opened, bet_op, refund_op}
use apostas_api.Tests.Stores.{
  fresh_from, answer_of, same_hash, fits_300, fits_1000, bet_currency_valid, bet_row,
}
use apostas_api.Tests.Services.{web, codec, codec_amounts, by_provider}

-- Readers of an opening with a thousand, of a refund, and of a bet.
abbrev desk : Web
desk = record web {
  opening_body = λ body. some (7, reais (pos 1000));
  operation_body = λ body. if body == "refund" then some refund_op else some bet_op;
}

desk_operation :
    (text : String) (op : Operation)
    → (if text == "refund" then some refund_op else some bet_op) ≡ some op
    → op.money ≡ bet_op.money
desk_operation text op h = ground arith

desk_amounts : Int64Web desk
desk_amounts = record {
  operations = λ text op h. rw (desk_operation text op h) fits_300;
  openings = λ text player initial h.
      subst (λ (x : Uuid × Money). IsInt64 x.1.minor) (some-inj h) fits_1000;
}

abbrev by_service : Request
by_service = record by_provider { principal = some "wallet-service" }

abbrev for_refund : Request
for_refund = record by_provider { body = "refund"; idempotency_key = "key-2" }

abbrev with_wallet : Database
with_wallet =
    (serve same_hash desk (fresh_from 11 50) 1 post_wallets by_service apostas_api.System.empty).1

abbrev with_bet : Database
with_bet = (serve same_hash desk (fresh_from 21 60) 2 post_transactions by_provider with_wallet).1

abbrev with_refund : Database
with_refund = (serve same_hash desk (fresh_from 31 70) 3 post_transactions for_refund with_bet).1

to_wallet : Steps same_hash desk codec apostas_api.System.empty with_wallet
to_wallet = next begin (http (fresh_from 11 50) 1 post_wallets by_service)

to_bet : Steps same_hash desk codec apostas_api.System.empty with_bet
to_bet = next to_wallet (http (fresh_from 21 60) 2 post_transactions by_provider)

from_bet : Steps same_hash desk codec with_bet with_refund
from_bet = next begin (http (fresh_from 31 70) 3 post_transactions for_refund)

to_refund : Steps same_hash desk codec apostas_api.System.empty with_refund
to_refund = next to_bet (http (fresh_from 31 70) 3 post_transactions for_refund)

abbrev newest : List TransactionRow → TransactionRow
newest [] = opening_row (fresh_from 0 0) opened
newest (t ∷ ts) = t

abbrev bet_stored : TransactionRow
bet_stored = newest with_bet.transactions

abbrev refund_stored : TransactionRow
refund_stored = newest with_refund.transactions

abbrev again : WagerResult × Database
again = answer_of (process same_hash (fresh_from 41 80) none bet_op with_refund)

wallet_row_stored : find (has_id 1) with_bet.wallets ≡ some bet_row
unfolding apostas_api.Prelude.Int.◌+ℤ◌ apostas_api.Prelude.Int.◌-ℤ◌ apostas_api.Prelude.Int64.add64
    apostas_api.Prelude.Int64.sub64 apostas_api.Prelude.Int64.wrap64 apostas_api.Strings.is_blank
    apostas_api.Money.matches_currency apostas_api.Money.valid_currency
    apostas_api.Money.money_from_minor apostas_api.Money.add apostas_api.Money.sub
    apostas_api.Money.compare apostas_api.Wallet.is_valid apostas_api.Wallet.rehydrate_wallet
    apostas_api.Wallet.credit apostas_api.Wallet.debit apostas_api.LedgerEntry.new_ledger_entry
    apostas_api.Transaction.check_kind apostas_api.Transaction.validate_operation
    apostas_api.Transaction.rehydrate_transaction_state apostas_api.Transaction.transition
    apostas_api.WagerTransaction.bad_code apostas_api.WagerTransaction.bad_reference
    apostas_api.WagerTransaction.bad_identity apostas_api.WagerTransaction.bad_result
    apostas_api.WagerTransaction.bad_failure apostas_api.WagerTransaction.bad_opening
    apostas_api.WagerTransaction.bad_texts apostas_api.WagerTransaction.bad_balance
    apostas_api.WagerTransaction.validate_wager_transaction
    apostas_api.WagerTransaction.new_wager_transaction
    apostas_api.WagerTransaction.new_opening_transaction apostas_api.WagerTransaction.transition_to
    apostas_api.Wager.conclude apostas_api.Wager.move_balance apostas_api.Wager.check_reference
    apostas_api.Wager.decide apostas_api.Events.new_wallet_balance_changed
    apostas_api.Events.new_wager_transaction_processed apostas_api.Database.find
    apostas_api.Database.exists apostas_api.Database.update apostas_api.Database.clashes
    apostas_api.Database.ledger_clashes apostas_api.Database.wallet_clashes
    apostas_api.Database.Wallets.ledger_sum apostas_api.Store.insert_transaction
    apostas_api.Store.update_wallet apostas_api.Store.add_event apostas_api.Store.add_wager_event
    apostas_api.Store.store_entry apostas_api.Store.insert_ledger
    apostas_api.Store.add_balance_event apostas_api.Store.load_wallet
    apostas_api.Store.find_existing apostas_api.Store.load_reference apostas_api.Store.new_row
    apostas_api.Store.move_funds apostas_api.Store.settle_transaction
    apostas_api.Store.record_decision apostas_api.Store.execute_new apostas_api.Store.execute_tx
    apostas_api.Store.execute apostas_api.Store.Wallets.insert_wallet
    apostas_api.Store.Wallets.post_opening apostas_api.Store.Wallets.create_wallet
    apostas_api.Store.Wallets.count_entries apostas_api.Store.Inbox.receive
    apostas_api.Store.Inbox.complete apostas_api.Store.Inbox.execute_inbox
    apostas_api.Requests.process apostas_api.Wager.reversal_reference apostas_api.Http.is_internal
    apostas_api.Http.Routes.serve apostas_api.Http.Handlers.open_wallet_handler
    apostas_api.Http.Handlers.process_wager apostas_api.Http.Handlers.wager_by
    apostas_api.Store.Wallets.open_wallet apostas_api.Wallet.new_wallet apostas_api.Store.replay
wallet_row_stored = refl

bet_found : Among bet_stored with_bet.transactions
unfolding apostas_api.Prelude.Int.◌+ℤ◌ apostas_api.Prelude.Int.◌-ℤ◌ apostas_api.Prelude.Int64.add64
    apostas_api.Prelude.Int64.sub64 apostas_api.Prelude.Int64.wrap64 apostas_api.Strings.is_blank
    apostas_api.Money.matches_currency apostas_api.Money.valid_currency
    apostas_api.Money.money_from_minor apostas_api.Money.add apostas_api.Money.sub
    apostas_api.Money.compare apostas_api.Wallet.is_valid apostas_api.Wallet.rehydrate_wallet
    apostas_api.Wallet.credit apostas_api.Wallet.debit apostas_api.LedgerEntry.new_ledger_entry
    apostas_api.Transaction.check_kind apostas_api.Transaction.validate_operation
    apostas_api.Transaction.rehydrate_transaction_state apostas_api.Transaction.transition
    apostas_api.WagerTransaction.bad_code apostas_api.WagerTransaction.bad_reference
    apostas_api.WagerTransaction.bad_identity apostas_api.WagerTransaction.bad_result
    apostas_api.WagerTransaction.bad_failure apostas_api.WagerTransaction.bad_opening
    apostas_api.WagerTransaction.bad_texts apostas_api.WagerTransaction.bad_balance
    apostas_api.WagerTransaction.validate_wager_transaction
    apostas_api.WagerTransaction.new_wager_transaction
    apostas_api.WagerTransaction.new_opening_transaction apostas_api.WagerTransaction.transition_to
    apostas_api.Wager.conclude apostas_api.Wager.move_balance apostas_api.Wager.check_reference
    apostas_api.Wager.decide apostas_api.Events.new_wallet_balance_changed
    apostas_api.Events.new_wager_transaction_processed apostas_api.Database.find
    apostas_api.Database.exists apostas_api.Database.update apostas_api.Database.clashes
    apostas_api.Database.ledger_clashes apostas_api.Database.wallet_clashes
    apostas_api.Database.Wallets.ledger_sum apostas_api.Store.insert_transaction
    apostas_api.Store.update_wallet apostas_api.Store.add_event apostas_api.Store.add_wager_event
    apostas_api.Store.store_entry apostas_api.Store.insert_ledger
    apostas_api.Store.add_balance_event apostas_api.Store.load_wallet
    apostas_api.Store.find_existing apostas_api.Store.load_reference apostas_api.Store.new_row
    apostas_api.Store.move_funds apostas_api.Store.settle_transaction
    apostas_api.Store.record_decision apostas_api.Store.execute_new apostas_api.Store.execute_tx
    apostas_api.Store.execute apostas_api.Store.Wallets.insert_wallet
    apostas_api.Store.Wallets.post_opening apostas_api.Store.Wallets.create_wallet
    apostas_api.Store.Wallets.count_entries apostas_api.Store.Inbox.receive
    apostas_api.Store.Inbox.complete apostas_api.Store.Inbox.execute_inbox
    apostas_api.Requests.process apostas_api.Wager.reversal_reference apostas_api.Http.is_internal
    apostas_api.Http.Routes.serve apostas_api.Http.Handlers.open_wallet_handler
    apostas_api.Http.Handlers.process_wager apostas_api.Http.Handlers.wager_by
    apostas_api.Store.Wallets.open_wallet apostas_api.Wallet.new_wallet apostas_api.Store.replay
bet_found = inl refl

refund_found : Among refund_stored with_refund.transactions
unfolding apostas_api.Prelude.Int.◌+ℤ◌ apostas_api.Prelude.Int.◌-ℤ◌ apostas_api.Prelude.Int64.add64
    apostas_api.Prelude.Int64.sub64 apostas_api.Prelude.Int64.wrap64 apostas_api.Strings.is_blank
    apostas_api.Money.matches_currency apostas_api.Money.valid_currency
    apostas_api.Money.money_from_minor apostas_api.Money.add apostas_api.Money.sub
    apostas_api.Money.compare apostas_api.Wallet.is_valid apostas_api.Wallet.rehydrate_wallet
    apostas_api.Wallet.credit apostas_api.Wallet.debit apostas_api.LedgerEntry.new_ledger_entry
    apostas_api.Transaction.check_kind apostas_api.Transaction.validate_operation
    apostas_api.Transaction.rehydrate_transaction_state apostas_api.Transaction.transition
    apostas_api.WagerTransaction.bad_code apostas_api.WagerTransaction.bad_reference
    apostas_api.WagerTransaction.bad_identity apostas_api.WagerTransaction.bad_result
    apostas_api.WagerTransaction.bad_failure apostas_api.WagerTransaction.bad_opening
    apostas_api.WagerTransaction.bad_texts apostas_api.WagerTransaction.bad_balance
    apostas_api.WagerTransaction.validate_wager_transaction
    apostas_api.WagerTransaction.new_wager_transaction
    apostas_api.WagerTransaction.new_opening_transaction apostas_api.WagerTransaction.transition_to
    apostas_api.Wager.conclude apostas_api.Wager.move_balance apostas_api.Wager.check_reference
    apostas_api.Wager.decide apostas_api.Events.new_wallet_balance_changed
    apostas_api.Events.new_wager_transaction_processed apostas_api.Database.find
    apostas_api.Database.exists apostas_api.Database.update apostas_api.Database.clashes
    apostas_api.Database.ledger_clashes apostas_api.Database.wallet_clashes
    apostas_api.Database.Wallets.ledger_sum apostas_api.Store.insert_transaction
    apostas_api.Store.update_wallet apostas_api.Store.add_event apostas_api.Store.add_wager_event
    apostas_api.Store.store_entry apostas_api.Store.insert_ledger
    apostas_api.Store.add_balance_event apostas_api.Store.load_wallet
    apostas_api.Store.find_existing apostas_api.Store.load_reference apostas_api.Store.new_row
    apostas_api.Store.move_funds apostas_api.Store.settle_transaction
    apostas_api.Store.record_decision apostas_api.Store.execute_new apostas_api.Store.execute_tx
    apostas_api.Store.execute apostas_api.Store.Wallets.insert_wallet
    apostas_api.Store.Wallets.post_opening apostas_api.Store.Wallets.create_wallet
    apostas_api.Store.Wallets.count_entries apostas_api.Store.Inbox.receive
    apostas_api.Store.Inbox.complete apostas_api.Store.Inbox.execute_inbox
    apostas_api.Requests.process apostas_api.Wager.reversal_reference apostas_api.Http.is_internal
    apostas_api.Http.Routes.serve apostas_api.Http.Handlers.open_wallet_handler
    apostas_api.Http.Handlers.process_wager apostas_api.Http.Handlers.wager_by
    apostas_api.Store.Wallets.open_wallet apostas_api.Wallet.new_wallet apostas_api.Store.replay
refund_found = inl refl

refund-Reverses : Reverses refund_stored 21
unfolding apostas_api.Prelude.Int.◌+ℤ◌ apostas_api.Prelude.Int.◌-ℤ◌ apostas_api.Prelude.Int64.add64
    apostas_api.Prelude.Int64.sub64 apostas_api.Prelude.Int64.wrap64 apostas_api.Strings.is_blank
    apostas_api.Money.matches_currency apostas_api.Money.valid_currency
    apostas_api.Money.money_from_minor apostas_api.Money.add apostas_api.Money.sub
    apostas_api.Money.compare apostas_api.Wallet.is_valid apostas_api.Wallet.rehydrate_wallet
    apostas_api.Wallet.credit apostas_api.Wallet.debit apostas_api.LedgerEntry.new_ledger_entry
    apostas_api.Transaction.check_kind apostas_api.Transaction.validate_operation
    apostas_api.Transaction.rehydrate_transaction_state apostas_api.Transaction.transition
    apostas_api.WagerTransaction.bad_code apostas_api.WagerTransaction.bad_reference
    apostas_api.WagerTransaction.bad_identity apostas_api.WagerTransaction.bad_result
    apostas_api.WagerTransaction.bad_failure apostas_api.WagerTransaction.bad_opening
    apostas_api.WagerTransaction.bad_texts apostas_api.WagerTransaction.bad_balance
    apostas_api.WagerTransaction.validate_wager_transaction
    apostas_api.WagerTransaction.new_wager_transaction
    apostas_api.WagerTransaction.new_opening_transaction apostas_api.WagerTransaction.transition_to
    apostas_api.Wager.conclude apostas_api.Wager.move_balance apostas_api.Wager.check_reference
    apostas_api.Wager.decide apostas_api.Events.new_wallet_balance_changed
    apostas_api.Events.new_wager_transaction_processed apostas_api.Database.find
    apostas_api.Database.exists apostas_api.Database.update apostas_api.Database.clashes
    apostas_api.Database.ledger_clashes apostas_api.Database.wallet_clashes
    apostas_api.Database.Wallets.ledger_sum apostas_api.Store.insert_transaction
    apostas_api.Store.update_wallet apostas_api.Store.add_event apostas_api.Store.add_wager_event
    apostas_api.Store.store_entry apostas_api.Store.insert_ledger
    apostas_api.Store.add_balance_event apostas_api.Store.load_wallet
    apostas_api.Store.find_existing apostas_api.Store.load_reference apostas_api.Store.new_row
    apostas_api.Store.move_funds apostas_api.Store.settle_transaction
    apostas_api.Store.record_decision apostas_api.Store.execute_new apostas_api.Store.execute_tx
    apostas_api.Store.execute apostas_api.Store.Wallets.insert_wallet
    apostas_api.Store.Wallets.post_opening apostas_api.Store.Wallets.create_wallet
    apostas_api.Store.Wallets.count_entries apostas_api.Store.Inbox.receive
    apostas_api.Store.Inbox.complete apostas_api.Store.Inbox.execute_inbox
    apostas_api.Requests.process apostas_api.Wager.reversal_reference apostas_api.Http.is_internal
    apostas_api.Http.Routes.serve apostas_api.Http.Handlers.open_wallet_handler
    apostas_api.Http.Handlers.process_wager apostas_api.Http.Handlers.wager_by
    apostas_api.Store.Wallets.open_wallet apostas_api.Wallet.new_wallet apostas_api.Store.replay
refund-Reverses = (refl, refl)

bet_requested : is_same_request bet_op bet_stored ≡ true
unfolding apostas_api.Prelude.Int.◌+ℤ◌ apostas_api.Prelude.Int.◌-ℤ◌ apostas_api.Prelude.Int64.add64
    apostas_api.Prelude.Int64.sub64 apostas_api.Prelude.Int64.wrap64 apostas_api.Strings.is_blank
    apostas_api.Money.matches_currency apostas_api.Money.valid_currency
    apostas_api.Money.money_from_minor apostas_api.Money.add apostas_api.Money.sub
    apostas_api.Money.compare apostas_api.Wallet.is_valid apostas_api.Wallet.rehydrate_wallet
    apostas_api.Wallet.credit apostas_api.Wallet.debit apostas_api.LedgerEntry.new_ledger_entry
    apostas_api.Transaction.check_kind apostas_api.Transaction.validate_operation
    apostas_api.Transaction.rehydrate_transaction_state apostas_api.Transaction.transition
    apostas_api.WagerTransaction.bad_code apostas_api.WagerTransaction.bad_reference
    apostas_api.WagerTransaction.bad_identity apostas_api.WagerTransaction.bad_result
    apostas_api.WagerTransaction.bad_failure apostas_api.WagerTransaction.bad_opening
    apostas_api.WagerTransaction.bad_texts apostas_api.WagerTransaction.bad_balance
    apostas_api.WagerTransaction.validate_wager_transaction
    apostas_api.WagerTransaction.new_wager_transaction
    apostas_api.WagerTransaction.new_opening_transaction apostas_api.WagerTransaction.transition_to
    apostas_api.Wager.conclude apostas_api.Wager.move_balance apostas_api.Wager.check_reference
    apostas_api.Wager.decide apostas_api.Events.new_wallet_balance_changed
    apostas_api.Events.new_wager_transaction_processed apostas_api.Database.find
    apostas_api.Database.exists apostas_api.Database.update apostas_api.Database.clashes
    apostas_api.Database.ledger_clashes apostas_api.Database.wallet_clashes
    apostas_api.Database.Wallets.ledger_sum apostas_api.Store.insert_transaction
    apostas_api.Store.update_wallet apostas_api.Store.add_event apostas_api.Store.add_wager_event
    apostas_api.Store.store_entry apostas_api.Store.insert_ledger
    apostas_api.Store.add_balance_event apostas_api.Store.load_wallet
    apostas_api.Store.find_existing apostas_api.Store.load_reference apostas_api.Store.new_row
    apostas_api.Store.move_funds apostas_api.Store.settle_transaction
    apostas_api.Store.record_decision apostas_api.Store.execute_new apostas_api.Store.execute_tx
    apostas_api.Store.execute apostas_api.Store.Wallets.insert_wallet
    apostas_api.Store.Wallets.post_opening apostas_api.Store.Wallets.create_wallet
    apostas_api.Store.Wallets.count_entries apostas_api.Store.Inbox.receive
    apostas_api.Store.Inbox.complete apostas_api.Store.Inbox.execute_inbox
    apostas_api.Requests.process apostas_api.Wager.reversal_reference apostas_api.Http.is_internal
    apostas_api.Http.Routes.serve apostas_api.Http.Handlers.open_wallet_handler
    apostas_api.Http.Handlers.process_wager apostas_api.Http.Handlers.wager_by
    apostas_api.Store.Wallets.open_wallet apostas_api.Wallet.new_wallet apostas_api.Store.replay
bet_requested = refl

answered_again : process same_hash (fresh_from 41 80) none bet_op with_refund ≡ ok again
unfolding apostas_api.Prelude.Int.◌+ℤ◌ apostas_api.Prelude.Int.◌-ℤ◌ apostas_api.Prelude.Int64.add64
    apostas_api.Prelude.Int64.sub64 apostas_api.Prelude.Int64.wrap64 apostas_api.Strings.is_blank
    apostas_api.Money.matches_currency apostas_api.Money.valid_currency
    apostas_api.Money.money_from_minor apostas_api.Money.add apostas_api.Money.sub
    apostas_api.Money.compare apostas_api.Wallet.is_valid apostas_api.Wallet.rehydrate_wallet
    apostas_api.Wallet.credit apostas_api.Wallet.debit apostas_api.LedgerEntry.new_ledger_entry
    apostas_api.Transaction.check_kind apostas_api.Transaction.validate_operation
    apostas_api.Transaction.rehydrate_transaction_state apostas_api.Transaction.transition
    apostas_api.WagerTransaction.bad_code apostas_api.WagerTransaction.bad_reference
    apostas_api.WagerTransaction.bad_identity apostas_api.WagerTransaction.bad_result
    apostas_api.WagerTransaction.bad_failure apostas_api.WagerTransaction.bad_opening
    apostas_api.WagerTransaction.bad_texts apostas_api.WagerTransaction.bad_balance
    apostas_api.WagerTransaction.validate_wager_transaction
    apostas_api.WagerTransaction.new_wager_transaction
    apostas_api.WagerTransaction.new_opening_transaction apostas_api.WagerTransaction.transition_to
    apostas_api.Wager.conclude apostas_api.Wager.move_balance apostas_api.Wager.check_reference
    apostas_api.Wager.decide apostas_api.Events.new_wallet_balance_changed
    apostas_api.Events.new_wager_transaction_processed apostas_api.Database.find
    apostas_api.Database.exists apostas_api.Database.update apostas_api.Database.clashes
    apostas_api.Database.ledger_clashes apostas_api.Database.wallet_clashes
    apostas_api.Database.Wallets.ledger_sum apostas_api.Store.insert_transaction
    apostas_api.Store.update_wallet apostas_api.Store.add_event apostas_api.Store.add_wager_event
    apostas_api.Store.store_entry apostas_api.Store.insert_ledger
    apostas_api.Store.add_balance_event apostas_api.Store.load_wallet
    apostas_api.Store.find_existing apostas_api.Store.load_reference apostas_api.Store.new_row
    apostas_api.Store.move_funds apostas_api.Store.settle_transaction
    apostas_api.Store.record_decision apostas_api.Store.execute_new apostas_api.Store.execute_tx
    apostas_api.Store.execute apostas_api.Store.Wallets.insert_wallet
    apostas_api.Store.Wallets.post_opening apostas_api.Store.Wallets.create_wallet
    apostas_api.Store.Wallets.count_entries apostas_api.Store.Inbox.receive
    apostas_api.Store.Inbox.complete apostas_api.Store.Inbox.execute_inbox
    apostas_api.Requests.process apostas_api.Wager.reversal_reference apostas_api.Http.is_internal
    apostas_api.Http.Routes.serve apostas_api.Http.Handlers.open_wallet_handler
    apostas_api.Http.Handlers.process_wager apostas_api.Http.Handlers.wager_by
    apostas_api.Store.Wallets.open_wallet apostas_api.Wallet.new_wallet apostas_api.Store.replay
answered_again = refl

Steps-Healthy_example : Healthy with_refund
Steps-Healthy_example =
    Steps-Healthy same_hash desk codec desk_amounts codec_amounts with_refund to_refund

reversed_once_example : refund_stored ≡ refund_stored
reversed_once_example =
    reversed_once same_hash desk codec desk_amounts codec_amounts with_refund to_refund
      refund_stored refund_stored 21 refund_found refund_found refund-Reverses refund-Reverses

always_consistent_example :
    (answer : Reconciliation) × (reconcile_wallet 1 with_bet ≡ ok answer)
    × (answer.consistent ≡ true)
    × (answer.calculated_balance ≡ answer.stored_balance)
always_consistent_example =
    always_consistent same_hash desk codec desk_amounts codec_amounts with_bet to_bet 1 bet_row
      wallet_row_stored bet_currency_valid

ledger_extended_example : (new : List LedgerRow) × (with_refund.ledger ≡ new ++ with_bet.ledger)
ledger_extended_example =
    ledger_extended same_hash desk codec desk_amounts codec_amounts with_bet to_bet with_refund
      from_bet

transaction-Kept_example : Kept bet_stored with_refund.transactions
transaction-Kept_example =
    transaction-Kept same_hash desk codec desk_amounts codec_amounts with_bet to_bet with_refund
      from_bet bet_stored bet_found

processed_once_example :
    Tables again.1 with_refund.wallets with_refund.transactions with_refund.ledger
    × (again.0.idempotent_replay ≡ true)
processed_once_example =
    processed_once same_hash desk codec desk_amounts codec_amounts with_bet to_bet with_refund
      from_bet bet_op bet_stored (fresh_from 41 80) none again.0 again.1 bet_found bet_requested
      answered_again
