-- ===== src/Events.antt =====
-- internal/events/events.go: the events that go to the outbox. The payload is the structure that
-- json.Marshal writes out; writing it fails only for an amount of money in no valid currency.
use apostas_api.Prelude.{not, ◌||◌, String}
use apostas_api.Prelude.Int.{ℤ}
use apostas_api.Result.{Result, ok, invalid_money, fail_if, ◌>>◌}
use apostas_api.Values.{Uuid, Time}
use apostas_api.Money.{Currencies, Money, valid}
use apostas_api.LedgerEntry.{Direction}
use apostas_api.Transaction.{Kind, Status, processed, rejected, pending_reference}

pub record WalletBalanceChanged : Type 0 where
  pub wallet_id : Uuid
  pub transaction_id : Uuid
  pub direction : Direction
  pub money : Money
  pub balance_before : Money
  pub balance_after : Money
  pub wallet_version : ℤ

pub record WagerChanged : Type 0 where
  pub transaction_id : Uuid
  pub provider_id : String
  pub kind : Kind
  pub status : Status

-- The `data` of an event, by its type.
pub data Payload : Type 0 where
  wallet_balance_changed : WalletBalanceChanged → Payload
  wager_transaction_processed wager_transaction_pending_reference : WagerChanged → Payload
  wager_transaction_rejected : WagerChanged → String → Payload

-- The envelope's identifiers; its version is 1 and its type is that of the payload.
pub record Event : Type 0 where
  pub id : Uuid
  pub aggregate_id : Uuid
  pub correlation_id : Uuid
  pub causation_id : String
  pub occurred_at : Time
  pub payload : Payload

-- `uuid.New()` and `time.Now()` in `build`.
pub record Stamp : Type 0 where
  pub id : Uuid
  pub at : Time

abbrev pub build : Stamp → Uuid → Uuid → String → Payload → Event
build stamp aggregate_id correlation_id causation_id payload = record {
  id = stamp.id;
  aggregate_id = aggregate_id;
  correlation_id = correlation_id;
  causation_id = causation_id;
  occurred_at = stamp.at;
  payload = payload;
}

module _ ⦃iso : Currencies⦄ where
  unfoldable pub new_wallet_balance_changed : Stamp → WalletBalanceChanged → String → Result Event
  new_wallet_balance_changed stamp d causation_id = do
    fail_if (not (valid d.money) || not (valid d.balance_before) || not (valid d.balance_after))
        invalid_money
    ok (build stamp d.wallet_id d.transaction_id causation_id (wallet_balance_changed d))

unfoldable pub new_wager_transaction_processed :
    Stamp → Uuid → Uuid → String → Kind → String → Event
new_wager_transaction_processed stamp aggregate_id transaction_id provider_id kind causation_id =
    build stamp aggregate_id transaction_id causation_id (
      wager_transaction_processed (record {
        transaction_id = transaction_id;
        provider_id = provider_id;
        kind = kind;
        status = processed;
      }))

unfoldable pub new_wager_transaction_rejected :
    Stamp → Uuid → Uuid → String → Kind → String → String → Event
new_wager_transaction_rejected stamp aggregate_id transaction_id provider_id kind code
      causation_id =
    build stamp aggregate_id transaction_id causation_id (
      wager_transaction_rejected
        (record {
          transaction_id = transaction_id;
          provider_id = provider_id;
          kind = kind;
          status = rejected;
        })
        code)

unfoldable pub new_wager_transaction_pending_reference :
    Stamp → Uuid → Uuid → String → Kind → String → Event
new_wager_transaction_pending_reference stamp aggregate_id transaction_id provider_id kind
      causation_id =
    build stamp aggregate_id transaction_id causation_id (
      wager_transaction_pending_reference (record {
        transaction_id = transaction_id;
        provider_id = provider_id;
        kind = kind;
        status = pending_reference;
      }))
