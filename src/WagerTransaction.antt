-- ===== src/WagerTransaction.antt =====
-- internal/model/wager_transaction.go: the record of a wager transaction, its validation and its
-- transition to an outcome.
pub mod Validity
pub mod Transitions
use apostas_api.Prelude.{◌≡◌, Bool, true, false, not, ◌&&◌, ◌||◌, String, if◌then◌else◌}
use apostas_api.Prelude.Int.{pos, ltb_ℤ}
use apostas_api.Prelude.Eq.{◌==◌, ◌!=◌, nat_eq, string_eq}
use apostas_api.Result.{Result, ok, err, invalid_transaction, fail_if, or_error, is_ok, ◌>>◌, ◌>>=◌}
use apostas_api.Strings.{is_blank, byte_length}
use apostas_api.Values.{Uuid, uuid_nil, Time, is_zero_time, before}
use apostas_api.Money.{Currencies, Money, no_money, money_eq, valid, is_positive}
use apostas_api.Transaction.{
  Kind, opening, Status, pending, pending_reference, processed, rejected, failed, kind_eq,
  status_eq, TransactionState, validate_operation, rehydrate_transaction_state, transition,
}

pub record WagerTransactionData : Type 0 where
  pub id : Uuid
  pub external_transaction_id : String
  pub provider_id : String
  pub idempotency_key : String
  pub payload_hash : String
  pub wallet_id : Uuid
  pub player_id : Uuid
  pub round_id : String
  pub game_id : String
  pub kind : Kind
  pub money : Money
  pub reference_external_transaction_id : String
  pub reference_transaction_id : Uuid
  pub status : Status
  pub failure_code : String
  pub result_balance : Money
  pub created_at : Time
  pub updated_at : Time

-- The struct WagerTransaction keeps its data private: a value of it was validated.
pub record WagerTransaction : Type 0 where
  pub fields : WagerTransactionData

-- `!=` on two Booleans
abbrev pub differ : Bool → Bool → Bool
differ true b = not b
differ false b = b

unfoldable pub bad_code : Status → String → Bool
bad_code status failure_code =
    differ (status == rejected || status == failed) (failure_code != "")
    || (status == processed || status == pending_reference) && failure_code != ""

unfoldable pub bad_reference : Uuid → Status → Bool
bad_reference reference_id status = reference_id != uuid_nil && status != processed

module _ ⦃iso : Currencies⦄ where
  unfoldable pub bad_identity : WagerTransactionData → Bool
  bad_identity d =
      d.id == uuid_nil
      || d.wallet_id == uuid_nil
      || d.player_id == uuid_nil
      || not (valid d.money)
      || ltb_ℤ d.money.minor (pos 0)
      || is_zero_time d.created_at
      || is_zero_time d.updated_at
      || before d.updated_at d.created_at

  unfoldable pub bad_result : WagerTransactionData → Bool
  bad_result d =
      valid d.result_balance
      && (d.result_balance.currency != d.money.currency || ltb_ℤ d.result_balance.minor (pos 0))

  unfoldable pub bad_failure : WagerTransactionData → Bool
  bad_failure d =
      if d.status == rejected || d.status == failed
      then d.failure_code == ""
      else d.failure_code != ""

  unfoldable pub bad_opening : WagerTransactionData → Bool
  bad_opening d =
      not (is_positive d.money)
      || d.status != processed
      || d.result_balance != d.money
      || d.provider_id != ""
      || d.external_transaction_id != ""
      || d.idempotency_key != ""
      || d.payload_hash != ""
      || d.round_id != ""
      || d.game_id != ""
      || d.reference_external_transaction_id != ""
      || d.reference_transaction_id != uuid_nil

  unfoldable pub bad_texts : WagerTransactionData → Bool
  bad_texts d =
      is_blank d.provider_id
      || is_blank d.external_transaction_id
      || is_blank d.idempotency_key
      || byte_length d.payload_hash != 64
      || is_blank d.round_id
      || is_blank d.game_id

  abbrev pub validate_opening : WagerTransactionData → Result (Unit {0})
  validate_opening d = do fail_if (bad_opening d) invalid_transaction; ok tt

  abbrev pub validate_wager : WagerTransactionData → Result (Unit {0})
  validate_wager d = do
    fail_if (bad_texts d) invalid_transaction
    validate_operation d.kind d.money d.reference_external_transaction_id

  unfoldable pub validate_wager_transaction : WagerTransactionData → Result (Unit {0})
  validate_wager_transaction d = do
    fail_if (bad_identity d) invalid_transaction
    _ ← rehydrate_transaction_state d.status
    fail_if (bad_result d) invalid_transaction
    fail_if (d.status != pending && not (valid d.result_balance)) invalid_transaction
    fail_if (bad_failure d) invalid_transaction
    if d.kind == opening then validate_opening d else validate_wager d

  unfoldable pub new_wager_transaction : WagerTransactionData → Result WagerTransaction
  new_wager_transaction given = do
    let d : WagerTransactionData = record given {
      status = pending;
      failure_code = "";
      reference_transaction_id = uuid_nil;
      result_balance = no_money;
      updated_at = given.created_at;
    }
    validate_wager_transaction d
    ok (record { fields = d })

  unfoldable pub new_opening_transaction :
      Uuid → Uuid → Uuid → Money → Time → Result WagerTransaction
  new_opening_transaction id wallet_id player_id money now = do
    let d : WagerTransactionData = record {
      id = id;
      external_transaction_id = "";
      provider_id = "";
      idempotency_key = "";
      payload_hash = "";
      wallet_id = wallet_id;
      player_id = player_id;
      round_id = "";
      game_id = "";
      kind = opening;
      money = money;
      reference_external_transaction_id = "";
      reference_transaction_id = uuid_nil;
      status = processed;
      failure_code = "";
      result_balance = money;
      created_at = now;
      updated_at = now;
    }
    validate_wager_transaction d
    ok (record { fields = d })

  unfoldable pub rehydrate_wager_transaction : WagerTransactionData → Result WagerTransaction
  rehydrate_wager_transaction d = do validate_wager_transaction d; ok (record { fields = d })

  -- The three conditions on the outcome that `Transition` tests.
  unfoldable pub bad_balance : WagerTransactionData → Money → Time → Bool
  bad_balance d result_balance now =
      is_zero_time now
      || before now d.updated_at
      || not (valid result_balance)
      || ltb_ℤ result_balance.minor (pos 0)
      || result_balance.currency != d.money.currency

  -- `WagerTransaction.Transition`; the receiver is not nil.
  unfoldable pub transition_to :
      WagerTransaction → Status → String → Money → Uuid → Time → Result WagerTransaction
  transition_to t status failure_code result_balance reference_id now = do
    let d : WagerTransactionData = t.fields
    or_error (validate_wager_transaction d) invalid_transaction
    state ← rehydrate_transaction_state d.status
    _ ← transition state status
    fail_if (bad_balance d result_balance now) invalid_transaction
    fail_if (bad_code status failure_code) invalid_transaction
    fail_if (bad_reference reference_id status) invalid_transaction
    let next : WagerTransactionData = record d {
      status = status;
      failure_code = failure_code;
      result_balance = result_balance;
      reference_transaction_id = reference_id;
      updated_at = now;
    }
    validate_wager_transaction next
    ok (record { fields = next })
