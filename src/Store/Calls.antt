-- ===== src/Store/Calls.antt =====
-- internal/infra/postgres/store.go: `executeTx` and `Execute`.
use apostas_api.Prelude.{
  ℕ, ◌+◌, Bool, true, false, ◌&&◌, ◌||◌, Option, none, some, String, if◌then◌else◌,
}
use apostas_api.Prelude.Eq.{◌==◌, ◌!=◌, nat_eq, string_eq, int_eq}
use apostas_api.Result.{Result, ok, err, conflict, fail_if, ◌>>◌, ◌>>=◌}
use apostas_api.Values.{Uuid, uuid_nil, Time}
use apostas_api.Money.{Currencies, Money, no_money, money_from_minor}
use apostas_api.Wallet.{Wallet}
use apostas_api.LedgerEntry.{Direction, direction_beq}
use apostas_api.Transaction.{Status, pending_reference, kind_eq, status_eq}
use apostas_api.WagerTransaction.{WagerTransaction, new_wager_transaction, transition_to}
use apostas_api.Wager.{Operation, Reference, Decision}
use apostas_api.Database.{TransactionRow, Database, find, exists, is_text, is_reversal, same_uuid}
use apostas_api.Store.Rows.{
  Fresh, scan, insert_transaction, update_wallet, add_wager_event, insert_ledger, add_balance_event,
  load_wallet,
}

-- The callback that decides: the wallet after it comes back beside the decision.
abbrev pub Decide : Type 0
Decide = Wallet → Option Reference → Time → Decision × Wallet

-- `usecases.Result`
pub record WagerResult : Type 0 where
  pub transaction_id : Uuid
  pub status : Status
  pub balance : Money
  pub failure_code : String
  pub idempotent_replay : Bool

pub record InboxMessage : Type 0 where
  pub consumer_name : String
  pub message_id : String
  pub payload_hash : String

-- `""` as NULL, and the two pointers to optional columns.
abbrev pub nullable : String → Option String
nullable s = if s == "" then none else some s

abbrev pub nullable_uuid : Uuid → Option Uuid
nullable_uuid id = if id == uuid_nil then none else some id

abbrev pub text_or_empty : Option String → String
text_or_empty none = ""
text_or_empty (some s) = s

-- One second, in nanoseconds.
abbrev pub second : ℕ
second = 1000000000

abbrev pub next_attempt : Status → Time → Option Time
next_attempt s now = if s == pending_reference then some (now + second) else none

-- `SELECT … WHERE provider_id=$1 AND (idempotency_key=$2 OR external_transaction_id=$3) LIMIT 1`
abbrev pub is_same_request : Operation → TransactionRow → Bool
is_same_request op t =
    is_text t.provider_id op.provider_id
    && (is_text t.idempotency_key op.idempotency_key
        || is_text t.external_transaction_id op.external_transaction_id)

unfoldable pub find_existing : Operation → Database → Option TransactionRow
find_existing op db = find (is_same_request op) db.transactions

abbrev pub money_or_zero : Result Money → Money
money_or_zero (ok m) = m
money_or_zero (err _) = no_money

abbrev pub is_reversal_of : Uuid → TransactionRow → Bool
is_reversal_of id t = is_reversal t && same_uuid t.reference_transaction_id (some id)

abbrev pub reference_row : String → String → Database → Option TransactionRow
reference_row provider external db =
    find
      (λ (t : TransactionRow).
        is_text t.provider_id provider && is_text t.external_transaction_id external)
      db.transactions

-- The row of a decided operation.
unfoldable pub new_row : Fresh → Operation → String → Decision → Wallet → TransactionRow
new_row fresh op hash d w = record {
  id = fresh.transaction_id;
  external_transaction_id = some op.external_transaction_id;
  provider_id = some op.provider_id;
  idempotency_key = some op.idempotency_key;
  payload_hash = some hash;
  wallet_id = op.wallet_id;
  player_id = op.player_id;
  round_id = some op.round_id;
  game_id = some op.game_id;
  kind = op.kind;
  amount_minor = op.money.minor;
  currency = op.money.currency;
  reference_external_transaction_id = nullable op.reference_external_transaction_id;
  reference_transaction_id = nullable_uuid d.reference_id;
  status = d.status;
  failure_code = nullable d.failure_code;
  result_balance_minor = some w.balance.minor;
  attempts = 0;
  next_attempt_at = next_attempt d.status fresh.now;
  created_at = fresh.db_now;
  updated_at = fresh.db_now;
}

abbrev pub result_of : Fresh → Decision → Wallet → WagerResult
result_of fresh d w = record {
  transaction_id = fresh.transaction_id;
  status = d.status;
  balance = w.balance;
  failure_code = d.failure_code;
  idempotent_replay = false;
}

module _ ⦃iso : Currencies⦄ where
  -- The answer for a request that is stored already.
  unfoldable pub replay : Operation → String → String → TransactionRow → Result WagerResult
  replay op hash currency t = do
    existing_hash ← scan t.payload_hash
    existing_key ← scan t.idempotency_key
    existing_balance ← scan t.result_balance_minor
    fail_if (existing_hash != hash || existing_key != op.idempotency_key) conflict
    ok (record {
      transaction_id = t.id;
      status = t.status;
      balance = money_or_zero (money_from_minor existing_balance currency);
      failure_code = text_or_empty t.failure_code;
      idempotent_replay = true;
    })

  abbrev pub reference_of : Option TransactionRow → Database → Result (Option Reference)
  reference_of none db = ok none
  reference_of (some t) db = do
    money ← money_from_minor t.amount_minor t.currency
    round ← scan t.round_id
    ok (
        some (record {
          id = t.id;
          kind = t.kind;
          status = t.status;
          wallet_id = t.wallet_id;
          player_id = t.player_id;
          round_id = round;
          money = money;
          already_reversed = exists (is_reversal_of t.id) db.transactions;
        }))

  unfoldable pub load_reference : Operation → Database → Result (Option Reference)
  load_reference op db =
      if op.reference_external_transaction_id == ""
      then ok none
      else reference_of (reference_row op.provider_id op.reference_external_transaction_id db) db

  -- `if d.Direction != "" { … }`: the balance, its ledger entry and its event.
  unfoldable pub move_funds :
      Fresh → String → Uuid → Uuid → Money → Decision → Wallet → Database → Result Database
  move_funds fresh causation wallet_id transaction_id money d w db =
      if direction_beq d.direction (Direction.other "") then ok db else do
        let updated = update_wallet wallet_id w fresh.now db
        entered ←
            insert_ledger fresh wallet_id transaction_id d.direction money d.balance_before
              w.balance w.version fresh.now updated
        add_balance_event fresh causation wallet_id transaction_id d.direction money
            d.balance_before w.balance w.version entered

  -- The transaction of the domain model, validated and moved to its outcome.
  unfoldable pub settle_transaction :
      Fresh → Operation → String → Decision → Wallet → Result WagerTransaction
  settle_transaction fresh op hash d w = do
    transaction ← new_wager_transaction (record {
      id = fresh.transaction_id;
      external_transaction_id = op.external_transaction_id;
      provider_id = op.provider_id;
      idempotency_key = op.idempotency_key;
      payload_hash = hash;
      wallet_id = op.wallet_id;
      player_id = op.player_id;
      round_id = op.round_id;
      game_id = op.game_id;
      kind = op.kind;
      money = op.money;
      reference_external_transaction_id = op.reference_external_transaction_id;
      reference_transaction_id = uuid_nil;
      status = Status.other "";
      failure_code = "";
      result_balance = no_money;
      created_at = fresh.now;
      updated_at = 0;
    })
    transition_to transaction d.status d.failure_code w.balance d.reference_id fresh.now

  -- The rows and events of a decided operation.
  unfoldable pub record_decision :
      Fresh → String → Operation → String → Decision → Wallet → Database → Result Database
  record_decision fresh causation op hash d w db = do
    inserted ← insert_transaction (new_row fresh op hash d w) db
    moved ← move_funds fresh causation op.wallet_id fresh.transaction_id op.money d w inserted
    add_wager_event fresh causation op.wallet_id fresh.transaction_id op.provider_id op.kind
        d.status d.failure_code moved

  abbrev pub after_decision :
      Fresh
      → String
      → Operation
      → String
      → Decision × Wallet
      → Database
      → Result (WagerResult × Database)
  after_decision fresh causation op hash (d, w) db = do
    _ ← settle_transaction fresh op hash d w
    stored ← record_decision fresh causation op hash d w db
    ok (result_of fresh d w, stored)

  -- A request that is not stored yet.
  unfoldable pub execute_new :
      Fresh
      → String
      → Operation
      → String
      → Decide
      → Wallet
      → Database
      → Result (WagerResult × Database)
  execute_new fresh causation op hash choose wallet db = do
    ref ← load_reference op db
    after_decision fresh causation op hash (choose wallet ref fresh.now) db

  abbrev pub unless_stored :
      Option TransactionRow
      → Fresh
      → String
      → Operation
      → String
      → Decide
      → Wallet
      → Database
      → Result (WagerResult × Database)
  unless_stored (some t) fresh causation op hash choose wallet db = do
    result ← replay op hash wallet.balance.currency t
    ok (result, db)
  unless_stored none fresh causation op hash choose wallet db =
      execute_new fresh causation op hash choose wallet db

  -- `executeTx`; the causation identifier is that of the inbox message, or empty.
  unfoldable pub execute_tx :
      Fresh → String → Operation → String → Decide → Database → Result (WagerResult × Database)
  execute_tx fresh causation op hash choose db = do
    wallet ← load_wallet op.wallet_id db
    unless_stored (find_existing op db) fresh causation op hash choose wallet db

  unfoldable pub execute :
      Fresh → Operation → String → Decide → Database → Result (WagerResult × Database)
  execute fresh op hash choose db = execute_tx fresh "" op hash choose db
