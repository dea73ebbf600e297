-- ===== src/Store/Resolve.antt =====
-- internal/infra/postgres/store.go: `ResolvePendingReference`, one attempt at the transaction that
-- has waited longest, and the loop of the reference resolver in internal/worker/workers.go.
pub mod Attempts
pub mod Books
use apostas_api.Prelude.{
  ℕ, zero, suc, ◌+◌, ◌*◌, ◌^◌, ◌-◌, Bool, true, false, ◌&&◌, ◌||◌, Option, none, some, List, [],
  ◌∷◌, String, if◌then◌else◌, ltb, leb,
}
use apostas_api.Prelude.Eq.{◌==◌, ◌!=◌, nat_eq, string_eq}
use apostas_api.Result.{Result, ok, err, other_error, fail_if, ◌>>◌, ◌>>=◌}
use apostas_api.Values.{Uuid, Time}
use apostas_api.Money.{Currencies, money_from_minor}
use apostas_api.Wallet.{Wallet}
use apostas_api.Transaction.{
  Status, pending_reference, rejected, kind_eq, status_eq, rehydrate_transaction_state, transition,
}
use apostas_api.Wager.{Operation, Reference, Decision, decision, decide}
use apostas_api.Database.{TransactionRow, Database, exists, update, clashes}
use apostas_api.Database.Wallets.{has_id}
use apostas_api.Store.Rows.{Fresh, scan, add_wager_event, load_wallet}
use apostas_api.Store.Calls.{
  nullable, nullable_uuid, second, reference_row, reference_of, move_funds,
}

-- `retryDelay`: one second, doubled with each attempt up to the eighth. A shift by a negative count
-- is a panic, which no caller provokes: the attempts are counted from one.
unfoldable pub retry_delay : ℕ → ℕ
retry_delay attempt = second * 2 ^ ((if ltb 8 attempt then 8 else attempt) - 1)

abbrev pub at_or_before : Option Time → Time → Bool
at_or_before none now = false
at_or_before (some t) now = leb t now

-- `status='PENDING_REFERENCE' AND next_attempt_at <= now()`
abbrev pub is_due : Time → TransactionRow → Bool
is_due now t = t.status == pending_reference && at_or_before t.next_attempt_at now

abbrev pub time_or_zero : Option Time → Time
time_or_zero none = 0
time_or_zero (some t) = t

-- `ORDER BY next_attempt_at,id`
abbrev pub comes_first : TransactionRow → TransactionRow → Bool
comes_first t u =
    ltb (time_or_zero t.next_attempt_at) (time_or_zero u.next_attempt_at)
    || time_or_zero t.next_attempt_at == time_or_zero u.next_attempt_at && leb t.id u.id

abbrev pub sooner : TransactionRow → Option TransactionRow → TransactionRow
sooner t none = t
sooner t (some u) = if comes_first t u then t else u

-- `SELECT … LIMIT 1`: no other call holds a row, so SKIP LOCKED skips none.
unfoldable pub first_due : Time → List TransactionRow → Option TransactionRow
first_due now [] = none
first_due now (t ∷ ts) =
    let rest = first_due now ts in if is_due now t then some (sooner t rest) else rest

abbrev pub same_id : Uuid → TransactionRow → Bool
same_id id t = t.id == id

-- `UPDATE wager_transactions SET … WHERE id=…`, where `t` is the row that results.
unfoldable pub update_transaction : TransactionRow → Database → Result Database
update_transaction t db = do
  fail_if (exists (λ (u : TransactionRow). u.id != t.id && clashes t u) db.transactions) other_error
  ok (record db { transactions = update (same_id t.id) (λ _. t) db.transactions })

-- The row after one more attempt that found no settled reference.
abbrev pub rescheduled : Time → TransactionRow → TransactionRow
rescheduled now t = record t {
  attempts = suc t.attempts;
  next_attempt_at = some (now + retry_delay (suc t.attempts));
  updated_at = now;
}

-- The row with its outcome.
abbrev pub settled_row : Time → Decision → Wallet → TransactionRow → TransactionRow
settled_row now d w t = record t {
  status = d.status;
  failure_code = nullable d.failure_code;
  reference_transaction_id = nullable_uuid d.reference_id;
  result_balance_minor = some w.balance.minor;
  next_attempt_at = none;
  updated_at = now;
}

module _ ⦃iso : Currencies⦄ where
  -- The operation that the row holds.
  unfoldable pub operation_of : TransactionRow → Result Operation
  operation_of t = do
    provider ← scan t.provider_id
    external ← scan t.external_transaction_id
    key ← scan t.idempotency_key
    round ← scan t.round_id
    game ← scan t.game_id
    reference ← scan t.reference_external_transaction_id
    money ← money_from_minor t.amount_minor t.currency
    ok (record {
      provider_id = provider;
      external_transaction_id = external;
      idempotency_key = key;
      player_id = t.player_id;
      wallet_id = t.wallet_id;
      round_id = round;
      game_id = game;
      kind = t.kind;
      money = money;
      reference_external_transaction_id = reference;
    })

  -- The rows and events of an outcome.
  unfoldable pub settle :
      Fresh → Operation → TransactionRow → Decision → Wallet → Database → Result Database
  settle fresh op t d w db = do
    state ← rehydrate_transaction_state pending_reference
    _ ← transition state d.status
    updated ← update_transaction (settled_row fresh.now d w t) db
    moved ← move_funds fresh "" op.wallet_id t.id op.money d w updated
    add_wager_event fresh "" op.wallet_id t.id op.provider_id op.kind d.status d.failure_code moved

  -- What follows the decision: wait again, give up at the tenth attempt, or settle.
  unfoldable pub after_attempt :
      Fresh → Operation → TransactionRow → Decision × Wallet → Database → Result Database
  after_attempt fresh op t (d, w') db =
      if d.status == pending_reference
      then (if leb 10 (suc t.attempts)
          then settle fresh op t (decision rejected "REFERENCE_NOT_FOUND") w' db
          else update_transaction (rescheduled fresh.now t) db)
      else settle fresh op t d w' db

  -- An attempt at the row `t`; a wallet that is missing is an error of the query.
  unfoldable pub attempt : Fresh → TransactionRow → Database → Result Database
  attempt fresh t db = do
    op ← operation_of t
    w ←
        (if exists (has_id op.wallet_id) db.wallets
          then load_wallet op.wallet_id db
          else err other_error)
    ref ← reference_of (reference_row op.provider_id op.reference_external_transaction_id db) db
    after_attempt fresh op t (decide op w ref fresh.now) db

  abbrev pub attempt_first : Fresh → Option TransactionRow → Database → Result (Bool × Database)
  attempt_first fresh none db = ok (false, db)
  attempt_first fresh (some t) db = do db' ← attempt fresh t db; ok (true, db')

  -- `ResolvePendingReference`: whether there was a transaction to look at, and the new database.
  unfoldable pub resolve_pending : Fresh → Database → Result (Bool × Database)
  resolve_pending fresh db = attempt_first fresh (first_due fresh.db_now db.transactions) db
