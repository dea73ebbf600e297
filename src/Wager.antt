-- ===== src/Wager.antt =====
-- internal/usecases/wager.go: operations, references and decisions, and `Decide`. The wallet that
-- `Decide` is given by pointer comes back beside the decision.
pub mod Outcomes
pub mod Balances
pub mod Reversals
pub mod Undoing
use apostas_api.Prelude.{
  ◌≡◌, Bool, true, false, not, ◌&&◌, ◌||◌, Option, none, some, String, if◌then◌else◌,
}
use apostas_api.Prelude.Eq.{◌==◌, ◌!=◌, nat_eq, string_eq}
use apostas_api.Result.{Error, insufficient_funds, Result, ok, err}
use apostas_api.Values.{Uuid, uuid_nil, Time}
use apostas_api.Money.{Currencies, Money, no_money, money_eq}
use apostas_api.Wallet.{Wallet}
use apostas_api.Wallet
use apostas_api.LedgerEntry.{Direction, debit, credit}
use apostas_api.Transaction.{
  Kind, bet, win, loss, refund, rollback, Status, pending, pending_reference, processed, rejected,
  failed, kind_eq, status_eq,
}

pub record Operation : Type 0 where
  pub provider_id : String
  pub external_transaction_id : String
  pub idempotency_key : String
  pub player_id : Uuid
  pub wallet_id : Uuid
  pub round_id : String
  pub game_id : String
  pub kind : Kind
  pub money : Money
  pub reference_external_transaction_id : String

pub record Reference : Type 0 where
  pub id : Uuid
  pub kind : Kind
  pub status : Status
  pub wallet_id : Uuid
  pub player_id : Uuid
  pub round_id : String
  pub money : Money
  pub already_reversed : Bool

pub record Decision : Type 0 where
  pub status : Status
  pub failure_code : String
  pub direction : Direction
  pub balance_before : Money
  pub reference_id : Uuid

-- `Decision{Status: s}` and `Decision{Status: s, FailureCode: code}`
abbrev pub decision : Status → String → Decision
decision s code = record {
  status = s;
  failure_code = code;
  direction = Direction.other "";
  balance_before = no_money;
  reference_id = uuid_nil;
}

abbrev pub reject : String → Decision
reject code = decision rejected code

-- `ref == nil || ref.Status == Pending || ref.Status == PendingReference`
abbrev pub is_unsettled : Option Reference → Bool
is_unsettled none = true
is_unsettled (some r) = r.status == pending || r.status == pending_reference

-- What a `win` asks of the bet that it refers to.
abbrev pub bad_win_reference : Operation → Reference → Bool
bad_win_reference op r =
    r.status != processed
    || r.kind != bet
    || r.player_id != op.player_id
    || r.wallet_id != op.wallet_id
    || r.round_id != op.round_id
    || r.money.currency != op.money.currency

-- What a `refund` or `rollback` asks of the transaction that it takes back.
abbrev pub bad_reversal_reference : Operation → Reference → Bool
bad_reversal_reference op r =
    r.status != processed
    || r.player_id != op.player_id
    || r.wallet_id != op.wallet_id
    || r.round_id != op.round_id
    || r.money != op.money
    || r.already_reversed

abbrev pub bad_reversal_kind : Operation → Reference → Bool
bad_reversal_kind op r =
    op.kind == refund && r.kind != bet
    || op.kind == rollback && r.kind != bet && r.kind != win && r.kind != refund

-- The early returns on the reference; `none` goes on. An unsettled reference parks the operation.
unfoldable pub win_reference : Operation → Option Reference → Option Decision
win_reference op none = some (decision pending_reference "")
win_reference op (some r) =
    if is_unsettled (some r)
    then some (decision pending_reference "")
    else if bad_win_reference op r
    then some (reject "INVALID_REFERENCE")
    else none

unfoldable pub reversal_reference : Operation → Option Reference → Option Decision
reversal_reference op none = some (decision pending_reference "")
reversal_reference op (some r) =
    if is_unsettled (some r)
    then some (decision pending_reference "")
    else if bad_reversal_reference op r || bad_reversal_kind op r
    then some (reject "INVALID_REFERENCE")
    else none

unfoldable pub check_reference : Operation → Option Reference → Option Decision
check_reference op ref =
    if op.kind == win && op.reference_external_transaction_id != ""
    then win_reference op ref
    else if op.kind == refund || op.kind == rollback
    then reversal_reference op ref
    else none

-- `ref != nil && (ref.Kind == Win || ref.Kind == Refund)`
abbrev pub gave_credit : Option Reference → Bool
gave_credit none = false
gave_credit (some r) = r.kind == win || r.kind == refund

abbrev pub is_debit : Operation → Option Reference → Bool
is_debit op ref = op.kind == bet || op.kind == rollback && gave_credit ref

abbrev pub reference_id_of : Option Reference → Uuid
reference_id_of none = uuid_nil
reference_id_of (some r) = r.id

-- The code of a rejection by the wallet.
abbrev pub refusal_code : Kind → Error → String
refusal_code k insufficient_funds =
    if k == rollback then "REVERSAL_INSUFFICIENT_FUNDS" else "INSUFFICIENT_FUNDS"
refusal_code k _ = "AMOUNT_OVERFLOW"

-- The decision on the wallet's answer.
unfoldable pub conclude :
    Operation → Option Reference → Wallet → Result (Money × Wallet) → Decision × Wallet
conclude op ref w (ok (before, w')) = (
  record {
    status = processed;
    failure_code = "";
    direction = if is_debit op ref then debit else credit;
    balance_before = before;
    reference_id = reference_id_of ref;
  },
  w',
)
conclude op ref w (err e) = (reject (refusal_code op.kind e), w)

module _ ⦃iso : Currencies⦄ where
  unfoldable pub move_balance : Operation → Wallet → Option Reference → Time → Decision × Wallet
  move_balance op w ref now =
      conclude op ref w
        (if is_debit op ref then Wallet.debit w op.money now else Wallet.credit w op.money now)

  abbrev pub after_check :
      Option Decision → Operation → Wallet → Option Reference → Time → Decision × Wallet
  after_check (some d) op w ref now = (d, w)
  after_check none op w ref now = move_balance op w ref now

  -- `Decide`
  unfoldable pub decide : Operation → Wallet → Option Reference → Time → Decision × Wallet
  decide op w ref now =
      if w.player_id != op.player_id || w.balance.currency != op.money.currency
      then (reject "WALLET_MISMATCH", w)
      else if op.kind == loss
      then (decision processed "", w)
      else after_check (check_reference op ref) op w ref now
