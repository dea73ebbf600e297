-- ===== src/Transaction.antt =====
-- internal/model/transaction.go: the kinds and states of a wager transaction, the rules for an
-- operation's amount and reference, and the state machine. Kind and Status are Go string types:
-- `other` is any text that is no declared constant (the zero value "" among them).
pub mod Machine
pub mod Operations
use apostas_api.Prelude.{◌≡◌, ◌↔◌, Bool, true, false, not, ◌&&◌, ◌||◌, String, arith}
use apostas_api.Prelude.Int.{pos, ltb_ℤ}
use apostas_api.Prelude.Eq.{Eq, ◌==◌, ◌!=◌, string_eq}
use apostas_api.Result.{
  Result, ok, err, invalid_transaction, terminal_transaction, fail_if, ◌>>◌, ◌>>=◌,
}
use apostas_api.Money.{Currencies, Money, valid, is_positive, is_zero}
use text.Mathlib.TextEquality.{eq_iff}

pub data Kind : Type 0 where
  opening bet win loss refund rollback : Kind
  other : String → Kind

pub data Status : Type 0 where
  pending pending_reference processed rejected failed : Status
  other : String → Status

abbrev pub kind_beq : Kind → Kind → Bool
kind_beq opening opening = true
kind_beq bet bet = true
kind_beq win win = true
kind_beq loss loss = true
kind_beq refund refund = true
kind_beq rollback rollback = true
kind_beq (Kind.other s) (Kind.other t) = s == t
kind_beq _ _ = false

abbrev pub status_beq : Status → Status → Bool
status_beq pending pending = true
status_beq pending_reference pending_reference = true
status_beq processed processed = true
status_beq rejected rejected = true
status_beq failed failed = true
status_beq (Status.other s) (Status.other t) = s == t
status_beq _ _ = false

pub kind_beq_iff : (a b : Kind) → (kind_beq a b ≡ true) ↔ (a ≡ b)
kind_beq_iff (Kind.other s) (Kind.other t) = ground (arith, eq_iff s t)
kind_beq_iff a b = ground arith

pub status_beq_iff : (a b : Status) → (status_beq a b ≡ true) ↔ (a ≡ b)
status_beq_iff (Status.other s) (Status.other t) = ground (arith, eq_iff s t)
status_beq_iff a b = ground arith

instance abbrev pub kind_eq : Eq Kind
kind_eq = record { same = kind_beq; same_iff = kind_beq_iff _ _ }

instance abbrev pub status_eq : Eq Status
status_eq = record { same = status_beq; same_iff = status_beq_iff _ _ }

module _ ⦃iso : Currencies⦄ where
  -- `ValidateOperation`; the last argument is the external identifier of the reference.
  unfoldable pub check_kind : Kind → Money → String → Bool
  check_kind bet money reference = not (is_positive money) || reference != ""
  check_kind win money reference = not (is_positive money)
  check_kind loss money reference = not (is_zero money) || reference != ""
  check_kind refund money reference = not (is_positive money) || reference == ""
  check_kind rollback money reference = not (is_positive money) || reference == ""
  check_kind opening money reference = true
  check_kind (Kind.other _) money reference = true

  unfoldable pub validate_operation : Kind → Money → String → Result (Unit {0})
  unfolding check_kind
  validate_operation kind money reference = do
    fail_if (not (valid money) || ltb_ℤ money.minor (pos 0)) invalid_transaction
    fail_if (check_kind kind money reference) invalid_transaction
    ok tt

pub record TransactionState : Type 0 where
  pub status : Status

unfoldable pub new_transaction_state : TransactionState
new_transaction_state = record { status = pending }

-- `TransactionState.Valid`
abbrev pub is_state : Status → Bool
is_state (Status.other _) = false
is_state _ = true

unfoldable pub rehydrate_transaction_state : Status → Result TransactionState
rehydrate_transaction_state status = do
  fail_if (not (is_state status)) invalid_transaction
  ok (record { status = status })

abbrev pub is_terminal : Status → Bool
is_terminal s = s == processed || s == rejected || s == failed

-- `TransactionState.Transition`
unfoldable pub transition : TransactionState → Status → Result TransactionState
transition s next = do
  fail_if (not (is_state s.status)) invalid_transaction
  fail_if (is_terminal s.status) terminal_transaction
  fail_if (next != pending_reference && next != processed && next != rejected && next != failed)
      invalid_transaction
  ok (record { status = next })
