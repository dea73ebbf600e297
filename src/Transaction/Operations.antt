-- ===== src/Transaction/Operations.antt =====
-- Which operations `ValidateOperation` accepts, as a table.
use text.Mathlib.TextEquality.{eq_iff}
use apostas_api.Prelude.{◌≡◌, ◌≢◌, ◌↔◌, true, String, arith}
use apostas_api.Prelude.Int.{pos, ◌≤ℤ◌}
use apostas_api.Result.{ok}
use apostas_api.Money.{Currencies, Money, valid}
use apostas_api.Transaction.{Kind, opening, bet, win, loss, refund, rollback, validate_operation}

-- A bet takes a positive amount and no reference, a win a positive amount with or without one, a
-- loss the amount zero and no reference, and the two reversals a positive amount and a reference.
abbrev pub Accepted : Kind → Money → String → Type 0
Accepted bet m r = (pos 1 ≤ℤ m.minor) × (r ≡ "")
Accepted win m r = pos 1 ≤ℤ m.minor
Accepted loss m r = (m.minor ≡ pos 0) × (r ≡ "")
Accepted refund m r = (pos 1 ≤ℤ m.minor) × (r ≢ "")
Accepted rollback m r = (pos 1 ≤ℤ m.minor) × (r ≢ "")
Accepted opening m r = ⊥
Accepted (Kind.other _) m r = ⊥

module _ ⦃iso : Currencies⦄ where
  -- `ValidateOperation` accepts exactly the operations of the table, in a valid currency; it
  -- refuses every opening and every kind that is not declared.
  pub validate_operation_iff :
      (k : Kind) (m : Money) (r : String)
      → (validate_operation k m r ≡ ok tt) ↔ ((valid m ≡ true) × Accepted k m r)
  unfolding validate_operation
  validate_operation_iff opening m r = ground (arith, eq_iff r "")
  validate_operation_iff bet m r = ground (arith, eq_iff r "")
  validate_operation_iff win m r = ground (arith, eq_iff r "")
  validate_operation_iff loss m r = ground (arith, eq_iff r "")
  validate_operation_iff refund m r = ground (arith, eq_iff r "")
  validate_operation_iff rollback m r = ground (arith, eq_iff r "")
  validate_operation_iff (Kind.other s) m r = ground (arith, eq_iff r "")
