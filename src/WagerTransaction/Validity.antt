-- ===== src/WagerTransaction/Validity.antt =====
-- Which transactions `validateWagerTransaction` and the two constructors accept.
use text.Mathlib.TextEquality.{eq_iff}
use apostas_api.Prelude.{◌≡◌, ◌≢◌, ◌↔◌, true, false, not, ◌&&◌, refl, arith, if◌then◌else◌, or_true}
use apostas_api.Prelude.Int.{pos, ◌≤ℤ◌}
use apostas_api.Prelude.Eq.{◌==◌, ◌!=◌, string_eq, int_beq_iff}
use apostas_api.Result.{ok, err, invalid_transaction, is_ok}
use apostas_api.Values.{Uuid, Time}
use apostas_api.Money.{Currencies, Money, valid, no_money}
use apostas_api.Transaction.{
  opening, pending, is_state, kind_eq, status_eq, rehydrate_transaction_state,
}
use apostas_api.WagerTransaction.{
  WagerTransactionData, bad_identity, bad_result, bad_failure, bad_opening, validate_opening,
  validate_wager, validate_wager_transaction, new_wager_transaction, new_opening_transaction,
}

module _ ⦃iso : Currencies⦄ where
  -- The parts of a validated transaction, each check by itself.
  pub record Checked (d : WagerTransactionData) : Type 0 where
    pub identity : bad_identity d ≡ false
    pub state : is_state d.status ≡ true
    pub result : bad_result d ≡ false
    pub result_set : (d.status != pending && not (valid d.result_balance)) ≡ false
    pub failure : bad_failure d ≡ false
    pub kind_rules : (if d.kind == opening then validate_opening d else validate_wager d) ≡ ok tt

  pub validate-Checked :
      (d : WagerTransactionData) → validate_wager_transaction d ≡ ok tt → Checked d
  unfolding validate_wager_transaction rehydrate_transaction_state
  validate-Checked d h = ground arith

  pub Checked-validate :
      (d : WagerTransactionData) → Checked d → validate_wager_transaction d ≡ ok tt
  unfolding validate_wager_transaction rehydrate_transaction_state
  Checked-validate d c = ground (arith, c)

  bad_opening-pending : (d : WagerTransactionData) → d.status ≡ pending → bad_opening d ≡ true
  unfolding bad_opening
  bad_opening-pending d h = rw (h, or_true) refl

  -- The data that `NewWagerTransaction` validates.
  abbrev pub as_new : WagerTransactionData → WagerTransactionData
  as_new d = record d {
    status = pending;
    failure_code = "";
    reference_transaction_id = 0;
    result_balance = no_money;
    updated_at = d.created_at;
  }

  -- `NewWagerTransaction` makes no opening: whatever the data, the kind OPENING is refused.
  pub new_wager_transaction-opening :
      (d : WagerTransactionData)
      → d.kind ≡ opening
      → new_wager_transaction d ≡ err invalid_transaction
  unfolding new_wager_transaction validate_wager_transaction rehydrate_transaction_state
  new_wager_transaction-opening d h = ground (arith, bad_opening-pending (as_new d))

  -- `NewOpeningTransaction` succeeds exactly for set identifiers, a positive amount in a valid
  -- currency and a set time.
  pub new_opening_transaction_iff :
      (id w p : Uuid) (m : Money) (now : Time)
      → (is_ok (new_opening_transaction id w p m now) ≡ true)
        ↔ ((id ≢ 0) × (w ≢ 0) × (p ≢ 0) × (valid m ≡ true) × (pos 1 ≤ℤ m.minor) × (now ≢ 0))
  unfolding new_opening_transaction validate_wager_transaction rehydrate_transaction_state
      bad_opening bad_identity bad_result bad_failure
  new_opening_transaction_iff id w p m now =
      ground (arith, eq_iff "" "", eq_iff m.currency m.currency, int_beq_iff m.minor m.minor)
