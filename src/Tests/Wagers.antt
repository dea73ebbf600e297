-- ===== src/Tests/Wagers.antt =====
-- The state machine, the wager transaction and the decision at concrete operations.
use apostas_api.Prelude.{
  ◌≡◌, ◌≢◌, ◌↔◌, ◌⊎◌, ◌++◌, ◌≤◌, Bool, true, false, Option, none, some, List, [], ◌∷◌, String, refl,
  arith, inl, inr,
}
use apostas_api.Prelude.Int.{pos, ◌+ℤ◌, ◌-ℤ◌}
use apostas_api.Prelude.Int64.{IsInt64}
use apostas_api.Result.{ok}
use apostas_api.Values.{Uuid}
use apostas_api.Money.{Currencies, Money, no_money, valid}
use apostas_api.Wallet.{Wallet, is_valid}
use apostas_api.Wallet.Laws.{Fits}
use apostas_api.Transaction.{
  Kind, opening, bet, refund, Status, pending, pending_reference, processed, rejected, failed,
  TransactionState, transition, validate_operation,
}
use apostas_api.Transaction.Machine.{
  ◌⟶◌, ◌⟶*◌, run_transitions, run_transitions-⟶*, is_processed, outcome_final,
}
use apostas_api.Transaction.Operations.{Accepted, validate_operation_iff}
use apostas_api.WagerTransaction.{
  WagerTransaction, WagerTransactionData, new_wager_transaction, new_opening_transaction,
  validate_wager_transaction, transition_to,
}
use apostas_api.WagerTransaction.Transitions.{settled, transition_to_sound}
use apostas_api.Wager.{Operation, Reference, Decision, decide}
use apostas_api.Wager.Outcomes.{WellFormed, decide-WellFormed}
use apostas_api.Wager.Balances.{Applied, decide-Applied}
use apostas_api.Wager.Reversals.{Reverses, reversal_sound}
use apostas_api.Wager.Undoing.{reversal_undoes}
use apostas_api.Tests.{one_currency, reais, opened, bet_op, refund_op, bet_ref}

abbrev done : TransactionState
done = record { status = processed }

run_transitions-⟶*_example :
    pending
    ⟶* (run_transitions (record { status = pending }) (pending_reference ∷ rejected ∷ [])).status
run_transitions-⟶*_example =
    run_transitions-⟶* (record { status = pending }) (pending_reference ∷ rejected ∷ [])

outcome_final_example :
    run_transitions (record { status = pending }) ((processed ∷ []) ++ (failed ∷ []))
    ≡ run_transitions (record { status = pending }) (processed ∷ [])
unfolding run_transitions transition
outcome_final_example =
    outcome_final (record { status = pending }) (processed ∷ []) (failed ∷ []) is_processed

validate_operation_iff_example :
    (validate_operation refund (reais (pos 300)) "bet-1" ≡ ok tt)
    ↔ ((valid (reais (pos 300)) ≡ true) × Accepted refund (reais (pos 300)) "bet-1")
validate_operation_iff_example = validate_operation_iff refund (reais (pos 300)) "bet-1"

abbrev bet_data : WagerTransactionData
bet_data = record {
  id = 21;
  external_transaction_id = "bet-1";
  provider_id = "p";
  idempotency_key = "key-1";
  payload_hash = "0123456789012345678901234567890123456789012345678901234567890123";
  wallet_id = 1;
  player_id = 7;
  round_id = "r";
  game_id = "g";
  kind = bet;
  money = reais (pos 300);
  reference_external_transaction_id = "";
  reference_transaction_id = 0;
  status = pending;
  failure_code = "";
  result_balance = no_money;
  created_at = 60;
  updated_at = 60;
}

bet_not_opening : bet ≢ opening
bet_not_opening h = cc

abbrev bet_transaction : WagerTransaction
bet_transaction = record { fields = bet_data }

abbrev bet_settled : WagerTransactionData
bet_settled = settled bet_data processed "" (reais (pos 700)) 0 60

abbrev settled_transaction : WagerTransaction
settled_transaction = record { fields = bet_settled }

transition_to_sound_example :
    (pending ⟶ processed)
    × (settled_transaction ≡ settled_transaction)
    × (validate_wager_transaction bet_settled ≡ ok tt)
    × (60 ≤ 60)
unfolding transition_to validate_wager_transaction apostas_api.WagerTransaction.bad_identity
    apostas_api.Money.valid_currency apostas_api.Transaction.rehydrate_transaction_state
    apostas_api.WagerTransaction.bad_result apostas_api.WagerTransaction.bad_failure
    apostas_api.WagerTransaction.bad_texts apostas_api.Strings.is_blank validate_operation
    transition apostas_api.WagerTransaction.bad_balance apostas_api.WagerTransaction.bad_code
    apostas_api.WagerTransaction.bad_reference
transition_to_sound_example =
    transition_to_sound bet_transaction processed "" (reais (pos 700)) 0 60
      {t' = settled_transaction} refl

abbrev opening_id : Uuid
opening_id = 20

decide-WellFormed_example : WellFormed (decide bet_op opened none 60).0
decide-WellFormed_example = decide-WellFormed bet_op opened none 60

fits_300 : IsInt64 (pos 300)
fits_300 = ground arith

Fits-opened : Fits opened
Fits-opened = ground arith

decide-Applied_example : Applied bet_op opened 60 (decide bet_op opened none 60)
unfolding is_valid apostas_api.Money.valid_currency
decide-Applied_example = decide-Applied bet_op opened none 60 refl Fits-opened fits_300

reversal_sound_example : (r : Reference) × (some bet_ref ≡ some r) × Reverses refund_op r
unfolding decide apostas_api.Wager.check_reference apostas_api.Wager.reversal_reference
    apostas_api.Wager.move_balance apostas_api.Wager.conclude apostas_api.Wallet.credit is_valid
    apostas_api.Money.valid_currency apostas_api.Money.add apostas_api.Prelude.Int64.sub64
reversal_sound_example = reversal_sound refund_op opened (some bet_ref) 60 (inl refl) refl

reversal_undoes_example :
    ((decide refund_op opened (some bet_ref) 60).0.reference_id ≡ 21)
    × ((decide refund_op opened (some bet_ref) 60).1.balance.minor +ℤ (pos 0 -ℤ bet_ref.money.minor)
        ≡ opened.balance.minor)
unfolding decide apostas_api.Wager.check_reference apostas_api.Wager.reversal_reference
    apostas_api.Wager.move_balance apostas_api.Wager.conclude apostas_api.Wallet.credit is_valid
    apostas_api.Money.valid_currency apostas_api.Money.add apostas_api.Prelude.Int64.sub64
reversal_undoes_example =
    reversal_undoes refund_op opened bet_ref 60 refl Fits-opened fits_300 (inl refl) refl
