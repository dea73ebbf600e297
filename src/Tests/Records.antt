-- ===== src/Tests/Records.antt =====
-- internal/model at concrete wallets, ledger entries and transactions.
use apostas_api.Prelude.{◌≡◌, ◌≢◌, ◌↔◌, Bool, true, false, List, [], ◌∷◌, String, refl, arith}
use apostas_api.Prelude.Int.{pos, ◌≤ℤ◌}
use apostas_api.Prelude.Int64.{IsInt64}
use apostas_api.Result.{err, insufficient_funds}
use apostas_api.Money.{matches_currency, valid_currency, sub}
use apostas_api.Wallet.{Wallet, is_valid}
use apostas_api.Wallet
use apostas_api.Wallet.Laws.{Fits, debit_exact}
use apostas_api.LedgerEntry.{debit, LedgerEntry, new_ledger_entry}
use apostas_api.LedgerEntry.Balance.{Moves, new_ledger_entry_sound}
use apostas_api.Tests.{one_currency, reais, opened}

fits_300 : IsInt64 (pos 300)
fits_300 = ground arith

Fits-opened : Fits opened
Fits-opened = ground arith

debit_exact_example : Wallet.debit opened (reais (pos 1001)) 60 ≡ err insufficient_funds
unfolding is_valid valid_currency matches_currency
debit_exact_example = debit_exact opened (reais (pos 1001)) 60 Fits-opened (ground arith) refl

fits_1000 : IsInt64 (pos 1000)
fits_1000 = ground arith

fits_700 : IsInt64 (pos 700)
fits_700 = ground arith

abbrev entry : LedgerEntry
entry = record {
  id = 31;
  wallet_id = 1;
  transaction_id = 21;
  direction = debit;
  money = reais (pos 300);
  balance_before = reais (pos 1000);
  balance_after = reais (pos 700);
  created_at = 60;
}

new_ledger_entry_sound_example :
    (entry ≡ entry)
    × (pos 1 ≤ℤ pos 300)
    × (pos 0 ≤ℤ pos 1000)
    × (pos 0 ≤ℤ pos 700)
    × ((reais (pos 1000)).currency ≡ (reais (pos 300)).currency)
    × ((reais (pos 700)).currency ≡ (reais (pos 300)).currency)
    × Moves debit (reais (pos 300)) (reais (pos 1000)) (reais (pos 700))
unfolding new_ledger_entry valid_currency sub apostas_api.Prelude.Int64.add64
    apostas_api.Prelude.Int64.sub64
new_ledger_entry_sound_example =
    new_ledger_entry_sound 31 1 21 debit (reais (pos 300)) (reais (pos 1000)) (reais (pos 700)) 60
      {e = entry} fits_300 fits_1000 refl
