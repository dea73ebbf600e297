-- ===== src/LedgerEntry.antt =====
-- internal/model/ledger.go: an entry of a wallet's ledger, which records one change of balance.
pub mod Balance
use apostas_api.Prelude.{◌≡◌, ◌↔◌, refl, Bool, true, false, not, ◌&&◌, ◌||◌, String, arith}
use apostas_api.Prelude.Int.{pos, ltb_ℤ}
use apostas_api.Prelude.Eq.{Eq, ◌==◌, ◌!=◌, nat_eq, string_eq}
use apostas_api.Result.{
  Result, ok, err, invalid_ledger_entry, currency_mismatch, fail_if, ◌>>◌, ◌>>=◌,
}
use apostas_api.Values.{Uuid, uuid_nil, Time, is_zero_time}
use apostas_api.Money.{Currencies, Money, money_eq, valid, is_positive, add, sub}

-- The string type LedgerDirection: "DEBIT", "CREDIT" or any other text. `other ""` is the empty
-- direction of a decision that moves no money.
pub data Direction : Type 0 where
  debit credit : Direction
  other : String → Direction

abbrev pub direction_beq : Direction → Direction → Bool
direction_beq debit debit = true
direction_beq credit credit = true
direction_beq (other s) (other t) = s == t
direction_beq _ _ = false

pub record LedgerEntry : Type 0 where
  pub id : Uuid
  pub wallet_id : Uuid
  pub transaction_id : Uuid
  pub direction : Direction
  pub money : Money
  pub balance_before : Money
  pub balance_after : Money
  pub created_at : Time

module _ ⦃iso : Currencies⦄ where
  -- The `switch direction`: the balance that must follow.
  abbrev pub expected_balance : Direction → Money → Money → Result Money
  expected_balance credit money before = add before money
  expected_balance debit money before = sub before money
  expected_balance (other _) money before = err invalid_ledger_entry

  unfoldable pub new_ledger_entry :
      Uuid → Uuid → Uuid → Direction → Money → Money → Money → Time → Result LedgerEntry
  new_ledger_entry id wallet_id transaction_id direction money before after created_at = do
    fail_if
        (id == uuid_nil
          || wallet_id == uuid_nil
          || transaction_id == uuid_nil
          || not (is_positive money)
          || not (valid before)
          || not (valid after)
          || ltb_ℤ before.minor (pos 0)
          || ltb_ℤ after.minor (pos 0)
          || is_zero_time created_at)
        invalid_ledger_entry
    fail_if (before.currency != money.currency || after.currency != money.currency)
        currency_mismatch
    expected ← expected_balance direction money before
    fail_if (expected != after) invalid_ledger_entry
    ok (record {
      id = id;
      wallet_id = wallet_id;
      transaction_id = transaction_id;
      direction = direction;
      money = money;
      balance_before = before;
      balance_after = after;
      created_at = created_at;
    })
