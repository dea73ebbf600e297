-- ===== src/Wallet.antt =====
-- internal/model/wallet.go: a wallet, its validity, and the two operations on its balance.
pub mod Laws
use apostas_api.Prelude.{◌≡◌, ℕ, Bool, true, not, ◌&&◌, ◌||◌, ltb}
use apostas_api.Prelude.Int.{ℤ, pos, ltb_ℤ, leb_ℤ}
use apostas_api.Prelude.Int64.{max_int64, add64}
use apostas_api.Prelude.Eq.{◌==◌, ◌!=◌, nat_eq, int_eq, string_eq}
use apostas_api.Result.{
  Result, ok, err, invalid_wallet, invalid_money, overflow, currency_mismatch, insufficient_funds,
  fail_if, ◌>>◌, ◌>>=◌,
}
use apostas_api.Values.{Uuid, uuid_nil, Time, is_zero_time, before}
use apostas_api.Money.{Currencies, Money, valid, is_positive, add, sub}

pub record Wallet : Type 0 where
  pub id : Uuid
  pub player_id : Uuid
  pub balance : Money
  pub version : ℤ  -- int64
  pub created_at : Time
  pub updated_at : Time

module _ ⦃iso : Currencies⦄ where
  -- `Wallet.Valid`
  unfoldable pub is_valid : Wallet → Bool
  is_valid w =
      w.id != uuid_nil
      && w.player_id != uuid_nil
      && valid w.balance
      && leb_ℤ (pos 0) w.balance.minor
      && leb_ℤ (pos 1) w.version
      && not (is_zero_time w.created_at)
      && not (is_zero_time w.updated_at)
      && not (before w.updated_at w.created_at)

  unfoldable pub new_wallet : Uuid → Uuid → Money → Time → Result Wallet
  new_wallet id player_id initial now = do
    let wallet : Wallet = record {
      id = id;
      player_id = player_id;
      balance = initial;
      version = pos 1;
      created_at = now;
      updated_at = now;
    }
    fail_if (not (is_valid wallet)) invalid_wallet
    ok wallet

  unfoldable pub rehydrate_wallet : Uuid → Uuid → Money → ℤ → Time → Time → Result Wallet
  rehydrate_wallet id player_id balance version created updated = do
    let wallet : Wallet = record {
      id = id;
      player_id = player_id;
      balance = balance;
      version = version;
      created_at = created;
      updated_at = updated;
    }
    fail_if (not (is_valid wallet)) invalid_wallet
    ok wallet

  -- The answer holds the balance before the operation and the wallet after it; where it is an
  -- error the wallet is left as it was.
  unfoldable pub credit : Wallet → Money → Time → Result (Money × Wallet)
  credit w amount now = do
    fail_if (not (is_valid w) || before now w.updated_at) invalid_wallet
    fail_if (not (is_positive amount) || is_zero_time now) invalid_money
    fail_if (w.version == max_int64) overflow
    fail_if (w.balance.currency != amount.currency) currency_mismatch
    next ← add w.balance amount
    ok (w.balance, record w { balance = next; version = add64 w.version (pos 1); updated_at = now })

  unfoldable pub debit : Wallet → Money → Time → Result (Money × Wallet)
  debit w amount now = do
    fail_if (not (is_valid w) || before now w.updated_at) invalid_wallet
    fail_if (not (is_positive amount) || is_zero_time now) invalid_money
    fail_if (w.version == max_int64) overflow
    fail_if (w.balance.currency != amount.currency) currency_mismatch
    fail_if (ltb_ℤ w.balance.minor amount.minor) insufficient_funds
    next ← sub w.balance amount
    ok (w.balance, record w { balance = next; version = add64 w.version (pos 1); updated_at = now })
