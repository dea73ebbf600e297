-- ===== src/Store/Reconciliation.antt =====
-- internal/infra/postgres/store.go: `ReconcileWallet` in a sound database.
use apostas_api.Prelude.{◌≡◌, true, some, refl, sym, arith}
use text.Mathlib.TextPositions.{eq_refl}
use apostas_api.Prelude.Int.{ℤ, pos, ◌-ℤ◌, int_laws}
use apostas_api.Prelude.Int64.{IsInt64, fits_int64}
use apostas_api.Prelude.Eq.{nat_eq}
use apostas_api.Result.{ok}
use apostas_api.Values.{Uuid}
use apostas_api.Money.{Currencies, Money, money_from_minor, valid_currency, sub, valid}
use apostas_api.Money.Arithmetic.{sub_exact}
use apostas_api.Database.{WalletRow, Database, find}
use apostas_api.Database.Wallets.{has_id}
use apostas_api.Store.Ledger.{SoundDatabase}
use apostas_api.Store.Wallets.{count_entries, reconcile_wallet}

fits_true : (a : ℤ) → IsInt64 a → fits_int64 a ≡ true
fits_true a h = ground arith

minus_self : (a : ℤ) → a -ℤ a ≡ pos 0
minus_self a = omega int_laws

module _ ⦃iso : Currencies⦄ where
  minus_itself :
      (m : Money)
      → IsInt64 m.minor
      → valid m ≡ true
      → sub m m ≡ ok (record { minor = pos 0; currency = m.currency })
  minus_itself m h v = ground (arith, sub_exact m m, minus_self m.minor, eq_refl m.currency)

  -- In a sound database `ReconcileWallet` answers for every wallet with a valid currency: the sum of
  -- the ledger is the stored balance, the difference is zero, and the wallet is consistent.
  pub reconcile_wallet-consistent :
      (id : Uuid) (db : Database) (row : WalletRow)
      → SoundDatabase db
      → find (has_id id) db.wallets ≡ some row
      → valid_currency row.currency ≡ true
      → reconcile_wallet id db
        ≡ ok (record {
          wallet_id = id;
          stored_balance = record { minor = row.balance_minor; currency = row.currency };
          calculated_balance = record { minor = row.balance_minor; currency = row.currency };
          difference = record { minor = pos 0; currency = row.currency };
          consistent = true;
          checked_entries = count_entries id db.ledger;
        })
  unfolding reconcile_wallet money_from_minor
  reconcile_wallet-consistent id db row sound here cur =
      let money : Money = record { minor = row.balance_minor; currency = row.currency } in
      let (fits, _) = sound.bigints id row here in
      rw
        (
          here,
          sym (sound.reconciled id row here),
          fits_true row.balance_minor fits,
          cur,
          minus_itself money fits cur,
          cur,
        )
        refl
