-- ===== src/LedgerEntry/Balance.antt =====
-- internal/model/ledger.go: an entry and the balances that it lies between.
use text.Mathlib.TextEquality.{eq_iff}
use apostas_api.Prelude.{◌≡◌, true, arith, ◌≢◌}
use apostas_api.Prelude.Int.{pos, ◌+ℤ◌, ◌-ℤ◌, ◌≤ℤ◌}
use apostas_api.Prelude.Int64.{IsInt64}
use apostas_api.Prelude.Eq.{int_beq_iff}
use apostas_api.Result.{ok}
use apostas_api.Values.{Uuid, Time}
use apostas_api.Money.{Currencies, Money, money_eq, valid}
use apostas_api.Money.Arithmetic.{add_exact, sub_exact}
use apostas_api.LedgerEntry.{Direction, debit, credit, other, LedgerEntry, new_ledger_entry}

-- The balance moves up by the amount of a credit and down by that of a debit.
abbrev pub Moves : Direction → Money → Money → Money → Type 0
Moves credit money b a = a.minor ≡ b.minor +ℤ money.minor
Moves debit money b a = a.minor ≡ b.minor -ℤ money.minor
Moves (other _) money b a = ⊥

module _ ⦃iso : Currencies⦄ where
  -- An entry that is made holds the given values. Its amount is at least one, both balances are
  -- zero or more, the three currencies are one, and the balances differ by exactly the amount.
  pub new_ledger_entry_sound :
      (id w t : Uuid) (d : Direction) (m b a : Money) (at : Time) {e : LedgerEntry}
      → IsInt64 m.minor
      → IsInt64 b.minor
      → new_ledger_entry id w t d m b a at ≡ ok e
      → (e ≡ record {
        id = id;
        wallet_id = w;
        transaction_id = t;
        direction = d;
        money = m;
        balance_before = b;
        balance_after = a;
        created_at = at;
      })
        × (pos 1 ≤ℤ m.minor)
        × (pos 0 ≤ℤ b.minor)
        × (pos 0 ≤ℤ a.minor)
        × (b.currency ≡ m.currency)
        × (a.currency ≡ m.currency)
        × Moves d m b a
  unfolding new_ledger_entry
  new_ledger_entry_sound id w t credit m b a at hm hb h = ground (
    arith,
    add_exact b m hb hm,
    eq_iff b.currency m.currency,
    eq_iff a.currency m.currency,
    int_beq_iff (b.minor +ℤ m.minor) a.minor,
  )
  new_ledger_entry_sound id w t debit m b a at hm hb h = ground (
    arith,
    sub_exact b m hb hm,
    eq_iff b.currency m.currency,
    eq_iff a.currency m.currency,
    int_beq_iff (b.minor -ℤ m.minor) a.minor,
  )
  new_ledger_entry_sound id w t (other s) m b a at hm hb h = ground arith

  -- For set identifiers and a set time, a credit from a valid non-negative balance to the exact
  -- non-negative sum is always recorded, and so is a debit to the exact difference.
  pub new_ledger_entry_complete :
      (id w t : Uuid) (d : Direction) (m b a : Money) (at : Time)
      → IsInt64 m.minor
      → IsInt64 b.minor
      → IsInt64 a.minor
      → id ≢ 0
      → w ≢ 0
      → t ≢ 0
      → at ≢ 0
      → valid m ≡ true
      → pos 1 ≤ℤ m.minor
      → pos 0 ≤ℤ b.minor
      → pos 0 ≤ℤ a.minor
      → b.currency ≡ m.currency
      → a.currency ≡ m.currency
      → Moves d m b a
      → new_ledger_entry id w t d m b a at
        ≡ ok (record {
          id = id;
          wallet_id = w;
          transaction_id = t;
          direction = d;
          money = m;
          balance_before = b;
          balance_after = a;
          created_at = at;
        })
  unfolding new_ledger_entry
  new_ledger_entry_complete id w t credit m b a at hm hb ha si sw st sa v pm pb pa cb ca mv =
      ground (
        arith,
        add_exact b m hb hm,
        eq_iff b.currency m.currency,
        eq_iff b.currency a.currency,
        eq_iff a.currency m.currency,
        int_beq_iff (b.minor +ℤ m.minor) a.minor,
      )
  new_ledger_entry_complete id w t debit m b a at hm hb ha si sw st sa v pm pb pa cb ca mv =
      ground (
        arith,
        sub_exact b m hb hm,
        eq_iff b.currency m.currency,
        eq_iff b.currency a.currency,
        eq_iff a.currency m.currency,
        int_beq_iff (b.minor -ℤ m.minor) a.minor,
      )
  new_ledger_entry_complete id w t (other s) m b a at hm hb ha si sw st sa v pm pb pa cb ca mv =
      elim mv [ ]
