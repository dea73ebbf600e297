-- ===== src/Store/Opening.antt =====
-- internal/infra/postgres/store.go: `CreateWallet` and the sums of the ledger.
use mathlib.Core.Path.{subst}
use apostas_api.Prelude.{
  ◌≡◌, ◌≤◌, ℕ, true, false, List, ◌∷◌, String, refl, sym, ◌∙◌, arith, Bool-cases, inl, inr,
  some-inj, ap,
}
use apostas_api.Prelude.Int.{ℤ, pos, ◌+ℤ◌, ◌≤ℤ◌, int_laws}
use apostas_api.Prelude.Int64.{IsInt64}
use apostas_api.Prelude.Eq.{◌==◌, nat_eq, eqb_iff}
use apostas_api.Result.{ok, >>=-eq-ok, ok-inj, or_error, other_error}
use apostas_api.Values.{Uuid}
use apostas_api.Money.{Currencies, Money, money_from_minor, is_positive, valid}
use apostas_api.Wallet.{Wallet, is_valid}
use apostas_api.Wallet.Laws.{is_valid-Facts}
use apostas_api.LedgerEntry.{credit}
use apostas_api.Transaction.{opening, processed}
use apostas_api.WagerTransaction.{new_opening_transaction}
use apostas_api.Database.{WalletRow, LedgerRow, TransactionRow, Database, find}
use apostas_api.Database.Wallets.{ledger_sum, Sound, ledger_sum-own, ledger_sum-other}
use apostas_api.Store.Rows.{Fresh, insert_transaction, insert_ledger, add_wager_event}
use apostas_api.Store.Ledger.{
  SoundDatabase, insert_ledger-eq-ok, add_balance_event-SameBooks, add_wager_event-SameBooks,
}
use apostas_api.Store.Wallets.{
  wallet_row, opening_row, insert_wallet, zero_of, post_opening, create_wallet,
}

-- A new row whose balance its ledger explains.
module _ (row : WalletRow) (ws : List WalletRow) (es es' : List LedgerRow) where
  row-Sound :
      row.balance_minor ≡ ledger_sum row.id es'
      → IsInt64 row.balance_minor × IsInt64 row.version
      → ((j : Uuid) → (row.id == j) ≡ false → ledger_sum j es' ≡ ledger_sum j es)
      → Sound ws es
      → Sound (row ∷ ws) es'
  unfolding find
  row-Sound own fits other s = record {
    reconciled = λ j w h. elim (Bool-cases (row.id == j)) [
      | inl same ↦
          let is : row ≡ w = some-inj (rw same at h) in rw⁻¹ (is, (eqb_iff row.id j).0 same) own
      | inr apart ↦ rw (other j apart) (s.reconciled j w (rw apart at h))
    ];
    bigints = λ j w h. elim (Bool-cases (row.id == j)) [
      | inl same ↦ let is : row ≡ w = some-inj (rw same at h) in rw⁻¹ is fits
      | inr apart ↦ s.bigints j w (rw apart at h)
    ];
  }

insert_wallet-eq-ok :
    (row : WalletRow) (db : Database) {db' : Database}
    → insert_wallet row db ≡ ok db'
    → (db'.wallets ≡ row ∷ db.wallets) × (db'.ledger ≡ db.ledger)
unfolding insert_wallet
insert_wallet-eq-ok row db h = ground arith

insert_opening :
    (t : TransactionRow) (db : Database) {db' : Database}
    → or_error (insert_transaction t db) other_error ≡ ok db'
    → (db'.wallets ≡ db.wallets) × (db'.ledger ≡ db.ledger)
unfolding insert_transaction
insert_opening t db h = ground arith

-- Zero, and the first version, are int64 values.
small_fits : (n : ℕ) → n ≤ 1 → IsInt64 (pos n)
small_fits n h = ground arith

plus_zero : (a : ℤ) → a +ℤ pos 0 ≡ a
plus_zero a = omega int_laws

-- A wallet whose entry is the first one has that entry's amount for its sum.
first_entry :
    (e : LedgerRow) (es : List LedgerRow) (id : Uuid) (a : ℤ)
    → e.wallet_id ≡ id
    → e.direction ≡ credit
    → e.amount_minor ≡ a
    → ledger_sum id es ≡ pos 0
    → a ≡ ledger_sum id (e ∷ es)
first_entry e es id a own dir amt empty =
    rw (ledger_sum-own id e es own, dir, amt, empty) (sym (plus_zero a))

module _ ⦃iso : Currencies⦄ where
  zero_of_minor : (currency : String) → (zero_of currency).minor ≡ pos 0
  unfolding money_from_minor
  zero_of_minor currency = ground arith

  post_opening-eq-ok :
      (fresh : Fresh) (w : Wallet) (db : Database) {db' : Database}
      → IsInt64 w.balance.minor
      → post_opening fresh w db ≡ ok db'
      → (db'.wallets ≡ db.wallets)
        × ((e : LedgerRow) × (db'.ledger ≡ e ∷ db.ledger)
            × (e.wallet_id ≡ w.id)
            × (e.direction ≡ credit)
            × (e.amount_minor ≡ w.balance.minor))
  unfolding post_opening
  post_opening-eq-ok fresh w db fits h =
      let zero = zero_of w.balance.currency in
      let (t, made, h1) =
        >>=-eq-ok
          (new_opening_transaction fresh.transaction_id w.id w.player_id w.balance w.created_at) _
          h in
      let (db1, put, h2) =
        >>=-eq-ok (or_error (insert_transaction (opening_row fresh w) db) other_error) _ h1 in
      let (db2, entered, h3) =
        >>=-eq-ok
          (insert_ledger fresh w.id fresh.transaction_id credit w.balance zero w.balance (pos 1)
            w.created_at db1)
          _ h2 in
      let (db3, told, h4) =
        >>=-eq-ok (add_wager_event fresh "" w.id _ "" opening processed "" db2) _ h3 in
      let (w1, l1) = insert_opening (opening_row fresh w) db put in
      let (e, l2, w2, own, dir, amt, _) =
        insert_ledger-eq-ok fresh w.id _ credit w.balance zero w.balance (pos 1) w.created_at db1
          fits (rw (zero_of_minor w.balance.currency) (small_fits 0 (omega arith))) entered in
      let (w3, l3) = add_wager_event-SameBooks fresh "" w.id _ "" opening processed "" db2 told in
      let (w4, l4) =
        add_balance_event-SameBooks fresh "" w.id _ credit w.balance zero w.balance (pos 1) db3
          h4 in
      (w4 ∙ w3 ∙ w2 ∙ w1, (e, l4 ∙ l3 ∙ l2 ∙ ap (λ x. e ∷ x) l1, own, dir, amt))

  not_positive :
      (m : Money) → valid m ≡ true → pos 0 ≤ℤ m.minor → is_positive m ≡ false → m.minor ≡ pos 0
  not_positive m v n h = ground arith

  nonpositive_zero :
      (w : Wallet) → is_valid w ≡ true → is_positive w.balance ≡ false → w.balance.minor ≡ pos 0
  nonpositive_zero w v h =
      let f = is_valid-Facts w v in not_positive w.balance f.currency_valid f.balance_nonneg h

  -- Opening a valid wallet with an int64 balance, under an identifier that the ledger does not
  -- mention, keeps every stored balance the signed sum of its wallet's ledger entries: the opening
  -- balance is entered in the ledger, and a wallet opened with nothing has no entry.
  pub create_wallet-Sound :
      (fresh : Fresh) (w : Wallet) (db : Database) {db' : Database}
      → is_valid w ≡ true
      → IsInt64 w.balance.minor
      → ledger_sum w.id db.ledger ≡ pos 0
      → SoundDatabase db
      → create_wallet fresh w db ≡ ok db'
      → SoundDatabase db'
  unfolding create_wallet
  create_wallet-Sound fresh w db {db'} valid fits unused sound h =
      let (inserted, put, h1) = >>=-eq-ok (insert_wallet (wallet_row w) db) _ h in
      let (ws, es) = insert_wallet-eq-ok (wallet_row w) db put in
      let both : IsInt64 w.balance.minor × IsInt64 (pos 1) = (fits, small_fits 1 (omega arith)) in
      elim (Bool-cases (is_positive w.balance)) [
        | inl positive ↦
            let (ws1, (e, es1, own, dir, amt)) =
              post_opening-eq-ok fresh w inserted fits (rw positive at h1) in
            rw (ws1, es1, ws, es)
              (row-Sound (wallet_row w) db.wallets db.ledger (e ∷ db.ledger)
                (first_entry e db.ledger w.id w.balance.minor own dir amt unused) both
                (λ j apart. ledger_sum-other j e db.ledger (rw own apart)) sound)
        | inr zero ↦
            let same : inserted ≡ db' = ok-inj (rw zero at h1) in
            subst SoundDatabase same (
              rw (ws, es)
                (row-Sound (wallet_row w) db.wallets db.ledger db.ledger
                  (nonpositive_zero w valid zero ∙ sym unused) both (λ j apart. refl) sound))
      ]
