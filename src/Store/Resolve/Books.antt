-- ===== src/Store/Resolve/Books.antt =====
-- internal/infra/postgres/store.go: `ResolvePendingReference` and the sums of the ledger.
use mathlib.Core.Path.{subst}
use apostas_api.Prelude.{
  ◌≡◌, ◌≢◌, suc, Bool, true, false, Option, none, some, List, [], ◌∷◌, arith, refl, Bool-cases, inl,
  inr, leb, if◌then◌else◌, Option-cases,
}
use apostas_api.Prelude.Int64.{IsInt64}
use apostas_api.Prelude.Eq.{◌==◌, nat_eq}
use apostas_api.Result.{Result, ok, err, other_error, >>=-eq-ok, ok-inj}
use apostas_api.Values.{Time}
use apostas_api.Money.{Currencies, Money, money_from_minor}
use apostas_api.Wallet.{Wallet, is_valid}
use apostas_api.Wallet.Laws.{Fits}
use apostas_api.LedgerEntry.{Direction, debit, credit}
use apostas_api.Transaction.{
  pending_reference, rejected, status_eq, status_beq_iff, rehydrate_transaction_state, transition,
}
use apostas_api.Wager.{Operation, Decision, decision, decide}
use apostas_api.Wager.Outcomes.{WellFormed, decide-WellFormed}
use apostas_api.Wager.Balances.{Effect, Applied, decide-Applied}
use apostas_api.Database.{WalletRow, TransactionRow, Database, find, exists}
use apostas_api.Database.Wallets.{has_id}
use apostas_api.Store.Rows.{Fresh, load_wallet}
use apostas_api.Store.Calls.{reference_row, reference_of, move_funds}
use apostas_api.Store.Ledger.{
  SoundDatabase, SameBooks, add_wager_event-SameBooks, move_funds-Sound, load_wallet-eq-ok,
}
use apostas_api.Store.Resolve.{
  first_due, is_due, sooner, update_transaction, rescheduled, settled_row, operation_of, settle,
  after_attempt, attempt, resolve_pending,
}

-- The amounts are `bigint` columns.
abbrev pub BigintAmounts : List TransactionRow → Type 0
BigintAmounts [] = Unit {0}
BigintAmounts (t ∷ ts) = IsInt64 t.amount_minor × BigintAmounts ts

sooner-IsInt64 :
    (t : TransactionRow) (o : Option TransactionRow) (u : TransactionRow)
    → some (sooner t o) ≡ some u
    → IsInt64 t.amount_minor
    → ((v : TransactionRow) → o ≡ some v → IsInt64 v.amount_minor)
    → IsInt64 u.amount_minor
sooner-IsInt64 t none u h own rest = ground arith
sooner-IsInt64 t (some v) u h own rest = ground (arith, rest v refl)

first_due-IsInt64 :
    (now : Time) (ts : List TransactionRow) (t : TransactionRow)
    → BigintAmounts ts
    → first_due now ts ≡ some t
    → IsInt64 t.amount_minor
unfolding first_due
first_due-IsInt64 now [] t all h = cc
first_due-IsInt64 now (u ∷ us) t (own, all) h = elim (Bool-cases (is_due now u)) [
  | inl due ↦
      sooner-IsInt64 u (first_due now us) t (rw due at h) own
        (λ v e. first_due-IsInt64 now us v all e)
  | inr not_due ↦ first_due-IsInt64 now us t all (rw not_due at h)
]

update_transaction-SameBooks :
    (t : TransactionRow) (db : Database) {db' : Database}
    → update_transaction t db ≡ ok db'
    → SameBooks db db'
unfolding update_transaction
update_transaction-SameBooks t db h = ground arith

-- A decision that moves nothing leaves the wallet.
Effect-idle :
    (d : Direction) (m : Money) (w : Wallet) (now : Time) (b : Money) (w' : Wallet)
    → ((d ≢ Direction.other "") → ⊥)
    → Effect d m w now b w'
    → w' ≡ w
Effect-idle credit m w now b w' idle e = absurd (idle (λ h. cc))
Effect-idle debit m w now b w' idle e = absurd (idle (λ h. cc))
Effect-idle (Direction.other s) m w now b w' idle e = e.1

module _ ⦃iso : Currencies⦄ where
  pub operation_of-eq-ok :
      (t : TransactionRow) {op : Operation}
      → operation_of t ≡ ok op
      → (op.money.minor ≡ t.amount_minor)
  unfolding operation_of money_from_minor
  operation_of-eq-ok t h = ground arith

  module _ (fresh : Fresh) (op : Operation) (t : TransactionRow) (w : Wallet) (db : Database)
      (row : WalletRow) (here : find (has_id op.wallet_id) db.wallets ≡ some row)
      (stored : w.balance.minor ≡ row.balance_minor) (valid : is_valid w ≡ true) (fits : Fits w)
      (amount : IsInt64 op.money.minor) (sound : SoundDatabase db) where
    settle-Sound :
        (d : Decision) (w' : Wallet) {db' : Database}
        → Fits w'
        → Effect d.direction op.money w fresh.now d.balance_before w'
        → settle fresh op t d w' db ≡ ok db'
        → SoundDatabase db'
    unfolding settle
    settle-Sound d w' fits' eff h =
        let (s, known, h1) = >>=-eq-ok (rehydrate_transaction_state pending_reference) _ h in
        let (s', reached, h2) = >>=-eq-ok (transition s d.status) _ h1 in
        let (updated, put, h3) =
          >>=-eq-ok (update_transaction (settled_row fresh.now d w' t) db) _ h2 in
        let (ws, es) = update_transaction-SameBooks (settled_row fresh.now d w' t) db put in
        let (moved, posted, told) =
          >>=-eq-ok (move_funds fresh "" op.wallet_id t.id op.money d w' updated) _ h3 in
        let after : SoundDatabase moved =
          move_funds-Sound fresh op.wallet_id op.money w w' updated row (rw ws here) stored fits
            fits' amount (rw (ws, es) sound) "" t.id d eff posted in
        let (ws', es') = add_wager_event-SameBooks fresh "" _ _ _ _ _ _ moved told in
        rw (ws', es') after

    after_attempt-Sound :
        (d : Decision) (w' : Wallet) {db' : Database}
        → Fits w'
        → Effect d.direction op.money w fresh.now d.balance_before w'
        → WellFormed d
        → after_attempt fresh op t (d, w') db ≡ ok db'
        → SoundDatabase db'
    unfolding after_attempt
    after_attempt-Sound d w' fits' eff shape h = elim (Bool-cases (d.status == pending_reference)) [
      | inl waits ↦
          let parked : d.status ≡ pending_reference =
            (status_beq_iff d.status pending_reference).0 waits in
          let same : w' ≡ w =
            Effect-idle d.direction op.money w fresh.now d.balance_before w'
              (λ n. cc (parked, shape.moves_when_processed n)) eff in
          elim (Bool-cases (leb 10 (suc t.attempts))) [
            | inl last ↦
                settle-Sound (decision rejected "REFERENCE_NOT_FOUND") w' fits' (refl, same)
                  (rw (waits, last) at h)
            | inr again ↦
                let (ws, es) =
                  update_transaction-SameBooks (rescheduled fresh.now t) db
                    (rw (waits, again) at h) in
                rw (ws, es) sound
          ]
      | inr settles ↦ settle-Sound d w' fits' eff (rw settles at h)
    ]

  pub found_wallet :
      (b : Bool) (r : Result Wallet) {w : Wallet}
      → (if b then r else err other_error) ≡ ok w
      → r ≡ ok w
  found_wallet true r h = h
  found_wallet false r h = cc

  attempt-Sound :
      (fresh : Fresh) (t : TransactionRow) (db : Database) {db' : Database}
      → IsInt64 t.amount_minor
      → SoundDatabase db
      → attempt fresh t db ≡ ok db'
      → SoundDatabase db'
  unfolding attempt
  attempt-Sound fresh t db fit sound h =
      let (op, read, h1) = >>=-eq-ok (operation_of t) _ h in
      let (w, taken, h2) =
        >>=-eq-ok
          (if exists (has_id op.wallet_id) db.wallets
            then load_wallet op.wallet_id db
            else err other_error)
          _ h1 in
      let loaded : load_wallet op.wallet_id db ≡ ok w =
        found_wallet (exists (has_id op.wallet_id) db.wallets) (load_wallet op.wallet_id db)
          taken in
      let (row, here, stored, version, valid, own) = load_wallet-eq-ok op.wallet_id db loaded in
      let fits : Fits w = rw (stored, version) (sound.bigints op.wallet_id row here) in
      let amount : IsInt64 op.money.minor = rw (operation_of-eq-ok t read) fit in
      let (ref, referred, h3) =
        >>=-eq-ok
          (reference_of (reference_row op.provider_id op.reference_external_transaction_id db) db) _
          h2 in
      let a : Applied op w fresh.now (decide op w ref fresh.now) =
        decide-Applied op w ref fresh.now valid fits amount in
      after_attempt-Sound fresh op t w db row here stored valid fits amount sound
        (decide op w ref fresh.now).0 (decide op w ref fresh.now).1 a.fits_after a.effect
        (decide-WellFormed op w ref fresh.now) h3

  -- For int64 amounts, an attempt of `ResolvePendingReference` that succeeds keeps every stored
  -- balance the signed sum of its wallet's ledger entries, whether it settles a transaction, lets it
  -- wait, gives it up, or finds none.
  pub resolve_pending-Sound :
      (fresh : Fresh) (db : Database) {r : Bool × Database}
      → BigintAmounts db.transactions
      → SoundDatabase db
      → resolve_pending fresh db ≡ ok r
      → SoundDatabase r.1
  unfolding resolve_pending
  resolve_pending-Sound fresh db amounts sound h =
      elim (Option-cases (first_due fresh.db_now db.transactions)) [
        | inl idle ↦
            subst (λ (x : Bool × Database). SoundDatabase x.1) (ok-inj (rw idle at h)) sound
        | inr (t, due) ↦
            let (db', done, is) = >>=-eq-ok (attempt fresh t db) _ (rw due at h) in
            subst (λ (x : Bool × Database). SoundDatabase x.1) (ok-inj is)
              (attempt-Sound fresh t db
                (first_due-IsInt64 fresh.db_now db.transactions t amounts due) sound done)
      ]
