-- ===== src/Store/Writes/Turns.antt =====
-- internal/infra/postgres/store.go: `ResolvePendingReference` as a sequence of writes.
use mathlib.Core.Path.{subst}
use apostas_api.Prelude.{
  ◌≡◌, Bool, true, refl, inl, inr, Bool-cases, Option-cases, if◌then◌else◌, leb, suc,
}
use apostas_api.Prelude.Eq.{◌==◌, nat_eq}
use apostas_api.Result.{ok, err, other_error, >>=-eq-ok, ok-inj}
use apostas_api.Money.{Currencies}
use apostas_api.Wallet.{Wallet}
use apostas_api.Transaction.{
  pending_reference, rejected, status_eq, rehydrate_transaction_state, transition,
}
use apostas_api.Wager.{Operation, Decision, decision, decide}
use apostas_api.Database.{TransactionRow, Database, exists}
use apostas_api.Database.Wallets.{has_id}
use apostas_api.Store.Rows.{Fresh, load_wallet}
use apostas_api.Store.Calls.{move_funds, reference_row, reference_of}
use apostas_api.Store.Resolve.{
  first_due, update_transaction, rescheduled, settled_row, settle, after_attempt, attempt,
  resolve_pending, operation_of,
}
use apostas_api.Store.Resolve.Attempts.{Among, first_due-Among, due_waits}
use apostas_api.Store.Resolve.Books.{found_wallet}
use apostas_api.Store.Writes.{changed_outcome, Writes, nothing, Writes-trans, single_step}
use apostas_api.Store.Writes.Calls.{move_funds-Writes, add_wager_event-Writes, load_wallet-exists}
use apostas_api.Store.Writes.Effects.{update_transaction-Tables}

module _ ⦃iso : Currencies⦄ (fresh : Fresh) (t : TransactionRow) (db : Database)
    (m : Among t db.transactions) (waits : t.status ≡ pending_reference) where
  module _ (op : Operation) (known : exists (has_id op.wallet_id) db.wallets ≡ true) where
    settle-Writes :
        (d : Decision) (w : Wallet) {db' : Database}
        → settle fresh op t d w db ≡ ok db'
        → Writes db db'
    unfolding settle
    settle-Writes d w h =
        let row = settled_row fresh.now d w t in
        let (s, read, h1) = >>=-eq-ok (rehydrate_transaction_state pending_reference) _ h in
        let (s', reached, h2) = >>=-eq-ok (transition s d.status) _ h1 in
        let (updated, put, h3) = >>=-eq-ok (update_transaction row db) _ h2 in
        let (moved, posted, told) =
          >>=-eq-ok (move_funds fresh "" op.wallet_id t.id op.money d w updated) _ h3 in
        Writes-trans (single_step (changed_outcome t row m waits refl put)) (
          Writes-trans
            (move_funds-Writes fresh "" op.wallet_id t.id op.money d w updated
              (rw (update_transaction-Tables row db put).0.0 known) posted)
            (add_wager_event-Writes fresh "" _ _ _ _ _ _ moved told))

    after_attempt-Writes :
        (d : Decision) (w : Wallet) {db' : Database}
        → after_attempt fresh op t (d, w) db ≡ ok db'
        → Writes db db'
    unfolding after_attempt
    after_attempt-Writes d w h = elim (Bool-cases (d.status == pending_reference)) [
      | inl parks ↦ elim (Bool-cases (leb 10 (suc t.attempts))) [
        | inl last ↦
            settle-Writes (decision rejected "REFERENCE_NOT_FOUND") w (rw (parks, last) at h)
        | inr again ↦
            single_step
              (changed_outcome t (rescheduled fresh.now t) m waits refl (rw (parks, again) at h))
      ]
      | inr settles ↦ settle-Writes d w (rw settles at h)
    ]

  attempt-Writes : {db' : Database} → attempt fresh t db ≡ ok db' → Writes db db'
  unfolding attempt
  attempt-Writes h =
      let (op, read, h1) = >>=-eq-ok (operation_of t) _ h in
      let (w, taken, h2) =
        >>=-eq-ok
          (if exists (has_id op.wallet_id) db.wallets
            then load_wallet op.wallet_id db
            else err other_error)
          _ h1 in
      let known : exists (has_id op.wallet_id) db.wallets ≡ true =
        load_wallet-exists op.wallet_id db (
          found_wallet (exists (has_id op.wallet_id) db.wallets) (load_wallet op.wallet_id db)
            taken) in
      let (ref, referred, h3) =
        >>=-eq-ok
          (reference_of (reference_row op.provider_id op.reference_external_transaction_id db) db) _
          h2 in
      after_attempt-Writes op known (decide op w ref fresh.now).0 (decide op w ref fresh.now).1 h3

module _ ⦃iso : Currencies⦄ where
  pub resolve_pending-Writes :
      (fresh : Fresh) (db : Database) {r : Bool × Database}
      → resolve_pending fresh db ≡ ok r
      → Writes db r.1
  unfolding resolve_pending
  resolve_pending-Writes fresh db h = elim (Option-cases (first_due fresh.db_now db.transactions)) [
    | inl idle ↦ subst (λ (x : Bool × Database). Writes db x.1) (ok-inj (rw idle at h)) nothing
    | inr (t, due) ↦
        let (m, is) = first_due-Among fresh.db_now db.transactions t due in
        let (db', done, answer) = >>=-eq-ok (attempt fresh t db) _ (rw due at h) in
        subst (λ (x : Bool × Database). Writes db x.1) (ok-inj answer)
          (attempt-Writes fresh t db m (due_waits fresh.db_now t is) done)
  ]
