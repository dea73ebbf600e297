-- ===== src/Store/Writes/Services.antt =====
-- internal/usecases and internal/infra/postgres/store.go: the use cases that write, as sequences of
-- writes.
use mathlib.Core.Path.{subst}
use apostas_api.Prelude.{
  ◌≡◌, true, Option, none, some, List, ◌∷◌, String, arith, refl, inl, inr, Bool-cases,
}
use apostas_api.Prelude.Int.{pos}
use apostas_api.Prelude.Int64.{IsInt64}
use apostas_api.Prelude.Eq.{◌!=◌, nat_eq, string_eq, eqb_iff}
use apostas_api.Result.{
  Result, ok, conflict, other_error, invalid_input, or_error, fail_if, >>=-eq-ok, ok-inj,
}
use apostas_api.Values.{Uuid, Time}
use apostas_api.Money.{Currencies, Money, is_positive}
use apostas_api.Wallet.{Wallet, new_wallet}
use apostas_api.LedgerEntry.{credit}
use apostas_api.Transaction.{opening, processed, failed, validate_operation}
use apostas_api.WagerTransaction.{new_opening_transaction}
use apostas_api.Wager.{Operation, decision, decide}
use apostas_api.Database.{WalletRow, TransactionRow, Database, find, exists}
use apostas_api.Database.Wallets.{has_id}
use apostas_api.Store.Rows.{Fresh, found, insert_transaction, add_wager_event, insert_ledger}
use apostas_api.Store.Calls.{WagerResult, InboxMessage, Decide, execute_tx, execute}
use apostas_api.Store.Inbox.{receive, complete, is_message, execute_inbox}
use apostas_api.Store.Wallets.{
  wallet_row, opening_row, insert_wallet, zero_of, post_opening, create_wallet, open_wallet,
}
use apostas_api.Store.Writes.{
  elsewhere, added_transaction, added_wallet, Writes, nothing, Writes-trans, single_step,
}
use apostas_api.Store.Writes.Calls.{
  execute_tx-Writes, insert_ledger-Writes, add_wager_event-Writes, add_balance_event-Writes,
}
use apostas_api.Store.Writes.Effects.{insert_transaction-Tables, insert_wallet-Tables}
use apostas_api.Requests.{
  Canonical, process, fail_operation, dispatch, process_steps, lacks_identity, canonical_operation,
}
use apostas_api.Strings.{is_blank}

receive-Writes : (fresh : Fresh) (m : InboxMessage) (db : Database) → Writes db (receive fresh m db)
unfolding receive
receive-Writes fresh m db = elim (Bool-cases (exists (is_message m) db.inbox)) [
  | inl known ↦ rw known nothing
  | inr new ↦ rw new (single_step (elsewhere refl refl refl))
]

complete-Writes :
    (at : Option Time) (fresh : Fresh) (m : InboxMessage) (db : Database)
    → Writes db (complete at fresh m db)
unfolding complete
complete-Writes none fresh m db = single_step (elsewhere refl refl refl)
complete-Writes (some t) fresh m db = nothing

stored_wallet :
    (row : WalletRow) (ws ws' : List WalletRow) → ws' ≡ row ∷ ws → exists (has_id row.id) ws' ≡ true
unfolding exists
stored_wallet row ws ws' h = rw (h, (eqb_iff row.id row.id).1 refl) refl

inserted_opening :
    (t : TransactionRow) (db : Database) {db' : Database}
    → or_error (insert_transaction t db) other_error ≡ ok db'
    → insert_transaction t db ≡ ok db'
inserted_opening t db h = ground arith

module _ ⦃iso : Currencies⦄ where
  pub execute_inbox-Writes :
      (fresh : Fresh) (m : InboxMessage) (op : Operation) (hash : String) (choose : Decide)
      (db : Database) {r : WagerResult × Database}
      → IsInt64 op.money.minor
      → execute_inbox fresh m op hash choose db ≡ ok r
      → Writes db r.1
  unfolding execute_inbox
  execute_inbox-Writes fresh m op hash choose db amount h =
      let received = receive fresh m db in
      let (row, here, h1) =
        >>=-eq-ok (found (find (is_message m) received.inbox) other_error) _ h in
      let (u, same, h2) = >>=-eq-ok (fail_if (row.payload_hash != m.payload_hash) conflict) _ h1 in
      let (r1, executed, done) =
        >>=-eq-ok (execute_tx fresh m.message_id op hash choose received) _ h2 in
      subst (λ (x : WagerResult × Database). Writes db x.1) (ok-inj done)
        (Writes-trans (receive-Writes fresh m db) (
          Writes-trans
            (execute_tx-Writes fresh m.message_id op hash choose received amount executed)
            (complete-Writes row.completed_at fresh m r1.1)))

  module _ (hash : Canonical → Result String) (fresh : Fresh) (op : Operation) (db : Database)
      (amount : IsInt64 op.money.minor) where
    dispatch-Writes :
        (inbox : Option InboxMessage) (sum : String) {r : WagerResult × Database}
        → dispatch fresh inbox op sum db ≡ ok r
        → Writes db r.1
    unfolding execute
    dispatch-Writes none sum h = execute_tx-Writes fresh "" op sum (decide op) db amount h
    dispatch-Writes (some m) sum h = execute_inbox-Writes fresh m op sum (decide op) db amount h

    pub process-Writes :
        (inbox : Option InboxMessage) {r : WagerResult × Database}
        → process hash fresh inbox op db ≡ ok r
        → Writes db r.1
    process-Writes inbox h =
        let (_, _, (sum, done)) = process_steps hash fresh inbox op db h in
        dispatch-Writes inbox sum done

    pub fail_operation-Writes :
        (code : String) {r : WagerResult × Database}
        → fail_operation hash fresh op code db ≡ ok r
        → Writes db r.1
    unfolding fail_operation execute
    fail_operation-Writes code h =
        let (u, coded, h1) = >>=-eq-ok (fail_if (is_blank code) invalid_input) _ h in
        let (v, complete, h2) = >>=-eq-ok (fail_if (lacks_identity op) invalid_input) _ h1 in
        let (x, valid_op, h3) =
          >>=-eq-ok
            (or_error (validate_operation op.kind op.money op.reference_external_transaction_id)
              invalid_input)
            _ h2 in
        let (sum, hashed, h4) = >>=-eq-ok (hash (canonical_operation op)) _ h3 in
        execute_tx-Writes fresh "" op sum (λ wallet ref now. (decision failed code, wallet)) db
          amount h4

  post_opening-Writes :
      (fresh : Fresh) (w : Wallet) (db : Database) {db' : Database}
      → IsInt64 w.balance.minor
      → exists (has_id w.id) db.wallets ≡ true
      → post_opening fresh w db ≡ ok db'
      → Writes db db'
  unfolding post_opening
  post_opening-Writes fresh w db fits known h =
      let zero = zero_of w.balance.currency in
      let row = opening_row fresh w in
      let (t, made, h1) =
        >>=-eq-ok
          (new_opening_transaction fresh.transaction_id w.id w.player_id w.balance w.created_at) _
          h in
      let (db1, put, h2) = >>=-eq-ok (or_error (insert_transaction row db) other_error) _ h1 in
      let (db2, entered, h3) =
        >>=-eq-ok
          (insert_ledger fresh w.id fresh.transaction_id credit w.balance zero w.balance (pos 1)
            w.created_at db1)
          _ h2 in
      let (db3, told, h4) =
        >>=-eq-ok (add_wager_event fresh "" w.id _ "" opening processed "" db2) _ h3 in
      let inserted : insert_transaction row db ≡ ok db1 = inserted_opening row db put in
      Writes-trans (single_step (added_transaction row fits inserted)) (
        Writes-trans
          (insert_ledger-Writes fresh w.id _ credit w.balance zero w.balance (pos 1) w.created_at
            db1 (rw (insert_transaction-Tables row db inserted).0.0 known) entered)
          (Writes-trans (add_wager_event-Writes fresh "" w.id _ "" opening processed "" db2 told) (
            add_balance_event-Writes fresh "" w.id _ credit w.balance zero w.balance (pos 1) db3
              h4)))

  pub create_wallet-Writes :
      (fresh : Fresh) (w : Wallet) (db : Database) {db' : Database}
      → IsInt64 w.balance.minor
      → create_wallet fresh w db ≡ ok db'
      → Writes db db'
  unfolding create_wallet
  create_wallet-Writes fresh w db fits h =
      let row = wallet_row w in
      let (inserted, put, h1) = >>=-eq-ok (insert_wallet row db) _ h in
      let first : Writes db inserted = single_step (added_wallet row put) in
      elim (Bool-cases (is_positive w.balance)) [
        | inl positive ↦ Writes-trans first (
            post_opening-Writes fresh w inserted fits
              (stored_wallet row db.wallets inserted.wallets (insert_wallet-Tables row db put).0.0)
              (rw positive at h1))
        | inr zero ↦ subst (Writes db) (ok-inj (rw zero at h1)) first
      ]

  opened_balance :
      (id player : Uuid) (initial : Money) (now : Time) {w : Wallet}
      → new_wallet id player initial now ≡ ok w
      → w.balance ≡ initial
  unfolding new_wallet
  opened_balance id player initial now h = ground arith

  pub open_wallet-Writes :
      (fresh : Fresh) (id player : Uuid) (initial : Money) (db : Database) {r : Wallet × Database}
      → IsInt64 initial.minor
      → open_wallet fresh id player initial db ≡ ok r
      → Writes db r.1
  unfolding open_wallet
  open_wallet-Writes fresh id player initial db fits h =
      let (w, made, h1) = >>=-eq-ok (new_wallet id player initial fresh.now) _ h in
      let (db1, created, done) = >>=-eq-ok (create_wallet fresh w db) _ h1 in
      subst (λ (x : Wallet × Database). Writes db x.1) (ok-inj done)
        (create_wallet-Writes fresh w db (rw (opened_balance id player initial fresh.now made) fits)
          created)
