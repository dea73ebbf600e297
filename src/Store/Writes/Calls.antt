-- ===== src/Store/Writes/Calls.antt =====
-- internal/infra/postgres/store.go: the calls as sequences of writes.
use mathlib.Core.Path.{subst}
use apostas_api.Prelude.{
  ◌≡◌, true, Option, none, some, String, arith, refl, ◌∙◌, inl, inr, Bool-cases,
}
use apostas_api.Prelude.Int.{ℤ}
use apostas_api.Prelude.Int64.{IsInt64}
use apostas_api.Prelude.Eq.{nat_eq}
use apostas_api.Result.{ok, >>=-eq-ok, ok-inj}
use apostas_api.Values.{Uuid, Time}
use apostas_api.Money.{Currencies, Money}
use apostas_api.Wallet.{Wallet}
use apostas_api.LedgerEntry.{Direction, LedgerEntry, new_ledger_entry, direction_beq}
use apostas_api.Transaction.{Kind, Status}
use apostas_api.Wager.{Operation, Decision}
use apostas_api.Database.{TransactionRow, Database, exists}
use apostas_api.Database.Wallets.{has_id}
use apostas_api.Store.Rows.{
  Fresh, insert_transaction, ledger_row, update_wallet, add_wager_event, insert_ledger,
  add_balance_event, load_wallet,
}
use apostas_api.Store.Calls.{
  WagerResult, Decide, find_existing, replay, load_reference, new_row, move_funds,
  settle_transaction, record_decision, execute_new, execute_tx, unless_stored,
}
use apostas_api.Store.Inbox.{find_exists}
use apostas_api.Store.Ledger.{
  add_balance_event-SameBooks, add_wager_event-SameBooks, load_wallet-eq-ok,
}
use apostas_api.Store.Replay.{add_balance_event-keeps, add_wager_event-keeps}
use apostas_api.Store.Writes.{
  elsewhere, added_transaction, changed_balance, added_entry, Writes, nothing, Writes-trans,
  single_step,
}
use apostas_api.Store.Writes.Books.{exists_updated}
use apostas_api.Store.Writes.Effects.{insert_transaction-Tables}

pub add_wager_event-Writes :
    (fresh : Fresh) (c : String) (w t : Uuid) (p : String) (k : Kind) (s : Status) (f : String)
    (db : Database) {db' : Database}
    → add_wager_event fresh c w t p k s f db ≡ ok db'
    → Writes db db'
add_wager_event-Writes fresh c w t p k s f db h = single_step (
    elsewhere (add_wager_event-SameBooks fresh c w t p k s f db h).0
      (add_wager_event-keeps fresh c w t p k s f db h).0
      (add_wager_event-SameBooks fresh c w t p k s f db h).1)

update_wallet-exists :
    (id : Uuid) (w : Wallet) (now : Time) (db : Database)
    → exists (has_id id) db.wallets ≡ true
    → exists (has_id id) (update_wallet id w now db).wallets ≡ true
unfolding update_wallet
update_wallet-exists id w now db h = exists_updated _ (λ x. refl) (has_id id) id db.wallets ∙ h

module _ ⦃iso : Currencies⦄ where
  pub add_balance_event-Writes :
      (fresh : Fresh) (c : String) (w t : Uuid) (d : Direction) (m b a : Money) (v : ℤ)
      (db : Database) {db' : Database}
      → add_balance_event fresh c w t d m b a v db ≡ ok db'
      → Writes db db'
  add_balance_event-Writes fresh c w t d m b a v db h = single_step (
      elsewhere (add_balance_event-SameBooks fresh c w t d m b a v db h).0
        (add_balance_event-keeps fresh c w t d m b a v db h).0
        (add_balance_event-SameBooks fresh c w t d m b a v db h).1)

  entry_wallet :
      (id w t : Uuid) (d : Direction) (m b a : Money) (at : Time) {e : LedgerEntry}
      → new_ledger_entry id w t d m b a at ≡ ok e
      → e.wallet_id ≡ w
  unfolding new_ledger_entry
  entry_wallet id w t d m b a at h = ground arith

  pub insert_ledger-Writes :
      (fresh : Fresh) (w t : Uuid) (d : Direction) (m b a : Money) (v : ℤ) (at : Time)
      (db : Database) {db' : Database}
      → exists (has_id w) db.wallets ≡ true
      → insert_ledger fresh w t d m b a v at db ≡ ok db'
      → Writes db db'
  unfolding insert_ledger
  insert_ledger-Writes fresh w t d m b a v at db known h =
      let (e, made, put) = >>=-eq-ok (new_ledger_entry fresh.entry_id w t d m b a at) _ h in
      single_step (
        added_entry (ledger_row e v) (rw (entry_wallet fresh.entry_id w t d m b a at made) known)
          put)

  pub move_funds-Writes :
      (fresh : Fresh) (c : String) (id t : Uuid) (m : Money) (d : Decision) (w : Wallet)
      (db : Database) {db' : Database}
      → exists (has_id id) db.wallets ≡ true
      → move_funds fresh c id t m d w db ≡ ok db'
      → Writes db db'
  unfolding move_funds
  move_funds-Writes fresh c id t m d w db known h =
      elim (Bool-cases (direction_beq d.direction (Direction.other ""))) [
        | inl still ↦ subst (Writes db) (ok-inj (rw still at h)) nothing
        | inr moves ↦
            let updated = update_wallet id w fresh.now db in
            let (entered, inserted, added) =
              >>=-eq-ok
                (insert_ledger fresh id t d.direction m d.balance_before w.balance w.version
                  fresh.now updated)
                _ (rw moves at h) in
            Writes-trans (single_step (changed_balance id w fresh.now refl)) (
              Writes-trans
                (insert_ledger-Writes fresh id t _ m _ _ _ _ updated
                  (update_wallet-exists id w fresh.now db known) inserted)
                (add_balance_event-Writes fresh c id t _ m _ _ _ entered added))
      ]

  pub load_wallet-exists :
      (id : Uuid) (db : Database) {w : Wallet}
      → load_wallet id db ≡ ok w
      → exists (has_id id) db.wallets ≡ true
  load_wallet-exists id db h =
      let (row, here, _, _, _, _) = load_wallet-eq-ok id db h in
      find_exists (has_id id) db.wallets here

  module _ (fresh : Fresh) (c : String) (op : Operation) (hash : String) (choose : Decide)
      (db : Database) (amount : IsInt64 op.money.minor) where
    record_decision-Writes :
        (d : Decision) (w : Wallet) {db' : Database}
        → exists (has_id op.wallet_id) db.wallets ≡ true
        → record_decision fresh c op hash d w db ≡ ok db'
        → Writes db db'
    unfolding record_decision new_row
    record_decision-Writes d w known h =
        let row = new_row fresh op hash d w in
        let (inserted, put, h1) = >>=-eq-ok (insert_transaction row db) _ h in
        let (moved, posted, told) =
          >>=-eq-ok (move_funds fresh c op.wallet_id fresh.transaction_id op.money d w inserted) _
            h1 in
        Writes-trans (single_step (added_transaction row amount put)) (
          Writes-trans
            (move_funds-Writes fresh c op.wallet_id fresh.transaction_id op.money d w inserted
              (rw (insert_transaction-Tables row db put).0.0 known) posted)
            (add_wager_event-Writes fresh c _ _ _ _ _ _ moved told))

    unless_stored-Writes :
        (o : Option TransactionRow) (w : Wallet) {r : WagerResult × Database}
        → exists (has_id op.wallet_id) db.wallets ≡ true
        → unless_stored o fresh c op hash choose w db ≡ ok r
        → Writes db r.1
    unfolding execute_new
    unless_stored-Writes (some t) w known h =
        let (result, replayed, done) = >>=-eq-ok (replay op hash w.balance.currency t) _ h in
        subst (λ (x : WagerResult × Database). Writes db x.1) (ok-inj done) nothing
    unless_stored-Writes none w known h =
        let (ref, loaded, h1) = >>=-eq-ok (load_reference op db) _ h in
        let (d, w') = choose w ref fresh.now in
        let (t, settled, h2) = >>=-eq-ok (settle_transaction fresh op hash d w') _ h1 in
        let (db', stored', done) = >>=-eq-ok (record_decision fresh c op hash d w' db) _ h2 in
        subst (λ (x : WagerResult × Database). Writes db x.1) (ok-inj done)
          (record_decision-Writes d w' known stored')

    pub execute_tx-Writes :
        {r : WagerResult × Database} → execute_tx fresh c op hash choose db ≡ ok r → Writes db r.1
    unfolding execute_tx
    execute_tx-Writes h =
        let (w, loaded, rest) = >>=-eq-ok (load_wallet op.wallet_id db) _ h in
        unless_stored-Writes (find_existing op db) w (load_wallet-exists op.wallet_id db loaded)
          rest
