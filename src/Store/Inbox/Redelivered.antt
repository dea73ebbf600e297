-- ===== src/Store/Inbox/Redelivered.antt =====
-- internal/infra/postgres/store.go: a message whose identifier comes again with another payload.
use text.Mathlib.TextEquality.{eq_iff}
use mathlib.Core.Path.{subst}
use apostas_api.Prelude.{
  ◌≡◌, ◌≢◌, Bool, false, Option, none, some, List, [], ◌∷◌, String, arith, refl, sym, ap, ◌∙◌,
  some-inj, inl, inr, Bool-cases, Option-cases,
}
use apostas_api.Prelude.Int.{ℤ}
use apostas_api.Prelude.Eq.{◌!=◌, nat_eq, string_eq}
use apostas_api.Result.{ok, err, conflict, other_error, fail_if, fail_if-eq-ok, >>=-eq-ok, ok-inj}
use apostas_api.Values.{Uuid, Time}
use apostas_api.Money.{Currencies, Money}
use apostas_api.Wallet.{Wallet}
use apostas_api.LedgerEntry.{Direction, direction_beq}
use apostas_api.Transaction.{Status, Kind}
use apostas_api.Wager.{Operation, Decision}
use apostas_api.Database.{InboxRow, TransactionRow, Database, find, update}
use apostas_api.Events.{new_wallet_balance_changed}
use apostas_api.Store.Rows.{
  Fresh, found, insert_transaction, update_wallet, store_entry, add_event, add_wager_event,
  insert_ledger, add_balance_event, load_wallet,
}
use apostas_api.Store.Calls.{
  WagerResult, InboxMessage, Decide, find_existing, replay, load_reference, new_row, move_funds,
  execute_new, execute_tx, record_decision, settle_transaction,
}
use apostas_api.Store.Ledger.{found-some}
use apostas_api.Store.Inbox.{is_message, receive, complete, execute_inbox, stored_payload}

-- The writes of a wager leave the messages that were received.
insert_transaction-inbox :
    (t : TransactionRow) (db : Database) {db' : Database}
    → insert_transaction t db ≡ ok db'
    → db'.inbox ≡ db.inbox
unfolding insert_transaction
insert_transaction-inbox t db h = ground arith

add_wager_event-inbox :
    (fresh : Fresh) (c : String) (w t : Uuid) (p : String) (k : Kind) (s : Status) (f : String)
    (db : Database) {db' : Database}
    → add_wager_event fresh c w t p k s f db ≡ ok db'
    → db'.inbox ≡ db.inbox
unfolding add_wager_event add_event
add_wager_event-inbox fresh c w t p k s f db h = ground arith

module _ ⦃iso : Currencies⦄ where
  add_balance_event-inbox :
      (fresh : Fresh) (c : String) (w t : Uuid) (d : Direction) (m b a : Money) (v : ℤ)
      (db : Database) {db' : Database}
      → add_balance_event fresh c w t d m b a v db ≡ ok db'
      → db'.inbox ≡ db.inbox
  unfolding add_balance_event add_event new_wallet_balance_changed
  add_balance_event-inbox fresh c w t d m b a v db h = ground arith

  insert_ledger-inbox :
      (fresh : Fresh) (w t : Uuid) (d : Direction) (m b a : Money) (v : ℤ) (at : Time)
      (db : Database) {db' : Database}
      → insert_ledger fresh w t d m b a v at db ≡ ok db'
      → db'.inbox ≡ db.inbox
  unfolding insert_ledger store_entry
  insert_ledger-inbox fresh w t d m b a v at db h = ground arith

  move_funds-inbox :
      (fresh : Fresh) (c : String) (id t : Uuid) (m : Money) (d : Decision) (w : Wallet)
      (db : Database) {db' : Database}
      → move_funds fresh c id t m d w db ≡ ok db'
      → db'.inbox ≡ db.inbox
  unfolding move_funds update_wallet
  move_funds-inbox fresh c id t m d w db h =
      elim (Bool-cases (direction_beq d.direction (Direction.other ""))) [
        | inl still ↦ sym (ap (λ (x : Database). x.inbox) (ok-inj (rw still at h)))
        | inr moves ↦
            let (entered, inserted, added) =
              >>=-eq-ok
                (insert_ledger fresh id t d.direction m d.balance_before w.balance w.version
                  fresh.now (update_wallet id w fresh.now db))
                _ (rw moves at h) in
            add_balance_event-inbox fresh c id t _ m _ _ _ entered added
            ∙ insert_ledger-inbox fresh id t _ m _ _ _ _ (update_wallet id w fresh.now db) inserted
      ]

  record_decision-inbox :
      (fresh : Fresh) (c : String) (op : Operation) (hash : String) (d : Decision) (w : Wallet)
      (db : Database) {db' : Database}
      → record_decision fresh c op hash d w db ≡ ok db'
      → db'.inbox ≡ db.inbox
  unfolding record_decision
  record_decision-inbox fresh c op hash d w db h =
      let (inserted, put, h1) = >>=-eq-ok (insert_transaction (new_row fresh op hash d w) db) _ h in
      let (moved, posted, told) =
        >>=-eq-ok (move_funds fresh c op.wallet_id fresh.transaction_id op.money d w inserted) _
          h1 in
      add_wager_event-inbox fresh c _ _ _ _ _ _ moved told
      ∙ move_funds-inbox fresh c op.wallet_id fresh.transaction_id op.money d w inserted posted
      ∙ insert_transaction-inbox (new_row fresh op hash d w) db put

  module _ (fresh : Fresh) (c : String) (op : Operation) (hash : String) (choose : Decide)
      (db : Database) where
    execute_new-inbox :
        (w : Wallet) {r : WagerResult × Database}
        → execute_new fresh c op hash choose w db ≡ ok r
        → r.1.inbox ≡ db.inbox
    unfolding execute_new
    execute_new-inbox w h =
        let (ref, read, h1) = >>=-eq-ok (load_reference op db) _ h in
        let (d, w') = choose w ref fresh.now in
        let (t, settled, h2) = >>=-eq-ok (settle_transaction fresh op hash d w') _ h1 in
        let (db', stored, done) = >>=-eq-ok (record_decision fresh c op hash d w' db) _ h2 in
        subst (λ (x : WagerResult × Database). x.1.inbox ≡ db.inbox) (ok-inj done)
          (record_decision-inbox fresh c op hash d w' db stored)

    execute_tx-inbox :
        {r : WagerResult × Database}
        → execute_tx fresh c op hash choose db ≡ ok r
        → r.1.inbox ≡ db.inbox
    unfolding execute_tx
    execute_tx-inbox {r} h =
        let (w, loaded, rest) = >>=-eq-ok (load_wallet op.wallet_id db) _ h in
        elim (Option-cases (find_existing op db)) [
          | inl missing ↦ execute_new-inbox w {r = r} (rw missing at rest)
          | inr (t, here) ↦
              let (result, replayed, done) =
                >>=-eq-ok (replay op hash w.balance.currency t) _ (rw here at rest) in
              subst (λ (x : WagerResult × Database). x.1.inbox ≡ db.inbox) (ok-inj done) refl
        ]

-- The message is stored with the payload.
abbrev Received : InboxMessage → List InboxRow → Type 0
Received m rows =
    (row : InboxRow) × (find (is_message m) rows ≡ some row) × (row.payload_hash ≡ m.payload_hash)

find-update :
    (p : InboxRow → Bool) (f : InboxRow → InboxRow) (rows : List InboxRow) (row : InboxRow)
    → ((x : InboxRow) → p (f x) ≡ p x)
    → find p rows ≡ some row
    → find p (update p f rows) ≡ some (f row)
unfolding find update
find-update p f [] row keep h = cc
find-update p f (x ∷ rows) row keep h = elim (Bool-cases (p x)) [
  | inl one ↦
      let is : some x ≡ some row = rw one at h in
      rw (one, keep x ∙ one) (ap (λ (y : InboxRow). some (f y)) (some-inj is))
  | inr other ↦ rw (other, other) (find-update p f rows row keep (rw other at h))
]

equal_texts : (s t : String) → (s != t) ≡ false → s ≡ t
equal_texts s t h = ground (arith, eq_iff s t)

complete-Received :
    (at : Option Time) (fresh : Fresh) (m : InboxMessage) (db : Database)
    → Received m db.inbox
    → Received m (complete at fresh m db).inbox
unfolding complete
complete-Received (some t) fresh m db h = h
complete-Received none fresh m db (row, here, same) = (
  record row { completed_at = some fresh.db_now },
  find-update (is_message m) _ db.inbox row (λ x. refl) here,
  same,
)

module _ ⦃iso : Currencies⦄ (fresh : Fresh) (m : InboxMessage) (op : Operation) (hash : String)
    (choose : Decide) (db : Database) where
  execute_inbox-Received :
      {r : WagerResult × Database}
      → execute_inbox fresh m op hash choose db ≡ ok r
      → Received m r.1.inbox
  unfolding execute_inbox
  execute_inbox-Received h =
      let received = receive fresh m db in
      let (row, here, h1) =
        >>=-eq-ok (found (find (is_message m) received.inbox) other_error) _ h in
      let (u, same, h2) = >>=-eq-ok (fail_if (row.payload_hash != m.payload_hash) conflict) _ h1 in
      let (r1, executed, done) =
        >>=-eq-ok (execute_tx fresh m.message_id op hash choose received) _ h2 in
      let kept : Received m r1.1.inbox = (
        row,
        rw (execute_tx-inbox fresh m.message_id op hash choose received executed)
            (found-some (find (is_message m) received.inbox) other_error here),
        equal_texts row.payload_hash m.payload_hash
            (fail_if-eq-ok (row.payload_hash != m.payload_hash) conflict same),
      ) in
      subst (λ (x : WagerResult × Database). Received m x.1.inbox) (ok-inj done)
        (complete-Received row.completed_at fresh m r1.1 kept)

  -- After a message that `ExecuteInbox` handled successfully, a message of the same consumer with the
  -- same identifier and another payload is refused with a conflict, whatever its request, its clock
  -- and its decision.
  pub execute_inbox-conflict :
      (fresh' : Fresh) (m' : InboxMessage) (op' : Operation) (hash' : String) (choose' : Decide)
      {r : WagerResult × Database}
      → execute_inbox fresh m op hash choose db ≡ ok r
      → m'.consumer_name ≡ m.consumer_name
      → m'.message_id ≡ m.message_id
      → m'.payload_hash ≢ m.payload_hash
      → execute_inbox fresh' m' op' hash' choose' r.1 ≡ err conflict
  execute_inbox-conflict fresh' m' op' hash' choose' {r} h consumer id differs =
      let (row, here, same) = execute_inbox-Received h in
      stored_payload fresh' m' op' hash' choose' r.1 row (rw (consumer, id) here)
        (λ e. differs (sym e ∙ same))
