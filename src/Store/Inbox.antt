-- ===== src/Store/Inbox.antt =====
-- `ExecuteInbox`: a request that comes as a message, recorded in `inbox_messages`.
pub mod Redelivered
use apostas_api.Prelude.{
  ◌≡◌, ◌≢◌, arith, Bool, true, ◌&&◌, Option, none, some, List, [], ◌∷◌, String, if◌then◌else◌, refl,
}
use text.Mathlib.TextEquality.{eq_iff}
use mathlib.Core.Path.{subst}
use apostas_api.Prelude.Int64.{IsInt64}
use apostas_api.Prelude.Eq.{◌==◌, ◌!=◌, string_eq}
use apostas_api.Result.{
  Result, ok, err, conflict, other_error, fail_if, ◌>>◌, ◌>>=◌, >>=-eq-ok, ok-inj,
}
use apostas_api.Values.{Time}
use apostas_api.Money.{Currencies}
use apostas_api.Wager.{Operation, decide}
use apostas_api.Database.{InboxRow, Database, find, exists, update}
use apostas_api.Store.Rows.{Fresh, found}
use apostas_api.Store.Calls.{Decide, WagerResult, InboxMessage, execute_tx}
use apostas_api.Store.Ledger.{SoundDatabase, execute_tx-Sound, decide-Honest}

abbrev pub is_message : InboxMessage → InboxRow → Bool
is_message m row = row.consumer_name == m.consumer_name && row.message_id == m.message_id

-- `INSERT … ON CONFLICT DO NOTHING`
unfoldable pub receive : Fresh → InboxMessage → Database → Database
receive fresh m db = if exists (is_message m) db.inbox then db else record db {
  inbox =
      record {
        consumer_name = m.consumer_name;
        message_id = m.message_id;
        payload_hash = m.payload_hash;
        received_at = fresh.db_now;
        completed_at = none;
      }
      ∷ db.inbox;
}

-- `if completedAt == nil { UPDATE inbox_messages SET completed_at=now() … }`
unfoldable pub complete : Option Time → Fresh → InboxMessage → Database → Database
complete (some _) fresh m db = db
complete none fresh m db = record db {
  inbox =
      update (is_message m) (λ (row : InboxRow). record row { completed_at = some fresh.db_now })
        db.inbox;
}

module _ ⦃iso : Currencies⦄ where
  unfoldable pub execute_inbox :
      Fresh
      → InboxMessage
      → Operation
      → String
      → Decide
      → Database
      → Result (WagerResult × Database)
  execute_inbox fresh m op hash choose db = do
    let received = receive fresh m db
    row ← found (find (is_message m) received.inbox) other_error
    fail_if (row.payload_hash != m.payload_hash) conflict
    (result, done) ← execute_tx fresh m.message_id op hash choose received
    ok (result, complete row.completed_at fresh m done)

receive-books :
    (fresh : Fresh) (m : InboxMessage) (db : Database)
    → ((receive fresh m db).wallets ≡ db.wallets) × ((receive fresh m db).ledger ≡ db.ledger)
unfolding receive
receive-books fresh m db = ground arith

complete-books :
    (at : Option Time) (fresh : Fresh) (m : InboxMessage) (db : Database)
    → ((complete at fresh m db).wallets ≡ db.wallets)
      × ((complete at fresh m db).ledger ≡ db.ledger)
unfolding complete
complete-books none fresh m db = (refl, refl)
complete-books (some t) fresh m db = (refl, refl)

receive-Sound :
    (fresh : Fresh) (m : InboxMessage) (db : Database)
    → SoundDatabase db
    → SoundDatabase (receive fresh m db)
receive-Sound fresh m db s = let (ws, es) = receive-books fresh m db in rw (ws, es) s

complete-Sound :
    (at : Option Time) (fresh : Fresh) (m : InboxMessage) (db : Database)
    → SoundDatabase db
    → SoundDatabase (complete at fresh m db)
complete-Sound at fresh m db s = let (ws, es) = complete-books at fresh m db in rw (ws, es) s

pub find_exists {ℓ} :
    {A : Type ℓ} (p : A → Bool) (xs : List A) {x : A} → find p xs ≡ some x → exists p xs ≡ true
unfolding find exists
find_exists p [] h = cc
find_exists p (y ∷ ys) {x} h = ground (arith, find_exists p ys {x = x})

differ_true : (s t : String) → s ≢ t → (s != t) ≡ true
differ_true s t h = ground (arith, eq_iff s t)

module _ ⦃iso : Currencies⦄ where
  -- For every operation on an int64 amount, a message that `ExecuteInbox` handles successfully with
  -- the decision of `Decide` leaves every stored balance the signed sum of its wallet's ledger
  -- entries, whether the message and the request are new or repeated.
  pub execute_inbox-Sound :
      (fresh : Fresh) (m : InboxMessage) (op : Operation) (hash : String) (db : Database)
      {r : WagerResult × Database}
      → IsInt64 op.money.minor
      → SoundDatabase db
      → execute_inbox fresh m op hash (decide op) db ≡ ok r
      → SoundDatabase r.1
  unfolding execute_inbox
  execute_inbox-Sound fresh m op hash db amount sound h =
      let received = receive fresh m db in
      let (row, here, h1) =
        >>=-eq-ok (found (find (is_message m) received.inbox) other_error) _ h in
      let (u, same, h2) = >>=-eq-ok (fail_if (row.payload_hash != m.payload_hash) conflict) _ h1 in
      let (r1, executed, done) =
        >>=-eq-ok (execute_tx fresh m.message_id op hash (decide op) received) _ h2 in
      subst (λ (x : WagerResult × Database). SoundDatabase x.1) (ok-inj done)
        (complete-Sound row.completed_at fresh m r1.1 (
          execute_tx-Sound fresh m.message_id op hash (decide op) received (decide-Honest op amount)
            amount (receive-Sound fresh m db sound) executed))

  -- A message whose identifier is stored with another payload is refused with a conflict, whatever
  -- the request and the decision.
  pub stored_payload :
      (fresh : Fresh) (m : InboxMessage) (op : Operation) (hash : String) (choose : Decide)
      (db : Database) (row : InboxRow)
      → find (is_message m) db.inbox ≡ some row
      → row.payload_hash ≢ m.payload_hash
      → execute_inbox fresh m op hash choose db ≡ err conflict
  unfolding execute_inbox receive
  stored_payload fresh m op hash choose db row here differs =
      rw
        (
          find_exists (is_message m) db.inbox here,
          here,
          differ_true row.payload_hash m.payload_hash differs,
        )
        refl
