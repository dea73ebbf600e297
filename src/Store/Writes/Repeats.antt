-- ===== src/Store/Writes/Repeats.antt =====
-- internal/infra/postgres/store.go: a request that is stored already.
use apostas_api.Prelude.{
  ◌≡◌, Bool, true, ◌||◌, Option, some, List, [], ◌∷◌, String, arith, refl, sym, ap, ◌∙◌, inl, inr,
  Bool-cases,
}
use mathlib.Core.Path.{subst}
use apostas_api.Prelude.Eq.{◌!=◌, nat_eq, string_eq}
use apostas_api.Result.{ok, other_error, conflict, fail_if, >>=-eq-ok, ok-inj}
use apostas_api.Values.{Time}
use apostas_api.Store.Rows.{found}
use apostas_api.Store.Inbox.{receive, complete, is_message, execute_inbox}
use apostas_api.Store.Writes.Effects.{Tables}
use apostas_api.Money.{Currencies}
use apostas_api.Wager.{Operation}
use apostas_api.Database.{TransactionRow, Database, find, exists}
use apostas_api.Store.{Fresh, WagerResult, InboxMessage, execute_tx, find_existing, load_wallet}
use apostas_api.Store.Calls.{replay, Decide}
use apostas_api.Store.Resolve.Attempts.{Among}

or_right : (a : Bool) → (a || true) ≡ true
or_right a = ground arith

-- A row that a query finds among those that stay.
pub exists-Among :
    (p : TransactionRow → Bool) (t : TransactionRow) (ts : List TransactionRow)
    → Among t ts
    → p t ≡ true
    → exists p ts ≡ true
unfolding exists
exists-Among p t [] m h = absurd m
exists-Among p t (u ∷ us) (inl is) h = rw (ap p (sym is) ∙ h) refl
exists-Among p t (u ∷ us) (inr m) h = rw (exists-Among p t us m h) (or_right (p u))

pub exists-find :
    (p : TransactionRow → Bool) (ts : List TransactionRow)
    → exists p ts ≡ true
    → (t : TransactionRow) × (find p ts ≡ some t)
unfolding exists find
exists-find p [] h = cc
exists-find p (t ∷ ts) h = elim (Bool-cases (p t)) [
  | inl one ↦ (t, rw one refl)
  | inr other ↦ let (u, is) = exists-find p ts (rw other at h) in (u, rw other is)
]

receive-transactions :
    (fresh : Fresh) (m : InboxMessage) (db : Database)
    → Tables (receive fresh m db) db.wallets db.transactions db.ledger
unfolding receive
receive-transactions fresh m db = ground arith

complete-Tables :
    (at : Option Time) (fresh : Fresh) (m : InboxMessage) (db : Database)
    → Tables (complete at fresh m db) db.wallets db.transactions db.ledger
unfolding complete
complete-Tables at fresh m db = ground arith

module _ ⦃iso : Currencies⦄ where
  replay_marked :
      (op : Operation) (hash currency : String) (t : TransactionRow) {r : WagerResult}
      → replay op hash currency t ≡ ok r
      → r.idempotent_replay ≡ true
  unfolding replay
  replay_marked op hash currency t h = ground arith

  -- A replay, which changes nothing.
  abbrev pub Replayed : Database → WagerResult × Database → Type 0
  Replayed db (r, db') =
      Tables db' db.wallets db.transactions db.ledger × (r.idempotent_replay ≡ true)

  module _ (fresh : Fresh) (c : String) (op : Operation) (hash : String) (choose : Decide)
      (db : Database) (t : TransactionRow) (here : find_existing op db ≡ some t) where
    pub execute_tx-Replayed :
        {r : WagerResult × Database} → execute_tx fresh c op hash choose db ≡ ok r → Replayed db r
    unfolding execute_tx
    execute_tx-Replayed h =
        let (w, loaded, rest) = >>=-eq-ok (load_wallet op.wallet_id db) _ h in
        let (result, replayed, done) =
          >>=-eq-ok (replay op hash w.balance.currency t) _ (rw here at rest) in
        subst (Replayed db) (ok-inj done)
          ((refl, refl, refl), replay_marked op hash w.balance.currency t replayed)

  pub execute_inbox-Replayed :
      (fresh : Fresh) (m : InboxMessage) (op : Operation) (hash : String) (choose : Decide)
      (db : Database) (t : TransactionRow) {r : WagerResult × Database}
      → find_existing op db ≡ some t
      → execute_inbox fresh m op hash choose db ≡ ok r
      → Replayed db r
  unfolding execute_inbox find_existing
  execute_inbox-Replayed fresh m op hash choose db t here h =
      let received = receive fresh m db in
      let (row, stored, h1) =
        >>=-eq-ok (found (find (is_message m) received.inbox) other_error) _ h in
      let (u, same, h2) = >>=-eq-ok (fail_if (row.payload_hash != m.payload_hash) conflict) _ h1 in
      let (r1, executed, done) =
        >>=-eq-ok (execute_tx fresh m.message_id op hash choose received) _ h2 in
      let (ws, ts, es) = receive-transactions fresh m db in
      let ((ws1, ts1, es1), marked) =
        execute_tx-Replayed fresh m.message_id op hash choose received t (rw ts here) executed in
      let (ws2, ts2, es2) = complete-Tables row.completed_at fresh m r1.1 in
      subst (Replayed db) (ok-inj done) ((ws2 ∙ ws1 ∙ ws, ts2 ∙ ts1 ∙ ts, es2 ∙ es1 ∙ es), marked)
