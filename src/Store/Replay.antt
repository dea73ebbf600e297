-- ===== src/Store/Replay.antt =====
-- internal/infra/postgres/store.go: a request that is repeated.
use text.Mathlib.TextEquality.{eq_iff}
use text.Mathlib.TextPositions.{eq_refl}
use mathlib.Core.Path.{subst}
use apostas_api.Prelude.{
  ◌≡◌, true, false, some, List, ◌∷◌, String, arith, refl, sym, ◌∙◌, Bool-cases, inl, inr,
  Option-cases, ap, if◌then◌else◌,
}
use apostas_api.Prelude.Int.{ℤ}
use apostas_api.Prelude.Int64.{IsInt64}
use apostas_api.Prelude.Eq.{nat_eq, string_eq}
use apostas_api.Result.{ok, not_found, >>=-eq-ok, ok-inj, ◌>>=◌}
use apostas_api.Values.{Uuid, Time}
use apostas_api.Money.{Currencies, Money, money_from_minor}
use apostas_api.Wallet.{Wallet, is_valid, rehydrate_wallet}
use apostas_api.Wallet.Laws.{Fits, moved, is_valid-Facts}
use apostas_api.LedgerEntry.{Direction, debit, credit, direction_beq}
use apostas_api.Transaction.{Status, Kind}
use apostas_api.Wager.{Operation, Decision, decide}
use apostas_api.Wager.Balances.{Effect, Applied, decide-Applied}
use apostas_api.Database.{WalletRow, TransactionRow, Database, find}
use apostas_api.Database.Wallets.{has_id, find-updated}
use apostas_api.Events.{new_wallet_balance_changed}
use apostas_api.Store.Rows.{
  Fresh, found, insert_transaction, update_wallet, store_entry, add_event, add_wager_event,
  insert_ledger, add_balance_event, load_wallet,
}
use apostas_api.Store.Calls.{
  WagerResult, Decide, find_existing, replay, load_reference, new_row, move_funds, execute_new,
  execute_tx, execute, unless_stored, record_decision, settle_transaction, nullable, text_or_empty,
  is_same_request, result_of,
}
use apostas_api.Store.Ledger.{SoundDatabase, load_wallet-eq-ok, found-some}

pub text_or_empty-nullable : (s : String) → text_or_empty (nullable s) ≡ s
text_or_empty-nullable s = ground (arith, eq_iff s "")

-- The new row is the one that the same request finds.
find_new :
    (fresh : Fresh) (op : Operation) (hash : String) (d : Decision) (w : Wallet)
    (ts : List TransactionRow)
    → find (is_same_request op) (new_row fresh op hash d w ∷ ts) ≡ some (new_row fresh op hash d w)
unfolding find new_row
find_new fresh op hash d w ts = rw (eq_refl op.provider_id, eq_refl op.idempotency_key) refl

insert_transaction-eq-ok :
    (t : TransactionRow) (db : Database) {db' : Database}
    → insert_transaction t db ≡ ok db'
    → (db'.transactions ≡ t ∷ db.transactions) × (db'.wallets ≡ db.wallets)
unfolding insert_transaction
insert_transaction-eq-ok t db h = ground arith

pub add_wager_event-keeps :
    (fresh : Fresh) (c : String) (w t : Uuid) (p : String) (k : Kind) (s : Status) (f : String)
    (db : Database) {db' : Database}
    → add_wager_event fresh c w t p k s f db ≡ ok db'
    → (db'.transactions ≡ db.transactions) × (db'.wallets ≡ db.wallets)
unfolding add_wager_event add_event
add_wager_event-keeps fresh c w t p k s f db h = ground arith

-- The stored wallets after a decision.
abbrev pub wallets_after : Uuid → Direction → Wallet → Time → Database → List WalletRow
wallets_after id d w now db =
    if direction_beq d (Direction.other "") then db.wallets else (update_wallet id w now db).wallets

module _ ⦃iso : Currencies⦄ where
  pub add_balance_event-keeps :
      (fresh : Fresh) (c : String) (w t : Uuid) (d : Direction) (m b a : Money) (v : ℤ)
      (db : Database) {db' : Database}
      → add_balance_event fresh c w t d m b a v db ≡ ok db'
      → (db'.transactions ≡ db.transactions) × (db'.wallets ≡ db.wallets)
  unfolding add_balance_event add_event new_wallet_balance_changed
  add_balance_event-keeps fresh c w t d m b a v db h = ground arith

  insert_ledger-keeps :
      (fresh : Fresh) (w t : Uuid) (d : Direction) (m b a : Money) (v : ℤ) (at : Time)
      (db : Database) {db' : Database}
      → insert_ledger fresh w t d m b a v at db ≡ ok db'
      → (db'.transactions ≡ db.transactions) × (db'.wallets ≡ db.wallets)
  unfolding insert_ledger store_entry
  insert_ledger-keeps fresh w t d m b a v at db h = ground arith

  pub move_funds-keeps :
      (fresh : Fresh) (c : String) (id t : Uuid) (m : Money) (d : Decision) (w : Wallet)
      (db : Database) {db' : Database}
      → move_funds fresh c id t m d w db ≡ ok db'
      → (db'.transactions ≡ db.transactions)
        × (db'.wallets ≡ wallets_after id d.direction w fresh.now db)
  unfolding move_funds update_wallet
  move_funds-keeps fresh c id t m d w db h =
      elim (Bool-cases (direction_beq d.direction (Direction.other ""))) [
        | inl still ↦
            let same = ok-inj (rw still at h) in
            rw still (
              sym (ap (λ (x : Database). x.transactions) same),
              sym (ap (λ (x : Database). x.wallets) same),
            )
        | inr moves ↦
            let (entered, inserted, added) =
              >>=-eq-ok
                (insert_ledger fresh id t d.direction m d.balance_before w.balance w.version
                  fresh.now (update_wallet id w fresh.now db))
                _ (rw moves at h) in
            let (t1, w1) =
              insert_ledger-keeps fresh id t _ m _ _ _ _ (update_wallet id w fresh.now db)
                inserted in
            let (t2, w2) = add_balance_event-keeps fresh c id t _ m _ _ _ entered added in
            rw moves (t2 ∙ t1, w2 ∙ w1)
      ]

  pub record_decision-keeps :
      (fresh : Fresh) (c : String) (op : Operation) (hash : String) (d : Decision) (w : Wallet)
      (db : Database) {db' : Database}
      → record_decision fresh c op hash d w db ≡ ok db'
      → (db'.transactions ≡ new_row fresh op hash d w ∷ db.transactions)
        × (db'.wallets ≡ wallets_after op.wallet_id d.direction w fresh.now db)
  unfolding record_decision update_wallet
  record_decision-keeps fresh c op hash d w db h =
      let (inserted, put, h1) = >>=-eq-ok (insert_transaction (new_row fresh op hash d w) db) _ h in
      let (ts, ws) = insert_transaction-eq-ok (new_row fresh op hash d w) db put in
      let (moved, posted, told) =
        >>=-eq-ok (move_funds fresh c op.wallet_id fresh.transaction_id op.money d w inserted) _
          h1 in
      let (t1, w1) =
        move_funds-keeps fresh c op.wallet_id fresh.transaction_id op.money d w inserted posted in
      let (t2, w2) = add_wager_event-keeps fresh c _ _ _ _ _ _ moved told in
      (t2 ∙ t1 ∙ ts, w2 ∙ w1 ∙ rw ws refl)

  -- The wallet that a row stands for.
  abbrev wallet_of : Uuid → WalletRow → Wallet
  wallet_of id row = record {
    id = id;
    player_id = row.player_id;
    balance = record { minor = row.balance_minor; currency = row.currency };
    version = row.version;
    created_at = row.created_at;
    updated_at = row.updated_at;
  }

  load_row :
      (id : Uuid) (row : WalletRow)
      → is_valid (wallet_of id row) ≡ true
      → (money_from_minor row.balance_minor row.currency >>= λ b.
          rehydrate_wallet id row.player_id b row.version row.created_at row.updated_at)
        ≡ ok (wallet_of id row)
  unfolding money_from_minor rehydrate_wallet
  load_row id row v = rw ((is_valid-Facts (wallet_of id row) v).currency_valid, v)

  row_of :
      (id : Uuid) (row : WalletRow) {w : Wallet}
      → (money_from_minor row.balance_minor row.currency >>= λ b.
          rehydrate_wallet id row.player_id b row.version row.created_at row.updated_at)
        ≡ ok w
      → w ≡ wallet_of id row
  unfolding money_from_minor rehydrate_wallet
  row_of id row h = ground arith

  load_wallet-row :
      (id : Uuid) (db : Database) {w : Wallet}
      → load_wallet id db ≡ ok w
      → (row : WalletRow) × (find (has_id id) db.wallets ≡ some row) × (w ≡ wallet_of id row)
  unfolding load_wallet
  load_wallet-row id db h =
      let (row, here, made) = >>=-eq-ok (found (find (has_id id) db.wallets) not_found) _ h in
      (row, found-some (find (has_id id) db.wallets) not_found here, row_of id row made)

  load_wallet-found :
      (id : Uuid) (db : Database) (row : WalletRow)
      → find (has_id id) db.wallets ≡ some row
      → is_valid (wallet_of id row) ≡ true
      → load_wallet id db ≡ ok (wallet_of id row)
  unfolding load_wallet
  load_wallet-found id db row here v = rw here (load_row id row v)

Effect-still :
    (d : Direction) (m : Money) (w : Wallet) (now : Time) (b : Money) (w' : Wallet)
    → direction_beq d (Direction.other "") ≡ true
    → Effect d m w now b w'
    → w' ≡ w
Effect-still credit m w now b w' h e = cc
Effect-still debit m w now b w' h e = cc
Effect-still (Direction.other s) m w now b w' h e = e.1

Effect-moved :
    (d : Direction) (m : Money) (w : Wallet) (now : Time) (b : Money) (w' : Wallet)
    → direction_beq d (Direction.other "") ≡ false
    → Effect d m w now b w'
    → (a : ℤ) × (w' ≡ moved w a now)
Effect-moved credit m w now b w' h e = (_, e.0)
Effect-moved debit m w now b w' h e = (_, e.0)
Effect-moved (Direction.other s) m w now b w' h e = cc ((eq_iff s "").1 e.0)

module _ ⦃iso : Currencies⦄ (id : Uuid) (row : WalletRow) (now : Time) (db db' : Database) where
  load_still :
      find (has_id id) db.wallets ≡ some row
      → is_valid (wallet_of id row) ≡ true
      → db'.wallets ≡ db.wallets
      → load_wallet id db' ≡ ok (wallet_of id row)
  load_still here v same = load_wallet-found id db' row (rw same here) v

  load_moved :
      (a : ℤ)
      → find (has_id id) db.wallets ≡ some row
      → is_valid (moved (wallet_of id row) a now) ≡ true
      → db'.wallets ≡ (update_wallet id (moved (wallet_of id row) a now) now db).wallets
      → load_wallet id db' ≡ ok (moved (wallet_of id row) a now)
  unfolding update_wallet
  load_moved a here v same =
      let w = moved (wallet_of id row) a now in
      load_wallet-found id db'
        (record row { balance_minor = a; version = w.version; updated_at = now })
        (rw same (
          find-updated id
            (λ (r : WalletRow). record r {
              balance_minor = a;
              version = w.version;
              updated_at = now;
            })
            row db.wallets (λ r. refl) here))
        v

  -- The wallet after a decision is the one that the new database holds.
  load_after :
      (d : Direction) (m b : Money) (w w' : Wallet)
      → w ≡ wallet_of id row
      → Effect d m w now b w'
      → find (has_id id) db.wallets ≡ some row
      → is_valid w' ≡ true
      → db'.wallets ≡ wallets_after id d w' now db
      → load_wallet id db' ≡ ok w'
  load_after d m b w w' is e here v same =
      let eff : Effect d m (wallet_of id row) now b w' = rw is at e in
      elim (Bool-cases (direction_beq d (Direction.other ""))) [
        | inl still ↦
            let kept = Effect-still d m (wallet_of id row) now b w' still eff in
            rw kept (load_still here (rw kept at v) (rw still at same))
        | inr moves ↦
            let (a, new) = Effect-moved d m (wallet_of id row) now b w' moves eff in
            rw new (load_moved a here (rw new at v) (rw (moves, new) at same))
      ]

-- An answer given again.
abbrev pub repeated : WagerResult → WagerResult
repeated r = record r { idempotent_replay = true }

module _ ⦃iso : Currencies⦄ where
  replay-new_row :
      (fresh : Fresh) (op : Operation) (hash : String) (d : Decision) (w : Wallet)
      → is_valid w ≡ true
      → replay op hash w.balance.currency (new_row fresh op hash d w)
        ≡ ok (repeated (result_of fresh d w))
  unfolding replay new_row money_from_minor
  replay-new_row fresh op hash d w v =
      rw
        (
          eq_refl hash,
          eq_refl op.idempotency_key,
          (is_valid-Facts w v).currency_valid,
          text_or_empty-nullable d.failure_code,
        )
        refl

  -- A call that stored a new row, and the database that it left.
  after_new :
      (fresh fresh' : Fresh) (op : Operation) (hash : String) (choose : Decide) (d : Decision)
      (w' : Wallet) (db' : Database) (ts : List TransactionRow)
      → is_valid w' ≡ true
      → db'.transactions ≡ new_row fresh op hash d w' ∷ ts
      → load_wallet op.wallet_id db' ≡ ok w'
      → execute fresh' op hash choose db' ≡ ok (repeated (result_of fresh d w'), db')
  unfolding execute execute_tx find_existing
  after_new fresh fresh' op hash choose d w' db' ts v rows loaded =
      rw (loaded, rows, find_new fresh op hash d w' ts, replay-new_row fresh op hash d w' v) refl

  replay-repeated :
      (op : Operation) (hash currency : String) (t : TransactionRow) {r : WagerResult}
      → replay op hash currency t ≡ ok r
      → repeated r ≡ r
  unfolding replay
  replay-repeated op hash currency t h = ground arith

  -- The same request again.
  module _ (fresh fresh' : Fresh) (op : Operation) (hash : String) (choose : Decide) (db : Database)
      (amount : IsInt64 op.money.minor) where
    execute_new-again :
        (w : Wallet) {r : WagerResult × Database}
        → load_wallet op.wallet_id db ≡ ok w
        → is_valid w ≡ true
        → Fits w
        → execute_new fresh "" op hash (decide op) w db ≡ ok r
        → execute fresh' op hash choose r.1 ≡ ok (repeated r.0, r.1)
    unfolding execute_new
    execute_new-again w loaded valid fits h =
        let (ref, read, h1) = >>=-eq-ok (load_reference op db) _ h in
        let (d, w') = decide op w ref fresh.now in
        let a : Applied op w fresh.now (d, w') =
          decide-Applied op w ref fresh.now valid fits amount in
        let (t, settled, h2) = >>=-eq-ok (settle_transaction fresh op hash d w') _ h1 in
        let (db', stored, done) = >>=-eq-ok (record_decision fresh "" op hash d w' db) _ h2 in
        let (ts, ws) = record_decision-keeps fresh "" op hash d w' db stored in
        let (row, here, is) = load_wallet-row op.wallet_id db loaded in
        let after : load_wallet op.wallet_id db' ≡ ok w' =
          load_after op.wallet_id row fresh.now db db' d.direction op.money d.balance_before w w' is
            a.effect here a.valid_after ws in
        subst
          (λ (x : WagerResult × Database).
            execute fresh' op hash choose x.1 ≡ ok (repeated x.0, x.1))
          (ok-inj done)
          (after_new fresh fresh' op hash choose d w' db' db.transactions a.valid_after ts after)

    stored_again :
        (w : Wallet) (t : TransactionRow) {r : WagerResult × Database}
        → load_wallet op.wallet_id db ≡ ok w
        → find_existing op db ≡ some t
        → unless_stored (some t) fresh "" op hash (decide op) w db ≡ ok r
        → execute fresh' op hash choose r.1 ≡ ok (repeated r.0, r.1)
    unfolding execute execute_tx
    stored_again w t loaded here h =
        let (result, replayed, done) = >>=-eq-ok (replay op hash w.balance.currency t) _ h in
        subst
          (λ (x : WagerResult × Database).
            execute fresh' op hash choose x.1 ≡ ok (repeated x.0, x.1))
          (ok-inj done)
          (rw (loaded, here, replayed, replay-repeated op hash w.balance.currency t replayed) refl)

    -- For every operation on an int64 amount and every sound database, the same request repeated
    -- after a successful call of `Execute`, whatever its clock, its identifiers and its decision,
    -- gives the same answer marked as a replay and changes nothing in the database.
    pub execute-again :
        {r : WagerResult × Database}
        → SoundDatabase db
        → execute fresh op hash (decide op) db ≡ ok r
        → execute fresh' op hash choose r.1 ≡ ok (repeated r.0, r.1)
    unfolding execute execute_tx
    execute-again sound h =
        let (w, loaded, rest) = >>=-eq-ok (load_wallet op.wallet_id db) _ h in
        let (row, here, stored, version, valid, own) = load_wallet-eq-ok op.wallet_id db loaded in
        let fits : Fits w = rw (stored, version) (sound.bigints op.wallet_id row here) in
        elim (Option-cases (find_existing op db)) [
          | inl absent ↦ execute_new-again w loaded valid fits (rw absent at rest)
          | inr (t, present) ↦ stored_again w t loaded present (rw present at rest)
        ]
