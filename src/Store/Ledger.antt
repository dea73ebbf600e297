-- ===== src/Store/Ledger.antt =====
-- internal/infra/postgres/store.go: the calls and the sums of the ledger.
use text.Mathlib.TextEquality.{eq_iff}
use mathlib.Core.Path.{subst}
use apostas_api.Prelude.{
  ◌≡◌, true, false, Option, none, some, ◌∷◌, String, arith, refl, sym, ◌∙◌, Bool-cases, inl, inr,
  ap,
}
use apostas_api.Prelude.Int.{ℤ, pos, ◌+ℤ◌, ◌-ℤ◌, int_laws}
use apostas_api.Prelude.Int64.{IsInt64}
use apostas_api.Prelude.Eq.{nat_eq}
use apostas_api.Result.{Error, ok, not_found, >>=-eq-ok, ok-inj, ◌>>=◌}
use apostas_api.Events.{new_wallet_balance_changed}
use apostas_api.Values.{Uuid, Time}
use apostas_api.Money.{Currencies, Money, money_from_minor}
use apostas_api.Wallet.{Wallet, is_valid, rehydrate_wallet}
use apostas_api.Wallet.Laws.{Fits, moved}
use apostas_api.LedgerEntry.{Direction, debit, credit, LedgerEntry, new_ledger_entry, direction_beq}
use apostas_api.LedgerEntry.Balance.{Moves, new_ledger_entry_sound}
use apostas_api.Transaction.{Status, Kind}
use apostas_api.Wager.{Operation, Reference, Decision, decide}
use apostas_api.Wager.Balances.{Effect, decide-Applied}
use apostas_api.Database.{WalletRow, LedgerRow, TransactionRow, Database, find}
use apostas_api.Database.Wallets.{has_id, signed, Sound, post-Sound}
use apostas_api.Store.Rows.{
  Fresh, found, insert_transaction, store_entry, ledger_row, update_wallet, add_event,
  add_wager_event, insert_ledger, add_balance_event, load_wallet,
}
use apostas_api.Store.Calls.{
  WagerResult, Decide, find_existing, replay, load_reference, new_row, move_funds,
  settle_transaction, record_decision, execute_new, execute_tx, execute, unless_stored,
}

abbrev pub SoundDatabase : Database → Type 0
SoundDatabase db = Sound db.wallets db.ledger

-- The same wallets and ledger.
abbrev pub SameBooks : Database → Database → Type 0
SameBooks db db' = (db'.wallets ≡ db.wallets) × (db'.ledger ≡ db.ledger)

pub insert_transaction-SameBooks :
    (t : TransactionRow) (db : Database) {db' : Database}
    → insert_transaction t db ≡ ok db'
    → SameBooks db db'
unfolding insert_transaction
insert_transaction-SameBooks t db h = ground arith

pub add_wager_event-SameBooks :
    (fresh : Fresh) (c : String) (w t : Uuid) (p : String) (k : Kind) (s : Status) (f : String)
    (db : Database) {db' : Database}
    → add_wager_event fresh c w t p k s f db ≡ ok db'
    → SameBooks db db'
unfolding add_wager_event add_event
add_wager_event-SameBooks fresh c w t p k s f db h = ground arith

pub found-some {ℓ} : {A : Type ℓ} (o : Option A) (e : Error) {a : A} → found o e ≡ ok a → o ≡ some a
found-some none e h = cc
found-some (some a) e h = cc

store_entry-eq-ok :
    (row : LedgerRow) (db : Database) {db' : Database}
    → store_entry row db ≡ ok db'
    → (db'.wallets ≡ db.wallets) × (db'.ledger ≡ row ∷ db.ledger)
unfolding store_entry
store_entry-eq-ok row db h = ground arith

module _ ⦃iso : Currencies⦄ where
  pub add_balance_event-SameBooks :
      (fresh : Fresh) (c : String) (w t : Uuid) (d : Direction) (m b a : Money) (v : ℤ)
      (db : Database) {db' : Database}
      → add_balance_event fresh c w t d m b a v db ≡ ok db'
      → SameBooks db db'
  unfolding add_balance_event add_event new_wallet_balance_changed
  add_balance_event-SameBooks fresh c w t d m b a v db {db'} h = ground arith

  row_wallet :
      (id : Uuid) (row : WalletRow) {w : Wallet}
      → (money_from_minor row.balance_minor row.currency >>= λ b.
          rehydrate_wallet id row.player_id b row.version row.created_at row.updated_at)
        ≡ ok w
      → (w.balance.minor ≡ row.balance_minor)
        × (w.version ≡ row.version)
        × (is_valid w ≡ true)
        × (w.id ≡ id)
  unfolding money_from_minor rehydrate_wallet
  row_wallet id row h = ground arith

  -- The wallet that is loaded is valid and has the row's balance and version.
  pub load_wallet-eq-ok :
      (id : Uuid) (db : Database) {w : Wallet}
      → load_wallet id db ≡ ok w
      → (row : WalletRow) × (find (has_id id) db.wallets ≡ some row)
        × (w.balance.minor ≡ row.balance_minor)
        × (w.version ≡ row.version)
        × (is_valid w ≡ true)
        × (w.id ≡ id)
  unfolding load_wallet
  load_wallet-eq-ok id db {w} h =
      let (row, here, made) = >>=-eq-ok (found (find (has_id id) db.wallets) not_found) _ h in
      let (b, v, valid, same) = row_wallet id row made in
      (row, found-some (find (has_id id) db.wallets) not_found here, b, v, valid, same)

  -- The entry that a move of money adds.
  pub insert_ledger-eq-ok :
      (fresh : Fresh) (w t : Uuid) (d : Direction) (m b a : Money) (v : ℤ) (at : Time)
      (db : Database) {db' : Database}
      → IsInt64 m.minor
      → IsInt64 b.minor
      → insert_ledger fresh w t d m b a v at db ≡ ok db'
      → (e : LedgerRow) × (db'.ledger ≡ e ∷ db.ledger)
        × (db'.wallets ≡ db.wallets)
        × (e.wallet_id ≡ w)
        × (e.direction ≡ d)
        × (e.amount_minor ≡ m.minor)
        × Moves d m b a
  unfolding insert_ledger
  insert_ledger-eq-ok fresh w t d m b a v at db hm hb h =
      let (entry, made, added) = >>=-eq-ok (new_ledger_entry fresh.entry_id w t d m b a at) _ h in
      let facts = new_ledger_entry_sound fresh.entry_id w t d m b a at hm hb made in
      let row = ledger_row entry v in
      let (books, entries) = store_entry-eq-ok row db added in
      (
        row,
        entries,
        books,
        ap (λ (x : LedgerEntry). x.wallet_id) facts.0,
        ap (λ (x : LedgerEntry). x.direction) facts.0,
        ap (λ (x : LedgerEntry). x.money.minor) facts.0,
        facts.6,
      )

up : (a b : ℤ) → a +ℤ b ≡ b +ℤ a
up a b = omega int_laws

down : (a b : ℤ) → a -ℤ b ≡ pos 0 -ℤ b +ℤ a
down a b = omega int_laws

Effect-signed :
    (d : Direction) (m : Money) (w : Wallet) (now : Time) (b : Money) (w' : Wallet)
    → direction_beq d (Direction.other "") ≡ false
    → Effect d m w now b w'
    → (b ≡ w.balance) × (w'.balance.minor ≡ signed d m.minor +ℤ w.balance.minor)
Effect-signed credit m w now b w' n (e, before) =
    (before, ap (λ (x : Wallet). x.balance.minor) e ∙ up w.balance.minor m.minor)
Effect-signed debit m w now b w' n (e, before, le) =
    (before, ap (λ (x : Wallet). x.balance.minor) e ∙ down w.balance.minor m.minor)
Effect-signed (Direction.other s) m w now b w' n (e, same) = cc ((eq_iff s "").1 e)

module _ ⦃iso : Currencies⦄ where
  -- The wallet of a request, as it is stored.
  module _ (fresh : Fresh) (id : Uuid) (m : Money) (w w' : Wallet) (db : Database) (row : WalletRow)
      (here : find (has_id id) db.wallets ≡ some row) (stored : w.balance.minor ≡ row.balance_minor)
      (fits : Fits w) (fits' : Fits w') (amount : IsInt64 m.minor) (sound : SoundDatabase db) where
    posted :
        (c : String) (tid : Uuid) (d : Direction) (b : Money) {db' : Database}
        → direction_beq d (Direction.other "") ≡ false
        → Effect d m w fresh.now b w'
        → (insert_ledger fresh id tid d m b w'.balance w'.version fresh.now
              (update_wallet id w' fresh.now db)
            >>= λ entered. add_balance_event fresh c id tid d m b w'.balance w'.version entered)
          ≡ ok db'
        → SoundDatabase db'
    unfolding update_wallet
    posted c tid d b n eff h =
        let (before, sum) = Effect-signed d m w fresh.now b w' n eff in
        let (entered, inserted, added) =
          >>=-eq-ok
            (insert_ledger fresh id tid d m b w'.balance w'.version fresh.now
              (update_wallet id w' fresh.now db))
            _ h in
        let (e, ledger, wallets, own, dir, amt, moves) =
          insert_ledger-eq-ok fresh id tid d m b w'.balance w'.version fresh.now
            (update_wallet id w' fresh.now db) amount (rw before fits.0) inserted in
        let (ws, es) =
          add_balance_event-SameBooks fresh c id tid d m b w'.balance w'.version entered added in
        rw (ws, es, ledger, wallets)
          (post-Sound id _ row db.wallets (λ x. refl) here e db.ledger own
            (sum
              ∙ ap (λ (x : ℤ). signed d m.minor +ℤ x) stored
              ∙ ap (λ (x : Direction). signed x m.minor +ℤ row.balance_minor) (sym dir)
              ∙ ap (λ (x : ℤ). signed e.direction x +ℤ row.balance_minor) (sym amt))
            fits' sound)

    pub move_funds-Sound :
        (c : String) (tid : Uuid) (d : Decision) {db' : Database}
        → Effect d.direction m w fresh.now d.balance_before w'
        → move_funds fresh c id tid m d w' db ≡ ok db'
        → SoundDatabase db'
    unfolding move_funds
    move_funds-Sound c tid d eff h =
        elim (Bool-cases (direction_beq d.direction (Direction.other ""))) [
          | inl still ↦ subst SoundDatabase (ok-inj (rw still at h)) sound
          | inr moves ↦ posted c tid d.direction d.balance_before moves eff (rw moves at h)
        ]

  -- What the ledger needs of a callback: the wallet moves as the decision says.
  abbrev pub Honest : Operation → Decide → Type 0
  Honest op choose =
      (w : Wallet) (ref : Option Reference) (now : Time)
      → is_valid w ≡ true
      → Fits w
      → Effect (choose w ref now).0.direction op.money w now (choose w ref now).0.balance_before
          (choose w ref now).1
        × Fits (choose w ref now).1

  module _ (fresh : Fresh) (c : String) (op : Operation) (hash : String) (choose : Decide)
      (db : Database) (honest : Honest op choose) (amount : IsInt64 op.money.minor)
      (sound : SoundDatabase db) where
    record_decision-Sound :
        (d : Decision) (w w' : Wallet) (row : WalletRow) {db' : Database}
        → find (has_id op.wallet_id) db.wallets ≡ some row
        → w.balance.minor ≡ row.balance_minor
        → Fits w
        → Fits w'
        → Effect d.direction op.money w fresh.now d.balance_before w'
        → record_decision fresh c op hash d w' db ≡ ok db'
        → SoundDatabase db'
    unfolding record_decision
    record_decision-Sound d w w' row here stored fits fits' eff h =
        let (inserted, put, h1) =
          >>=-eq-ok (insert_transaction (new_row fresh op hash d w') db) _ h in
        let (ws, es) = insert_transaction-SameBooks (new_row fresh op hash d w') db put in
        let (moved, posted, told) =
          >>=-eq-ok (move_funds fresh c op.wallet_id fresh.transaction_id op.money d w' inserted) _
            h1 in
        let after : SoundDatabase moved =
          move_funds-Sound fresh op.wallet_id op.money w w' inserted row (rw ws here) stored fits
            fits' amount (rw (ws, es) sound) c fresh.transaction_id d eff posted in
        let (ws', es') = add_wager_event-SameBooks fresh c _ _ _ _ _ _ moved told in
        rw (ws', es') after

    execute_new-Sound :
        (w : Wallet) (row : WalletRow) {r : WagerResult × Database}
        → find (has_id op.wallet_id) db.wallets ≡ some row
        → w.balance.minor ≡ row.balance_minor
        → is_valid w ≡ true
        → Fits w
        → execute_new fresh c op hash choose w db ≡ ok r
        → SoundDatabase r.1
    unfolding execute_new
    execute_new-Sound w row here stored valid fits h =
        let (ref, loaded, h1) = >>=-eq-ok (load_reference op db) _ h in
        let (d, w') = choose w ref fresh.now in
        let (eff, fits') = honest w ref fresh.now valid fits in
        let (t, settled, h2) = >>=-eq-ok (settle_transaction fresh op hash d w') _ h1 in
        let (db', stored', done) = >>=-eq-ok (record_decision fresh c op hash d w' db) _ h2 in
        subst (λ (x : WagerResult × Database). SoundDatabase x.1) (ok-inj done)
          (record_decision-Sound d w w' row here stored fits fits' eff stored')

    unless_stored-Sound :
        (o : Option TransactionRow) (w : Wallet) (row : WalletRow) {r : WagerResult × Database}
        → find (has_id op.wallet_id) db.wallets ≡ some row
        → w.balance.minor ≡ row.balance_minor
        → is_valid w ≡ true
        → Fits w
        → unless_stored o fresh c op hash choose w db ≡ ok r
        → SoundDatabase r.1
    unless_stored-Sound none w row here stored valid fits h =
        execute_new-Sound w row here stored valid fits h
    unless_stored-Sound (some t) w row here stored valid fits h =
        let (result, replayed, done) = >>=-eq-ok (replay op hash w.balance.currency t) _ h in
        subst (λ (x : WagerResult × Database). SoundDatabase x.1) (ok-inj done) sound

    -- A request that succeeds, whether new or repeated, leaves the tables sound.
    pub execute_tx-Sound :
        {r : WagerResult × Database}
        → execute_tx fresh c op hash choose db ≡ ok r
        → SoundDatabase r.1
    unfolding execute_tx
    execute_tx-Sound h =
        let (w, loaded, rest) = >>=-eq-ok (load_wallet op.wallet_id db) _ h in
        let (row, here, stored, version, valid, own) = load_wallet-eq-ok op.wallet_id db loaded in
        let fits : Fits w = rw (stored, version) (sound.bigints op.wallet_id row here) in
        unless_stored-Sound (find_existing op db) w row here stored valid fits rest

  pub decide-Honest : (op : Operation) → IsInt64 op.money.minor → Honest op (decide op)
  decide-Honest op m w ref now v f =
      let a = decide-Applied op w ref now v f m in (a.effect, a.fits_after)

  -- For every operation on an int64 amount, a call of `Execute` with the decision of `Decide` that
  -- succeeds keeps every stored balance equal to the signed sum of its wallet's ledger entries, and
  -- keeps the stored balances and versions int64 values.
  pub execute-Sound :
      (fresh : Fresh) (op : Operation) (hash : String) (db : Database) {r : WagerResult × Database}
      → IsInt64 op.money.minor
      → SoundDatabase db
      → execute fresh op hash (decide op) db ≡ ok r
      → SoundDatabase r.1
  unfolding execute
  execute-Sound fresh op hash db m sound h =
      execute_tx-Sound fresh "" op hash (decide op) db (decide-Honest op m) m sound h
