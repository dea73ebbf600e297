-- ===== src/System/History.antt =====
-- The history that a run of the service leaves.
use apostas_api.Prelude.{◌≡◌, true, Option, none, some, List, ◌++◌, String, refl, ap, ◌∙◌}
use apostas_api.Prelude.Eq.{nat_eq, string_eq}
use apostas_api.Result.{Result, ok}
use apostas_api.Values.{Uuid}
use apostas_api.Store.Writes.Effects.{Tables}
use apostas_api.Money.{Currencies, valid_currency}
use apostas_api.Wager.{Operation, decide}
use apostas_api.Database.{WalletRow, TransactionRow, LedgerRow, Database, find}
use apostas_api.Database.Wallets.{has_id}
use apostas_api.Store.{Fresh, WagerResult, InboxMessage, execute, find_existing, is_same_request}
use apostas_api.Store.Wallets.{Reconciliation, reconcile_wallet}
use apostas_api.Store.Reconciliation.{reconcile_wallet-consistent}
use apostas_api.Store.Resolve.Attempts.{Among}
use apostas_api.Store.Writes.Kept.{Kept, Writes-Kept}
use apostas_api.Store.Writes.Books.{Writes-ledger}
use apostas_api.Requests.{Canonical, process, dispatch, process_steps}
use apostas_api.Http.{Web}
use apostas_api.Http.Routes.Writes.{Int64Web}
use apostas_api.Workers.Consumer.{Codec}
use apostas_api.Workers.Consumer.Related.{Int64Codec}
use apostas_api.Store.Writes.Apart.{clashing_rows, Reverses, reversals_clash}
use apostas_api.Store.Writes.Repeats.{
  Replayed, exists-Among, exists-find, execute_tx-Replayed, execute_inbox-Replayed,
}
use apostas_api.System.{empty, Steps}
use apostas_api.System.Health.{Healthy, Steady, Steps-Steady, Steps-Healthy}

module _ ⦃iso : Currencies⦄ where
  dispatch-Replayed :
      (fresh : Fresh) (inbox : Option InboxMessage) (op : Operation) (sum : String) (db : Database)
      (t : TransactionRow) {r : WagerResult × Database}
      → find_existing op db ≡ some t
      → dispatch fresh inbox op sum db ≡ ok r
      → Replayed db r
  unfolding execute
  dispatch-Replayed fresh none op sum db t here h =
      execute_tx-Replayed fresh "" op sum (decide op) db t here h
  dispatch-Replayed fresh (some m) op sum db t here h =
      execute_inbox-Replayed fresh m op sum (decide op) db t here h

module _ ⦃iso : Currencies⦄ (hash : Canonical → Result String) (web : Web) (codec : Codec)
    (int64_web : Int64Web web) (int64_codec : Int64Codec codec) where
  module _ (db : Database) (start : Steps hash web codec empty db) where
    healthy : Healthy db
    healthy = Steps-Healthy hash web codec int64_web int64_codec db start

    -- Where decoded amounts are int64 values: in every database that the service reaches from the
    -- empty one, two processed refunds or rollbacks of the same transaction are the same row, so
    -- that no wager is reversed twice.
    pub reversed_once :
        (t u : TransactionRow) (id : Uuid)
        → Among t db.transactions
        → Among u db.transactions
        → Reverses t id
        → Reverses u id
        → t ≡ u
    reversed_once t u id m n ht hu =
        clashing_rows t u db.transactions healthy.keyed.transactions_apart m n
          (reversals_clash t u id ht hu)

    -- Where decoded amounts are int64 values: in every database that the service reaches from the
    -- empty one, `ReconcileWallet` of a stored wallet with a valid currency answers that the wallet
    -- is consistent: the sum of its ledger is its stored balance.
    pub always_consistent :
        (id : Uuid) (row : WalletRow)
        → find (has_id id) db.wallets ≡ some row
        → valid_currency row.currency ≡ true
        → (answer : Reconciliation) × (reconcile_wallet id db ≡ ok answer)
          × (answer.consistent ≡ true)
          × (answer.calculated_balance ≡ answer.stored_balance)
    always_consistent id row here cur =
        (_, reconcile_wallet-consistent id db row healthy.sound here cur, refl, refl)

    module _ (db' : Database) (run : Steps hash web codec db db') where
      steady : Steady db db'
      steady = Steps-Steady hash web codec int64_web int64_codec db db' run

      -- Where decoded amounts are int64 values: whatever the service does after it has reached a
      -- database from the empty one, the ledger is extended in front, and no entry is changed or
      -- removed.
      pub ledger_extended : (new : List LedgerRow) × (db'.ledger ≡ new ++ db.ledger)
      ledger_extended = Writes-ledger steady.writes

      -- Where decoded amounts are int64 values: whatever the service does after it has reached a
      -- database from the empty one, a stored transaction stays stored with what was requested, and
      -- one that does not wait for its reference is not changed at all.
      pub transaction-Kept :
          (t : TransactionRow) → Among t db.transactions → Kept t db'.transactions
      transaction-Kept t m = Writes-Kept t steady.writes healthy.keyed m

      stays_stored :
          (op : Operation) (t : TransactionRow)
          → Among t db.transactions
          → is_same_request op t ≡ true
          → (u : TransactionRow) × (find_existing op db' ≡ some u)
      unfolding find_existing
      stays_stored op t m same =
          let (t', m', requested, settled) = transaction-Kept t m in
          exists-find (is_same_request op) db'.transactions (
            exists-Among (is_same_request op) t' db'.transactions m'
              (ap (is_same_request op) requested ∙ same))

      -- Where decoded amounts are int64 values: once a request is stored in a database that the
      -- service has reached from the empty one, every later request of the same provider with its
      -- key or its external identifier, by HTTP or as a message and whatever happened between, that
      -- is answered is answered as a replay, and leaves the wallets, the transactions and the
      -- ledger as they are.
      pub processed_once :
          (op : Operation) (t : TransactionRow) (fresh : Fresh) (inbox : Option InboxMessage)
          (result : WagerResult) (after : Database)
          → Among t db.transactions
          → is_same_request op t ≡ true
          → process hash fresh inbox op db' ≡ ok (result, after)
          → Tables after db'.wallets db'.transactions db'.ledger × (result.idempotent_replay ≡ true)
      processed_once op t fresh inbox result after m same h =
          let (u, here) = stays_stored op t m same in
          let (_, _, (sum, done)) = process_steps hash fresh inbox op db' h in
          dispatch-Replayed fresh inbox op sum db' u here done
