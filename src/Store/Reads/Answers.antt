-- ===== src/Store/Reads/Answers.antt =====
-- internal/infra/postgres/store.go: what the queries give for a transaction that `Execute` stored.
use text.Mathlib.TextPositions.{eq_refl}
use apostas_api.Transaction.{status_eq}
use apostas_api.Store.Replay.{record_decision-keeps}
use mathlib.Core.Path.{subst}
use apostas_api.Prelude.{
  ◌≡◌, ◌≢◌, true, false, Option, some, List, ◌∷◌, String, refl, arith, inl, inr, Option-cases, ◌∙◌,
}
use apostas_api.Prelude.Eq.{◌==◌, nat_eq, string_eq}
use apostas_api.Result.{ok, >>=-eq-ok, ok-inj, ◌>>=◌}
use apostas_api.Values.{Uuid, Time}
use apostas_api.Money.{Currencies}
use apostas_api.Wallet.{Wallet}
use apostas_api.Wager.{Operation, Decision}
use apostas_api.WagerTransaction.{WagerTransaction}
use apostas_api.WagerTransaction.Validity.{validate-Checked}
use apostas_api.Database.{TransactionRow, Database, find}
use apostas_api.Store.Rows.{Fresh, load_wallet}
use apostas_api.Store.Calls.{
  WagerResult, Decide, new_row, nullable_uuid, result_of, settle_transaction, record_decision,
  execute_new, execute, execute_tx, find_existing, replay, load_reference,
}
use apostas_api.Store.Reads.{
  view_row, scan_transaction, get_transaction, get_transaction_for_provider,
  get_transaction_by_external,
}
use apostas_api.Store.Reads.Shown.{
  answered, settle_transaction-written, not_pending, view_row-new_row,
}

nat_same : (n : Uuid) → (n == n) ≡ true
nat_same n = ground arith

module _ ⦃iso : Currencies⦄ where
  replayed_again :
      (op : Operation) (hash : String) (w : Wallet) (t : TransactionRow) (db : Database)
      {r : WagerResult × Database}
      → r.0.idempotent_replay ≡ false
      → (replay op hash w.balance.currency t >>= λ result. ok (result, db)) ≡ ok r
      → ⊥
  unfolding replay
  replayed_again op hash w t db new h = ground arith

  -- The three queries for a row that stands in front.
  module _ (row : TransactionRow) (db : Database) (rows : List TransactionRow)
      (provider external : String) (front : db.transactions ≡ row ∷ rows)
      (by : row.provider_id ≡ some provider)
      (named : row.external_transaction_id ≡ some external) where
    get_front : get_transaction row.id db ≡ view_row row
    unfolding get_transaction scan_transaction find
    get_front = rw (front, nat_same row.id) refl

    get_provider_front : get_transaction_for_provider row.id provider db ≡ view_row row
    unfolding get_transaction_for_provider scan_transaction find
    get_provider_front = rw (front, nat_same row.id, by, eq_refl provider) refl

    get_external_front : get_transaction_by_external provider external db ≡ view_row row
    unfolding get_transaction_by_external scan_transaction find
    get_external_front = rw (front, by, named, eq_refl provider, eq_refl external) refl

  -- The three queries for an answered transaction give it.
  abbrev pub ReadBack : Operation → Time → WagerResult × Database → Type 0
  ReadBack op at (r, db) =
      (ref : Option Uuid) × (get_transaction r.transaction_id db ≡ ok (answered op r ref at))
      × (get_transaction_for_provider r.transaction_id op.provider_id db
          ≡ ok (answered op r ref at))
      × (get_transaction_by_external op.provider_id op.external_transaction_id db
          ≡ ok (answered op r ref at))

  stored-ReadBack :
      (fresh : Fresh) (op : Operation) (hash : String) (d : Decision) (w : Wallet) (db : Database)
      (rows : List TransactionRow) {t : WagerTransaction}
      → fresh.db_now ≢ 0
      → settle_transaction fresh op hash d w ≡ ok t
      → db.transactions ≡ new_row fresh op hash d w ∷ rows
      → ReadBack op fresh.db_now (result_of fresh d w, db)
  unfolding new_row
  stored-ReadBack fresh op hash d w db rows set settles front =
      let (v, edge) = settle_transaction-written fresh op hash d w settles in
      let row = new_row fresh op hash d w in
      let shows =
        view_row-new_row fresh op hash d w set (validate-Checked _ v) (not_pending edge) in
      (
        nullable_uuid d.reference_id,
        get_front row db rows op.provider_id op.external_transaction_id front refl refl ∙ shows,
        get_provider_front row db rows op.provider_id op.external_transaction_id front refl refl
            ∙ shows,
        get_external_front row db rows op.provider_id op.external_transaction_id front refl refl
            ∙ shows,
      )

  execute_new-ReadBack :
      (fresh : Fresh) (op : Operation) (hash : String) (choose : Decide) (w : Wallet)
      (db : Database) {r : WagerResult × Database}
      → fresh.db_now ≢ 0
      → execute_new fresh "" op hash choose w db ≡ ok r
      → ReadBack op fresh.db_now r
  unfolding execute_new
  execute_new-ReadBack fresh op hash choose w db set h =
      let (ref, read, h1) = >>=-eq-ok (load_reference op db) _ h in
      let (d, w') = choose w ref fresh.now in
      let (t, settles, h2) = >>=-eq-ok (settle_transaction fresh op hash d w') _ h1 in
      let (db', stored, done) = >>=-eq-ok (record_decision fresh "" op hash d w' db) _ h2 in
      let (rows, wallets) = record_decision-keeps fresh "" op hash d w' db stored in
      subst (ReadBack op fresh.db_now) (ok-inj done)
        (stored-ReadBack fresh op hash d w' db' db.transactions set settles rows)

  -- For every call of `Execute` that stored a new transaction, whatever decided it, with the
  -- database's clock set: the three queries, by the answered identifier, by it and the provider,
  -- and by the provider and the external identifier, all give one transaction, with the operation's
  -- fields, the answered status, failure code and balance, and the database's time.
  pub execute-ReadBack :
      (fresh : Fresh) (op : Operation) (hash : String) (choose : Decide) (db : Database)
      {r : WagerResult × Database}
      → fresh.db_now ≢ 0
      → r.0.idempotent_replay ≡ false
      → execute fresh op hash choose db ≡ ok r
      → ReadBack op fresh.db_now r
  unfolding execute execute_tx
  execute-ReadBack fresh op hash choose db set new h =
      let (w, loaded, rest) = >>=-eq-ok (load_wallet op.wallet_id db) _ h in
      elim (Option-cases (find_existing op db)) [
        | inl absent ↦ execute_new-ReadBack fresh op hash choose w db set (rw absent at rest)
        | inr (t, present) ↦ absurd (replayed_again op hash w t db new (rw present at rest))
      ]
