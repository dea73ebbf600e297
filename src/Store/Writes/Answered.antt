-- ===== src/Store/Writes/Answered.antt =====
-- internal/infra/postgres/store.go: the stored transaction that the answer of `executeTx` is about.
use text.Mathlib.TextEquality.{eq_iff}
use mathlib.Core.Path.{subst}
use apostas_api.Prelude.{
  ◌≡◌, Bool, true, Option, none, some, List, [], ◌∷◌, String, arith, refl, sym, ap, inl, inr,
  Bool-cases, Option-cases, and_eq_true,
}
use apostas_api.Prelude.Eq.{nat_eq, string_eq}
use apostas_api.Result.{ok, ◌>>=◌, >>=-eq-ok, ok-inj}
use apostas_api.Money.{Currencies, valid_currency, money_from_minor}
use apostas_api.Wallet.Laws.{is_valid-Facts}
use apostas_api.Store.Ledger.{load_wallet-eq-ok}
use apostas_api.Wallet.{Wallet}
use apostas_api.Wager.{Operation, Decision}
use apostas_api.Database.{TransactionRow, Database, find, is_text}
use apostas_api.Store.{
  Fresh, WagerResult, execute_tx, execute_new, find_existing, load_reference, load_wallet, new_row,
  record_decision, settle_transaction, is_same_request,
}
use apostas_api.Store.Calls.{replay, Decide, result_of}
use apostas_api.Store.Replay.{record_decision-keeps}
use apostas_api.Store.Resolve.Attempts.{Among}

-- The answer is about a stored transaction of the provider, and shows its identifier, its status and its
-- balance.
abbrev pub AnswersFor : String → WagerResult → Database → Type 0
AnswersFor provider r db =
    (t : TransactionRow) × Among t db.transactions
    × (t.provider_id ≡ some provider)
    × (t.id ≡ r.transaction_id)
    × (t.status ≡ r.status)
    × (t.result_balance_minor ≡ some r.balance.minor)

find-Among :
    (p : TransactionRow → Bool) (ts : List TransactionRow) (t : TransactionRow)
    → find p ts ≡ some t
    → Among t ts × (p t ≡ true)
unfolding find
find-Among p [] t h = cc
find-Among p (u ∷ us) t h = elim (Bool-cases (p u)) [
  | inl one ↦ let is : some u ≡ some t = rw one at h in (inl (cc is), cc (one, is))
  | inr other ↦ let (m, fits) = find-Among p us t (rw other at h) in (inr m, fits)
]

own_text : (o : Option String) (s : String) → is_text o s ≡ true → o ≡ some s
own_text none s h = cc
own_text (some t) s h = ap some ((eq_iff t s).0 h)

module _ ⦃iso : Currencies⦄ where
  replay-answers :
      (op : Operation) (hash currency : String) (t : TransactionRow) {r : WagerResult}
      → valid_currency currency ≡ true
      → replay op hash currency t ≡ ok r
      → (t.id ≡ r.transaction_id)
        × (t.status ≡ r.status)
        × (t.result_balance_minor ≡ some r.balance.minor)
  unfolding replay money_from_minor
  replay-answers op hash currency t v h = ground (arith, v)

  new_row-own :
      (fresh : Fresh) (op : Operation) (hash : String) (d : Decision) (w : Wallet)
      → ((new_row fresh op hash d w).provider_id ≡ some op.provider_id)
        × ((new_row fresh op hash d w).id ≡ (result_of fresh d w).transaction_id)
        × ((new_row fresh op hash d w).status ≡ (result_of fresh d w).status)
        × ((new_row fresh op hash d w).result_balance_minor
            ≡ some (result_of fresh d w).balance.minor)
  unfolding new_row
  new_row-own fresh op hash d w = (refl, refl, refl, refl)

  module _ (fresh : Fresh) (c : String) (op : Operation) (hash : String) (choose : Decide)
      (db : Database) where
    abbrev Answers : WagerResult × Database → Type 0
    Answers (r, db') = AnswersFor op.provider_id r db'

    execute_new-Answers :
        (w : Wallet) {r : WagerResult × Database}
        → execute_new fresh c op hash choose w db ≡ ok r
        → Answers r
    unfolding execute_new
    execute_new-Answers w h =
        let (ref, read, h1) = >>=-eq-ok (load_reference op db) _ h in
        let (d, w') = choose w ref fresh.now in
        let (t, settled, h2) = >>=-eq-ok (settle_transaction fresh op hash d w') _ h1 in
        let (db', stored, done) = >>=-eq-ok (record_decision fresh c op hash d w' db) _ h2 in
        let (ts, ws) = record_decision-keeps fresh c op hash d w' db stored in
        let (own, which, status, balance) = new_row-own fresh op hash d w' in
        subst Answers (ok-inj done) (
          new_row fresh op hash d w',
          subst (Among (new_row fresh op hash d w')) (sym ts) (inl refl),
          own,
          which,
          status,
          balance,
        )

    stored-Answers :
        (w : Wallet) (t : TransactionRow) {r : WagerResult × Database}
        → valid_currency w.balance.currency ≡ true
        → find_existing op db ≡ some t
        → (replay op hash w.balance.currency t >>= λ result. ok (result, db)) ≡ ok r
        → Answers r
    unfolding find_existing
    stored-Answers w t v here h =
        let (result, replayed, done) = >>=-eq-ok (replay op hash w.balance.currency t) _ h in
        let (m, fits) = find-Among (is_same_request op) db.transactions t here in
        let (own, key) = and_eq_true (is_text t.provider_id op.provider_id) _ fits in
        let (same, status, balance) = replay-answers op hash w.balance.currency t v replayed in
        subst Answers (ok-inj done)
          (t, m, own_text t.provider_id op.provider_id own, same, status, balance)

    -- Whatever `executeTx` answers is about a stored transaction of the request's provider.
    pub execute_tx-AnswersFor :
        {r : WagerResult × Database}
        → execute_tx fresh c op hash choose db ≡ ok r
        → AnswersFor op.provider_id r.0 r.1
    unfolding execute_tx
    execute_tx-AnswersFor {r} h =
        let (w, loaded, rest) = >>=-eq-ok (load_wallet op.wallet_id db) _ h in
        let (row, found_row, stored, version, valid, own) =
          load_wallet-eq-ok op.wallet_id db loaded in
        elim (Option-cases (find_existing op db)) [
          | inr (t, here) ↦
              stored-Answers w t {r = r} (is_valid-Facts w valid).currency_valid here
                (rw here at rest)
          | inl missing ↦ execute_new-Answers w {r = r} (rw missing at rest)
        ]
