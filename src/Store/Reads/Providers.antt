-- ===== src/Store/Reads/Providers.antt =====
-- internal/infra/postgres/store.go: whose transaction a query may give.
use text.Mathlib.TextEquality.{eq_iff}
use apostas_api.Transaction.{status_eq}
use apostas_api.Prelude.{
  ◌≡◌, Bool, true, Option, none, some, List, [], ◌∷◌, and_eq_true, String, arith, ◌∙◌,
}
use apostas_api.Prelude.Eq.{eqb_iff, ◌==◌, nat_eq, string_eq}
use apostas_api.Result.{ok, not_found, >>=-eq-ok}
use apostas_api.Values.{Uuid}
use apostas_api.Money.{Currencies}
use apostas_api.Database.{TransactionRow, Database, find, is_text}
use apostas_api.Store.Ledger.{found-some}
use apostas_api.Store.Rows.{found}
use apostas_api.Store.Calls.{text_or_empty, reference_row}
use apostas_api.Store.Reads.{
  TransactionView, view_row, scan_transaction, get_transaction_for_provider,
  get_transaction_by_external,
}

find-fits {ℓ} : {A : Type ℓ} (p : A → Bool) (xs : List A) {x : A} → find p xs ≡ some x → p x ≡ true
unfolding find
find-fits p [] h = cc
find-fits p (y ∷ ys) {x} h = ground (arith, find-fits p ys {x = x})

text_or_empty-is_text : (o : Option String) (t : String) → is_text o t ≡ true → text_or_empty o ≡ t
text_or_empty-is_text none t h = cc
text_or_empty-is_text (some s) t h = (eq_iff s t).0 h

module _ ⦃iso : Currencies⦄ where
  view_row-key :
      (row : TransactionRow) {t : TransactionView}
      → view_row row ≡ ok t
      → (t.id ≡ row.id) × (t.provider_id ≡ text_or_empty row.provider_id)
  unfolding view_row
  view_row-key row h = ground arith

  -- A provider that asks for a transaction by its identifier is shown only a transaction with this
  -- identifier and of this provider.
  pub get_transaction_for_provider_safe :
      (id : Uuid) (provider : String) (db : Database) {t : TransactionView}
      → get_transaction_for_provider id provider db ≡ ok t
      → (t.id ≡ id) × (t.provider_id ≡ provider)
  unfolding get_transaction_for_provider scan_transaction
  get_transaction_for_provider_safe id provider db h =
      let (row, here, shown) = >>=-eq-ok (found _ not_found) _ h in
      let fits = find-fits _ db.transactions (found-some _ not_found here) in
      let (own, by) = view_row-key row shown in
      let (same, of) = and_eq_true (row.id == id) (is_text row.provider_id provider) fits in
      (own ∙ (eqb_iff row.id id).0 same, by ∙ text_or_empty-is_text row.provider_id provider of)

  -- A transaction that is asked for by a provider and an external identifier is this provider's.
  pub get_transaction_by_external_safe :
      (provider external : String) (db : Database) {t : TransactionView}
      → get_transaction_by_external provider external db ≡ ok t
      → t.provider_id ≡ provider
  unfolding get_transaction_by_external scan_transaction
  get_transaction_by_external_safe provider external db h =
      let (row, here, shown) =
        >>=-eq-ok (found (reference_row provider external db) not_found) _ h in
      let fits =
        find-fits _ db.transactions
          (found-some (reference_row provider external db) not_found here) in
      let (own, by) = view_row-key row shown in
      let (of, named) =
        and_eq_true (is_text row.provider_id provider)
          (is_text row.external_transaction_id external) fits in
      by ∙ text_or_empty-is_text row.provider_id provider of
