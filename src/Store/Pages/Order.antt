-- ===== src/Store/Pages/Order.antt =====
-- internal/infra/postgres/store.go: the order of a wallet's entries, and the rows behind a cursor.
use apostas_api.Prelude.{
  ◌≡◌, ◌⊎◌, true, false, some, List, [], ◌∷◌, ◌++◌, arith, sym, ◌∙◌, inl, inr, Bool-cases,
  or_eq_false,
}
use apostas_api.Prelude.Eq.{◌==◌, nat_eq}
use apostas_api.Values.{Uuid}
use apostas_api.Database.{LedgerRow, Database, exists}
use apostas_api.Database.Query.{select, sort_by}
use apostas_api.Database.Paging.{
  may_precede, Apart, AllApart, select_and, sort_by-Ascending, select-sort_by, select-suffix,
}
use apostas_api.Store.Pages.{cursor_of, stands_before, of_wallet, fits_page}

stands_before_trans :
    (d e f : LedgerRow)
    → stands_before d e ≡ true
    → stands_before e f ≡ true
    → stands_before d f ≡ true
stands_before_trans d e f h k = ground arith

stands_before_asym : (e f : LedgerRow) → stands_before e f ≡ true → stands_before f e ≡ false
stands_before_asym e f h = ground arith

-- The primary key of the ledger.
abbrev pub UniqueEntries : List LedgerRow → Type 0
UniqueEntries [] = Unit {0}
UniqueEntries (e ∷ es) = (exists (λ (f : LedgerRow). f.id == e.id) es ≡ false) × UniqueEntries es

-- All entries of the wallet, in order.
abbrev pub history : Uuid → Database → List LedgerRow
history id db = sort_by (may_precede stands_before) (select (of_wallet id) db.ledger)

told_apart :
    (e f : LedgerRow)
    → (f.id == e.id) ≡ false
    → (stands_before e f ≡ true) ⊎ (stands_before f e ≡ true)
told_apart e f h = ground arith

unique-Apart :
    (id : Uuid) (e : LedgerRow) (es : List LedgerRow)
    → exists (λ (f : LedgerRow). f.id == e.id) es ≡ false
    → Apart stands_before e (select (of_wallet id) es)
unfolding exists select
unique-Apart id e [] h = tt
unique-Apart id e (f ∷ es) h =
    let (differ, rest) =
      or_eq_false (f.id == e.id) (exists (λ (g : LedgerRow). g.id == e.id) es) h in
    elim (Bool-cases (of_wallet id f)) [
      | inl own ↦ rw own (told_apart e f differ, unique-Apart id e es rest)
      | inr other ↦ rw other (unique-Apart id e es rest)
    ]

unique-AllApart :
    (id : Uuid) (es : List LedgerRow)
    → UniqueEntries es
    → AllApart stands_before (select (of_wallet id) es)
unfolding select
unique-AllApart id [] h = tt
unique-AllApart id (e ∷ es) (first, rest) = elim (Bool-cases (of_wallet id e)) [
  | inl own ↦ rw own (unique-Apart id e es first, unique-AllApart id es rest)
  | inr other ↦ rw other (unique-AllApart id es rest)
]

-- The rows behind a cursor.
pub rows_behind :
    (id : Uuid) (x : LedgerRow) (before rest : List LedgerRow) (db : Database)
    → UniqueEntries db.ledger
    → history id db ≡ before ++ x ∷ rest
    → sort_by (may_precede stands_before) (select (fits_page id (some (cursor_of x))) db.ledger)
      ≡ rest
rows_behind id x before rest db unique h =
    let apart = unique-AllApart id db.ledger unique in
    let up =
      sort_by-Ascending stands_before stands_before_trans stands_before_asym
        (select (of_wallet id) db.ledger) apart in
    rw (select_and (of_wallet id) (stands_before x) db.ledger) (
      sym (
        select-sort_by stands_before stands_before_trans stands_before_asym (stands_before x)
          (select (of_wallet id) db.ledger) apart)
      ∙ rw h (
          select-suffix stands_before stands_before_trans stands_before_asym before x rest
            (rw h at up)))
