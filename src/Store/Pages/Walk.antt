-- ===== src/Store/Pages/Walk.antt =====
-- internal/infra/postgres/store.go: `ListLedger`, called again with each cursor that it gives.
use mathlib.Core.List.{append-nil, append_assoc}
use apostas_api.Prelude.{
  ℕ, zero, suc, ◌<◌, ◌≤◌, ◌≡◌, true, Option, none, some, List, [], ◌∷◌, ◌++◌, map, String, length,
  arith, refl, sym, ap, ◌∙◌,
}
use apostas_api.Prelude.Eq.{nat_eq}
use apostas_api.Result.{Result, ok, err, other_error, ◌>>=◌}
use apostas_api.Values.{Uuid}
use apostas_api.Money.{Currencies, money_from_minor, valid_currency}
use apostas_api.Database.{WalletRow, LedgerRow, Database, find}
use apostas_api.Database.Query.{select, sort_by, take}
use apostas_api.Database.Paging.{may_precede}
use apostas_api.Database.Wallets.{has_id}
use apostas_api.Store.Inbox.{find_exists}
use apostas_api.Store.Pages.{
  LedgerCursor, EntryView, cursor_of, stands_before, fits_page, ledger_rows, page_of, view_entries,
  list_ledger,
}
use apostas_api.Store.Pages.Order.{UniqueEntries, history, rows_behind}
use apostas_api.Store.Pages.Cuts.{
  shown, short, long, split, page_of_short, page_of_long, page_and_rest,
}

-- Following the cursors: the entries of a page and of all pages behind it.
abbrev pub behind :
    Option LedgerCursor → (LedgerCursor → Result (List EntryView)) → Result (List EntryView)
behind none next = ok []
behind (some c) next = next c

module _ ⦃iso : Currencies⦄ where
  unfoldable pub walk : ℕ → Uuid → Option LedgerCursor → ℕ → Database → Result (List EntryView)
  walk zero id cursor limit db = err other_error
  walk (suc n) id cursor limit db = do
    page ← list_ledger id cursor limit db
    rest ← behind page.next_cursor (λ c. walk n id (some c) limit db)
    ok (page.entries ++ rest)

regroup :
    (before front : List LedgerRow) (x : LedgerRow) (rest : List LedgerRow)
    → (before ++ front) ++ x ∷ rest ≡ (before ++ (front ++ x ∷ [])) ++ rest
regroup [] [] x rest = refl
regroup [] (e ∷ es) x rest = ap (λ r. e ∷ r) (regroup [] es x rest)
regroup (e ∷ es) front x rest = ap (λ r. e ∷ r) (regroup es front x rest)

shorter :
    (fuel : ℕ) (front : List LedgerRow) (x : LedgerRow) (rest : List LedgerRow)
    → length (front ++ x ∷ rest) < suc fuel
    → length rest < fuel
shorter fuel [] x rest h = omega arith
shorter fuel (e ∷ es) x rest h = shorter fuel es x rest (omega arith)

module _ ⦃iso : Currencies⦄ where
  view_entries-shown :
      (currency : String) (es : List LedgerRow)
      → valid_currency currency ≡ true
      → view_entries currency es ≡ ok (map (shown currency) es)
  unfolding view_entries money_from_minor
  view_entries-shown currency [] v = refl
  view_entries-shown currency (e ∷ es) v = rw (v, view_entries-shown currency es v) refl

  module _ (id : Uuid) (db : Database) (wallet : WalletRow)
      (here : find (has_id id) db.wallets ≡ some wallet)
      (valid : valid_currency wallet.currency ≡ true) (unique : UniqueEntries db.ledger) where
    list_ledger-rows :
        (cursor : Option LedgerCursor) (limit : ℕ) (rows : List LedgerRow)
        → sort_by (may_precede stands_before) (select (fits_page id cursor) db.ledger) ≡ rows
        → list_ledger id cursor limit db
          ≡ ok (page_of limit (map (shown wallet.currency) (take rows (suc limit))))
    unfolding list_ledger ledger_rows
    list_ledger-rows cursor limit rows is =
        rw
          (
            find_exists (has_id id) db.wallets here,
            here,
            is,
            view_entries-shown wallet.currency (take rows (suc limit)) valid,
          )
          refl

    walk_short :
        (fuel n : ℕ) (cursor : Option LedgerCursor) (rows : List LedgerRow)
        → sort_by (may_precede stands_before) (select (fits_page id cursor) db.ledger) ≡ rows
        → length rows ≤ suc n
        → walk (suc fuel) id cursor (suc n) db ≡ ok (map (shown wallet.currency) rows)
    unfolding walk
    walk_short fuel n cursor rows is few =
        rw
          (
            list_ledger-rows cursor (suc n) rows is,
            page_of_short wallet.currency n rows few,
            append-nil (map (shown wallet.currency) rows),
          )
          refl

    walk_long :
        (fuel : ℕ) (cursor : Option LedgerCursor) (front : List LedgerRow) (x y : LedgerRow)
        (rest : List LedgerRow)
        → sort_by (may_precede stands_before) (select (fits_page id cursor) db.ledger)
          ≡ front ++ x ∷ y ∷ rest
        → walk fuel id (some (cursor_of x)) (suc (length front)) db
          ≡ ok (map (shown wallet.currency) (y ∷ rest))
        → walk (suc fuel) id cursor (suc (length front)) db
          ≡ ok (map (shown wallet.currency) (front ++ x ∷ y ∷ rest))
    unfolding walk
    walk_long fuel cursor front x y rest is next =
        rw
          (
            list_ledger-rows cursor (suc (length front)) (front ++ x ∷ y ∷ rest) is,
            page_of_long wallet.currency front x y rest,
            next,
          )
          (ap ok (page_and_rest wallet.currency front x y rest))

    walk_rows :
        (fuel n : ℕ) (cursor : Option LedgerCursor) (before rows : List LedgerRow)
        → history id db ≡ before ++ rows
        → sort_by (may_precede stands_before) (select (fits_page id cursor) db.ledger) ≡ rows
        → length rows < fuel
        → walk fuel id cursor (suc n) db ≡ ok (map (shown wallet.currency) rows)
    walk_rows zero n cursor before rows h is enough = absurd (omega arith)
    walk_rows (suc fuel) n cursor before rows h is enough = elim (split n rows) [
      | short few ↦ walk_short fuel n cursor rows is few
      | long front x y rest cut len ↦
          let h2 : history id db ≡ (before ++ front) ++ x ∷ y ∷ rest =
            h ∙ ap (λ r. before ++ r) cut ∙ sym (append_assoc before front (x ∷ y ∷ rest)) in
          let h3 : history id db ≡ (before ++ (front ++ x ∷ [])) ++ y ∷ rest =
            h2 ∙ regroup before front x (y ∷ rest) in
          let fewer : length (y ∷ rest) < fuel =
            shorter fuel front x (y ∷ rest) (omega (arith, ap length cut)) in
          let next =
            walk_rows fuel (length front) (some (cursor_of x)) (before ++ (front ++ x ∷ []))
              (y ∷ rest) h3 (rows_behind id x (before ++ front) (y ∷ rest) db unique h2) fewer in
          rw (cut, sym len) (walk_long fuel cursor front x y rest (is ∙ cut) next)
    ]

    -- For a wallet that the database holds with a valid currency, and with unique entry ids in the ledger:
    -- asking for pages of at least one entry, from the first page on and with each page's cursor for the next, ends
    -- within one call more than there are entries of the wallet, and gives all of them, each once and in order
    -- (by time and id).
    pub walk-history :
        (n fuel : ℕ)
        → length (history id db) < fuel
        → walk fuel id none (suc n) db ≡ ok (map (shown wallet.currency) (history id db))
    walk-history n fuel enough = walk_rows fuel n none [] (history id db) refl refl enough
