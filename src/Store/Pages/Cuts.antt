-- ===== src/Store/Pages/Cuts.antt =====
-- internal/infra/postgres/store.go: how `ListLedger` cuts a page off a list of rows.
use apostas_api.Prelude.{
  ℕ, zero, suc, ◌≤◌, ◌≡◌, false, none, some, List, [], ◌∷◌, ◌++◌, map, String, length, ltb, arith,
  refl, ap,
}
use apostas_api.Prelude.Eq.{nat_eq}
use apostas_api.Database.{LedgerRow}
use apostas_api.Database.Query.{take}
use apostas_api.Store.Pages.{EntryView, cursor_of, last_cursor, page_of}

-- An entry as it is shown, with amounts in the wallet's currency.
abbrev pub shown : String → LedgerRow → EntryView
shown currency e = record {
  id = e.id;
  wallet_id = e.wallet_id;
  transaction_id = e.transaction_id;
  direction = e.direction;
  money = record { minor = e.amount_minor; currency = currency };
  balance_before = record { minor = e.balance_before_minor; currency = currency };
  balance_after = record { minor = e.balance_after_minor; currency = currency };
  created_at = e.created_at;
}

pub take_short : {A : Type 0} (xs : List A) (n : ℕ) → length xs ≤ n → take xs n ≡ xs
unfolding take
take_short [] n h = refl
take_short (x ∷ xs) zero h = absurd (omega arith)
take_short (x ∷ xs) (suc n) h = ap (λ ys. x ∷ ys) (take_short xs n (omega arith))

-- A list is short, or has an n-th element with another behind it.
pub data Split {A : Type 0} (n : ℕ) (xs : List A) : Type 0 where
  short : length xs ≤ suc n → Split n xs
  long :
      (before : List A) (x y : A) (rest : List A)
      → xs ≡ before ++ x ∷ y ∷ rest
      → length before ≡ n
      → Split n xs

Split-cons : {A : Type 0} (n : ℕ) (x : A) (xs : List A) → Split n xs → Split (suc n) (x ∷ xs)
Split-cons n x xs (short h) = short (omega arith)
Split-cons n x xs (long before y z rest is len) =
    long (x ∷ before) y z rest (ap (λ ys. x ∷ ys) is) (ap suc len)

pub split : {A : Type 0} (n : ℕ) (xs : List A) → Split n xs
split n [] = short (omega arith)
split n (x ∷ []) = short (omega arith)
split zero (x ∷ y ∷ rest) = long [] x y rest refl refl
split (suc n) (x ∷ y ∷ rest) = Split-cons n x (y ∷ rest) (split n (y ∷ rest))

module _ (currency : String) where
  fetched :
      (before : List LedgerRow) (x y : LedgerRow) (rest : List LedgerRow)
      → take (before ++ x ∷ y ∷ rest) (suc (suc (length before))) ≡ before ++ x ∷ y ∷ []
  unfolding take
  fetched [] x y [] = refl
  fetched [] x y (z ∷ rest) = refl
  fetched (e ∷ es) x y rest = ap (λ ys. e ∷ ys) (fetched es x y rest)

  fetched_length :
      (before : List LedgerRow) (x y : LedgerRow)
      → length (map (shown currency) (before ++ x ∷ y ∷ [])) ≡ suc (suc (length before))
  fetched_length [] x y = refl
  fetched_length (e ∷ es) x y = ap suc (fetched_length es x y)

  page_entries :
      (before : List LedgerRow) (x y : LedgerRow)
      → take (map (shown currency) (before ++ x ∷ y ∷ [])) (suc (length before))
        ≡ map (shown currency) (before ++ x ∷ [])
  unfolding take
  page_entries [] x y = refl
  page_entries (e ∷ es) x y = ap (λ ys. shown currency e ∷ ys) (page_entries es x y)

  page_cursor :
      (before : List LedgerRow) (x : LedgerRow)
      → last_cursor (map (shown currency) (before ++ x ∷ [])) ≡ some (cursor_of x)
  page_cursor [] x = refl
  page_cursor (e ∷ []) x = refl
  page_cursor (e ∷ f ∷ es) x = page_cursor (f ∷ es) x

  pub page_and_rest :
      (before : List LedgerRow) (x y : LedgerRow) (rest : List LedgerRow)
      → map (shown currency) (before ++ x ∷ []) ++ map (shown currency) (y ∷ rest)
        ≡ map (shown currency) (before ++ x ∷ y ∷ rest)
  page_and_rest [] x y rest = refl
  page_and_rest (e ∷ es) x y rest = ap (λ ys. shown currency e ∷ ys) (page_and_rest es x y rest)

  length-map : (rows : List LedgerRow) → length (map (shown currency) rows) ≡ length rows
  length-map [] = refl
  length-map (e ∷ es) = ap suc (length-map es)

  pub page_of_short :
      (n : ℕ) (rows : List LedgerRow)
      → length rows ≤ suc n
      → page_of (suc n) (map (shown currency) (take rows (suc (suc n))))
        ≡ record { entries = map (shown currency) rows; next_cursor = none }
  page_of_short n rows h = rw (take_short rows (suc (suc n)) (omega arith), not_more) refl
    where
      not_more : ltb (suc n) (length (map (shown currency) rows)) ≡ false
      not_more = ground (arith, length-map rows)

  pub page_of_long :
      (before : List LedgerRow) (x y : LedgerRow) (rest : List LedgerRow)
      → page_of
          (suc (length before))
          (map (shown currency) (take (before ++ x ∷ y ∷ rest) (suc (suc (length before)))))
        ≡ record {
          entries = map (shown currency) (before ++ x ∷ []);
          next_cursor = some (cursor_of x);
        }
  page_of_long before x y rest =
      rw
        (
          fetched before x y rest,
          page_entries before x y,
          page_cursor before x,
          fetched_length before x y,
        )
        (ground arith)
