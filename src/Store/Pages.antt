-- ===== src/Store/Pages.antt =====
-- internal/infra/postgres/store.go: `ListLedger`, and its records of internal/usecases/read.go.
pub mod Order
pub mod Cuts
pub mod Walk
use apostas_api.Prelude.{
  ℕ, zero, suc, Bool, true, false, not, ◌&&◌, ◌||◌, Option, none, some, List, [], ◌∷◌, String,
  length, ltb, if◌then◌else◌,
}
use apostas_api.Prelude.Int.{ℤ}
use apostas_api.Prelude.Eq.{◌==◌, nat_eq}
use apostas_api.Result.{Result, ok, err, not_found, fail_if, ◌>>◌, ◌>>=◌}
use apostas_api.Values.{Uuid, Time}
use apostas_api.Money.{Currencies, Money, money_from_minor}
use apostas_api.LedgerEntry.{Direction}
use apostas_api.Database.{WalletRow, LedgerRow, Database, find, exists}
use apostas_api.Database.Query.{select, sort_by, take}
use apostas_api.Database.Paging.{may_precede}
use apostas_api.Database.Wallets.{has_id}
use apostas_api.Store.Rows.{found}

pub record LedgerCursor : Type 0 where
  pub created_at : Time
  pub id : Uuid

-- `usecases.LedgerEntry`
pub record EntryView : Type 0 where
  pub id : Uuid
  pub wallet_id : Uuid
  pub transaction_id : Uuid
  pub direction : Direction
  pub money : Money
  pub balance_before : Money
  pub balance_after : Money
  pub created_at : Time

pub record LedgerPage : Type 0 where
  pub entries : List EntryView
  pub next_cursor : Option LedgerCursor

-- `(l.created_at,l.id) > ($2,$3)`
abbrev pub is_after : LedgerCursor → LedgerRow → Bool
is_after c e = ltb c.created_at e.created_at || c.created_at == e.created_at && ltb c.id e.id

abbrev pub cursor_of : LedgerRow → LedgerCursor
cursor_of e = record { created_at = e.created_at; id = e.id }

-- `ORDER BY l.created_at,l.id`
abbrev pub stands_before : LedgerRow → LedgerRow → Bool
stands_before e f = is_after (cursor_of e) f

abbrev pub of_wallet : Uuid → LedgerRow → Bool
of_wallet id e = e.wallet_id == id

abbrev pub fits_page : Uuid → Option LedgerCursor → LedgerRow → Bool
fits_page id none e = of_wallet id e
fits_page id (some c) e = of_wallet id e && is_after c e

-- The two queries, with LIMIT n.
unfoldable pub ledger_rows : Uuid → Option LedgerCursor → ℕ → Database → List LedgerRow
ledger_rows id cursor n db =
    take (sort_by (may_precede stands_before) (select (fits_page id cursor) db.ledger)) n

abbrev pub last_cursor : List EntryView → Option LedgerCursor
last_cursor [] = none
last_cursor (v ∷ []) = some (record { created_at = v.created_at; id = v.id })
last_cursor (v ∷ w ∷ vs) = last_cursor (w ∷ vs)

-- `if len(entries) > limit { … }`; the callers' limit is at least one.
abbrev pub page_of : ℕ → List EntryView → LedgerPage
page_of limit entries =
    if ltb limit (length entries)
    then record { entries = take entries limit; next_cursor = last_cursor (take entries limit) }
    else record { entries = entries; next_cursor = none }

module _ ⦃iso : Currencies⦄ where
  abbrev pub view_entry : String → LedgerRow → Result EntryView
  view_entry currency e = do
    money ← money_from_minor e.amount_minor currency
    before ← money_from_minor e.balance_before_minor currency
    after ← money_from_minor e.balance_after_minor currency
    ok (record {
      id = e.id;
      wallet_id = e.wallet_id;
      transaction_id = e.transaction_id;
      direction = e.direction;
      money = money;
      balance_before = before;
      balance_after = after;
      created_at = e.created_at;
    })

  -- `for rows.Next() { … }`
  unfoldable pub view_entries : String → List LedgerRow → Result (List EntryView)
  view_entries currency [] = ok []
  view_entries currency (e ∷ es) = do
    v ← view_entry currency e
    vs ← view_entries currency es
    ok (v ∷ vs)

  unfoldable pub list_ledger : Uuid → Option LedgerCursor → ℕ → Database → Result LedgerPage
  list_ledger id cursor limit db = do
    fail_if (not (exists (has_id id) db.wallets)) not_found
    wallet ← found (find (has_id id) db.wallets) not_found
    entries ← view_entries wallet.currency (ledger_rows id cursor (suc limit) db)
    ok (page_of limit entries)
