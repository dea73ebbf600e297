-- ===== src/Store/Writes/Books.antt =====
-- internal/infra/postgres/store.go: the ledger under the writes.
use apostas_api.Prelude.{
  ◌≡◌, Bool, true, false, ◌||◌, List, [], ◌∷◌, ◌++◌, arith, refl, sym, ap, ◌∙◌, inl, inr,
  Bool-cases,
}
use apostas_api.Prelude.Int.{pos}
use apostas_api.Prelude.Int64.{IsInt64}
use apostas_api.Prelude.Eq.{◌==◌, nat_eq, eqb_iff}
use apostas_api.Values.{Uuid}
use apostas_api.Database.{WalletRow, TransactionRow, LedgerRow, Database, exists, update}
use apostas_api.Database.Wallets.{has_id, ledger_sum}
use apostas_api.Store.Rows.{update_wallet}
use apostas_api.Store.Resolve.{same_id}
use apostas_api.Store.Resolve.Attempts.{Among}
use apostas_api.Store.Resolve.Books.{BigintAmounts}
use apostas_api.Store.Writes.{
  Write, elsewhere, added_transaction, changed_outcome, changed_balance, added_wallet, added_entry,
  Writes, nothing, after,
}
use apostas_api.Store.Writes.Effects.{
  insert_transaction-Tables, update_transaction-Tables, store_entry-Tables, insert_wallet-Tables,
}

-- The first ledger with entries in front.
abbrev pub Extends : List LedgerRow → List LedgerRow → Type 0
Extends es' es = (fresh : List LedgerRow) × (es' ≡ fresh ++ es)

Write-ledger : {db db' : Database} → Write db db' → Extends db'.ledger db.ledger
unfolding update_wallet
Write-ledger (elsewhere ws ts es) = ([], es)
Write-ledger {db} (added_transaction t fits put) = ([], (insert_transaction-Tables t db put).0.2)
Write-ledger {db} (changed_outcome t t' m waits same put) =
    ([], (update_transaction-Tables t' db put).0.2)
Write-ledger (changed_balance id w now is) = ([], ap (λ (d : Database). d.ledger) is)
Write-ledger {db} (added_wallet row put) = ([], (insert_wallet-Tables row db put).0.2)
Write-ledger {db} (added_entry row known put) = (row ∷ [], (store_entry-Tables row db put).0.2)

append_assoc : (xs ys zs : List LedgerRow) → xs ++ (ys ++ zs) ≡ (xs ++ ys) ++ zs
append_assoc [] ys zs = refl
append_assoc (x ∷ xs) ys zs = ap (λ l. x ∷ l) (append_assoc xs ys zs)

pub Writes-ledger : {db db' : Database} → Writes db db' → Extends db'.ledger db.ledger
Writes-ledger nothing = ([], refl)
Writes-ledger {db} (after w s) =
    let (old, is) = Writes-ledger w in
    let (new, is') = Write-ledger s in
    (new ++ old, is' ∙ ap (λ l. new ++ l) is ∙ append_assoc new old db.ledger)

-- Every entry is one of a stored wallet, as the foreign key asks.
abbrev pub AllOwned : List WalletRow → List LedgerRow → Type 0
AllOwned ws [] = Unit {0}
AllOwned ws (e ∷ es) = (exists (has_id e.wallet_id) ws ≡ true) × AllOwned ws es

-- The wallets that are there stay there.
abbrev Grows : List WalletRow → List WalletRow → Type 0
Grows ws ws' = (id : Uuid) → exists (has_id id) ws ≡ true → exists (has_id id) ws' ≡ true

AllOwned-Grows :
    (ws ws' : List WalletRow) (es : List LedgerRow)
    → Grows ws ws'
    → AllOwned ws es
    → AllOwned ws' es
AllOwned-Grows ws ws' [] g h = tt
AllOwned-Grows ws ws' (e ∷ es) g (own, h) = (g e.wallet_id own, AllOwned-Grows ws ws' es g h)

or_true : (a b : Bool) → b ≡ true → (a || b) ≡ true
or_true a b h = ground arith

exists-cons :
    (id : Uuid) (row : WalletRow) (ws : List WalletRow)
    → exists (has_id id) ws ≡ true
    → exists (has_id id) (row ∷ ws) ≡ true
unfolding exists
exists-cons id row ws h = or_true (row.id == id) _ h

module _ (f : WalletRow → WalletRow) (keep : (w : WalletRow) → (f w).id ≡ w.id) where
  pub exists_updated :
      (p : WalletRow → Bool) (id : Uuid) (ws : List WalletRow)
      → exists (has_id id) (update p f ws) ≡ exists (has_id id) ws
  unfolding exists update
  exists_updated p id [] = refl
  exists_updated p id (w ∷ ws) = elim (Bool-cases (p w)) [
    | inl one ↦ rw (one, keep w, exists_updated p id ws) refl
    | inr other ↦ rw (other, exists_updated p id ws) refl
  ]

-- What the tables hold besides the unique keys: int64 amounts, and the wallet of each entry.
pub record Filled (db : Database) : Type 0 where
  pub amounts : BigintAmounts db.transactions
  pub owned : AllOwned db.wallets db.ledger

Filled-Grows :
    {db db' : Database}
    → Grows db.wallets db'.wallets
    → db'.ledger ≡ db.ledger
    → db'.transactions ≡ db.transactions
    → Filled db
    → Filled db'
Filled-Grows {db} {db'} g es ts f = record {
  amounts = rw ts f.amounts;
  owned = rw es (AllOwned-Grows db.wallets db'.wallets db.ledger g f.owned);
}

same_wallets : (ws ws' : List WalletRow) → ws' ≡ ws → Grows ws ws'
same_wallets ws0 ws' ws id h = rw ws h

BigintAmounts-update :
    (t : TransactionRow) (ts : List TransactionRow)
    → IsInt64 t.amount_minor
    → BigintAmounts ts
    → BigintAmounts (update (same_id t.id) (λ _. t) ts)
unfolding update
BigintAmounts-update t [] fits h = tt
BigintAmounts-update t (u ∷ us) fits (own, h) = elim (Bool-cases (u.id == t.id)) [
  | inl here ↦ rw here (fits, BigintAmounts-update t us fits h)
  | inr apart ↦ rw apart (own, BigintAmounts-update t us fits h)
]

Among-IsInt64 :
    (t : TransactionRow) (ts : List TransactionRow)
    → BigintAmounts ts
    → Among t ts
    → IsInt64 t.amount_minor
Among-IsInt64 t [] h m = absurd m
Among-IsInt64 t (u ∷ us) (own, h) (inl is) = rw is own
Among-IsInt64 t (u ∷ us) (own, h) (inr m) = Among-IsInt64 t us h m

Write-Filled : {db db' : Database} → Write db db' → Filled db → Filled db'
unfolding update_wallet
Write-Filled {db} {db'} (elsewhere ws ts es) f =
    Filled-Grows {db = db} {db' = db'} (same_wallets db.wallets db'.wallets ws) es ts f
Write-Filled {db} (added_transaction t fits put) f =
    let ((ws, ts, es), _) = insert_transaction-Tables t db put in
    record { amounts = rw ts (fits, f.amounts); owned = rw (ws, es) f.owned }
Write-Filled {db} (changed_outcome t t' m waits same put) f =
    let ((ws, ts, es), _) = update_transaction-Tables t' db put in
    let fits : IsInt64 t'.amount_minor =
      rw (ap (λ (x : TransactionRow). x.amount_minor) same)
        (Among-IsInt64 t db.transactions f.amounts m) in
    record {
      amounts = rw ts (BigintAmounts-update t' db.transactions fits f.amounts);
      owned = rw (ws, es) f.owned;
    }
Write-Filled {db} {db'} (changed_balance id w now is) f =
    Filled-Grows {db = db} {db' = db'}
      (λ j h.
        ap (λ (d : Database). exists (has_id j) d.wallets) is
        ∙ exists_updated _ (λ x. refl) (has_id id) j db.wallets
        ∙ h)
      (ap (λ (d : Database). d.ledger) is) (ap (λ (d : Database). d.transactions) is) f
Write-Filled {db} {db'} (added_wallet row put) f =
    let ((ws, ts, es), _) = insert_wallet-Tables row db put in
    Filled-Grows {db = db} {db' = db'} (λ j h. rw ws (exists-cons j row db.wallets h)) es ts f
Write-Filled {db} (added_entry row known put) f =
    let ((ws, ts, es), _) = store_entry-Tables row db put in
    record { amounts = rw ts f.amounts; owned = rw (ws, es) (known, f.owned) }

pub Writes-Filled : {db db' : Database} → Writes db db' → Filled db → Filled db'
Writes-Filled nothing f = f
Writes-Filled (after w s) f = Write-Filled s (Writes-Filled w f)

-- A wallet that is not stored has no entry.
pub unused_sum :
    (id : Uuid) (ws : List WalletRow) (es : List LedgerRow)
    → AllOwned ws es
    → exists (has_id id) ws ≡ false
    → ledger_sum id es ≡ pos 0
unfolding ledger_sum
unused_sum id ws [] h free = refl
unused_sum id ws (e ∷ es) (own, h) free = elim (Bool-cases (e.wallet_id == id)) [
  | inl same ↦
      cc
        (sym own ∙ ap (λ (i : Uuid). exists (has_id i) ws) ((eqb_iff e.wallet_id id).0 same) ∙ free)
  | inr other ↦ rw other (unused_sum id ws es h free)
]
