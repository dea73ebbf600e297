-- ===== src/Store/Writes/Keys.antt =====
-- internal/infra/postgres/store.go: the unique keys of `wager_transactions` and
-- `wallet_ledger_entries` under the writes.
use apostas_api.Prelude.{
  ◌≡◌, Bool, false, ◌&&◌, Option, none, some, List, [], ◌∷◌, String, arith, refl, sym, ◌∙◌, inl,
  inr, Bool-cases, or_eq_false,
}
use apostas_api.Prelude.Eq.{Eq, ◌==◌, ◌!=◌, nat_eq, string_eq, eqb_iff}
use apostas_api.Values.{Uuid}
use apostas_api.Transaction.{opening, kind_eq}
use apostas_api.Database.{
  TransactionRow, LedgerRow, Database, exists, update, clashes, ledger_clashes, same_text,
  same_uuid, is_reversal,
}
use apostas_api.Store.Rows.{update_wallet}
use apostas_api.Store.Resolve.{same_id}
use apostas_api.Store.Resolve.Attempts.{UniqueIds}
use apostas_api.Store.Pages.Order.{UniqueEntries}
use apostas_api.Store.Writes.{
  Write, elsewhere, added_transaction, changed_outcome, changed_balance, added_wallet, added_entry,
  Writes, nothing, after,
}
use apostas_api.Store.Writes.Effects.{
  Tables, insert_transaction-Tables, update_transaction-Tables, store_entry-Tables,
  insert_wallet-Tables,
}
use apostas_api.Database.{WalletRow}

-- No two rows share a unique key.
abbrev pub NoClashes : List TransactionRow → Type 0
NoClashes [] = Unit {0}
NoClashes (t ∷ ts) = (exists (clashes t) ts ≡ false) × NoClashes ts

==_comm {ℓ} : {A : Type ℓ} ⦃eq : Eq A⦄ (x y : A) → (x == y) ≡ (y == x)
==_comm {A} ⦃eq⦄ x y = elim (Bool-cases (eq.same x y)) [
  | inl same ↦ rw (eq.same_iff.0 same) refl
  | inr apart ↦ elim (Bool-cases (eq.same y x)) [
    | inl same ↦ rw (eq.same_iff.0 same) refl
    | inr both ↦ apart ∙ sym both
  ]
]

same_text_comm : (s t : Option String) → same_text s t ≡ same_text t s
same_text_comm none none = refl
same_text_comm none (some t) = refl
same_text_comm (some s) none = refl
same_text_comm (some s) (some t) = ==_comm t s

same_uuid_comm : (s t : Option Uuid) → same_uuid s t ≡ same_uuid t s
same_uuid_comm none none = refl
same_uuid_comm none (some t) = refl
same_uuid_comm (some s) none = refl
same_uuid_comm (some s) (some t) = ==_comm s t

and_swap : (a b c : Bool) → (a && b && c) ≡ (b && a && c)
and_swap a b c = ground arith

pub clashes_comm : (t u : TransactionRow) → clashes t u ≡ clashes u t
unfolding clashes
clashes_comm t u =
    rw
      (
        ==_comm t.id u.id,
        same_text_comm t.provider_id u.provider_id,
        same_text_comm t.external_transaction_id u.external_transaction_id,
        same_text_comm t.idempotency_key u.idempotency_key,
        ==_comm t.wallet_id u.wallet_id,
        same_uuid_comm t.reference_transaction_id u.reference_transaction_id,
        and_swap (t.kind == opening) (u.kind == opening) (u.wallet_id == t.wallet_id),
        and_swap (is_reversal t) (is_reversal u)
            (same_uuid u.reference_transaction_id t.reference_transaction_id),
      )
      refl

clashes-id : (t u : TransactionRow) → clashes t u ≡ false → (t.id == u.id) ≡ false
unfolding clashes
clashes-id t u h = ground arith

clashes-same_id :
    (u : TransactionRow) (ts : List TransactionRow)
    → exists (clashes u) ts ≡ false
    → exists (same_id u.id) ts ≡ false
unfolding exists
clashes-same_id u [] h = refl
clashes-same_id u (v ∷ vs) h =
    let (own, rest) = or_eq_false (clashes u v) _ h in
    rw (==_comm v.id u.id, clashes-id u v own) (clashes-same_id u vs rest)

pub NoClashes-UniqueIds : (ts : List TransactionRow) → NoClashes ts → UniqueIds ts
NoClashes-UniqueIds [] h = tt
NoClashes-UniqueIds (t ∷ ts) (free, h) = (clashes-same_id t ts free, NoClashes-UniqueIds ts h)

module _ (t : TransactionRow) where
  -- A row that clashes with no row of a table, nor with the new one.
  stays_free :
      (u : TransactionRow) (ts : List TransactionRow)
      → clashes u t ≡ false
      → exists (clashes u) ts ≡ false
      → exists (clashes u) (update (same_id t.id) (λ _. t) ts) ≡ false
  unfolding exists update
  stays_free u [] free h = refl
  stays_free u (v ∷ vs) free h = ground (arith, stays_free u vs)

  -- The new row in the place of one with its identifier.
  takes_place :
      (u : TransactionRow) (ts : List TransactionRow)
      → u.id ≡ t.id
      → exists (clashes u) ts ≡ false
      → exists (λ (v : TransactionRow). v.id != t.id && clashes t v) ts ≡ false
      → exists (clashes t) (update (same_id t.id) (λ _. t) ts) ≡ false
  unfolding exists update
  takes_place u [] same free h = refl
  takes_place u (v ∷ vs) same free h = ground (arith, clashes-id u v, takes_place u vs)

  update-NoClashes :
      (ts : List TransactionRow)
      → NoClashes ts
      → exists (λ (v : TransactionRow). v.id != t.id && clashes t v) ts ≡ false
      → NoClashes (update (same_id t.id) (λ _. t) ts)
  unfolding exists update
  update-NoClashes [] h free = tt
  update-NoClashes (u ∷ us) (apart, h) free =
      let (own, rest) = or_eq_false (u.id != t.id && clashes t u) _ free in
      elim (Bool-cases (u.id == t.id)) [
        | inl here ↦
            rw here
              (takes_place u us ((eqb_iff u.id t.id).0 here) apart rest, update-NoClashes us h rest)
        | inr differs ↦ rw differs (
          stays_free u us (clashes_comm u t ∙ rw differs at own) apart,
          update-NoClashes us h rest,
        )
      ]

pub insert-UniqueEntries :
    (e : LedgerRow) (es : List LedgerRow)
    → exists (ledger_clashes e) es ≡ false
    → exists (λ (f : LedgerRow). f.id == e.id) es ≡ false
unfolding exists ledger_clashes
insert-UniqueEntries e [] h = refl
insert-UniqueEntries e (f ∷ fs) h = ground (arith, ==_comm f.id e.id, insert-UniqueEntries e fs)

-- What the unique keys of the two tables keep out.
pub record Keyed (db : Database) : Type 0 where
  pub transactions_apart : NoClashes db.transactions
  pub entries_apart : UniqueEntries db.ledger

Tables-Keyed :
    {db : Database} (ws : List WalletRow) (ts : List TransactionRow) (es : List LedgerRow)
    → Tables db ws ts es
    → NoClashes ts
    → UniqueEntries es
    → Keyed db
Tables-Keyed ws ts es (_, transactions, ledger) h k = record {
  transactions_apart = rw transactions h;
  entries_apart = rw ledger k;
}

pub Write-Keyed : {db db' : Database} → Write db db' → Keyed db → Keyed db'
unfolding update_wallet
Write-Keyed {db} (elsewhere ws ts es) k =
    Tables-Keyed db.wallets db.transactions db.ledger (ws, ts, es) k.transactions_apart
      k.entries_apart
Write-Keyed {db} (added_transaction t fits put) k =
    let (tables, free) = insert_transaction-Tables t db put in
    Tables-Keyed _ _ _ tables (free, k.transactions_apart) k.entries_apart
Write-Keyed {db} (changed_outcome t t' m waits same put) k =
    let (tables, free) = update_transaction-Tables t' db put in
    Tables-Keyed _ _ _ tables (update-NoClashes t' db.transactions k.transactions_apart free)
      k.entries_apart
Write-Keyed {db} (changed_balance id w now is) k =
    rw is (record { transactions_apart = k.transactions_apart; entries_apart = k.entries_apart })
Write-Keyed {db} (added_wallet row put) k =
    Tables-Keyed _ _ _ (insert_wallet-Tables row db put).0 k.transactions_apart k.entries_apart
Write-Keyed {db} (added_entry row known put) k =
    let (tables, free) = store_entry-Tables row db put in
    Tables-Keyed _ _ _ tables k.transactions_apart
      (insert-UniqueEntries row db.ledger free, k.entries_apart)

pub Writes-Keyed : {db db' : Database} → Writes db db' → Keyed db → Keyed db'
Writes-Keyed nothing k = k
Writes-Keyed (after w s) k = Write-Keyed s (Writes-Keyed w k)
