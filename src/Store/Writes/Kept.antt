-- ===== src/Store/Writes/Kept.antt =====
-- internal/infra/postgres/store.go: what becomes of a stored transaction.
use mathlib.Core.Path.{subst}
use apostas_api.Prelude.{
  ◌≡◌, ◌≢◌, true, false, List, [], ◌∷◌, refl, sym, ap, ◌∙◌, inl, inr, Bool-cases,
}
use apostas_api.Prelude.Eq.{◌==◌, nat_eq, eqb_iff}
use apostas_api.Values.{Uuid}
use apostas_api.Transaction.{pending_reference}
use apostas_api.Database.{TransactionRow, Database, exists, update}
use apostas_api.Store.Resolve.{same_id}
use apostas_api.Store.Resolve.Attempts.{Among, UniqueIds, absent-Among}
use apostas_api.Store.Writes.{
  SameRequest, Write, elsewhere, added_transaction, changed_outcome, changed_balance, added_wallet,
  added_entry, Writes, nothing, after,
}
use apostas_api.Store.Rows.{update_wallet}
use apostas_api.Store.Writes.Effects.{
  insert_transaction-Tables, update_transaction-Tables, store_entry-Tables, insert_wallet-Tables,
}
use apostas_api.Store.Writes.Keys.{NoClashes-UniqueIds, Keyed, Writes-Keyed}

-- The row is still there: what was requested is the same, and a row that does not wait is the same.
abbrev pub Kept : TransactionRow → List TransactionRow → Type 0
Kept t ts =
    (t' : TransactionRow) × Among t' ts × SameRequest t t' × (t.status ≢ pending_reference → t' ≡ t)

stays-Kept : (t : TransactionRow) (ts : List TransactionRow) → Among t ts → Kept t ts
stays-Kept t ts m = (t, m, refl, λ h. refl)

SameRequest-trans : (t u v : TransactionRow) → SameRequest t u → SameRequest u v → SameRequest t v
SameRequest-trans t u v h k =
    k
    ∙ ap
        (λ (x : TransactionRow). record x {
          status = v.status;
          failure_code = v.failure_code;
          reference_transaction_id = v.reference_transaction_id;
          result_balance_minor = v.result_balance_minor;
          attempts = v.attempts;
          next_attempt_at = v.next_attempt_at;
          updated_at = v.updated_at;
        })
        h

absent_row :
    (id : Uuid) (t : TransactionRow) (ts : List TransactionRow)
    → exists (same_id id) ts ≡ false
    → Among t ts
    → t.id ≢ id
absent_row id t ts free m is = cc (absent-Among id t ts free m, (eqb_iff t.id id).1 is)

-- The identifier is the primary key.
same_row :
    (t u : TransactionRow) (ts : List TransactionRow)
    → UniqueIds ts
    → Among t ts
    → Among u ts
    → t.id ≡ u.id
    → t ≡ u
same_row t u [] h m n is = absurd m
same_row t u (v ∷ vs) (free, h) (inl a) (inl b) is = a ∙ sym b
same_row t u (v ∷ vs) (free, h) (inl a) (inr n) is =
    absurd (absent_row v.id u vs free n (sym is ∙ ap (λ (x : TransactionRow). x.id) a))
same_row t u (v ∷ vs) (free, h) (inr m) (inl b) is =
    absurd (absent_row v.id t vs free m (is ∙ ap (λ (x : TransactionRow). x.id) b))
same_row t u (v ∷ vs) (free, h) (inr m) (inr n) is = same_row t u vs h m n is

module _ (t : TransactionRow) where
  Among-updated :
      (u : TransactionRow) (ts : List TransactionRow)
      → Among u ts
      → (u.id == t.id) ≡ true
      → Among t (update (same_id t.id) (λ _. t) ts)
  unfolding update
  Among-updated u [] m same = absurd m
  Among-updated u (v ∷ vs) (inl is) same =
      inl (rw (ap (λ (x : TransactionRow). x.id) (sym is), same) refl)
  Among-updated u (v ∷ vs) (inr m) same = inr (Among-updated u vs m same)

  Among-elsewhere :
      (u : TransactionRow) (ts : List TransactionRow)
      → Among u ts
      → (u.id == t.id) ≡ false
      → Among u (update (same_id t.id) (λ _. t) ts)
  unfolding update
  Among-elsewhere u [] m apart = absurd m
  Among-elsewhere u (v ∷ vs) (inl is) apart = inl (rw⁻¹ is (rw apart refl))
  Among-elsewhere u (v ∷ vs) (inr m) apart = inr (Among-elsewhere u vs m apart)

-- A row under the outcome of a row that waits.
Kept-updated :
    (u t t' : TransactionRow) (ts : List TransactionRow)
    → UniqueIds ts
    → Among u ts
    → Among t ts
    → t.status ≡ pending_reference
    → SameRequest t t'
    → Kept u (update (same_id t'.id) (λ _. t') ts)
Kept-updated u t t' ts unique m n waits same = elim (Bool-cases (u.id == t'.id)) [
  | inl here ↦
      let is : u ≡ t =
        same_row u t ts unique m n
          ((eqb_iff u.id t'.id).0 here ∙ ap (λ (x : TransactionRow). x.id) same) in
      (
        t',
        Among-updated t' u ts m here,
        subst (λ (x : TransactionRow). SameRequest x t') (sym is) same,
        λ final. absurd (final (ap (λ (x : TransactionRow). x.status) is ∙ waits)),
      )
  | inr apart ↦ stays-Kept u _ (Among-elsewhere t' u ts m apart)
]

Write-Kept :
    {db db' : Database} (u : TransactionRow)
    → Write db db'
    → UniqueIds db.transactions
    → Among u db.transactions
    → Kept u db'.transactions
unfolding update_wallet
Write-Kept {db} u (elsewhere ws ts es) unique m = rw ts (stays-Kept u db.transactions m)
Write-Kept {db} u (added_transaction t fits put) unique m =
    rw (insert_transaction-Tables t db put).0.1 (stays-Kept u (t ∷ db.transactions) (inr m))
Write-Kept {db} u (changed_outcome t t' n waits same put) unique m =
    rw (update_transaction-Tables t' db put).0.1
      (Kept-updated u t t' db.transactions unique m n waits same)
Write-Kept {db} u (changed_balance id w now is) unique m = rw is (stays-Kept u db.transactions m)
Write-Kept {db} u (added_wallet row put) unique m =
    rw (insert_wallet-Tables row db put).0.1 (stays-Kept u db.transactions m)
Write-Kept {db} u (added_entry row known put) unique m =
    rw (store_entry-Tables row db put).0.1 (stays-Kept u db.transactions m)

Kept-trans :
    (t u : TransactionRow) (ts : List TransactionRow)
    → SameRequest t u
    → (t.status ≢ pending_reference → u ≡ t)
    → Kept u ts
    → Kept t ts
Kept-trans t u ts same final (v, m, same', final') = (
  v,
  m,
  SameRequest-trans t u v same same',
  λ settled.
      final'
        (λ waits. settled (ap (λ (x : TransactionRow). x.status) (sym (final settled)) ∙ waits))
      ∙ final settled,
)

pub Writes-Kept :
    {db db' : Database} (t : TransactionRow)
    → Writes db db'
    → Keyed db
    → Among t db.transactions
    → Kept t db'.transactions
Writes-Kept {db} t nothing k m = stays-Kept t db.transactions m
Writes-Kept {db} {db'} t (after {d = d} w s) k m =
    let (u, n, same, final) = Writes-Kept t w k m in
    Kept-trans t u db'.transactions same final
      (Write-Kept u s (NoClashes-UniqueIds d.transactions (Writes-Keyed w k).transactions_apart) n)
