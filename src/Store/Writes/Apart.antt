-- ===== src/Store/Writes/Apart.antt =====
-- internal/infra/postgres/store.go: the rows that the unique keys of `wager_transactions` tell apart.
use apostas_api.Prelude.{
  ◌≡◌, true, false, some, List, [], ◌∷◌, arith, refl, sym, ap, ◌∙◌, inl, inr, or_eq_false,
}
use apostas_api.Prelude.Eq.{nat_eq, string_eq, eqb_iff}
use apostas_api.Values.{Uuid}
use apostas_api.Database.{TransactionRow, exists, clashes, is_reversal}
use apostas_api.Store.Resolve.Attempts.{Among}
use apostas_api.Store.Writes.Keys.{NoClashes, clashes_comm}

no_clash :
    (v u : TransactionRow) (vs : List TransactionRow)
    → exists (clashes v) vs ≡ false
    → Among u vs
    → clashes v u ≡ false
unfolding exists
no_clash v u [] h m = absurd m
no_clash v u (w ∷ ws) h (inl is) = ap (clashes v) is ∙ (or_eq_false (clashes v w) _ h).0
no_clash v u (w ∷ ws) h (inr m) = no_clash v u ws (or_eq_false (clashes v w) _ h).1 m

-- Two rows of a keyed table that clash are the same row.
pub clashing_rows :
    (t u : TransactionRow) (ts : List TransactionRow)
    → NoClashes ts
    → Among t ts
    → Among u ts
    → clashes t u ≡ true
    → t ≡ u
clashing_rows t u [] h m n both = absurd m
clashing_rows t u (v ∷ vs) (free, h) (inl a) (inl b) both = a ∙ sym b
clashing_rows t u (v ∷ vs) (free, h) (inl a) (inr n) both =
    let apart : clashes v u ≡ false = no_clash v u vs free n in
    let same : clashes v u ≡ true = ap (λ (x : TransactionRow). clashes x u) (sym a) ∙ both in
    cc (apart, same)
clashing_rows t u (v ∷ vs) (free, h) (inr m) (inl b) both =
    let apart : clashes v t ≡ false = no_clash v t vs free m in
    let same : clashes v t ≡ true = clashes_comm v t ∙ ap (clashes t) (sym b) ∙ both in
    cc (apart, same)
clashing_rows t u (v ∷ vs) (free, h) (inr m) (inr n) both = clashing_rows t u vs h m n both

abbrev pub Reverses : TransactionRow → Uuid → Type 0
Reverses t id = (is_reversal t ≡ true) × (t.reference_transaction_id ≡ some id)

pub reversals_clash :
    (t u : TransactionRow) (id : Uuid) → Reverses t id → Reverses u id → clashes t u ≡ true
unfolding clashes
reversals_clash t u id (ht, rt) (hu, ru) =
    rw (ht, hu, rt, ru, (eqb_iff id id).1 refl) (ground arith)
