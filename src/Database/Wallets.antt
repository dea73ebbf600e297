-- ===== src/Database/Wallets.antt =====
-- The sum of a wallet's ledger, and the wallets that it explains.
use apostas_api.Prelude.{
  ◌≡◌, some-inj, Bool-cases, inl, inr, Bool, false, some, List, [], ◌∷◌, arith, if◌then◌else◌, refl,
  sym, ◌∙◌,
}
use mathlib.Core.Option
use mathlib.Core.Path.{subst}
use apostas_api.Prelude.Int64.{IsInt64}
use apostas_api.Prelude.Int.{ℤ, pos, ◌+ℤ◌, ◌-ℤ◌}
use apostas_api.Prelude.Eq.{◌==◌, nat_eq, eqb_iff}
use apostas_api.Values.{Uuid}
use apostas_api.LedgerEntry.{Direction, credit}
use apostas_api.Database.{WalletRow, LedgerRow, Database, find, update}

-- `CASE WHEN l.direction='CREDIT' THEN l.amount_minor ELSE -l.amount_minor END`
abbrev pub signed : Direction → ℤ → ℤ
signed credit a = a
signed _ a = pos 0 -ℤ a

-- `SUM(…)` over the entries of one wallet.
unfoldable pub ledger_sum : Uuid → List LedgerRow → ℤ
ledger_sum id [] = pos 0
ledger_sum id (e ∷ es) =
    if e.wallet_id == id
    then signed e.direction e.amount_minor +ℤ ledger_sum id es
    else ledger_sum id es

abbrev pub has_id : Uuid → WalletRow → Bool
has_id id w = w.id == id

-- Every stored balance is the sum of the wallet's ledger.
abbrev pub Reconciled : Database → Type 0
Reconciled db =
    (id : Uuid) (w : WalletRow)
    → find (has_id id) db.wallets ≡ some w
    → w.balance_minor ≡ ledger_sum id db.ledger

-- An update that keeps the identifiers, read back.
pub find-update :
    (id j : Uuid) (f : WalletRow → WalletRow) (ws : List WalletRow)
    → ((w : WalletRow) → (f w).id ≡ w.id)
    → find (has_id j) (update (has_id id) f ws)
      ≡ (if id == j then Option.map f (find (has_id j) ws) else find (has_id j) ws)
unfolding find update
find-update id j f [] keep = ground arith
find-update id j f (w ∷ ws) keep = ground (arith, keep w, find-update id j f ws keep)

-- A balance and a version are `bigint` columns.
abbrev pub Bigints : List WalletRow → Type 0
Bigints ws =
    (id : Uuid) (w : WalletRow)
    → find (has_id id) ws ≡ some w
    → IsInt64 w.balance_minor × IsInt64 w.version

-- The stored balances are int64 values and sums of the ledger.
pub record Sound (ws : List WalletRow) (es : List LedgerRow) : Type 0 where
  pub reconciled :
      (id : Uuid) (w : WalletRow)
      → find (has_id id) ws ≡ some w
      → w.balance_minor ≡ ledger_sum id es
  pub bigints : Bigints ws

pub ledger_sum-own :
    (id : Uuid) (e : LedgerRow) (es : List LedgerRow)
    → e.wallet_id ≡ id
    → ledger_sum id (e ∷ es) ≡ signed e.direction e.amount_minor +ℤ ledger_sum id es
unfolding ledger_sum
ledger_sum-own id e es h = rw ((eqb_iff e.wallet_id id).1 h)

pub ledger_sum-other :
    (j : Uuid) (e : LedgerRow) (es : List LedgerRow)
    → (e.wallet_id == j) ≡ false
    → ledger_sum j (e ∷ es) ≡ ledger_sum j es
unfolding ledger_sum
ledger_sum-other j e es h = rw h

-- An update of one wallet that is stored.
module _ (id : Uuid) (f : WalletRow → WalletRow) (row : WalletRow) (ws : List WalletRow)
    (keep : (w : WalletRow) → (f w).id ≡ w.id) (here : find (has_id id) ws ≡ some row) where
  pub find-updated : find (has_id id) (update (has_id id) f ws) ≡ some (f row)
  find-updated = rw (find-update id id f ws keep, (eqb_iff id id).1 refl, here) refl

  find-elsewhere :
      (j : Uuid)
      → (id == j) ≡ false
      → find (has_id j) (update (has_id id) f ws) ≡ find (has_id j) ws
  find-elsewhere j h = rw (find-update id j f ws keep, h) refl

  -- A statement about every wallet that is found after the update.
  by_wallet :
      (P : Uuid → WalletRow → Type 0)
      → P id (f row)
      → ((j : Uuid) (w : WalletRow) → (id == j) ≡ false → find (has_id j) ws ≡ some w → P j w)
      → (j : Uuid) (w : WalletRow) → find (has_id j) (update (has_id id) f ws) ≡ some w
      → P j w
  by_wallet P own other j w h = elim (Bool-cases (id == j)) [
    | inl same ↦
        subst (λ (k : Uuid). find (has_id k) (update (has_id id) f ws) ≡ some w → P k w)
          ((eqb_iff id j).0 same)
          (λ (g : find (has_id id) (update (has_id id) f ws) ≡ some w).
            subst (P id) (some-inj (sym find-updated ∙ g)) own)
          h
    | inr apart ↦ other j w apart (sym (find-elsewhere j apart) ∙ h)
  ]

  -- A new entry of the wallet and the balance that it leads to keep the tables sound.
  pub post-Sound :
      (e : LedgerRow) (es : List LedgerRow)
      → e.wallet_id ≡ id
      → (f row).balance_minor ≡ signed e.direction e.amount_minor +ℤ row.balance_minor
      → IsInt64 (f row).balance_minor × IsInt64 (f row).version
      → Sound ws es
      → Sound (update (has_id id) f ws) (e ∷ es)
  post-Sound e es own new fits s = record {
    reconciled =
        by_wallet (λ j w. w.balance_minor ≡ ledger_sum j (e ∷ es))
          (new ∙ rw (s.reconciled id row here) (sym (ledger_sum-own id e es own)))
          (λ j w apart g. s.reconciled j w g ∙ sym (ledger_sum-other j e es (rw own apart)));
    bigints =
        by_wallet (λ j w. IsInt64 w.balance_minor × IsInt64 w.version) fits
          (λ j w apart g. s.bigints j w g);
  }
