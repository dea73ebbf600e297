-- ===== src/Wager/Balances.antt =====
-- What a decision does to the wallet.
use apostas_api.Prelude.{
  ◌≡◌, refl, true, false, Option, none, some, String, Bool-cases, inl, inr, if_elim, ◌||◌,
}
use apostas_api.Prelude.Int.{◌+ℤ◌, ◌-ℤ◌, ◌≤ℤ◌}
use apostas_api.Prelude.Int64.{IsInt64}
use apostas_api.Prelude.Eq.{◌==◌, ◌!=◌, nat_eq, string_eq}
use apostas_api.Result.{Result, ok, err}
use apostas_api.Values.{Time}
use apostas_api.Money.{Currencies, Money}
use apostas_api.Wallet.{Wallet, is_valid}
use apostas_api.Wallet
use apostas_api.Wallet.Laws.{
  Fits, moved, credit-eq-ok, debit-eq-ok, credit-is_valid, debit-is_valid,
}
use apostas_api.LedgerEntry.{Direction, debit, credit}
use apostas_api.Transaction.{loss, Status, processed, rejected, kind_eq}
use apostas_api.Wager.{
  Operation, Reference, Decision, decision, check_reference, conclude, move_balance, after_check,
  decide, is_debit,
}
use apostas_api.Wager.Outcomes.{Early, check_reference_elim}

-- The wallet after a decision, by its direction: the exact sum or difference at the next version,
-- with the balance before recorded, or no change at all.
abbrev pub Effect : Direction → Money → Wallet → Time → Money → Wallet → Type 0
Effect credit m w now b w' = (w' ≡ moved w (w.balance.minor +ℤ m.minor) now) × (b ≡ w.balance)
Effect debit m w now b w' =
    (w' ≡ moved w (w.balance.minor -ℤ m.minor) now) × (b ≡ w.balance) × (m.minor ≤ℤ w.balance.minor)
Effect (Direction.other s) m w now b w' = (s ≡ "") × (w' ≡ w)

module _ ⦃iso : Currencies⦄ where
  -- The decision and the wallet fit, and the wallet stays valid.
  pub record Applied (op : Operation) (w : Wallet) (now : Time) (r : Decision × Wallet)
      : Type 0 where
    pub effect : Effect r.0.direction op.money w now r.0.balance_before r.1
    pub valid_after : is_valid r.1 ≡ true
    pub fits_after : Fits r.1

  unchanged :
      (op : Operation) (w : Wallet) (now : Time) (s : Status) (code : String)
      → is_valid w ≡ true
      → Fits w
      → Applied op w now (decision s code, w)
  unchanged op w now s code v f = record { effect = (refl, refl); valid_after = v; fits_after = f }

  -- The wallet's answer, taken for a debit and for a credit.
  module _ (op : Operation) (ref : Option Reference) (w : Wallet) (now : Time) where
    conclude-debit :
        (r : Result (Money × Wallet))
        → is_valid w ≡ true
        → Fits w
        → IsInt64 op.money.minor
        → is_debit op ref ≡ true
        → Wallet.debit w op.money now ≡ r
        → Applied op w now (conclude op ref w r)
    unfolding conclude
    conclude-debit (ok (b, w')) v f m down e =
        let (h, be, we, le) = debit-eq-ok w op.money now f m e in
        let (v', f') = debit-is_valid w op.money now f m e in
        record { effect = rw down (we, be, le); valid_after = v'; fits_after = f' }
    conclude-debit (err x) v f m down e = unchanged op w now rejected _ v f

    conclude-credit :
        (r : Result (Money × Wallet))
        → is_valid w ≡ true
        → Fits w
        → IsInt64 op.money.minor
        → is_debit op ref ≡ false
        → Wallet.credit w op.money now ≡ r
        → Applied op w now (conclude op ref w r)
    unfolding conclude
    conclude-credit (ok (b, w')) v f m up e =
        let (h, be, we, hi) = credit-eq-ok w op.money now f m e in
        let (v', f') = credit-is_valid w op.money now f m e in
        record { effect = rw up (we, be); valid_after = v'; fits_after = f' }
    conclude-credit (err x) v f m up e = unchanged op w now rejected _ v f

  move_balance-Applied :
      (op : Operation) (w : Wallet) (ref : Option Reference) (now : Time)
      → is_valid w ≡ true
      → Fits w
      → IsInt64 op.money.minor
      → Applied op w now (move_balance op w ref now)
  unfolding move_balance
  move_balance-Applied op w ref now v f m = elim (Bool-cases (is_debit op ref)) [
    | inl down ↦ rw down (conclude-debit op ref w now _ v f m down refl)
    | inr up ↦ rw up (conclude-credit op ref w now _ v f m up refl)
  ]

  -- A decision that moves no money.
  abbrev Still : Decision → Type 0
  Still d = d.direction ≡ Direction.other ""

  after_check-Applied :
      (early : Option Decision) (op : Operation) (w : Wallet) (ref : Option Reference) (now : Time)
      → Early Still early
      → is_valid w ≡ true
      → Fits w
      → IsInt64 op.money.minor
      → Applied op w now (after_check early op w ref now)
  after_check-Applied none op w ref now h v f m = move_balance-Applied op w ref now v f m
  after_check-Applied (some d) op w ref now h v f m = record {
    effect = rw h (refl, refl);
    valid_after = v;
    fits_after = f;
  }

  -- A decision on a valid wallet changes the balance by exactly the operation's amount, up for a
  -- credit and down for a debit that the balance covers, at the next version, and records the
  -- balance before; without a direction the wallet stays as it is. The wallet stays valid.
  pub decide-Applied :
      (op : Operation) (w : Wallet) (ref : Option Reference) (now : Time)
      → is_valid w ≡ true
      → Fits w
      → IsInt64 op.money.minor
      → Applied op w now (decide op w ref now)
  unfolding decide
  decide-Applied op w ref now v f m =
      let P : Decision × Wallet → Type 0 = λ r. Applied op w now r in
      if_elim P (w.player_id != op.player_id || w.balance.currency != op.money.currency)
        (unchanged op w now rejected "WALLET_MISMATCH" v f)
        (if_elim P (op.kind == loss) (unchanged op w now processed "" v f) (
          after_check-Applied (check_reference op ref) op w ref now
            (check_reference_elim Still refl refl op ref) v f m))
