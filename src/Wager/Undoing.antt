-- ===== src/Wager/Undoing.antt =====
-- internal/usecases/wager.go: a refund or rollback takes back what the transaction did.
use mathlib.Core.Path.{subst}
use apostas_api.Prelude.{◌≡◌, ◌⊎◌, true, some, some-inj, sym, ◌∙◌, ap, inl, inr}
use apostas_api.Prelude.Int.{ℤ, pos, ◌+ℤ◌, ◌-ℤ◌, int_laws}
use apostas_api.Prelude.Int64.{IsInt64}
use apostas_api.Values.{Time}
use apostas_api.Money.{Currencies, Money}
use apostas_api.Wallet.{Wallet, is_valid}
use apostas_api.Wallet.Laws.{Fits}
use apostas_api.Transaction.{Kind, bet, win, refund, rollback, processed}
use apostas_api.Wager.{Operation, Reference, decide}
use apostas_api.Wager.Balances.{Effect, decide-Applied}
use apostas_api.Wager.Reversals.{
  Reverses, Reversible, moved_by, opposite, reversal_sound, reversal_direction,
}

-- What a processed transaction of a kind added to the balance, as the kind says.
abbrev pub change : Kind → ℤ → ℤ
change bet a = pos 0 -ℤ a
change win a = a
change refund a = a
change _ a = pos 0

up_again : (b a : ℤ) → b +ℤ a +ℤ (pos 0 -ℤ a) ≡ b
up_again b a = omega int_laws

down_again : (b a : ℤ) → b -ℤ a +ℤ a ≡ b
down_again b a = omega int_laws

-- The balance after a move in the opposite direction, and the move of the kind on top.
undone :
    ⦃iso : Currencies⦄ (j : Kind) (m : Money) (w : Wallet) (now : Time) (before : Money)
    (w' : Wallet)
    → (j ≡ bet) ⊎ (j ≡ win) ⊎ (j ≡ refund)
    → Effect (opposite (moved_by j)) m w now before w'
    → w'.balance.minor +ℤ change j m.minor ≡ w.balance.minor
undone bet m w now before w' h (e, _) =
    ap (λ (x : Wallet). x.balance.minor +ℤ (pos 0 -ℤ m.minor)) e ∙ up_again w.balance.minor m.minor
undone win m w now before w' h (e, _, _) =
    ap (λ (x : Wallet). x.balance.minor +ℤ m.minor) e ∙ down_again w.balance.minor m.minor
undone refund m w now before w' h (e, _, _) =
    ap (λ (x : Wallet). x.balance.minor +ℤ m.minor) e ∙ down_again w.balance.minor m.minor
undone j m w now before w' h eff = elim h [ inl e ↦ cc | inr (inl e) ↦ cc | inr (inr e) ↦ cc ]

taken_back :
    (k j : Kind)
    → (k ≡ refund) ⊎ (k ≡ rollback)
    → Reversible k j
    → (j ≡ bet) ⊎ (j ≡ win) ⊎ (j ≡ refund)
taken_back refund j h p = inl p
taken_back rollback j h p = p
taken_back _ j h p = elim p [ ]

module _ ⦃iso : Currencies⦄ where
  -- On a valid wallet with int64 balance and version, a refund or rollback of an int64 amount that is
  -- processed names the transaction that it takes back, and undoes it: the balance afterwards and what
  -- the transaction of that kind added with its amount (a bet took it, a win or a refund gave it) make
  -- the balance before.
  pub reversal_undoes :
      (op : Operation) (w : Wallet) (r : Reference) (now : Time)
      → is_valid w ≡ true
      → Fits w
      → IsInt64 op.money.minor
      → (op.kind ≡ refund) ⊎ (op.kind ≡ rollback)
      → (decide op w (some r) now).0.status ≡ processed
      → ((decide op w (some r) now).0.reference_id ≡ r.id)
        × ((decide op w (some r) now).1.balance.minor +ℤ change r.kind r.money.minor
            ≡ w.balance.minor)
  reversal_undoes op w r now valid fits amount k h =
      let (dir, ref) = reversal_direction op w r now k h in
      let (r', same, facts) = reversal_sound op w (some r) now k h in
      let own : Reverses op r = subst (Reverses op) (sym (some-inj same)) facts in
      let a = decide-Applied op w (some r) now valid fits amount in
      let (d, w') = decide op w (some r) now in
      let effect : Effect (opposite (moved_by r.kind)) op.money w now d.balance_before w' =
        rw dir at a.effect in
      (
        ref,
        ap (λ (m : Money). w'.balance.minor +ℤ change r.kind m.minor) own.money
            ∙ undone r.kind op.money w now d.balance_before w'
                (taken_back op.kind r.kind k own.kind) effect,
      )
