-- ===== src/Wager/Reversals.antt =====
-- internal/usecases/wager.go: refunds and rollbacks, and what they take back.
use text.Mathlib.TextEquality.{eq_iff}
use apostas_api.Prelude.{
  ◌≡◌, ◌≢◌, ◌⊎◌, refl, sym, false, Option, none, some, arith, Bool-cases, or_eq_false, goes_on, inl,
  inr, ◌&&◌, ◌||◌, if◌then◌else◌, ◌∙◌,
}
use apostas_api.Prelude.Eq.{◌==◌, ◌!=◌, nat_eq, string_eq}
use apostas_api.Result.{Result, ok, err}
use apostas_api.Values.{Time}
use apostas_api.Money.{Currencies, Money, money_eq, money_beq_iff}
use apostas_api.Wallet.{Wallet}
use apostas_api.LedgerEntry.{Direction, debit, credit}
use apostas_api.Transaction.{
  Kind, bet, win, loss, refund, rollback, processed, rejected, kind_eq, kind_beq_iff,
  status_beq_iff, loss,
}
use apostas_api.Wager.{
  Operation, Reference, Decision, check_reference, reversal_reference, conclude, move_balance,
  after_check, decide, is_debit, reference_id_of, is_unsettled, bad_reversal_reference,
  bad_reversal_kind,
}
use apostas_api.Wager.Outcomes.{Early, check_reference_elim}

-- The kinds that a reversal may take back: a refund a bet, a rollback a bet, a win or a refund.
abbrev pub Reversible : Kind → Kind → Type 0
Reversible refund k = k ≡ bet
Reversible rollback k = (k ≡ bet) ⊎ (k ≡ win) ⊎ (k ≡ refund)
Reversible _ k = ⊥

-- A transaction that the operation may take back.
pub record Reverses (op : Operation) (r : Reference) : Type 0 where
  pub settled : r.status ≡ processed
  pub player : r.player_id ≡ op.player_id
  pub wallet : r.wallet_id ≡ op.wallet_id
  pub round : r.round_id ≡ op.round_id
  pub money : r.money ≡ op.money
  pub first : r.already_reversed ≡ false
  pub kind : Reversible op.kind r.kind

good_reversal_kind :
    (op : Operation) (r : Reference)
    → (op.kind ≡ refund) ⊎ (op.kind ≡ rollback)
    → bad_reversal_kind op r ≡ false
    → Reversible op.kind r.kind
good_reversal_kind op r (inl e) h = rw e (ground (arith, e, kind_beq_iff r.kind bet))
good_reversal_kind op r (inr e) h = rw e (
    ground (arith, e, kind_beq_iff r.kind bet, kind_beq_iff r.kind win, kind_beq_iff r.kind refund))

good_reversal :
    (op : Operation) (r : Reference)
    → bad_reversal_reference op r ≡ false
    → Reversible op.kind r.kind
    → Reverses op r
good_reversal op r h k = record {
  settled = ground (arith, status_beq_iff r.status processed);
  player = ground arith;
  wallet = ground arith;
  round = ground (arith, eq_iff r.round_id op.round_id);
  money = ground (arith, money_beq_iff r.money op.money);
  first = ground arith;
  kind = k;
}

rejected_ne : rejected ≢ processed
rejected_ne e = cc

reversal_reference-Reverses :
    (op : Operation) (r : Reference)
    → (op.kind ≡ refund) ⊎ (op.kind ≡ rollback)
    → reversal_reference op (some r) ≡ none
    → Reverses op r
unfolding reversal_reference
reversal_reference-Reverses op r k h =
    let (settled, good) = goes_on (is_unsettled (some r)) _ _ _ h in
    let (reference, kind) =
      or_eq_false (bad_reversal_reference op r) (bad_reversal_kind op r) good in
    good_reversal op r reference (good_reversal_kind op r k kind)

module _ ⦃iso : Currencies⦄ where
  after_check-processed :
      (early : Option Decision) (op : Operation) (w : Wallet) (ref : Option Reference) (now : Time)
      → Early (λ d. d.status ≢ processed) early
      → (after_check early op w ref now).0.status ≡ processed
      → early ≡ none
  after_check-processed none op w ref now e h = refl
  after_check-processed (some d) op w ref now e h = absurd (e h)

  -- A processed operation other than a loss has passed every check and has moved the balance.
  pub processed_moves :
      (op : Operation) (w : Wallet) (ref : Option Reference) (now : Time)
      → (op.kind == loss) ≡ false
      → (decide op w ref now).0.status ≡ processed
      → (check_reference op ref ≡ none)
        × (decide op w ref now ≡ move_balance op w ref now)
        × (w.player_id ≡ op.player_id)
        × (w.balance.currency ≡ op.money.currency)
  unfolding decide
  processed_moves op w ref now k h =
      elim (Bool-cases (w.player_id != op.player_id || w.balance.currency != op.money.currency)) [
        | inl mismatch ↦ absurd (rejected_ne (rw mismatch at h))
        | inr match ↦
            let passed : check_reference op ref ≡ none =
              after_check-processed (check_reference op ref) op w ref now
                (check_reference_elim (λ d. d.status ≢ processed) (λ e. cc) (λ e. cc) op ref)
                (rw (match, k) at h) in
            (
              passed,
              rw (match, k, passed),
              ground (arith, match),
              ground (arith, match, eq_iff w.balance.currency op.money.currency),
            )
      ]

  check_reference-reversal :
      (op : Operation) (ref : Option Reference)
      → (op.kind ≡ refund) ⊎ (op.kind ≡ rollback)
      → check_reference op ref ≡ reversal_reference op ref
  unfolding check_reference
  check_reference-reversal op ref (inl e) = rw e
  check_reference-reversal op ref (inr e) = rw e

  reversal-not-loss : (k : Kind) → (k ≡ refund) ⊎ (k ≡ rollback) → (k == loss) ≡ false
  reversal-not-loss k h = ground arith

  reversal_reference-some :
      (op : Operation) (ref : Option Reference)
      → (op.kind ≡ refund) ⊎ (op.kind ≡ rollback)
      → reversal_reference op ref ≡ none
      → (r : Reference) × (ref ≡ some r) × Reverses op r
  unfolding reversal_reference
  reversal_reference-some op none k h = cc
  reversal_reference-some op (some r) k h = (r, refl, reversal_reference-Reverses op r k h)

  -- A refund or rollback is processed only against a stored transaction that is itself processed,
  -- of the same player, wallet, round and exact amount of money, not taken back before, and of a
  -- kind that it may take back.
  pub reversal_sound :
      (op : Operation) (w : Wallet) (ref : Option Reference) (now : Time)
      → (op.kind ≡ refund) ⊎ (op.kind ≡ rollback)
      → (decide op w ref now).0.status ≡ processed
      → (r : Reference) × (ref ≡ some r) × Reverses op r
  reversal_sound op w ref now k h =
      let (passed, moved, player, currency) =
        processed_moves op w ref now (reversal-not-loss op.kind k) h in
      reversal_reference-some op ref k (sym (check_reference-reversal op ref k) ∙ passed)

  -- The direction in which a processed transaction of a kind moved the balance.
  abbrev pub moved_by : Kind → Direction
  moved_by bet = debit
  moved_by _ = credit

  abbrev pub opposite : Direction → Direction
  opposite debit = credit
  opposite credit = debit
  opposite d = d

  opposite_direction :
      (k j : Kind)
      → (k ≡ refund) ⊎ (k ≡ rollback)
      → Reversible k j
      → (if k == bet || k == rollback && (j == win || j == refund) then debit else credit)
        ≡ opposite (moved_by j)
  opposite_direction refund j h p = ground arith
  opposite_direction rollback j h p = ground arith
  opposite_direction _ j h p = elim p [ ]

  conclude-processed :
      (op : Operation) (ref : Option Reference) (w : Wallet) (x : Result (Money × Wallet))
      → (conclude op ref w x).0.status ≡ processed
      → ((conclude op ref w x).0.direction ≡ (if is_debit op ref then debit else credit))
        × ((conclude op ref w x).0.reference_id ≡ reference_id_of ref)
  unfolding conclude
  conclude-processed op ref w (ok (b, w')) h = (refl, refl)
  conclude-processed op ref w (err e) h = absurd (rejected_ne h)

  -- A processed reversal names the transaction that it takes back, and the opposite direction.
  pub reversal_direction :
      (op : Operation) (w : Wallet) (r : Reference) (now : Time)
      → (op.kind ≡ refund) ⊎ (op.kind ≡ rollback)
      → (decide op w (some r) now).0.status ≡ processed
      → ((decide op w (some r) now).0.direction ≡ opposite (moved_by r.kind))
        × ((decide op w (some r) now).0.reference_id ≡ r.id)
  unfolding move_balance
  reversal_direction op w r now k h =
      let (passed, moved, player, currency) =
        processed_moves op w (some r) now (reversal-not-loss op.kind k) h in
      let facts =
        reversal_reference-Reverses op r k
          (sym (check_reference-reversal op (some r) k) ∙ passed) in
      let (dir, ref) = conclude-processed op (some r) w _ (rw moved at h) in
      rw moved (dir ∙ opposite_direction op.kind r.kind k facts.kind, ref)
