-- ===== src/Wager/Outcomes.antt =====
-- The shape of every decision of `Decide`.
use apostas_api.Prelude.{
  ◌≡◌, ◌≢◌, refl, Bool, false, Option, none, some, String, arith, ◌||◌, ◌&&◌, if◌then◌else◌,
  if_elim,
}
use apostas_api.Prelude.Eq.{◌==◌, ◌!=◌, nat_eq, string_eq}
use apostas_api.Result.{Error, insufficient_funds, Result, ok, err}
use apostas_api.Values.{Uuid, Time}
use apostas_api.Money.{Currencies, Money}
use apostas_api.Wallet.{Wallet}
use apostas_api.Transaction.{
  Kind, loss, win, refund, rollback, processed, rejected, pending_reference, kind_eq, status_eq,
}
use apostas_api.Transaction.Machine.{Outcome, park, accept}
use apostas_api.Transaction.Machine
use apostas_api.LedgerEntry.{Direction}
use apostas_api.WagerTransaction.{bad_code, bad_reference}
use apostas_api.Wager.{
  Operation, Reference, Decision, decision, win_reference, reversal_reference, check_reference,
  conclude, move_balance, after_check, decide, refusal_code, is_unsettled, bad_win_reference,
  bad_reversal_reference, bad_reversal_kind,
}

-- What `Transition` and the store ask of a decision: an outcome, a failure code exactly for a
-- rejection, a reference and a direction for a processed one only.
pub record WellFormed (d : Decision) : Type 0 where
  pub outcome : Outcome d.status
  pub code : bad_code d.status d.failure_code ≡ false
  pub reference : bad_reference d.reference_id d.status ≡ false
  pub moves_when_processed : d.direction ≢ Direction.other "" → d.status ≡ processed

reject-WellFormed : (s : String) → (s == "") ≡ false → WellFormed (decision rejected s)
unfolding bad_code bad_reference
reject-WellFormed s h = record {
  outcome = Machine.reject;
  code = ground arith;
  reference = refl;
  moves_when_processed = λ n. absurd (n refl);
}

parked-WellFormed : WellFormed (decision pending_reference "")
unfolding bad_code bad_reference
parked-WellFormed = record {
  outcome = park;
  code = refl;
  reference = refl;
  moves_when_processed = λ n. absurd (n refl);
}

accepted-WellFormed :
    (dir : Direction) (b : Money) (r : Uuid)
    → WellFormed (record {
      status = processed;
      failure_code = "";
      direction = dir;
      balance_before = b;
      reference_id = r;
    })
unfolding bad_code bad_reference
accepted-WellFormed dir b r = record {
  outcome = accept;
  code = refl;
  reference = ground arith;
  moves_when_processed = λ n. refl;
}

refusal_code-ne-empty : (k : Kind) (e : Error) → (refusal_code k e == "") ≡ false
refusal_code-ne-empty k insufficient_funds =
    if_elim {A = String} (λ s. (s == "") ≡ false) (k == rollback) refl refl
refusal_code-ne-empty k _ = refl

conclude-WellFormed :
    (op : Operation) (ref : Option Reference) (w : Wallet) (r : Result (Money × Wallet))
    → WellFormed (conclude op ref w r).0
unfolding conclude
conclude-WellFormed op ref w (ok (b, w')) = accepted-WellFormed _ b _
conclude-WellFormed op ref w (err e) = reject-WellFormed _ (refusal_code-ne-empty op.kind e)

-- A property of the decision, where one is made.
abbrev pub Early : (Decision → Type 0) → Option Decision → Type 0
Early P none = Unit
Early P (some d) = P d

-- The check of the reference parks the operation, rejects it, or goes on.
module _ (P : Decision → Type 0) (parked : P (decision pending_reference ""))
    (refused : P (decision rejected "INVALID_REFERENCE")) where
  settle_or :
      (r : Reference) (bad : Bool)
      → Early P (
          if is_unsettled (some r)
          then some (decision pending_reference "")
          else if bad
          then some (decision rejected "INVALID_REFERENCE")
          else none)
  settle_or r bad =
      if_elim (Early P) (is_unsettled (some r)) parked (if_elim (Early P) bad refused tt)

  win_reference_elim : (op : Operation) (ref : Option Reference) → Early P (win_reference op ref)
  unfolding win_reference
  win_reference_elim op none = parked
  win_reference_elim op (some r) = settle_or r (bad_win_reference op r)

  reversal_reference_elim :
      (op : Operation) (ref : Option Reference) → Early P (reversal_reference op ref)
  unfolding reversal_reference
  reversal_reference_elim op none = parked
  reversal_reference_elim op (some r) =
      settle_or r (bad_reversal_reference op r || bad_reversal_kind op r)

  pub check_reference_elim :
      (op : Operation) (ref : Option Reference) → Early P (check_reference op ref)
  unfolding check_reference
  check_reference_elim op ref =
      if_elim (Early P) (op.kind == win && op.reference_external_transaction_id != "")
        (win_reference_elim op ref)
        (if_elim (Early P) (op.kind == refund || op.kind == rollback)
          (reversal_reference_elim op ref) tt)

module _ ⦃iso : Currencies⦄ where
  after_check-WellFormed :
      (early : Option Decision) (op : Operation) (w : Wallet) (ref : Option Reference) (now : Time)
      → Early WellFormed early
      → WellFormed (after_check early op w ref now).0
  unfolding move_balance
  after_check-WellFormed none op w ref now h = conclude-WellFormed op ref w _
  after_check-WellFormed (some d) op w ref now h = h

  -- Every decision, on every branch, has the shape that the transition and the store ask for.
  pub decide-WellFormed :
      (op : Operation) (w : Wallet) (ref : Option Reference) (now : Time)
      → WellFormed (decide op w ref now).0
  unfolding decide
  decide-WellFormed op w ref now =
      let P : Decision × Wallet → Type 0 = λ r. WellFormed r.0 in
      if_elim P (w.player_id != op.player_id || w.balance.currency != op.money.currency)
        (reject-WellFormed "WALLET_MISMATCH" refl)
        (if_elim P (op.kind == loss) (accepted-WellFormed _ _ _) (
          after_check-WellFormed (check_reference op ref) op w ref now (
            check_reference_elim WellFormed parked-WellFormed
              (reject-WellFormed "INVALID_REFERENCE" refl) op ref)))
